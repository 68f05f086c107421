-- ===== src/Xml/Lex.antt =====
-- The table of tags and sfccLex of backend/cimxml/cimXmlParser.c.
use sblim_sfcc.Base.{
  ℕ, zero, suc, false, List, [], ◌∷◌, Option, none, some, if◌then◌else◌, length, Bytes, codes,
}
use sblim_sfcc.Xml.{
  Token, Outcome, done, fault, endless, ◌>>=◌, XmlBuffer, pointee, skip_ws, get_char, get_chars,
  next_equals, cut_at_text, skip_tag, ztok_cdata, ztok_cim, ztok_class, ztok_classname,
  ztok_classpath, ztok_error, ztok_expmethodcall, ztok_expparamvalue, ztok_host, ztok_imethodresp,
  ztok_instance, ztok_instancename, ztok_instancepath, ztok_iretvalue, ztok_keybinding,
  ztok_keyvalue, ztok_localclasspath, ztok_localinstancepath, ztok_localnamespacepath, ztok_message,
  ztok_method, ztok_methodresp, ztok_namespace, ztok_namespacepath, ztok_objectpath, ztok_param,
  ztok_paramarray, ztok_paramref, ztok_paramrefarray, ztok_paramvalue, ztok_property,
  ztok_propertyarray, ztok_propertyreference, ztok_qualifier, ztok_retvalue, ztok_simpleexpreq,
  ztok_simplersp, ztok_value, ztok_valuearray, ztok_valuenamedinstance, ztok_valueobjectwithpath,
  ztok_valuerefarray, ztok_valuereference, ztok_xml,
}
use sblim_sfcc.Xml.Reply.{Reply, reply, no_reply, untouched}
use sblim_sfcc.Xml.Messages.{
  proc_xml, proc_cim, proc_message, proc_simple_resp, proc_i_method_resp, proc_method_resp,
  proc_error_resp, proc_i_ret_value, proc_ret_value, proc_param_value, proc_key_value, proc_host,
  proc_value, proc_value_array, proc_value_ref_array, proc_simple_exp_req, proc_export_method_call,
  proc_ex_param_value,
}
use sblim_sfcc.Xml.Paths.{
  proc_local_name_space_path, proc_class_path, proc_local_class_path, proc_local_instance_path,
  proc_object_path, proc_name_space, proc_class_name, proc_instance_name, proc_key_binding,
  proc_value_named_instance, proc_instance_path, proc_name_space_path, proc_value_reference,
  proc_value_object_with_path,
}
use sblim_sfcc.Xml.Declarations.{
  proc_instance, proc_class, proc_qualifier, proc_property, proc_property_array,
  proc_property_reference, proc_method, proc_param, proc_param_array, proc_param_ref,
  proc_param_ref_array, proc_cdata,
}

-- struct tags; the length of the tag is that of its text.
pub record Tag : Type 0 where
  pub tag : Bytes
  pub process : XmlBuffer → Outcome Reply
  pub etag : Token

abbrev pub tags : List Tag
tags =
    record { tag = codes "?xml"; process = proc_xml; etag = ztok_xml }
    ∷ record { tag = codes "CIM"; process = proc_cim; etag = ztok_cim }
    ∷ record { tag = codes "MESSAGE"; process = proc_message; etag = ztok_message }
    ∷ record { tag = codes "SIMPLERSP"; process = proc_simple_resp; etag = ztok_simplersp }
    ∷ record { tag = codes "ERROR"; process = proc_error_resp; etag = ztok_error }
    ∷ record {
      tag = codes "IMETHODRESPONSE";
      process = proc_i_method_resp;
      etag = ztok_imethodresp;
    }
    ∷ record { tag = codes "IRETURNVALUE"; process = proc_i_ret_value; etag = ztok_iretvalue }
    ∷ record {
      tag = codes "LOCALNAMESPACEPATH";
      process = proc_local_name_space_path;
      etag = ztok_localnamespacepath;
    }
    ∷ record {
      tag = codes "LOCALINSTANCEPATH";
      process = proc_local_instance_path;
      etag = ztok_localinstancepath;
    }
    ∷ record {
      tag = codes "LOCALCLASSPATH";
      process = proc_local_class_path;
      etag = ztok_localclasspath;
    }
    ∷ record {
      tag = codes "NAMESPACEPATH";
      process = proc_name_space_path;
      etag = ztok_namespacepath;
    }
    ∷ record { tag = codes "NAMESPACE"; process = proc_name_space; etag = ztok_namespace }
    ∷ record { tag = codes "PARAMVALUE"; process = proc_param_value; etag = ztok_paramvalue }
    ∷ record { tag = codes "CLASSNAME"; process = proc_class_name; etag = ztok_classname }
    ∷ record { tag = codes "VALUE.ARRAY"; process = proc_value_array; etag = ztok_valuearray }
    ∷ record {
      tag = codes "VALUE.NAMEDINSTANCE";
      process = proc_value_named_instance;
      etag = ztok_valuenamedinstance;
    }
    ∷ record {
      tag = codes "VALUE.REFERENCE";
      process = proc_value_reference;
      etag = ztok_valuereference;
    }
    ∷ record {
      tag = codes "VALUE.REFARRAY";
      process = proc_value_ref_array;
      etag = ztok_valuerefarray;
    }
    ∷ record {
      tag = codes "VALUE.OBJECTWITHPATH";
      process = proc_value_object_with_path;
      etag = ztok_valueobjectwithpath;
    }
    ∷ record { tag = codes "VALUE"; process = proc_value; etag = ztok_value }
    ∷ record { tag = codes "HOST"; process = proc_host; etag = ztok_host }
    ∷ record { tag = codes "KEYVALUE"; process = proc_key_value; etag = ztok_keyvalue }
    ∷ record { tag = codes "KEYBINDING"; process = proc_key_binding; etag = ztok_keybinding }
    ∷ record { tag = codes "INSTANCEPATH"; process = proc_instance_path; etag = ztok_instancepath }
    ∷ record { tag = codes "INSTANCENAME"; process = proc_instance_name; etag = ztok_instancename }
    ∷ record { tag = codes "INSTANCE"; process = proc_instance; etag = ztok_instance }
    ∷ record {
      tag = codes "PROPERTY.REFERENCE";
      process = proc_property_reference;
      etag = ztok_propertyreference;
    }
    ∷ record {
      tag = codes "PROPERTY.ARRAY";
      process = proc_property_array;
      etag = ztok_propertyarray;
    }
    ∷ record { tag = codes "PROPERTY"; process = proc_property; etag = ztok_property }
    ∷ record { tag = codes "QUALIFIER"; process = proc_qualifier; etag = ztok_qualifier }
    ∷ record { tag = codes "PARAMETER.ARRAY"; process = proc_param_array; etag = ztok_paramarray }
    ∷ record { tag = codes "PARAMETER.REFERENCE"; process = proc_param_ref; etag = ztok_paramref }
    ∷ record {
      tag = codes "PARAMETER.REFARRAY";
      process = proc_param_ref_array;
      etag = ztok_paramrefarray;
    }
    ∷ record { tag = codes "PARAMETER"; process = proc_param; etag = ztok_param }
    ∷ record { tag = codes "METHOD"; process = proc_method; etag = ztok_method }
    ∷ record { tag = codes "CLASS"; process = proc_class; etag = ztok_class }
    ∷ record { tag = codes "OBJECTPATH"; process = proc_object_path; etag = ztok_objectpath }
    ∷ record { tag = codes "METHODRESPONSE"; process = proc_method_resp; etag = ztok_methodresp }
    ∷ record { tag = codes "RETURNVALUE"; process = proc_ret_value; etag = ztok_retvalue }
    ∷ record { tag = codes "CLASSPATH"; process = proc_class_path; etag = ztok_classpath }
    ∷ record { tag = codes "SIMPLEEXPREQ"; process = proc_simple_exp_req; etag = ztok_simpleexpreq }
    ∷ record {
      tag = codes "EXPMETHODCALL";
      process = proc_export_method_call;
      etag = ztok_expmethodcall;
    }
    ∷ record {
      tag = codes "EXPPARAMVALUE";
      process = proc_ex_param_value;
      etag = ztok_expparamvalue;
    }
    ∷ record { tag = codes "![CDATA["; process = proc_cdata; etag = ztok_cdata }
    ∷ record { tag = codes ""; process = proc_cdata; etag = ztok_cdata }
    ∷ []

-- The first entry whose tag stands at a place.
unfoldable pub find_tag : List Tag → Bytes → Option Tag
unfolding next_equals
find_tag [] next = none
find_tag (t ∷ ts) next = if next_equals next t.tag then some t else find_tag ts next

-- nextTag behind its test of `nulledChar`: the blanks are passed, and a `<` is looked for.
unfoldable pub next_tag : XmlBuffer → Bytes → Option Bytes × XmlBuffer
unfolding skip_ws get_char
next_tag xb [] = (none, xb)
next_tag xb (c ∷ cs) =
    if xb.nulled
    then (some cs, record xb { nulled = false })
    else (get_char (skip_ws (c ∷ cs)) b'<', record xb { cur = some (skip_ws (c ∷ cs)) })

-- An end tag.
unfoldable pub end_tag : Bytes → XmlBuffer → Bytes → Outcome Reply
unfolding find_tag skip_tag
end_tag name xb cur = elim (find_tag tags name) [
  | none ↦ done (no_reply xb)
  | some t ↦ skip_tag cur >>= λ r. done (reply t.etag untouched none (record xb { cur = some r }))
]

-- A start tag.
unfoldable pub start_tag : Bytes → XmlBuffer → Outcome Reply
unfolding find_tag
start_tag next xb = elim (find_tag tags next) [ none ↦ done (no_reply xb) | some t ↦ t.process xb ]

-- The place behind a comment; where it is not closed, `strstr` gives NULL.
unfoldable pub skip_comment : Bytes → Outcome Bytes
unfolding cut_at_text
skip_comment cur = elim (cut_at_text (codes "-->") cur) [ none ↦ fault | some (s, r) ↦ done r ]

-- What sfccLex does at a `<` in front of `next`; `again` is the next round of its loop.
unfoldable pub lex_tag : (XmlBuffer → Outcome Reply) → Bytes → XmlBuffer → Bytes → Outcome Reply
unfolding get_char get_chars end_tag start_tag skip_comment
lex_tag again next xb cur =
    if xb.e_tag_found
    then done (reply xb.etag untouched none (record xb { e_tag_found = false }))
    else elim (get_char next b'/') [
      | some name ↦ end_tag name xb cur
      | none ↦ elim (get_chars cur (codes "<!--")) [
        | some r ↦ skip_comment cur >>= λ c. again (record xb { cur = some c })
        | none ↦ start_tag next xb
      ]
    ]

-- What follows nextTag.
unfoldable pub after_next : (XmlBuffer → Outcome Reply) → Option Bytes → XmlBuffer → Outcome Reply
unfolding lex_tag
after_next again none xb = done (no_reply xb)
after_next again (some next) xb = pointee xb.cur >>= λ cur. lex_tag again next xb cur

-- The loop of sfccLex, on fuel.
unfoldable pub lex_loop : ℕ → XmlBuffer → Outcome Reply
unfolding next_tag after_next
lex_loop zero xb = endless
lex_loop (suc fuel) xb = pointee xb.cur >>= λ cur.
    after_next (λ x. lex_loop fuel x) (next_tag xb cur).0 (next_tag xb cur).1

-- The bytes that are left.
abbrev pub left : Option Bytes → ℕ
left none = 0
left (some cur) = length cur

-- sfccLex: every round but the last passes a comment.
unfoldable pub sfcc_lex : XmlBuffer → Outcome Reply
unfolding lex_loop
sfcc_lex xb = lex_loop (suc (left xb.cur)) xb
