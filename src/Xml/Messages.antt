-- ===== src/Xml/Messages.antt =====
-- The functions of backend/cimxml/cimXmlParser.c for the tags of messages, responses and values.
use sblim_sfcc.Base.{[], ◌∷◌, none, some, codes}
use sblim_sfcc.Xml.{
  Outcome, done, ◌>>=◌, XmlBuffer, xtok_cim, xtok_ep_instance, xtok_error, xtok_exportindication,
  xtok_host, xtok_imethodresp, xtok_iretvalue, xtok_keyvalue, xtok_message, xtok_methodresp,
  xtok_paramvalue, xtok_retvalue, xtok_simpleexpreq, xtok_simplersp, xtok_value, xtok_valuearray,
  xtok_valuerefarray, xtok_xml, ztok_cim, ztok_error, ztok_expmethodcall, ztok_expparamvalue,
  ztok_host, ztok_imethodresp, ztok_iretvalue, ztok_keyvalue, ztok_message, ztok_methodresp,
  ztok_paramvalue, ztok_retvalue, ztok_simpleexpreq, ztok_simplersp, ztok_value, ztok_valuearray,
  ztok_xml,
}
use sblim_sfcc.Xml.Reply.{
  Reply, reply, attr, element, param_type, with_content, named, untouched, message, method_resp,
  host, value, error_resp, key_value, return_value, param_value, value_array, value_ref_array,
}
use sblim_sfcc.Xml.Types.{xml_to_cmpi_type}

unfoldable pub proc_xml : XmlBuffer → Outcome Reply
proc_xml xb =
    element (codes "?xml") (codes "version" ∷ codes "encoding" ∷ []) ztok_xml xb
      (λ a b. done (reply xtok_xml untouched none b))

unfoldable pub proc_cim : XmlBuffer → Outcome Reply
proc_cim xb =
    element (codes "CIM") (codes "CIMVERSION" ∷ codes "DTDVERSION" ∷ []) ztok_cim xb
      (λ a b. done (reply xtok_cim untouched none b))

unfoldable pub proc_message : XmlBuffer → Outcome Reply
proc_message xb =
    element (codes "MESSAGE") (codes "ID" ∷ codes "PROTOCOLVERSION" ∷ []) ztok_message xb
      (λ a b. done (reply xtok_message (message (attr a 0)) (some (attr a 0)) b))

unfoldable pub proc_simple_resp : XmlBuffer → Outcome Reply
proc_simple_resp xb =
    element (codes "SIMPLERSP") ([]) ztok_simplersp xb
      (λ a b. done (reply xtok_simplersp untouched none b))

unfoldable pub proc_i_method_resp : XmlBuffer → Outcome Reply
proc_i_method_resp xb =
    element (codes "IMETHODRESPONSE") (codes "NAME" ∷ []) ztok_imethodresp xb
      (λ a b. done (reply xtok_imethodresp untouched (some (attr a 0)) b))

unfoldable pub proc_method_resp : XmlBuffer → Outcome Reply
proc_method_resp xb =
    element (codes "METHODRESPONSE") (codes "NAME" ∷ []) ztok_methodresp xb
      (λ a b. done (reply xtok_methodresp (method_resp (attr a 0)) (some (attr a 0)) b))

unfoldable pub proc_error_resp : XmlBuffer → Outcome Reply
proc_error_resp xb =
    element (codes "ERROR") (codes "CODE" ∷ codes "DESCRIPTION" ∷ []) ztok_error xb
      (λ a b. done (reply xtok_error (error_resp (attr a 0) (attr a 1)) none b))

unfoldable pub proc_i_ret_value : XmlBuffer → Outcome Reply
proc_i_ret_value xb =
    element (codes "IRETURNVALUE") ([]) ztok_iretvalue xb
      (λ a b. done (reply xtok_iretvalue untouched none b))

unfoldable pub proc_ret_value : XmlBuffer → Outcome Reply
proc_ret_value xb =
    element (codes "RETURNVALUE") (codes "PARAMTYPE" ∷ codes "EMBEDDEDOBJECT" ∷ []) ztok_retvalue xb
      (λ a b. done (reply xtok_retvalue (return_value (xml_to_cmpi_type (attr a 0))) none b))

unfoldable pub proc_param_value : XmlBuffer → Outcome Reply
proc_param_value xb =
    element (codes "PARAMVALUE") (codes "NAME" ∷ codes "PARAMTYPE" ∷ codes "EMBEDDEDOBJECT" ∷ [])
      ztok_paramvalue xb
      (λ a b. param_type a >>= λ t. done (reply xtok_paramvalue (param_value (attr a 0) t) none b))

unfoldable pub proc_key_value : XmlBuffer → Outcome Reply
proc_key_value xb =
    element (codes "KEYVALUE") (codes "VALUETYPE" ∷ codes "TYPE" ∷ []) ztok_keyvalue xb
      (λ a b. with_content xtok_keyvalue (λ v. key_value (attr a 0) v) b)

unfoldable pub proc_host : XmlBuffer → Outcome Reply
proc_host xb = element (codes "HOST") ([]) ztok_host xb (λ a b. with_content xtok_host host b)

unfoldable pub proc_value : XmlBuffer → Outcome Reply
proc_value xb = element (codes "VALUE") ([]) ztok_value xb (λ a b. with_content xtok_value value b)

unfoldable pub proc_value_array : XmlBuffer → Outcome Reply
proc_value_array xb =
    element (codes "VALUE.ARRAY") ([]) ztok_valuearray xb
      (λ a b. done (reply xtok_valuearray (value_array 16 0) none b))

unfoldable pub proc_value_ref_array : XmlBuffer → Outcome Reply
proc_value_ref_array xb =
    element (codes "VALUE.REFARRAY") ([]) ztok_valuearray xb
      (λ a b. done (reply xtok_valuerefarray (value_ref_array 16 0) none b))

unfoldable pub proc_simple_exp_req : XmlBuffer → Outcome Reply
proc_simple_exp_req xb =
    element (codes "SIMPLEEXPREQ") ([]) ztok_simpleexpreq xb
      (λ a b. done (reply xtok_simpleexpreq untouched none b))

unfoldable pub proc_export_method_call : XmlBuffer → Outcome Reply
proc_export_method_call xb =
    element (codes "EXPMETHODCALL") (codes "NAME" ∷ []) ztok_expmethodcall xb
      (λ a b. named (codes "ExportIndication") xtok_exportindication (attr a 0) b)

unfoldable pub proc_ex_param_value : XmlBuffer → Outcome Reply
proc_ex_param_value xb =
    element (codes "EXPPARAMVALUE") (codes "NAME" ∷ []) ztok_expparamvalue xb
      (λ a b. named (codes "NewIndication") xtok_ep_instance (attr a 0) b)
