-- ===== src/Grammar.antt =====
-- backend/cimxml/grammar.c: the functions for name spaces, hosts, and the paths and names of
-- classes. A function reads tokens by localLex, which hands out the last token again where
-- `dontLex` is set, and leaves the program where it finds another token than it expects.
pub mod Lines
pub mod NameSpaces
pub mod Ends
pub mod Hosts
pub mod Errors
pub mod ErrorText
use sblim_sfcc.Base.{
  ℕ, zero, suc, ◌+◌, ◌*◌, Bool, true, false, List, [], ◌∷◌, ◌++◌, Option, none, some, ◌==◌,
  if◌then◌else◌, Bytes, codes,
}
use sblim_sfcc.Xml.{
  Token, no_token, xtok_xml, ztok_xml, xtok_cim, ztok_cim, xtok_message, ztok_message,
  xtok_simplersp, ztok_simplersp, xtok_simpleexpreq, ztok_simpleexpreq, xtok_exportindication,
  ztok_expmethodcall, xtok_ep_instance, ztok_expparamvalue, xtok_imethodresp, ztok_imethodresp,
  xtok_methodresp, ztok_methodresp, xtok_error, ztok_error, xtok_iretvalue, ztok_iretvalue,
  xtok_retvalue, ztok_retvalue, xtok_namespacepath, ztok_namespacepath, xtok_localnamespacepath,
  ztok_localnamespacepath, xtok_namespace, ztok_namespace, ztok_iparamvalue, xtok_returnvalue,
  ztok_returnvalue, xtok_host, ztok_host, xtok_value, ztok_value, xtok_valuearray, ztok_valuearray,
  xtok_valuereference, ztok_valuereference, xtok_classname, ztok_classname, xtok_instancename,
  ztok_instancename, xtok_keybinding, ztok_keybinding, xtok_keyvalue, ztok_keyvalue,
  xtok_valuenamedinstance, ztok_valuenamedinstance, xtok_qualifier, ztok_qualifier, xtok_property,
  ztok_property, xtok_propertyarray, ztok_propertyarray, xtok_propertyreference,
  ztok_propertyreference, xtok_param, ztok_param, xtok_paramarray, ztok_paramarray, xtok_paramref,
  ztok_paramref, xtok_paramrefarray, ztok_paramrefarray, xtok_method, ztok_method, xtok_class,
  ztok_class, xtok_instance, ztok_instance, xtok_valueobjectwithpath, ztok_valueobjectwithpath,
  xtok_paramvalue, ztok_paramvalue, xtok_instancepath, ztok_instancepath, xtok_objectpath,
  ztok_objectpath, xtok_localinstancepath, ztok_localinstancepath, xtok_localclasspath,
  ztok_localclasspath, xtok_classpath, ztok_classpath, xtok_valuerefarray, ztok_valuerefarray,
  xtok_cdata, ztok_cdata, Outcome, done, thrown, fault, endless, ◌>>=◌, XmlBuffer, pointee,
}
use sblim_sfcc.Xml.Lex.{left, sfcc_lex}
use sblim_sfcc.Xml.Reply.{Written, untouched, name_space, class_name, host, Reply}

-- The numbers of the tokens.
unfoldable pub token_code : Token → ℕ
token_code no_token = 0
token_code xtok_xml = 258
token_code ztok_xml = 259
token_code xtok_cim = 260
token_code ztok_cim = 261
token_code xtok_message = 262
token_code ztok_message = 263
token_code xtok_simplersp = 264
token_code ztok_simplersp = 265
token_code xtok_simpleexpreq = 266
token_code ztok_simpleexpreq = 267
token_code xtok_exportindication = 268
token_code ztok_expmethodcall = 269
token_code xtok_ep_instance = 270
token_code ztok_expparamvalue = 271
token_code xtok_imethodresp = 272
token_code ztok_imethodresp = 273
token_code xtok_methodresp = 274
token_code ztok_methodresp = 275
token_code xtok_error = 276
token_code ztok_error = 277
token_code xtok_iretvalue = 278
token_code ztok_iretvalue = 279
token_code xtok_retvalue = 280
token_code ztok_retvalue = 281
token_code xtok_namespacepath = 282
token_code ztok_namespacepath = 283
token_code xtok_localnamespacepath = 284
token_code ztok_localnamespacepath = 285
token_code xtok_namespace = 286
token_code ztok_namespace = 287
token_code ztok_iparamvalue = 288
token_code xtok_returnvalue = 289
token_code ztok_returnvalue = 290
token_code xtok_host = 291
token_code ztok_host = 292
token_code xtok_value = 293
token_code ztok_value = 294
token_code xtok_valuearray = 295
token_code ztok_valuearray = 296
token_code xtok_valuereference = 297
token_code ztok_valuereference = 298
token_code xtok_classname = 299
token_code ztok_classname = 300
token_code xtok_instancename = 301
token_code ztok_instancename = 302
token_code xtok_keybinding = 303
token_code ztok_keybinding = 304
token_code xtok_keyvalue = 305
token_code ztok_keyvalue = 306
token_code xtok_valuenamedinstance = 307
token_code ztok_valuenamedinstance = 308
token_code xtok_qualifier = 309
token_code ztok_qualifier = 310
token_code xtok_property = 311
token_code ztok_property = 312
token_code xtok_propertyarray = 313
token_code ztok_propertyarray = 314
token_code xtok_propertyreference = 315
token_code ztok_propertyreference = 316
token_code xtok_param = 317
token_code ztok_param = 318
token_code xtok_paramarray = 319
token_code ztok_paramarray = 320
token_code xtok_paramref = 321
token_code ztok_paramref = 322
token_code xtok_paramrefarray = 323
token_code ztok_paramrefarray = 324
token_code xtok_method = 325
token_code ztok_method = 326
token_code xtok_class = 327
token_code ztok_class = 328
token_code xtok_instance = 329
token_code ztok_instance = 330
token_code xtok_valueobjectwithpath = 331
token_code ztok_valueobjectwithpath = 332
token_code xtok_paramvalue = 333
token_code ztok_paramvalue = 334
token_code xtok_instancepath = 335
token_code ztok_instancepath = 336
token_code xtok_objectpath = 337
token_code ztok_objectpath = 338
token_code xtok_localinstancepath = 339
token_code ztok_localinstancepath = 340
token_code xtok_localclasspath = 341
token_code ztok_localclasspath = 342
token_code xtok_classpath = 343
token_code ztok_classpath = 344
token_code xtok_valuerefarray = 345
token_code ztok_valuerefarray = 346
token_code xtok_cdata = 347
token_code ztok_cdata = 348

unfoldable pub same_token : Token → Token → Bool
unfolding token_code
same_token a b = token_code a == token_code b

-- The buffer and `respHdr.id` of ParserControl, with the variables `ct` and `dontLex` of the file.
pub record Parser : Type 0 where
  pub xmb : XmlBuffer
  pub id : Option Bytes
  pub ct : Token
  pub dont_lex : Bool

-- What a call of sfccLex leaves in the union that it is given.
unfoldable pub overwrite : Written → Written → Written
overwrite u untouched = u
overwrite u w = w

unfoldable pub with_id : Option Bytes → Option (Option Bytes) → Option Bytes
with_id i none = i
with_id i (some j) = j

-- localLex: the union `u` after it, and the parser.
unfoldable pub local_lex : Written → Parser → Outcome (Written × Parser)
unfolding sfcc_lex overwrite with_id
local_lex u p =
    if p.dont_lex
    then done (u, record p { dont_lex = false })
    else (sfcc_lex p.xmb >>= λ r.
        done (
          overwrite u r.written,
          record p { xmb = r.buffer; id = with_id p.id r.id; ct = r.token },
        ))

-- `ct = localLex (…); if (ct == t)`, with what follows as `k`; parseError leaves the program.
unfoldable pub expect :
    {A : Type 0} → Token → Written → Parser → (Written → Parser → Outcome A) → Outcome A
unfolding local_lex same_token
expect t u p k = local_lex u p >>= λ l. if same_token l.1.ct t then k l.0 l.1 else thrown

-- nameSpace
unfoldable pub parse_name_space : Written → Parser → Outcome (Written × Parser)
unfolding expect
parse_name_space u p =
    expect xtok_namespace u p (λ v q. expect ztok_namespace v q (λ w r. done (w, r)))

-- `xtokNameSpace.ns`
unfoldable pub name_space_of : Written → Outcome (Option Bytes)
name_space_of (name_space ns) = done ns
name_space_of u = fault

-- A name space behind those before it: `parser_malloc` and `strcpy`, or `parser_realloc` and
-- `strcat`; the sizes of the blocks, `strlen` of the texts and two bytes, are left out.
unfoldable pub add_name_space : Option Bytes → Bytes → Bytes
add_name_space none ns = ns
add_name_space (some v) ns = v ++ b'/' ∷ ns

-- The loop of localNameSpacePath, on fuel: `u` is the union with the token that was read last.
unfoldable pub name_spaces : ℕ → Written → Option Bytes → Parser → Outcome (Option Bytes × Parser)
unfolding parse_name_space name_space_of add_name_space local_lex same_token
name_spaces zero u v p = endless
name_spaces (suc fuel) u v p = parse_name_space u (record p { dont_lex = true }) >>= λ m.
    name_space_of m.0 >>= λ n. pointee n >>= λ ns. local_lex m.0 m.1 >>= λ l.
    let again = name_spaces fuel l.0 (some (add_name_space v ns)) l.1 in
    if same_token l.1.ct xtok_namespace then again else done (some (add_name_space v ns), l.1)

-- localNameSpacePath: the text in `xtokLocalNameSpacePath.value`.
unfoldable pub local_name_space_path : Written → Parser → Outcome (Option Bytes × Parser)
unfolding expect name_spaces local_lex same_token
local_name_space_path u p = expect xtok_localnamespacepath u p (λ v q.
    local_lex untouched q >>= λ m.
    (if same_token m.1.ct xtok_namespace
      then name_spaces (suc (left m.1.xmb.cur)) m.0 none m.1
      else done (none, m.1))
    >>= λ r.
        expect ztok_localnamespacepath v (record r.1 { dont_lex = true }) (λ w e. done (r.0, e)))

-- host: the union has the text.
unfoldable pub parse_host : Written → Parser → Outcome (Written × Parser)
unfolding expect
parse_host u p = expect xtok_host u p (λ v q. expect ztok_host v q (λ w r. done (w, r)))

-- nameSpacePath: the host and the name spaces.
unfoldable pub name_space_path : Written → Parser → Outcome ((Written × Option Bytes) × Parser)
unfolding expect parse_host local_name_space_path
name_space_path u p = expect xtok_namespacepath u p (λ v q. parse_host v q >>= λ h.
    local_name_space_path untouched h.1 >>= λ n.
    expect ztok_namespacepath v n.1 (λ w r. done ((h.0, n.0), r)))

-- className: the union has the text.
unfoldable pub parse_class_name : Written → Parser → Outcome (Written × Parser)
unfolding expect
parse_class_name u p =
    expect xtok_classname u p (λ v q. expect ztok_classname v q (λ w r. done (w, r)))

-- classPath: the host, the name spaces and the name of the class.
unfoldable pub class_path : Written → Parser → Outcome ((Written × Option Bytes × Written) × Parser)
unfolding expect name_space_path parse_class_name
class_path u p = expect xtok_classpath u p (λ v q. name_space_path v q >>= λ n.
    parse_class_name untouched n.1 >>= λ c.
    expect ztok_classpath v c.1 (λ w r. done ((n.0.0, n.0.1, c.0), r)))
