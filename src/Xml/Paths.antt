-- ===== src/Xml/Paths.antt =====
-- The functions of backend/cimxml/cimXmlParser.c for the tags of paths, names and references.
use sblim_sfcc.Base.{[], ◌∷◌, none, codes}
use sblim_sfcc.Xml.{
  Outcome, done, XmlBuffer, xtok_classname, xtok_classpath, xtok_instancename, xtok_instancepath,
  xtok_keybinding, xtok_localclasspath, xtok_localinstancepath, xtok_localnamespacepath,
  xtok_namespace, xtok_namespacepath, xtok_objectpath, xtok_valuenamedinstance,
  xtok_valueobjectwithpath, xtok_valuereference, ztok_classname, ztok_classpath, ztok_instancename,
  ztok_instancepath, ztok_keybinding, ztok_localclasspath, ztok_localinstancepath,
  ztok_localnamespacepath, ztok_namespace, ztok_namespacepath, ztok_objectpath,
  ztok_valuenamedinstance, ztok_valuereference,
}
use sblim_sfcc.Xml.Reply.{
  Reply, reply, attr, element, untouched, local_name_space_path, name_space, class_name,
  instance_name, key_binding,
}

unfoldable pub proc_local_name_space_path : XmlBuffer → Outcome Reply
proc_local_name_space_path xb =
    element (codes "LOCALNAMESPACEPATH") ([]) ztok_localnamespacepath xb
      (λ a b. done (reply xtok_localnamespacepath local_name_space_path none b))

unfoldable pub proc_class_path : XmlBuffer → Outcome Reply
proc_class_path xb =
    element (codes "CLASSPATH") ([]) ztok_classpath xb
      (λ a b. done (reply xtok_classpath untouched none b))

unfoldable pub proc_local_class_path : XmlBuffer → Outcome Reply
proc_local_class_path xb =
    element (codes "LOCALCLASSPATH") ([]) ztok_localclasspath xb
      (λ a b. done (reply xtok_localclasspath untouched none b))

unfoldable pub proc_local_instance_path : XmlBuffer → Outcome Reply
proc_local_instance_path xb =
    element (codes "LOCALINSTANCEPATH") ([]) ztok_localinstancepath xb
      (λ a b. done (reply xtok_localinstancepath untouched none b))

unfoldable pub proc_object_path : XmlBuffer → Outcome Reply
proc_object_path xb =
    element (codes "OBJECTPATH") ([]) ztok_objectpath xb
      (λ a b. done (reply xtok_objectpath untouched none b))

unfoldable pub proc_name_space : XmlBuffer → Outcome Reply
proc_name_space xb =
    element (codes "NAMESPACE") (codes "NAME" ∷ []) ztok_namespace xb
      (λ a b. done (reply xtok_namespace (name_space (attr a 0)) none b))

unfoldable pub proc_class_name : XmlBuffer → Outcome Reply
proc_class_name xb =
    element (codes "CLASSNAME") (codes "NAME" ∷ []) ztok_classname xb
      (λ a b. done (reply xtok_classname (class_name (attr a 0)) none b))

unfoldable pub proc_instance_name : XmlBuffer → Outcome Reply
proc_instance_name xb =
    element (codes "INSTANCENAME") (codes "CLASSNAME" ∷ []) ztok_instancename xb
      (λ a b. done (reply xtok_instancename (instance_name (attr a 0)) none b))

unfoldable pub proc_key_binding : XmlBuffer → Outcome Reply
proc_key_binding xb =
    element (codes "KEYBINDING") (codes "NAME" ∷ []) ztok_keybinding xb
      (λ a b. done (reply xtok_keybinding (key_binding (attr a 0)) none b))

unfoldable pub proc_value_named_instance : XmlBuffer → Outcome Reply
proc_value_named_instance xb =
    element (codes "VALUE.NAMEDINSTANCE") ([]) ztok_valuenamedinstance xb
      (λ a b. done (reply xtok_valuenamedinstance untouched none b))

unfoldable pub proc_instance_path : XmlBuffer → Outcome Reply
proc_instance_path xb =
    element (codes "INSTANCEPATH") ([]) ztok_instancepath xb
      (λ a b. done (reply xtok_instancepath untouched none b))

unfoldable pub proc_name_space_path : XmlBuffer → Outcome Reply
proc_name_space_path xb =
    element (codes "NAMESPACEPATH") ([]) ztok_namespacepath xb
      (λ a b. done (reply xtok_namespacepath untouched none b))

unfoldable pub proc_value_reference : XmlBuffer → Outcome Reply
proc_value_reference xb =
    element (codes "VALUE.REFERENCE") ([]) ztok_valuereference xb
      (λ a b. done (reply xtok_valuereference untouched none b))

unfoldable pub proc_value_object_with_path : XmlBuffer → Outcome Reply
proc_value_object_with_path xb =
    element (codes "VALUE.OBJECTWITHPATH") ([]) xtok_valueobjectwithpath xb
      (λ a b. done (reply xtok_valueobjectwithpath untouched none b))
