-- ===== src/Xml/Declarations.antt =====
-- The functions of backend/cimxml/cimXmlParser.c for the tags of instances, classes and what they declare, and of CDATA.
use sblim_sfcc.Base.{[], ◌∷◌, ◌++◌, none, some, Bytes, codes}
use sblim_sfcc.Cmpi.{ref_type, array_bits}
use sblim_sfcc.Xml.{
  Outcome, done, ◌>>=◌, XmlBuffer, pointee, cut_at_text, xtok_cdata, xtok_class, xtok_instance,
  xtok_method, xtok_param, xtok_paramarray, xtok_paramref, xtok_paramrefarray, xtok_property,
  xtok_propertyarray, xtok_propertyreference, xtok_qualifier, ztok_cdata, ztok_class, ztok_instance,
  ztok_method, ztok_param, ztok_paramarray, ztok_paramref, ztok_paramrefarray, ztok_property,
  ztok_propertyarray, ztok_propertyreference, ztok_qualifier,
}
use sblim_sfcc.Xml.Attributes.{attrs_ok}
use sblim_sfcc.Xml.Reply.{
  Reply, with_tag, reply, no_reply, attr, element, is_true, array_type, untouched, instance_start,
  class_start, qualifier, property, method, param, value_property, array_property,
  reference_property,
}
use sblim_sfcc.Xml.Types.{xml_to_cmpi_type}
use Prim.Native.Nat.{bit_or}

unfoldable pub proc_instance : XmlBuffer → Outcome Reply
proc_instance xb =
    element (codes "INSTANCE") (codes "CLASSNAME" ∷ []) ztok_instance xb
      (λ a b. done (reply xtok_instance (instance_start (attr a 0)) none b))

unfoldable pub proc_class : XmlBuffer → Outcome Reply
proc_class xb =
    element (codes "CLASS") (codes "NAME" ∷ codes "SUPERCLASS" ∷ []) ztok_class xb
      (λ a b. done (reply xtok_class (class_start (attr a 0) (attr a 1)) none b))

unfoldable pub proc_qualifier : XmlBuffer → Outcome Reply
proc_qualifier xb =
    element (codes "QUALIFIER")
      (codes "NAME"
        ∷ codes "TYPE"
        ∷ codes "PROPAGATED"
        ∷ codes "OVERRIDABLE"
        ∷ codes "TOSUBCLASS"
        ∷ codes "TOINSTANCE"
        ∷ codes "TRANSLATABLE"
        ∷ [])
      ztok_qualifier xb
      (λ a b. done (
        reply xtok_qualifier
          (qualifier (attr a 0) (xml_to_cmpi_type (attr a 1)) (is_true (attr a 2))
            (is_true (attr a 3)) (is_true (attr a 4)) (is_true (attr a 5)) (is_true (attr a 6)))
          none b))

unfoldable pub proc_property : XmlBuffer → Outcome Reply
proc_property xb =
    element (codes "PROPERTY")
      (codes "NAME"
        ∷ codes "TYPE"
        ∷ codes "CLASSORIGIN"
        ∷ codes "PROPAGATED"
        ∷ codes "EMBEDDEDOBJECT"
        ∷ [])
      ztok_property xb
      (λ a b. done (
        reply xtok_property
          (property (attr a 0) (xml_to_cmpi_type (attr a 1)) none (attr a 2) (is_true (attr a 3))
            value_property)
          none b))

unfoldable pub proc_property_array : XmlBuffer → Outcome Reply
proc_property_array xb =
    element (codes "PROPERTY.ARRAY")
      (codes "NAME"
        ∷ codes "TYPE"
        ∷ codes "CLASSORIGIN"
        ∷ codes "PROPAGATED"
        ∷ codes "ARRAYSIZE"
        ∷ codes "EMBEDDEDOBJECT"
        ∷ [])
      ztok_propertyarray xb
      (λ a b. done (
        reply xtok_propertyarray
          (property (attr a 0) (xml_to_cmpi_type (attr a 1)) none (attr a 2) (is_true (attr a 3))
            array_property)
          none b))

unfoldable pub proc_property_reference : XmlBuffer → Outcome Reply
proc_property_reference xb =
    element (codes "PROPERTY.REFERENCE")
      (codes "NAME" ∷ codes "REFERENCECLASS" ∷ codes "CLASSORIGIN" ∷ codes "PROPAGATED" ∷ [])
      ztok_propertyreference xb
      (λ a b. done (
        reply xtok_propertyreference
          (property (attr a 0) ref_type (attr a 1) (attr a 2) (is_true (attr a 3))
            reference_property)
          none b))

unfoldable pub proc_method : XmlBuffer → Outcome Reply
proc_method xb =
    element (codes "METHOD")
      (codes "NAME" ∷ codes "TYPE" ∷ codes "CLASSORIGIN" ∷ codes "PROPAGATED" ∷ []) ztok_method xb
      (λ a b. done (
        reply xtok_method
          (method (attr a 0) (xml_to_cmpi_type (attr a 1)) (attr a 2) (is_true (attr a 3))) none b))

unfoldable pub proc_param : XmlBuffer → Outcome Reply
proc_param xb = element (codes "PARAMETER") (codes "NAME" ∷ codes "TYPE" ∷ []) ztok_param xb (λ a b.
    done (
      reply xtok_param (param ztok_param (attr a 0) (xml_to_cmpi_type (attr a 1)) none none) none
        b))

unfoldable pub proc_param_array : XmlBuffer → Outcome Reply
proc_param_array xb =
    element (codes "PARAMETER.ARRAY") (codes "NAME" ∷ codes "TYPE" ∷ codes "ARRAYSIZE" ∷ [])
      ztok_paramarray xb
      (λ a b. done (
        reply xtok_paramarray
          (param ztok_paramarray (attr a 0) (array_type (attr a 1)) none (attr a 2)) none b))

unfoldable pub proc_param_ref : XmlBuffer → Outcome Reply
proc_param_ref xb =
    element (codes "PARAMETER.REFERENCE") (codes "NAME" ∷ codes "REFERENCECLASS" ∷ []) ztok_paramref
      xb
      (λ a b.
        done (reply xtok_paramref (param ztok_paramref (attr a 0) ref_type (attr a 1) none) none b))

unfoldable pub proc_param_ref_array : XmlBuffer → Outcome Reply
proc_param_ref_array xb =
    element (codes "PARAMETER.REFARRAY")
      (codes "NAME" ∷ codes "REFERENCECLASS" ∷ codes "ARRAYSIZE" ∷ []) ztok_paramrefarray xb
      (λ a b. done (
        reply xtok_paramrefarray
          (param ztok_paramrefarray (attr a 0) (bit_or array_bits ref_type) (attr a 1) (attr a 2))
          none b))

-- procCdata: the `[` becomes a `>` for attrsOk, and the `]]>` that closes the data becomes `</>`,
-- which the last entry of the table closes.
unfoldable pub cdata_end : Bytes → XmlBuffer → Outcome Reply
unfolding cut_at_text
cdata_end cur xb = elim (cut_at_text (codes "]]>") cur) [
  | none ↦ done (no_reply xb)
  | some (s, r) ↦
      done
        (reply xtok_cdata untouched none (record xb { cur = some (s ++ b'<' ∷ b'/' ∷ b'>' ∷ r) }))
]

unfoldable pub proc_cdata : XmlBuffer → Outcome Reply
unfolding with_tag attrs_ok cdata_end
proc_cdata xb = with_tag (codes "![CDATA[") xb (λ c.
    attrs_ok [] (codes "![CDATA[") ztok_cdata xb (b'>' ∷ c) >>= λ r.
    pointee r.1.cur >>= λ d. cdata_end d r.1)
