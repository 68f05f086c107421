-- ===== src/Xml/Types.antt =====
-- The names of the CIM types in XML: xmlToCmpiType and cmpiToXmlType of
-- backend/cimxml/cimXmlParser.c.
use sblim_sfcc.Base.{
  ℕ, ◌+◌, ◌*◌, List, [], ◌∷◌, Option, none, some, ◌==◌, if◌then◌else◌, Bytes, codes, same_name,
}
use sblim_sfcc.Cmpi.{
  null_type, boolean_type, sint64_type, uint64_type, instance_type, ref_type, string_type,
  chars_type, date_time_type,
}

-- struct xmlCmpiType
pub record XmlCmpiType : Type 0 where
  pub str : Bytes
  pub type : ℕ

abbrev pub xml_cmpi_types : List XmlCmpiType
xml_cmpi_types =
    record { str = codes "boolean"; type = boolean_type }
    ∷ record { str = codes "char16"; type = 2 + 1 }
    ∷ record { str = codes "real32"; type = 2 * 4 }
    ∷ record { str = codes "real64"; type = (2 + 1) * 4 }
    ∷ record { str = codes "uint8"; type = 8 * 16 }
    ∷ record { str = codes "uint16"; type = (8 + 1) * 16 }
    ∷ record { str = codes "uint32"; type = (8 + 2) * 16 }
    ∷ record { str = codes "uint64"; type = uint64_type }
    ∷ record { str = codes "sint8"; type = (8 + 4) * 16 }
    ∷ record { str = codes "sint16"; type = (8 + 5) * 16 }
    ∷ record { str = codes "sint32"; type = (8 + 6) * 16 }
    ∷ record { str = codes "sint64"; type = sint64_type }
    ∷ record { str = codes "string"; type = string_type }
    ∷ record { str = codes "string"; type = chars_type }
    ∷ record { str = codes "datetime"; type = date_time_type }
    ∷ record { str = codes "reference"; type = ref_type }
    ∷ record { str = codes "instance"; type = instance_type }
    ∷ []

unfoldable pub type_named : List XmlCmpiType → Bytes → ℕ
type_named [] s = null_type
type_named (t ∷ ts) s = if same_name s t.str then t.type else type_named ts s

unfoldable pub xml_to_cmpi_type : Option Bytes → ℕ
unfolding type_named
xml_to_cmpi_type none = null_type
xml_to_cmpi_type (some s) = type_named xml_cmpi_types s

unfoldable pub name_of_type : List XmlCmpiType → ℕ → Option Bytes
name_of_type [] type = none
name_of_type (t ∷ ts) type = if type == t.type then some t.str else name_of_type ts type

unfoldable pub cmpi_to_xml_type : ℕ → Option Bytes
unfolding name_of_type
cmpi_to_xml_type type = name_of_type xml_cmpi_types type
