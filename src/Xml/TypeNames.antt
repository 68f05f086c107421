-- ===== src/Xml/TypeNames.antt =====
-- The names of the types, written and read; and the start tag of a property, which carries one.
use sblim_sfcc.Base.{
  ℕ, ◌≡◌, ◌≢◌, ◌∙◌, ◌⊎◌, ap, sym, refl, inl, inr, Bool, true, false, List, [], ◌∷◌, ◌++◌, none,
  some, some-inj, ◌==◌, Bool-cases, Bytes, codes, arith, same_name, to_lower,
}
use sblim_sfcc.Cmpi.{chars_type}
use sblim_sfcc.Xml.{Token, ztok_property, xtok_property, done, XmlBuffer, next_equals}
use sblim_sfcc.Xml.Declarations.{proc_property}
use sblim_sfcc.Xml.Elements.{between, sfcc_lex-render}
use sblim_sfcc.Xml.Lex.{Tag, tags, find_tag, sfcc_lex}
use sblim_sfcc.Xml.Names.{are_names, AreNames-are_names}
use sblim_sfcc.Xml.Reply.{reply, attr, is_true, element, property, value_property}
use sblim_sfcc.Xml.RoundTrip.{render}
use sblim_sfcc.Xml.Tags.{closing, behind_tag}
use sblim_sfcc.Xml.Types.{
  XmlCmpiType, xml_cmpi_types, type_named, xml_to_cmpi_type, name_of_type, cmpi_to_xml_type,
}
use sblim_sfcc.Xml.Words.{Without}

-- The name of each type but CMPI_chars is read as that type.
abbrev pub AllRead : List XmlCmpiType → Type 0
AllRead [] = Unit {0}
AllRead (t ∷ ts) = ((t.type ≡ chars_type) ⊎ (type_named xml_cmpi_types t.str ≡ t.type)) × AllRead ts

AllRead-xml_cmpi_types : AllRead xml_cmpi_types
unfolding type_named same_name to_lower
AllRead-xml_cmpi_types = (
  inr refl,
  (
    inr refl,
    (
      inr refl,
      (
        inr refl,
        (
          inr refl,
          (
            inr refl,
            (
              inr refl,
              (
                inr refl,
                (
                  inr refl,
                  (
                    inr refl,
                    (
                      inr refl,
                      (inr refl, (inr refl, (inl refl, (inr refl, (inr refl, (inr refl, tt)))))),
                    ),
                  ),
                ),
              ),
            ),
          ),
        ),
      ),
    ),
  ),
)

type_named-name_of_type :
    (ts : List XmlCmpiType) (type : ℕ) (s : Bytes)
    → AllRead ts
    → type ≢ chars_type
    → name_of_type ts type ≡ some s
    → type_named xml_cmpi_types s ≡ type
unfolding name_of_type
type_named-name_of_type [] type s a n h = ground arith
type_named-name_of_type (t ∷ ts) type s a n h = elim (Bool-cases (type == t.type)) [
  | inr e ↦ type_named-name_of_type ts type s a.1 n (rw e at h)
  | inl e ↦
      let same : type ≡ t.type = ground arith in
      let name : t.str ≡ s = some-inj t.str s (rw e at h) in
      elim a.0 [
        | inl c ↦ absurd (n (same ∙ c))
        | inr r ↦ ap (type_named xml_cmpi_types) (sym name) ∙ r ∙ sym same
      ]
]

-- A type that has a name in XML and is not CMPI_chars is what its name is read as.
pub xml_to_cmpi_type-cmpi_to_xml_type :
    (type : ℕ) (s : Bytes)
    → type ≢ chars_type
    → cmpi_to_xml_type type ≡ some s
    → xml_to_cmpi_type (some s) ≡ type
unfolding cmpi_to_xml_type xml_to_cmpi_type
xml_to_cmpi_type-cmpi_to_xml_type type s n h =
    type_named-name_of_type xml_cmpi_types type s AllRead-xml_cmpi_types n h

property_tag : Tag
property_tag = record {
  tag = codes "PROPERTY";
  process = λ xb. proc_property xb;
  etag = ztok_property;
}

find_tag-property : (x : Bytes) → find_tag tags (codes "PROPERTY" ++ b' ' ∷ x) ≡ some property_tag
unfolding find_tag next_equals property_tag
find_tag-property x = refl

abbrev pub property_attrs : List Bytes
property_attrs =
    codes "NAME"
    ∷ codes "TYPE"
    ∷ codes "CLASSORIGIN"
    ∷ codes "PROPAGATED"
    ∷ codes "EMBEDDEDOBJECT"
    ∷ []

property_attrs_lem : are_names property_attrs ≡ true
unfolding same_name to_lower
property_attrs_lem = refl

proc_property_lem :
    (xb : XmlBuffer)
    → proc_property xb
      ≡ element (codes "PROPERTY") property_attrs ztok_property xb (λ a b. done (
          reply xtok_property
            (property
              (attr a 0)
              (xml_to_cmpi_type (attr a 1))
              none
              (attr a 2)
              (is_true (attr a 3))
              value_property)
            none
            b))
unfolding proc_property
proc_property_lem xb = refl

-- The start tag of a property with its name and the name of its type gives that name and that
-- type, for every type that has a name in XML and is not CMPI_chars; the other attributes are not
-- set.
pub property_read :
    (name s rest : Bytes) (type : ℕ) (etag : Token) (f : Bool)
    → Without b'"' name
    → Without b'"' s
    → type ≢ chars_type
    → cmpi_to_xml_type type ≡ some s
    → let x =
        codes "<PROPERTY"
        ++ render property_attrs (some name ∷ some s ∷ none ∷ none ∷ none ∷ []) (closing f rest) in
      sfcc_lex (between x etag)
      ≡ done (
          reply xtok_property
            (property (some name) type none none false value_property)
            none
            (behind_tag (between x etag) f ztok_property rest))
unfolding property_tag is_true
property_read name s rest type etag f p q n h =
    let vs = some name ∷ some s ∷ none ∷ none ∷ none ∷ [] in
    let x = codes "<PROPERTY" ++ render property_attrs vs (closing f rest) in
    let b = behind_tag (between x etag) f ztok_property rest in
    sfcc_lex-render property_tag property_attrs vs ztok_property etag _ f rest
      (refl, (λ e. absurd (omega (arith, e))), (λ e. absurd (omega (arith, e))))
      (AreNames-are_names property_attrs property_attrs_lem) (p, (q, tt)) proc_property_lem
      (find_tag-property _)
    ∙ ap
        (λ t.
          done (reply xtok_property (property (some name) t none none false value_property) none b))
        (xml_to_cmpi_type-cmpi_to_xml_type type s n h)
