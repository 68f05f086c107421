-- ===== src/Tests/Lexer.antt =====
-- The theorems on the lexer at small documents.
use mathlib.Core.Path.{◌≡◌, refl}
use mathlib.Core.Logic.{inl, inr}
use native.Mathlib.Omega.{arith}
use sblim_sfcc.Base.{
  ◌≤◌, List, [], ◌∷◌, ◌++◌, map, length, true, false, Option, none, some, Bytes, codes, same_name,
  to_lower,
}
use sblim_sfcc.Cmpi.{uint64_type}
use sblim_sfcc.Xml.{
  no_token, ztok_class, xtok_class, ztok_value, xtok_value, xtok_property, ztok_property, done,
  fault, XmlBuffer, new_xml_buffer, next_equals,
}
use sblim_sfcc.Xml.Advance.{measure, Advances}
use sblim_sfcc.Xml.Attributes.{attrs_ok}
use sblim_sfcc.Xml.Declarations.{proc_class}
use sblim_sfcc.Xml.Elements.{between, sfcc_lex-render, value_read}
use sblim_sfcc.Xml.Faults.{value_lost, comment_lost, attribute_unclosed}
use sblim_sfcc.Xml.Lex.{Tag, tags, find_tag, sfcc_lex}
use sblim_sfcc.Xml.Names.{are_names, AreNames-are_names}
use sblim_sfcc.Xml.Reply.{
  reply, no_reply, untouched, attr, value, property, value_property, class_start, element,
}
use sblim_sfcc.Xml.RoundTrip.{render}
use sblim_sfcc.Xml.Shrinks.{Ensures}
use sblim_sfcc.Xml.Table.{elements, StartsWith, find_tag-elements}
use sblim_sfcc.Xml.Tags.{closing, behind_tag}
use sblim_sfcc.Xml.Terminates.{sfcc_lex-Advances, lex_all, lex_all_ends}
use sblim_sfcc.Xml.TypeNames.{property_attrs, property_read}
use sblim_sfcc.Xml.Types.{cmpi_to_xml_type, name_of_type}

abbrev document : XmlBuffer
document = new_xml_buffer (codes "<!-- x --><VALUE>7</VALUE>")

sfcc_lex-Advances_example : Ensures (Advances (measure document)) (sfcc_lex document)
sfcc_lex-Advances_example = sfcc_lex-Advances document

lex_all_ends_example : Ensures (λ rs. length rs ≤ measure document) (lex_all 100 document)
unfolding new_xml_buffer
lex_all_ends_example = lex_all_ends 100 document (omega arith)

find_tag-elements_example :
    (map (λ t. find_tag tags (t.tag ++ b'>' ∷ codes "x")) elements ≡ map some elements)
    × ((s : Bytes) (t : Tag) → find_tag tags s ≡ some t → StartsWith t.tag s)
find_tag-elements_example = find_tag-elements b'>' (codes "x") (inr (inl refl))

abbrev class_tag : Tag
class_tag = record { tag = codes "CLASS"; process = λ xb. proc_class xb; etag = ztok_class }

abbrev class_attrs : List Bytes
class_attrs = codes "NAME" ∷ codes "SUPERCLASS" ∷ []

class_attrs_lem : are_names class_attrs ≡ true
unfolding same_name to_lower
class_attrs_lem = refl

abbrev class_values : List (Option Bytes)
class_values = some (codes "A") ∷ none ∷ []

abbrev class_text : Bytes
class_text = codes "<CLASS" ++ render class_attrs class_values (closing false (codes "<"))

find_class :
    find_tag tags (codes "CLASS" ++ render class_attrs class_values (closing false (codes "<")))
    ≡ some class_tag
unfolding find_tag next_equals
find_class = refl

process_class :
    (xb : XmlBuffer)
    → proc_class xb
      ≡ element
          (codes "CLASS")
          class_attrs
          ztok_class
          xb
          (λ a b. done (reply xtok_class (class_start (attr a 0) (attr a 1)) none b))
unfolding proc_class
process_class xb = refl

sfcc_lex-render_example :
    sfcc_lex (between class_text no_token)
    ≡ done (
        reply xtok_class
          (class_start (some (codes "A")) none)
          none
          (behind_tag (between class_text no_token) false ztok_class (codes "<")))
sfcc_lex-render_example =
    sfcc_lex-render class_tag class_attrs class_values ztok_class no_token
      (λ a b. done (reply xtok_class (class_start (attr a 0) (attr a 1)) none b)) false (codes "<")
      (refl, (λ e. absurd (omega (arith, e))), (λ e. absurd (omega (arith, e))))
      (AreNames-are_names class_attrs class_attrs_lem) (((λ e. absurd (omega (arith, e))), tt), tt)
      process_class find_class

value_read_example :
    (xb : XmlBuffer) × (sfcc_lex
        (between (codes "<VALUE>" ++ (codes "7" ++ (codes "</VALUE>" ++ codes "<"))) no_token)
      ≡ done (reply xtok_value (value (some (codes "7"))) none xb))
    × (sfcc_lex xb ≡ done (reply ztok_value untouched none (between (codes "<") no_token)))
value_read_example =
    value_read (codes "7") (codes "<") no_token (refl, refl) ((λ e. absurd (omega (arith, e))), tt)

abbrev property_text : Bytes
property_text =
    codes "<PROPERTY"
    ++ render property_attrs (some (codes "N") ∷ some (codes "uint64") ∷ none ∷ none ∷ none ∷ [])
        (closing true (codes "<"))

property_read_example :
    sfcc_lex (between property_text no_token)
    ≡ done (
        reply xtok_property
          (property (some (codes "N")) uint64_type none none false value_property)
          none
          (behind_tag (between property_text no_token) true ztok_property (codes "<")))
unfolding cmpi_to_xml_type name_of_type
property_read_example =
    property_read (codes "N") (codes "uint64") (codes "<") uint64_type no_token true
      ((λ e. absurd (omega (arith, e))), tt)
      (
        (λ e. absurd (omega (arith, e))),
        (
          (λ e. absurd (omega (arith, e))),
          (
            (λ e. absurd (omega (arith, e))),
            (
              (λ e. absurd (omega (arith, e))),
              ((λ e. absurd (omega (arith, e))), ((λ e. absurd (omega (arith, e))), tt)),
            ),
          ),
        ),
      )
      (λ e. absurd (omega (arith, e))) refl

value_lost_example :
    sfcc_lex (between (codes "<VALUE>" ++ ((195 ∷ 169 ∷ []) ++ codes "</VALUE>")) no_token)
    ≡ done (
        reply xtok_value (value (some [])) none (record {
          cur = some (0 ∷ codes "/VALUE>");
          nulled = true;
          e_tag_found = false;
          etag = no_token;
        }))
value_lost_example = value_lost 195 (169 ∷ []) (codes "/VALUE>") no_token (refl, (refl, tt))

comment_lost_example :
    (xb : XmlBuffer) × (sfcc_lex (between (codes "<VALUE>7<!-- x --></VALUE>") no_token)
      ≡ done (reply xtok_value (value (some (codes "7"))) none xb))
    × (sfcc_lex xb
        ≡ done (
            no_reply (record { cur = none; nulled = false; e_tag_found = false; etag = no_token })))
comment_lost_example =
    comment_lost (codes "7") (codes " x --></VALUE>") no_token (refl, refl)
      ((λ e. absurd (omega (arith, e))), tt)

attribute_unclosed_example :
    attrs_ok class_attrs (codes "CLASS") ztok_class document (codes " NAME=\"A>") ≡ fault
attribute_unclosed_example =
    attribute_unclosed (codes "NAME") (codes "A>") (codes "CLASS") (codes "SUPERCLASS" ∷ [])
      ztok_class document (refl, (refl, (refl, (refl, tt))))
      ((λ e. absurd (omega (arith, e))), ((λ e. absurd (omega (arith, e))), tt))
