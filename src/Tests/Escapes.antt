-- ===== src/Tests/Escapes.antt =====
-- The theorems on entities at small texts.
use mathlib.Core.Path.{◌≡◌, refl}
use mathlib.Core.Logic.{inl, inr}
use native.Mathlib.Omega.{arith}
use sblim_sfcc.Base.{◌++◌, none, some, Bytes, codes}
use sblim_sfcc.Escape.{xml_to_ascii_str, ascii_to_xml_str, escape_of, find_escape}
use sblim_sfcc.Escape.Laws.{escaped}
use sblim_sfcc.Escape.Room.{ascii_to_xml_str_lem, escaped_value_read, ascii_to_xml_str_overflows}
use sblim_sfcc.StringBuffer.{Memory, c_string}
use sblim_sfcc.StringBuffer.Memory.{IsText}
use sblim_sfcc.Xml.{no_token, xtok_value, done, XmlBuffer}
use sblim_sfcc.Xml.Elements.{between, IsTrim}
use sblim_sfcc.Xml.Lex.{sfcc_lex}
use sblim_sfcc.Xml.Reply.{reply, value}

abbrev text : Bytes
text = codes "a<b"

text-IsText : IsText text
text-IsText = (
  (λ e. absurd (omega (arith, e))),
  ((λ e. absurd (omega (arith, e))), ((λ e. absurd (omega (arith, e))), tt)),
)

text-IsTrim : IsTrim (escaped text)
unfolding escape_of find_escape
text-IsTrim = (refl, refl)

ascii_to_xml_str_lem_example :
    (mem : Memory) × (ascii_to_xml_str (some text) ≡ some (some mem))
    × (c_string mem ≡ some (escaped text))
ascii_to_xml_str_lem_example = ascii_to_xml_str_lem text text-IsText (inr (omega arith))

escaped_value_read_example :
    (xml : Memory) × (t : Bytes) × (xb : XmlBuffer) × (ascii : Memory) × (ascii_to_xml_str
        (some text)
      ≡ some (some xml))
    × (c_string xml ≡ some t)
    × (sfcc_lex (between (codes "<VALUE>" ++ (t ++ (codes "</VALUE>" ++ codes "<"))) no_token)
        ≡ done (reply xtok_value (value (some t)) none xb))
    × (xml_to_ascii_str t ≡ some ascii)
    × (c_string ascii ≡ some text)
escaped_value_read_example =
    escaped_value_read text (codes "<") no_token text-IsText (omega arith) text-IsTrim

ascii_to_xml_str_overflows_example : ascii_to_xml_str (some (codes "<")) ≡ none
ascii_to_xml_str_overflows_example = ascii_to_xml_str_overflows b'<' (inr (inr (inr (inl refl))))
