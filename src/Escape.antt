-- ===== src/Escape.antt =====
-- backend/cimxml/client.c: the text of a value with the special characters of XML written as
-- entities, and back. Memory is a list of cells, and a write past its end is a fault.
pub mod Laws
pub mod Quotes
pub mod Room
use sblim_sfcc.Base.{
  ℕ, zero, suc, ◌+◌, ◌*◌, Bool, true, false, List, [], ◌∷◌, ◌++◌, Option, none, some, ◌==◌, leb,
  if◌then◌else◌, ◌>>=◌, length, replicate, take, drop, Bytes, codes,
}
use sblim_sfcc.StringBuffer.{Memory, write, reallocate}
use sblim_sfcc.Xml.{behind, exactly}

-- struct XmlSpecialCharItem
pub record XmlSpecialChar : Type 0 where
  pub xml_ascii : ℕ
  pub xml_escape : Bytes
  pub xml_escape_size : ℕ

abbrev pub xml_escapes : List XmlSpecialChar
xml_escapes =
    record { xml_ascii = b'"'; xml_escape = codes "&quot;"; xml_escape_size = 6 }
    ∷ record { xml_ascii = b'&'; xml_escape = codes "&amp;"; xml_escape_size = 5 }
    ∷ record { xml_ascii = b'\''; xml_escape = codes "&apos;"; xml_escape_size = 6 }
    ∷ record { xml_ascii = b'<'; xml_escape = codes "&lt;"; xml_escape_size = 4 }
    ∷ record { xml_ascii = b'>'; xml_escape = codes "&gt;"; xml_escape_size = 4 }
    ∷ []

abbrev pub largest_xml_escape_size : ℕ
largest_xml_escape_size = 6

-- The entity at the start of a text, as its character and what stands behind it.
unfoldable pub read_escape : List XmlSpecialChar → Bytes → Option (ℕ × Bytes)
unfolding behind
read_escape [] s = none
read_escape (e ∷ es) s =
    let rest = read_escape es s in
    elim (behind exactly (take e.xml_escape_size e.xml_escape) s) [
      | none ↦ rest
      | some r ↦ some (e.xml_ascii, drop e.xml_escape_size s)
    ]

-- XmlToAscii, at a character that is not the closing NUL.
unfoldable pub xml_to_ascii : ℕ → Bytes → ℕ × Bytes
unfolding read_escape
xml_to_ascii c cs =
    if c == b'&'
    then elim (read_escape xml_escapes (c ∷ cs)) [ none ↦ (c, cs) | some p ↦ p ]
    else (c, cs)

-- The loop of XmlToAsciiStr, on fuel; `none` is a loop that does not end.
unfoldable pub to_ascii : ℕ → Bytes → Option Bytes
unfolding xml_to_ascii
to_ascii fuel [] = some []
to_ascii zero (c ∷ cs) = none
to_ascii (suc fuel) (c ∷ cs) =
    to_ascii fuel (xml_to_ascii c cs).1 >>= λ s. some ((xml_to_ascii c cs).0 ∷ s)

-- XmlToAsciiStr: the block has room for as many bytes as the text.
unfoldable pub xml_to_ascii_str : Bytes → Option Memory
unfolding to_ascii
xml_to_ascii_str s =
    to_ascii (length s) s >>= λ a. write 0 (a ++ 0 ∷ []) (replicate (length s + 1) none)

-- The entry for a character.
unfoldable pub find_escape : List XmlSpecialChar → ℕ → Option XmlSpecialChar
find_escape [] c = none
find_escape (e ∷ es) c = if c == e.xml_ascii then some e else find_escape es c

-- The bytes that a character is written as.
unfoldable pub escape_of : ℕ → Bytes
unfolding find_escape
escape_of c = elim (find_escape xml_escapes c) [
  | none ↦ c ∷ []
  | some e ↦ take e.xml_escape_size e.xml_escape
]

-- The loop of AsciiToXmlStr: the block doubles once where it may be too small.
unfoldable pub to_xml : Bytes → Memory → ℕ → ℕ → Option (Memory × ℕ)
unfolding escape_of
to_xml [] mem buflen xlen = some (mem, xlen)
to_xml (c ∷ cs) mem buflen xlen =
    let small = leb buflen (xlen + largest_xml_escape_size) in
    let len = if small then 2 * buflen else buflen in
    write xlen (escape_of c) (if small then reallocate len mem else mem) >>= λ m.
    to_xml cs m len (xlen + length (escape_of c))

-- AsciiToXmlStr
unfoldable pub ascii_to_xml_str : Option Bytes → Option (Option Memory)
unfolding to_xml
ascii_to_xml_str none = some none
ascii_to_xml_str (some s) = to_xml s (replicate (length s + 1) none) (length s + 1) 0 >>= λ p.
    write p.1 (0 ∷ []) p.0 >>= λ mem. some (some mem)
