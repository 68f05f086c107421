-- ===== src/Escape/Room.antt =====
-- The block of AsciiToXmlStr: for which texts it is large enough.
use mathlib.Core.Path.{subst}
use sblim_sfcc.Xml.{Token, xtok_value, done, XmlBuffer}
use sblim_sfcc.Xml.Elements.{between, IsTrim, value_read}
use sblim_sfcc.Xml.Lex.{sfcc_lex}
use sblim_sfcc.Xml.Reply.{reply, value}
use mathlib.Core.List.{append_assoc, append-nil}
use sblim_sfcc.Base.{
  ℕ, ◌+◌, ◌*◌, ◌<◌, ◌≤◌, ◌≡◌, ◌∙◌, ap, sym, refl, inl, inr, ◌⊎◌, Bool, true, false, [], ◌∷◌, ◌++◌,
  Option, none, some, leb, ◌>>=◌, Bool-cases, length, length-append, length-replicate, replicate,
  Bytes, codes, arith,
}
use sblim_sfcc.Escape.{
  largest_xml_escape_size, xml_to_ascii_str, escape_of, find_escape, to_xml, ascii_to_xml_str,
}
use sblim_sfcc.Escape.Laws.{
  escaped, Undone-escape_of, escaped-IsText, escaped-Without, xml_to_ascii_str-escaped,
}
use sblim_sfcc.StringBuffer.{Memory, write, reallocate, c_string}
use sblim_sfcc.StringBuffer.Memory.{
  Begins, Begins-nil, IsText, write_lem, reallocate_lem, c_string_lem,
}

-- The text so far stands in the block, with room for its NUL, and doubling gives room for any
-- character.
record Fits (s : Bytes) (mem : Memory) (buflen : ℕ) : Type 0 where
  begins : Begins mem s
  sized : length mem ≡ buflen
  three : 3 ≤ buflen
  room : length s < buflen
  double : length s + 6 < 2 * buflen

-- The block before a write.
abbrev grown : Bytes → Memory → ℕ → Bool → Memory × ℕ
grown s mem buflen true = (reallocate (2 * buflen) mem, 2 * buflen)
grown s mem buflen false = (mem, buflen)

-- What the growth gives: room for six bytes and the NUL, and for a doubling after that.
record Ready (s : Bytes) (p : Memory × ℕ) : Type 0 where
  begins : Begins p.0 s
  sized : length p.0 ≡ p.1
  three : 3 ≤ p.1
  room : length s + 6 < p.1
  double : length s + 12 < 2 * p.1

Ready-grown :
    (s : Bytes) (mem : Memory) (buflen : ℕ)
    → Fits s mem buflen
    → Ready s (grown s mem buflen (leb buflen (length s + largest_xml_escape_size)))
Ready-grown s mem buflen f = elim (Bool-cases (leb buflen (length s + largest_xml_escape_size))) [
  | inl e ↦ rw e (
      let (n, b) = reallocate_lem (2 * buflen) mem s f.begins (omega (arith, f.room)) in
      record {
        begins = b;
        sized = n;
        three = omega (arith, f.three);
        room = omega (arith, f.double);
        double = omega (arith, f.double, f.three);
      })
  | inr e ↦
      let large : length s + 6 < buflen = ground arith in
      rw e (record {
        begins = f.begins;
        sized = f.sized;
        three = f.three;
        room = large;
        double = omega (arith, large);
      })
]

-- One round of the loop.
Fits-write :
    (s e : Bytes) (p : Memory × ℕ)
    → Ready s p
    → length e ≤ 6
    → (m : Memory) × (write (length s) e p.0 ≡ some m) × Fits (s ++ e) m p.1
Fits-write s e p r h =
    let (m, w, k, b) = write_lem s e p.0 r.begins (omega (arith, r.sized, r.room, h)) in
    (
      m,
      w,
      record {
        begins = b;
        sized = k ∙ r.sized;
        three = r.three;
        room = omega (arith, length-append s e, r.room, h);
        double = omega (arith, length-append s e, r.double, h);
      },
    )

to_xml_step :
    (c : ℕ) (cs s : Bytes) (mem : Memory) (buflen : ℕ)
    → let p = grown s mem buflen (leb buflen (length s + largest_xml_escape_size)) in
      to_xml (c ∷ cs) mem buflen (length s) ≡ (
        write (length s) (escape_of c) p.0 >>= λ m.
        to_xml cs m p.1 (length s + length (escape_of c)))
unfolding to_xml
to_xml_step c cs s mem buflen =
    elim (Bool-cases (leb buflen (length s + largest_xml_escape_size))) [
      | inl e ↦ rw e refl
      | inr e ↦ rw e refl
    ]

to_xml_nil : (mem : Memory) (buflen n : ℕ) → to_xml [] mem buflen n ≡ some (mem, n)
unfolding to_xml
to_xml_nil mem buflen n = refl

to_xml_lem :
    (cs s : Bytes) (mem : Memory) (buflen : ℕ)
    → Fits s mem buflen
    → (m : Memory) × (n : ℕ) × (to_xml cs mem buflen (length s)
        ≡ some (m, length (s ++ escaped cs)))
      × Fits (s ++ escaped cs) m n
to_xml_lem [] s mem buflen f = rw (append-nil s) (mem, buflen, to_xml_nil mem buflen (length s), f)
to_xml_lem (c ∷ cs) s mem buflen f =
    let p = grown s mem buflen (leb buflen (length s + largest_xml_escape_size)) in
    let (m, w, g) =
      Fits-write s (escape_of c) p (Ready-grown s mem buflen f) (Undone-escape_of c).1 in
    let (m', n, e, k) = to_xml_lem cs (s ++ escape_of c) m p.1 g in
    let same = append_assoc s (escape_of c) (escaped cs) in
    (
      m',
      n,
      to_xml_step c cs s mem buflen
          ∙ ap (λ o. o >>= λ x. to_xml cs x p.1 (length s + length (escape_of c))) w
          ∙ ap (λ x. to_xml cs m p.1 x) (sym (length-append s (escape_of c)))
          ∙ e
          ∙ ap (λ t. some (m', length t)) same,
      subst (λ t. Fits t m' n) same k,
    )

Fits-start : (s : Bytes) → 3 ≤ length s → Fits [] (replicate (length s + 1) none) (length s + 1)
Fits-start s h = record {
  begins = Begins-nil (replicate (length s + 1) none);
  sized = length-replicate {A = Option ℕ} (length s + 1) none;
  three = omega (arith, h);
  room = omega (arith, h);
  double = omega (arith, h);
}

empty_text : ascii_to_xml_str (some []) ≡ some (some (some 0 ∷ []))
unfolding ascii_to_xml_str to_xml write
empty_text = refl

-- For a text of three bytes or more, and for the empty text, AsciiToXmlStr makes no write outside
-- its block, and the block holds the text with its special characters written as entities.
pub ascii_to_xml_str_lem :
    (s : Bytes)
    → IsText s
    → (s ≡ []) ⊎ (3 ≤ length s)
    → (mem : Memory) × (ascii_to_xml_str (some s) ≡ some (some mem))
      × (c_string mem ≡ some (escaped s))
unfolding ascii_to_xml_str c_string
ascii_to_xml_str_lem s t (inl e) = rw e (some 0 ∷ [], empty_text, refl)
ascii_to_xml_str_lem s t (inr h) =
    let (m, n, e, f) =
      to_xml_lem s [] (replicate (length s + 1) none) (length s + 1) (Fits-start s h) in
    let (mem, w, k, b) =
      write_lem (escaped s) (0 ∷ []) m f.begins (omega (arith, f.sized, f.room)) in
    (mem, rw (e, w) refl, c_string_lem mem (escaped s) [] (escaped-IsText s t) b)

-- A value that AsciiToXmlStr writes between `<VALUE>` and `</VALUE>` is read by sfccLex as its
-- text, and XmlToAsciiStr makes the value of it, for values of three bytes or more whose escaped
-- text neither begins nor ends with a blank.
pub escaped_value_read :
    (s rest : Bytes) (etag : Token)
    → IsText s
    → 3 ≤ length s
    → IsTrim (escaped s)
    → (xml : Memory) × (t : Bytes) × (xb : XmlBuffer) × (ascii : Memory) × (ascii_to_xml_str
          (some s)
        ≡ some (some xml))
      × (c_string xml ≡ some t)
      × (sfcc_lex (between (codes "<VALUE>" ++ (t ++ (codes "</VALUE>" ++ rest))) etag)
          ≡ done (reply xtok_value (value (some t)) none xb))
      × (xml_to_ascii_str t ≡ some ascii)
      × (c_string ascii ≡ some s)
escaped_value_read s rest etag t h k =
    let (xml, e, c) = ascii_to_xml_str_lem s t (inr h) in
    let (ascii, f, d) = xml_to_ascii_str-escaped s t in
    let (xb, l, m) = value_read (escaped s) rest etag k (escaped-Without s) in
    (xml, escaped s, xb, ascii, e, c, l, f, d)

-- The special characters.
abbrev pub IsSpecial : ℕ → Type 0
IsSpecial c = (c ≡ b'"') ⊎ (c ≡ b'&') ⊎ (c ≡ b'\'') ⊎ (c ≡ b'<') ⊎ (c ≡ b'>')

-- For a text of one special character, AsciiToXmlStr writes outside its block: two bytes, doubled
-- once, have no room for the shortest entity and its NUL.
pub ascii_to_xml_str_overflows : (c : ℕ) → IsSpecial c → ascii_to_xml_str (some (c ∷ [])) ≡ none
unfolding ascii_to_xml_str to_xml escape_of find_escape write reallocate
ascii_to_xml_str_overflows c (inl e) = rw e refl
ascii_to_xml_str_overflows c (inr (inl e)) = rw e refl
ascii_to_xml_str_overflows c (inr (inr (inl e))) = rw e refl
ascii_to_xml_str_overflows c (inr (inr (inr (inl e)))) = rw e refl
ascii_to_xml_str_overflows c (inr (inr (inr (inr e)))) = rw e refl
