-- ===== src/Xml/Attributes.antt =====
-- Start tags: tagEquals, attrsOk and getContent of backend/cimxml/cimXmlParser.c.
use sblim_sfcc.Base.{
  ℕ, zero, suc, Bool, true, false, List, [], ◌∷◌, Option, none, some, ◌==◌, if◌then◌else◌, length,
  Bytes, codes, same_text,
}
use sblim_sfcc.Xml.{
  Token, Outcome, done, thrown, fault, endless, ◌>>=◌, XmlBuffer, is_blank, is_alpha, at, skip_ws,
  get_chars, get_char, get_word, get_value, cut_at,
}

-- An entry of `e`, with that of `r` and the mark of `wa` for it.
pub record Slot : Type 0 where
  pub name : Bytes
  pub attr : Option Bytes
  pub wa : Bool

abbrev pub slots : List Bytes → List Slot
slots [] = []
slots (n ∷ ns) = record { name = n; attr = none; wa = false } ∷ slots ns

abbrev pub attrs : List Slot → List (Option Bytes)
attrs [] = []
attrs (s ∷ ss) = s.attr ∷ attrs ss

-- What follows the name of an attribute.
unfoldable pub value_behind : Bytes → Outcome (Option Bytes × Bytes)
unfolding skip_ws get_char get_value
value_behind cur = elim (get_char (skip_ws cur) b'=') [ none ↦ thrown | some r ↦ get_value r ]

-- One attribute: the inner loop of attrsOk.
unfoldable pub read_attr : List Slot → Bytes → Outcome (List Slot × Bytes)
unfolding get_word value_behind
read_attr [] cur = thrown
read_attr (s ∷ ss) cur =
    let others = read_attr ss cur >>= λ p. done (s ∷ p.0, p.1) in
    if s.wa then others else elim (get_word cur s.name false) [
      | none ↦ others
      | some r ↦ value_behind r >>= λ p. done (record s { attr = p.0; wa = true } ∷ ss, p.1)
    ]

-- The outer loop, on fuel.
unfoldable pub read_attrs : ℕ → List Slot → Bytes → Outcome (List Slot × Bytes)
unfolding skip_ws read_attr
read_attrs zero ss cur = endless
read_attrs (suc fuel) ss cur =
    let more = read_attr ss (skip_ws cur) >>= λ p. read_attrs fuel p.0 p.1 in
    if at is_alpha (skip_ws cur) then more else done (ss, skip_ws cur)

-- How the tag ends: the flag says whether it closes itself.
unfoldable pub tag_end : Bytes → Bytes → Outcome (Bool × Bytes)
unfolding get_chars get_char same_text
tag_end tag cur = elim (get_chars cur (codes "/>")) [
  | some r ↦ done (true, r)
  | none ↦ elim (get_char cur b'>') [
    | some r ↦ done (false, r)
    | none ↦ elim (get_chars cur (codes "?>")) [
      | some r ↦ if same_text tag (codes "?xml") then done (true, r) else thrown
      | none ↦ thrown
    ]
  ]
]

-- attrsOk: the attributes that `e` names, and the buffer behind the tag. Each attribute takes an
-- entry, so that one step more than there are entries is enough.
unfoldable pub attrs_ok :
    List Bytes → Bytes → Token → XmlBuffer → Bytes → Outcome (List (Option Bytes) × XmlBuffer)
unfolding read_attrs tag_end
attrs_ok e tag etag xb cur = do
  read ← read_attrs (suc (length e)) (slots e) cur
  end ← tag_end tag read.1
  done (
    attrs read.0,
    record xb { cur = some end.1; e_tag_found = end.0; etag = if end.0 then etag else xb.etag },
  )

-- tagEquals behind the `<`: where the name does not follow, `cur` is `start` again.
unfoldable pub tag_name : Option Bytes → Bytes → Bytes → Bool × Option Bytes
unfolding skip_ws get_word
tag_name start cur t = elim (get_word (skip_ws cur) t true) [
  | none ↦ (false, start)
  | some r ↦ (true, some r)
]

-- tagEquals: `start` stays NULL where a NUL stands for the `<`.
unfoldable pub tag_equals : Bytes → Bytes → Outcome (Bool × Option Bytes)
unfolding skip_ws get_char tag_name
tag_equals [] t = fault
tag_equals (c ∷ cs) t =
    if c == 0
    then done (tag_name none (skip_ws cs) t)
    else elim (get_char (skip_ws (c ∷ cs)) b'<') [
      | none ↦ done (false, some (c ∷ cs))
      | some r ↦ done (tag_name (some (c ∷ cs)) r t)
    ]

-- The blanks that getContent leaves out at the end. They end at the latest at the `>` of the tag.
unfoldable pub trim_end : Bytes → Bytes
trim_end [] = []
trim_end (c ∷ cs) = elim (trim_end cs) [
  | [] ↦ if is_blank c then [] else c ∷ []
  | b ∷ bs ↦ c ∷ b ∷ bs
]

unfoldable pub trim : Bytes → Bytes
unfolding skip_ws trim_end
trim s = trim_end (skip_ws s)

-- The bytes before a `<`, or all, and what stands behind them, with a NUL for the `<`.
unfoldable pub cut_content : Bytes → Bytes × Option Bytes
unfolding cut_at
cut_content cur = elim (cut_at b'<' cur) [ none ↦ (cur, none) | some (s, r) ↦ (s, some r) ]

-- getContent, between its loop and its end: the bytes that it passed and the place behind `<`.
unfoldable pub content_of : XmlBuffer → Bytes → Option Bytes → Option Bytes × XmlBuffer
unfolding trim
content_of xb [] r = (some [], xb)
content_of xb (c ∷ s) none = (some (trim (c ∷ s)), record xb { cur = some []; nulled = false })
content_of xb (c ∷ s) (some r) =
    (some (trim (c ∷ s)), record xb { cur = some (0 ∷ r); nulled = true })

-- getContent, where `cur` is the place of the buffer.
unfoldable pub get_content : XmlBuffer → Bytes → Option Bytes × XmlBuffer
unfolding cut_content trim
get_content xb cur =
    if xb.e_tag_found then (none, xb) else content_of xb (cut_content cur).0 (cut_content cur).1
