-- ===== src/Xml/Advance.antt =====
-- Every function of the table of tags ends, and a token that it returns leaves less of the
-- buffer.
use sblim_sfcc.Base.{
  ℕ, suc, ◌+◌, ◌*◌, ◌<◌, ◌≤◌, ◌≡◌, ◌⊎◌, refl, inl, inr, Bool, true, false, List, [], ◌∷◌, Option,
  none, some, arith, ◌==◌, if◌then◌else◌, Option-cases, length, Bytes, codes, same_text,
}
use sblim_sfcc.Xml.{
  Token, no_token, Outcome, ◌>>=◌, XmlBuffer, pointee, exactly, skip_ws, get_chars, get_char,
  get_word,
}
use sblim_sfcc.Xml.Attributes.{slots, read_attrs, tag_end, attrs_ok, tag_name, tag_equals}
use sblim_sfcc.Xml.Lex.{left}
use sblim_sfcc.Xml.Progress.{Ensures-read_attrs, unmarked-slots}
use sblim_sfcc.Xml.Reply.{Reply, matched, with_tag}
use sblim_sfcc.Xml.Shrinks.{
  Ensures, Ensures-bind, Ensures-if, length-skip_ws, length-behind, length-get_char,
  length-get_word,
}

-- Two for each byte that is left, and one for an end tag that is still to be returned.
abbrev pub measure : XmlBuffer → ℕ
measure xb = 2 * left xb.cur + (if xb.e_tag_found then 1 else 0)

Ensures-tag_end :
    (tag cur : Bytes)
    → Ensures (λ p. 2 * length p.1 + (if p.0 then 1 else 0) < 2 * length cur) (tag_end tag cur)
unfolding tag_end get_chars
Ensures-tag_end tag cur = elim (Option-cases (get_chars cur (codes "/>"))) [
  | inr (r, e) ↦ rw (tag_end, e) (omega (arith, length-behind exactly (codes "/>") cur e))
  | inl e ↦ elim (Option-cases (get_char cur b'>')) [
    | inr (r, k) ↦ rw (tag_end, e, k) (omega (arith, length-get_char cur b'>' k))
    | inl k ↦ elim (Option-cases (get_chars cur (codes "?>"))) [
      | inl l ↦ rw (tag_end, e, k, l) tt
      | inr (r, l) ↦
          rw (tag_end, e, k, l)
            (Ensures-if (λ p. 2 * length p.1 + (if p.0 then 1 else 0) < 2 * length cur)
              (same_text tag (codes "?xml")) _ _
              (λ t. omega (arith, length-behind exactly (codes "?>") cur l)) (λ t. tt))
    ]
  ]
]

pub Ensures-attrs_ok :
    (e : List Bytes) (tag : Bytes) (etag : Token) (xb : XmlBuffer) (cur : Bytes)
    → Ensures (λ p. measure p.1 < 2 * length cur) (attrs_ok e tag etag xb cur)
unfolding attrs_ok
Ensures-attrs_ok e tag etag xb cur =
    let Out : List (Option Bytes) × XmlBuffer → Type 0 = λ p. measure p.1 < 2 * length cur in
    Ensures-bind (λ p. length p.1 ≤ length cur) Out (read_attrs (suc (length e)) (slots e) cur) _
      (Ensures-read_attrs (suc (length e)) (slots e) cur (omega (arith, unmarked-slots e)))
      (λ p h.
        Ensures-bind (λ q. 2 * length q.1 + (if q.0 then 1 else 0) < 2 * length p.1) Out
          (tag_end tag p.1) _ (Ensures-tag_end tag p.1) (λ q k. omega (arith, h, k)))

-- Where a tag matches, there is a place behind it.
abbrev pub Behind : ℕ → Bool → Option Bytes → Type 0
Behind n false cur = Unit {0}
Behind n true none = ⊥
Behind n true (some c) = length c < n

Behind-tag_name :
    (n : ℕ) (start : Option Bytes) (cur t : Bytes)
    → length cur < n
    → Behind n (tag_name start cur t).0 (tag_name start cur t).1
unfolding tag_name
Behind-tag_name n start cur t h = elim (Option-cases (get_word (skip_ws cur) t true)) [
  | inl e ↦ rw (tag_name, e) tt
  | inr (r, e) ↦
      rw (tag_name, e) (omega (arith, length-get_word (skip_ws cur) t true e, length-skip_ws cur))
]

Ensures-tag_equals : (cur t : Bytes) → Ensures (λ f. Behind (length cur) f.0 f.1) (tag_equals cur t)
unfolding tag_equals
Ensures-tag_equals [] t = tt
Ensures-tag_equals (c ∷ cs) t =
    Ensures-if (λ f. Behind (length (c ∷ cs)) f.0 f.1) (c == 0) _ _
      (λ e.
        Behind-tag_name (suc (length cs)) none (skip_ws cs) t (omega (arith, length-skip_ws cs)))
      (λ e. elim (Option-cases (get_char (skip_ws (c ∷ cs)) b'<')) [
        | inl k ↦ rw k tt
        | inr (r, k) ↦ rw k (
            Behind-tag_name (suc (length cs)) (some (c ∷ cs)) r t
              (omega (arith, length-get_char (skip_ws (c ∷ cs)) b'<' k, length-skip_ws (c ∷ cs))))
      ])

-- A token is returned only with a smaller measure.
abbrev pub Advances : ℕ → Reply → Type 0
Advances n r = (r.token ≡ no_token) ⊎ (measure r.buffer < n)

abbrev pub Advancing : (XmlBuffer → Outcome Reply) → Type 0
Advancing p = (xb : XmlBuffer) → Ensures (Advances (2 * left xb.cur)) (p xb)

pub Ensures-with_tag :
    (tag : Bytes) (xb : XmlBuffer) (k : Bytes → Outcome Reply)
    → ((c : Bytes) → length c < left xb.cur → Ensures (Advances (2 * left xb.cur)) (k c))
    → Ensures (Advances (2 * left xb.cur)) (with_tag tag xb k)
unfolding with_tag
Ensures-with_tag tag xb k h = go xb.cur h
  where
    step :
        (n : ℕ) (b : Bool) (c : Option Bytes)
        → Behind n b c
        → ((d : Bytes) → length d < n → Ensures (Advances (2 * n)) (k d))
        → Ensures (Advances (2 * n)) (matched xb b c k)
    step n false c p q = inl refl
    step n true none p q = elim p [ ]
    step n true (some d) p q = q d p

    go :
        (cur : Option Bytes)
        → ((c : Bytes) → length c < left cur → Ensures (Advances (2 * left cur)) (k c))
        → Ensures
            (Advances (2 * left cur))
            (pointee cur >>= λ c. tag_equals c tag >>= λ f. matched xb f.0 f.1 k)
    go none q = tt
    go (some c) q =
        Ensures-bind (λ f. Behind (length c) f.0 f.1) (Advances (2 * length c)) (tag_equals c tag)
          (λ f. matched xb f.0 f.1 k) (Ensures-tag_equals c tag)
          (λ f p. step (length c) f.0 f.1 p q)
