-- ===== src/Xml/Table.antt =====
-- The table of tags: no entry hides another, and its start tags are told apart by sfccLex.
use sblim_sfcc.Base.{
  ℕ, ◌≡◌, ◌⊎◌, Bool-cases, Option-cases, ==_iff, ◌==◌, some-inj, arith, true, false, [], refl, inl,
  inr, List, ◌∷◌, ◌++◌, map, some, take, Bytes,
}
use mathlib.Core.Path.{subst}
use sblim_sfcc.Xml.{next_equals, behind, exactly, at, is_alnum}
use sblim_sfcc.Xml.Lex.{Tag, tags, find_tag}

-- The entries but the two for CDATA.
abbrev pub elements : List Tag
elements = take 43 tags

-- What can follow the name of a tag: a blank, `>` or `/`.
abbrev pub Follows : ℕ → Type 0
Follows c = (c ≡ b' ') ⊎ (c ≡ b'>') ⊎ (c ≡ b'/')

behind-exactly : (w s r : Bytes) → behind exactly w s ≡ some r → s ≡ w ++ r
unfolding behind
behind-exactly [] s r h = some-inj s r h
behind-exactly (c ∷ w) [] r h = ground arith
behind-exactly (c ∷ w) (d ∷ s) r h = elim (Bool-cases (c == d)) [
  | inr e ↦ let no = rw (behind, e) at h in ground arith
  | inl e ↦
      let same : c ≡ d = (==_iff c d).0 e in
      rw (← same, ← behind-exactly w s r (rw (behind, e) at h)) refl
]

-- The text is the tag, with no letter or digit behind it.
abbrev pub StartsWith : Bytes → Bytes → Type 0
StartsWith n s = (r : Bytes) × (s ≡ n ++ r) × (at is_alnum r ≡ false)

next_equals-StartsWith : (s n : Bytes) → next_equals s n ≡ true → StartsWith n s
unfolding next_equals
next_equals-StartsWith s n h = elim (Option-cases (behind exactly n s)) [
  | inl e ↦ let no = rw (next_equals, e) at h in ground arith
  | inr (r, e) ↦ elim (Bool-cases (at is_alnum r)) [
    | inl f ↦ let no = rw (next_equals, e, f) at h in ground arith
    | inr f ↦ (r, behind-exactly n s r e, f)
  ]
]

find_tag-StartsWith :
    (ts : List Tag) (s : Bytes) (t : Tag) → find_tag ts s ≡ some t → StartsWith t.tag s
unfolding find_tag
find_tag-StartsWith [] s t h = ground arith
find_tag-StartsWith (u ∷ ts) s t h = elim (Bool-cases (next_equals s u.tag)) [
  | inr e ↦ find_tag-StartsWith ts s t (rw (find_tag, e) at h)
  | inl e ↦
      subst (λ x. StartsWith x.tag s) (some-inj u t (rw (find_tag, e) at h))
        (next_equals-StartsWith s u.tag e)
]

find_tag_lem :
    (c : ℕ) (rest : Bytes)
    → Follows c
    → map (λ t. find_tag tags (t.tag ++ c ∷ rest)) elements ≡ map some elements
unfolding find_tag next_equals
find_tag_lem c rest (inl e) = rw e refl
find_tag_lem c rest (inr (inl e)) = rw e refl
find_tag_lem c rest (inr (inr e)) = rw e refl

-- For each of the 43 entries but those of CDATA, a text of its tag and a blank, `>` or `/` behind
-- it is found at that entry, so that VALUE is not taken for VALUE.ARRAY, nor the other way round;
-- and for any text, an entry that is found has the tag with which the text starts, with no letter
-- or digit behind it.
pub find_tag-elements :
    (c : ℕ) (rest : Bytes)
    → Follows c
    → (map (λ t. find_tag tags (t.tag ++ c ∷ rest)) elements ≡ map some elements)
      × ((s : Bytes) (t : Tag) → find_tag tags s ≡ some t → StartsWith t.tag s)
find_tag-elements c rest h = (find_tag_lem c rest h, find_tag-StartsWith tags)
