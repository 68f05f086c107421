-- ===== src/Xml/Progress.antt =====
-- The loops over attributes end, and a start tag leaves less of the buffer than there was.
use sblim_sfcc.Base.{
  ℕ, zero, suc, ◌+◌, ◌<◌, ◌≤◌, ◌≡◌, refl, inl, inr, true, false, List, [], ◌∷◌, arith,
  if◌then◌else◌, Bool-cases, Option-cases, length, Bytes,
}
use sblim_sfcc.Xml.{done, ◌>>=◌, is_alpha, at, skip_ws, get_char, get_word, get_value}
use sblim_sfcc.Xml.Attributes.{Slot, slots, value_behind, read_attr, read_attrs}
use sblim_sfcc.Xml.Shrinks.{
  Ensures, Ensures-bind, Ensures-mono, Ensures-if, length-skip_ws, length-get_char, length-get_word,
  Ensures-get_value,
}

-- The entries without a mark.
abbrev pub unmarked : List Slot → ℕ
unmarked [] = 0
unmarked (s ∷ ss) = (if s.wa then 0 else 1) + unmarked ss

pub unmarked-slots : (e : List Bytes) → unmarked (slots e) ≡ length e
unmarked-slots [] = refl
unmarked-slots (n ∷ ns) = omega (arith, unmarked-slots ns)

Ensures-value_behind : (cur : Bytes) → Ensures (λ p. length p.1 ≤ length cur) (value_behind cur)
unfolding value_behind
Ensures-value_behind cur = elim (Option-cases (get_char (skip_ws cur) b'=')) [
  | inl e ↦ rw (value_behind, e) tt
  | inr (r, e) ↦
      rw (value_behind, e)
        (Ensures-mono (λ p. length p.1 ≤ length r) (λ p. length p.1 ≤ length cur) (get_value r)
          (Ensures-get_value r)
          (λ p h. omega (arith, h, length-get_char (skip_ws cur) b'=' e, length-skip_ws cur)))
]

-- An attribute marks an entry.
abbrev pub Marks : List Slot → Bytes → List Slot × Bytes → Type 0
Marks ss cur p = (unmarked p.0 < unmarked ss) × (length p.1 ≤ length cur)

Ensures-others :
    (s : Slot) (ss : List Slot) (cur : Bytes)
    → Ensures (Marks ss cur) (read_attr ss cur)
    → Ensures (Marks (s ∷ ss) cur) (read_attr ss cur >>= λ p. done (s ∷ p.0, p.1))
Ensures-others s ss cur h =
    Ensures-bind (Marks ss cur) (Marks (s ∷ ss) cur) (read_attr ss cur) (λ p. done (s ∷ p.0, p.1)) h
      (λ p k. (omega (arith, k.0), k.1))

Ensures-read_attr : (ss : List Slot) (cur : Bytes) → Ensures (Marks ss cur) (read_attr ss cur)
unfolding read_attr
Ensures-read_attr [] cur = tt
Ensures-read_attr (s ∷ ss) cur =
    let others = Ensures-others s ss cur (Ensures-read_attr ss cur) in
    Ensures-if (Marks (s ∷ ss) cur) s.wa _ _ (λ e. others)
      (λ e. elim (Option-cases (get_word cur s.name false)) [
        | inl k ↦ rw k others
        | inr (r, k) ↦ rw k (
            Ensures-bind (λ p. length p.1 ≤ length r) (Marks (s ∷ ss) cur) (value_behind r)
              (λ p. done (record s { attr = p.0; wa = true } ∷ ss, p.1)) (Ensures-value_behind r)
              (λ p h. (ground arith, omega (arith, h, length-get_word cur s.name false k))))
      ])

-- The loop over the attributes ends within one step more than there are entries without a mark.
pub Ensures-read_attrs :
    (fuel : ℕ) (ss : List Slot) (cur : Bytes)
    → unmarked ss < fuel
    → Ensures (λ p. length p.1 ≤ length cur) (read_attrs fuel ss cur)
unfolding read_attrs
Ensures-read_attrs zero ss cur h = absurd (omega arith)
Ensures-read_attrs (suc fuel) ss cur h = elim (Bool-cases (at is_alpha (skip_ws cur))) [
  | inr e ↦ rw (read_attrs, e) (length-skip_ws cur)
  | inl e ↦
      rw (read_attrs, e)
        (Ensures-bind (Marks ss (skip_ws cur)) (λ p. length p.1 ≤ length cur)
          (read_attr ss (skip_ws cur)) (λ p. read_attrs fuel p.0 p.1)
          (Ensures-read_attr ss (skip_ws cur))
          (λ p k.
            Ensures-mono (λ q. length q.1 ≤ length p.1) (λ q. length q.1 ≤ length cur)
              (read_attrs fuel p.0 p.1) (Ensures-read_attrs fuel p.0 p.1 (omega (arith, k.0)))
              (λ q l. omega (arith, l, k.1, length-skip_ws cur))))
]
