-- ===== src/StringBuffer/Sizes.antt =====
-- The `int` sizes of a buffer, `max` and what is computed from it, as a text is appended.
use sblim_sfcc.Base.{
  ap, ℕ, ◌-◌, [], ◌∷◌, ◌+◌, ◌*◌, ◌^◌, ◌<◌, ◌≤◌, ◌≡◌, inl, inr, ◌++◌, some, arith, ◌==◌, leb,
  if◌then◌else◌, Bool-cases, Option-cases, length, Bytes, some-inj,
}
use sblim_sfcc.StringBuffer.{StringBuffer, write, double_past, reallocate, make_room, append_chars}
use sblim_sfcc.StringBuffer.Laws.{Holds, append_chars_lem}
use sblim_sfcc.StringBuffer.Memory.{double_past_le}

-- The size after the doubling.
make_room_le :
    (sb b : StringBuffer) (n bound : ℕ)
    → sb.max ≤ bound
    → 8 ≤ bound
    → 2 * (n + sb.len + 1) ≤ bound
    → make_room sb n ≡ some b
    → b.max ≤ bound
unfolding make_room
make_room_le sb b n bound p q r h = elim (Bool-cases (leb sb.max (n + sb.len + 1))) [
  | inr e ↦ let same : sb ≡ b = some-inj sb b (rw e at h) in omega (arith, ap (λ x. x.max) same, p)
  | inl e ↦
      let need = n + sb.len + 1 in
      let start = if sb.max == 0 then 8 else sb.max in
      elim (Option-cases (double_past (n + sb.len + 2) need start)) [
        | inl f ↦ let no = rw (e, f) at h in ground arith
        | inr (m, f) ↦
            let same : record sb { max = m; memory = reallocate (m + 2) sb.memory } ≡ b =
              some-inj (record sb { max = m; memory = reallocate (m + 2) sb.memory }) b
                (rw (e, f) at h) in
            let small : m ≤ bound =
              double_past_le (n + sb.len + 2) need start m bound (ground (arith, p, q)) r f in
            omega (arith, ap (λ x. x.max) same, small)
      ]
]

append_chars_le :
    (sb sb' : StringBuffer) (t : Bytes) (bound : ℕ)
    → sb.max ≤ bound
    → 8 ≤ bound
    → 2 * (length t + sb.len + 1) ≤ bound
    → append_chars sb (some t) ≡ some sb'
    → sb'.max ≤ bound
unfolding append_chars
append_chars_le sb sb' t bound p q r h = elim (Option-cases (make_room sb (length t))) [
  | inl e ↦ let no = rw e at h in ground arith
  | inr (b, e) ↦ elim (Option-cases (write b.len (t ++ 0 ∷ []) b.memory)) [
    | inl f ↦ let no = rw (e, f) at h in ground arith
    | inr (mem, f) ↦
        let same : record b { memory = mem; len = b.len + length t } ≡ sb' =
          some-inj (record b { memory = mem; len = b.len + length t }) sb' (rw (e, f) at h) in
        omega (arith, ap (λ x. x.max) same, make_room_le sb b (length t) bound p q r e)
  ]
]

-- A text appended to a buffer that holds some bytes, where the two have less than 2 ^ 30 - 2 bytes
-- together and `max + 2` is below 2 ^ 31: no fault, the buffer then holds the text behind those
-- bytes, and `max + 2`, the largest `int` that the call computes, is below 2 ^ 31 again.
pub append_chars_fits :
    (sb : StringBuffer) (s t : Bytes)
    → Holds sb s
    → sb.max + 2 < 2 ^ 31
    → length s + length t + 2 < 2 ^ 30
    → (sb' : StringBuffer) × (append_chars sb (some t) ≡ some sb')
      × Holds sb' (s ++ t)
      × (sb'.max + 2 < 2 ^ 31)
append_chars_fits sb s t h p q =
    let (sb', e, k) = append_chars_lem sb s t h in
    let small : sb'.max ≤ 2 ^ 31 - 3 =
      append_chars_le sb sb' t (2 ^ 31 - 3) (omega (arith, p)) (omega arith)
        (omega (arith, h.counted, q)) e in
    (sb', e, k, omega (arith, small))
