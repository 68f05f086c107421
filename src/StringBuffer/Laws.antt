-- ===== src/StringBuffer/Laws.antt =====
-- The buffer holds a sequence of bytes: every operation against what it does to that sequence.
use sblim_sfcc.Base.{
  ℕ, ◌+◌, ◌<◌, ◌≤◌, ◌≡◌, refl, inl, inr, List, [], ◌∷◌, ◌++◌, map, append_assoc, append-nil, Option,
  none, some, arith, ◌==◌, leb, if◌then◌else◌, Bool-cases, length, length-append, length-replicate,
  replicate, Bytes,
}
use sblim_sfcc.StringBuffer.Memory.{
  Begins, Begins-nil, Begins-map, length-map-some, Begins-prefix, write_lem, reallocate_lem,
  double_past_lem, IsText, c_string_lem,
}
use sblim_sfcc.StringBuffer.{
  StringBuffer, reallocate, make_room, append_chars, append_block, append_all, reset, get_size,
  get_text, new_string_buffer, clone_buffer,
}

-- The buffer holds the bytes: they stand in its memory with a NUL behind them, `len` counts them,
-- and `max` does not exceed the memory.
pub record Holds (sb : StringBuffer) (s : Bytes) : Type 0 where
  pub counted : sb.len ≡ length s
  pub stored : Begins sb.memory (s ++ 0 ∷ [])
  pub room : sb.max ≤ length sb.memory
  pub empty_at_zero : sb.max ≡ 0 → s ≡ []

length-zero : (s : Bytes) → length s ≡ 0 → s ≡ []
length-zero [] h = refl
length-zero (b ∷ s) h = absurd (omega arith)

-- A new buffer of any size, 0 included, holds no bytes.
pub new_string_buffer_lem :
    (n : ℕ) → (sb : StringBuffer) × (new_string_buffer n ≡ some sb) × Holds sb []
unfolding new_string_buffer
new_string_buffer_lem n =
    let k = if n == 0 then 32 else n in
    let blank = replicate {A = Option ℕ} k none in
    let size : length blank ≡ k = length-replicate k none in
    let positive : 0 < k = ground arith in
    let (mem, r, l, b) =
      write_lem [] (0 ∷ []) blank (Begins-nil blank) (omega (arith, size, positive)) in
    (
      record { memory = mem; max = k; len = 0 },
      rw r refl,
      record {
        counted = refl;
        stored = b;
        room = omega (arith, l, size);
        empty_at_zero = λ _. refl;
      },
    )

-- Room for `n` more bytes and their NUL, with the same bytes held.
make_room_lem :
    (sb : StringBuffer) (s : Bytes) (n : ℕ)
    → Holds sb s
    → (b : StringBuffer) × (make_room sb n ≡ some b)
      × Holds b s
      × (length s + n + 1 ≤ length b.memory)
      × (0 < b.max)
unfolding make_room
make_room_lem sb s n h = elim (Bool-cases (leb sb.max (n + sb.len + 1))) [
  | inl e ↦
      let start = if sb.max == 0 then 8 else sb.max in
      let (m, r, q, w) =
        double_past_lem (n + sb.len + 2) (n + sb.len + 1) start (ground arith) (omega arith)
          (ground arith) in
      let (l, b) =
        reallocate_lem (m + 2) sb.memory (s ++ 0 ∷ []) h.stored
          (omega (arith, length-append s (0 ∷ []), h.counted)) in
      (
        record sb { max = m; memory = reallocate (m + 2) sb.memory },
        rw (e, r) refl,
        record {
          counted = h.counted;
          stored = b;
          room = omega (arith, l);
          empty_at_zero = λ z. absurd (omega (arith, z));
        },
        omega (arith, l, h.counted),
        omega arith,
      )
  | inr e ↦ (sb, rw e refl, h, ground (arith, h.counted, h.room), ground arith)
]

-- A text appended to a buffer that holds some bytes makes no fault, and the buffer then holds the
-- text behind them, as far as the sizes do not overflow.
pub append_chars_lem :
    (sb : StringBuffer) (s t : Bytes)
    → Holds sb s
    → (sb' : StringBuffer) × (append_chars sb (some t) ≡ some sb') × Holds sb' (s ++ t)
unfolding append_chars
append_chars_lem sb s t h =
    let (b, r, hb, room, pos) = make_room_lem sb s (length t) h in
    let (mem, w, l, k) =
      write_lem s (t ++ 0 ∷ []) b.memory (Begins-prefix b.memory s (0 ∷ []) hb.stored)
        (omega (arith, length-append t (0 ∷ []))) in
    (
      record b { memory = mem; len = b.len + length t },
      rw (r, hb.counted, w) refl,
      record {
        counted = omega (arith, hb.counted, length-append s t);
        stored = rw (append_assoc s t (0 ∷ [])) k;
        room = omega (arith, l, hb.room);
        empty_at_zero = λ z. absurd (omega (arith, z));
      },
    )

-- A block, NUL bytes included, appended to a buffer that holds some bytes, with the sizes as
-- numbers, makes no fault, and the buffer then holds the block behind them.
pub append_block_lem :
    (sb : StringBuffer) (s t : Bytes)
    → Holds sb s
    → (sb' : StringBuffer) × (append_block sb (some t) ≡ some sb') × Holds sb' (s ++ t)
unfolding append_block
append_block_lem sb s t h =
    let (b, r, hb, room, pos) = make_room_lem sb s (length t) h in
    let (mem, w, l, k) =
      write_lem s t b.memory (Begins-prefix b.memory s (0 ∷ []) hb.stored) (omega arith) in
    let (mem', w', l', k') =
      write_lem (s ++ t) (0 ∷ []) mem k (omega (arith, length-append s t, l)) in
    (
      record b { memory = mem'; len = b.len + length t },
      rw (r, hb.counted, w, ← length-append s t, w') refl,
      record {
        counted = omega (arith, hb.counted, length-append s t);
        stored = k';
        room = omega (arith, l, l', hb.room);
        empty_at_zero = λ z. absurd (omega (arith, z));
      },
    )

-- The texts that are not NULL, one behind the other.
abbrev pub joined : List (Option Bytes) → Bytes
joined [] = []
joined (none ∷ ss) = joined ss
joined (some s ∷ ss) = s ++ joined ss

-- A sequence of texts is appended to a buffer in order with no fault; a NULL pointer adds nothing.
pub append_all_lem :
    (ts : List (Option Bytes)) (sb : StringBuffer) (s : Bytes)
    → Holds sb s
    → (sb' : StringBuffer) × (append_all sb ts ≡ some sb') × Holds sb' (s ++ joined ts)
unfolding append_all append_chars
append_all_lem [] sb s h = (sb, refl, rw append-nil h)
append_all_lem (none ∷ ts) sb s h = append_all_lem ts sb s h
append_all_lem (some t ∷ ts) sb s h =
    let (b, r, hb) = append_chars_lem sb s t h in
    rw (r, ← append_assoc s t (joined ts)) (append_all_lem ts b (s ++ t) hb)

-- A reset buffer holds no bytes, in memory of the same length.
pub reset_lem :
    (sb : StringBuffer) (s : Bytes)
    → Holds sb s
    → (sb' : StringBuffer) × (reset sb ≡ some sb')
      × Holds sb' []
      × (length sb'.memory ≡ length sb.memory)
unfolding reset
reset_lem sb s h = elim (Bool-cases (sb.max == 0)) [
  | inl e ↦
      let empty : s ≡ [] = h.empty_at_zero (ground arith) in
      (
        record sb { len = 0 },
        rw e refl,
        record {
          counted = refl;
          stored = rw empty at h.stored;
          room = h.room;
          empty_at_zero = λ _. refl;
        },
        refl,
      )
  | inr e ↦
      let (mem, w, l, k) =
        write_lem [] (0 ∷ []) sb.memory (Begins-nil sb.memory) (ground (arith, h.room)) in
      (
        record sb { memory = mem; len = 0 },
        rw (e, w) refl,
        record {
          counted = refl;
          stored = k;
          room = omega (arith, l, h.room);
          empty_at_zero = λ _. refl;
        },
        l,
      )
]

-- Held bytes without a NUL are the text that a reader gets, and getSize is their number.
pub get_text_lem :
    (sb : StringBuffer) (s : Bytes)
    → Holds sb s
    → IsText s
    → (get_text sb ≡ some s) × (get_size sb ≡ length s)
unfolding get_text get_size
get_text_lem sb s h n = (c_string_lem sb.memory s [] n h.stored, h.counted)

-- A copy of a buffer whose bytes have no NUL holds the same bytes.
pub clone_buffer_lem :
    (sb : StringBuffer) (s : Bytes)
    → Holds sb s
    → IsText s
    → (sb' : StringBuffer) × (clone_buffer sb ≡ some sb') × Holds sb' s
unfolding clone_buffer
clone_buffer_lem sb s h n = (
  record { memory = map some (s ++ 0 ∷ []); max = sb.len; len = sb.len },
  rw (c_string_lem sb.memory s [] n h.stored) refl,
  record {
    counted = h.counted;
    stored = rw append-nil at (Begins-map (s ++ 0 ∷ []) []);
    room = omega (arith, h.counted, length-map-some (s ++ 0 ∷ []), length-append s (0 ∷ []));
    empty_at_zero = λ z. length-zero s (omega (arith, h.counted, z));
  },
)

-- A copy of a buffer whose bytes have a NUL, as a block may, keeps the count of all bytes but only
-- the memory up to the first NUL: fewer cells than the bytes that it counts. Its text is what
-- stands before that NUL.
pub clone_buffer_cuts :
    (sb : StringBuffer) (s t : Bytes)
    → Holds sb (s ++ 0 ∷ t)
    → IsText s
    → (sb' : StringBuffer) × (clone_buffer sb ≡ some sb')
      × (get_size sb' ≡ length (s ++ 0 ∷ t))
      × (length sb'.memory < get_size sb' + 1)
      × (get_text sb' ≡ some s)
unfolding clone_buffer get_size get_text
clone_buffer_cuts sb s t h n = (
  record { memory = map some (s ++ 0 ∷ []); max = sb.len; len = sb.len },
  rw (c_string_lem sb.memory s (t ++ 0 ∷ []) n (rw (append_assoc s (0 ∷ t) (0 ∷ [])) at h.stored))
      refl,
  h.counted,
  omega (
    arith,
    h.counted,
    length-map-some (s ++ 0 ∷ []),
    length-append s (0 ∷ []),
    length-append s (0 ∷ t),
  ),
  c_string_lem (map some (s ++ 0 ∷ [])) s [] n (rw append-nil at (Begins-map (s ++ 0 ∷ []) [])),
)
