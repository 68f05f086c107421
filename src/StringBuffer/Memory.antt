-- ===== src/StringBuffer/Memory.antt =====
-- Writes into memory, texts in it, and the loop that doubles its size.
use sblim_sfcc.Array.Cells.{length-take_le}
use sblim_sfcc.Base.{
  ℕ, zero, suc, ◌+◌, ◌-◌, ◌*◌, ◌<◌, ◌≤◌, ◌≡◌, refl, ◌≢◌, ap, inl, inr, List, [], ◌∷◌, ◌++◌, map,
  Option, none, some, arith, leb, Bool-cases, ne→==, le→leb, length, length-append,
  length-replicate, take, drop, replicate, Bytes, some-inj,
}
use sblim_sfcc.StringBuffer.{Memory, write, reallocate, c_string, double_past}

module _ {ℓ} {A : Type ℓ} where
  length-drop : (n : ℕ) (xs : List A) → length (drop n xs) ≡ length xs - n
  length-drop zero xs = omega arith
  length-drop (suc n) [] = omega arith
  length-drop (suc n) (x ∷ xs) = omega (arith, length-drop n xs)

pub length-map-some : (bs : Bytes) → length (map some bs) ≡ length bs
length-map-some [] = refl
length-map-some (b ∷ bs) = ap suc (length-map-some bs)

map-append_some : (as' bs : Bytes) → map some (as' ++ bs) ≡ map some as' ++ map some bs
map-append_some [] bs = refl
map-append_some (a ∷ as') bs = ap (◌∷◌ (some a)) (map-append_some as' bs)

-- The memory begins with the bytes.
abbrev pub Begins : Memory → Bytes → Type 0
Begins [] [] = Unit {0}
Begins [] (b ∷ bs) = ⊥
Begins (c ∷ mem) [] = Unit {0}
Begins (c ∷ mem) (b ∷ bs) = (c ≡ some b) × Begins mem bs

pub Begins-nil : (mem : Memory) → Begins mem []
Begins-nil [] = tt
Begins-nil (c ∷ mem) = tt

pub Begins-length : (mem : Memory) (bs : Bytes) → Begins mem bs → length bs ≤ length mem
Begins-length [] [] h = omega arith
Begins-length [] (b ∷ bs) h = elim h [ ]
Begins-length (c ∷ mem) [] h = omega arith
Begins-length (c ∷ mem) (b ∷ bs) h = omega (arith, Begins-length mem bs h.1)

pub Begins-map : (bs : Bytes) (rest : Memory) → Begins (map some bs ++ rest) bs
Begins-map [] [] = tt
Begins-map [] (c ∷ rest) = tt
Begins-map (b ∷ bs) rest = (refl, Begins-map bs rest)

-- A write behind text that the memory begins with extends the text.
Begins-take :
    (mem : Memory) (s bs : Bytes) (rest : Memory)
    → Begins mem s
    → Begins (take (length s) mem ++ (map some bs ++ rest)) (s ++ bs)
Begins-take mem [] bs rest h = Begins-map bs rest
Begins-take [] (b ∷ s) bs rest h = elim h [ ]
Begins-take (c ∷ mem) (b ∷ s) bs rest h = (h.0, Begins-take mem s bs rest h.1)

pub Begins-prefix : (mem : Memory) (s t : Bytes) → Begins mem (s ++ t) → Begins mem s
Begins-prefix [] [] t h = tt
Begins-prefix (c ∷ mem) [] t h = tt
Begins-prefix [] (b ∷ s) t h = elim h [ ]
Begins-prefix (c ∷ mem) (b ∷ s) t h = (h.0, Begins-prefix mem s t h.1)

Begins-resize :
    (n : ℕ) (mem : Memory) (s : Bytes) (rest : Memory)
    → Begins mem s
    → length s ≤ n
    → Begins (take n (mem ++ rest)) s
Begins-resize zero mem [] rest h k = tt
Begins-resize zero mem (b ∷ s) rest h k = elim k [ ]
Begins-resize (suc n) mem [] rest h k = Begins-nil (take (suc n) (mem ++ rest))
Begins-resize (suc n) [] (b ∷ s) rest h k = elim h [ ]
Begins-resize (suc n) (c ∷ mem) (b ∷ s) rest h k =
    (h.0, Begins-resize n mem s rest h.1 (omega arith))

length-middle :
    (off : ℕ) (bs : Bytes) (mem : Memory)
    → off + length bs ≤ length mem
    → length (take off mem ++ (map some bs ++ drop (off + length bs) mem)) ≡ length mem
length-middle off bs mem h =
    let rest = drop (off + length bs) mem in
    omega (
      arith,
      length-append (take off mem) (map some bs ++ rest),
      length-append (map some bs) rest,
      length-map-some bs,
      length-take_le off mem,
      length-drop (off + length bs) mem,
    )

-- A write that fits makes no fault, keeps the size of the memory, and puts the bytes behind the
-- text that stood before.
pub write_lem :
    (s bs : Bytes) (mem : Memory)
    → Begins mem s
    → length s + length bs ≤ length mem
    → (mem' : Memory) × (write (length s) bs mem ≡ some mem')
      × (length mem' ≡ length mem)
      × Begins mem' (s ++ bs)
unfolding write
write_lem s bs mem b h = (
  take (length s) mem ++ (map some bs ++ drop (length s + length bs) mem),
  rw (le→leb (length s + length bs) (length mem) h) refl,
  length-middle (length s) bs mem h,
  Begins-take mem s bs (drop (length s + length bs) mem) b,
)

pub reallocate_lem :
    (n : ℕ) (mem : Memory) (s : Bytes)
    → Begins mem s
    → length s ≤ n
    → (length (reallocate n mem) ≡ n) × Begins (reallocate n mem) s
unfolding reallocate
reallocate_lem n mem s b h = (
  length-take_le n (mem ++ replicate n none)
      (omega (arith, length-append mem (replicate n none), length-replicate {A = Option ℕ} n none)),
  Begins-resize n mem s (replicate n none) b h,
)

pub double_past_lem :
    (fuel need max : ℕ)
    → 0 < max
    → 0 < fuel
    → need + 1 < fuel + max
    → (m : ℕ) × (double_past fuel need max ≡ some m) × (need < m) × (max ≤ m)
unfolding double_past
double_past_lem zero need max p q h = absurd (omega arith)
double_past_lem (suc fuel) need max p q h = elim (Bool-cases (leb max need)) [
  | inl e ↦
      let below : max ≤ need = ground arith in
      let (m, r, q, s) =
        double_past_lem fuel need (max * 2) (omega arith) (omega arith) (omega arith) in
      (m, rw e r, q, omega arith)
  | inr e ↦ (max, rw e refl, ground arith, omega arith)
]

-- The doubled size is the one it began with, or no more than twice the need.
pub double_past_le :
    (fuel need max m bound : ℕ)
    → max ≤ bound
    → 2 * need ≤ bound
    → double_past fuel need max ≡ some m
    → m ≤ bound
unfolding double_past
double_past_le zero need max m bound p q h = ground arith
double_past_le (suc fuel) need max m bound p q h = elim (Bool-cases (leb max need)) [
  | inl e ↦
      let below : max ≤ need = ground arith in
      double_past_le fuel need (max * 2) m bound (omega arith) q (rw (double_past, e) at h)
  | inr e ↦ let same : max ≡ m = some-inj max m (rw (double_past, e) at h) in omega (arith, same, p)
]

-- No byte of the text is NUL.
abbrev pub IsText : Bytes → Type 0
IsText [] = Unit {0}
IsText (b ∷ bs) = (b ≢ 0) × IsText bs

-- Where the memory begins with a text and a NUL, the text is what a reader finds.
pub c_string_lem :
    (mem : Memory) (s t : Bytes) → IsText s → Begins mem (s ++ 0 ∷ t) → c_string mem ≡ some s
unfolding c_string
c_string_lem [] [] t n h = elim h [ ]
c_string_lem [] (b ∷ s) t n h = elim h [ ]
c_string_lem (c ∷ mem) [] t n h = rw h.0 refl
c_string_lem (c ∷ mem) (b ∷ s) t n h = rw (h.0, ne→== b 0 n.0, c_string_lem mem s t n.1 h.1) refl
