-- ===== src/Xml/Shrinks.antt =====
-- How far the scanners of the lexer move: what they leave of the buffer is no longer than what
-- they were given, and their loops end.
use sblim_sfcc.Base.{
  ℕ, suc, ◌+◌, ◌<◌, ◌≤◌, ◌≡◌, ◌⊎◌, refl, inl, inr, Bool, true, false, [], ◌∷◌, Option, none, some,
  arith, ◌==◌, if◌then◌else◌, Bool-cases, Option-cases, length, Bytes, to_lower,
}
use sblim_sfcc.Xml.{
  Outcome, done, thrown, fault, endless, ◌>>=◌, exactly, skip_ws, behind, get_char, at_word_end,
  get_word, cut_at, cut_at_text, skip_tag, value_to, get_value,
}

-- The call ends, and its result, if it has one, is as the predicate says.
abbrev pub Ensures {ℓ} : {A : Type ℓ} → (A → Type 0) → Outcome A → Type 0
Ensures P (done a) = P a
Ensures P thrown = Unit {0}
Ensures P fault = Unit {0}
Ensures P endless = ⊥

pub Ensures-bind {ℓ κ} :
    {A : Type ℓ} {B : Type κ} (P : A → Type 0) (Q : B → Type 0) (m : Outcome A) (f : A → Outcome B)
    → Ensures P m
    → ((a : A) → P a → Ensures Q (f a))
    → Ensures Q (m >>= f)
Ensures-bind P Q (done a) f h k = k a h
Ensures-bind P Q thrown f h k = tt
Ensures-bind P Q fault f h k = tt
Ensures-bind P Q endless f h k = absurd h

pub Ensures-mono {ℓ} :
    {A : Type ℓ} (P Q : A → Type 0) (m : Outcome A)
    → Ensures P m
    → ((a : A) → P a → Q a)
    → Ensures Q m
Ensures-mono P Q (done a) h k = k a h
Ensures-mono P Q thrown h k = tt
Ensures-mono P Q fault h k = tt
Ensures-mono P Q endless h k = absurd h

pub Ensures-if {ℓ} :
    {A : Type ℓ} (P : A → Type 0) (c : Bool) (x y : Outcome A)
    → (c ≡ true → Ensures P x)
    → (c ≡ false → Ensures P y)
    → Ensures P (if c then x else y)
Ensures-if P true x y h k = h refl
Ensures-if P false x y h k = k refl

pub length-skip_ws : (cur : Bytes) → length (skip_ws cur) ≤ length cur
unfolding skip_ws
length-skip_ws [] = omega arith
length-skip_ws (c ∷ cs) = ground (arith, length-skip_ws cs)

pub length-behind :
    (fold : ℕ → ℕ) (w cur : Bytes) {r : Bytes}
    → behind fold w cur ≡ some r
    → length w + length r ≡ length cur
unfolding behind
length-behind fold [] cur h = ground arith
length-behind fold (w ∷ ws) [] h = ground arith
length-behind fold (w ∷ ws) (c ∷ cs) h = elim (Bool-cases (fold w == fold c)) [
  | inl e ↦ omega (arith, length-behind fold ws cs (rw e at h))
  | inr e ↦ ground arith
]

pub length-get_char :
    (cur : Bytes) (c : ℕ) {r : Bytes} → get_char cur c ≡ some r → suc (length r) ≡ length cur
unfolding get_char
length-get_char [] c h = ground arith
length-get_char (b ∷ cur) c h = ground arith

pub length-at_word_end : (o : Option Bytes) {r : Bytes} → at_word_end o ≡ some r → o ≡ some r
length-at_word_end none h = h
length-at_word_end (some cur) h = ground arith

-- The two parts of a cut and the delimiter are the text.
pub length-cut_at :
    (d : ℕ) (cur : Bytes)
    → (cut_at d cur ≡ none)
      ⊎ ((s : Bytes) × (r : Bytes) × (cut_at d cur ≡ some (s, r))
          × (suc (length s + length r) ≡ length cur))
unfolding cut_at
length-cut_at d [] = inl refl
length-cut_at d (c ∷ cs) = elim (Bool-cases (c == d)) [
  | inl e ↦ inr ([], cs, rw e refl, omega arith)
  | inr e ↦ elim (length-cut_at d cs) [
    | inl h ↦ inl (rw (e, h) refl)
    | inr (s, r, h, k) ↦ inr (c ∷ s, r, rw (e, h) refl, omega (arith, k))
  ]
]

pub length-cut_at_text :
    (t cur : Bytes)
    → (cut_at_text t cur ≡ none)
      ⊎ ((s : Bytes) × (r : Bytes) × (cut_at_text t cur ≡ some (s, r))
          × (length s + (length t + length r) ≡ length cur))
unfolding cut_at_text
length-cut_at_text t [] = elim (Option-cases (behind exactly t [])) [
  | inl e ↦ inl (rw (cut_at_text, e) refl)
  | inr (r, e) ↦ inr ([], r, rw (cut_at_text, e) refl, omega (arith, length-behind exactly t [] e))
]
length-cut_at_text t (c ∷ cs) = elim (Option-cases (behind exactly t (c ∷ cs))) [
  | inr (r, e) ↦
      inr ([], r, rw (cut_at_text, e) refl, omega (arith, length-behind exactly t (c ∷ cs) e))
  | inl e ↦ elim (length-cut_at_text t cs) [
    | inl h ↦ inl (rw (cut_at_text, e, h) refl)
    | inr (s, r, h, k) ↦ inr (c ∷ s, r, rw (cut_at_text, e, h) refl, omega (arith, k))
  ]
]

pub Ensures-skip_tag : (cur : Bytes) → Ensures (λ r. length r < length cur) (skip_tag cur)
unfolding skip_tag
Ensures-skip_tag cur = elim (length-cut_at b'>' cur) [
  | inl e ↦ rw (skip_tag, e) tt
  | inr (s, r, e, h) ↦ rw (skip_tag, e) (omega (arith, h))
]

Ensures-value_to : (d : ℕ) (cur : Bytes) → Ensures (λ p. length p.1 ≤ length cur) (value_to d cur)
unfolding value_to
Ensures-value_to d cur = elim (length-cut_at d cur) [
  | inl e ↦ rw (value_to, e) tt
  | inr (s, r, e, h) ↦ rw (value_to, e) (omega (arith, h))
]

pub Ensures-get_value : (cur : Bytes) → Ensures (λ p. length p.1 ≤ length cur) (get_value cur)
unfolding get_value
Ensures-get_value cur = elim (Option-cases (get_char (skip_ws cur) b'"')) [
  | inr (r, e) ↦ rw (get_value, e) (shorter b'"' r e)
  | inl e ↦ elim (Option-cases (get_char (skip_ws cur) b'\'')) [
    | inr (r, k) ↦ rw (get_value, e, k) (shorter b'\'' r k)
    | inl k ↦ rw (get_value, e, k) (length-skip_ws cur)
  ]
]
  where
    shorter :
        (d : ℕ) (r : Bytes)
        → get_char (skip_ws cur) d ≡ some r
        → Ensures (λ p. length p.1 ≤ length cur) (value_to d r)
    shorter d r e =
        Ensures-mono (λ p. length p.1 ≤ length r) (λ p. length p.1 ≤ length cur) (value_to d r)
          (Ensures-value_to d r)
          (λ p h. omega (arith, h, length-get_char (skip_ws cur) d e, length-skip_ws cur))

pub length-get_word :
    (cur w : Bytes) (x : Bool) {r : Bytes}
    → get_word cur w x ≡ some r
    → length w + length r ≡ length cur
unfolding get_word
length-get_word cur w x {r} h =
    length-behind (if x then exactly else to_lower) w cur
      (length-at_word_end (behind (if x then exactly else to_lower) w cur) h)
