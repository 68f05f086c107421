-- ===== src/Value/Guess.antt =====
-- guessType against a description of the texts it tells apart.
use sblim_sfcc.Base.{
  ℕ, ◌≤◌, ◌≡◌, refl, ◌⊎◌, inl, inr, ◌↔◌, true, [], ◌∷◌, arith, Bytes, codes, same_name, to_lower,
}
use sblim_sfcc.Cmpi.{boolean_type, sint64_type, uint64_type}
use sblim_sfcc.Value.{digits_to_end, guess_type}

abbrev pub IsDigits : Bytes → Type 0
IsDigits [] = Unit {0}
IsDigits (c ∷ cs) = ((b'0' ≤ c) × (c ≤ b'9')) × IsDigits cs

-- One or more digits.
abbrev pub IsUnsigned : Bytes → Type 0
IsUnsigned [] = ⊥
IsUnsigned (c ∷ cs) = IsDigits (c ∷ cs)

-- A sign, and one or more digits.
abbrev pub IsSigned : Bytes → Type 0
IsSigned [] = ⊥
IsSigned (c ∷ cs) = ((c ≡ b'-') ⊎ (c ≡ b'+')) × IsUnsigned cs

digits_to_end-IsDigits : (v : Bytes) → digits_to_end v ≡ true → IsDigits v
unfolding digits_to_end
digits_to_end-IsDigits [] h = tt
digits_to_end-IsDigits (c ∷ cs) h = ground (arith, digits_to_end-IsDigits cs)

IsDigits-digits_to_end : (v : Bytes) → IsDigits v → digits_to_end v ≡ true
unfolding digits_to_end
IsDigits-digits_to_end [] h = refl
IsDigits-digits_to_end (c ∷ cs) h = ground (arith, IsDigits-digits_to_end cs h.1)

guess_type-IsUnsigned : (v : Bytes) → (guess_type v ≡ uint64_type) ↔ IsUnsigned v
unfolding guess_type
guess_type-IsUnsigned [] = (λ e. ground arith, λ e. ground arith)
guess_type-IsUnsigned (c ∷ cs) = (
  λ e. ground (arith, digits_to_end-IsDigits cs),
  λ e. ground (arith, IsDigits-digits_to_end cs e.1),
)

guess_type-IsSigned : (v : Bytes) → (guess_type v ≡ sint64_type) ↔ IsSigned v
unfolding guess_type
guess_type-IsSigned [] = (λ e. ground arith, λ e. ground arith)
guess_type-IsSigned (c ∷ []) = (λ e. ground arith, λ e. ground arith)
guess_type-IsSigned (c ∷ d ∷ cs) = (
  λ e. ground (arith, digits_to_end-IsDigits (d ∷ cs)),
  λ e. ground (arith, IsDigits-digits_to_end (d ∷ cs) e.1),
)

-- The words begin with a letter, so no number is one.
same_name-letter :
    (c : ℕ) (cs : Bytes)
    → (same_name (c ∷ cs) (codes "true") ≡ true) ⊎ (same_name (c ∷ cs) (codes "false") ≡ true)
    → b'A' ≤ c
unfolding same_name to_lower
same_name-letter c cs (inl h) = ground arith
same_name-letter c cs (inr h) = ground arith

guess_type_boolean :
    (v : Bytes)
    → (guess_type v ≡ boolean_type)
      ↔ ((same_name v (codes "true") ≡ true) ⊎ (same_name v (codes "false") ≡ true))
unfolding guess_type
guess_type_boolean [] = (λ e. ground arith, λ e. unfold same_name in ground arith)
guess_type_boolean (c ∷ cs) = (λ e. ground arith, λ e. ground (arith, same_name-letter c cs e))

-- guessType answers CMPI_uint64 exactly for digits, CMPI_sint64 exactly for a sign and digits,
-- and CMPI_boolean exactly for the words true and false in any case.
pub guess_type_exact :
    (v : Bytes)
    → ((guess_type v ≡ uint64_type) ↔ IsUnsigned v)
      × ((guess_type v ≡ sint64_type) ↔ IsSigned v)
      × ((guess_type v ≡ boolean_type)
          ↔ ((same_name v (codes "true") ≡ true) ⊎ (same_name v (codes "false") ≡ true)))
guess_type_exact v = (guess_type-IsUnsigned v, guess_type-IsSigned v, guess_type_boolean v)
