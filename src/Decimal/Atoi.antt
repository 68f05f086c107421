-- ===== src/Decimal/Atoi.antt =====
-- Signed decimal numbers as the C library reads them into an `int` of 32 bits.
use sblim_sfcc.Base.{
  ℕ, ◌-◌, ◌%◌, ◌^◌, ◌<◌, ◌≡◌, ◌∙◌, refl, false, [], ◌∷◌, ◌==◌, if◌then◌else◌, ltb, lt→ltb, Bytes,
  arith,
}
use sblim_sfcc.Decimal.{
  is_space, digits, read_digits, AllDigits, AllDigits-digits, read_digits-digits,
}

-- `strtol` where it is positive, and where a minus sign stands before it: `long` has 64 bits, and a
-- value out of range is the nearest one.
abbrev pub clamp_positive : ℕ → ℕ
clamp_positive n = if ltb n (2 ^ 63) then n else 2 ^ 63 - 1

abbrev pub clamp_negative : ℕ → ℕ
clamp_negative n = if ltb n (2 ^ 63) then (2 ^ 64 - n) % 2 ^ 64 else 2 ^ 63

-- `atoi`: the low 32 bits of `strtol (s, NULL, 10)`.
unfoldable pub atoi : Bytes → ℕ
unfolding read_digits
atoi [] = 0
atoi (c ∷ cs) =
    let rest = atoi cs in
    if is_space c
    then rest
    else if c == b'-'
    then clamp_negative (read_digits 0 cs) % 2 ^ 32
    else if c == b'+'
    then clamp_positive (read_digits 0 cs) % 2 ^ 32
    else clamp_positive (read_digits 0 (c ∷ cs)) % 2 ^ 32

atoi-AllDigits : (s : Bytes) → AllDigits s → atoi s ≡ clamp_positive (read_digits 0 s) % 2 ^ 32
unfolding atoi
atoi-AllDigits [] h = refl
atoi-AllDigits (c ∷ cs) h =
    let space : is_space c ≡ false = ground arith in
    let minus : c == b'-' ≡ false = ground arith in
    let plus : c == b'+' ≡ false = ground arith in rw (space, minus, plus) refl

pub atoi-digits : (w n : ℕ) → n < 10 ^ w → n < 2 ^ 31 → atoi (digits w n) ≡ n
atoi-digits w n h k =
    atoi-AllDigits (digits w n) (AllDigits-digits w n)
    ∙ rw (read_digits-digits w n h, lt→ltb n (2 ^ 63) (omega (arith, k))) (omega (arith, k))
