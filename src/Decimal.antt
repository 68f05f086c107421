-- ===== src/Decimal.antt =====
-- Decimal numbers in text, as the C library prints and reads them: `%llu` with a precision, and
-- `strtoull` with base 10.
pub mod Atoi
use native.Mathlib.Nat.{pow-suc}
use sblim_sfcc.Base.{
  ℕ, zero, suc, ◌+◌, ◌-◌, ◌*◌, ◌/◌, ◌%◌, ◌^◌, ◌<◌, ◌≤◌, ◌≡◌, refl, sym, ◌∙◌, ap, inl, inr, Bool,
  true, false, ◌&&◌, ◌||◌, [], ◌∷◌, ◌++◌, append_assoc, arith, ◌==◌, ltb, leb, ltb→lt, le→ltb,
  le→leb, if◌then◌else◌, Bool-cases, length, length-append, length-replicate, replicate, Bytes,
}

abbrev pub is_digit : ℕ → Bool
is_digit c = leb b'0' c && leb c b'9'

-- `isspace` in the C locale.
abbrev pub is_space : ℕ → Bool
is_space c = (leb 9 c && leb c 13) || c == b' '

-- The low `w` decimal digits.
unfoldable pub digits : ℕ → ℕ → Bytes
digits zero n = []
digits (suc w) n = digits w (n / 10) ++ (b'0' + n % 10) ∷ []

-- All digits of a number below 10 ^ fuel.
unfoldable pub decimal_from : ℕ → ℕ → Bytes
decimal_from zero n = []
decimal_from (suc fuel) n =
    let front = decimal_from fuel (n / 10) in
    (if ltb n 10 then [] else front) ++ (b'0' + n % 10) ∷ []

-- `%llu`: a 64-bit number has at most 20 digits.
unfoldable pub decimal : ℕ → Bytes
unfolding decimal_from
decimal n = decimal_from 20 n

-- `%w.wllu`: at least `w` digits.
unfoldable pub padded : ℕ → ℕ → Bytes
padded w n = let s = decimal n in replicate (w - length s) b'0' ++ s

-- The digits at the start of a text, behind the value `acc`.
unfoldable pub read_digits : ℕ → Bytes → ℕ
read_digits acc [] = acc
read_digits acc (c ∷ cs) =
    let rest = read_digits (acc * 10 + (c - b'0')) cs in if is_digit c then rest else acc

-- ULLONG_MAX
abbrev pub ullong_max : ℕ
ullong_max = 2 ^ 64 - 1

abbrev pub saturate : ℕ → ℕ
saturate n = if leb n ullong_max then n else ullong_max

-- A minus sign negates modulo 2 ^ 64, unless the value is out of range.
abbrev pub negate : ℕ → ℕ
negate n = if leb n ullong_max then (2 ^ 64 - n) % 2 ^ 64 else ullong_max

-- `strtoull (s, NULL, 10)`: white space, a sign, digits.
unfoldable pub strtoull : Bytes → ℕ
unfolding read_digits
strtoull [] = 0
strtoull (c ∷ cs) =
    let rest = strtoull cs in
    if is_space c
    then rest
    else if c == b'-'
    then negate (read_digits 0 cs)
    else if c == b'+'
    then saturate (read_digits 0 cs)
    else saturate (read_digits 0 (c ∷ cs))

abbrev pub AllDigits : Bytes → Type 0
AllDigits [] = Unit {0}
AllDigits (c ∷ cs) = (is_digit c ≡ true) × AllDigits cs

read_digits-concat :
    (acc : ℕ) (s : Bytes) (c : ℕ)
    → AllDigits s
    → is_digit c ≡ true
    → read_digits acc (s ++ c ∷ []) ≡ read_digits acc s * 10 + (c - b'0')
unfolding read_digits
read_digits-concat acc [] c h k = rw k refl
read_digits-concat acc (d ∷ s) c h k =
    rw (h.0, read_digits-concat (acc * 10 + (d - b'0')) s c h.1 k) refl

AllDigits-concat : (s : Bytes) (c : ℕ) → AllDigits s → is_digit c ≡ true → AllDigits (s ++ c ∷ [])
AllDigits-concat [] c h k = (k, tt)
AllDigits-concat (d ∷ s) c h k = (h.0, AllDigits-concat s c h.1 k)

digit_lem : (n : ℕ) → is_digit (b'0' + n % 10) ≡ true
digit_lem n = ground arith

pub AllDigits-digits : (w n : ℕ) → AllDigits (digits w n)
unfolding digits
AllDigits-digits zero n = tt
AllDigits-digits (suc w) n =
    AllDigits-concat (digits w (n / 10)) (b'0' + n % 10) (AllDigits-digits w (n / 10)) (digit_lem n)

pub length-digits : (w n : ℕ) → length (digits w n) ≡ w
unfolding digits
length-digits zero n = refl
length-digits (suc w) n =
    omega
      (arith, length-append (digits w (n / 10)) ((b'0' + n % 10) ∷ []), length-digits w (n / 10))

pub read_digits-digits : (w n : ℕ) → n < 10 ^ w → read_digits 0 (digits w n) ≡ n
unfolding digits read_digits
read_digits-digits zero n h = omega arith
read_digits-digits (suc w) n h =
    read_digits-concat 0 (digits w (n / 10)) (b'0' + n % 10) (AllDigits-digits w (n / 10))
      (digit_lem n)
    ∙ omega (arith, read_digits-digits w (n / 10) (omega (arith, pow-suc 10 w)))

strtoull-AllDigits : (s : Bytes) → AllDigits s → strtoull s ≡ saturate (read_digits 0 s)
unfolding strtoull
strtoull-AllDigits [] h = refl
strtoull-AllDigits (c ∷ cs) h =
    let space : is_space c ≡ false = ground arith in
    let minus : c == b'-' ≡ false = ground arith in
    let plus : c == b'+' ≡ false = ground arith in rw (space, minus, plus) refl

-- Reading digits back.
pub strtoull-digits : (w n : ℕ) → n < 10 ^ w → n ≤ ullong_max → strtoull (digits w n) ≡ n
strtoull-digits w n h k =
    strtoull-AllDigits (digits w n) (AllDigits-digits w n)
    ∙ rw (read_digits-digits w n h, le→leb n ullong_max k) refl

replicate-concat : (w c : ℕ) → replicate (suc w) c ≡ replicate w c ++ c ∷ []
replicate-concat zero c = refl
replicate-concat (suc w) c = ap (◌∷◌ c) (replicate-concat w c)

digits_zero : (w : ℕ) → digits w 0 ≡ replicate w b'0'
unfolding digits
digits_zero zero = refl
digits_zero (suc w) = rw (digits_zero w) (sym (replicate-concat w b'0'))

fill : ℕ → Bytes → Bytes
fill w s = replicate (w - length s) b'0' ++ s

fill-decimal_from :
    (fuel w n : ℕ) → 0 < w → w ≤ fuel → n < 10 ^ w → fill w (decimal_from fuel n) ≡ digits w n
unfolding fill decimal_from digits
fill-decimal_from zero w n p q h = absurd (omega arith)
fill-decimal_from (suc fuel) zero n p q h = absurd (omega arith)
fill-decimal_from (suc fuel) (suc w) n p q h = elim (Bool-cases (ltb n 10)) [
  | inl e ↦
      let small : n / 10 ≡ 0 = omega (arith, ltb→lt n 10 e) in
      let one : suc w - 1 ≡ w = omega arith in rw (e, small, digits_zero w, one) refl
  | inr e ↦
      let large : 10 ≤ n = ground arith in
      let front = decimal_from fuel (n / 10) in
      let last : Bytes = (b'0' + n % 10) ∷ [] in
      let short : suc w - length (front ++ last) ≡ w - length front =
        omega (arith, length-append front last) in
      rw (e, short, ← append_assoc (replicate (w - length front) b'0') front last)
        (ap (λ s. s ++ last)
          (fill-decimal_from fuel w (n / 10)
            (positive w (n / 10) (omega arith) (omega (arith, pow-suc 10 w))) (omega arith)
            (omega (arith, pow-suc 10 w))))
]
  where
    positive : (v m : ℕ) → 0 < m → m < 10 ^ v → 0 < v
    positive zero m a b = absurd (omega arith)
    positive (suc v) m a b = omega arith

-- A number that fits is printed with exactly its low `w` digits.
pub padded-digits : (w n : ℕ) → 0 < w → w ≤ 20 → n < 10 ^ w → padded w n ≡ digits w n
unfolding padded fill decimal decimal_from
padded-digits w n p h k = fill-decimal_from 20 w n p h k

pub length-padded_ge : (w n : ℕ) → w ≤ length (padded w n)
unfolding padded
length-padded_ge w n = omega (
  arith,
  length-append (replicate (w - length (decimal n)) b'0') (decimal n),
  length-replicate {A = ℕ} (w - length (decimal n)) b'0',
)

length-decimal_from_gt : (fuel w n : ℕ) → w < fuel → 10 ^ w ≤ n → w < length (decimal_from fuel n)
unfolding decimal_from
length-decimal_from_gt zero w n h k = absurd (omega arith)
length-decimal_from_gt (suc fuel) zero n h k = omega (
  arith,
  length-append (if ltb n 10 then [] else decimal_from fuel (n / 10)) ((b'0' + n % 10) ∷ []),
)
length-decimal_from_gt (suc fuel) (suc w) n h k =
    let large : 10 ≤ n = omega (arith, pow-suc 10 w, one_le_pow w) in
    rw (le→ltb n 10 large) (
      omega (
        arith,
        length-append (decimal_from fuel (n / 10)) ((b'0' + n % 10) ∷ []),
        length-decimal_from_gt fuel w (n / 10) (omega arith) (omega (arith, pow-suc 10 w)),
      ))
  where
    one_le_pow : (v : ℕ) → 1 ≤ 10 ^ v
    one_le_pow zero = omega arith
    one_le_pow (suc v) = omega (arith, pow-suc 10 v, one_le_pow v)

-- A number that does not fit is printed with more digits.
pub length-padded_gt : (w n : ℕ) → w < 20 → 10 ^ w ≤ n → w < length (padded w n)
unfolding padded
length-padded_gt w n h k = omega (
  arith,
  length-append (replicate (w - length (decimal n)) b'0') (decimal n),
  length-replicate {A = ℕ} (w - length (decimal n)) b'0',
  (let e : w < length (decimal n) = unfold decimal in length-decimal_from_gt 20 w n h k in e),
)
