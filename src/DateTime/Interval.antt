-- ===== src/DateTime/Interval.antt =====
-- Intervals: the text and the number of microseconds determine each other.
use sblim_sfcc.Base.{
  ℕ, ◌+◌, ◌*◌, ◌/◌, ◌%◌, ◌^◌, ◌<◌, ◌≤◌, ◌≡◌, refl, ◌∙◌, ap, true, false, [], ◌∷◌, ◌++◌, none, some,
  arith, ◌==◌, leb, if◌then◌else◌, length, length-append, Bytes, codes,
}
use sblim_sfcc.Cmpi.{ok, invalid_parameter}
use sblim_sfcc.DateTime.{
  Calendar, DateTime, new_date_time, is_interval, until_nul, chars_to_bin, interval_chars,
  from_binary, from_chars, is_accepted, get_binary_format, get_string_format, clone_date_time,
}
use sblim_sfcc.Decimal.{
  padded, digits, AllDigits, AllDigits-digits, strtoull-digits, padded-digits, length-padded_ge,
  length-padded_gt,
}

until_nul-digits_text : (s r : Bytes) → AllDigits s → until_nul (s ++ 0 ∷ r) ≡ s
unfolding until_nul
until_nul-digits_text [] r h = refl
until_nul-digits_text (c ∷ s) r h =
    let nonzero : c == 0 ≡ false = ground arith in rw (nonzero, until_nul-digits_text s r h.1) refl

until_nul-digits : (w n : ℕ) (r : Bytes) → until_nul (digits w n ++ 0 ∷ r) ≡ digits w n
until_nul-digits w n r = until_nul-digits_text (digits w n) r (AllDigits-digits w n)

-- The text ddddddddhhmmss.uuuuuu:000 of an interval.
abbrev pub interval_text : ℕ → ℕ → ℕ → ℕ → ℕ → Bytes
interval_text d h m s u =
    digits 8 d
    ++ (digits 2 h ++ (digits 2 m ++ (digits 2 s ++ (b'.' ∷ (digits 6 u ++ codes ":000")))))

read_interval :
    (cal : Calendar) (d h m s u : ℕ)
    → d < 10 ^ 8
    → h < 100
    → m < 100
    → s < 100
    → u < 10 ^ 6
    → chars_to_bin cal (interval_text d h m s u)
      ≡ some ((u + (s + m * 60 + h * 3600 + d * 86400) * 1000000) % 2 ^ 64)
unfolding chars_to_bin digits
read_interval cal d h m s u hd hh hm hs hu =
    rw
      (
        until_nul-digits 6 u (codes "000" ++ 0 ∷ []),
        until_nul-digits 2 s _,
        until_nul-digits 2 m _,
        until_nul-digits 2 h _,
        until_nul-digits 8 d _,
      )
      (rw
        (
          strtoull-digits 6 u hu (omega arith),
          strtoull-digits 2 s hs (omega arith),
          strtoull-digits 2 m hm (omega arith),
          strtoull-digits 2 h hh (omega arith),
          strtoull-digits 8 d hd (omega arith),
        )
        refl)

-- The number of days that eight digits can count, in microseconds.
abbrev pub interval_limit : ℕ
interval_limit = 10 ^ 8 * 86400 * 1000000

length-interval_text : (d h m s u : ℕ) → length (interval_text d h m s u) ≡ 25
unfolding digits
length-interval_text d h m s u = refl

interval_chars_lem :
    (us : ℕ)
    → us < interval_limit
    → interval_chars us
      ≡ interval_text
          (us / 1000000 / 60 / 60 / 24)
          (us / 1000000 / 60 / 60 % 24)
          (us / 1000000 / 60 % 60)
          (us / 1000000 % 60)
          (us % 1000000)
unfolding interval_chars
interval_chars_lem us h =
    rw
      (
        padded-digits 8 (us / 1000000 / 60 / 60 / 24) (omega arith) (omega arith) (omega arith),
        padded-digits 2 (us / 1000000 / 60 / 60 % 24) (omega arith) (omega arith) (omega arith),
        padded-digits 2 (us / 1000000 / 60 % 60) (omega arith) (omega arith) (omega arith),
        padded-digits 2 (us / 1000000 % 60) (omega arith) (omega arith) (omega arith),
        padded-digits 6 (us % 1000000) (omega arith) (omega arith) (omega arith),
      )
      refl

-- An interval of fewer than 10 ^ 8 days, made from its binary form, is a text of 25 bytes that is
-- read as an interval, and its binary form is the number that it was made from.
pub interval_round_trip :
    (cal : Calendar) (us : ℕ)
    → us < interval_limit
    → (dt : DateTime) × (from_binary cal us true ≡ some dt)
      × (length dt.text ≡ 25)
      × (is_interval dt ≡ true)
      × (get_binary_format cal dt ≡ some us)
unfolding from_binary new_date_time is_interval get_binary_format
interval_round_trip cal us h =
    let d = us / 1000000 / 60 / 60 / 24 in
    let hrs = us / 1000000 / 60 / 60 % 24 in
    let mins = us / 1000000 / 60 % 60 in
    let s = us / 1000000 % 60 in
    let u = us % 1000000 in
    let whole : (u + (s + mins * 60 + hrs * 3600 + d * 86400) * 1000000) % 2 ^ 64 ≡ us =
      omega arith in
    (
      record { text = interval_text d hrs mins s u },
      rw (interval_chars_lem us h, length-interval_text d hrs mins s u) refl,
      length-interval_text d hrs mins s u,
      unfold digits in refl,
      read_interval cal d hrs mins s u (omega arith) (omega arith) (omega arith) (omega arith)
            (omega arith)
          ∙ ap some whole,
    )

-- The text of an interval of fewer than 10 ^ 8 days, with hours, minutes, seconds and microseconds
-- in their ranges, has a binary form from which the same text is made.
pub interval_text_round_trip :
    (cal : Calendar) (d h m s u : ℕ)
    → d < 10 ^ 8
    → h < 24
    → m < 60
    → s < 60
    → u < 10 ^ 6
    → let dt : DateTime = record { text = interval_text d h m s u } in
      (us : ℕ) × (get_binary_format cal dt ≡ some us) × (from_binary cal us true ≡ some dt)
unfolding get_binary_format from_binary new_date_time
interval_text_round_trip cal d h m s u hd hh hm hs hu =
    let us = u + (s + m * 60 + h * 3600 + d * 86400) * 1000000 in
    let whole : us % 2 ^ 64 ≡ us = omega arith in
    let days : us / 1000000 / 60 / 60 / 24 ≡ d = omega arith in
    let hours : us / 1000000 / 60 / 60 % 24 ≡ h = omega arith in
    let minutes : us / 1000000 / 60 % 60 ≡ m = omega arith in
    let seconds : us / 1000000 % 60 ≡ s = omega arith in
    let micros : us % 1000000 ≡ u = omega arith in
    (
      us,
      read_interval cal d h m s u hd (omega arith) (omega arith) (omega arith) hu ∙ ap some whole,
      rw (interval_chars_lem us (omega arith))
          (rw (days, hours, minutes, seconds, micros, length-interval_text d h m s u) refl),
    )

interval_chars_long : (us : ℕ) → interval_limit ≤ us → us < 2 ^ 64 → 25 < length (interval_chars us)
unfolding interval_chars
interval_chars_long us h k =
    let secs = us / 1000000 in
    let e = padded 6 (us % 1000000) in
    let d = padded 2 (secs % 60) in
    let c = padded 2 (secs / 60 % 60) in
    let b = padded 2 (secs / 60 / 60 % 24) in
    let a = padded 8 (secs / 60 / 60 / 24) in
    omega (
      arith,
      length-append e (codes ":000"),
      length-append d (b'.' ∷ (e ++ codes ":000")),
      length-append c (d ++ (b'.' ∷ (e ++ codes ":000"))),
      length-append b (c ++ (d ++ (b'.' ∷ (e ++ codes ":000")))),
      length-append a (b ++ (c ++ (d ++ (b'.' ∷ (e ++ codes ":000"))))),
      length-padded_ge 6 (us % 1000000),
      length-padded_ge 2 (secs % 60),
      length-padded_ge 2 (secs / 60 % 60),
      length-padded_ge 2 (secs / 60 / 60 % 24),
      length-padded_gt 8 (secs / 60 / 60 / 24) (omega arith) (omega arith),
    )

lt→leb : (a b : ℕ) → a < b → leb b a ≡ false
lt→leb a b h = ground arith

-- An interval of 10 ^ 8 days or more, which 64 bits can hold, is a fault: its text does not fit in
-- the 26 bytes that it is written to.
pub interval_overflows :
    (cal : Calendar) (us : ℕ) → interval_limit ≤ us → us < 2 ^ 64 → from_binary cal us true ≡ none
unfolding from_binary new_date_time
interval_overflows cal us h k =
    let long : 25 < length (interval_chars us) = interval_chars_long us h k in
    rw (lt→leb 25 (length (interval_chars us)) long) refl

interval_accepted :
    (dt : DateTime)
    → length dt.text ≡ 25
    → is_interval dt ≡ true
    → from_chars (some (get_string_format dt)) ≡ some (some dt, ok)
unfolding from_chars is_accepted get_string_format new_date_time is_interval
interval_accepted dt l i = ground arith

-- The text of an interval of fewer than 10 ^ 8 days, made from its binary form, is accepted as a
-- text and gives the same value, and so does a copy of the value.
pub interval_from_chars :
    (cal : Calendar) (us : ℕ)
    → us < interval_limit
    → (dt : DateTime) × (from_binary cal us true ≡ some dt)
      × (from_chars (some (get_string_format dt)) ≡ some (some dt, ok))
      × (clone_date_time dt ≡ some dt)
unfolding clone_date_time new_date_time
interval_from_chars cal us h =
    let (dt, e, l, i, b) = interval_round_trip cal us h in
    (dt, e, interval_accepted dt l i, rw l refl)

-- fromChars accepts exactly the texts of 25 bytes whose byte 21 is a sign or a colon, and keeps
-- them; it refuses all others, and NULL, with CMPI_RC_ERR_INVALID_PARAMETER. It never overflows.
pub from_chars_lem :
    (s : Bytes)
    → from_chars (some s)
      ≡ some (if is_accepted s then (some (record { text = s }), ok) else (none, invalid_parameter))
unfolding from_chars new_date_time is_accepted
from_chars_lem s = ground arith
