-- ===== src/DateTime.antt =====
-- backend/cimxml/datetime.c: date and time values as 25-byte texts, and their binary form in
-- microseconds. What the time zone of the process decides is a parameter. `none` is a fault: a
-- write past the 26 bytes of `cimDt`, or past the end of a copy of it.
pub mod Interval
use sblim_sfcc.Base.{
  ℕ, zero, suc, ◌+◌, ◌-◌, ◌*◌, ◌/◌, ◌%◌, ◌^◌, Bool, true, false, not, ◌&&◌, ◌||◌, List, [], ◌∷◌,
  ◌++◌, Option, none, some, ◌==◌, ltb, leb, if◌then◌else◌, ◌>>=◌, length, get_elem?, set, drop,
  Bytes, codes,
}
use sblim_sfcc.Cmpi.{Status, ok, invalid_parameter}
use sblim_sfcc.Decimal.{padded, strtoull}

-- The C library's calendar: `mktime` on the texts of day, month and year, as `atoi` reads them,
-- and the texts that `localtime_r` and `strftime` give for a time in seconds, with the zone.
pub record Calendar : Type 0 where
  pub seconds_of : Bytes → Bytes → Bytes → ℕ
  pub local_text : ℕ → Option (Bytes × Bytes)

-- struct native_datetime: the text in `cimDt`.
pub record DateTime : Type 0 where
  pub text : Bytes

-- __new_datetime: `strcpy` into 26 bytes.
unfoldable pub new_date_time : Bytes → Option DateTime
new_date_time s = if leb (length s) 25 then some (record { text = s }) else none

unfoldable pub clone_date_time : DateTime → Option DateTime
clone_date_time dt = new_date_time dt.text

unfoldable pub byte_at : ℕ → Bytes → ℕ
byte_at i s = elim (get_elem? s i) [ none ↦ 0 | some b ↦ b ]

-- __dtft_isInterval
unfoldable pub is_interval : DateTime → Bool
unfolding byte_at
is_interval dt = byte_at 21 dt.text == b':'

-- A NUL written into the copy of a text.
unfoldable pub cut : ℕ → Bytes → Option Bytes
cut i s = if ltb i (length s) then some (set s i 0) else none

-- A text in memory, up to its NUL.
unfoldable pub until_nul : Bytes → Bytes
until_nul [] = []
until_nul (b ∷ s) = if b == 0 then [] else b ∷ until_nul s

abbrev pub text_at : ℕ → Bytes → Bytes
text_at i s = until_nul (drop i s)

-- The last part of chars2bin: the days of an interval, or the calendar's seconds, and the sum.
unfoldable pub add_days : Calendar → Bool → Bytes → ℕ → ℕ → Option ℕ
unfolding cut
add_days cal interval s msecs secs =
    if interval
    then some ((msecs + (secs + strtoull (text_at 0 s) * 86400) * 1000000) % 2 ^ 64)
    else (cut 6 s >>= λ s'. cut 4 s' >>= λ s''. some (
        (msecs
          + secs * 1000000
          + cal.seconds_of (text_at 6 s) (text_at 4 s') (text_at 0 s'') * 1000000)
        % 2 ^ 64))

-- chars2bin. Sums and products are taken modulo 2 ^ 64 once, at the end.
unfoldable pub chars_to_bin : Calendar → Bytes → Option ℕ
unfolding cut byte_at add_days
chars_to_bin cal text =
    let str = text ++ 0 ∷ [] in
    let interval = byte_at 21 str == b':' in
    cut 21 str >>= λ a. cut 14 a >>= λ b. cut 12 b >>= λ c. cut 10 c >>= λ d. cut 8 d >>= λ e.
    add_days cal interval e (strtoull (text_at 15 a))
      (strtoull (text_at 12 b) + strtoull (text_at 10 c) * 60 + strtoull (text_at 8 d) * 3600)

-- The text of an interval of so many microseconds.
unfoldable pub interval_chars : ℕ → Bytes
interval_chars msecs =
    let seconds = msecs / 1000000 in
    let mins = seconds / 60 in
    let hrs = mins / 60 in
    padded 8 (hrs / 24)
    ++ (padded 2 (hrs % 24)
        ++ (padded 2 (mins % 60)
            ++ (padded 2 (seconds % 60) ++ (b'.' ∷ (padded 6 (msecs % 1000000) ++ codes ":000")))))

-- bin2chars; `none` where `localtime_r` fails and the text is left unwritten.
unfoldable pub bin_to_chars : Calendar → ℕ → Bool → Option Bytes
unfolding interval_chars
bin_to_chars cal msecs interval =
    if interval
    then some (interval_chars msecs)
    else (cal.local_text (msecs / 1000000) >>= λ t.
        some (t.0 ++ (b'.' ∷ (padded 6 (msecs % 1000000) ++ t.1))))

-- native_new_CMPIDateTime_fromBinary
unfoldable pub from_binary : Calendar → ℕ → Bool → Option DateTime
unfolding bin_to_chars
from_binary cal time interval = bin_to_chars cal time interval >>= new_date_time

-- __dtft_getBinaryFormat
unfoldable pub get_binary_format : Calendar → DateTime → Option ℕ
get_binary_format cal dt = chars_to_bin cal dt.text

unfoldable pub get_string_format : DateTime → Bytes
get_string_format dt = dt.text

-- The test of native_new_CMPIDateTime_fromChars.
unfoldable pub is_accepted : Bytes → Bool
unfolding byte_at
is_accepted s =
    length s == 25 && (byte_at 21 s == b'-' || byte_at 21 s == b'+' || byte_at 21 s == b':')

-- native_new_CMPIDateTime_fromChars: a NULL result with its status, or an object.
unfoldable pub from_chars : Option Bytes → Option (Option DateTime × Status)
unfolding is_accepted
from_chars none = some (none, invalid_parameter)
from_chars (some s) =
    if is_accepted s
    then (new_date_time s >>= λ dt. some (some dt, ok))
    else some (none, invalid_parameter)
