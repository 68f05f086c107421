-- ===== src/Tests/Values.antt =====
-- The theorems on values and on date and time values.
use mathlib.Core.Path.{◌≡◌}
use native.Mathlib.Omega.{arith}
use sblim_sfcc.Base.{true, none, some, length}
use sblim_sfcc.Cmpi.{ok}
use sblim_sfcc.DateTime.Interval.{interval_round_trip, interval_overflows, interval_from_chars}
use sblim_sfcc.DateTime.{
  from_chars, get_string_format, clone_date_time, Calendar, DateTime, from_binary,
  get_binary_format, is_interval,
}

abbrev calendar : Calendar
calendar = record { seconds_of = λ d m y. 0; local_text = λ n. none }

interval_round_trip_example :
    (dt : DateTime) × (from_binary calendar 93784000005 true ≡ some dt)
    × (length dt.text ≡ 25)
    × (is_interval dt ≡ true)
    × (get_binary_format calendar dt ≡ some 93784000005)
interval_round_trip_example = interval_round_trip calendar 93784000005 (omega arith)

interval_overflows_example : from_binary calendar 8640000000000000000 true ≡ none
interval_overflows_example =
    interval_overflows calendar 8640000000000000000 (omega arith) (omega arith)

interval_from_chars_example :
    (dt : DateTime) × (from_binary calendar 61000000 true ≡ some dt)
    × (from_chars (some (get_string_format dt)) ≡ some (some dt, ok))
    × (clone_date_time dt ≡ some dt)
interval_from_chars_example = interval_from_chars calendar 61000000 (omega arith)
