-- ===== src/Tests/Buffers.antt =====
-- The theorems on string buffers at a buffer that must grow.
use mathlib.Core.Path.{◌≡◌, refl}
use native.Mathlib.Omega.{arith}
use sblim_sfcc.Base.{◌+◌, ◌<◌, ◌^◌, List, [], ◌∷◌, ◌++◌, Option, none, some, Bytes, codes}
use sblim_sfcc.StringBuffer.Laws.{Holds, new_string_buffer_lem}
use sblim_sfcc.StringBuffer.Sizes.{append_chars_fits}
use sblim_sfcc.StringBuffer.{StringBuffer, new_string_buffer, append_chars}

abbrev pub buffer : StringBuffer
buffer = record { memory = some b'a' ∷ some 0 ∷ []; max = 2; len = 1 }

pub buffer-Holds : Holds buffer (codes "a")
buffer-Holds = record {
  counted = refl;
  stored = (refl, (refl, tt));
  room = omega arith;
  empty_at_zero = λ e. absurd (omega arith);
}

-- A block with a NUL in it.
abbrev block : StringBuffer
block = record { memory = some b'a' ∷ some 0 ∷ some b'b' ∷ some 0 ∷ []; max = 4; len = 3 }

block-Holds : Holds block (codes "a" ++ 0 ∷ codes "b")
block-Holds = record {
  counted = refl;
  stored = (refl, (refl, (refl, (refl, tt))));
  room = omega arith;
  empty_at_zero = λ e. absurd (omega arith);
}

new_string_buffer_lem_example : (sb : StringBuffer) × (new_string_buffer 0 ≡ some sb) × Holds sb []
new_string_buffer_lem_example = new_string_buffer_lem 0

append_chars_fits_example :
    (sb' : StringBuffer) × (append_chars buffer (some (codes "bcd")) ≡ some sb')
    × Holds sb' (codes "a" ++ codes "bcd")
    × (sb'.max + 2 < 2 ^ 31)
append_chars_fits_example =
    append_chars_fits buffer (codes "a") (codes "bcd") buffer-Holds (omega arith) (omega arith)

abbrev pieces : List (Option Bytes)
pieces = some (codes "<") ∷ none ∷ some (codes "/>") ∷ []
