-- ===== src/StringBuffer.antt =====
-- backend/cimxml/utilStringBuffer.c: a growing buffer of bytes with a closing NUL. The memory
-- behind `hdl` is a list of cells, `none` where nothing was written; a write past its end is a
-- fault. Sizes are taken not to reach 2 ^ 30, below which the `int` fields do not overflow: the
-- model computes them as numbers, and Sizes shows where they stay below 2 ^ 31.
pub mod Memory
pub mod Laws
pub mod Sizes
use sblim_sfcc.Base.{
  ℕ, zero, suc, ◌+◌, ◌*◌, Bool, true, false, List, [], ◌∷◌, ◌++◌, map, Option, none, some, ◌==◌,
  ltb, leb, if◌then◌else◌, ◌>>=◌, length, take, drop, replicate, Bytes,
}

-- The cells of a block of memory.
abbrev pub Memory : Type 0
Memory = List (Option ℕ)

-- struct _UtilStringBuffer
pub record StringBuffer : Type 0 where
  pub memory : Memory
  pub max : ℕ
  pub len : ℕ

-- `memcpy`
unfoldable pub write : ℕ → Bytes → Memory → Option Memory
write off bs mem =
    if leb (off + length bs) (length mem)
    then some (take off mem ++ (map some bs ++ drop (off + length bs) mem))
    else none

-- `realloc`
unfoldable pub reallocate : ℕ → Memory → Memory
reallocate n mem = take n (mem ++ replicate n none)

-- The text at the start of a block of memory, up to its first NUL.
unfoldable pub c_string : Memory → Option Bytes
c_string [] = none
c_string (none ∷ mem) = none
c_string (some b ∷ mem) =
    let rest = c_string mem >>= λ s. some (b ∷ s) in if b == 0 then some [] else rest

-- `while (need >= max) max *= 2`; `none` is a loop that does not end.
unfoldable pub double_past : ℕ → ℕ → ℕ → Option ℕ
double_past zero need max = none
double_past (suc fuel) need max =
    let rest = double_past fuel need (max * 2) in if leb max need then rest else some max

-- Room for `n` more bytes and a NUL.
unfoldable pub make_room : StringBuffer → ℕ → Option StringBuffer
make_room sb n =
    if leb sb.max (n + sb.len + 1)
    then (double_past (n + sb.len + 2) (n + sb.len + 1) (if sb.max == 0 then 8 else sb.max) >>= λ m.
        some (record sb { max = m; memory = reallocate (m + 2) sb.memory }))
    else some sb

-- sbft_appendChars
unfoldable pub append_chars : StringBuffer → Option Bytes → Option StringBuffer
append_chars sb none = some sb
append_chars sb (some s) = make_room sb (length s) >>= λ b.
    write b.len (s ++ 0 ∷ []) b.memory >>= λ mem.
    some (record b { memory = mem; len = b.len + length s })

-- sbft_appendBlock
unfoldable pub append_block : StringBuffer → Option Bytes → Option StringBuffer
append_block sb none = some sb
append_block sb (some s) = make_room sb (length s) >>= λ b. write b.len s b.memory >>= λ mem.
    write (b.len + length s) (0 ∷ []) mem >>= λ mem'.
    some (record b { memory = mem'; len = b.len + length s })

-- sbft_appendString, at the text behind `hdl`.
unfoldable pub append_string : StringBuffer → Option Bytes → Option StringBuffer
append_string sb hdl = append_chars sb hdl

-- sbft_append3Chars, sbft_append5Chars and sbft_append6Chars, over their list of texts.
unfoldable pub append_all : StringBuffer → List (Option Bytes) → Option StringBuffer
append_all sb [] = some sb
append_all sb (s ∷ ss) = append_chars sb s >>= λ b. append_all b ss

unfoldable pub append3_chars :
    StringBuffer → Option Bytes → Option Bytes → Option Bytes → Option StringBuffer
append3_chars sb a b c = append_all sb (a ∷ b ∷ c ∷ [])

unfoldable pub append5_chars :
    StringBuffer
    → Option Bytes
    → Option Bytes
    → Option Bytes
    → Option Bytes
    → Option Bytes
    → Option StringBuffer
append5_chars sb a b c d e = append_all sb (a ∷ b ∷ c ∷ d ∷ e ∷ [])

unfoldable pub append6_chars :
    StringBuffer
    → Option Bytes
    → Option Bytes
    → Option Bytes
    → Option Bytes
    → Option Bytes
    → Option Bytes
    → Option StringBuffer
append6_chars sb a b c d e f = append_all sb (a ∷ b ∷ c ∷ d ∷ e ∷ f ∷ [])

unfoldable pub reset : StringBuffer → Option StringBuffer
reset sb = (if sb.max == 0 then some sb.memory else write 0 (0 ∷ []) sb.memory) >>= λ mem.
    some (record sb { memory = mem; len = 0 })

unfoldable pub get_size : StringBuffer → ℕ
get_size sb = sb.len

-- The text behind sbft_getCharPtr.
unfoldable pub get_text : StringBuffer → Option Bytes
get_text sb = c_string sb.memory

-- newStringBuffer
unfoldable pub new_string_buffer : ℕ → Option StringBuffer
new_string_buffer s =
    let n = if s == 0 then 32 else s in
    write 0 (0 ∷ []) (replicate n none) >>= λ mem. some (record { memory = mem; max = n; len = 0 })

-- sbft_clone: the new memory is what `strdup` makes.
unfoldable pub clone_buffer : StringBuffer → Option StringBuffer
clone_buffer sb = c_string sb.memory >>= λ s.
    some (record { memory = map some (s ++ 0 ∷ []); max = sb.len; len = sb.len })
