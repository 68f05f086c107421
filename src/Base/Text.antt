-- ===== src/Base/Text.antt =====
-- C strings as lists of their bytes without the closing NUL, and the library functions of C
-- that the program calls on them.
use Prim.Native.Char.{code}
use Prim.Native.Nat.{ℕ, ◌+◌}
use Prim.Native.String.{String}
use mathlib.Core.Path.{◌≡◌, refl, ◌∙◌}
use mathlib.Core.Bool.{Bool, true, false, ◌&&◌}
use mathlib.Core.List.{List, [], ◌∷◌}
use native.Mathlib.Omega.{arith}
use sblim_sfcc.Base.Tests.{leb, ◌==◌, if◌then◌else◌}

abbrev pub Bytes : Type 0
Bytes = List ℕ

-- The code points of a text: its bytes, if it is ASCII.
abbrev pub codes : String → Bytes
codes String.[] = []
codes (String.◌∷◌ c s) = code c ∷ codes s

-- `tolower` in the C locale.
unfoldable pub to_lower : ℕ → ℕ
to_lower c = if leb b'A' c && leb c b'Z' then c + 32 else c

-- `strcasecmp (a, b) == 0`
unfoldable pub same_name : Bytes → Bytes → Bool
same_name [] [] = true
same_name [] (b ∷ bs) = false
same_name (a ∷ as') [] = false
same_name (a ∷ as') (b ∷ bs) = to_lower a == to_lower b && same_name as' bs

-- `strcmp (a, b) == 0`
unfoldable pub same_text : Bytes → Bytes → Bool
same_text [] [] = true
same_text [] (b ∷ bs) = false
same_text (a ∷ as') [] = false
same_text (a ∷ as') (b ∷ bs) = a == b && same_text as' bs

pub same_name_refl : (a : Bytes) → same_name a a ≡ true
unfolding same_name
same_name_refl [] = refl
same_name_refl (x ∷ xs) = ground (arith, same_name_refl xs)

pub same_name_comm : (a b : Bytes) → same_name a b ≡ same_name b a
unfolding same_name
same_name_comm [] [] = refl
same_name_comm [] (y ∷ ys) = refl
same_name_comm (x ∷ xs) [] = refl
same_name_comm (x ∷ xs) (y ∷ ys) = ground (arith, same_name_comm xs ys)

-- Names that are equal but for case are interchangeable in every comparison.
pub same_name_congr : (a b c : Bytes) → same_name a b ≡ true → same_name a c ≡ same_name b c
unfolding same_name
same_name_congr [] [] c h = refl
same_name_congr [] (y ∷ ys) c h = ground arith
same_name_congr (x ∷ xs) [] c h = ground arith
same_name_congr (x ∷ xs) (y ∷ ys) [] h = refl
same_name_congr (x ∷ xs) (y ∷ ys) (z ∷ zs) h = ground (arith, same_name_congr xs ys zs)

pub same_name_congr_right : (a b c : Bytes) → same_name b c ≡ true → same_name a b ≡ same_name a c
same_name_congr_right a b c h = same_name_comm a b ∙ same_name_congr b c a h ∙ same_name_comm c a

pub same_text_iff : (a b : Bytes) → same_text a b ≡ true → a ≡ b
unfolding same_text
same_text_iff [] [] h = refl
same_text_iff [] (y ∷ ys) h = ground arith
same_text_iff (x ∷ xs) [] h = ground arith
same_text_iff (x ∷ xs) (y ∷ ys) h = ground (arith, same_text_iff xs ys)

pub same_text_refl : (a : Bytes) → same_text a a ≡ true
unfolding same_text
same_text_refl [] = refl
same_text_refl (x ∷ xs) = ground (arith, same_text_refl xs)
