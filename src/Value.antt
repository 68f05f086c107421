-- ===== src/Value.antt =====
-- backend/cimxml/value.c: copying and releasing a CMPIValue, and the type of a key's text.
-- A `none` is a fault: a call through a pointer that holds no object, a read through NULL, or a
-- second release.
pub mod Copies
pub mod Guess
use sblim_sfcc.Base.{
  ℕ, zero, suc, Bool, true, false, not, ◌&&◌, ◌||◌, Option, none, some, List, [], ◌∷◌, ◌==◌, leb,
  if◌then◌else◌, Bytes, codes, same_name,
}
use sblim_sfcc.Cmpi.{
  has, boolean_type, real_bits, sint64_type, uint64_type, integer_bits, enc_bits, instance_type,
  ref_type, args_type, class_type, enumeration_type, string_type, chars_type, date_time_type,
  array_bits, Value, raw, chars, string, object, freed, ObjectFt,
}

module _ {R : Type 0} where
  -- A member of the union read as a pointer is NULL.
  abbrev pub is_null : Value R → Bool
  is_null (raw n) = n == 0
  is_null (chars s) = false
  is_null (string s) = false
  is_null (object o) = false
  is_null freed = false

  -- CMClone of a member, strdup of a `char *`; the pointer is not NULL.
  abbrev pub clone_member : ObjectFt R → Value R → Option (Value R)
  clone_member ft (raw n) = none
  clone_member ft (chars s) = some (chars s)
  clone_member ft (string s) = some (string s)
  clone_member ft (object o) = some (object (ft.clone o))
  clone_member ft freed = none

  -- CMRelease or `free` of a member, behind its test for NULL.
  abbrev pub release_member : Value R → Option (Value R)
  release_member (raw zero) = some (raw zero)
  release_member (raw (suc n)) = none
  release_member (chars s) = some freed
  release_member (string s) = some freed
  release_member (object o) = some freed
  release_member freed = none

-- The cases of the `switch` in native_clone_CMPIValue.
unfoldable pub is_cloned_type : ℕ → Bool
is_cloned_type t =
    t == instance_type
    || t == ref_type
    || t == args_type
    || t == enumeration_type
    || t == string_type
    || t == chars_type
    || t == date_time_type

-- The cases of the `switch` in native_release_CMPIValue.
unfoldable pub is_released_type : ℕ → Bool
is_released_type t =
    t == instance_type
    || t == class_type
    || t == ref_type
    || t == args_type
    || t == enumeration_type
    || t == string_type
    || t == chars_type
    || t == date_time_type

module _ {R : Type 0} where
  -- native_clone_CMPIValue. Its status is always CMPI_RC_OK.
  unfoldable pub native_clone_value : ObjectFt R → ℕ → Option (Value R) → Option (Value R)
  unfolding is_cloned_type
  native_clone_value ft t none =
      if has t array_bits then none else if has t enc_bits then none else some (raw 0)
  native_clone_value ft t (some v) =
      if has t array_bits
      then (if is_null v then some (raw 0) else clone_member ft v)
      else if has t enc_bits && not (is_null v)
      then (if is_cloned_type t then clone_member ft v else some (raw 0))
      else some v

  -- native_release_CMPIValue, at a pointer that is not NULL: the member afterwards.
  unfoldable pub native_release_value : ℕ → Value R → Option (Value R)
  unfolding is_released_type
  native_release_value t v =
      if is_released_type t
      then release_member v
      else if has t array_bits
      then release_member v
      else some v

-- `isdigit`
abbrev pub is_digit : ℕ → Bool
is_digit c = leb b'0' c && leb c b'9'

abbrev pub is_sign : ℕ → Bool
is_sign c = c == b'-' || c == b'+'

-- The loop of guessType reaches the end of the text.
unfoldable pub digits_to_end : Bytes → Bool
digits_to_end [] = true
digits_to_end (c ∷ cs) = is_digit c && digits_to_end cs

abbrev pub is_nonempty : Bytes → Bool
is_nonempty [] = false
is_nonempty (c ∷ cs) = true

unfoldable pub guess_type : Bytes → ℕ
unfolding digits_to_end
guess_type [] = string_type
guess_type (c ∷ cs) =
    if (is_sign c && is_nonempty cs) || is_digit c
    then (if digits_to_end cs
        then (if is_digit c then uint64_type else sint64_type)
        else string_type)
    else if same_name (c ∷ cs) (codes "true") || same_name (c ∷ cs) (codes "false")
    then boolean_type
    else string_type

unfoldable pub keytype_to_chars : ℕ → Bytes
keytype_to_chars t =
    if t == boolean_type
    then codes "boolean"
    else if has t (integer_bits) || has t real_bits
    then codes "numeric"
    else codes "string"
