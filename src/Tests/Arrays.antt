-- ===== src/Tests/Arrays.antt =====
-- The theorems on arrays and enumerations at a growing array with room for two elements.
use mathlib.Core.Path.{◌≡◌, refl}
use native.Mathlib.Omega.{arith}
use sblim_sfcc.Array.Elements.{Appended, simple_array_add_lem, set_element_at_lem}
use sblim_sfcc.Array.Laws.{IsValid}
use sblim_sfcc.Array.{
  Array, item, unset, new_array, get_element_at, set_element_at, simple_array_add,
}
use sblim_sfcc.Base.{
  ℕ, true, false, List, [], ◌∷◌, map, none, some, ◌==◌, if◌then◌else◌, length, Bytes, codes,
}
use sblim_sfcc.Cmpi.{uint64_type, string_type, ok, failed, Value, raw, string}
use sblim_sfcc.Enumeration.Laws.{good_data, add_values, enumerate_added}
use sblim_sfcc.Enumeration.{Enumeration, new_enumeration, has_next, drain}
use sblim_sfcc.Tests.{ft, ft_keeps}

abbrev pair : Array Bytes
pair = record {
  size = 1;
  max = 2;
  dynamic = true;
  type = uint64_type;
  cells = item 0 (raw 5) ∷ unset ∷ [];
}

pair-IsValid : IsValid pair
pair-IsValid = record { allocated = refl; fits = omega arith; positive = omega arith }

simple_array_add_lem_example :
    (a' : Array Bytes) × (simple_array_add ft pair (some (raw 6)) uint64_type ≡ some (a', failed))
    × Appended pair (item 0 (raw 6)) a'
    × (a'.type ≡ (if pair.size == 0 then uint64_type else pair.type))
simple_array_add_lem_example =
    simple_array_add_lem ft pair (raw 6) uint64_type pair-IsValid refl (λ e. absurd (omega arith))
      (λ e. absurd (omega arith))

set_element_at_lem_example :
    (a' : Array Bytes) × (set_element_at ft pair 0 (some (raw 6)) pair.type false ≡ some (a', ok))
    × IsValid a'
    × (a'.size ≡ pair.size)
    × ((j : ℕ)
        → get_element_at a' j ≡ (
            if 0 == j
            then some (record { type = pair.type; state = 0; value = raw 6 })
            else get_element_at pair j))
set_element_at_lem_example =
    set_element_at_lem ft pair 0 (raw 6) pair-IsValid (omega arith) (λ e. absurd (omega arith))
      (λ e. absurd (omega arith)) refl

abbrev texts : List (Value Bytes)
texts = string (some (codes "a")) ∷ string none ∷ string (some (codes "b")) ∷ []

enumerate_added_example :
    (a : Array Bytes) × (a' : Array Bytes) × (e : Enumeration Bytes) × (new_array 0 string_type
      ≡ some a)
    × (add_values ft string_type texts a ≡ some a')
    × (drain (length texts) (new_enumeration a') ≡ some (map (good_data string_type) texts, e))
    × (has_next e ≡ false)
enumerate_added_example =
    enumerate_added ft string_type texts (λ e. absurd (omega arith)) (λ e. absurd (omega arith))
