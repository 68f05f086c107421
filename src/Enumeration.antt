-- ===== src/Enumeration.antt =====
-- backend/cimxml/enumeration.c: a position in an array.
pub mod Laws
use sblim_sfcc.Array.{Array, get_element_at, get_size, clone_array, release_array}
use sblim_sfcc.Base.{
  ℕ, zero, suc, ◌+◌, Bool, true, false, List, [], ◌∷◌, Option, none, some, ltb, if◌then◌else◌,
  ◌>>=◌,
}
use sblim_sfcc.Cmpi.{Status, ok, failed, Data, ObjectFt}

-- struct native_enum
pub record Enumeration (R : Type 0) : Type 0 where
  pub current : ℕ
  pub elements : Array R

module _ {R : Type 0} where
  -- __new_enumeration
  unfoldable pub new_enumeration : Array R → Enumeration R
  new_enumeration a = record { current = 0; elements = a }

  unfoldable pub release_enumeration : Option (Enumeration R) → Option Status
  release_enumeration none = some failed
  release_enumeration (some e) = release_array (some e.elements)

  unfoldable pub clone_enumeration : ObjectFt R → Enumeration R → Option (Enumeration R)
  unfolding new_enumeration
  clone_enumeration ft e = clone_array ft e.elements >>= λ a. some (new_enumeration a)

  unfoldable pub get_next : Enumeration R → Option (Data R × Enumeration R)
  get_next e =
      get_element_at e.elements e.current >>= λ d. some (d, record e { current = e.current + 1 })

  unfoldable pub has_next : Enumeration R → Bool
  has_next e = ltb e.current (get_size e.elements)

  unfoldable pub to_array : Enumeration R → Array R
  to_array e = e.elements

  -- The loop of a client, `while (hasNext) getNext`, for at most `fuel` rounds.
  unfoldable pub drain : ℕ → Enumeration R → Option (List (Data R) × Enumeration R)
  drain zero e = if has_next e then none else some ([], e)
  drain (suc fuel) e =
      let rest = get_next e >>= λ r. drain fuel r.1 >>= λ s. some (r.0 ∷ s.0, s.1) in
      if has_next e then rest else some ([], e)
