-- ===== src/Qualifier.antt =====
-- backend/cimxml/qualifier.c: the list of qualifiers of a property, an instance or a class.
-- `none` is a fault.
pub mod Laws
use sblim_sfcc.Base.{ℕ, Bool, List, [], ◌∷◌, Option, none, some, ◌>>=◌, Bytes}
use sblim_sfcc.Cmpi.{Status, ok, failed, no_such_property, Data, ObjectFt, Arg, null_data}
use sblim_sfcc.Content.{new_content, set_qualifier_content}
use sblim_sfcc.Named.{find, add, change, find_at, count}
use sblim_sfcc.Value.{native_clone_value, native_release_value}

-- struct native_qualifier; `next` is the list.
pub record Qualifier (R : Type 0) : Type 0 where
  pub name : Bytes
  pub content : Data R

module _ {R : Type 0} where
  abbrev pub name_of : Qualifier R → Bytes
  name_of q = q.name

  -- __convert2CMPIData
  unfoldable pub to_data : Option (Qualifier R) → Data R
  to_data none = null_data
  to_data (some q) = q.content

  unfoldable pub to_name : Option (Qualifier R) → Option Bytes
  to_name none = none
  to_name (some q) = some q.name

  unfoldable pub to_status : Status → Option (Qualifier R) → Status
  to_status missing none = missing
  to_status missing (some q) = ok

  unfoldable pub add_qualifier :
      ObjectFt R → Bytes → Arg R → ℕ → List (Qualifier R) → Option (Bool × List (Qualifier R))
  add_qualifier ft n a st =
      add name_of n (new_content ft a st >>= λ d. some (record { name = n; content = d }))

  unfoldable pub set_qualifier :
      ObjectFt R → Bytes → Arg R → List (Qualifier R) → Option (Bool × List (Qualifier R))
  set_qualifier ft n a =
      change name_of n
        (λ q. set_qualifier_content ft a q.content >>= λ d. some (record q { content = d }))

  unfoldable pub get_qualifier : List (Qualifier R) → Option Bytes → Option (Qualifier R)
  get_qualifier qs none = none
  get_qualifier qs (some n) = find name_of n qs

  unfoldable pub get_data_qualifier : List (Qualifier R) → Option Bytes → Data R × Status
  unfolding get_qualifier to_data to_status
  get_data_qualifier qs n = let q = get_qualifier qs n in (to_data q, to_status failed q)

  unfoldable pub get_data_qualifier_at : List (Qualifier R) → ℕ → Data R × Option Bytes × Status
  unfolding to_data to_name to_status
  get_data_qualifier_at qs pos =
      let q = find_at qs pos in (to_data q, to_name q, to_status no_such_property q)

  unfoldable pub get_qualifier_count : List (Qualifier R) → ℕ
  get_qualifier_count qs = count qs

  unfoldable pub release_qualifiers : List (Qualifier R) → Option (Unit {0})
  release_qualifiers [] = some tt
  release_qualifiers (q ∷ qs) =
      native_release_value q.content.type q.content.value >>= λ _. release_qualifiers qs

  unfoldable pub clone_qualifiers : ObjectFt R → List (Qualifier R) → Option (List (Qualifier R))
  clone_qualifiers ft [] = some []
  clone_qualifiers ft (q ∷ qs) =
      native_clone_value ft q.content.type (some q.content.value) >>= λ v.
      clone_qualifiers ft qs >>= λ rest.
      some (record q { content = record q.content { value = v } } ∷ rest)
