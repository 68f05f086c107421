-- ===== src/Parameter.antt =====
-- backend/cimxml/parameter.c: the list of parameters of a method, which have a name and a type
-- and never a value. `none` is a fault.
pub mod Laws
use sblim_sfcc.Base.{ℕ, Bool, List, [], ◌∷◌, Option, none, some, ◌==◌, if◌then◌else◌, ◌>>=◌, Bytes}
use sblim_sfcc.Cmpi.{
  good_value, null_value, raw, Status, ok, failed, not_found, Data, ObjectFt, null_data,
}
use sblim_sfcc.Content.{release_old}
use sblim_sfcc.Named.{find, add, change, find_at, count}
use sblim_sfcc.Value.{native_clone_value, native_release_value}

-- struct native_parameter; `next` is the list.
pub record Parameter (R : Type 0) : Type 0 where
  pub name : Bytes
  pub content : Data R

module _ {R : Type 0} where
  abbrev pub name_of : Parameter R → Bytes
  name_of p = p.name

  -- __convert2CMPIData
  unfoldable pub to_data : Option (Parameter R) → Data R
  to_data none = null_data
  to_data (some p) = p.content

  unfoldable pub to_name : Option (Parameter R) → Option Bytes
  to_name none = none
  to_name (some p) = some p.name

  unfoldable pub to_status : Status → Option (Parameter R) → Status
  to_status missing none = missing
  to_status missing (some p) = ok

  -- The node that calloc clears, with its name and its type.
  unfoldable pub add_parameter : Bytes → ℕ → List (Parameter R) → Option (Bool × List (Parameter R))
  add_parameter n t =
      add name_of n (
        some
          (record { name = n; content = record { type = t; state = good_value; value = raw 0 } }))

  -- The node that is found: its old value is released and only its type is written.
  unfoldable pub retype : ℕ → Parameter R → Option (Parameter R)
  retype t p = release_old p.content >>= λ v.
      some (record p { content = record { type = t; state = p.content.state; value = v } })

  -- The flag is false where the source returns -1.
  unfoldable pub set_parameter : Bytes → ℕ → List (Parameter R) → Option (Bool × List (Parameter R))
  unfolding retype
  set_parameter n t = change name_of n (retype t)

  unfoldable pub get_parameter : List (Parameter R) → Option Bytes → Option (Parameter R)
  get_parameter ps none = none
  get_parameter ps (some n) = find name_of n ps

  unfoldable pub get_data_parameter : List (Parameter R) → Option Bytes → Data R × Status
  unfolding get_parameter to_data to_status
  get_data_parameter ps n = let p = get_parameter ps n in (to_data p, to_status failed p)

  unfoldable pub get_data_parameter_at : List (Parameter R) → ℕ → Data R × Option Bytes × Status
  unfolding to_data to_name to_status
  get_data_parameter_at ps pos =
      let p = find_at ps pos in (to_data p, to_name p, to_status not_found p)

  unfoldable pub get_parameter_count : List (Parameter R) → ℕ
  get_parameter_count ps = count ps

  unfoldable pub release_parameters : List (Parameter R) → Option (Unit {0})
  release_parameters [] = some tt
  release_parameters (p ∷ ps) =
      let rest = release_parameters ps in
      if p.content.state == null_value
      then rest
      else native_release_value p.content.type p.content.value >>= λ _. rest

  unfoldable pub clone_parameters : ObjectFt R → List (Parameter R) → Option (List (Parameter R))
  clone_parameters ft [] = some []
  clone_parameters ft (p ∷ ps) =
      native_clone_value ft p.content.type (some p.content.value) >>= λ v.
      clone_parameters ft ps >>= λ rest.
      some (record p { content = record p.content { value = v } } ∷ rest)
