-- ===== src/Property.antt =====
-- backend/cimxml/property.c: the list of properties of an instance, the keys of an object path
-- and the arguments of a method. `none` is a fault.
pub mod Laws
pub mod Release
use sblim_sfcc.Base.{
  ℕ, Bool, List, [], ◌∷◌, Option, none, some, ◌==◌, ◌||◌, if◌then◌else◌, ◌>>=◌, Bytes,
}
use sblim_sfcc.Cmpi.{
  null_value, bad_value, raw, Status, ok, no_such_property, Data, ObjectFt, Arg, null_data,
}
use sblim_sfcc.Content.{new_content, set_property_content}
use sblim_sfcc.Named.{find, add, change, find_at, count}
use sblim_sfcc.Qualifier.{Qualifier, clone_qualifiers, release_qualifiers}
use sblim_sfcc.Value.{native_clone_value, native_release_value}

-- struct native_property; `next` is the list.
pub record Property (R : Type 0) : Type 0 where
  pub name : Bytes
  pub content : Data R
  pub qualifiers : List (Qualifier R)

module _ {R : Type 0} where
  abbrev pub name_of : Property R → Bytes
  name_of p = p.name

  -- __convert2CMPIData
  unfoldable pub to_data : Option (Property R) → Data R
  to_data none = null_data
  to_data (some p) = p.content

  -- The text that __convert2CMPIData stores through `propname`, if it does.
  unfoldable pub to_name : Option (Property R) → Option Bytes
  to_name none = none
  to_name (some p) = some p.name

  -- The status of the functions that look a property up.
  unfoldable pub to_status : Option (Property R) → Status
  to_status none = no_such_property
  to_status (some p) = ok

  -- The flag is the result: it says that the name was there.
  unfoldable pub add_property :
      ObjectFt R → Bytes → Arg R → ℕ → List (Property R) → Option (Bool × List (Property R))
  add_property ft n a st =
      add name_of n
        (new_content ft a st >>= λ d. some (record { name = n; content = d; qualifiers = [] }))

  -- The flag is false where the source returns -1.
  unfoldable pub set_property :
      ObjectFt R → Bytes → Arg R → List (Property R) → Option (Bool × List (Property R))
  set_property ft n a =
      change name_of n
        (λ p. set_property_content ft a p.content >>= λ d. some (record p { content = d }))

  unfoldable pub get_property : List (Property R) → Option Bytes → Option (Property R)
  get_property ps none = none
  get_property ps (some n) = find name_of n ps

  unfoldable pub get_data_property : List (Property R) → Option Bytes → Data R × Status
  unfolding get_property to_data to_status
  get_data_property ps n = let p = get_property ps n in (to_data p, to_status p)

  unfoldable pub get_data_property_qualifiers :
      List (Property R) → Option Bytes → List (Qualifier R) × Status
  unfolding get_property to_status
  get_data_property_qualifiers ps n =
      let p = get_property ps n in (elim p [ none ↦ [] | some q ↦ q.qualifiers ], to_status p)

  unfoldable pub get_data_property_at : List (Property R) → ℕ → Data R × Option Bytes × Status
  unfolding to_data to_name to_status
  get_data_property_at ps pos = let p = find_at ps pos in (to_data p, to_name p, to_status p)

  unfoldable pub get_property_count : List (Property R) → ℕ
  get_property_count ps = count ps

  -- The value of one node, given up as in __release.
  unfoldable pub release_content : Data R → Option (Unit {0})
  release_content d =
      if d.state == null_value
      then some tt
      else native_release_value d.type d.value >>= λ _. some tt

  unfoldable pub release_properties : List (Property R) → Option (Unit {0})
  unfolding release_content
  release_properties [] = some tt
  release_properties (p ∷ ps) = release_content p.content >>= λ _.
      release_qualifiers p.qualifiers >>= λ _. release_properties ps

  -- The copy of one node's value; it stays zero for a state without a value.
  unfoldable pub clone_content : ObjectFt R → Data R → Option (Data R)
  clone_content ft d =
      if d.state == null_value || d.state == bad_value
      then some (record d { value = raw 0 })
      else native_clone_value ft d.type (some d.value) >>= λ v. some (record d { value = v })

  unfoldable pub clone_properties : ObjectFt R → List (Property R) → Option (List (Property R))
  unfolding clone_content
  clone_properties ft [] = some []
  clone_properties ft (p ∷ ps) = clone_content ft p.content >>= λ d.
      clone_qualifiers ft p.qualifiers >>= λ qs. clone_properties ft ps >>= λ rest.
      some (record { name = p.name; content = d; qualifiers = qs } ∷ rest)
