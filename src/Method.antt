-- ===== src/Method.antt =====
-- backend/cimxml/method.c: the list of methods of a class. A new value is stored and a stored
-- value is replaced with the same text as in qualifier.c. `none` is a fault.
pub mod Laws
pub mod Release
use sblim_sfcc.Base.{ℕ, Bool, List, [], ◌∷◌, Option, none, some, ◌==◌, if◌then◌else◌, ◌>>=◌, Bytes}
use sblim_sfcc.Cmpi.{
  null_value, Status, ok, failed, method_not_found, Data, ObjectFt, Arg, null_data,
}
use sblim_sfcc.Content.{new_content, set_qualifier_content}
use sblim_sfcc.Named.{find, add, change, find_at, count}
use sblim_sfcc.Parameter.{Parameter, clone_parameters, release_parameters}
use sblim_sfcc.Qualifier.{Qualifier, clone_qualifiers, release_qualifiers}
use sblim_sfcc.Value.{native_clone_value, native_release_value}

-- struct native_method; `next` is the list.
pub record Method (R : Type 0) : Type 0 where
  pub name : Bytes
  pub content : Data R
  pub parameters : List (Parameter R)
  pub qualifiers : List (Qualifier R)

module _ {R : Type 0} where
  abbrev pub name_of : Method R → Bytes
  name_of m = m.name

  -- __convert2CMPIData
  unfoldable pub to_data : Option (Method R) → Data R
  to_data none = null_data
  to_data (some m) = m.content

  unfoldable pub to_name : Option (Method R) → Option Bytes
  to_name none = none
  to_name (some m) = some m.name

  unfoldable pub to_status : Status → Option (Method R) → Status
  to_status missing none = missing
  to_status missing (some m) = ok

  unfoldable pub add_method :
      ObjectFt R → Bytes → Arg R → ℕ → List (Method R) → Option (Bool × List (Method R))
  add_method ft n a st = add name_of n (
      new_content ft a st >>= λ d.
      some (record { name = n; content = d; parameters = []; qualifiers = [] }))

  -- The flag is false where the source returns -1.
  unfoldable pub set_method :
      ObjectFt R → Bytes → Arg R → List (Method R) → Option (Bool × List (Method R))
  set_method ft n a =
      change name_of n
        (λ m. set_qualifier_content ft a m.content >>= λ d. some (record m { content = d }))

  unfoldable pub get_method : List (Method R) → Option Bytes → Option (Method R)
  get_method ms none = none
  get_method ms (some n) = find name_of n ms

  unfoldable pub get_data_method : List (Method R) → Option Bytes → Data R × Status
  unfolding get_method to_data to_status
  get_data_method ms n = let m = get_method ms n in (to_data m, to_status failed m)

  unfoldable pub get_data_method_at : List (Method R) → ℕ → Data R × Option Bytes × Status
  unfolding to_data to_name to_status
  get_data_method_at ms pos =
      let m = find_at ms pos in (to_data m, to_name m, to_status method_not_found m)

  unfoldable pub get_method_count : List (Method R) → ℕ
  get_method_count ms = count ms

  -- The value of one node, given up as in __release.
  unfoldable pub release_content : Data R → Option (Unit {0})
  release_content d =
      if d.state == null_value
      then some tt
      else native_release_value d.type d.value >>= λ _. some tt

  unfoldable pub release_methods : List (Method R) → Option (Unit {0})
  unfolding release_content
  release_methods [] = some tt
  release_methods (m ∷ ms) = release_content m.content >>= λ _.
      release_parameters m.parameters >>= λ _.
      release_qualifiers m.qualifiers >>= λ _. release_methods ms

  -- Unlike in property.c, the value is copied whatever the state is.
  unfoldable pub clone_methods : ObjectFt R → List (Method R) → Option (List (Method R))
  clone_methods ft [] = some []
  clone_methods ft (m ∷ ms) = native_clone_value ft m.content.type (some m.content.value) >>= λ v.
      clone_parameters ft m.parameters >>= λ ps. clone_qualifiers ft m.qualifiers >>= λ qs.
      clone_methods ft ms >>= λ rest. some (
        record {
          name = m.name;
          content = record m.content { value = v };
          parameters = ps;
          qualifiers = qs;
        }
        ∷ rest)
