-- ===== src/ObjectPath.antt =====
-- backend/cimxml/objectpath.c: an object path as a namespace, a class name and a list of keys.
-- `none` is a fault.
use sblim_sfcc.Base.{ℕ, Bool, true, false, List, [], Option, none, some, ◌>>=◌, Bytes}
use sblim_sfcc.Cmpi.{
  key_value, Status, ok, failed, not_supported, already_exists, Value, string, Data, ObjectFt, Arg,
}
use sblim_sfcc.Property.{
  Property, add_property, get_data_property, get_data_property_at, get_property_count,
  clone_properties, release_properties,
}

-- struct native_cop; a `char *` may be NULL.
pub record ObjectPath (R : Type 0) : Type 0 where
  pub name_space : Option Bytes
  pub classname : Option Bytes
  pub keys : List (Property R)

-- The status of addProperty's result.
abbrev pub add_status : Bool → Status
add_status true = already_exists
add_status false = ok

module _ {R : Type 0} where
  -- __new_empty_cop
  unfoldable pub new_object_path : Option Bytes → Option Bytes → ObjectPath R
  new_object_path ns cn = record { name_space = ns; classname = cn; keys = [] }

  -- __oft_release, at a pointer that may be NULL.
  unfoldable pub release_object_path : Option (ObjectPath R) → Option Status
  release_object_path none = some failed
  release_object_path (some o) = release_properties o.keys >>= λ _. some ok

  unfoldable pub clone_object_path : ObjectFt R → ObjectPath R → Option (ObjectPath R)
  unfolding new_object_path
  clone_object_path ft o = clone_properties ft o.keys >>= λ ks.
      some (record (new_object_path o.name_space o.classname) { keys = ks })

  unfoldable pub set_name_space : ObjectPath R → Option Bytes → ObjectPath R
  set_name_space o ns = record o { name_space = ns }

  unfoldable pub get_name_space : ObjectPath R → Value R
  get_name_space o = string o.name_space

  unfoldable pub set_class_name : ObjectPath R → Option Bytes → ObjectPath R
  set_class_name o cn = record o { classname = cn }

  unfoldable pub get_class_name : ObjectPath R → Value R
  get_class_name o = string o.classname

  -- Host names are not kept: the setter and the getter only say so.
  unfoldable pub set_host_name : ObjectPath R → Option Bytes → ObjectPath R × Status
  set_host_name o hn = (o, not_supported)

  unfoldable pub get_host_name : ObjectPath R → Option (Value R) × Status
  get_host_name o = (none, not_supported)

  unfoldable pub add_key :
      ObjectFt R → ObjectPath R → Bytes → Arg R → Option (ObjectPath R × Status)
  add_key ft o n a =
      add_property ft n a key_value o.keys >>= λ r. some (record o { keys = r.1 }, add_status r.0)

  unfoldable pub get_key : ObjectPath R → Option Bytes → Data R × Status
  get_key o n = get_data_property o.keys n

  unfoldable pub get_key_at : ObjectPath R → ℕ → Data R × Option Bytes × Status
  get_key_at o i = get_data_property_at o.keys i

  unfoldable pub get_key_count : ObjectPath R → ℕ
  get_key_count o = get_property_count o.keys

  unfoldable pub set_name_space_from_object_path : ObjectPath R → ObjectPath R → ObjectPath R
  unfolding set_name_space
  set_name_space_from_object_path o src = set_name_space o src.name_space
