-- ===== src/Args.antt =====
-- backend/cimxml/args.c: the arguments of a method, a list of properties. `none` is a fault.
use sblim_sfcc.Base.{ℕ, List, [], Option, none, some, ◌>>=◌, Bytes}
use sblim_sfcc.Cmpi.{good_value, Status, ok, failed, Data, ObjectFt, Arg}
use sblim_sfcc.ObjectPath.{add_status}
use sblim_sfcc.Property.{
  Property, add_property, get_data_property, get_data_property_at, get_property_count,
  clone_properties, release_properties,
}

-- struct native_args
pub record Args (R : Type 0) : Type 0 where
  pub arguments : List (Property R)

module _ {R : Type 0} where
  unfoldable pub new_args : Args R
  new_args = record { arguments = [] }

  unfoldable pub release_args : Option (Args R) → Option Status
  release_args none = some failed
  release_args (some a) = release_properties a.arguments >>= λ _. some ok

  unfoldable pub clone_args : ObjectFt R → Args R → Option (Args R)
  clone_args ft a = clone_properties ft a.arguments >>= λ ps. some (record { arguments = ps })

  unfoldable pub add_arg : ObjectFt R → Args R → Bytes → Arg R → Option (Args R × Status)
  add_arg ft a n v = add_property ft n v good_value a.arguments >>= λ r.
      some (record { arguments = r.1 }, add_status r.0)

  unfoldable pub get_arg : Args R → Option Bytes → Data R × Status
  get_arg a n = get_data_property a.arguments n

  unfoldable pub get_arg_at : Args R → ℕ → Data R × Option Bytes × Status
  get_arg_at a i = get_data_property_at a.arguments i

  unfoldable pub get_arg_count : Args R → ℕ
  get_arg_count a = get_property_count a.arguments
