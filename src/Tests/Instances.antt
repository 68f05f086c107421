-- ===== src/Tests/Instances.antt =====
-- The theorems on instances at an instance with one property.
use mathlib.Core.Path.{◌≡◌, refl}
use native.Mathlib.Omega.{arith}
use sblim_sfcc.Base.{
  ℕ, inl, inr, true, false, List, [], ◌∷◌, map, Option, none, some, if◌then◌else◌, ◌>>=◌, Bytes,
  codes, same_name,
}
use sblim_sfcc.Cmpi.{key_value, uint64_type, ok, Data, raw}
use sblim_sfcc.Instance.Filter.{names, mentions}
use sblim_sfcc.Instance.Laws.{
  upserted, set_instance_property_lem, set_filtered_property, filtered_faults, clone_instance_same,
}
use sblim_sfcc.Instance.RoundTrip.{get_object_path-new_instance}
use sblim_sfcc.Instance.{
  Instance, upsert_property, set_instance_property, get_instance_property, set_property_filter,
  release_instance, clone_instance, new_instance, get_object_path,
}
use sblim_sfcc.Property.Laws.{IsValid, settled_property}
use sblim_sfcc.Property.{Property}
use sblim_sfcc.Tests.{ft, first_name, other_name, number_arg, ft_keeps}

abbrev property : Bytes → ℕ → Property Bytes
property n v = record {
  name = n;
  content = record { type = uint64_type; state = key_value; value = raw v };
  qualifiers = [];
}

abbrev inst : Instance Bytes
inst = record {
  classname = some (codes "CIM_Foo");
  name_space = some (codes "root/cimv2");
  filtered = false;
  property_list = none;
  key_list = none;
  props = property first_name 1 ∷ [];
  qualifiers = [];
}

inst-IsValid : IsValid inst.props
unfolding sblim_sfcc.Named.find sblim_sfcc.Value.is_released_type
inst-IsValid = ((refl, tt), ((inr (refl, refl), tt), tt))

set_instance_property_lem_example :
    (d : Data Bytes) × (ps' : List (Property Bytes)) × (upserted ft other_name number_arg inst.props
      ≡ some d)
    × (set_instance_property ft inst other_name number_arg ≡ some (record inst { props = ps' }, ok))
    × IsValid ps'
    × ((m : Bytes)
        → get_instance_property (record inst { props = ps' }) (some m)
          ≡ (if same_name other_name m then (d, ok) else get_instance_property inst (some m)))
set_instance_property_lem_example =
    set_instance_property_lem ft inst other_name number_arg refl inst-IsValid refl

set_filtered_property_example :
    (i' : Instance Bytes) × (set_property_filter inst
        (some (names (first_name ∷ [])))
        (some (names []))
      ≡ some (i', ok))
    × (set_instance_property ft i' other_name number_arg ≡ (
        if mentions (first_name ∷ []) other_name
        then (upsert_property ft other_name number_arg inst.props >>= λ ps.
            some (record i' { props = ps }, ok))
        else none))
set_filtered_property_example =
    set_filtered_property ft inst (first_name ∷ []) [] other_name number_arg refl

filtered_faults_example :
    (i' : Instance Bytes) × (set_property_filter inst
        (some (names (first_name ∷ [])))
        (some (names []))
      ≡ some (i', ok))
    × (release_instance (some i') ≡ none)
    × (clone_instance ft i' ≡ none)
    × (set_property_filter i' (some (names (first_name ∷ []))) (some (names [])) ≡ none)
filtered_faults_example = filtered_faults ft inst (first_name ∷ []) [] refl

clone_instance_same_example :
    clone_instance ft inst ≡ some (record inst { props = map settled_property inst.props })
clone_instance_same_example = clone_instance_same ft inst refl refl refl ((λ e. refl, tt), tt) tt

abbrev keys : List (Property Bytes)
keys = property first_name 1 ∷ property other_name 2 ∷ []

get_object_path-new_instance_example :
    (i : Instance Bytes) × (new_instance ft
        (some (record { name_space = none; classname = some (codes "CIM_Foo"); keys = keys }))
      ≡ some i)
    × (get_object_path ft i
        ≡ some (record { name_space = none; classname = some (codes "CIM_Foo"); keys = keys }))
unfolding sblim_sfcc.Named.find same_name sblim_sfcc.Base.to_lower
get_object_path-new_instance_example =
    get_object_path-new_instance ft (codes "CIM_Foo") none keys (refl, (refl, tt))
      (
        (refl, (λ e. absurd (omega arith)), refl, refl),
        ((refl, (λ e. absurd (omega arith)), refl, refl), tt),
      )
