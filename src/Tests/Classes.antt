-- ===== src/Tests/Classes.antt =====
-- The theorems on classes at a class with a property and a method.
use mathlib.Core.Path.{◌≡◌, refl}
use sblim_sfcc.Base.{
  inr, List, [], ◌∷◌, map, Option, none, some, if◌then◌else◌, Bytes, codes, same_name, ℕ,
  if◌then◌else◌,
}
use sblim_sfcc.Cmpi.{
  good_value, key_value, boolean_type, uint64_type, null_type, string_type, raw, typed, ok,
}
use sblim_sfcc.ConstClass.Laws.{
  ClassEdit, property, qualifier, property_qualifier, method, method_qualifier, method_parameter,
  IsValid, clone_const_class_same,
}
use sblim_sfcc.ConstClass.Lookup.{parameter_data, add_class_method_parameter_lem}
use sblim_sfcc.ConstClass.{
  ConstClass, clone_const_class, add_class_method_parameter, get_class_method_parameter,
}
use sblim_sfcc.Method.{Method}
use sblim_sfcc.Property
use sblim_sfcc.Property.Laws.{settled_property}
use sblim_sfcc.Property.{Property}
use sblim_sfcc.Tests.{ft, first_name, object_arg, ft_keeps}

abbrev class_history : List (ClassEdit ℕ)
class_history =
    property first_name object_arg good_value
    ∷ property_qualifier (codes "NAME") (codes "Key") object_arg
    ∷ property_qualifier (codes "Missing") (codes "Key") object_arg
    ∷ qualifier (codes "Version") object_arg
    ∷ qualifier (codes "VERSION") object_arg
    ∷ method (codes "Start") object_arg good_value
    ∷ method_parameter (codes "START") (codes "Input") string_type
    ∷ method_parameter (codes "START") (codes "INPUT") uint64_type
    ∷ method_qualifier (codes "Start") (codes "Static") (typed null_type none)
    ∷ []

abbrev start : Method Bytes
start = record {
  name = codes "Start";
  content = record { type = boolean_type; state = good_value; value = raw 1 };
  parameters = [];
  qualifiers = [];
}

abbrev class : ConstClass Bytes
class = record {
  classname = codes "CIM_Foo";
  props =
      record {
        name = first_name;
        content = record { type = uint64_type; state = key_value; value = raw 1 };
        qualifiers = [];
      }
      ∷ [];
  qualifiers = [];
  methods = start ∷ [];
}

clone_const_class_same_example :
    clone_const_class ft class ≡ some (record class { props = map settled_property class.props })
clone_const_class_same_example =
    clone_const_class_same ft class ((λ e. refl, tt), tt) tt ((refl, tt, tt), tt)

add_class_method_parameter_lem_example :
    (c' : ConstClass Bytes) × (add_class_method_parameter class
        (codes "START")
        (codes "Input")
        string_type
      ≡ some (c', ok))
    × ((qn : Bytes)
        → get_class_method_parameter c' (some (codes "START")) (some qn) ≡ (
            if same_name (codes "Input") qn
            then (parameter_data string_type, ok)
            else get_class_method_parameter class (some (codes "START")) (some qn)))
unfolding sblim_sfcc.Named.find same_name sblim_sfcc.Base.to_lower
add_class_method_parameter_lem_example =
    add_class_method_parameter_lem class (codes "START") (codes "Input") string_type start refl tt

class-IsValid : Property.Laws.IsValid class.props
unfolding sblim_sfcc.Named.find sblim_sfcc.Value.is_released_type
class-IsValid = ((refl, tt), ((inr (refl, refl), tt), tt))
