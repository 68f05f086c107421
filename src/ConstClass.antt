-- ===== src/ConstClass.antt =====
-- backend/cimxml/constClass.c: a class as a name, properties, qualifiers and methods, with the
-- functions by which the parser fills it. `none` is a fault.
pub mod Edits
pub mod Laws
pub mod Objects
pub mod Lookup
use sblim_sfcc.Base.{ℕ, List, [], Option, none, some, if◌then◌else◌, ◌>>=◌, Bytes}
use sblim_sfcc.Cmpi.{
  good_value, Status, ok, failed, no_such_property, method_not_found, Value, string, Data, ObjectFt,
  Arg, null_data,
}
use sblim_sfcc.Method
use sblim_sfcc.Method.{
  Method, add_method, set_method, get_method, get_data_method, get_data_method_at, get_method_count,
  release_methods, clone_methods,
}
use sblim_sfcc.Named.{change, or_add}
use sblim_sfcc.Parameter.{
  Parameter, add_parameter, set_parameter, get_data_parameter, get_data_parameter_at,
  get_parameter_count,
}
use sblim_sfcc.Property
use sblim_sfcc.Property.{
  Property, add_property, set_property, get_property, get_data_property, get_data_property_at,
  get_property_count, release_properties, clone_properties,
}
use sblim_sfcc.Qualifier.{
  Qualifier, add_qualifier, set_qualifier, get_data_qualifier, get_data_qualifier_at,
  get_qualifier_count, release_qualifiers, clone_qualifiers,
}

-- struct native_constClass
pub record ConstClass (R : Type 0) : Type 0 where
  pub classname : Bytes
  pub props : List (Property R)
  pub qualifiers : List (Qualifier R)
  pub methods : List (Method R)

module _ {R : Type 0} where
  unfoldable pub new_const_class : Bytes → ConstClass R
  new_const_class cn = record { classname = cn; props = []; qualifiers = []; methods = [] }

  unfoldable pub release_const_class : Option (ConstClass R) → Option Status
  release_const_class none = some failed
  release_const_class (some c) = release_properties c.props >>= λ _.
      release_qualifiers c.qualifiers >>= λ _. release_methods c.methods >>= λ _. some ok

  unfoldable pub clone_const_class : ObjectFt R → ConstClass R → Option (ConstClass R)
  clone_const_class ft c = clone_qualifiers ft c.qualifiers >>= λ qs.
      clone_properties ft c.props >>= λ ps. clone_methods ft c.methods >>= λ ms.
      some (record { classname = c.classname; props = ps; qualifiers = qs; methods = ms })

  -- Look-ups; the two-step ones say which of the names is missing.
  unfoldable pub get_class_name : ConstClass R → Value R
  get_class_name c = string (some c.classname)

  unfoldable pub get_class_property : ConstClass R → Option Bytes → Data R × Status
  get_class_property c n = get_data_property c.props n

  unfoldable pub get_class_property_at : ConstClass R → ℕ → Data R × Option Bytes × Status
  get_class_property_at c k = get_data_property_at c.props k

  unfoldable pub get_class_property_count : ConstClass R → ℕ
  get_class_property_count c = get_property_count c.props

  unfoldable pub get_class_qualifier : ConstClass R → Option Bytes → Data R × Status
  get_class_qualifier c n = get_data_qualifier c.qualifiers n

  unfoldable pub get_class_qualifier_at : ConstClass R → ℕ → Data R × Option Bytes × Status
  get_class_qualifier_at c k = get_data_qualifier_at c.qualifiers k

  unfoldable pub get_class_qualifier_count : ConstClass R → ℕ
  get_class_qualifier_count c = get_qualifier_count c.qualifiers

  unfoldable pub get_class_property_qualifier :
      ConstClass R → Option Bytes → Option Bytes → Data R × Status
  get_class_property_qualifier c pn qn = elim (get_property c.props pn) [
    | none ↦ (null_data, no_such_property)
    | some p ↦ get_data_qualifier p.qualifiers qn
  ]

  unfoldable pub get_class_property_qualifier_at :
      ConstClass R → Option Bytes → ℕ → Data R × Option Bytes × Status
  get_class_property_qualifier_at c pn k = elim (get_property c.props pn) [
    | none ↦ (null_data, none, no_such_property)
    | some p ↦ get_data_qualifier_at p.qualifiers k
  ]

  unfoldable pub get_class_property_qualifier_count : ConstClass R → Option Bytes → ℕ × Status
  get_class_property_qualifier_count c pn = elim (get_property c.props pn) [
    | none ↦ (0, no_such_property)
    | some p ↦ (get_qualifier_count p.qualifiers, ok)
  ]

  unfoldable pub get_class_method : ConstClass R → Option Bytes → Data R × Status
  get_class_method c n = get_data_method c.methods n

  unfoldable pub get_class_method_at : ConstClass R → ℕ → Data R × Option Bytes × Status
  get_class_method_at c k = get_data_method_at c.methods k

  unfoldable pub get_class_method_count : ConstClass R → ℕ
  get_class_method_count c = get_method_count c.methods

  unfoldable pub get_class_method_qualifier :
      ConstClass R → Option Bytes → Option Bytes → Data R × Status
  get_class_method_qualifier c mn qn = elim (get_method c.methods mn) [
    | none ↦ (null_data, method_not_found)
    | some m ↦ get_data_qualifier m.qualifiers qn
  ]

  unfoldable pub get_class_method_qualifier_at :
      ConstClass R → Option Bytes → ℕ → Data R × Option Bytes × Status
  get_class_method_qualifier_at c mn k = elim (get_method c.methods mn) [
    | none ↦ (null_data, none, method_not_found)
    | some m ↦ get_data_qualifier_at m.qualifiers k
  ]

  unfoldable pub get_class_method_qualifier_count : ConstClass R → Option Bytes → ℕ × Status
  get_class_method_qualifier_count c mn = elim (get_method c.methods mn) [
    | none ↦ (0, method_not_found)
    | some m ↦ (get_qualifier_count m.qualifiers, ok)
  ]

  unfoldable pub get_class_method_parameter :
      ConstClass R → Option Bytes → Option Bytes → Data R × Status
  get_class_method_parameter c mn pn = elim (get_method c.methods mn) [
    | none ↦ (null_data, method_not_found)
    | some m ↦ get_data_parameter m.parameters pn
  ]

  unfoldable pub get_class_method_parameter_at :
      ConstClass R → Option Bytes → ℕ → Data R × Option Bytes × Status
  get_class_method_parameter_at c mn k = elim (get_method c.methods mn) [
    | none ↦ (null_data, none, method_not_found)
    | some m ↦ get_data_parameter_at m.parameters k
  ]

  unfoldable pub get_class_method_parameter_count : ConstClass R → Option Bytes → ℕ × Status
  get_class_method_parameter_count c mn = elim (get_method c.methods mn) [
    | none ↦ (0, method_not_found)
    | some m ↦ (get_parameter_count m.parameters, ok)
  ]

  -- The functions of the parser. Each changes what is there, and else adds.
  unfoldable pub add_class_property :
      ObjectFt R → ConstClass R → Bytes → Arg R → ℕ → Option (ConstClass R)
  add_class_property ft c n a st =
      or_add (set_property ft n a c.props) (add_property ft n a st) >>= λ ps.
      some (record c { props = ps })

  -- The two calls on a list of qualifiers that three of the functions make.
  unfoldable pub put_qualifier :
      ObjectFt R → Bytes → Arg R → List (Qualifier R) → Option (List (Qualifier R))
  put_qualifier ft n a qs = or_add (set_qualifier ft n a qs) (add_qualifier ft n a good_value)

  unfoldable pub add_class_qualifier :
      ObjectFt R → ConstClass R → Bytes → Arg R → Option (ConstClass R)
  unfolding put_qualifier
  add_class_qualifier ft c n a =
      put_qualifier ft n a c.qualifiers >>= λ qs. some (record c { qualifiers = qs })

  unfoldable pub add_class_property_qualifier :
      ObjectFt R → ConstClass R → Bytes → Bytes → Arg R → Option (ConstClass R × Status)
  unfolding put_qualifier
  add_class_property_qualifier ft c pn qn a =
      change Property.name_of pn
        (λ p. put_qualifier ft qn a p.qualifiers >>= λ qs. some (record p { qualifiers = qs }))
        c.props
      >>= λ r. some (record c { props = r.1 }, if r.0 then ok else no_such_property)

  unfoldable pub add_class_method :
      ObjectFt R → ConstClass R → Bytes → Arg R → ℕ → Option (ConstClass R)
  add_class_method ft c n a st =
      or_add (set_method ft n a c.methods) (add_method ft n a st) >>= λ ms.
      some (record c { methods = ms })

  unfoldable pub add_class_method_qualifier :
      ObjectFt R → ConstClass R → Bytes → Bytes → Arg R → Option (ConstClass R × Status)
  unfolding put_qualifier
  add_class_method_qualifier ft c mn qn a =
      change Method.name_of mn
        (λ m. put_qualifier ft qn a m.qualifiers >>= λ qs. some (record m { qualifiers = qs }))
        c.methods
      >>= λ r. some (record c { methods = r.1 }, if r.0 then ok else method_not_found)

  unfoldable pub put_parameter : Bytes → ℕ → List (Parameter R) → Option (List (Parameter R))
  put_parameter n t ps = or_add (set_parameter n t ps) (add_parameter n t)

  unfoldable pub add_class_method_parameter :
      ConstClass R → Bytes → Bytes → ℕ → Option (ConstClass R × Status)
  unfolding put_parameter
  add_class_method_parameter c mn pn t =
      change Method.name_of mn
        (λ m. put_parameter pn t m.parameters >>= λ ps. some (record m { parameters = ps }))
        c.methods
      >>= λ r. some (record c { methods = r.1 }, if r.0 then ok else method_not_found)
