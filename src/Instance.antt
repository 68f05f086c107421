-- ===== src/Instance.antt =====
-- backend/cimxml/instance.c: an instance as a class name, properties and qualifiers, with a
-- filter on the properties that may be set. `none` is a fault.
pub mod Filter
pub mod Laws
pub mod RoundTrip
use sblim_sfcc.Base.{
  ℕ, zero, suc, Bool, true, false, List, [], Option, none, some, ◌==◌, if◌then◌else◌, ◌>>=◌, Bytes,
}
use sblim_sfcc.Cmpi.{
  has, good_value, null_value, key_value, Status, ok, failed, no_such_property, Data, ObjectFt, Arg,
  text, typed, null_data,
}
use sblim_sfcc.Instance.Filter.{CharList, duplicate_list, contained_list, release_list}
use sblim_sfcc.Named.{change}
use sblim_sfcc.ObjectPath.{ObjectPath, new_object_path, add_key}
use sblim_sfcc.Property
use sblim_sfcc.Property.{
  Property, add_property, set_property, get_property, get_data_property, get_data_property_at,
  get_property_count, clone_properties, release_properties,
}
use sblim_sfcc.Qualifier.{
  Qualifier, add_qualifier, set_qualifier, get_data_qualifier, get_data_qualifier_at,
  get_qualifier_count, clone_qualifiers, release_qualifiers,
}

-- struct native_instance
pub record Instance (R : Type 0) : Type 0 where
  pub classname : Option Bytes
  pub name_space : Option Bytes
  pub filtered : Bool
  pub property_list : CharList
  pub key_list : CharList
  pub props : List (Property R)
  pub qualifiers : List (Qualifier R)

module _ {R : Type 0} where
  -- What `calloc` leaves.
  unfoldable pub empty_instance : Instance R
  empty_instance = record {
    classname = none;
    name_space = none;
    filtered = false;
    property_list = none;
    key_list = none;
    props = [];
    qualifiers = [];
  }

  unfoldable pub release_instance : Option (Instance R) → Option Status
  release_instance none = some failed
  release_instance (some i) = release_list i.property_list >>= λ _. release_list i.key_list >>= λ _.
      release_properties i.props >>= λ _. release_qualifiers i.qualifiers >>= λ _. some ok

  unfoldable pub clone_instance : ObjectFt R → Instance R → Option (Instance R)
  unfolding empty_instance
  clone_instance ft i = duplicate_list i.property_list >>= λ pl. duplicate_list i.key_list >>= λ kl.
      clone_qualifiers ft i.qualifiers >>= λ qs. clone_properties ft i.props >>= λ ps.
      some (record empty_instance {
        classname = i.classname;
        name_space = i.name_space;
        property_list = pl;
        key_list = kl;
        props = ps;
        qualifiers = qs;
      })

  unfoldable pub get_instance_property : Instance R → Option Bytes → Data R × Status
  get_instance_property i n = get_data_property i.props n

  unfoldable pub get_instance_property_at : Instance R → ℕ → Data R × Option Bytes × Status
  get_instance_property_at i k = get_data_property_at i.props k

  unfoldable pub get_instance_property_count : Instance R → ℕ
  get_instance_property_count i = get_property_count i.props

  unfoldable pub get_instance_qualifier : Instance R → Option Bytes → Data R × Status
  get_instance_qualifier i n = get_data_qualifier i.qualifiers n

  unfoldable pub get_instance_qualifier_at : Instance R → ℕ → Data R × Option Bytes × Status
  get_instance_qualifier_at i k = get_data_qualifier_at i.qualifiers k

  unfoldable pub get_instance_qualifier_count : Instance R → ℕ
  get_instance_qualifier_count i = get_qualifier_count i.qualifiers

  -- __ift_getPropertyQualifier, behind the look-up of the property.
  unfoldable pub get_property_qualifier : Instance R → Option Bytes → Option Bytes → Data R × Status
  get_property_qualifier i pn qn = elim (get_property i.props pn) [
    | none ↦ (null_data, no_such_property)
    | some p ↦ get_data_qualifier p.qualifiers qn
  ]

  unfoldable pub get_property_qualifier_at :
      Instance R → Option Bytes → ℕ → Data R × Option Bytes × Status
  get_property_qualifier_at i pn k = elim (get_property i.props pn) [
    | none ↦ (null_data, none, no_such_property)
    | some p ↦ get_data_qualifier_at p.qualifiers k
  ]

  unfoldable pub get_property_qualifier_count : Instance R → Option Bytes → ℕ × Status
  get_property_qualifier_count i pn = elim (get_property i.props pn) [
    | none ↦ (0, no_such_property)
    | some p ↦ (get_qualifier_count p.qualifiers, ok)
  ]

  -- The condition of __ift_setProperty, with its short cuts.
  unfoldable pub may_set : Instance R → Bytes → Option Bool
  may_set i n =
      if i.filtered
      then (elim i.property_list [
        | none ↦ some true
        | some l ↦
            contained_list (some l) n >>= λ b. if b then some true else contained_list i.key_list n
      ])
      else some true

  -- The state that a new property gets: CMPI_nullValue for a NULL pointer.
  unfoldable pub fresh_state : Arg R → ℕ
  fresh_state (text none) = null_value
  fresh_state (text (some s)) = good_value
  fresh_state (typed t none) = null_value
  fresh_state (typed t (some v)) = good_value

  -- setProperty, and addProperty where that found no property.
  unfoldable pub upsert_property :
      ObjectFt R → Bytes → Arg R → List (Property R) → Option (List (Property R))
  unfolding fresh_state
  upsert_property ft n a ps = set_property ft n a ps >>= λ r.
      if r.0 then some r.1 else (add_property ft n a (fresh_state a) r.1 >>= λ s. some s.1)

  unfoldable pub set_instance_property :
      ObjectFt R → Instance R → Bytes → Arg R → Option (Instance R × Status)
  unfolding may_set upsert_property
  set_instance_property ft i n a = may_set i n >>= λ b.
      if b
      then (upsert_property ft n a i.props >>= λ ps. some (record i { props = ps }, ok))
      else some (i, ok)

  -- One round of __ift_getObjectPath: a property with the state of a key is added to the path.
  unfoldable pub add_if_key :
      ObjectFt R → Data R × Option Bytes × Status → ObjectPath R → Option (ObjectPath R)
  add_if_key ft (d, none, st) cop = none
  add_if_key ft (d, some n, st) cop =
      if has d.state key_value
      then (add_key ft cop n (typed d.type (some d.value)) >>= λ r. some r.0)
      else some cop

  -- Its loop over the positions below `j`, from the last one.
  unfoldable pub add_keys :
      ObjectFt R → List (Property R) → ℕ → ObjectPath R → Option (ObjectPath R)
  unfolding add_if_key
  add_keys ft ps zero cop = some cop
  add_keys ft ps (suc j) cop = add_if_key ft (get_data_property_at ps j) cop >>= add_keys ft ps j

  unfoldable pub get_object_path : ObjectFt R → Instance R → Option (ObjectPath R)
  unfolding add_keys
  get_object_path ft i =
      add_keys ft i.props (get_property_count i.props) (new_object_path i.name_space i.classname)

  unfoldable pub set_property_filter :
      Instance R → CharList → CharList → Option (Instance R × Status)
  set_property_filter i pl kl =
      (if i.filtered
        then (release_list i.property_list >>= λ _. release_list i.key_list)
        else some tt)
      >>= λ _. duplicate_list pl >>= λ pl'. duplicate_list kl >>= λ kl'.
          some (record i { filtered = true; property_list = pl'; key_list = kl' }, ok)

  -- One round of native_new_CMPIInstance: a key becomes a property with its type and state.
  unfoldable pub copy_key :
      ObjectFt R → Data R × Option Bytes × Status → List (Property R) → Option (List (Property R))
  copy_key ft (d, none, st) ps = none
  copy_key ft (d, some n, st) ps =
      add_property ft n (typed d.type (some d.value)) d.state ps >>= λ r. some r.1

  -- Its loop over the keys below `j`, from the last one.
  unfoldable pub copy_keys :
      ObjectFt R → List (Property R) → ℕ → List (Property R) → Option (List (Property R))
  unfolding copy_key
  copy_keys ft ks zero ps = some ps
  copy_keys ft ks (suc j) ps = copy_key ft (get_data_property_at ks j) ps >>= copy_keys ft ks j

  -- native_new_CMPIInstance. A path without a class name is a fault: its text is copied.
  unfoldable pub new_instance : ObjectFt R → Option (ObjectPath R) → Option (Instance R)
  unfolding empty_instance copy_keys
  new_instance ft none = some empty_instance
  new_instance ft (some cop) = cop.classname >>= λ cn.
      copy_keys ft cop.keys (get_property_count cop.keys) [] >>= λ ps.
      some (record empty_instance { classname = some cn; name_space = cop.name_space; props = ps })

  unfoldable pub set_inst_ns_and_cn : Instance R → Option Bytes → Option Bytes → Instance R
  set_inst_ns_and_cn i ns cn = record i {
    classname = elim cn [ none ↦ i.classname | some s ↦ some s ];
    name_space = elim ns [ none ↦ i.name_space | some s ↦ some s ];
  }

  -- The body that addInstQualifier and addInstPropertyQualifier share.
  unfoldable pub upsert_qualifier :
      ObjectFt R → Bytes → Arg R → List (Qualifier R) → Option (List (Qualifier R))
  upsert_qualifier ft n a qs = set_qualifier ft n a qs >>= λ r.
      if r.0 then some r.1 else (add_qualifier ft n a good_value r.1 >>= λ s. some s.1)

  unfoldable pub add_inst_qualifier : ObjectFt R → Instance R → Bytes → Arg R → Option (Instance R)
  unfolding upsert_qualifier
  add_inst_qualifier ft i n a =
      upsert_qualifier ft n a i.qualifiers >>= λ qs. some (record i { qualifiers = qs })

  -- The property is found by its name, and its list of qualifiers changed in place.
  unfoldable pub add_inst_property_qualifier :
      ObjectFt R → Instance R → Bytes → Bytes → Arg R → Option (Instance R × Status)
  unfolding upsert_qualifier
  add_inst_property_qualifier ft i pn qn a =
      change Property.name_of pn
        (λ p. upsert_qualifier ft qn a p.qualifiers >>= λ qs. some (record p { qualifiers = qs }))
        i.props
      >>= λ r. some (record i { props = r.1 }, if r.0 then ok else no_such_property)
