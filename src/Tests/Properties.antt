-- ===== src/Tests/Properties.antt =====
-- The theorems on lists of properties and of qualifiers at short lists.
use mathlib.Core.Path.{◌≡◌, refl}
use native.Mathlib.Omega.{arith}
use sblim_sfcc.Base.{
  ℕ, ◌+◌, inl, inr, true, false, List, [], ◌∷◌, ◌++◌, map, Option, none, some, if◌then◌else◌, Bytes,
  codes, same_name, ℕ, if◌then◌else◌,
}
use sblim_sfcc.Cmpi.{
  good_value, null_value, key_value, null_type, uint64_type, ok, Data, raw, string, string_type,
  typed,
}
use sblim_sfcc.Content.{new_content, set_property_content}
use sblim_sfcc.Property.{
  Property, add_property, set_property, get_data_property, get_data_property_at, get_property_count,
}
use sblim_sfcc.Property.Laws.{
  IsValid, add_property_new, add_property_exists, set_property_found, set_property_stays_null,
  get_data_property_at_below,
}
use sblim_sfcc.Property.Release.{Edit, to_add, to_set}
use sblim_sfcc.Qualifier
use sblim_sfcc.Qualifier.Laws
use sblim_sfcc.Qualifier.{Qualifier, add_qualifier, set_qualifier, get_data_qualifier}
use sblim_sfcc.Qualifier.Laws.{add_qualifier_lem, set_qualifier_lem}
use sblim_sfcc.Tests.{ft, first_name, other_name, number_arg, object_arg, ft_keeps}

abbrev history : List (Edit ℕ)
history =
    to_add first_name object_arg good_value
    ∷ to_add other_name object_arg key_value
    ∷ to_set (codes "NAME") object_arg
    ∷ to_set other_name (typed null_type none)
    ∷ []

abbrev old : Property Bytes
old = record {
  name = first_name;
  content = record { type = string_type; state = good_value; value = string (some (codes "x")) };
  qualifiers = [];
}

abbrev absent : Property Bytes
absent = record {
  name = first_name;
  content = record { type = uint64_type; state = null_value; value = raw 5 };
  qualifiers = [];
}

old-IsValid : IsValid (old ∷ [])
unfolding sblim_sfcc.Named.find sblim_sfcc.Value.is_released_type
old-IsValid = ((refl, tt), ((inr (refl, refl), tt), tt))

add_property_new_example :
    (d : Data Bytes) × (ps' : List (Property Bytes)) × (new_content ft number_arg key_value
      ≡ some d)
    × (add_property ft other_name number_arg key_value (old ∷ []) ≡ some (false, ps'))
    × IsValid ps'
    × (get_property_count ps' ≡ get_property_count (old ∷ []) + 1)
    × ((m : Bytes)
        → get_data_property ps' (some m)
          ≡ (if same_name other_name m then (d, ok) else get_data_property (old ∷ []) (some m)))
unfolding sblim_sfcc.Named.find same_name sblim_sfcc.Base.to_lower
add_property_new_example =
    add_property_new ft other_name number_arg key_value (old ∷ []) old-IsValid (refl, inr refl) refl

add_property_exists_example :
    add_property ft (codes "NAME") number_arg key_value (old ∷ []) ≡ some (true, old ∷ [])
unfolding sblim_sfcc.Named.find same_name sblim_sfcc.Base.to_lower
add_property_exists_example =
    add_property_exists ft (codes "NAME") number_arg key_value (old ∷ []) old refl

set_property_found_example :
    (d : Data Bytes) × (ps' : List (Property Bytes)) × (set_property_content ft number_arg
        old.content
      ≡ some d)
    × (set_property ft (codes "NAME") number_arg (old ∷ []) ≡ some (true, ps'))
    × IsValid ps'
    × (get_property_count ps' ≡ get_property_count (old ∷ []))
    × ((m : Bytes)
        → get_data_property ps' (some m)
          ≡ (if same_name (codes "NAME") m then (d, ok) else get_data_property (old ∷ []) (some m)))
unfolding sblim_sfcc.Named.find same_name sblim_sfcc.Base.to_lower
set_property_found_example =
    set_property_found ft (codes "NAME") number_arg (old ∷ []) old old-IsValid refl refl

set_property_stays_null_example :
    (ps' : List (Property Bytes)) × (set_property ft first_name number_arg (absent ∷ [])
      ≡ some (true, ps'))
    × (get_data_property ps' (some first_name)
        ≡ (record { type = uint64_type; state = null_value; value = raw 7 }, ok))
unfolding sblim_sfcc.Named.find same_name sblim_sfcc.Base.to_lower
set_property_stays_null_example =
    set_property_stays_null ft first_name uint64_type (raw 7) (absent ∷ []) absent refl refl
      (λ e. absurd (omega arith)) refl

get_data_property_at_below_example :
    (n : Bytes) × (d : Data Bytes) × (get_data_property_at (old ∷ []) 0 ≡ (d, some n, ok))
    × (get_data_property (old ∷ []) (some n) ≡ (d, ok))
unfolding get_property_count sblim_sfcc.Named.count_from
get_data_property_at_below_example =
    get_data_property_at_below (old ∷ []) 0 old-IsValid (omega arith)

abbrev key_mark : Qualifier Bytes
key_mark = record {
  name = codes "Key";
  content = record { type = uint64_type; state = good_value; value = raw 1 };
}

key_mark-IsValid : Qualifier.Laws.IsValid (key_mark ∷ [])
unfolding sblim_sfcc.Named.find sblim_sfcc.Value.is_released_type
key_mark-IsValid = ((refl, tt), ((inr refl, refl), tt))
