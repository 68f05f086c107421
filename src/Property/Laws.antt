-- ===== src/Property/Laws.antt =====
-- The list of properties as a map from names to contents.
use sblim_sfcc.Base.{
  ℕ, ◌+◌, ◌<◌, ◌≡◌, refl, ◌≢◌, inl, inr, true, false, ◌||◌, List, [], ◌∷◌, ◌++◌, map, none, some,
  arith, ◌==◌, if◌then◌else◌, Bool-cases, length-append, Bytes, same_name, same_name_refl,
}
use sblim_sfcc.Cmpi.{
  null_type, null_value, bad_value, raw, Value, ok, Data, ObjectFt, Arg, typed, KeepsContent,
}
use sblim_sfcc.Content.{new_content, set_property_content}
use sblim_sfcc.Content.Laws.{
  IsAddable, IsOwned, IsHeld-IsOwned, IsSettable, new_content-IsHeld, set_property_content-IsOwned,
  set_property_content-state,
}
use sblim_sfcc.Named.{find}
use sblim_sfcc.Named.Laws.{
  IsUnique, find-concat, add_present, add_absent, replace, change_absent, change_present,
  find-replace, length-replace, IsUnique-concat, IsUnique-replace, All, All-concat, All-replace,
  All-find, count-length, find_at-some, find-find_at,
}
use sblim_sfcc.Property.{
  Property, name_of, add_property, set_property, get_data_property, get_data_property_at,
  get_property_count, clone_content, clone_properties,
}
use sblim_sfcc.Qualifier.{Qualifier}
use sblim_sfcc.Qualifier
use sblim_sfcc.Value.Copies.{is_sound, clone_same}

module _ {R : Type 0} where
  -- The node can be released.
  abbrev pub IsHeld : Property R → Type 0
  IsHeld p = IsOwned p.content × Qualifier.Laws.AllHeld p.qualifiers

  -- No name twice, and every node can be released.
  abbrev pub IsValid : List (Property R) → Type 0
  IsValid ps = IsUnique name_of ps × All name_of IsHeld ps

  -- addProperty to a valid list where the name is new, with a proper argument and state: no fault,
  -- the list stays valid and grows by one, the name has the new content, and every other name
  -- reads as before.
  pub add_property_new :
      (ft : ObjectFt R) (n : Bytes) (a : Arg R) (st : ℕ) (ps : List (Property R))
      → IsValid ps
      → IsAddable a st
      → find name_of n ps ≡ none
      → (d : Data R) × (ps' : List (Property R)) × (new_content ft a st ≡ some d)
        × (add_property ft n a st ps ≡ some (false, ps'))
        × IsValid ps'
        × (get_property_count ps' ≡ get_property_count ps + 1)
        × ((m : Bytes)
            → get_data_property ps' (some m)
              ≡ (if same_name n m then (d, ok) else get_data_property ps (some m)))
  unfolding add_property get_data_property get_property_count
  add_property_new ft n a st ps v p f =
      let (d, e, held) = new_content-IsHeld ft a st p in
      let x : Property R = record { name = n; content = d; qualifiers = [] } in
      (
        d,
        ps ++ x ∷ [],
        e,
        rw e (add_absent name_of n x ps f),
        (
          IsUnique-concat name_of ps x v.0 f,
          All-concat name_of IsHeld ps x v.1 (IsHeld-IsOwned d held, tt),
        ),
        rw (count-length, count-length) (omega (arith, length-append ps (x ∷ []))),
        λ m. rw (find-concat name_of m ps x f) (ground arith),
      )

  -- addProperty where the name is there, in any case: it says so and changes nothing.
  pub add_property_exists :
      (ft : ObjectFt R) (n : Bytes) (a : Arg R) (st : ℕ) (ps : List (Property R)) (x : Property R)
      → find name_of n ps ≡ some x
      → add_property ft n a st ps ≡ some (true, ps)
  unfolding add_property
  add_property_exists ft n a st ps x f = add_present name_of n _ ps x f

  -- setProperty on a valid list where the name is there, with an argument that fits its type: no
  -- fault, the list stays valid and as long, that name has the changed content, and every other
  -- name reads as before.
  pub set_property_found :
      (ft : ObjectFt R) (n : Bytes) (a : Arg R) (ps : List (Property R)) (x : Property R)
      → IsValid ps
      → IsSettable a
      → find name_of n ps ≡ some x
      → (d : Data R) × (ps' : List (Property R)) × (set_property_content ft a x.content ≡ some d)
        × (set_property ft n a ps ≡ some (true, ps'))
        × IsValid ps'
        × (get_property_count ps' ≡ get_property_count ps)
        × ((m : Bytes)
            → get_data_property ps' (some m)
              ≡ (if same_name n m then (d, ok) else get_data_property ps (some m)))
  unfolding set_property get_data_property get_property_count
  set_property_found ft n a ps x v p f =
      let held = All-find name_of IsHeld n ps x v.1 f in
      let (d, e, owned) = set_property_content-IsOwned ft a x.content held.0 p in
      let y : Property R = record x { content = d } in
      (
        d,
        replace name_of n y ps,
        e,
        change_present name_of n _ ps x y f (rw e refl),
        (
          IsUnique-replace name_of n y ps x v.0 f refl,
          All-replace name_of IsHeld n ps y v.1 (owned, held.1),
        ),
        rw (count-length, count-length) (length-replace name_of n y ps),
        λ m. rw (find-replace name_of n m ps x y f refl) (ground arith),
      )

  pub set_property_missing :
      (ft : ObjectFt R) (n : Bytes) (a : Arg R) (ps : List (Property R))
      → find name_of n ps ≡ none
      → set_property ft n a ps ≡ some (false, ps)
  unfolding set_property
  set_property_missing ft n a ps f = change_absent name_of n _ ps f

  -- A value that fits its type, which is not CMPI_null, set at a property whose state is
  -- CMPI_nullValue is stored, and the state that the next look-up returns is still CMPI_nullValue.
  pub set_property_stays_null :
      (ft : ObjectFt R) ⦃keeps : KeepsContent ft⦄ (n : Bytes) (t : ℕ) (v : Value R)
      (ps : List (Property R)) (x : Property R)
      → find name_of n ps ≡ some x
      → x.content.state ≡ null_value
      → t ≢ null_type
      → is_sound t v ≡ true
      → (ps' : List (Property R)) × (set_property ft n (typed t (some v)) ps ≡ some (true, ps'))
        × (get_data_property ps' (some n)
            ≡ (record { type = t; state = null_value; value = v }, ok))
  unfolding set_property get_data_property
  set_property_stays_null ft n t v ps x f e nt s =
      let d : Data R = record { type = t; state = null_value; value = v } in
      let y : Property R = record x { content = d } in
      (
        replace name_of n y ps,
        change_present name_of n _ ps x y f
            (rw (set_property_content-state ft t v x.content e nt s) refl),
        rw (find-replace name_of n n ps x y f refl, same_name_refl n) refl,
      )

  -- A position below the count of a valid list holds a property, the one that its name finds.
  pub get_data_property_at_below :
      (ps : List (Property R)) (i : ℕ)
      → IsValid ps
      → i < get_property_count ps
      → (n : Bytes) × (d : Data R) × (get_data_property_at ps i ≡ (d, some n, ok))
        × (get_data_property ps (some n) ≡ (d, ok))
  unfolding get_data_property_at get_data_property get_property_count
  get_data_property_at_below ps i v h =
      let (x, e) = find_at-some ps i (rw count-length at h) in
      (x.name, x.content, rw e refl, rw (find-find_at name_of ps i x v.0 e) refl)

  -- A copy drops the bits of a value that the state calls absent, and keeps all else.
  abbrev pub settled : Data R → Data R
  settled d =
      if d.state == null_value || d.state == bad_value then record d { value = raw 0 } else d

  abbrev pub settled_property : Property R → Property R
  settled_property p = record p { content = settled p.content }

  -- The values that the states call present fit their types, and those of the qualifiers do.
  abbrev pub IsSound : Property R → Type 0
  IsSound p =
      ((p.content.state == null_value || p.content.state == bad_value) ≡ false
        → is_sound p.content.type p.content.value ≡ true)
      × Qualifier.Laws.AllSound p.qualifiers

  clone_content_lem :
      (ft : ObjectFt R) ⦃keeps : KeepsContent ft⦄ (d : Data R)
      → ((d.state == null_value || d.state == bad_value) ≡ false → is_sound d.type d.value ≡ true)
      → clone_content ft d ≡ some (settled d)
  unfolding clone_content
  clone_content_lem ft d h = elim (Bool-cases (d.state == null_value || d.state == bad_value)) [
    | inl e ↦ rw e refl
    | inr e ↦ rw (e, clone_same ft d.type d.value (h e)) refl
  ]

  -- A copy of a list whose values fit their types succeeds, with the same names in the same order,
  -- the same qualifiers and the same contents, but for the bits of absent values.
  pub clone_properties_same :
      (ft : ObjectFt R) ⦃keeps : KeepsContent ft⦄ (ps : List (Property R))
      → All name_of IsSound ps
      → clone_properties ft ps ≡ some (map settled_property ps)
  unfolding clone_properties
  clone_properties_same ft [] h = refl
  clone_properties_same ft (p ∷ ps) h =
      rw
        (
          clone_content_lem ft p.content h.0.0,
          Qualifier.Laws.clone_qualifiers_same ft p.qualifiers h.0.1,
          clone_properties_same ft ps h.1,
        )
        refl
