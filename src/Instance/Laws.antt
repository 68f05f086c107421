-- ===== src/Instance/Laws.antt =====
-- Setting a property of an instance, with and without a filter, and copying and releasing it.
use sblim_sfcc.Base.{
  ◌≡◌, refl, inl, inr, true, false, List, map, Option, none, some, arith, if◌then◌else◌, ◌>>=◌,
  Bool-cases, Option-cases, Bytes, same_name,
}
use sblim_sfcc.Cmpi.{ok, Data, ObjectFt, Arg, text, typed, KeepsContent}
use sblim_sfcc.Content.Laws.{IsAddable, IsSettable}
use sblim_sfcc.Content.{new_content, set_property_content}
use sblim_sfcc.Instance.Filter.{
  names, copied, mentions, duplicate_list, duplicate_list-names, duplicate_list-copied,
  contained_list-copied, release_list-copied,
}
use sblim_sfcc.Instance.{
  Instance, fresh_state, may_set, upsert_property, set_instance_property, set_property_filter,
  get_instance_property, release_instance, clone_instance,
}
use sblim_sfcc.Named.Laws.{All}
use sblim_sfcc.Named.{find}
use sblim_sfcc.Property.Laws.{
  IsValid, IsSound, settled_property, add_property_new, set_property_found, set_property_missing,
  clone_properties_same,
}
use sblim_sfcc.Property.{Property, name_of, get_data_property}
use sblim_sfcc.Qualifier

module _ {R : Type 0} where
  settable-IsAddable : (a : Arg R) → IsSettable a → IsAddable a (fresh_state a)
  unfolding fresh_state
  settable-IsAddable (text none) h = inl refl
  settable-IsAddable (text (some s)) h = inr refl
  settable-IsAddable (typed t none) h = (inr refl, inl refl)
  settable-IsAddable (typed t (some v)) h = (h, inr refl)

  -- What a property of that name holds after the call: a changed content, or a new one.
  abbrev pub upserted : ObjectFt R → Bytes → Arg R → List (Property R) → Option (Data R)
  upserted ft n a ps = elim (find name_of n ps) [
    | none ↦ new_content ft a (fresh_state a)
    | some x ↦ set_property_content ft a x.content
  ]

  upsert_lem :
      (ft : ObjectFt R) (n : Bytes) (a : Arg R) (ps : List (Property R))
      → IsValid ps
      → IsSettable a
      → (d : Data R) × (ps' : List (Property R)) × (upserted ft n a ps ≡ some d)
        × (upsert_property ft n a ps ≡ some ps')
        × IsValid ps'
        × ((m : Bytes)
            → get_data_property ps' (some m)
              ≡ (if same_name n m then (d, ok) else get_data_property ps (some m)))
  unfolding upsert_property
  upsert_lem ft n a ps v h = elim (Option-cases (find name_of n ps)) [
    | inl f ↦
        let (d, ps', e, r, w, _, m) =
          add_property_new ft n a (fresh_state a) ps v (settable-IsAddable a h) f in
        (d, ps', rw (f, upserted) e, rw (set_property_missing ft n a ps f, r) refl, w, m)
    | inr (x, f) ↦
        let (d, ps', e, r, w, _, m) = set_property_found ft n a ps x v h f in
        (d, ps', rw (f, upserted) e, rw r refl, w, m)
  ]

  -- setProperty on an instance with valid properties and no filter, with an argument that fits its
  -- type: no fault, the status is OK, the properties stay valid, the name reads the changed or new
  -- content, every other name reads as before, and the rest of the instance is unchanged.
  pub set_instance_property_lem :
      (ft : ObjectFt R) (i : Instance R) (n : Bytes) (a : Arg R)
      → i.filtered ≡ false
      → IsValid i.props
      → IsSettable a
      → (d : Data R) × (ps' : List (Property R)) × (upserted ft n a i.props ≡ some d)
        × (set_instance_property ft i n a ≡ some (record i { props = ps' }, ok))
        × IsValid ps'
        × ((m : Bytes)
            → get_instance_property (record i { props = ps' }) (some m)
              ≡ (if same_name n m then (d, ok) else get_instance_property i (some m)))
  unfolding set_instance_property get_instance_property
  set_instance_property_lem ft i n a f v h =
      let (d, ps', e, r, w, m) = upsert_lem ft n a i.props v h in (d, ps', e, rw (f, r) refl, w, m)

  -- The instance that setPropertyFilter makes of the two lists of names.
  abbrev pub filtered_by : Instance R → List Bytes → List Bytes → Instance R
  filtered_by i pl kl = record i {
    filtered = true;
    property_list = some (copied pl);
    key_list = some (copied kl);
  }

  pub set_property_filter_lem :
      (i : Instance R) (pl kl : List Bytes)
      → i.filtered ≡ false
      → set_property_filter i (some (names pl)) (some (names kl)) ≡ some (filtered_by i pl kl, ok)
  unfolding set_property_filter
  set_property_filter_lem i pl kl f = rw (f, duplicate_list-names pl, duplicate_list-names kl) refl

  may_set-filtered :
      (i : Instance R) (pl kl : List Bytes) (n : Bytes)
      → may_set (filtered_by i pl kl) n ≡ (if mentions pl n then some true else none)
  unfolding may_set
  may_set-filtered i pl kl n = elim (Bool-cases (mentions pl n)) [
    | inl e ↦ rw (contained_list-copied pl n, e) refl
    | inr e ↦ rw (contained_list-copied pl n, e) refl
  ]

  -- After setPropertyFilter on an instance without a filter, a property that the list of
  -- properties mentions is set as without a filter, and setting any other name is a fault, a read
  -- of the cell that the copy of the list left unset.
  pub set_filtered_property :
      (ft : ObjectFt R) (i : Instance R) (pl kl : List Bytes) (n : Bytes) (a : Arg R)
      → i.filtered ≡ false
      → (i' : Instance R) × (set_property_filter i (some (names pl)) (some (names kl))
          ≡ some (i', ok))
        × (set_instance_property ft i' n a ≡ (
            if mentions pl n
            then (upsert_property ft n a i.props >>= λ ps. some (record i' { props = ps }, ok))
            else none))
  unfolding set_instance_property
  set_filtered_property ft i pl kl n a f = (
    filtered_by i pl kl,
    set_property_filter_lem i pl kl f,
    elim (Bool-cases (mentions pl n)) [
      | inl e ↦ rw (may_set-filtered i pl kl n, e) refl
      | inr e ↦ rw (may_set-filtered i pl kl n, e) refl
    ],
  )

  -- An instance that got its first filter can be neither released, copied, nor given another
  -- filter: each walks a list that has no terminator, and faults.
  pub filtered_faults :
      (ft : ObjectFt R) (i : Instance R) (pl kl : List Bytes)
      → i.filtered ≡ false
      → (i' : Instance R) × (set_property_filter i (some (names pl)) (some (names kl))
          ≡ some (i', ok))
        × (release_instance (some i') ≡ none)
        × (clone_instance ft i' ≡ none)
        × (set_property_filter i' (some (names pl)) (some (names kl)) ≡ none)
  unfolding release_instance clone_instance set_property_filter
  filtered_faults ft i pl kl f = (
    filtered_by i pl kl,
    set_property_filter_lem i pl kl f,
    rw (release_list-copied pl) refl,
    rw (duplicate_list-copied pl) refl,
    rw (release_list-copied pl) refl,
  )

  -- A copy of an instance that never had a filter, and whose values fit their types, has the same
  -- names and qualifiers, and the same properties but for the bits of absent values.
  pub clone_instance_same :
      (ft : ObjectFt R) ⦃keeps : KeepsContent ft⦄ (i : Instance R)
      → i.filtered ≡ false
      → i.property_list ≡ none
      → i.key_list ≡ none
      → All name_of IsSound i.props
      → Qualifier.Laws.AllSound i.qualifiers
      → clone_instance ft i ≡ some (record i { props = map settled_property i.props })
  unfolding clone_instance duplicate_list
  clone_instance_same ft i f pl kl h q =
      rw
        (
          pl,
          kl,
          clone_properties_same ft i.props h,
          Qualifier.Laws.clone_qualifiers_same ft i.qualifiers q,
        )
        (ground arith)
