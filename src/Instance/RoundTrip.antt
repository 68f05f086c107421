-- ===== src/Instance/RoundTrip.antt =====
-- An instance made from an object path, and the object path that it gives back.
use mathlib.Core.List.{reverse, reverse-reverse}
use sblim_sfcc.Base.{
  ℕ, zero, suc, ◌≤◌, ◌≡◌, refl, ◌≢◌, ◌∙◌, ap, true, false, List, [], ◌∷◌, ◌++◌, append_assoc,
  append-nil, Option, none, some, arith, length, Bytes,
}
use sblim_sfcc.Cmpi.{null_type, key_value, ok, ObjectFt, typed, KeepsContent}
use sblim_sfcc.Content.{new_content}
use sblim_sfcc.Instance.{
  Instance, empty_instance, copy_keys, add_keys, new_instance, get_object_path,
}
use sblim_sfcc.Named.Laws.{
  IsUnique, add_absent, count-length, find_at-some, All, All-find_at, All-reverse,
}
use sblim_sfcc.Named.Reverse.{
  down_from, down_from-reverse, down_from_step, IsUnique-reverse, find-none-middle,
}
use sblim_sfcc.Named.{find, find_at}
use sblim_sfcc.ObjectPath.{ObjectPath, add_key, new_object_path}
use sblim_sfcc.Property.{Property, name_of, add_property, get_data_property_at, get_property_count}
use sblim_sfcc.Value.Copies.{is_sound, clone_same}

module _ {R : Type 0} where
  -- A key as addKey leaves it: the state of a key, a value that fits its type, no qualifiers.
  abbrev pub IsKey : Property R → Type 0
  IsKey p =
      (p.content.state ≡ key_value)
      × (p.content.type ≢ null_type)
      × (is_sound p.content.type p.content.value ≡ true)
      × (p.qualifiers ≡ [])

  -- Adding a key's own content makes that key again.
  add_property-key :
      (ft : ObjectFt R) ⦃keeps : KeepsContent ft⦄ (p : Property R) (ps : List (Property R))
      → IsKey p
      → find name_of p.name ps ≡ none
      → add_property ft p.name (typed p.content.type (some p.content.value)) key_value ps
        ≡ some (false, ps ++ p ∷ [])
  unfolding add_property new_content
  add_property-key ft p ps k f =
      rw (clone_same ft p.content.type p.content.value k.2)
        (ground (arith, add_absent name_of p.name p ps f))

  get_at-find_at :
      (ks : List (Property R)) (j : ℕ) (x : Property R)
      → find_at ks j ≡ some x
      → get_data_property_at ks j ≡ (x.content, some x.name, ok)
  unfolding get_data_property_at
  get_at-find_at ks j x e = rw e refl

  -- The keys below position `j` are appended, the last one first.
  copy_keys_lem :
      (ft : ObjectFt R) ⦃keeps : KeepsContent ft⦄ (ks : List (Property R)) (j : ℕ)
      (ps : List (Property R))
      → j ≤ length ks
      → All name_of IsKey ks
      → IsUnique name_of (ps ++ down_from j ks)
      → copy_keys ft ks j ps ≡ some (ps ++ down_from j ks)
  unfolding copy_keys
  copy_keys_lem ft ks zero ps h k u = rw append-nil refl
  copy_keys_lem ft ks (suc j) ps h k u =
      let (x, e) = find_at-some ks j h in
      let u' : IsUnique name_of (ps ++ x ∷ down_from j ks) = rw (down_from_step ks j x e) at u in
      let key = All-find_at name_of IsKey ks j x k e in
      rw
        (
          down_from_step ks j x e,
          get_at-find_at ks j x e,
          key.0,
          add_property-key ft x ps key (find-none-middle name_of ps x (down_from j ks) u'),
        )
        (copy_keys_lem ft ks j (ps ++ x ∷ []) (omega arith) k
            (rw (append_assoc ps (x ∷ []) (down_from j ks)) u')
          ∙ ap some (append_assoc ps (x ∷ []) (down_from j ks)))

  add_keys_lem :
      (ft : ObjectFt R) ⦃keeps : KeepsContent ft⦄ (ks : List (Property R)) (j : ℕ)
      (cop : ObjectPath R)
      → j ≤ length ks
      → All name_of IsKey ks
      → IsUnique name_of (cop.keys ++ down_from j ks)
      → add_keys ft ks j cop ≡ some (record cop { keys = cop.keys ++ down_from j ks })
  unfolding add_keys add_key
  add_keys_lem ft ks zero cop h k u = rw append-nil refl
  add_keys_lem ft ks (suc j) cop h k u =
      let (x, e) = find_at-some ks j h in
      let u' : IsUnique name_of (cop.keys ++ x ∷ down_from j ks) =
        rw (down_from_step ks j x e) at u in
      let key = All-find_at name_of IsKey ks j x k e in
      rw
        (
          down_from_step ks j x e,
          get_at-find_at ks j x e,
          key.0,
          add_property-key ft x cop.keys key
              (find-none-middle name_of cop.keys x (down_from j ks) u'),
        )
        (add_keys_lem ft ks j (record cop { keys = cop.keys ++ x ∷ [] }) (omega arith) k
            (rw (append_assoc cop.keys (x ∷ []) (down_from j ks)) u')
          ∙ ap (λ l. some (record cop { keys = l }))
              (append_assoc cop.keys (x ∷ []) (down_from j ks)))

  copy_keys-reverse :
      (ft : ObjectFt R) ⦃keeps : KeepsContent ft⦄ (ks : List (Property R))
      → IsUnique name_of ks
      → All name_of IsKey ks
      → copy_keys ft ks (get_property_count ks) [] ≡ some (reverse ks)
  unfolding get_property_count
  copy_keys-reverse ft ks u k = rw count-length (
      copy_keys_lem ft ks (length ks) [] (omega arith) k
        (rw (down_from-reverse ks) (IsUnique-reverse name_of ks u))
      ∙ ap some (down_from-reverse ks))

  add_keys-reverse :
      (ft : ObjectFt R) ⦃keeps : KeepsContent ft⦄ (ks : List (Property R)) (cop : ObjectPath R)
      → cop.keys ≡ []
      → IsUnique name_of ks
      → All name_of IsKey ks
      → add_keys ft ks (get_property_count ks) cop ≡ some (record cop { keys = reverse ks })
  unfolding get_property_count
  add_keys-reverse ft ks cop e u k = rw count-length (
      add_keys_lem ft ks (length ks) cop (omega arith) k
        (rw (e, down_from-reverse ks) (IsUnique-reverse name_of ks u))
      ∙ ap (λ l. some (record cop { keys = l })) (rw (e, down_from-reverse ks) refl))

  -- An instance made from an object path with a class name whose keys are as addKey leaves them,
  -- with no name twice, gives back the same object path, its keys in the same order.
  pub get_object_path-new_instance :
      (ft : ObjectFt R) ⦃keeps : KeepsContent ft⦄ (cn : Bytes) (ns : Option Bytes)
      (ks : List (Property R))
      → IsUnique name_of ks
      → All name_of IsKey ks
      → let cop : ObjectPath R = record { name_space = ns; classname = some cn; keys = ks } in
        (i : Instance R) × (new_instance ft (some cop) ≡ some i) × (get_object_path ft i ≡ some cop)
  unfolding new_instance get_object_path new_object_path
  get_object_path-new_instance ft cn ns ks u k = (
    record empty_instance { classname = some cn; name_space = ns; props = reverse ks },
    rw (copy_keys-reverse ft ks u k) refl,
    add_keys-reverse ft (reverse ks) (new_object_path ns (some cn)) refl
          (IsUnique-reverse name_of ks u) (All-reverse name_of IsKey ks k)
        ∙ ap (λ l. some (record (new_object_path ns (some cn)) { keys = l })) (reverse-reverse ks),
  )
