-- ===== src/Content/Laws.antt =====
-- Contents that can be released: no operation follows a pointer that its node has released before.
use sblim_sfcc.Base.{
  ℕ, zero, suc, ◌≡◌, refl, ◌≢◌, ◌⊎◌, inl, inr, Bool, true, false, ◌||◌, none, some, arith, ◌==◌,
  if◌then◌else◌, Bool-cases, ==_iff,
}
use sblim_sfcc.Cmpi.{
  has, null_type, string_type, chars_type, null_value, enc_bits, array_bits, Value, raw, chars,
  string, object, freed, Data, ObjectFt, Arg, text, typed, KeepsContent,
}
use sblim_sfcc.Value.{
  is_null, release_member, is_released_type, native_release_value, clone_member, native_clone_value,
}
use sblim_sfcc.Value.Copies.{is_pointer, is_sound, clone_same}
use sblim_sfcc.Content.{
  new_content, release_old, set_property_value, set_property_content, set_qualifier_value,
  set_qualifier_content,
}

-- A state that says either that there is no value, or that there is one.
abbrev pub IsState : ℕ → Type 0
IsState st = (st ≡ null_value) ⊎ (has st null_value ≡ false)

pub released_enc : (t : ℕ) → is_released_type t ≡ true → has t enc_bits ≡ true
unfolding is_released_type
released_enc t h = ground arith

module _ {R : Type 0} where
  -- A release of `v` at type `t` does not fault.
  abbrev pub is_releasable : ℕ → Value R → Bool
  is_releasable t v =
      if is_released_type t then is_pointer v else if has t array_bits then is_pointer v else true

  -- The state is CMPI_nullValue, or lacks that flag and the value can be released.
  abbrev pub IsOwned : Data R → Type 0
  IsOwned d =
      (d.state ≡ null_value)
      ⊎ ((has d.state null_value ≡ false) × (is_releasable d.type d.value ≡ true))

  -- What a caller may set: a text, NULL, or a value that fits its type.
  abbrev pub IsSettable : Arg R → Type 0
  IsSettable (text s) = Unit {0}
  IsSettable (typed t none) = Unit {0}
  IsSettable (typed t (some v)) = is_sound t v ≡ true

  -- What a caller may add: the same, but NULL only where the type or the state says so.
  abbrev pub IsAddable : Arg R → ℕ → Type 0
  IsAddable (text s) st = IsState st
  IsAddable (typed t none) st = ((t ≡ null_type) ⊎ (st ≡ null_value)) × IsState st
  IsAddable (typed t (some v)) st = (is_sound t v ≡ true) × IsState st

  null_is_pointer : (v : Value R) → is_null v ≡ true → is_pointer v ≡ true
  null_is_pointer (raw n) h = h
  null_is_pointer (string s) h = ground arith
  null_is_pointer _ h = ground arith

  sound_releasable : (t : ℕ) (v : Value R) → is_sound t v ≡ true → is_releasable t v ≡ true
  sound_releasable t v h = ground (arith, released_enc t, null_is_pointer v)

  clone_pointer :
      (ft : ObjectFt R) (v : Value R)
      → is_pointer v ≡ true
      → is_null v ≡ false
      → (w : Value R) × (clone_member ft v ≡ some w) × (is_pointer w ≡ true)
  clone_pointer ft (raw n) h k = ground arith
  clone_pointer ft (chars s) h k = (chars s, refl, refl)
  clone_pointer ft (string s) h k = (string s, refl, refl)
  clone_pointer ft (object o) h k = (object (ft.clone o), refl, refl)
  clone_pointer ft freed h k = ground arith

  -- A copy of a value that fits its type can be released.
  clone_releasable :
      (ft : ObjectFt R) (t : ℕ) (v : Value R)
      → is_sound t v ≡ true
      → (w : Value R) × (native_clone_value ft t (some v) ≡ some w) × (is_releasable t w ≡ true)
  unfolding native_clone_value
  clone_releasable ft t v h = elim (Bool-cases (is_null v)) [
    | inl n ↦ elim (Bool-cases (has t array_bits)) [
      | inl a ↦ (raw 0, rw (a, n) refl, ground arith)
      | inr a ↦ (v, rw (a, n) (ground arith), sound_releasable t v h)
    ]
    | inr n ↦ elim (Bool-cases (has t array_bits || has t enc_bits)) [
      | inl p ↦
          let (w, e, k) = clone_pointer ft v (ground (arith, h)) n in
          (w, ground (arith, e), ground (arith, k))
      | inr p ↦ (v, ground arith, sound_releasable t v h)
    ]
  ]

  release_pointer :
      (v : Value R) → is_pointer v ≡ true → (w : Value R) × (release_member v ≡ some w)
  release_pointer (raw zero) h = (raw zero, refl)
  release_pointer (raw (suc n)) h = ground arith
  release_pointer (chars s) h = (freed, refl)
  release_pointer (string s) h = (freed, refl)
  release_pointer (object o) h = (freed, refl)
  release_pointer freed h = ground arith

  pub release_total :
      (t : ℕ) (v : Value R)
      → is_releasable t v ≡ true
      → (w : Value R) × (native_release_value t v ≡ some w)
  unfolding native_release_value
  release_total t v h = elim (Bool-cases (is_released_type t)) [
    | inl r ↦ rw r (release_pointer v (rw r at h))
    | inr r ↦ elim (Bool-cases (has t array_bits)) [
      | inl a ↦ rw (r, a) (release_pointer v (rw (r, a) at h))
      | inr a ↦ rw (r, a) (v, refl)
    ]
  ]

  release_old_total : (d : Data R) → IsOwned d → (w : Value R) × (release_old d ≡ some w)
  unfolding release_old
  release_old_total d (inl e) = rw e (d.value, refl)
  release_old_total d (inr (e, r)) = rw e (release_total d.type d.value r)

  content : ℕ → ℕ → Value R → Data R
  content t st v = record { type = t; state = st; value = v }

  owned :
      (t st : ℕ) (v : Value R) → IsState st → is_releasable t v ≡ true → IsOwned (content t st v)
  unfolding content
  owned t st v (inl e) r = inl e
  owned t st v (inr e) r = inr (e, r)

  -- As `IsOwned`, whatever the state says.
  abbrev pub IsHeld : Data R → Type 0
  IsHeld d = IsState d.state × (is_releasable d.type d.value ≡ true)

  pub IsHeld-IsOwned : (d : Data R) → IsHeld d → IsOwned d
  IsHeld-IsOwned d (inl e, r) = inl e
  IsHeld-IsOwned d (inr e, r) = inr (e, r)

  pub new_content-IsHeld :
      (ft : ObjectFt R) (a : Arg R) (st : ℕ)
      → IsAddable a st
      → (d : Data R) × (new_content ft a st ≡ some d) × IsHeld d
  unfolding new_content content is_released_type
  new_content-IsHeld ft (text s) st h = elim (Bool-cases (st == null_value)) [
    | inl e ↦ rw e (content chars_type null_value (raw 0), refl, (inl refl, refl))
    | inr e ↦ rw e (content string_type st (string s), refl, (h, refl))
  ]
  new_content-IsHeld ft (typed t none) st h =
      (content t null_value (raw 0), ground arith, (inl refl, ground arith))
  new_content-IsHeld ft (typed t (some v)) st h =
      elim (Bool-cases (t == null_type || st == null_value)) [
        | inl e ↦ rw e (content t null_value (raw 0), refl, (inl refl, ground arith))
        | inr e ↦
            let (w, c, r) = clone_releasable ft t v h.0 in
            rw (e, c) (content t st w, refl, (h.1, r))
      ]

  module _ (ft : ObjectFt R) (st : ℕ) (old : Value R) where
    set_property_value-IsOwned :
        (a : Arg R)
        → IsState st
        → IsSettable a
        → (d : Data R) × (set_property_value ft st old a ≡ some d) × IsOwned d
    unfolding set_property_value content is_released_type
    set_property_value-IsOwned (text s) i h =
        (content string_type st (string s), refl, owned string_type st (string s) i refl)
    set_property_value-IsOwned (typed t none) i h = (content t null_value old, refl, inl refl)
    set_property_value-IsOwned (typed t (some v)) i h = elim (Bool-cases (t == null_type)) [
      | inl e ↦ rw e (content t null_value old, refl, inl refl)
      | inr e ↦
          let (w, c, r) = clone_releasable ft t v h in
          rw (e, c) (content t st w, refl, owned t st w i r)
    ]

  owned_state : (d : Data R) → IsOwned d → IsState d.state
  owned_state d (inl e) = inl e
  owned_state d (inr e) = inr e.0

  pub set_property_content-IsOwned :
      (ft : ObjectFt R) (a : Arg R) (d : Data R)
      → IsOwned d
      → IsSettable a
      → (d' : Data R) × (set_property_content ft a d ≡ some d') × IsOwned d'
  unfolding set_property_content
  set_property_content-IsOwned ft a d o h =
      let (w, e) = release_old_total d o in
      rw e (set_property_value-IsOwned ft d.state w a (owned_state d o) h)

  -- A value set where the state was CMPI_nullValue leaves that state.
  pub set_property_content-state :
      (ft : ObjectFt R) ⦃keeps : KeepsContent ft⦄ (t : ℕ) (v : Value R) (d : Data R)
      → d.state ≡ null_value
      → t ≢ null_type
      → is_sound t v ≡ true
      → set_property_content ft (typed t (some v)) d
        ≡ some (record { type = t; state = null_value; value = v })
  unfolding set_property_content
  set_property_content-state ft t v d e n h = rw (e, clone_same ft t v h) (ground arith)

  -- What a caller may set in a qualifier, where NULL is read.
  abbrev pub IsQualifierArg : Arg R → Type 0
  IsQualifierArg (text s) = Unit {0}
  IsQualifierArg (typed t none) = t ≡ null_type
  IsQualifierArg (typed t (some v)) = is_sound t v ≡ true

  set_qualifier_value-IsHeld :
      (ft : ObjectFt R) (st : ℕ) (old : Value R) (a : Arg R)
      → IsState st
      → IsQualifierArg a
      → (d : Data R) × (set_qualifier_value ft st old a ≡ some d) × IsHeld d
  unfolding set_qualifier_value content is_released_type
  set_qualifier_value-IsHeld ft st old (text s) i h =
      (content string_type st (string s), refl, (i, refl))
  set_qualifier_value-IsHeld ft st old (typed t none) i h =
      (content t null_value old, ground arith, (inl refl, rw h refl))
  set_qualifier_value-IsHeld ft st old (typed t (some v)) i h = elim (Bool-cases (t == null_type)) [
    | inl e ↦ rw e (content t null_value old, refl, (inl refl, rw ((==_iff t null_type).0 e) refl))
    | inr e ↦ let (w, c, r) = clone_releasable ft t v h in rw (e, c) (content t st w, refl, (i, r))
  ]

  pub set_qualifier_content-IsHeld :
      (ft : ObjectFt R) (a : Arg R) (d : Data R)
      → IsHeld d
      → IsQualifierArg a
      → (d' : Data R) × (set_qualifier_content ft a d ≡ some d') × IsHeld d'
  unfolding set_qualifier_content
  set_qualifier_content-IsHeld ft a d o h =
      let (w, e) = release_old_total d (IsHeld-IsOwned d o) in
      rw e (set_qualifier_value-IsHeld ft d.state w a o.0 h)
