-- ===== src/Value/Copies.antt =====
-- What a copy and a release of a CMPIValue leave.
use sblim_sfcc.Base.{
  ℕ, ◌≡◌, refl, ap, Bool, true, false, not, ◌&&◌, none, some, arith, ◌==◌, if◌then◌else◌,
}
use sblim_sfcc.Cmpi.{
  has, class_type, enc_bits, array_bits, Value, raw, chars, string, object, freed, ObjectFt,
  KeepsContent,
}
use sblim_sfcc.Value.{
  is_null, clone_member, is_cloned_type, is_released_type, native_clone_value, native_release_value,
}

module _ {R : Type 0} where
  -- The member is NULL, or points to an object that is there.
  abbrev pub is_pointer : Value R → Bool
  is_pointer (raw n) = n == 0
  is_pointer (chars s) = true
  is_pointer (string s) = true
  is_pointer (object o) = true
  is_pointer freed = false

  -- A value that fits its type code, of a type that the copy supports.
  abbrev pub is_sound : ℕ → Value R → Bool
  is_sound t v =
      if has t array_bits
      then is_pointer v
      else if has t enc_bits && not (is_null v)
      then is_pointer v && is_cloned_type t
      else true

  clone_member_same :
      (ft : ObjectFt R) ⦃keeps : KeepsContent ft⦄ (v : Value R)
      → is_pointer v ≡ true
      → is_null v ≡ false
      → clone_member ft v ≡ some v
  clone_member_same ft (raw n) p q = ground arith
  clone_member_same ft (chars s) p q = refl
  clone_member_same ft (string s) p q = refl
  clone_member_same ft ⦃keeps = keeps⦄ (object o) p q =
      ap (λ x. some (object x)) (keeps.clone_same o)
  clone_member_same ft freed p q = ground arith

  is_null-raw : (v : Value R) → is_null v ≡ true → v ≡ raw 0
  is_null-raw (raw n) h = ground arith
  is_null-raw (chars s) h = ground arith
  is_null-raw (string s) h = ground arith
  is_null-raw (object o) h = ground arith
  is_null-raw freed h = ground arith

  -- A copy of a value that fits its type, of a supported type, holds the same.
  pub clone_same :
      (ft : ObjectFt R) ⦃keeps : KeepsContent ft⦄ (t : ℕ) (v : Value R)
      → is_sound t v ≡ true
      → native_clone_value ft t (some v) ≡ some v
  unfolding native_clone_value
  clone_same ft t v h = ground (arith, clone_member_same ft v, is_null-raw v)

  -- Copying a CMPI_class value gives NULL, whatever class it points to.
  pub clone_class_lost :
      (ft : ObjectFt R) (v : Value R)
      → is_null v ≡ false
      → native_clone_value ft class_type (some v) ≡ some (raw 0)
  unfolding native_clone_value
  clone_class_lost ft v h = rw h refl

  -- A release of a live object at a type with objects frees it, and a second one faults.
  pub release_twice :
      (t : ℕ) (v : Value R)
      → is_released_type t ≡ true
      → is_pointer v ≡ true
      → is_null v ≡ false
      → (native_release_value t v ≡ some freed) × (native_release_value {R = R} t freed ≡ none)
  unfolding native_release_value
  release_twice t (raw n) r p q = ground arith
  release_twice t (chars s) r p q = rw r (refl, refl)
  release_twice t (string s) r p q = rw r (refl, refl)
  release_twice t (object o) r p q = rw r (refl, refl)
  release_twice t freed r p q = ground arith

  -- A type code that stands for a scalar keeps its bits through a copy and a release.
  pub scalar_kept :
      (ft : ObjectFt R) (t : ℕ) (v : Value R)
      → has t array_bits ≡ false
      → has t enc_bits ≡ false
      → is_released_type t ≡ false
      → (native_clone_value ft t (some v) ≡ some v) × (native_release_value t v ≡ some v)
  unfolding native_clone_value native_release_value
  scalar_kept ft t v a e r = rw (a, e, r) (refl, refl)
