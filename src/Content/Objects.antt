-- ===== src/Content/Objects.antt =====
-- The objects that the release of a content frees, told apart by numbers.
use sblim_sfcc.Base.{
  ℕ, ◌≤◌, ◌≡◌, inl, inr, true, ◌||◌, Option, none, some, arith, ◌==◌, if◌then◌else◌, ◌>>=◌,
  Option-cases, Bool-cases, some-inj, ==_iff,
}
use sblim_sfcc.Cmpi.{
  has, null_type, null_value, string_type, chars_type, enc_bits, array_bits, Value, raw, chars,
  string, object, freed, Data, ObjectFt, Arg, text, typed,
}
use sblim_sfcc.Content.{
  new_content, release_old, set_property_value, set_property_content, set_qualifier_value,
  set_qualifier_content,
}
use sblim_sfcc.Content.Laws.{released_enc}
use sblim_sfcc.Value.{is_null, clone_member, is_cloned_type, is_released_type, native_clone_value}
use mathlib.Core.Path.{subst}

-- The objects that the call of number `k` makes have that number.
abbrev pub Numbers : {R : Type 0} → (R → ℕ) → (ℕ → ObjectFt R) → Type 0
Numbers {R = R} number fts = (k : ℕ) (o : R) → number ((fts k).clone o) ≡ k

module _ {R : Type 0} (number : R → ℕ) (k : ℕ) where
  abbrev pub object_count : Value R → ℕ
  object_count (raw n) = 0
  object_count (chars s) = 0
  object_count (string s) = 0
  object_count (object o) = if number o == k then 1 else 0
  object_count freed = 0

  -- How often native_release_CMPIValue frees the object `k` of this content.
  abbrev pub freed_count : Data R → ℕ
  freed_count d =
      if is_released_type d.type || has d.type array_bits then object_count d.value else 0

  -- The same, where the release of a node tests its state before.
  abbrev pub node_count : Data R → ℕ
  node_count d = if d.state == null_value then 0 else freed_count d

  module _ (ft : ObjectFt R) (now : ℕ) (made : (o : R) → number (ft.clone o) ≡ now) where
    abbrev pub here : ℕ
    here = if now == k then 1 else 0

    clone_member-count : (v w : Value R) → clone_member ft v ≡ some w → object_count w ≤ here
    clone_member-count (raw n) w h = ground arith
    clone_member-count (chars s) w h =
        subst (λ x. object_count x ≤ here) (some-inj (chars s) w h) (ground arith)
    clone_member-count (string s) w h =
        subst (λ x. object_count x ≤ here) (some-inj (string s) w h) (ground arith)
    clone_member-count (object o) w h =
        subst (λ x. object_count x ≤ here) (some-inj (object (ft.clone o)) w h)
          (ground (arith, made o))
    clone_member-count freed w h = ground arith

    null-count : (v : Value R) → is_null v ≡ true → object_count v ≡ 0
    null-count (raw n) h = omega arith
    null-count (chars s) h = omega arith
    null-count (string s) h = omega arith
    null-count (object o) h = ground arith
    null-count freed h = omega arith

    moved : (v w : Value R) → object_count v ≤ here → some v ≡ some w → object_count w ≤ here
    moved v w p h = subst (λ x. object_count x ≤ here) (some-inj v w h) p

    -- A copy at a type with objects is a new object.
    clone-count :
        (t : ℕ) (v : Option (Value R)) (w : Value R)
        → (is_released_type t || has t array_bits) ≡ true
        → native_clone_value ft t v ≡ some w
        → object_count w ≤ here
    unfolding native_clone_value
    clone-count t none w r h = elim (Bool-cases (has t array_bits)) [
      | inl a ↦ let no = rw a at h in ground arith
      | inr a ↦ elim (Bool-cases (has t enc_bits)) [
        | inl b ↦ let no = rw (a, b) at h in ground arith
        | inr b ↦ moved (raw 0) w (omega arith) (rw (a, b) at h)
      ]
    ]
    clone-count t (some v) w r h = elim (Bool-cases (has t array_bits)) [
      | inl a ↦ elim (Bool-cases (is_null v)) [
        | inl n ↦ moved (raw 0) w (omega arith) (rw (a, n) at h)
        | inr n ↦ clone_member-count v w (rw (a, n) at h)
      ]
      | inr a ↦
          let enc : has t enc_bits ≡ true = released_enc t (ground (arith, r, a)) in
          elim (Bool-cases (is_null v)) [
            | inl n ↦ moved v w (omega (arith, null-count v n)) (rw (a, enc, n) at h)
            | inr n ↦ elim (Bool-cases (is_cloned_type t)) [
              | inl c ↦ clone_member-count v w (rw (a, enc, n, c) at h)
              | inr c ↦ moved (raw 0) w (omega arith) (rw (a, enc, n, c) at h)
            ]
          ]
    ]

    clone_data-count :
        (t st : ℕ) (v : Option (Value R)) (d : Data R)
        → (native_clone_value ft t v >>= λ w. some (record { type = t; state = st; value = w }))
          ≡ some d
        → freed_count d ≤ here
    clone_data-count t st v d h = elim (Option-cases (native_clone_value ft t v)) [
      | inl e ↦ let no = rw e at h in ground arith
      | inr (w, e) ↦
          let x : Data R = record { type = t; state = st; value = w } in
          let same : x ≡ d = some-inj x d (rw e at h) in
          subst (λ y. freed_count y ≤ here) same
            (elim (Bool-cases (is_released_type t || has t array_bits)) [
              | inl r ↦ rw r (clone-count t v w r e)
              | inr r ↦ rw r (omega arith)
            ])
    ]

    data-count : (x d : Data R) → freed_count x ≡ 0 → some x ≡ some d → freed_count d ≤ here
    data-count x d z h = subst (λ y. freed_count y ≤ here) (some-inj x d h) (omega (arith, z))

    -- The content of a new node frees at most one object, which this call has made.
    pub new_content-count :
        (a : Arg R) (st : ℕ) (d : Data R) → new_content ft a st ≡ some d → freed_count d ≤ here
    unfolding new_content
    new_content-count (text s) st d h = elim (Bool-cases (st == null_value)) [
      | inl e ↦
          data-count (record { type = chars_type; state = null_value; value = raw 0 }) d
            (ground arith) (rw e at h)
      | inr e ↦
          data-count (record { type = string_type; state = st; value = string s }) d (ground arith)
            (rw e at h)
    ]
    new_content-count (typed t v) st d h = elim (Bool-cases (t == null_type || st == null_value)) [
      | inl e ↦
          data-count (record { type = t; state = null_value; value = raw 0 }) d (ground arith)
            (rw e at h)
      | inr e ↦ clone_data-count t st v d (rw e at h)
    ]

    pub node_le : (d : Data R) → freed_count d ≤ here → node_count d ≤ here
    node_le d h = ground (arith, h)

    null_node : (d : Data R) → d.state ≡ null_value → node_count d ≤ here
    null_node d h = rw h (ground arith)

    null_old :
        (t : ℕ) (old : Value R) (d : Data R)
        → some (record { type = t; state = null_value; value = old }) ≡ some d
        → node_count d ≤ here
    null_old t old d h =
        subst (λ y. node_count y ≤ here)
          (some-inj (record { type = t; state = null_value; value = old }) d h) (ground arith)

    set_property_value-count :
        (st : ℕ) (old : Value R) (a : Arg R) (d : Data R)
        → set_property_value ft st old a ≡ some d
        → node_count d ≤ here
    unfolding set_property_value
    set_property_value-count st old (text s) d h = node_le d (
        data-count (record { type = string_type; state = st; value = string s }) d (ground arith) h)
    set_property_value-count st old (typed t none) d h = null_old t old d h
    set_property_value-count st old (typed t (some v)) d h = elim (Bool-cases (t == null_type)) [
      | inl e ↦ null_old t old d (rw e at h)
      | inr e ↦ node_le d (clone_data-count t st (some v) d (rw e at h))
    ]

    -- A content that was set frees at most one object, which this call has made.
    pub set_property_content-count :
        (a : Arg R) (x d : Data R) → set_property_content ft a x ≡ some d → node_count d ≤ here
    unfolding set_property_content
    set_property_content-count a x d h = elim (Option-cases (release_old x)) [
      | inl e ↦ let no = rw e at h in ground arith
      | inr (old, e) ↦ set_property_value-count x.state old a d (rw e at h)
    ]

    set_qualifier_value-count :
        (st : ℕ) (old : Value R) (a : Arg R) (d : Data R)
        → set_qualifier_value ft st old a ≡ some d
        → freed_count d ≤ here
    unfolding set_qualifier_value is_released_type
    set_qualifier_value-count st old (text s) d h =
        data-count (record { type = string_type; state = st; value = string s }) d (ground arith) h
    set_qualifier_value-count st old (typed t v) d h = elim (Bool-cases (t == null_type)) [
      | inl e ↦
          let zero_type : t ≡ null_type = (==_iff t null_type).0 e in
          data-count (record { type = t; state = null_value; value = old }) d
            (rw zero_type (ground arith)) (rw e at h)
      | inr e ↦ clone_data-count t st v d (rw e at h)
    ]

    pub set_qualifier_content-count :
        (a : Arg R) (x d : Data R) → set_qualifier_content ft a x ≡ some d → freed_count d ≤ here
    unfolding set_qualifier_content
    set_qualifier_content-count a x d h = elim (Option-cases (release_old x)) [
      | inl e ↦ let no = rw e at h in ground arith
      | inr (old, e) ↦ set_qualifier_value-count x.state old a d (rw e at h)
    ]
