-- ===== src/Parameter/Laws.antt =====
-- Any history of a parameter list: the lists never hold a value, so that they are copied and
-- released with no fault.
use sblim_sfcc.Base.{
  ℕ, ◌≡◌, refl, inl, inr, List, [], ◌∷◌, ◌++◌, Option, some, arith, ◌>>=◌, Option-cases, Bytes,
}
use sblim_sfcc.Cmpi.{good_value, raw, ObjectFt, KeepsContent}
use sblim_sfcc.Named.{find}
use sblim_sfcc.Named.Laws.{
  IsUnique, add_present, add_absent, replace, change_absent, change_present, IsUnique-concat,
  IsUnique-replace, All, All-concat, All-replace, All-find,
}
use sblim_sfcc.Parameter.{
  Parameter, name_of, add_parameter, set_parameter, retype, release_parameters, clone_parameters,
}
use sblim_sfcc.Content.{release_old}
use sblim_sfcc.Value.Copies.{clone_same}
use sblim_sfcc.Value.{native_release_value}

-- One call of addParameter or of setParameter.
pub data Edit : Type 0 where
  to_add : Bytes → ℕ → Edit
  to_set : Bytes → ℕ → Edit

module _ {R : Type 0} where
  -- The node has the state CMPI_goodValue and a cleared value.
  abbrev pub IsEmpty : Parameter R → Type 0
  IsEmpty p = (p.content.state ≡ good_value) × (p.content.value ≡ raw 0)

  abbrev pub IsValid : List (Parameter R) → Type 0
  IsValid ps = IsUnique name_of ps × All name_of IsEmpty ps

  abbrev pub run_edit : Edit → List (Parameter R) → Option (List (Parameter R))
  run_edit (to_add n t) ps = add_parameter n t ps >>= λ r. some r.1
  run_edit (to_set n t) ps = set_parameter n t ps >>= λ r. some r.1

  abbrev pub run_edits : List Edit → List (Parameter R) → Option (List (Parameter R))
  run_edits [] ps = some ps
  run_edits (e ∷ es) ps = run_edit e ps >>= run_edits es

  release_zero : (t : ℕ) → native_release_value {R = R} t (raw 0) ≡ some (raw 0)
  unfolding native_release_value
  release_zero t = ground arith

  -- A change of the type leaves the node without a value.
  pub retype_empty :
      (t : ℕ) (x : Parameter R)
      → IsEmpty x
      → retype t x
        ≡ some (record x { content = record { type = t; state = good_value; value = raw 0 } })
  unfolding retype release_old
  retype_empty t x h = rw (h.0, h.1, release_zero x.content.type) refl

  run_edit-IsValid :
      (e : Edit) (ps : List (Parameter R))
      → IsValid ps
      → (ps' : List (Parameter R)) × (run_edit e ps ≡ some ps') × IsValid ps'
  unfolding add_parameter set_parameter retype release_old
  run_edit-IsValid (to_add n t) ps v = elim (Option-cases (find name_of n ps)) [
    | inl f ↦
        let x : Parameter R = record {
          name = n;
          content = record { type = t; state = good_value; value = raw 0 };
        } in
        (
          ps ++ x ∷ [],
          rw (add_absent name_of n x ps f) refl,
          (IsUnique-concat name_of ps x v.0 f, All-concat name_of IsEmpty ps x v.1 (refl, refl)),
        )
    | inr (x, f) ↦ (ps, rw (add_present name_of n _ ps x f) refl, v)
  ]
  run_edit-IsValid (to_set n t) ps v = elim (Option-cases (find name_of n ps)) [
    | inl f ↦ (ps, rw (change_absent name_of n (retype t) ps f) refl, v)
    | inr (x, f) ↦
        let h = All-find name_of IsEmpty n ps x v.1 f in
        let y : Parameter R = record x {
          content = record { type = t; state = x.content.state; value = raw 0 };
        } in
        (
          replace name_of n y ps,
          rw
              (change_present name_of n (retype t) ps x y f
                (rw (h.0, h.1, release_zero x.content.type) refl))
              refl,
          (
            IsUnique-replace name_of n y ps x v.0 f refl,
            All-replace name_of IsEmpty n ps y v.1 (h.0, refl),
          ),
        )
  ]

  run_edits-IsValid :
      (es : List Edit) (ps : List (Parameter R))
      → IsValid ps
      → (ps' : List (Parameter R)) × (run_edits es ps ≡ some ps') × IsValid ps'
  run_edits-IsValid [] ps v = (ps, refl, v)
  run_edits-IsValid (e ∷ es) ps v =
      let (qs, eq, w) = run_edit-IsValid e ps v in rw eq (run_edits-IsValid es qs w)

  pub release_parameters_total :
      (ps : List (Parameter R)) → All name_of IsEmpty ps → release_parameters ps ≡ some tt
  unfolding release_parameters
  release_parameters_total [] h = refl
  release_parameters_total (p ∷ ps) h =
      rw (h.0.0, h.0.1, release_zero p.content.type, release_parameters_total ps h.1) refl

  pub clone_parameters_same :
      (ft : ObjectFt R) ⦃keeps : KeepsContent ft⦄ (ps : List (Parameter R))
      → All name_of IsEmpty ps
      → clone_parameters ft ps ≡ some ps
  unfolding clone_parameters
  clone_parameters_same ft [] h = refl
  clone_parameters_same ft (p ∷ ps) h =
      rw
        (
          clone_same ft p.content.type p.content.value (rw h.0.1 (ground arith)),
          clone_parameters_same ft ps h.1,
        )
        refl

  -- From a valid list of parameters, any sequence of additions and changes of type runs with no
  -- fault to a valid list, whose release makes no fault and whose copy is the same list.
  pub parameter_edits_lem :
      (ft : ObjectFt R) ⦃keeps : KeepsContent ft⦄ (es : List Edit) (ps : List (Parameter R))
      → IsValid ps
      → (ps' : List (Parameter R)) × (run_edits es ps ≡ some ps')
        × IsValid ps'
        × (release_parameters ps' ≡ some tt)
        × (clone_parameters ft ps' ≡ some ps')
  parameter_edits_lem ft es ps v =
      let (qs, eq, w) = run_edits-IsValid es ps v in
      (qs, eq, w, release_parameters_total qs w.1, clone_parameters_same ft qs w.1)
