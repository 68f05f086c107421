-- ===== src/Method/Laws.antt =====
-- Any history of a method list, and its release; copies of a list of methods.
use sblim_sfcc.Base.{
  ℕ, ◌≡◌, refl, ap, inl, inr, true, List, [], ◌∷◌, ◌++◌, Option, some, arith, ◌>>=◌, Option-cases,
  Bytes,
}
use sblim_sfcc.Cmpi.{ObjectFt, Arg, KeepsContent}
use sblim_sfcc.Content.History.{run}
use sblim_sfcc.Content.Laws.{
  IsAddable, IsHeld, IsQualifierArg, new_content-IsHeld, set_qualifier_content-IsHeld,
  release_total,
}
use sblim_sfcc.Method.{
  Method, name_of, add_method, set_method, release_content, release_methods, clone_methods,
}
use sblim_sfcc.Named.{find}
use sblim_sfcc.Named.Laws.{
  IsUnique, add_present, add_absent, replace, change_absent, change_present, IsUnique-concat,
  IsUnique-replace, All, All-concat, All-replace, All-find,
}
use sblim_sfcc.Parameter
use sblim_sfcc.Parameter.Laws.{IsEmpty, release_parameters_total, clone_parameters_same}
use sblim_sfcc.Qualifier.Laws.{AllHeld, AllSound, release_qualifiers_total, clone_qualifiers_same}
use sblim_sfcc.Value.Copies.{is_sound, clone_same}

-- One call of addMethod or of setMethod.
pub data Edit (R : Type 0) : Type 0 where
  to_add : Bytes → Arg R → ℕ → Edit R
  to_set : Bytes → Arg R → Edit R

module _ {R : Type 0} where
  -- The node, its parameters and its qualifiers can be released.
  abbrev pub IsReleasable : Method R → Type 0
  IsReleasable m =
      IsHeld m.content × All (Parameter.name_of {R = R}) IsEmpty m.parameters × AllHeld m.qualifiers

  abbrev pub IsValid : List (Method R) → Type 0
  IsValid ms = IsUnique name_of ms × All name_of IsReleasable ms

  abbrev pub IsProper : Edit R → Type 0
  IsProper (to_add n a st) = IsAddable a st
  IsProper (to_set n a) = IsQualifierArg a

  abbrev pub run_edit : ObjectFt R → Edit R → List (Method R) → Option (List (Method R))
  run_edit ft (to_add n a st) ms = add_method ft n a st ms >>= λ r. some r.1
  run_edit ft (to_set n a) ms = set_method ft n a ms >>= λ r. some r.1

  -- The calls from the one of number `now`, each with the function table of its time.
  abbrev pub run_edits :
      (ℕ → ObjectFt R) → ℕ → List (Edit R) → List (Method R) → Option (List (Method R))
  run_edits fts now es ms = run run_edit fts now es ms

  pub run_edit-IsValid :
      (ft : ObjectFt R) (e : Edit R) (ms : List (Method R))
      → IsValid ms
      → IsProper e
      → (ms' : List (Method R)) × (run_edit ft e ms ≡ some ms') × IsValid ms'
  unfolding add_method set_method
  run_edit-IsValid ft (to_add n a st) ms v p = elim (Option-cases (find name_of n ms)) [
    | inl f ↦
        let (d, e, held) = new_content-IsHeld ft a st p in
        let x : Method R = record { name = n; content = d; parameters = []; qualifiers = [] } in
        (
          ms ++ x ∷ [],
          rw e (rw (add_absent name_of n x ms f) refl),
          (
            IsUnique-concat name_of ms x v.0 f,
            All-concat name_of IsReleasable ms x v.1 (held, tt, tt),
          ),
        )
    | inr (x, f) ↦ (ms, rw (add_present name_of n _ ms x f) refl, v)
  ]
  run_edit-IsValid ft (to_set n a) ms v p = elim (Option-cases (find name_of n ms)) [
    | inl f ↦ (ms, rw (change_absent name_of n _ ms f) refl, v)
    | inr (x, f) ↦
        let h = All-find name_of IsReleasable n ms x v.1 f in
        let (d, e, held) = set_qualifier_content-IsHeld ft a x.content h.0 p in
        let y : Method R = record x { content = d } in
        (
          replace name_of n y ms,
          ap (λ r. r >>= λ q. some q.1) (change_present name_of n _ ms x y f (rw e refl)),
          (
            IsUnique-replace name_of n y ms x v.0 f refl,
            All-replace name_of IsReleasable n ms y v.1 (held, h.1, h.2),
          ),
        )
  ]

  pub release_methods_total :
      (ms : List (Method R)) → All name_of IsReleasable ms → release_methods ms ≡ some tt
  unfolding release_methods release_content
  release_methods_total [] h = refl
  release_methods_total (m ∷ ms) h =
      let (w, e) = release_total m.content.type m.content.value h.0.0.1 in
      rw
        (
          e,
          release_parameters_total m.parameters h.0.1,
          release_qualifiers_total m.qualifiers h.0.2,
          release_methods_total ms h.1,
        )
        (ground arith)

  -- The values of the method and of its qualifiers fit their types; its parameters have no value.
  abbrev pub IsSound : Method R → Type 0
  IsSound m =
      (is_sound m.content.type m.content.value ≡ true)
      × All (Parameter.name_of {R = R}) IsEmpty m.parameters
      × AllSound m.qualifiers

  -- A copy of a list of methods whose values fit their types, and whose parameters have none,
  -- succeeds and is the same list, with the same parameters and qualifiers.
  pub clone_methods_same :
      (ft : ObjectFt R) ⦃keeps : KeepsContent ft⦄ (ms : List (Method R))
      → All name_of IsSound ms
      → clone_methods ft ms ≡ some ms
  unfolding clone_methods
  clone_methods_same ft [] h = refl
  clone_methods_same ft (m ∷ ms) h =
      rw
        (
          clone_same ft m.content.type m.content.value h.0.0,
          clone_parameters_same ft m.parameters h.0.1,
          clone_qualifiers_same ft m.qualifiers h.0.2,
          clone_methods_same ft ms h.1,
        )
        refl
