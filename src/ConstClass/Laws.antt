-- ===== src/ConstClass/Laws.antt =====
-- The calls by which the parser fills a class, and what each keeps; copies of a class.
use sblim_sfcc.Base.{ℕ, ◌≡◌, refl, List, [], map, Option, some, ◌>>=◌, Bytes}
use sblim_sfcc.Cmpi.{good_value, ObjectFt, Arg, KeepsContent}
use sblim_sfcc.ConstClass.{
  ConstClass, clone_const_class, add_class_property, put_qualifier, add_class_qualifier,
  add_class_property_qualifier, add_class_method, add_class_method_qualifier,
  add_class_method_parameter,
}
use sblim_sfcc.Content.History.{run}
use sblim_sfcc.Content.Laws.{
  IsAddable, IsSettable, IsQualifierArg, IsHeld, IsHeld-IsOwned, new_content-IsHeld,
  set_property_content-IsOwned, set_qualifier_content-IsHeld,
}
use sblim_sfcc.Content.{new_content, set_property_content, set_qualifier_content}
use sblim_sfcc.Method
use sblim_sfcc.Method.{Method, add_method, set_method}
use sblim_sfcc.Method.Laws.{release_methods_total, clone_methods_same}
use sblim_sfcc.Named.Change.{or_add-All}
use sblim_sfcc.Named.Laws.{IsUnique, All}
use sblim_sfcc.Property
use sblim_sfcc.Property.{Property, add_property, set_property}
use sblim_sfcc.Property.Laws.{settled_property, clone_properties_same}
use sblim_sfcc.Qualifier
use sblim_sfcc.Qualifier.{Qualifier, add_qualifier, set_qualifier}
use sblim_sfcc.Qualifier.Laws.{AllHeld, AllSound, release_qualifiers_total, clone_qualifiers_same}

-- One call of the parser.
pub data ClassEdit (R : Type 0) : Type 0 where
  property : Bytes → Arg R → ℕ → ClassEdit R
  qualifier : Bytes → Arg R → ClassEdit R
  property_qualifier : Bytes → Bytes → Arg R → ClassEdit R
  method : Bytes → Arg R → ℕ → ClassEdit R
  method_qualifier : Bytes → Bytes → Arg R → ClassEdit R
  method_parameter : Bytes → Bytes → ℕ → ClassEdit R

module _ {R : Type 0} where
  -- No name twice among properties, qualifiers or methods, and everything can be released.
  pub record IsValid (c : ConstClass R) : Type 0 where
    pub props : Property.Laws.IsValid c.props
    pub qualifiers : Qualifier.Laws.IsValid c.qualifiers
    pub methods : Method.Laws.IsValid c.methods

  -- What the caller hands over fits both the change and the addition.
  abbrev pub IsProper : ClassEdit R → Type 0
  IsProper (property n a st) = IsSettable a × IsAddable a st
  IsProper (qualifier n a) = IsQualifierArg a × IsAddable a good_value
  IsProper (property_qualifier pn qn a) = IsQualifierArg a × IsAddable a good_value
  IsProper (method n a st) = IsQualifierArg a × IsAddable a st
  IsProper (method_qualifier mn qn a) = IsQualifierArg a × IsAddable a good_value
  IsProper (method_parameter mn pn t) = Unit {0}

  abbrev pub run_edit : ObjectFt R → ClassEdit R → ConstClass R → Option (ConstClass R)
  run_edit ft (property n a st) c = add_class_property ft c n a st
  run_edit ft (qualifier n a) c = add_class_qualifier ft c n a
  run_edit ft (property_qualifier pn qn a) c =
      add_class_property_qualifier ft c pn qn a >>= λ r. some r.0
  run_edit ft (method n a st) c = add_class_method ft c n a st
  run_edit ft (method_qualifier mn qn a) c =
      add_class_method_qualifier ft c mn qn a >>= λ r. some r.0
  run_edit ft (method_parameter mn pn t) c = add_class_method_parameter c mn pn t >>= λ r. some r.0

  -- The calls from the one of number `now`, each with the function table of its time.
  abbrev pub run_edits :
      (ℕ → ObjectFt R) → ℕ → List (ClassEdit R) → ConstClass R → Option (ConstClass R)
  run_edits fts now es c = run run_edit fts now es c

  pub put_qualifier_lem :
      (ft : ObjectFt R) (n : Bytes) (a : Arg R) (qs : List (Qualifier R))
      → AllHeld qs
      → IsQualifierArg a
      → IsAddable a good_value
      → (ys : List (Qualifier R)) × (put_qualifier ft n a qs ≡ some ys)
        × AllHeld ys
        × (IsUnique Qualifier.name_of qs → IsUnique Qualifier.name_of ys)
  unfolding put_qualifier set_qualifier add_qualifier
  put_qualifier_lem ft n a qs h p q =
      let (d, e, held) = new_content-IsHeld ft a good_value q in
      or_add-All Qualifier.name_of (λ x. IsHeld x.content) n
        (λ x. set_qualifier_content ft a x.content >>= λ d'. some (record x { content = d' }))
        (new_content ft a good_value >>= λ d'. some (record { name = n; content = d' }))
        (record { name = n; content = d }) qs h
        (λ x k.
          let (d', e', held') = set_qualifier_content-IsHeld ft a x.content k p in
          (record x { content = d' }, rw e' refl, refl, held'))
        (rw e refl) held refl

  pub put_property_lem :
      (ft : ObjectFt R) (c : ConstClass R) (n : Bytes) (a : Arg R) (st : ℕ)
      → IsValid c
      → IsSettable a
      → IsAddable a st
      → (c' : ConstClass R) × (add_class_property ft c n a st ≡ some c') × IsValid c'
  unfolding add_class_property set_property add_property
  put_property_lem ft c n a st v p q =
      let (d, e, held) = new_content-IsHeld ft a st q in
      let (ps, r, w, u) =
        or_add-All Property.name_of Property.Laws.IsHeld n
          (λ x. set_property_content ft a x.content >>= λ d'. some (record x { content = d' }))
          (new_content ft a st >>= λ d'. some (record { name = n; content = d'; qualifiers = [] }))
          (record { name = n; content = d; qualifiers = [] }) c.props v.props.1
          (λ x k.
            let (d', e', o) = set_property_content-IsOwned ft a x.content k.0 p in
            (record x { content = d' }, rw e' refl, refl, (o, k.1)))
          (rw e refl) (IsHeld-IsOwned d held, tt) refl in
      (
        record c { props = ps },
        rw r refl,
        record { props = (u v.props.0, w); qualifiers = v.qualifiers; methods = v.methods },
      )

  pub put_method_lem :
      (ft : ObjectFt R) (c : ConstClass R) (n : Bytes) (a : Arg R) (st : ℕ)
      → IsValid c
      → IsQualifierArg a
      → IsAddable a st
      → (c' : ConstClass R) × (add_class_method ft c n a st ≡ some c') × IsValid c'
  unfolding add_class_method set_method add_method
  put_method_lem ft c n a st v p q =
      let (d, e, held) = new_content-IsHeld ft a st q in
      let (ms, r, w, u) =
        or_add-All Method.name_of Method.Laws.IsReleasable n
          (λ x. set_qualifier_content ft a x.content >>= λ d'. some (record x { content = d' }))
          (new_content ft a st >>= λ d'.
            some (record { name = n; content = d'; parameters = []; qualifiers = [] }))
          (record { name = n; content = d; parameters = []; qualifiers = [] }) c.methods v.methods.1
          (λ x k.
            let (d', e', o) = set_qualifier_content-IsHeld ft a x.content k.0 p in
            (record x { content = d' }, rw e' refl, refl, (o, k.1, k.2)))
          (rw e refl) (held, tt, tt) refl in
      (
        record c { methods = ms },
        rw r refl,
        record { props = v.props; qualifiers = v.qualifiers; methods = (u v.methods.0, w) },
      )

  -- A copy of a class whose values fit their types, and whose parameters have none, succeeds, with
  -- the same name, qualifiers and methods, and the same properties but for the bits of absent
  -- values.
  pub clone_const_class_same :
      (ft : ObjectFt R) ⦃keeps : KeepsContent ft⦄ (c : ConstClass R)
      → All Property.name_of Property.Laws.IsSound c.props
      → AllSound c.qualifiers
      → All Method.name_of Method.Laws.IsSound c.methods
      → clone_const_class ft c ≡ some (record c { props = map settled_property c.props })
  unfolding clone_const_class
  clone_const_class_same ft c p q m =
      rw
        (
          clone_qualifiers_same ft c.qualifiers q,
          clone_properties_same ft c.props p,
          clone_methods_same ft c.methods m,
        )
        refl
