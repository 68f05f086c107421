-- ===== src/ConstClass/Lookup.antt =====
-- What the calls of the parser make of the look-ups in a class.
use sblim_sfcc.Base.{
  ℕ, ◌≡◌, refl, inl, inr, List, [], ◌∷◌, ◌++◌, Option, none, some, arith, if◌then◌else◌, ◌>>=◌,
  Option-cases, Bytes, same_name, same_name_refl,
}
use sblim_sfcc.Cmpi.{good_value, raw, ok, method_not_found, null_data, Data, ObjectFt, Arg}
use sblim_sfcc.ConstClass.{
  ConstClass, add_class_method_parameter, put_parameter, get_class_method_parameter,
  add_class_property, get_class_property,
}
use sblim_sfcc.Content.Laws.{IsAddable, IsSettable}
use sblim_sfcc.Content.{new_content, set_property_content}
use sblim_sfcc.Method
use sblim_sfcc.Method.{Method, get_method}
use sblim_sfcc.Named.Laws.{
  All, All-find, add_absent, change_absent, change_present, find-concat, find-replace, replace,
}
use sblim_sfcc.Named.{find, or_add}
use sblim_sfcc.Parameter
use sblim_sfcc.Parameter.Laws.{IsEmpty, retype_empty}
use sblim_sfcc.Parameter.{Parameter, retype, add_parameter, set_parameter, get_data_parameter}
use sblim_sfcc.Property
use sblim_sfcc.Property.Laws.{IsValid, add_property_new, set_property_found, set_property_missing}
use sblim_sfcc.Property.{Property, get_data_property}

module _ {R : Type 0} where
  abbrev pub parameter_data : ℕ → Data R
  parameter_data t = record { type = t; state = good_value; value = raw 0 }

  put_parameter_reads :
      (n : Bytes) (t : ℕ) (ps : List (Parameter R))
      → All Parameter.name_of IsEmpty ps
      → (ys : List (Parameter R)) × (put_parameter n t ps ≡ some ys)
        × ((m : Bytes)
            → get_data_parameter ys (some m)
              ≡ (if same_name n m then (parameter_data t, ok) else get_data_parameter ps (some m)))
  unfolding put_parameter or_add set_parameter add_parameter get_data_parameter
  put_parameter_reads n t ps h = elim (Option-cases (find Parameter.name_of n ps)) [
    | inl f ↦
        let x : Parameter R = record { name = n; content = parameter_data t } in
        (
          ps ++ x ∷ [],
          rw
              (
                change_absent Parameter.name_of n (retype t) ps f,
                add_absent Parameter.name_of n x ps f,
              )
              refl,
          λ m. rw (find-concat Parameter.name_of m ps x f) (ground arith),
        )
    | inr (x, f) ↦
        let k = All-find Parameter.name_of IsEmpty n ps x h f in
        let y : Parameter R = record x { content = parameter_data t } in
        (
          replace Parameter.name_of n y ps,
          rw (change_present Parameter.name_of n (retype t) ps x y f (retype_empty t x k)) refl,
          λ m. rw (find-replace Parameter.name_of n m ps x y f refl) (ground arith),
        )
  ]

  -- A parameter put in a method that the class has, whose parameters have no value, is found with
  -- its type, the state CMPI_goodValue and no value, and every other parameter of that method
  -- reads as before.
  pub add_class_method_parameter_lem :
      (c : ConstClass R) (mn pn : Bytes) (t : ℕ) (m : Method R)
      → find Method.name_of mn c.methods ≡ some m
      → All Parameter.name_of IsEmpty m.parameters
      → (c' : ConstClass R) × (add_class_method_parameter c mn pn t ≡ some (c', ok))
        × ((qn : Bytes)
            → get_class_method_parameter c' (some mn) (some qn) ≡ (
                if same_name pn qn
                then (parameter_data t, ok)
                else get_class_method_parameter c (some mn) (some qn)))
  unfolding add_class_method_parameter get_class_method_parameter get_method
  add_class_method_parameter_lem c mn pn t m f h =
      let (ps, e, reads) = put_parameter_reads pn t m.parameters h in
      let m' : Method R = record m { parameters = ps } in
      (
        record c { methods = replace Method.name_of mn m' c.methods },
        rw
            (change_present Method.name_of mn
              (λ x. put_parameter pn t x.parameters >>= λ qs. some (record x { parameters = qs }))
              c.methods m m' f (rw e refl))
            refl,
        λ qn.
            rw
              (
                get_class_method_parameter,
                find-replace Method.name_of mn mn c.methods m m' f refl,
                same_name_refl mn,
                f,
              )
              (reads qn),
      )

  -- A parameter for a method that the class does not have leaves the class as it is, with the
  -- status CMPI_RC_ERR_METHOD_NOT_FOUND, which a look-up of the parameter returns too.
  pub add_class_method_parameter_missing :
      (c : ConstClass R) (mn pn : Bytes) (t : ℕ)
      → find Method.name_of mn c.methods ≡ none
      → (add_class_method_parameter c mn pn t ≡ some (c, method_not_found))
        × (get_class_method_parameter c (some mn) (some pn) ≡ (null_data, method_not_found))
  unfolding add_class_method_parameter get_class_method_parameter get_method
  add_class_method_parameter_missing c mn pn t f = (
    rw
        (change_absent Method.name_of mn
          (λ x. put_parameter pn t x.parameters >>= λ qs. some (record x { parameters = qs }))
          c.methods f)
        refl,
    rw (get_class_method_parameter, f) refl,
  )

  -- What a property of that name holds after the call: a changed content, or a new one.
  abbrev pub upserted : ObjectFt R → Bytes → Arg R → ℕ → List (Property R) → Option (Data R)
  upserted ft n a st ps = elim (find Property.name_of n ps) [
    | none ↦ new_content ft a st
    | some x ↦ set_property_content ft a x.content
  ]

  -- A property put in a class with valid properties, new or not, with an argument and a state that
  -- are proper for both cases, makes no fault: its name reads the new or the changed content,
  -- every other name reads as before, and the properties stay valid.
  pub add_class_property_lem :
      (ft : ObjectFt R) (c : ConstClass R) (n : Bytes) (a : Arg R) (st : ℕ)
      → IsValid c.props
      → IsSettable a
      → IsAddable a st
      → (d : Data R) × (c' : ConstClass R) × (upserted ft n a st c.props ≡ some d)
        × (add_class_property ft c n a st ≡ some c')
        × IsValid c'.props
        × ((m : Bytes)
            → get_class_property c' (some m)
              ≡ (if same_name n m then (d, ok) else get_class_property c (some m)))
  unfolding add_class_property get_class_property or_add
  add_class_property_lem ft c n a st v h k = elim (Option-cases (find Property.name_of n c.props)) [
    | inl f ↦
        let (d, ps, e, r, w, _, m) = add_property_new ft n a st c.props v k f in
        (
          d,
          record c { props = ps },
          rw (f, upserted) e,
          rw (set_property_missing ft n a c.props f, r) refl,
          w,
          m,
        )
    | inr (x, f) ↦
        let (d, ps, e, r, w, _, m) = set_property_found ft n a c.props x v h f in
        (d, record c { props = ps }, rw (f, upserted) e, rw r refl, w, m)
  ]
