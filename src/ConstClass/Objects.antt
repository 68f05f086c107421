-- ===== src/ConstClass/Objects.antt =====
-- The objects that the release of a class frees, and what a call of the parser adds to them.
use mathlib.Core.Path.{subst}
use sblim_sfcc.Base.{
  ap, ◌∙◌, ℕ, ◌+◌, ◌≤◌, ◌≡◌, Bool, List, [], Option, some, arith, ◌==◌, if◌then◌else◌, ◌>>=◌,
  some-inj, Bytes,
}
use sblim_sfcc.Cmpi.{good_value, Status, ok, no_such_property, method_not_found, ObjectFt, Arg}
use sblim_sfcc.ConstClass.{
  ConstClass, add_class_property, put_qualifier, add_class_qualifier, add_class_property_qualifier,
  add_class_method, add_class_method_qualifier, put_parameter, add_class_method_parameter,
}
use sblim_sfcc.ConstClass.Laws.{
  ClassEdit, property, qualifier, property_qualifier, method, method_qualifier, method_parameter,
  run_edit,
}
use sblim_sfcc.Content.{new_content, set_qualifier_content, set_property_content}
use sblim_sfcc.Content.Objects.{
  freed_count, node_le, new_content-count, set_qualifier_content-count, set_property_content-count,
}
use sblim_sfcc.Method
use sblim_sfcc.Method.{Method, set_method, add_method}
use sblim_sfcc.Method.Release.{method_objects}
use sblim_sfcc.Named.{change}
use sblim_sfcc.Named.Total.{bind_some, total, change-total, or_add-total}
use sblim_sfcc.Property
use sblim_sfcc.Property.{Property, set_property, add_property}
use sblim_sfcc.Property.Release.{property_objects}
use sblim_sfcc.Qualifier
use sblim_sfcc.Qualifier.{Qualifier, set_qualifier, add_qualifier}

module _ {R : Type 0} where
  abbrev pub qualifier_objects : (R → ℕ) → ℕ → Qualifier R → ℕ
  qualifier_objects number k q = freed_count number k q.content

  -- How often the release of the class frees the object of number `k`. The parameters of a valid
  -- class have no value.
  abbrev pub class_objects : (R → ℕ) → ℕ → ConstClass R → ℕ
  class_objects number k c =
      total (property_objects number k) c.props
      + total (qualifier_objects number k) c.qualifiers
      + total (method_objects number k) c.methods

  -- What a change in the methods returns.
  abbrev changed : ConstClass R → Bool × List (Method R) → ConstClass R × Status
  changed c r = (record c { methods = r.1 }, if r.0 then ok else method_not_found)

  module _ (number : R → ℕ) (k now : ℕ) (ft : ObjectFt R)
      (made : (o : R) → number (ft.clone o) ≡ now) where
    put_qualifier-objects :
        (n : Bytes) (a : Arg R) (qs ys : List (Qualifier R))
        → put_qualifier ft n a qs ≡ some ys
        → total (qualifier_objects number k) ys
          ≤ total (qualifier_objects number k) qs + (if now == k then 1 else 0)
    unfolding put_qualifier set_qualifier add_qualifier
    put_qualifier-objects n a qs ys h =
        or_add-total Qualifier.name_of (qualifier_objects number k) (if now == k then 1 else 0) n
          (λ x. set_qualifier_content ft a x.content >>= λ d. some (record x { content = d }))
          (new_content ft a good_value >>= λ d. some (record { name = n; content = d })) qs ys
          (λ x y e.
            let (d, f, g) = bind_some (set_qualifier_content ft a x.content) _ y e in
            let c = set_qualifier_content-count number k ft now made a x.content d f in
            subst
              (λ z.
                qualifier_objects number k z
                ≤ qualifier_objects number k x + (if now == k then 1 else 0))
              (some-inj (record x { content = d }) y g) (omega (arith, c)))
          (λ y e.
            let (d, f, g) = bind_some (new_content ft a good_value) _ y e in
            subst (λ z. qualifier_objects number k z ≤ (if now == k then 1 else 0))
              (some-inj (record { name = n; content = d }) y g)
              (new_content-count number k ft now made a good_value d f))
          h

    put_property-objects :
        (n : Bytes) (a : Arg R) (st : ℕ) (c c' : ConstClass R)
        → add_class_property ft c n a st ≡ some c'
        → class_objects number k c' ≤ class_objects number k c + (if now == k then 1 else 0)
    unfolding add_class_property set_property add_property
    put_property-objects n a st c c' h =
        let (ps, r, s) = bind_some _ _ c' h in
        let t =
          or_add-total Property.name_of (property_objects number k) (if now == k then 1 else 0) n
            (λ x. set_property_content ft a x.content >>= λ d. some (record x { content = d }))
            (new_content ft a st >>= λ d. some (record { name = n; content = d; qualifiers = [] }))
            c.props ps
            (λ x y e.
              let (d, f, g) = bind_some (set_property_content ft a x.content) _ y e in
              let m = set_property_content-count number k ft now made a x.content d f in
              subst
                (λ z.
                  property_objects number k z
                  ≤ property_objects number k x + (if now == k then 1 else 0))
                (some-inj (record x { content = d }) y g) (omega (arith, m)))
            (λ y e.
              let (d, f, g) = bind_some (new_content ft a st) _ y e in
              let m =
                node_le number k ft now made d (new_content-count number k ft now made a st d f) in
              subst (λ z. property_objects number k z ≤ (if now == k then 1 else 0))
                (some-inj (record { name = n; content = d; qualifiers = [] }) y g)
                (omega (arith, m)))
            r in
        subst
          (λ z. class_objects number k z ≤ class_objects number k c + (if now == k then 1 else 0))
          (some-inj (record c { props = ps }) c' s) (omega (arith, t))

    put_method-objects :
        (n : Bytes) (a : Arg R) (st : ℕ) (c c' : ConstClass R)
        → add_class_method ft c n a st ≡ some c'
        → class_objects number k c' ≤ class_objects number k c + (if now == k then 1 else 0)
    unfolding add_class_method set_method add_method
    put_method-objects n a st c c' h =
        let (ms, r, s) = bind_some _ _ c' h in
        let t =
          or_add-total Method.name_of (method_objects number k) (if now == k then 1 else 0) n
            (λ x. set_qualifier_content ft a x.content >>= λ d. some (record x { content = d }))
            (new_content ft a st >>= λ d.
              some (record { name = n; content = d; parameters = []; qualifiers = [] }))
            c.methods ms
            (λ x y e.
              let (d, f, g) = bind_some (set_qualifier_content ft a x.content) _ y e in
              let m =
                node_le number k ft now made d
                  (set_qualifier_content-count number k ft now made a x.content d f) in
              subst
                (λ z.
                  method_objects number k z
                  ≤ method_objects number k x + (if now == k then 1 else 0))
                (some-inj (record x { content = d }) y g) (omega (arith, m)))
            (λ y e.
              let (d, f, g) = bind_some (new_content ft a st) _ y e in
              let m =
                node_le number k ft now made d (new_content-count number k ft now made a st d f) in
              subst (λ z. method_objects number k z ≤ (if now == k then 1 else 0))
                (some-inj (record { name = n; content = d; parameters = []; qualifiers = [] }) y g)
                (omega (arith, m)))
            r in
        subst
          (λ z. class_objects number k z ≤ class_objects number k c + (if now == k then 1 else 0))
          (some-inj (record c { methods = ms }) c' s) (omega (arith, t))

    change_property-objects :
        (pn qn : Bytes) (a : Arg R) (c c' : ConstClass R)
        → (add_class_property_qualifier ft c pn qn a >>= λ r. some r.0) ≡ some c'
        → class_objects number k c' ≤ class_objects number k c + (if now == k then 1 else 0)
    unfolding add_class_property_qualifier
    change_property-objects pn qn a c c' h =
        let (x, e, g) = bind_some (add_class_property_qualifier ft c pn qn a) _ c' h in
        let (r, l, s) = bind_some _ _ x e in
        let t =
          change-total Property.name_of (property_objects number k) (if now == k then 1 else 0) pn
            (λ p. put_qualifier ft qn a p.qualifiers >>= λ qs. some (record p { qualifiers = qs }))
            c.props r
            (λ y z f.
              let (qs, m, o) = bind_some (put_qualifier ft qn a y.qualifiers) _ z f in
              let u = put_qualifier-objects qn a y.qualifiers qs m in
              subst
                (λ w.
                  property_objects number k w
                  ≤ property_objects number k y + (if now == k then 1 else 0))
                (some-inj (record y { qualifiers = qs }) z o) (omega (arith, u)))
            l in
        subst
          (λ z. class_objects number k z ≤ class_objects number k c + (if now == k then 1 else 0))
          (ap (λ z. z.0)
              (some-inj (record c { props = r.1 }, if r.0 then ok else no_such_property) x s)
            ∙ some-inj x.0 c' g)
          (omega (arith, t))

    change_method-objects :
        (f : Method R → Option (Method R)) (mn : Bytes) (c c' : ConstClass R)
        → ((y z : Method R)
            → f y ≡ some z
            → method_objects number k z ≤ method_objects number k y + (if now == k then 1 else 0))
        → ((change Method.name_of mn f c.methods >>= λ r. some (changed c r)) >>= λ r. some r.0)
          ≡ some c'
        → class_objects number k c' ≤ class_objects number k c + (if now == k then 1 else 0)
    change_method-objects f mn c c' step h =
        let (x, e, g) = bind_some _ _ c' h in
        let (r, l, s) = bind_some _ _ x e in
        let t =
          change-total Method.name_of (method_objects number k) (if now == k then 1 else 0) mn f
            c.methods r step l in
        subst
          (λ z. class_objects number k z ≤ class_objects number k c + (if now == k then 1 else 0))
          (ap (λ z. z.0) (some-inj (changed c r) x s) ∙ some-inj x.0 c' g) (omega (arith, t))

    -- A call adds no object to those that the release frees but one that it makes itself.
    pub run_edit-objects :
        (e : ClassEdit R) (c c' : ConstClass R)
        → run_edit ft e c ≡ some c'
        → class_objects number k c' ≤ class_objects number k c + (if now == k then 1 else 0)
    unfolding add_class_qualifier add_class_method_qualifier add_class_method_parameter
    run_edit-objects (property n a st) c c' h = put_property-objects n a st c c' h
    run_edit-objects (qualifier n a) c c' h =
        let (qs, e, g) = bind_some (put_qualifier ft n a c.qualifiers) _ c' h in
        let t = put_qualifier-objects n a c.qualifiers qs e in
        subst
          (λ z. class_objects number k z ≤ class_objects number k c + (if now == k then 1 else 0))
          (some-inj (record c { qualifiers = qs }) c' g) (omega (arith, t))
    run_edit-objects (property_qualifier pn qn a) c c' h = change_property-objects pn qn a c c' h
    run_edit-objects (method n a st) c c' h = put_method-objects n a st c c' h
    run_edit-objects (method_qualifier mn qn a) c c' h =
        change_method-objects
          (λ m. put_qualifier ft qn a m.qualifiers >>= λ qs. some (record m { qualifiers = qs })) mn
          c c'
          (λ y z f.
            let (qs, m, o) = bind_some (put_qualifier ft qn a y.qualifiers) _ z f in
            let u = put_qualifier-objects qn a y.qualifiers qs m in
            subst
              (λ w.
                method_objects number k w ≤ method_objects number k y + (if now == k then 1 else 0))
              (some-inj (record y { qualifiers = qs }) z o) (omega (arith, u)))
          h
    run_edit-objects (method_parameter mn pn t) c c' h =
        change_method-objects
          (λ m. put_parameter pn t m.parameters >>= λ ps. some (record m { parameters = ps })) mn c
          c'
          (λ y z f.
            let (ps, m, o) = bind_some (put_parameter pn t y.parameters) _ z f in
            subst
              (λ w.
                method_objects number k w ≤ method_objects number k y + (if now == k then 1 else 0))
              (some-inj (record y { parameters = ps }) z o) (omega arith))
          h
