-- ===== src/Method/Release.antt =====
-- Any history of additions and changes of methods, and the release at its end.
use mathlib.Core.Path.{subst}
use sblim_sfcc.Base.{
  ℕ, ◌+◌, ◌≤◌, ◌≡◌, Bool, List, [], some, arith, ◌==◌, if◌then◌else◌, ◌>>=◌, some-inj, Bytes,
}
use sblim_sfcc.Cmpi.{ObjectFt, Arg}
use sblim_sfcc.Content.{new_content, set_qualifier_content}
use sblim_sfcc.Content.Objects.{
  node_count, freed_count, node_le, new_content-count, set_qualifier_content-count,
}
use sblim_sfcc.Method.{Method, name_of, add_method, set_method}
use sblim_sfcc.Named.Total.{bind_some, total, add-total, change-total}

module _ {R : Type 0} where
  -- How often the release of a list of methods frees the object of number `k`, with that of their
  -- qualifiers. The parameters of a valid list have no value.
  abbrev pub method_objects : (R → ℕ) → ℕ → Method R → ℕ
  method_objects number k m =
      node_count number k m.content + total (λ q. freed_count number k q.content) m.qualifiers

  abbrev pub objects : (R → ℕ) → ℕ → List (Method R) → ℕ
  objects number k ms = total (method_objects number k) ms

  module _ (number : R → ℕ) (k now : ℕ) (ft : ObjectFt R)
      (made : (o : R) → number (ft.clone o) ≡ now) where
    pub add_method-objects :
        (n : Bytes) (a : Arg R) (st : ℕ) (ms : List (Method R)) (r : Bool × List (Method R))
        → add_method ft n a st ms ≡ some r
        → objects number k r.1 ≤ objects number k ms + (if now == k then 1 else 0)
    unfolding add_method
    add_method-objects n a st ms r h =
        add-total name_of (method_objects number k) (if now == k then 1 else 0) n
          (new_content ft a st >>= λ d.
            some (record { name = n; content = d; parameters = []; qualifiers = [] }))
          ms r
          (λ y e.
            let (d, f, g) = bind_some (new_content ft a st) _ y e in
            let c =
              node_le number k ft now made d (new_content-count number k ft now made a st d f) in
            subst (λ z. method_objects number k z ≤ (if now == k then 1 else 0))
              (some-inj (record { name = n; content = d; parameters = []; qualifiers = [] }) y g)
              (omega (arith, c)))
          h

    pub set_method-objects :
        (n : Bytes) (a : Arg R) (ms : List (Method R)) (r : Bool × List (Method R))
        → set_method ft n a ms ≡ some r
        → objects number k r.1 ≤ objects number k ms + (if now == k then 1 else 0)
    unfolding set_method
    set_method-objects n a ms r h =
        change-total name_of (method_objects number k) (if now == k then 1 else 0) n
          (λ m. set_qualifier_content ft a m.content >>= λ d. some (record m { content = d })) ms r
          (λ x y e.
            let (d, f, g) = bind_some (set_qualifier_content ft a x.content) _ y e in
            let c =
              node_le number k ft now made d
                (set_qualifier_content-count number k ft now made a x.content d f) in
            subst
              (λ z.
                method_objects number k z ≤ method_objects number k x + (if now == k then 1 else 0))
              (some-inj (record x { content = d }) y g) (omega (arith, c)))
          h
