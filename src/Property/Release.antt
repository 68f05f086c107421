-- ===== src/Property/Release.antt =====
-- Any history of additions and changes, and the release at its end.
use sblim_sfcc.Base.{
  ℕ, ◌≡◌, refl, inl, inr, List, [], ◌∷◌, Option, some, arith, ◌>>=◌, Bytes, ◌+◌, ◌≤◌, Bool,
  if◌then◌else◌, ◌==◌, some-inj,
}
use mathlib.Core.Path.{subst}
use sblim_sfcc.Content.{new_content, set_property_content}
use sblim_sfcc.Content.History.{run}
use sblim_sfcc.Content.Objects.{
  node_count, freed_count, node_le, new_content-count, set_property_content-count,
}
use sblim_sfcc.Named.Total.{bind_some, total, add-total, change-total}
use sblim_sfcc.Cmpi.{Data, ObjectFt, Arg}
use sblim_sfcc.Content.Laws.{IsAddable, IsOwned, IsSettable, release_total}
use sblim_sfcc.Named.Laws.{All}
use sblim_sfcc.Property.Laws.{IsHeld}
use sblim_sfcc.Property.{
  Property, name_of, add_property, set_property, release_content, release_properties,
}
use sblim_sfcc.Qualifier.Laws.{release_qualifiers_total}

-- One call of addProperty or of setProperty.
pub data Edit (R : Type 0) : Type 0 where
  to_add : Bytes → Arg R → ℕ → Edit R
  to_set : Bytes → Arg R → Edit R

module _ {R : Type 0} where
  abbrev pub IsProper : Edit R → Type 0
  IsProper (to_add n a st) = IsAddable a st
  IsProper (to_set n a) = IsSettable a

  abbrev pub run_edit : ObjectFt R → Edit R → List (Property R) → Option (List (Property R))
  run_edit ft (to_add n a st) ps = add_property ft n a st ps >>= λ r. some r.1
  run_edit ft (to_set n a) ps = set_property ft n a ps >>= λ r. some r.1

  -- The calls from the one of number `now`, each with the function table of its time.
  abbrev pub run_edits :
      (ℕ → ObjectFt R) → ℕ → List (Edit R) → List (Property R) → Option (List (Property R))
  run_edits fts now es ps = run run_edit fts now es ps

  -- How often the release of the list frees the object of number `k`.
  abbrev pub property_objects : (R → ℕ) → ℕ → Property R → ℕ
  property_objects number k p =
      node_count number k p.content + total (λ q. freed_count number k q.content) p.qualifiers

  abbrev pub objects : (R → ℕ) → ℕ → List (Property R) → ℕ
  objects number k ps = total (property_objects number k) ps

  module _ (number : R → ℕ) (k now : ℕ) (ft : ObjectFt R)
      (made : (o : R) → number (ft.clone o) ≡ now) where
    pub add_property-objects :
        (n : Bytes) (a : Arg R) (st : ℕ) (ps : List (Property R)) (r : Bool × List (Property R))
        → add_property ft n a st ps ≡ some r
        → objects number k r.1 ≤ objects number k ps + (if now == k then 1 else 0)
    unfolding add_property
    add_property-objects n a st ps r h =
        add-total name_of (property_objects number k) (if now == k then 1 else 0) n
          (new_content ft a st >>= λ d. some (record { name = n; content = d; qualifiers = [] })) ps
          r
          (λ y e.
            let (d, f, g) = bind_some (new_content ft a st) _ y e in
            let c =
              node_le number k ft now made d (new_content-count number k ft now made a st d f) in
            subst (λ z. property_objects number k z ≤ (if now == k then 1 else 0))
              (some-inj (record { name = n; content = d; qualifiers = [] }) y g) (omega (arith, c)))
          h

    pub set_property-objects :
        (n : Bytes) (a : Arg R) (ps : List (Property R)) (r : Bool × List (Property R))
        → set_property ft n a ps ≡ some r
        → objects number k r.1 ≤ objects number k ps + (if now == k then 1 else 0)
    unfolding set_property
    set_property-objects n a ps r h =
        change-total name_of (property_objects number k) (if now == k then 1 else 0) n
          (λ p. set_property_content ft a p.content >>= λ d. some (record p { content = d })) ps r
          (λ x y e.
            let (d, f, g) = bind_some (set_property_content ft a x.content) _ y e in
            let c = set_property_content-count number k ft now made a x.content d f in
            subst
              (λ z.
                property_objects number k z
                ≤ property_objects number k x + (if now == k then 1 else 0))
              (some-inj (record x { content = d }) y g) (omega (arith, c)))
          h

  release_content_total : (d : Data R) → IsOwned d → release_content d ≡ some tt
  unfolding release_content
  release_content_total d (inl e) = rw e refl
  release_content_total d (inr (e, r)) =
      let (w, eq) = release_total d.type d.value r in rw eq (ground arith)

  pub release_properties_total :
      (ps : List (Property R)) → All name_of IsHeld ps → release_properties ps ≡ some tt
  unfolding release_properties
  release_properties_total [] h = refl
  release_properties_total (p ∷ ps) h =
      rw
        (
          release_content_total p.content h.0.0,
          release_qualifiers_total p.qualifiers h.0.1,
          release_properties_total ps h.1,
        )
        refl
