-- ===== src/Content/History.antt =====
-- A sequence of calls on a structure of contents, each with the function table of its time: the
-- objects that a call makes are told apart from those of every other call by its number.
use sblim_sfcc.Base.{
  ℕ, suc, ◌+◌, ◌≤◌, ◌≡◌, refl, inl, inr, List, [], ◌∷◌, Option, some, arith, ◌==◌, ltb,
  if◌then◌else◌, ◌>>=◌, Option-cases, some-inj, length,
}
use sblim_sfcc.Cmpi.{ObjectFt}
use sblim_sfcc.Content.Objects.{Numbers}
use mathlib.Core.Path.{subst}

abbrev pub Each : {E : Type 0} → (E → Type 0) → List E → Type 0
Each Q [] = Unit {0}
Each Q (e ∷ es) = Q e × Each Q es

module _ {R E X : Type 0} (step : ObjectFt R → E → X → Option X) where
  -- The calls, from the one of number `now`.
  abbrev pub run : (ℕ → ObjectFt R) → ℕ → List E → X → Option X
  run fts now [] x = some x
  run fts now (e ∷ es) x = step (fts now) e x >>= run fts (suc now) es

  -- What each call keeps, all of them keep, and none of them makes a fault.
  pub run-Each :
      (P : X → Type 0) (Q : E → Type 0)
      → ((ft : ObjectFt R) (e : E) (x : X) → P x → Q e → (y : X) × (step ft e x ≡ some y) × P y)
      → (fts : ℕ → ObjectFt R) (now : ℕ) (es : List E) (x : X) → P x
      → Each Q es
      → (y : X) × (run fts now es x ≡ some y) × P y
  run-Each P Q keep fts now [] x p q = (x, refl, p)
  run-Each P Q keep fts now (e ∷ es) x p q =
      let (y, eq, r) = keep (fts now) e x p q.0 in
      rw eq (run-Each P Q keep fts (suc now) es y r q.1)

  -- Where a call adds no object but one of its own number, no object is there twice at the end, and
  -- each was there before or was made by one of the calls.
  pub run-count :
      (number : R → ℕ) (count : ℕ → X → ℕ)
      → ((k now : ℕ) (ft : ObjectFt R) (made : (o : R) → number (ft.clone o) ≡ now) (e : E)
            (x y : X)
          → step ft e x ≡ some y
          → count k y ≤ count k x + (if now == k then 1 else 0))
      → (fts : ℕ → ObjectFt R) → Numbers number fts
      → (k now : ℕ) (es : List E) (x y : X) → count k x ≤ (if ltb k now then 1 else 0)
      → run fts now es x ≡ some y
      → count k y ≤ (if ltb k (now + length es) then 1 else 0)
  run-count number count grow fts made k now [] x y h r =
      subst (λ z. count k z ≤ (if ltb k (now + 0) then 1 else 0)) (some-inj x y r)
        (ground (arith, h))
  run-count number count grow fts made k now (e ∷ es) x y h r =
      elim (Option-cases (step (fts now) e x)) [
        | inl n ↦ let no = rw n at r in ground arith
        | inr (z, s) ↦
            let g = grow k now (fts now) (made now) e x z s in
            let c : count k z ≤ (if ltb k (suc now) then 1 else 0) = ground (arith, g, h) in
            let l = run-count number count grow fts made k (suc now) es z y c (rw s at r) in
            ground (arith, l)
      ]
