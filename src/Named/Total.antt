-- ===== src/Named/Total.antt =====
-- A sum over the nodes of a list, and what an addition and a change do to it.
use sblim_sfcc.Base.{
  ℕ, ◌+◌, ◌≤◌, ◌≡◌, ap, inl, inr, Bool, true, false, List, [], ◌∷◌, Option, none, some, arith,
  ◌>>=◌, Option-cases, Bool-cases, some-inj, Bytes, same_name, refl, sym, ◌∙◌,
}
use sblim_sfcc.Named.{add, change, or_add}
use mathlib.Core.Path.{subst}

-- What a chain of two steps gives is given by its second step.
pub bind_some :
    {A B : Type 0} (o : Option A) (f : A → Option B) (y : B)
    → (o >>= f) ≡ some y
    → (x : A) × (o ≡ some x) × (f x ≡ some y)
bind_some none f y h = ground arith
bind_some (some x) f y h = (x, refl, h)

abbrev pub total : {N : Type 0} → (N → ℕ) → List N → ℕ
total w [] = 0
total w (x ∷ xs) = w x + total w xs

module _ {N : Type 0} (name_of : N → Bytes) (w : N → ℕ) (more : ℕ) where
  -- A change of a node that adds no more than `more` to it adds no more to the sum.
  pub change-total :
      (n : Bytes) (f : N → Option N) (xs : List N) (r : Bool × List N)
      → ((x y : N) → f x ≡ some y → w y ≤ w x + more)
      → change name_of n f xs ≡ some r
      → total w r.1 ≤ total w xs + more
  unfolding change
  change-total n f [] r step h =
      let same : (false, []) ≡ r = some-inj (false, []) r h in
      subst (λ q. total w q.1 ≤ 0 + more) same (omega arith)
  change-total n f (x ∷ xs) r step h = elim (Bool-cases (same_name (name_of x) n)) [
    | inl e ↦ elim (Option-cases (f x)) [
      | inl k ↦ let no = rw (change, e, k) at h in ground arith
      | inr (y, k) ↦
          let same : (true, y ∷ xs) ≡ r = some-inj (true, y ∷ xs) r (rw (change, e, k) at h) in
          subst (λ q. total w q.1 ≤ total w (x ∷ xs) + more) same (omega (arith, step x y k))
    ]
    | inr e ↦ elim (Option-cases (change name_of n f xs)) [
      | inl k ↦ let no = rw (change, e, k) at h in ground arith
      | inr (s, k) ↦
          let same : (s.0, x ∷ s.1) ≡ r = some-inj (s.0, x ∷ s.1) r (rw (change, e, k) at h) in
          subst (λ q. total w q.1 ≤ total w (x ∷ xs) + more) same
            (omega (arith, change-total n f xs s step k))
    ]
  ]

  -- The addition of a node of no more than `more`.
  pub add-total :
      (n : Bytes) (fresh : Option N) (xs : List N) (r : Bool × List N)
      → ((y : N) → fresh ≡ some y → w y ≤ more)
      → add name_of n fresh xs ≡ some r
      → total w r.1 ≤ total w xs + more
  unfolding add
  add-total n fresh [] r step h = elim (Option-cases fresh) [
    | inl k ↦ let no = rw k at h in ground arith
    | inr (y, k) ↦
        let same : (false, y ∷ []) ≡ r = some-inj (false, y ∷ []) r (rw k at h) in
        subst (λ q. total w q.1 ≤ 0 + more) same (omega (arith, step y k))
  ]
  add-total n fresh (x ∷ xs) r step h = elim (Bool-cases (same_name (name_of x) n)) [
    | inl e ↦
        let same : (true, x ∷ xs) ≡ r = some-inj (true, x ∷ xs) r (rw (add, e) at h) in
        subst (λ q. total w q.1 ≤ total w (x ∷ xs) + more) same (omega arith)
    | inr e ↦ elim (Option-cases (add name_of n fresh xs)) [
      | inl k ↦ let no = rw (add, e, k) at h in ground arith
      | inr (s, k) ↦
          let same : (s.0, x ∷ s.1) ≡ r = some-inj (s.0, x ∷ s.1) r (rw (add, e, k) at h) in
          subst (λ q. total w q.1 ≤ total w (x ∷ xs) + more) same
            (omega (arith, add-total n fresh xs s step k))
    ]
  ]

  change-unchanged :
      (n : Bytes) (f : N → Option N) (xs : List N) (r : Bool × List N)
      → change name_of n f xs ≡ some r
      → r.0 ≡ false
      → r.1 ≡ xs
  unfolding change
  change-unchanged n f [] r h b = sym (ap (λ q. q.1) (some-inj (false, []) r h))
  change-unchanged n f (x ∷ xs) r h b = elim (Bool-cases (same_name (name_of x) n)) [
    | inl e ↦
        let (y, k, g) = bind_some (f x) _ r (rw (change, e) at h) in
        let flag : true ≡ r.0 = ap (λ q. q.0) (some-inj (true, y ∷ xs) r g) in
        absurd (ground (arith, flag, b))
    | inr e ↦
        let (s, k, g) = bind_some (change name_of n f xs) _ r (rw (change, e) at h) in
        let same : (s.0, x ∷ s.1) ≡ r = some-inj (s.0, x ∷ s.1) r g in
        sym (ap (λ q. q.1) same)
        ∙ ap (λ q. x ∷ q) (change-unchanged n f xs s k (ap (λ q. q.0) same ∙ b))
  ]

  -- A change of a node, or the addition of one, of which each adds no more than `more`.
  pub or_add-total :
      (n : Bytes) (f : N → Option N) (fresh : Option N) (xs ys : List N)
      → ((x y : N) → f x ≡ some y → w y ≤ w x + more)
      → ((y : N) → fresh ≡ some y → w y ≤ more)
      → or_add (change name_of n f xs) (add name_of n fresh) ≡ some ys
      → total w ys ≤ total w xs + more
  unfolding or_add
  or_add-total n f fresh xs ys step first h =
      let (r, k, g) = bind_some (change name_of n f xs) _ ys h in
      elim (Bool-cases r.0) [
        | inl e ↦
            subst (λ z. total w z ≤ total w xs + more) (some-inj r.1 ys (rw e at g))
              (change-total n f xs r step k)
        | inr e ↦
            let (s, l, m) = bind_some (add name_of n fresh r.1) _ ys (rw e at g) in
            let c = add-total n fresh r.1 s first l in
            subst (λ z. total w z ≤ total w xs + more) (some-inj s.1 ys m)
              (omega (arith, c, ap (λ z. total w z) (change-unchanged n f xs r k e)))
      ]
