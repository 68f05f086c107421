-- ===== src/Named/Change.antt =====
-- What an addition and a change keep of a list of named nodes.
use sblim_sfcc.Base.{
  ◌≡◌, refl, inl, inr, Bool, true, false, List, [], ◌∷◌, ◌++◌, Option, some, Option-cases,
  Bool-cases, ◌>>=◌, Bytes,
}
use sblim_sfcc.Named.Laws.{
  IsUnique, add_present, add_absent, replace, change_absent, change_present, IsUnique-concat,
  IsUnique-replace, All, All-concat, All-replace, All-find,
}
use sblim_sfcc.Named.{find, add, change, or_add}

module _ {N : Type 0} (name_of : N → Bytes) (P : N → Type 0) where
  -- A change of a node that keeps its name and `P` keeps `P` of every node and makes no fault.
  pub change-All :
      (n : Bytes) (f : N → Option N) (xs : List N)
      → All name_of P xs
      → ((x : N) → P x → (y : N) × (f x ≡ some y) × (name_of y ≡ name_of x) × P y)
      → (r : Bool × List N) × (change name_of n f xs ≡ some r)
        × All name_of P r.1
        × (IsUnique name_of xs → IsUnique name_of r.1)
  change-All n f xs h step = elim (Option-cases (find name_of n xs)) [
    | inl e ↦ ((false, xs), change_absent name_of n f xs e, h, λ u. u)
    | inr (x, e) ↦
        let (y, s, k, p) = step x (All-find name_of P n xs x h e) in
        (
          (true, replace name_of n y xs),
          change_present name_of n f xs x y e s,
          All-replace name_of P n xs y h p,
          λ u. IsUnique-replace name_of n y xs x u e k,
        )
  ]

  -- The addition of a node with `P` keeps `P` of every node and makes no fault.
  pub add-All :
      (x : N) (xs : List N)
      → All name_of P xs
      → P x
      → (ys : List N) × ((add name_of (name_of x) (some x) xs >>= λ r. some r.1) ≡ some ys)
        × All name_of P ys
        × (IsUnique name_of xs → IsUnique name_of ys)
  add-All x xs h p = elim (Option-cases (find name_of (name_of x) xs)) [
    | inl e ↦ (
      xs ++ x ∷ [],
      rw (add_absent name_of (name_of x) x xs e) refl,
      All-concat name_of P xs x h p,
      λ u. IsUnique-concat name_of xs x u e,
    )
    | inr (y, e) ↦ (xs, rw (add_present name_of (name_of x) (some x) xs y e) refl, h, λ u. u)
  ]

-- A change of the node of that name, and where there is none the addition of a fresh node with `P`,
-- keeps `P` of every node, keeps names apart and makes no fault.
pub or_add-All :
    {N : Type 0} (name_of : N → Bytes) (P : N → Type 0) (n : Bytes) (f : N → Option N)
    (fresh : Option N) (x : N) (xs : List N)
    → All name_of P xs
    → ((y : N) → P y → (z : N) × (f y ≡ some z) × (name_of z ≡ name_of y) × P z)
    → fresh ≡ some x
    → P x
    → name_of x ≡ n
    → (ys : List N) × (or_add (change name_of n f xs) (add name_of n fresh) ≡ some ys)
      × All name_of P ys
      × (IsUnique name_of xs → IsUnique name_of ys)
unfolding or_add
or_add-All name_of P n f fresh x xs h step e p k =
    let (r, c, v, u) = change-All name_of P n f xs h step in
    let (ys, a, w, t) = add-All name_of P x r.1 v p in
    let a' : (add name_of n (some x) r.1 >>= λ s. some s.1) ≡ some ys = rw k at a in
    elim (Bool-cases r.0) [
      | inl b ↦ (r.1, rw (c, b) refl, v, u)
      | inr b ↦ (ys, rw (c, b, e) a', w, λ q. t (u q))
    ]
