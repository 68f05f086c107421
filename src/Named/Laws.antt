-- ===== src/Named/Laws.antt =====
-- The laws of the lists of named nodes: a list with no name twice is a map from names to nodes.
use mathlib.Core.List.{reverse, reverse-append}
use mathlib.Core.Path.{subst}
use sblim_sfcc.Base.{
  ℕ, zero, suc, ◌+◌, ◌-◌, ◌<◌, ◌≤◌, ◌≡◌, refl, inl, inr, true, false, List, [], ◌∷◌, ◌++◌, Option,
  none, some, arith, ◌==◌, if◌then◌else◌, Bool-cases, some-inj, length, Bytes, same_name,
  same_name_refl, same_name_comm, same_name_congr, same_name_congr_right,
}
use sblim_sfcc.Named.{find, add, change, find_at, count_from, count}

module _ {N : Type 0} where
  pub count_from-length : (c : ℕ) (xs : List N) → count_from c xs ≡ c + length xs
  unfolding count_from
  count_from-length c [] = omega arith
  count_from-length c (x ∷ xs) = omega (arith, count_from-length (c + 1) xs)

  pub count-length : (xs : List N) → count xs ≡ length xs
  count-length xs = omega (arith, count_from-length 0 xs)

  -- Positions below the count hold a node, and no others.
  pub find_at-none : (xs : List N) (i : ℕ) → length xs ≤ i → find_at xs i ≡ none
  unfolding find_at
  find_at-none [] i h = refl
  find_at-none (x ∷ xs) i h = ground (arith, find_at-none xs (i - 1))

  pub find_at-some : (xs : List N) (i : ℕ) → i < length xs → (x : N) × (find_at xs i ≡ some x)
  unfolding find_at
  find_at-some [] i h = elim h [ ]
  find_at-some (x ∷ xs) zero h = (x, refl)
  find_at-some (x ∷ xs) (suc i) h =
      let (y, e) = find_at-some xs i (omega arith) in (y, ground arith)

module _ {N : Type 0} (name_of : N → Bytes) where
  -- No name stands twice.
  abbrev pub IsUnique : List N → Type 0
  IsUnique [] = Unit {0}
  IsUnique (x ∷ xs) = (find name_of (name_of x) xs ≡ none) × IsUnique xs

  pub find_name :
      (n : Bytes) (xs : List N) (x : N)
      → find name_of n xs ≡ some x
      → same_name (name_of x) n ≡ true
  unfolding find
  find_name n [] x h = ground arith
  find_name n (y ∷ xs) x h = ground (arith, find_name n xs x)

  pub find_congr :
      (n m : Bytes) (xs : List N) → same_name n m ≡ true → find name_of n xs ≡ find name_of m xs
  unfolding find
  find_congr n m [] h = refl
  find_congr n m (x ∷ xs) h =
      ground (arith, same_name_congr_right (name_of x) n m h, find_congr n m xs h)

  pub find-concat :
      (n : Bytes) (xs : List N) (x : N)
      → find name_of (name_of x) xs ≡ none
      → find name_of n (xs ++ x ∷ [])
        ≡ (if same_name (name_of x) n then some x else find name_of n xs)
  unfolding find
  find-concat n [] x h = refl
  find-concat n (y ∷ xs) x h = ground (
    arith,
    find-concat n xs x,
    same_name_congr (name_of y) n (name_of x),
    same_name_comm n (name_of x),
    same_name_comm (name_of y) n,
  )

  pub add_present :
      (n : Bytes) (fresh : Option N) (xs : List N) (x : N)
      → find name_of n xs ≡ some x
      → add name_of n fresh xs ≡ some (true, xs)
  unfolding find add
  add_present n fresh [] x h = ground arith
  add_present n fresh (y ∷ xs) x h = ground (arith, add_present n fresh xs x)

  pub add_absent :
      (n : Bytes) (x : N) (xs : List N)
      → find name_of n xs ≡ none
      → add name_of n (some x) xs ≡ some (false, xs ++ x ∷ [])
  unfolding find add
  add_absent n x [] h = refl
  add_absent n x (y ∷ xs) h = ground (arith, add_absent n x xs)

  -- The first node of a name replaced.
  abbrev pub replace : Bytes → N → List N → List N
  replace n z [] = []
  replace n z (x ∷ xs) = if same_name (name_of x) n then z ∷ xs else x ∷ replace n z xs

  pub change_absent :
      (n : Bytes) (f : N → Option N) (xs : List N)
      → find name_of n xs ≡ none
      → change name_of n f xs ≡ some (false, xs)
  unfolding find change
  change_absent n f [] h = refl
  change_absent n f (y ∷ xs) h = ground (arith, change_absent n f xs)

  pub change_present :
      (n : Bytes) (f : N → Option N) (xs : List N) (x y : N)
      → find name_of n xs ≡ some x
      → f x ≡ some y
      → change name_of n f xs ≡ some (true, replace n y xs)
  unfolding find change
  change_present n f [] x y h e = ground arith
  change_present n f (z ∷ xs) x y h e = ground (arith, change_present n f xs x y)

  pub find-replace :
      (n m : Bytes) (xs : List N) (x y : N)
      → find name_of n xs ≡ some x
      → name_of y ≡ name_of x
      → find name_of m (replace n y xs) ≡ (if same_name n m then some y else find name_of m xs)
  unfolding find
  find-replace n m [] x y h e = ground arith
  find-replace n m (z ∷ xs) x y h e = ground (
    arith,
    find-replace n m xs x y,
    same_name_congr (name_of z) n m,
    same_name_congr_right (name_of z) n m,
  )

  pub length-replace : (n : Bytes) (y : N) (xs : List N) → length (replace n y xs) ≡ length xs
  length-replace n y [] = refl
  length-replace n y (z ∷ xs) = ground (arith, length-replace n y xs)

  pub IsUnique-concat :
      (xs : List N) (x : N)
      → IsUnique xs
      → find name_of (name_of x) xs ≡ none
      → IsUnique (xs ++ x ∷ [])
  unfolding find
  IsUnique-concat [] x u h = (refl, tt)
  IsUnique-concat (y ∷ xs) x u h = ground (
    arith,
    IsUnique-concat xs x u.1,
    find-concat (name_of y) xs x,
    same_name_comm (name_of x) (name_of y),
  )

  -- In a list with no name twice the node at a position is the one found by its name.
  pub find-find_at :
      (xs : List N) (i : ℕ) (x : N)
      → IsUnique xs
      → find_at xs i ≡ some x
      → find name_of (name_of x) xs ≡ some x
  unfolding find find_at
  find-find_at [] i x u h = ground arith
  find-find_at (y ∷ xs) zero x u h = ground (arith, same_name_refl (name_of y))
  find-find_at (y ∷ xs) (suc i) x u h =
      ground (arith, find-find_at xs i x u.1, find_congr (name_of y) (name_of x) xs)

  pub IsUnique-replace :
      (n : Bytes) (y : N) (xs : List N) (x : N)
      → IsUnique xs
      → find name_of n xs ≡ some x
      → name_of y ≡ name_of x
      → IsUnique (replace n y xs)
  unfolding find
  IsUnique-replace n y [] x u h e = tt
  IsUnique-replace n y (z ∷ xs) x u h e = ground (
    arith,
    IsUnique-replace n y xs x u.1,
    find-replace n (name_of z) xs x y,
    same_name_comm n (name_of z),
  )

  -- A property of every node.
  abbrev pub All : (N → Type 0) → List N → Type 0
  All P [] = Unit {0}
  All P (x ∷ xs) = P x × All P xs

  pub All-concat : (P : N → Type 0) (xs : List N) (x : N) → All P xs → P x → All P (xs ++ x ∷ [])
  All-concat P [] x h k = (k, tt)
  All-concat P (y ∷ xs) x h k = (h.0, All-concat P xs x h.1 k)

  pub All-replace :
      (P : N → Type 0) (n : Bytes) (xs : List N) (x : N) → All P xs → P x → All P (replace n x xs)
  All-replace P n [] x h k = tt
  All-replace P n (y ∷ xs) x h k = elim (Bool-cases (same_name (name_of y) n)) [
    | inl s ↦ rw s (k, h.1)
    | inr s ↦ rw s (h.0, All-replace P n xs x h.1 k)
  ]

  pub All-find :
      (P : N → Type 0) (n : Bytes) (xs : List N) (x : N)
      → All P xs
      → find name_of n xs ≡ some x
      → P x
  unfolding find
  All-find P n [] x h e = ground arith
  All-find P n (y ∷ xs) x h e = elim (Bool-cases (same_name (name_of y) n)) [
    | inl s ↦ subst P (some-inj y x (rw s at e)) h.0
    | inr s ↦ All-find P n xs x h.1 (rw s at e)
  ]

  pub All-find_at :
      (P : N → Type 0) (xs : List N) (i : ℕ) (x : N) → All P xs → find_at xs i ≡ some x → P x
  unfolding find_at
  All-find_at P [] i x h e = ground arith
  All-find_at P (y ∷ xs) i x h e = elim (Bool-cases (i == 0)) [
    | inl s ↦ subst P (some-inj y x (rw s at e)) h.0
    | inr s ↦ All-find_at P xs (i - 1) x h.1 (rw s at e)
  ]

  pub All-reverse : (P : N → Type 0) (xs : List N) → All P xs → All P (reverse xs)
  All-reverse P [] h = tt
  All-reverse P (x ∷ xs) h =
      rw (reverse-append (x ∷ []) xs) (All-concat P (reverse xs) x (All-reverse P xs h.1) h.0)
