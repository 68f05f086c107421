-- ===== src/Named/Reverse.antt =====
-- The walk over a list of named nodes by falling positions, as in `while (j--)`, meets them in
-- reverse.
use mathlib.Core.List.{reverse, reverse-append}
use sblim_sfcc.Base.{
  ℕ, zero, suc, ◌≤◌, ◌≡◌, refl, sym, ◌∙◌, ap, List, [], ◌∷◌, ◌++◌, none, some, false, arith, length,
  Bytes, same_name, same_name_comm,
}
use sblim_sfcc.Named.Laws.{IsUnique, IsUnique-concat, find_at-some}
use sblim_sfcc.Named.{find, find_at}

module _ {N : Type 0} where
  -- The nodes at the positions below `j`, the last one first.
  abbrev pub down_from : ℕ → List N → List N
  down_from zero l = []
  down_from (suc j) l = elim (find_at l j) [ none ↦ down_from j l | some x ↦ x ∷ down_from j l ]

  find_at-suc : (x : N) (l : List N) (j : ℕ) → find_at (x ∷ l) (suc j) ≡ find_at l j
  unfolding find_at
  find_at-suc x l j = ground arith

  pub down_from_step :
      (l : List N) (j : ℕ) (y : N) → find_at l j ≡ some y → down_from (suc j) l ≡ y ∷ down_from j l
  down_from_step l j y e = rw (e, down_from) refl

  down_from-cons :
      (j : ℕ) (x : N) (l : List N)
      → j ≤ length l
      → down_from (suc j) (x ∷ l) ≡ down_from j l ++ x ∷ []
  down_from-cons zero x l h = down_from_step (x ∷ l) zero x (unfold find_at in refl)
  down_from-cons (suc j) x l h =
      let (y, e) = find_at-some l j h in
      down_from_step (x ∷ l) (suc j) y (find_at-suc x l j ∙ e)
      ∙ ap (◌∷◌ y) (down_from-cons j x l (omega arith))
      ∙ ap (λ t. t ++ x ∷ []) (sym (down_from_step l j y e))

  pub down_from-reverse : (l : List N) → down_from (length l) l ≡ reverse l
  unfolding find_at
  down_from-reverse [] = refl
  down_from-reverse (x ∷ l) =
      down_from-cons (length l) x l (omega arith)
      ∙ rw (down_from-reverse l) (sym (reverse-append (x ∷ []) l))

module _ {N : Type 0} (name_of : N → Bytes) where
  find-none-concat :
      (n : Bytes) (xs : List N) (x : N)
      → find name_of n xs ≡ none
      → find name_of n (x ∷ []) ≡ none
      → find name_of n (xs ++ x ∷ []) ≡ none
  unfolding find
  find-none-concat n [] x h k = k
  find-none-concat n (y ∷ xs) x h k = ground (arith, find-none-concat n xs x)

  find-none-reverse :
      (n : Bytes) (xs : List N) → find name_of n xs ≡ none → find name_of n (reverse xs) ≡ none
  unfolding find
  find-none-reverse n [] h = refl
  find-none-reverse n (x ∷ xs) h =
      rw (reverse-append (x ∷ []) xs)
        (find-none-concat n (reverse xs) x (find-none-reverse n xs (ground arith)) (ground arith))

  pub IsUnique-reverse : (xs : List N) → IsUnique name_of xs → IsUnique name_of (reverse xs)
  IsUnique-reverse [] u = tt
  IsUnique-reverse (x ∷ xs) u = rw (reverse-append (x ∷ []) xs) (
      IsUnique-concat name_of (reverse xs) x (IsUnique-reverse xs u.1)
        (find-none-reverse (name_of x) xs u.0))

  find-none-member :
      (n : Bytes) (xs : List N) (x : N) (ys : List N)
      → find name_of n (xs ++ x ∷ ys) ≡ none
      → same_name (name_of x) n ≡ false
  unfolding find
  find-none-member n [] x ys h = ground arith
  find-none-member n (y ∷ xs) x ys h = ground (arith, find-none-member n xs x ys)

  -- In a list with no name twice, no node before `x` has its name.
  pub find-none-middle :
      (xs : List N) (x : N) (ys : List N)
      → IsUnique name_of (xs ++ x ∷ ys)
      → find name_of (name_of x) xs ≡ none
  unfolding find
  find-none-middle [] x ys u = refl
  find-none-middle (y ∷ xs) x ys u = ground (
    arith,
    find-none-member (name_of y) xs x ys u.0,
    find-none-middle xs x ys u.1,
    same_name_comm (name_of x) (name_of y),
  )
