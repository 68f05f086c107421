-- ===== src/Named.antt =====
-- The linked lists of named nodes that property.c, qualifier.c, parameter.c and method.c each
-- implement: a search by name without regard to case, a search by position, a count, an addition
-- at the end and a change in place. The four files differ in what a node holds.
pub mod Change
pub mod Laws
pub mod Reverse
pub mod Total
use sblim_sfcc.Base.{
  ℕ, ◌+◌, ◌-◌, Bool, true, false, List, [], ◌∷◌, Option, none, some, ◌==◌, if◌then◌else◌, ◌>>=◌,
  Bytes, same_name,
}

module _ {N : Type 0} (name_of : N → Bytes) where
  -- The first node of that name.
  unfoldable pub find : Bytes → List N → Option N
  find n [] = none
  find n (x ∷ xs) = if same_name (name_of x) n then some x else find n xs

  -- Adds a node at the end, unless the name is there; the flag says that it was there. The new
  -- node is made where the end is reached.
  unfoldable pub add : Bytes → Option N → List N → Option (Bool × List N)
  add n fresh [] = fresh >>= λ x. some (false, x ∷ [])
  add n fresh (x ∷ xs) =
      if same_name (name_of x) n
      then some (true, x ∷ xs)
      else add n fresh xs >>= λ r. some (r.0, x ∷ r.1)

  -- Changes the first node of that name; the flag says that there was one.
  unfoldable pub change : Bytes → (N → Option N) → List N → Option (Bool × List N)
  change n f [] = some (false, [])
  change n f (x ∷ xs) =
      if same_name (name_of x) n
      then f x >>= (λ y. some (true, y ∷ xs))
      else change n f xs >>= λ r. some (r.0, x ∷ r.1)

module _ {N : Type 0} where
  -- A change, and an addition to the list where it found no node.
  unfoldable pub or_add :
      Option (Bool × List N) → (List N → Option (Bool × List N)) → Option (List N)
  or_add c f = c >>= λ r. if r.0 then some r.1 else (f r.1 >>= λ s. some s.1)

  unfoldable pub find_at : List N → ℕ → Option N
  find_at [] pos = none
  find_at (x ∷ xs) pos = if pos == 0 then some x else find_at xs (pos - 1)

  -- The counting loop, from `c`.
  unfoldable pub count_from : ℕ → List N → ℕ
  count_from c [] = c
  count_from c (x ∷ xs) = count_from (c + 1) xs

  abbrev pub count : List N → ℕ
  count xs = count_from 0 xs
