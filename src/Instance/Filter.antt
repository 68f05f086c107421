-- ===== src/Instance/Filter.antt =====
-- The `char **` lists of instance.c, a filter's names: an array of pointers that ends with NULL.
-- Its cells are in memory, so what no one wrote is there as `unset`. `none` is a fault: a read of
-- an unset cell, or past the end of the array.
use sblim_sfcc.Base.{
  ◌≡◌, refl, Bool, true, false, ◌||◌, List, [], ◌∷◌, Option, none, some, arith, if◌then◌else◌,
  ◌>>=◌, Bytes, same_name,
}

pub data Cell : Type 0 where
  entry : Bytes → Cell
  terminator : Cell
  unset : Cell

-- `none` is the NULL pointer.
abbrev pub CharList : Type 0
CharList = Option (List Cell)

-- The walk of __release_list, which frees each text.
unfoldable pub release_cells : List Cell → Option (Unit {0})
release_cells [] = none
release_cells (entry s ∷ cs) = release_cells cs
release_cells (terminator ∷ cs) = some tt
release_cells (unset ∷ cs) = none

unfoldable pub release_list : CharList → Option (Unit {0})
unfolding release_cells
release_list none = some tt
release_list (some cs) = release_cells cs

-- The texts are copied; the last cell of the new array is never written.
unfoldable pub duplicate_cells : List Cell → Option (List Cell)
duplicate_cells [] = none
duplicate_cells (entry s ∷ cs) = duplicate_cells cs >>= λ r. some (entry s ∷ r)
duplicate_cells (terminator ∷ cs) = some (unset ∷ [])
duplicate_cells (unset ∷ cs) = none

unfoldable pub duplicate_list : CharList → Option CharList
unfolding duplicate_cells
duplicate_list none = some none
duplicate_list (some cs) = duplicate_cells cs >>= λ r. some (some r)

unfoldable pub contained_cells : List Cell → Bytes → Option Bool
contained_cells [] n = none
contained_cells (entry s ∷ cs) n = if same_name s n then some true else contained_cells cs n
contained_cells (terminator ∷ cs) n = some false
contained_cells (unset ∷ cs) n = none

unfoldable pub contained_list : CharList → Bytes → Option Bool
unfolding contained_cells
contained_list none n = some false
contained_list (some cs) n = contained_cells cs n

-- A caller's list of names, with its terminator.
abbrev pub names : List Bytes → List Cell
names [] = terminator ∷ []
names (s ∷ ss) = entry s ∷ names ss

-- The copy that the program makes of it.
abbrev pub copied : List Bytes → List Cell
copied [] = unset ∷ []
copied (s ∷ ss) = entry s ∷ copied ss

abbrev pub mentions : List Bytes → Bytes → Bool
mentions [] n = false
mentions (s ∷ ss) n = same_name s n || mentions ss n

duplicate_cells-names : (ss : List Bytes) → duplicate_cells (names ss) ≡ some (copied ss)
unfolding duplicate_cells
duplicate_cells-names [] = refl
duplicate_cells-names (s ∷ ss) = rw (duplicate_cells-names ss) refl

pub duplicate_list-names :
    (ss : List Bytes) → duplicate_list (some (names ss)) ≡ some (some (copied ss))
unfolding duplicate_list
duplicate_list-names ss = rw (duplicate_cells-names ss) refl

contained_cells-copied :
    (ss : List Bytes) (n : Bytes)
    → contained_cells (copied ss) n ≡ (if mentions ss n then some true else none)
unfolding contained_cells
contained_cells-copied [] n = refl
contained_cells-copied (s ∷ ss) n = ground (arith, contained_cells-copied ss n)

-- A search in a copy finds a name that is there, and reads the unset cell for any other.
pub contained_list-copied :
    (ss : List Bytes) (n : Bytes)
    → contained_list (some (copied ss)) n ≡ (if mentions ss n then some true else none)
unfolding contained_list
contained_list-copied ss n = contained_cells-copied ss n

release_cells-copied : (ss : List Bytes) → release_cells (copied ss) ≡ none
unfolding release_cells
release_cells-copied [] = refl
release_cells-copied (s ∷ ss) = release_cells-copied ss

pub release_list-copied : (ss : List Bytes) → release_list (some (copied ss)) ≡ none
unfolding release_list
release_list-copied ss = release_cells-copied ss

-- A search in the caller's own list answers for every name.
pub contained_list-names :
    (ss : List Bytes) (n : Bytes) → contained_list (some (names ss)) n ≡ some (mentions ss n)
unfolding contained_list
contained_list-names [] n = refl
contained_list-names (s ∷ ss) n = ground (arith, contained_list-names ss n)

duplicate_cells-copied : (ss : List Bytes) → duplicate_cells (copied ss) ≡ none
unfolding duplicate_cells
duplicate_cells-copied [] = refl
duplicate_cells-copied (s ∷ ss) = rw (duplicate_cells-copied ss) refl

-- Copying a copy reads the unset cell.
pub duplicate_list-copied : (ss : List Bytes) → duplicate_list (some (copied ss)) ≡ none
unfolding duplicate_list
duplicate_list-copied ss = rw (duplicate_cells-copied ss) refl
