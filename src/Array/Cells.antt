-- ===== src/Array/Cells.antt =====
-- The memory of an array: prefixes of its cells, `realloc`, `memset` and the loops over cells.
use sblim_sfcc.Array.{Cell, unset, item, double_max, make_null, zero_cells, resize}
use sblim_sfcc.Base.{
  ℕ, zero, suc, ◌+◌, ◌*◌, ◌<◌, ◌≤◌, ◌≡◌, refl, ◌∙◌, ap, inl, inr, false, List, [], ◌∷◌, ◌++◌,
  append_assoc, some, arith, ltb, lt→ltb, ltb→lt, Bool-cases, length, length-append, length-set,
  length-replicate, get_elem?, set, take, replicate,
}
use sblim_sfcc.Cmpi.{null_value, Value, raw}

module _ {ℓ} {A : Type ℓ} where
  -- Writing at the end of a prefix extends it by one.
  pub take-set :
      (n : ℕ) (xs : List A) (x : A)
      → n < length xs
      → take (suc n) (set xs n x) ≡ take n xs ++ x ∷ []
  take-set zero [] x h = elim h [ ]
  take-set (suc n) [] x h = elim h [ ]
  take-set zero (y ∷ xs) x h = refl
  take-set (suc n) (y ∷ xs) x h = ap (◌∷◌ y) (take-set n xs x (omega arith))

  pub take-append_le : (n : ℕ) (xs ys : List A) → n ≤ length xs → take n (xs ++ ys) ≡ take n xs
  take-append_le zero xs ys h = refl
  take-append_le (suc n) [] ys h = elim h [ ]
  take-append_le (suc n) (x ∷ xs) ys h = ap (◌∷◌ x) (take-append_le n xs ys (omega arith))

  pub take-take : (n m : ℕ) (xs : List A) → n ≤ m → take n (take m xs) ≡ take n xs
  take-take zero m xs h = refl
  take-take (suc n) zero xs h = elim h [ ]
  take-take (suc n) (suc m) [] h = refl
  take-take (suc n) (suc m) (x ∷ xs) h = ap (◌∷◌ x) (take-take n m xs (omega arith))

  pub length-take_le : (n : ℕ) (xs : List A) → n ≤ length xs → length (take n xs) ≡ n
  length-take_le zero xs h = refl
  length-take_le (suc n) [] h = elim h [ ]
  length-take_le (suc n) (x ∷ xs) h = ap suc (length-take_le n xs (omega arith))

  pub get_elem?-take : (n i : ℕ) (xs : List A) → i < n → get_elem? (take n xs) i ≡ get_elem? xs i
  get_elem?-take zero i xs h = elim h [ ]
  get_elem?-take (suc n) i [] h = refl
  get_elem?-take (suc n) zero (x ∷ xs) h = refl
  get_elem?-take (suc n) (suc i) (x ∷ xs) h = get_elem?-take n i xs (omega arith)

  -- Writing behind a prefix leaves it.
  pub take-set_le : (n i : ℕ) (xs : List A) (x : A) → n ≤ i → take n (set xs i x) ≡ take n xs
  take-set_le zero i xs x h = refl
  take-set_le (suc n) i [] x h = refl
  take-set_le (suc n) zero (y ∷ xs) x h = elim h [ ]
  take-set_le (suc n) (suc i) (y ∷ xs) x h = ap (◌∷◌ y) (take-set_le n i xs x (omega arith))

  -- Writing inside a prefix.
  pub take-set_lt :
      (n i : ℕ) (xs : List A) (x : A) → i < n → take n (set xs i x) ≡ set (take n xs) i x
  take-set_lt zero i xs x h = elim h [ ]
  take-set_lt (suc n) i [] x h = refl
  take-set_lt (suc n) zero (y ∷ xs) x h = refl
  take-set_lt (suc n) (suc i) (y ∷ xs) x h = ap (◌∷◌ y) (take-set_lt n i xs x (omega arith))

module _ {ℓ} {A : Type ℓ} where
  pub get_elem?_middle : (xs ys : List A) (y : A) → get_elem? (xs ++ y ∷ ys) (length xs) ≡ some y
  get_elem?_middle [] ys y = refl
  get_elem?_middle (x ∷ xs) ys y = get_elem?_middle xs ys y

  pub set_middle : (xs ys : List A) (y z : A) → set (xs ++ y ∷ ys) (length xs) z ≡ xs ++ z ∷ ys
  set_middle [] ys y z = refl
  set_middle (x ∷ xs) ys y z = ap (◌∷◌ x) (set_middle xs ys y z)

module _ {R : Type 0} where
  pub length-resize : (n : ℕ) (cs : List (Cell R)) → length (resize n cs) ≡ n
  unfolding resize
  length-resize n cs =
      length-take_le n (cs ++ replicate n unset)
        (omega (arith, length-append cs (replicate n unset), length-replicate {A = Cell R} n unset))

  pub take-resize :
      (n m : ℕ) (cs : List (Cell R)) → n ≤ m → n ≤ length cs → take n (resize m cs) ≡ take n cs
  unfolding resize
  take-resize n m cs h k =
      take-take n m (cs ++ replicate m unset) h ∙ take-append_le n cs (replicate m unset) k

  -- `memset` inside the memory makes no fault, and changes neither its length nor what is before.
  pub zero_cells_lem :
      (from n : ℕ) (cs : List (Cell R))
      → from + n ≤ length cs
      → (cs' : List (Cell R)) × (zero_cells from n cs ≡ some cs')
        × (length cs' ≡ length cs)
        × ((k : ℕ) → k ≤ from → take k cs' ≡ take k cs)
  unfolding zero_cells
  zero_cells_lem from zero cs h = (cs, refl, refl, λ k q. refl)
  zero_cells_lem from (suc n) cs h =
      let (cs', e, l, t) =
        zero_cells_lem (from + 1) n (set cs from (item 0 (raw 0)))
          (omega (arith, length-set cs from (item 0 (raw 0)))) in
      (
        cs',
        rw (lt→ltb from (length cs) (omega arith)) e,
        l ∙ length-set cs from (item 0 (raw 0)),
        λ k q. t k (omega arith) ∙ take-set_le k from cs (item 0 (raw 0)) q,
      )

  -- The cells of a new array, made null one after the other.
  pub make_null_lem :
      (t n : ℕ) (xs : List (Cell R)) (v : Value R) (st : ℕ)
      → make_null t false (length xs) n (xs ++ replicate n (item st v))
        ≡ some (xs ++ replicate n (item null_value v))
  unfolding make_null
  make_null_lem t zero xs v st = refl
  make_null_lem t (suc n) xs v st =
      let done : Cell R = item null_value v in
      let rest = replicate n (item st v) in
      let one_more : length (xs ++ done ∷ []) ≡ length xs + 1 =
        omega (arith, length-append xs (done ∷ [])) in
      rw
        (
          get_elem?_middle xs rest (item st v),
          set_middle xs rest (item st v) done,
          ← one_more,
          ← append_assoc xs (done ∷ []) rest,
        )
        (make_null_lem t n (xs ++ done ∷ []) v st
          ∙ ap some (append_assoc xs (done ∷ []) (replicate n done)))

pub double_max_lem :
    (fuel need max : ℕ)
    → 0 < max
    → 0 < fuel
    → need < fuel + max
    → (m : ℕ) × (double_max fuel need max ≡ some m) × (need ≤ m) × (max ≤ m)
unfolding double_max
double_max_lem zero need max p q h = absurd (omega arith)
double_max_lem (suc fuel) need max p q h = elim (Bool-cases (ltb max need)) [
  | inl e ↦
      let below : max < need = ltb→lt max need e in
      let (m, r, q, s) =
        double_max_lem fuel need (max * 2) (omega arith) (omega arith) (omega arith) in
      (m, rw e r, q, omega arith)
  | inr e ↦ (max, rw e refl, ground arith, omega arith)
]
