-- ===== src/Enumeration/Laws.antt =====
-- A result array that the parser fills with simpleArrayAdd, read through an enumeration.
use native.Mathlib.Decide.{dec_lt}
use native.Mathlib.Numerals.{add-one}
use sblim_sfcc.Array.Cells.{get_elem?-take, length-take_le}
use sblim_sfcc.Array.Elements.{simple_array_add_lem}
use sblim_sfcc.Array.Laws.{IsValid, elements, new_array_lem}
use sblim_sfcc.Array.{Cell, item, Array, new_array, get_element_at, get_size, simple_array_add}
use sblim_sfcc.Base.{
  ℕ, zero, suc, ◌+◌, ◌<◌, ◌≤◌, ◌≡◌, refl, ◌≢◌, sym, ◌∙◌, ap, true, false, List, [], ◌∷◌, ◌++◌, map,
  append_assoc, append-nil, Option, none, some, arith, lt→ltb, le→ltb, ◌>>=◌, length, get_elem?,
  take, drop,
}
use sblim_sfcc.Cmpi.{null_type, chars_type, Value, Data, ObjectFt}
use sblim_sfcc.Enumeration.{Enumeration, new_enumeration, get_next, has_next, drain}

module _ {ℓ} {A : Type ℓ} where
  split_at :
      (c : ℕ) (xs : List A)
      → c < length xs
      → (x : A) × (get_elem? xs c ≡ some x) × (drop c xs ≡ x ∷ drop (suc c) xs)
  split_at c [] h = elim h [ ]
  split_at zero (x ∷ xs) h = (x, refl, refl)
  split_at (suc c) (x ∷ xs) h = split_at c xs (omega arith)

  drop_all : (xs : List A) → drop (length xs) xs ≡ []
  drop_all [] = refl
  drop_all (x ∷ xs) = drop_all xs

module _ {ℓ κ} {A : Type ℓ} {B : Type κ} (f : A → B) where
  length-map : (xs : List A) → length (map f xs) ≡ length xs
  length-map [] = refl
  length-map (x ∷ xs) = ap suc (length-map xs)

  get_elem?-map :
      (xs : List A) (i : ℕ) (x : A) → get_elem? xs i ≡ some x → get_elem? (map f xs) i ≡ some (f x)
  get_elem?-map [] i x h = cc
  get_elem?-map (y ∷ xs) zero x h = ap (λ o. elim o [ none ↦ none | some z ↦ some (f z) ]) h
  get_elem?-map (y ∷ xs) (suc i) x h = get_elem?-map xs i x h

  map-concat : (xs : List A) (x : A) → map f (xs ++ x ∷ []) ≡ map f xs ++ f x ∷ []
  map-concat [] x = refl
  map-concat (y ∷ xs) x = ap (◌∷◌ (f y)) (map-concat xs x)

module _ {R : Type 0} where
  -- The good values of an array, as its elements.
  abbrev pub good : Value R → Cell R
  good v = item 0 v

  abbrev pub good_data : ℕ → Value R → Data R
  good_data t v = record { type = t; state = 0; value = v }

  -- The calls of simpleArrayAdd for the values that a response carries, one type for all.
  abbrev pub add_values : ObjectFt R → ℕ → List (Value R) → Array R → Option (Array R)
  add_values ft t [] a = some a
  add_values ft t (v ∷ vs) a = simple_array_add ft a (some v) t >>= λ r. add_values ft t vs r.0

  -- What the calls have built so far.
  record Built (t : ℕ) (vs : List (Value R)) (a : Array R) : Type 0 where
    valid : IsValid a
    growing : a.dynamic ≡ true
    holds : elements a ≡ map good vs
    typed : 0 < a.size → a.type ≡ t

  add_values_lem :
      (ft : ObjectFt R) (t : ℕ) (vs ws : List (Value R)) (a : Array R)
      → t ≢ null_type
      → t ≢ chars_type
      → Built t ws a
      → (a' : Array R) × (add_values ft t vs a ≡ some a') × Built t (ws ++ vs) a'
  add_values_lem ft t [] ws a n c b = (a, refl, rw append-nil b)
  add_values_lem ft t (v ∷ vs) ws a n c b =
      let (a', r, p, ty) = simple_array_add_lem ft a v t b.valid b.growing n c in
      let b' : Built t (ws ++ v ∷ []) a' = record {
        valid = p.valid;
        growing = p.still_dynamic;
        holds = p.ends ∙ ap (λ l. l ++ good v ∷ []) b.holds ∙ sym (map-concat good ws v);
        typed = λ _. ground (arith, b.typed, ty);
      } in
      rw (r, ← append_assoc ws (v ∷ []) vs) (add_values_lem ft t vs (ws ++ v ∷ []) a' n c b')

  Built-size : (t : ℕ) (vs : List (Value R)) (a : Array R) → Built t vs a → a.size ≡ length vs
  Built-size t vs a b =
      sym (length-take_le a.size a.cells (omega (arith, b.valid.allocated, b.valid.fits)))
      ∙ ap length b.holds
      ∙ length-map good vs

  element_lem :
      (t : ℕ) (vs : List (Value R)) (a : Array R) (c : ℕ) (v : Value R)
      → Built t vs a
      → c < length vs
      → get_elem? vs c ≡ some v
      → get_element_at a c ≡ some (good_data t v)
  unfolding get_element_at
  element_lem t vs a c v b h e =
      let below : c < a.size = omega (arith, Built-size t vs a b) in
      let here : get_elem? a.cells c ≡ some (good v) =
        sym (get_elem?-take a.size c a.cells below)
        ∙ ap (λ l. get_elem? l c) b.holds
        ∙ get_elem?-map good vs c v e in
      rw (lt→ltb c a.size below, here, b.typed (omega arith)) refl

  get_next_lem :
      (a : Array R) (c : ℕ) (d : Data R)
      → get_element_at a c ≡ some d
      → get_next (record { current = c; elements = a })
        ≡ some (d, record { current = c + 1; elements = a })
  unfolding get_next
  get_next_lem a c d e = rw e refl

  drain_lem :
      (fuel c t : ℕ) (vs : List (Value R)) (a : Array R)
      → Built t vs a
      → c ≤ length vs
      → length vs ≤ c + fuel
      → drain fuel (record { current = c; elements = a })
        ≡ some (map (good_data t) (drop c vs), record { current = length vs; elements = a })
  unfolding drain has_next get_size
  drain_lem zero c t vs a b h k =
      let done : c ≡ length vs = omega arith in
      rw (le→ltb c a.size (omega (arith, Built-size t vs a b)), done, drop_all vs) refl
  drain_lem (suc fuel) c t vs a b h k = elim (dec_lt c (length vs)) [
    | no q ↦
        let done : c ≡ length vs = omega arith in
        rw (le→ltb c a.size (omega (arith, Built-size t vs a b)), done, drop_all vs) refl
    | yes q ↦
        let (v, e, d) = split_at c vs q in
        rw
          (
            lt→ltb c a.size (omega (arith, Built-size t vs a b)),
            get_next_lem a c (good_data t v) (element_lem t vs a c v b q e),
            drain_lem fuel (c + 1) t vs a b (omega arith) (omega arith),
            d,
            add-one,
          )
          refl
  ]

  -- The values that simpleArrayAdd puts in a new array of size 0, one after the other with one
  -- type that is neither CMPI_null nor CMPI_chars, are what a client's loop over its enumeration
  -- returns: all of them, in order, with the good state and their type, and then hasNext is false.
  pub enumerate_added :
      (ft : ObjectFt R) (t : ℕ) (vs : List (Value R))
      → t ≢ null_type
      → t ≢ chars_type
      → (a : Array R) × (a' : Array R) × (e : Enumeration R) × (new_array 0 t ≡ some a)
        × (add_values ft t vs a ≡ some a')
        × (drain (length vs) (new_enumeration a') ≡ some (map (good_data t) vs, e))
        × (has_next e ≡ false)
  unfolding new_enumeration has_next get_size
  enumerate_added ft t vs n c =
      let (a, r, valid, size, dynamic, _) = new_array_lem 0 t in
      let start : Built t [] a = record {
        valid = valid;
        growing = dynamic;
        holds = ap (λ k. take k a.cells) size;
        typed = λ h. absurd (omega arith);
      } in
      let (a', r', b) = add_values_lem ft t vs [] a n c start in
      (
        a,
        a',
        record { current = length vs; elements = a' },
        r,
        r',
        drain_lem (length vs) 0 t vs a' b (omega arith) (omega arith),
        le→ltb (length vs) a'.size (omega (arith, Built-size t vs a' b)),
      )
