-- ===== src/Array/Elements.antt =====
-- Arrays as sequences of elements: appending, writing in place, and what is refused.
use sblim_sfcc.Array.Cells.{take-set}
use sblim_sfcc.Array.{
  Cell, unset, item, Array, increase_size, get_element_at, store, set_element_at, simple_array_add,
}
use sblim_sfcc.Base.{
  ℕ, ◌+◌, ◌<◌, ◌≤◌, ◌≡◌, refl, ◌≢◌, ◌∙◌, ap, inl, inr, Bool, true, false, [], ◌∷◌, ◌++◌, Option,
  none, some, arith, ◌==◌, lt→ltb, le→ltb, if◌then◌else◌, Bool-cases, length, length-set, get_elem?,
  get_elem?-set_self, set, take, ==_iff, ==_refl, ne→==, get_elem?-set_ne,
}
use sblim_sfcc.Cmpi.{null_type, chars_type, ok, failed, Value, ObjectFt, KeepsContent}
use native.Mathlib.Numerals.{add-one}
use sblim_sfcc.Value.Copies.{is_sound, clone_same}
use sblim_sfcc.Array.Laws.{IsValid, elements, increase_size_lem}

module _ {R : Type 0} where
  -- The growing array after an element is appended.
  pub record Appended (a : Array R) (c : Cell R) (a' : Array R) : Type 0 where
    pub valid : IsValid a'
    pub grown : a'.size ≡ a.size + 1
    pub still_dynamic : a'.dynamic ≡ true
    pub ends : elements a' ≡ elements a ++ c ∷ []

  append_cell :
      (a a' : Array R) (c : Cell R)
      → IsValid a
      → IsValid a'
      → a'.size ≡ a.size + 1
      → a'.dynamic ≡ true
      → take a.size a'.cells ≡ elements a
      → Appended a c (record a' { cells = set a'.cells a.size c })
  append_cell a a' c v v' g d t = record {
    valid = record {
      allocated = length-set a'.cells a.size c ∙ v'.allocated;
      fits = v'.fits;
      positive = v'.positive;
    };
    grown = g;
    still_dynamic = d;
    ends =
        rw (g, add-one)
          (take-set a.size a'.cells c (omega (arith, v'.allocated, v'.fits, g))
            ∙ ap (λ l. l ++ c ∷ []) t);
  }

  -- An index at the end of a growing array makes room, and is then inside.
  set_at_end :
      (ft : ObjectFt R) (b a' : Array R) (val : Option (Value R)) (t : ℕ) (opt : Bool)
      → b.dynamic ≡ true
      → increase_size b 1 ≡ some a'
      → b.size < a'.size
      → t ≢ chars_type
      → set_element_at ft b b.size val t opt ≡ store ft a' b.size val t opt false
  unfolding set_element_at
  set_at_end ft b a' val t opt d e h c =
      rw (e, d, ==_refl b.size) (rw (lt→ltb b.size a'.size h, ne→== t chars_type c) refl)

  -- An index inside makes no room.
  set_inside :
      (ft : ObjectFt R) (a : Array R) (i : ℕ) (val : Option (Value R)) (t : ℕ) (opt : Bool)
      → i < a.size
      → t ≢ chars_type
      → set_element_at ft a i val t opt ≡ store ft a i val t opt false
  unfolding set_element_at
  set_inside ft a i val t opt h c = elim (Bool-cases a.dynamic) [
    | inl d ↦
        rw (d, ne→== i a.size (λ e. omega (arith, e)), lt→ltb i a.size h, ne→== t chars_type c) refl
    | inr d ↦ rw (d, lt→ltb i a.size h, ne→== t chars_type c) refl
  ]

  -- simpleArrayAdd of a value to a valid growing array, with a type that is neither CMPI_null nor
  -- CMPI_chars, makes no fault and appends the value behind the same elements; the array stays
  -- valid, an empty one takes the type, and the status is CMPI_RC_ERR_FAILED.
  pub simple_array_add_lem :
      (ft : ObjectFt R) (a : Array R) (v : Value R) (t : ℕ)
      → IsValid a
      → a.dynamic ≡ true
      → t ≢ null_type
      → t ≢ chars_type
      → (a' : Array R) × (simple_array_add ft a (some v) t ≡ some (a', failed))
        × Appended a (item 0 v) a'
        × (a'.type ≡ (if a.size == 0 then t else a.type))
  unfolding simple_array_add store
  simple_array_add_lem ft a v t valid d n c =
      let b : Array R = record a { type = if a.size == 0 then t else a.type } in
      let b_valid : IsValid b = record {
        allocated = valid.allocated;
        fits = valid.fits;
        positive = valid.positive;
      } in
      let (a', r, v', g, ty, dy, keep) = increase_size_lem b 1 b_valid (omega arith) in
      (
        record a' { cells = set a'.cells a.size (item 0 v) },
        rw (set_at_end ft b a' (some v) t true d r (omega (arith, g)) c, d, ne→== t null_type n)
            refl,
        append_cell a a' (item 0 v) valid v' g (dy ∙ d) keep,
        ty,
      )

  -- setElementAt inside a valid array whose type is neither CMPI_null nor CMPI_chars, with that type
  -- and a value that fits it: no fault, the status is OK, the array stays valid and of its size,
  -- the element reads as a value that holds the same, with a good state, and every other element
  -- reads as before.
  pub set_element_at_lem :
      (ft : ObjectFt R) ⦃keeps : KeepsContent ft⦄ (a : Array R) (i : ℕ) (v : Value R)
      → IsValid a
      → i < a.size
      → a.type ≢ null_type
      → a.type ≢ chars_type
      → is_sound a.type v ≡ true
      → (a' : Array R) × (set_element_at ft a i (some v) a.type false ≡ some (a', ok))
        × IsValid a'
        × (a'.size ≡ a.size)
        × ((j : ℕ)
            → get_element_at a' j ≡ (
                if i == j
                then some (record { type = a.type; state = 0; value = v })
                else get_element_at a j))
  unfolding store get_element_at
  set_element_at_lem ft a i v valid h n c s =
      let len : i < length a.cells = omega (arith, valid.allocated, valid.fits) in
      (
        record a { cells = set a.cells i (item 0 v) },
        rw
            (
              set_inside ft a i (some v) a.type false h c,
              ne→== a.type null_type n,
              ==_refl a.type,
              clone_same ft a.type v s,
            )
            refl,
        record {
          allocated = length-set a.cells i (item 0 v) ∙ valid.allocated;
          fits = valid.fits;
          positive = valid.positive;
        },
        refl,
        λ j. elim (Bool-cases (i == j)) [
          | inl e ↦
              rw
                (
                  e,
                  ← (==_iff i j).0 e,
                  lt→ltb i a.size h,
                  get_elem?-set_self a.cells i (item 0 v) len,
                )
                refl
          | inr e ↦
              rw (e, get_elem?-set_ne a.cells i j (item 0 v) (λ q. cc (rw q at e, ==_refl j))) refl
        ],
      )

  -- An index past the end of a fixed array, or past the end and not at it for a growing one, is
  -- refused for any value and type, and the array is unchanged.
  pub set_element_at_outside :
      (ft : ObjectFt R) (a : Array R) (i : ℕ) (val : Option (Value R)) (t : ℕ) (opt : Bool)
      → a.size ≤ i
      → (a.dynamic ≡ true → i ≢ a.size)
      → set_element_at ft a i val t opt ≡ some (a, failed)
  unfolding set_element_at
  set_element_at_outside ft a i val t opt h k = elim (Bool-cases a.dynamic) [
    | inl d ↦ rw (d, ne→== i a.size (k d), le→ltb i a.size h) refl
    | inr d ↦ rw (d, le→ltb i a.size h) refl
  ]

  -- A value at the end of a valid growing array, of a type that is not that of the array and
  -- neither CMPI_null nor CMPI_chars, is refused, and the array has grown.
  pub set_element_at_mismatch :
      (ft : ObjectFt R) (a : Array R) (v : Value R) (t : ℕ)
      → IsValid a
      → a.dynamic ≡ true
      → t ≢ null_type
      → t ≢ chars_type
      → t ≢ a.type
      → (a' : Array R) × (set_element_at ft a a.size (some v) t false ≡ some (a', failed))
        × (a'.size ≡ a.size + 1)
  unfolding store
  set_element_at_mismatch ft a v t valid d n c m =
      let (a', r, v', g, ty, dy, keep) = increase_size_lem a 1 valid (omega arith) in
      (
        a',
        rw
            (
              set_at_end ft a a' (some v) t false d r (omega (arith, g)) c,
              ne→== t null_type n,
              ty,
              ne→== t a.type m,
            )
            refl,
        g,
      )

  -- A null appended to a growing array with room, where the next cell was never written, is a
  -- fault: it reads that cell.
  pub append_null_unset :
      (ft : ObjectFt R) (a : Array R)
      → a.dynamic ≡ true
      → a.size < a.max
      → get_elem? a.cells a.size ≡ some unset
      → set_element_at ft a a.size none null_type false ≡ none
  unfolding store increase_size
  append_null_unset ft a d h u =
      rw
        (
          set_at_end ft a (record a { size = a.size + 1 }) none null_type false d
              (rw (le→ltb a.max (a.size + 1) (omega arith)) refl) (omega arith) (omega arith),
          u,
        )
        refl
