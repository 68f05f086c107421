-- ===== src/Array/Laws.antt =====
-- Arrays as sequences of elements: creation and growth.
use sblim_sfcc.Array.Cells.{
  take-resize, length-resize, zero_cells_lem, make_null_lem, double_max_lem,
}
use sblim_sfcc.Array.{Cell, item, Array, resize, new_max, increase_size, new_array, get_element_at}
use sblim_sfcc.Base.{
  ℕ, ◌+◌, ◌-◌, ◌<◌, ◌≤◌, ◌≡◌, refl, ◌∙◌, inl, inr, bit_and, List, [], some, arith, ◌==◌, ltb,
  ltb→lt, if◌then◌else◌, Bool-cases, length, length-replicate, get_elem?-replicate, take, replicate,
}
use sblim_sfcc.Cmpi.{string_type, chars_type, array_bits, null_value, bad_value, raw}

abbrev pub capacity : ℕ → ℕ
capacity size = if size == 0 then 8 else size

capacity-le : (size : ℕ) → (size ≤ capacity size) × (0 < capacity size)
capacity-le size = ground arith

module _ {R : Type 0} where
  -- The memory holds `max` cells, and the elements fit in it.
  pub record IsValid (a : Array R) : Type 0 where
    pub allocated : length a.cells ≡ a.max
    pub fits : a.size ≤ a.max
    pub positive : 0 < a.max

  -- The elements, in order.
  abbrev pub elements : Array R → List (Cell R)
  elements a = take a.size a.cells

  -- What the creation leaves.
  abbrev pub created : ℕ → ℕ → Array R
  created size t = record {
    size = size;
    max = capacity size;
    dynamic = size == 0;
    type = if t - bit_and t array_bits == chars_type then string_type else t - bit_and t array_bits;
    cells = replicate (capacity size) (item null_value (raw 0));
  }

  created_reads :
      (size t i : ℕ)
      → get_element_at (created size t) i
        ≡ some (record {
          type = (created size t).type;
          state = if ltb i size then null_value else bad_value;
          value = raw 0;
        })
  unfolding get_element_at
  created_reads size t i = elim (Bool-cases (ltb i size)) [
    | inl e ↦
        let below : i < capacity size = omega (arith, ltb→lt i size e, capacity-le size) in
        rw (e, get_elem?-replicate {A = Cell R} (capacity size) i (item null_value (raw 0)) below)
          refl
    | inr e ↦ rw e refl
  ]

  -- A new array of any size is valid; each of its elements reads as null, and an index past its
  -- end as a bad value. Size 0 makes a growing array.
  pub new_array_lem :
      (size t : ℕ)
      → (a : Array R) × (new_array size t ≡ some a)
        × IsValid a
        × (a.size ≡ size)
        × (a.dynamic ≡ (size == 0))
        × ((i : ℕ)
            → get_element_at a i
              ≡ some (record {
                type = a.type;
                state = if ltb i size then null_value else bad_value;
                value = raw 0;
              }))
  unfolding new_array
  new_array_lem size t = (
    created size t,
    rw (make_null_lem (t - bit_and t array_bits) (capacity size) [] (raw 0) 0) refl,
    record {
      allocated = length-replicate {A = Cell R} (capacity size) (item null_value (raw 0));
      fits = (capacity-le size).0;
      positive = (capacity-le size).1;
    },
    refl,
    refl,
    created_reads size t,
  )

  new_max_lem :
      (a : Array R) (n : ℕ)
      → IsValid a
      → a.max < a.size + n
      → n ≤ 8
      → (m : ℕ) × (new_max a n ≡ some m) × (a.size + n ≤ m) × (0 < m)
  unfolding new_max
  new_max_lem a n v h k = elim (Bool-cases (a.size == 0)) [
    | inl e ↦ (8, rw e refl, ground arith, omega arith)
    | inr e ↦
        let (m, r, p, q) =
          double_max_lem (a.size + n + 1) (a.size + n) a.max v.positive (omega arith)
            (omega arith) in
        (m, rw e r, p, omega (arith, v.positive))
  ]

  -- Growing by up to 8 elements makes no fault, and keeps a valid array valid and its elements.
  pub increase_size_lem :
      (a : Array R) (n : ℕ)
      → IsValid a
      → n ≤ 8
      → (a' : Array R) × (increase_size a n ≡ some a')
        × IsValid a'
        × (a'.size ≡ a.size + n)
        × (a'.type ≡ a.type)
        × (a'.dynamic ≡ a.dynamic)
        × (take a.size a'.cells ≡ elements a)
  unfolding increase_size
  increase_size_lem a n v k = elim (Bool-cases (ltb a.max (a.size + n))) [
    | inl e ↦
        let (m, r, p, q) = new_max_lem a n v (ltb→lt _ _ e) k in
        let (cs, z, l, t) =
          zero_cells_lem a.size n (resize m a.cells) (omega (arith, length-resize m a.cells)) in
        (
          record a { size = a.size + n; max = m; cells = cs },
          rw (e, r, z) refl,
          record { allocated = l ∙ length-resize m a.cells; fits = p; positive = q },
          refl,
          refl,
          refl,
          t a.size (omega arith)
              ∙ take-resize a.size m a.cells (omega arith) (omega (arith, v.allocated, v.fits)),
        )
    | inr e ↦ (
      record a { size = a.size + n },
      rw e refl,
      record { allocated = v.allocated; fits = ground arith; positive = v.positive },
      refl,
      refl,
      refl,
      refl,
    )
  ]
