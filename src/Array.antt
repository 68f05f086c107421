-- ===== src/Array.antt =====
-- backend/cimxml/array.c: arrays of values, of a fixed size or growing. A cell that `realloc` left
-- without a write is `unset`. `none` is a fault: a read of an unset cell, a write past the end of
-- the memory, or a fault of a copy or a release. Sizes are taken not to reach 2 ^ 31.
pub mod Cells
pub mod Elements
pub mod Laws
use sblim_sfcc.Base.{
  ℕ, zero, suc, ◌+◌, ◌-◌, ◌*◌, bit_and, Bool, true, false, ◌&&◌, ◌||◌, List, [], ◌∷◌, ◌++◌, Option,
  none, some, ◌==◌, ltb, if◌then◌else◌, ◌>>=◌, length, get_elem?, set, take, drop, replicate, Bytes,
}
use sblim_sfcc.Cmpi.{
  has, null_type, string_type, chars_type, array_bits, null_value, bad_value, Status, ok, failed,
  Value, raw, chars, string, freed, Data, ObjectFt,
}
use sblim_sfcc.Value.{native_clone_value, native_release_value}

-- struct native_array_item
pub data Cell (R : Type 0) : Type 0 where
  unset : Cell R
  item : ℕ → Value R → Cell R

-- struct native_array
pub record Array (R : Type 0) : Type 0 where
  pub size : ℕ
  pub max : ℕ
  pub dynamic : Bool
  pub type : ℕ
  pub cells : List (Cell R)

-- The doubling loop; `none` is a loop that does not end.
unfoldable pub double_max : ℕ → ℕ → ℕ → Option ℕ
double_max zero need max = none
double_max (suc fuel) need max =
    let rest = double_max fuel need (max * 2) in if ltb max need then rest else some max

module _ {R : Type 0} where
  -- One round of __make_NULL.
  unfoldable pub null_cell : ℕ → Bool → Cell R → Option (Cell R)
  null_cell t release unset = none
  null_cell t release (item st v) =
      if release
      then (native_release_value t v >>= λ w. some (item null_value w))
      else some (item null_value v)

  -- __make_NULL from `from`, for `n` cells.
  unfoldable pub make_null : ℕ → Bool → ℕ → ℕ → List (Cell R) → Option (List (Cell R))
  unfolding null_cell
  make_null t release from zero cs = some cs
  make_null t release from (suc n) cs = (get_elem? cs from >>= null_cell t release) >>= λ c.
      make_null t release (from + 1) n (set cs from c)

  -- `memset` to zero of `n` cells.
  unfoldable pub zero_cells : ℕ → ℕ → List (Cell R) → Option (List (Cell R))
  zero_cells from zero cs = some cs
  zero_cells from (suc n) cs =
      let rest = zero_cells (from + 1) n (set cs from (item 0 (raw 0))) in
      if ltb from (length cs) then rest else none

  -- `realloc` to `n` cells.
  unfoldable pub resize : ℕ → List (Cell R) → List (Cell R)
  resize n cs = take n (cs ++ replicate n unset)

  unfoldable pub new_max : Array R → ℕ → Option ℕ
  unfolding double_max
  new_max a increment =
      if a.size == 0 then some 8 else double_max (a.size + increment + 1) (a.size + increment) a.max

  unfoldable pub increase_size : Array R → ℕ → Option (Array R)
  unfolding zero_cells resize new_max
  increase_size a increment =
      if ltb a.max (a.size + increment)
      then (new_max a increment >>= λ m. zero_cells a.size increment (resize m a.cells) >>= λ cs.
          some (record a { size = a.size + increment; max = m; cells = cs }))
      else some (record a { size = a.size + increment })

  -- __new_empty_array
  unfoldable pub new_array : ℕ → ℕ → Option (Array R)
  unfolding make_null
  new_array size type =
      let t = type - bit_and type array_bits in
      let max = if size == 0 then 8 else size in
      make_null t false 0 max (replicate max (item 0 (raw 0))) >>= λ cs. some (record {
        size = size;
        max = max;
        dynamic = size == 0;
        type = if t == chars_type then string_type else t;
        cells = cs;
      })

  unfoldable pub get_size : Array R → ℕ
  get_size a = a.size

  unfoldable pub get_simple_type : Array R → ℕ
  get_simple_type a = a.type

  abbrev pub cell_data : ℕ → Cell R → Option (Data R)
  cell_data t unset = none
  cell_data t (item st v) = some (record { type = t; state = st; value = v })

  -- The status is always CMPI_RC_OK.
  unfoldable pub get_element_at : Array R → ℕ → Option (Data R)
  get_element_at a index =
      if ltb index a.size
      then (get_elem? a.cells index >>= cell_data a.type)
      else some (record { type = a.type; state = bad_value; value = raw 0 })

  -- The text behind `val->chars`, which may be NULL.
  unfoldable pub read_chars : Value R → Option (Option Bytes)
  read_chars (chars s) = some (some s)
  read_chars (raw zero) = some none
  read_chars _ = none

  -- A text handed to an array of strings: the new string and the type that it gets.
  unfoldable pub convert_chars : Option (Value R) → Option (ℕ × Option (Value R))
  unfolding read_chars
  convert_chars none = some (null_type, none)
  convert_chars (some v) = read_chars v >>= λ s. some (string_type, some (string s))

  -- The branch for CMPI_null: the cell, with its value released if it has one.
  unfoldable pub clear_cell : ℕ → Cell R → Option (Cell R)
  unfolding null_cell
  clear_cell t unset = none
  clear_cell t (item st v) =
      if has st null_value then some (item st v) else null_cell t true (item st v)

  -- The value that a cell gets: the caller's own under `opt`, and else a copy. A string made for the
  -- call is released after it.
  unfoldable pub stored_value : ObjectFt R → Bool → Bool → ℕ → Option (Value R) → Option (Value R)
  stored_value ft true converted t none = none
  stored_value ft true converted t (some v) = some (if converted then freed else v)
  stored_value ft false converted t val = native_clone_value ft t val

  -- setElementAt at an index inside the array, behind the conversion of a text.
  unfoldable pub store :
      ObjectFt R → Array R → ℕ → Option (Value R) → ℕ → Bool → Bool → Option (Array R × Status)
  unfolding clear_cell stored_value
  store ft a index val type opt converted =
      if type == null_type
      then ((get_elem? a.cells index >>= clear_cell a.type) >>= λ c.
          some (record a { cells = set a.cells index c }, ok))
      else if opt || type == a.type
      then (stored_value ft opt converted type val >>= λ v.
          some (record a { cells = set a.cells index (item 0 v) }, ok))
      else some (a, failed)

  unfoldable pub set_element_at :
      ObjectFt R → Array R → ℕ → Option (Value R) → ℕ → Bool → Option (Array R × Status)
  unfolding convert_chars
  set_element_at ft b index val type opt =
      (if b.dynamic && index == b.size then increase_size b 1 else some b) >>= λ a.
      if ltb index a.size
      then (if type == chars_type && a.type == string_type
          then (convert_chars val >>= λ r. store ft a index r.1 r.0 opt true)
          else store ft a index val type opt false)
      else some (a, failed)

  -- The result of setElementAt is dropped, and CMPI_RC_ERR_FAILED returned on every path.
  unfoldable pub simple_array_add :
      ObjectFt R → Array R → Option (Value R) → ℕ → Option (Array R × Status)
  simple_array_add ft a val type =
      if a.dynamic
      then (let b = record a { type = if a.size == 0 then type else a.type } in
          set_element_at ft b b.size val type true >>= λ r. some (r.0, failed))
      else some (a, failed)

  unfoldable pub clone_cell : ObjectFt R → ℕ → Cell R → Option (Cell R)
  clone_cell ft t unset = none
  clone_cell ft t (item st v) =
      if has st null_value
      then some (item st (raw 0))
      else native_clone_value ft t (some v) >>= λ w. some (item st w)

  unfoldable pub clone_cells : ObjectFt R → ℕ → List (Cell R) → Option (List (Cell R))
  unfolding clone_cell
  clone_cells ft t [] = some []
  clone_cells ft t (c ∷ cs) =
      clone_cell ft t c >>= λ d. clone_cells ft t cs >>= λ rest. some (d ∷ rest)

  -- The elements are copied over those of a new array of the same size.
  unfoldable pub clone_array : ObjectFt R → Array R → Option (Array R)
  unfolding new_array clone_cells
  clone_array ft a = new_array a.size a.type >>= λ b.
      clone_cells ft a.type (take a.size a.cells) >>= λ cs.
      some (record b { cells = cs ++ drop a.size b.cells })

  unfoldable pub release_cells : ℕ → List (Cell R) → Option (Unit {0})
  release_cells t [] = some tt
  release_cells t (unset ∷ cs) = none
  release_cells t (item st v ∷ cs) =
      (if has st null_value then some v else native_release_value t v) >>= λ _. release_cells t cs

  unfoldable pub release_array : Option (Array R) → Option Status
  unfolding release_cells
  release_array none = some failed
  release_array (some a) = release_cells a.type (take a.size a.cells) >>= λ _. some ok
