-- ===== src/Tests/Heaps.antt =====
-- The theorem on the heap of the parser at a parse that takes two blocks and moves one.
use mathlib.Core.Path.{◌≡◌, refl}
use native.Mathlib.Omega.{arith}
use sblim_sfcc.Base.{ℕ, ◌≤◌, Bool, true, [], ◌∷◌, none, some}
use sblim_sfcc.ParserHeap.{
  Allocator, State, parser_malloc, parser_heap_grow, parser_realloc, reallocate, free, remove,
  forget, parser_heap_term,
}
use sblim_sfcc.ParserHeap.Laws.{held, Parse, stop, malloc, realloc, start, heap_released}

abbrev state : State
state = record {
  heap = record { capacity = 100; blocks = none ∷ some 1 ∷ some 2 ∷ [] };
  allocator = record { used = 2 ∷ 1 ∷ []; next = 3 };
}

state-Parse : Parse (start 0) state
unfolding parser_malloc parser_heap_grow parser_realloc reallocate free remove forget
state-Parse = malloc refl (malloc refl (realloc true 0 (omega arith) refl stop))

heap_released_example :
    ((u : State) × (parser_malloc state ≡ some u))
    × ((moves : Bool) (p : ℕ)
        → 1 ≤ held p state.heap.blocks
        → (u : State) × (parser_realloc moves p state ≡ some u))
    × ((a : Allocator) × (parser_heap_term state ≡ some a) × (a.used ≡ []))
heap_released_example = heap_released 0 state state-Parse
