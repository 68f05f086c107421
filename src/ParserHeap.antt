-- ===== src/ParserHeap.antt =====
-- The heap of the parser at the end of backend/cimxml/cimXmlParser.c: a list of the blocks that a
-- parse has allocated, all of which its end releases. Blocks are numbers; the allocator gives
-- out new ones and keeps the list of those in use. A release of a block that is not in use is a
-- fault. Memory is taken to be there.
pub mod Laws
use sblim_sfcc.Base.{
  ℕ, suc, ◌+◌, Bool, List, [], ◌∷◌, ◌++◌, Option, none, some, ◌==◌, leb, ltb, if◌then◌else◌, ◌>>=◌,
  length,
}

-- The allocator of the C library.
pub record Allocator : Type 0 where
  pub used : List ℕ
  pub next : ℕ

unfoldable pub remove : ℕ → List ℕ → Option (List ℕ)
remove p [] = none
remove p (q ∷ qs) = let rest = remove p qs >>= λ r. some (q ∷ r) in if p == q then some qs else rest

-- `malloc`, `calloc` and `strdup`: a block that is not in use.
abbrev pub allocate : Allocator → Allocator
allocate a = record { used = a.next ∷ a.used; next = suc a.next }

unfoldable pub free : ℕ → Allocator → Option Allocator
unfolding remove
free p a = remove p a.used >>= λ u. some (record a { used = u })

-- `realloc` of a block: it stays where it is, or moves.
unfoldable pub reallocate : Bool → ℕ → Allocator → Option (ℕ × Allocator)
unfolding free
reallocate moves p a = free p a >>= λ b.
    if moves then some (b.next, allocate b) else some (p, record b { used = p ∷ b.used })

-- struct parser_heap: `numBlocks` is the number of the entries, and an entry may be NULL.
pub record ParserHeap : Type 0 where
  pub capacity : ℕ
  pub blocks : List (Option ℕ)

abbrev pub parser_heap_increment : ℕ
parser_heap_increment = 100

abbrev pub parser_heap_init : ParserHeap
parser_heap_init = record { capacity = 0; blocks = [] }

-- The room for entries that parser_heap_grow leaves.
abbrev pub grown_capacity : ParserHeap → ℕ
grown_capacity ph =
    if leb ph.capacity (length ph.blocks) then ph.capacity + parser_heap_increment else ph.capacity

-- parser_heap_grow, with the block that its caller stores in the new entry; a write behind the
-- `capacity` entries that `blocks` has room for is a fault.
unfoldable pub parser_heap_grow : ParserHeap → ℕ → Option ParserHeap
parser_heap_grow ph p =
    if ltb (length ph.blocks) (grown_capacity ph)
    then some (record { capacity = grown_capacity ph; blocks = ph.blocks ++ some p ∷ [] })
    else none

-- A parser_heap with the allocator it takes its blocks from.
pub record State : Type 0 where
  pub heap : ParserHeap
  pub allocator : Allocator

-- parser_malloc, parser_calloc and parser_strdup.
unfoldable pub parser_malloc : State → Option State
unfolding parser_heap_grow
parser_malloc s = parser_heap_grow s.heap s.allocator.next >>= λ h.
    some (record { heap = h; allocator = allocate s.allocator })

-- The entries that hold a block become NULL.
unfoldable pub forget : ℕ → List (Option ℕ) → List (Option ℕ)
forget p [] = []
forget p (none ∷ bs) = none ∷ forget p bs
forget p (some q ∷ bs) = (if q == p then none else some q) ∷ forget p bs

-- parser_realloc
unfoldable pub parser_realloc : Bool → ℕ → State → Option State
unfolding reallocate parser_heap_grow forget
parser_realloc moves p s = reallocate moves p s.allocator >>= λ r.
    parser_heap_grow (record s.heap { blocks = forget p s.heap.blocks }) r.0 >>= λ h.
    some (record { heap = h; allocator = r.1 })

-- The loop of parser_heap_term, from the last entry to the first.
unfoldable pub release_blocks : List (Option ℕ) → Allocator → Option Allocator
unfolding free
release_blocks [] a = some a
release_blocks (none ∷ bs) a = release_blocks bs a
release_blocks (some p ∷ bs) a = release_blocks bs a >>= λ b. free p b

-- parser_heap_term
unfoldable pub parser_heap_term : State → Option Allocator
unfolding release_blocks
parser_heap_term s = release_blocks s.heap.blocks s.allocator
