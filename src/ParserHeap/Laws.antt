-- ===== src/ParserHeap/Laws.antt =====
-- However a parse allocates and resizes its blocks, the end of the parse releases each block once
-- and leaves none.
use mathlib.Core.Path.{subst}
use sblim_sfcc.Base.{
  ℕ, suc, ◌+◌, ◌≤◌, ◌≡◌, ◌∙◌, ap, sym, refl, inl, inr, Bool, true, false, List, [], ◌∷◌, ◌++◌,
  Option, none, some, ◌==◌, ==_refl, if◌then◌else◌, ◌>>=◌, Bool-cases, some-inj, arith, ◌<◌, length,
  length-append, lt→ltb,
}
use sblim_sfcc.ParserHeap.{
  Allocator, allocate, ParserHeap, grown_capacity, remove, free, reallocate, parser_heap_init,
  parser_heap_grow, State, parser_malloc, forget, parser_realloc, release_blocks, parser_heap_term,
}

-- How often a block is in a list, and in the entries of a heap.
abbrev pub count : ℕ → List ℕ → ℕ
count p [] = 0
count p (q ∷ qs) = (if p == q then 1 else 0) + count p qs

abbrev pub held : ℕ → List (Option ℕ) → ℕ
held p [] = 0
held p (none ∷ bs) = held p bs
held p (some q ∷ bs) = (if p == q then 1 else 0) + held p bs

held-append :
    (p q : ℕ) (bs : List (Option ℕ)) → held p (bs ++ some q ∷ []) ≡ held p bs + count p (q ∷ [])
held-append p q [] = omega arith
held-append p q (none ∷ bs) = held-append p q bs
held-append p q (some r ∷ bs) = omega (arith, held-append p q bs)

held-forget :
    (p q : ℕ) (bs : List (Option ℕ)) → held q (forget p bs) ≡ (if q == p then 0 else held q bs)
unfolding forget
held-forget p q [] = ground arith
held-forget p q (none ∷ bs) = held-forget p q bs
held-forget p q (some r ∷ bs) = ground (arith, held-forget p q bs)

remove_lem :
    (p : ℕ) (qs : List ℕ)
    → 1 ≤ count p qs
    → (rs : List ℕ) × (remove p qs ≡ some rs)
      × ((q : ℕ) → count q qs ≡ count q (p ∷ []) + count q rs)
unfolding remove
remove_lem p [] h = absurd (omega arith)
remove_lem p (r ∷ qs) h = elim (Bool-cases (p == r)) [
  | inl e ↦ (qs, rw (remove, e) refl, λ q. ground arith)
  | inr e ↦
      let (rs, k, c) = remove_lem p qs (ground arith) in
      (r ∷ rs, rw (remove, e, k) refl, λ q. omega (arith, c q))
]

-- A block is in an entry of the heap as often as it is in use, and that is once at most; those
-- that the allocator is still to give out are not in use. The entries do not exceed `capacity`.
pub record Owned (s : State) : Type 0 where
  pub fits : length s.heap.blocks ≤ s.heap.capacity
  pub same : (p : ℕ) → held p s.heap.blocks ≡ count p s.allocator.used
  pub once : (p : ℕ) → count p s.allocator.used ≤ 1
  pub new : (p : ℕ) → s.allocator.next ≤ p → count p s.allocator.used ≡ 0

length-forget : (p : ℕ) (bs : List (Option ℕ)) → length (forget p bs) ≡ length bs
unfolding forget
length-forget p [] = refl
length-forget p (none ∷ bs) = omega (arith, length-forget p bs)
length-forget p (some q ∷ bs) = omega (arith, length-forget p bs)

-- A heap with one entry more.
abbrev with_entry : ParserHeap → ℕ → ParserHeap
with_entry ph p = record { capacity = grown_capacity ph; blocks = ph.blocks ++ some p ∷ [] }

-- There is room for the new entry, since the entries were within the old capacity.
grow_lem :
    (ph : ParserHeap) (p : ℕ)
    → length ph.blocks ≤ ph.capacity
    → (parser_heap_grow ph p ≡ some (with_entry ph p))
      × (length (ph.blocks ++ some p ∷ []) ≤ grown_capacity ph)
unfolding parser_heap_grow
grow_lem ph p h =
    let room : length ph.blocks < grown_capacity ph = ground (arith, h) in
    (
      rw (lt→ltb (length ph.blocks) (grown_capacity ph) room) refl,
      omega (arith, length-append ph.blocks (some p ∷ []), room),
    )

Owned-parser_malloc : (s : State) → Owned s → (t : State) × (parser_malloc s ≡ some t) × Owned t
unfolding parser_malloc
Owned-parser_malloc s o =
    let (e, f) = grow_lem s.heap s.allocator.next o.fits in
    (
      record { heap = with_entry s.heap s.allocator.next; allocator = allocate s.allocator },
      rw e refl,
      record {
        fits = f;
        same = λ p. held-append p s.allocator.next s.heap.blocks ∙ omega (arith, o.same p);
        once = λ p. ground (arith, o.once p, o.new p);
        new = λ p h. ground (arith, o.new p (omega arith));
      },
    )

free_lem :
    (p : ℕ) (a : Allocator)
    → 1 ≤ count p a.used
    → (us : List ℕ) × (free p a ≡ some (record a { used = us }))
      × ((q : ℕ) → count q a.used ≡ count q (p ∷ []) + count q us)
unfolding free
free_lem p a h =
    let (us, e, c) = remove_lem p a.used h in
    (us, ap (λ o. o >>= λ u. some (record a { used = u })) e, c)

-- What is left when a block is released and forgotten.
left_held :
    (s : State) (p q : ℕ) (us : List ℕ)
    → Owned s
    → 1 ≤ held p s.heap.blocks
    → count q s.allocator.used ≡ count q (p ∷ []) + count q us
    → held q (forget p s.heap.blocks) ≡ count q us
left_held s p q us o h c = held-forget p q s.heap.blocks ∙ ground (arith, o.same q, o.once q, c)

-- The state after a resizing to the block `q`.
abbrev resized : State → ℕ → ℕ → Allocator → State
resized s p q a = record {
  heap = with_entry (record s.heap { blocks = forget p s.heap.blocks }) q;
  allocator = a;
}

-- The block that is resized is in an entry: the resizing makes no fault.
Owned-parser_realloc :
    (moves : Bool) (p : ℕ) (s : State)
    → Owned s
    → 1 ≤ held p s.heap.blocks
    → (t : State) × (parser_realloc moves p s ≡ some t) × Owned t
unfolding parser_realloc reallocate
Owned-parser_realloc true p s o h =
    let (us, e, c) = free_lem p s.allocator (omega (arith, o.same p, h)) in
    let (g, f) =
      grow_lem (record s.heap { blocks = forget p s.heap.blocks }) s.allocator.next
        (omega (arith, length-forget p s.heap.blocks, o.fits)) in
    (
      resized s p s.allocator.next
          (record { used = s.allocator.next ∷ us; next = suc s.allocator.next }),
      rw (e, g) refl,
      record {
        fits = f;
        same = λ q.
            held-append q s.allocator.next (forget p s.heap.blocks)
            ∙ omega (arith, left_held s p q us o h (c q));
        once = λ q. ground (arith, o.once q, o.new q, c q);
        new = λ q k. ground (arith, o.new q (omega arith), c q);
      },
    )
Owned-parser_realloc false p s o h =
    let (us, e, c) = free_lem p s.allocator (omega (arith, o.same p, h)) in
    let (g, f) =
      grow_lem (record s.heap { blocks = forget p s.heap.blocks }) p
        (omega (arith, length-forget p s.heap.blocks, o.fits)) in
    (
      resized s p p (record s.allocator { used = p ∷ us }),
      rw (e, g) refl,
      record {
        fits = f;
        same = λ q.
            held-append q p (forget p s.heap.blocks) ∙ omega (arith, left_held s p q us o h (c q));
        once = λ q. omega (arith, o.once q, c q);
        new = λ q k. omega (arith, o.new q k, c q);
      },
    )

release_blocks_lem :
    (bs : List (Option ℕ)) (a : Allocator)
    → ((p : ℕ) → held p bs ≤ count p a.used)
    → (b : Allocator) × (release_blocks bs a ≡ some b)
      × ((p : ℕ) → count p a.used ≡ held p bs + count p b.used)
unfolding release_blocks
release_blocks_lem [] a h = (a, refl, λ p. omega arith)
release_blocks_lem (none ∷ bs) a h = release_blocks_lem bs a h
release_blocks_lem (some q ∷ bs) a h =
    let (b, e, c) = release_blocks_lem bs a (λ p. omega (arith, h p)) in
    let (us, f, d) = free_lem q b (omega (arith, h q, c q, count_self q)) in
    (record b { used = us }, ap (λ o. o >>= λ x. free q x) e ∙ f, λ p. omega (arith, c p, d p))
  where
    count_self : (q : ℕ) → count q (q ∷ []) ≡ 1
    count_self q = rw (==_refl q) refl

count-none : (us : List ℕ) → ((p : ℕ) → count p us ≡ 0) → us ≡ []
count-none [] h = refl
count-none (q ∷ us) h = let k = h q in absurd (ground (arith, ==_refl q))

-- A parse over its heap: it takes blocks, and resizes blocks that it has.
pub data Parse : State → State → Type 0 where
  stop : {s : State} → Parse s s
  malloc : {s u t : State} → parser_malloc s ≡ some u → Parse u t → Parse s t
  realloc :
      (moves : Bool) (p : ℕ) {s u t : State}
      → 1 ≤ held p s.heap.blocks
      → parser_realloc moves p s ≡ some u
      → Parse u t
      → Parse s t

Owned-Parse : {s t : State} → Parse s t → Owned s → Owned t
Owned-Parse stop o = o
Owned-Parse {s} (malloc {u = u} e r) o =
    let (v, f, w) = Owned-parser_malloc s o in
    Owned-Parse r (subst Owned (some-inj v u (sym f ∙ e)) w)
Owned-Parse {s} (realloc moves p {u = u} h e r) o =
    let (v, f, w) = Owned-parser_realloc moves p s o h in
    Owned-Parse r (subst Owned (some-inj v u (sym f ∙ e)) w)

-- The state before a parse: an empty heap, and no block of it in use.
abbrev pub start : ℕ → State
start next = record { heap = parser_heap_init; allocator = record { used = []; next = next } }

Owned-start : (next : ℕ) → Owned (start next)
Owned-start next = record {
  fits = omega arith;
  same = λ p. refl;
  once = λ p. omega arith;
  new = λ p h. refl;
}

-- After any sequence of allocations and of resizings of blocks that the heap has, with blocks that
-- move or stay, the next allocation and the next resizing of a block of the heap make no fault,
-- so that no entry is written behind the room for entries, and parser_heap_term releases every
-- block once: it makes no fault, and no block is left in use.
pub heap_released :
    (next : ℕ) (t : State)
    → Parse (start next) t
    → ((u : State) × (parser_malloc t ≡ some u))
      × ((moves : Bool) (p : ℕ)
          → 1 ≤ held p t.heap.blocks
          → (u : State) × (parser_realloc moves p t ≡ some u))
      × ((a : Allocator) × (parser_heap_term t ≡ some a) × (a.used ≡ []))
unfolding parser_heap_term
heap_released next t r =
    let o = Owned-Parse r (Owned-start next) in
    let (a, e, c) = release_blocks_lem t.heap.blocks t.allocator (λ p. omega (arith, o.same p)) in
    let (v, g, x) = Owned-parser_malloc t o in
    (
      (v, g),
      (λ moves p h. let (u, f, w) = Owned-parser_realloc moves p t o h in (u, f)),
      (a, e, count-none a.used (λ p. omega (arith, c p, o.same p))),
    )
