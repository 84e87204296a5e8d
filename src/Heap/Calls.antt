-- ===== src/Heap/Calls.antt =====
-- Any sequence of allocations, releases and runs of the collector.
use cmsis_rtos.Base.{
  ℕ, ◌+◌, ◌-◌, ◌*◌, ◌/◌, ◌%◌, ◌^◌, ◌≤◌, ◌<◌, ◌≡◌, ◌≢◌, ◌⊎◌, refl, inl, inr, Bool, false, List, [],
  ◌∷◌, ◌++◌, contains, Distinct, arith,
}
use cmsis_rtos.Heap.{Heap, malloc, free_block, mem_garbage}
use cmsis_rtos.Heap.Row.{starts-bounds, starts-apart}
use cmsis_rtos.Heap.Joined.{IsHeap, mem_garbage-IsHeap}
use cmsis_rtos.Heap.Held.{
  Piece, Owned, addresses, malloc-IsHeap, Owned-keep, Owned-free_block, Owned-split,
  free_block-IsHeap,
}

pub record State : Type 0 where
  pub heap : Heap
  pub held : List Piece

-- A new heap, and what a sequence of calls does: an allocation that leaves less than 2 ^ 30 bytes in use,
-- the release of a piece, and the collector.
abbrev pub new_heap : ℕ → (ℕ → ℕ) → (ℕ → Bool) → State
new_heap base size free = record {
  heap = record { size = size; free = free; last_block = base; first_free_block = base };
  held = [];
}

pub data Step (base : ℕ) : State → State → Type 0 where
  alloc :
      (h : Heap) (held : List Piece) (size : ℕ)
      → h.last_block + size + 8 < base + 2 ^ 30
      → Step base
          (record { heap = h; held = held })
          (record {
            heap = (malloc size h).1;
            held = record { at = (malloc size h).0; size = size } ∷ held;
          })
  release :
      (h : Heap) (before : List Piece) (p : Piece) (after : List Piece)
      → Step base
          (record { heap = h; held = before ++ (p ∷ after) })
          (record { heap = free_block p.at h; held = before ++ after })
  collect :
      (h : Heap) (held : List Piece)
      → Step base
          (record { heap = h; held = held })
          (record { heap = mem_garbage base h; held = held })

pub data Reach (base : ℕ) (s : State) : State → Type 0 where
  start : Reach base s s
  next : {t u : State} → Reach base s t → Step base t u → Reach base s u

abbrev Sound : ℕ → State → Type 0
Sound base s =
    (ns : List ℕ) × IsHeap base s.heap ns
    × Owned base s.heap ns s.held
    × Distinct (addresses s.held)

-- A piece lies below the end of the heap.
not_at_end :
    (base : ℕ) (h : Heap) (ns : List ℕ) (ps : List Piece)
    → IsHeap base h ns
    → Owned base h ns ps
    → contains (h.last_block + 4) (addresses ps) ≡ false
not_at_end base h ns [] heap owned = refl
not_at_end base h ns (p ∷ ps) heap owned =
    let (above, at, used, fits) = owned.0 in
    let (low, high, big) = (starts-bounds h.size base ns h.last_block (p.at - 4) heap.row).1 at in
    ground (arith, not_at_end base h ns ps heap owned.1)

Step-Sound : {base : ℕ} {s t : State} → Step base s t → Sound base s → Sound base t
Step-Sound {base} (alloc h held size fits) (ns, heap, owned, distinct) =
    let (heap', keep, own, place) = malloc-IsHeap base h ns size heap fits in
    (
      ns ++ (((size + 3) / 4 * 4 + 4) ∷ []),
      heap',
      (own.0, Owned-keep base h (malloc size h).1 ns _ held keep owned),
      (rw place (not_at_end base h ns held heap owned), distinct),
    )
Step-Sound {base} (release h before p after) (ns, heap, owned, distinct) =
    let (own, others, out, distinct', _) = Owned-split base h ns before p after owned distinct in
    let (above, at, _, _) = own.0 in
    let (low, high, big) = (starts-bounds h.size base ns h.last_block (p.at - 4) heap.row).1 at in
    let word : p.at < 2 ^ 32 = omega (arith, heap.bound, heap.word) in
    (
      ns,
      free_block-IsHeap base p.at h ns heap,
      Owned-free_block base p.at h ns (before ++ after) above word out others,
      distinct',
    )
Step-Sound {base} (collect h held) (ns, heap, owned, distinct) =
    let (ns', heap', keep) = mem_garbage-IsHeap base h ns heap in
    (ns', heap', Owned-keep base h (mem_garbage base h) ns ns' held keep owned, distinct)

abbrev pub In : Piece → List Piece → Type 0
In p [] = ⊥
In p (q ∷ qs) = (p ≡ q) ⊎ In p qs

Owned-In :
    (base : ℕ) (h : Heap) (ns : List ℕ) (ps : List Piece) (p : Piece)
    → Owned base h ns ps
    → In p ps
    → Owned base h ns (p ∷ [])
Owned-In base h ns [] p owned h' = absurd h'
Owned-In base h ns (q ∷ qs) p owned (inl e) = rw e (owned.0, tt)
Owned-In base h ns (q ∷ qs) p owned (inr i) = Owned-In base h ns qs p owned.1 i

Reach-Sound : {base : ℕ} {s t : State} → Reach base s t → Sound base s → Sound base t
Reach-Sound start sound = sound
Reach-Sound (next r step) sound = Step-Sound step (Reach-Sound r sound)

-- From an empty heap on a whole word, with room for 2 ^ 30 bytes, whatever its memory holds, after any
-- sequence of `malloc`, `free` of pieces in use and runs of the collector in which less than 2 ^ 30
-- bytes are taken: every piece in use lies in the heap behind its word, the pieces have different
-- addresses, and two of them do not overlap, the word in front of each included.
pub Reach-apart :
    {base : ℕ} {size : ℕ → ℕ} {free : ℕ → Bool} {s : State}
    → base % 4 ≡ 0
    → base + 2 ^ 30 ≤ 2 ^ 32
    → Reach base (new_heap base size free) s
    → Distinct (addresses s.held)
      × ((p : Piece) → In p s.held → (base + 4 ≤ p.at) × (p.at + p.size ≤ s.heap.last_block))
      × ((p q : Piece)
          → In p s.held
          → In q s.held
          → p.at ≢ q.at
          → (p.at + p.size + 4 ≤ q.at) ⊎ (q.at + q.size + 4 ≤ p.at))
Reach-apart {base} {size} {free} {s} aligned word reach =
    let (ns, heap, owned, distinct) = Reach-Sound reach (
      [],
      record {
        row = refl;
        bound = omega arith;
        word = word;
        aligned = aligned;
        scan = ground arith;
      },
      tt,
      tt,
    ) in
    (
      distinct,
      λ p i.
          let ((above, at, _, fits), _) = Owned-In base s.heap ns s.held p owned i in
          let (low, high, _) =
            (starts-bounds s.heap.size base ns s.heap.last_block (p.at - 4) heap.row).1 at in
          (omega arith, omega arith),
      λ p q i j ne.
          let ((above, at, _, fits), _) = Owned-In base s.heap ns s.held p owned i in
          let ((above', at', _, fits'), _) = Owned-In base s.heap ns s.held q owned j in
          elim (starts-apart s.heap.size base ns s.heap.last_block (p.at - 4) (q.at - 4) heap.row at
            at' (λ e. ne (omega arith))) [
              | inl before ↦ inl (omega arith)
              | inr behind ↦ inr (omega arith)
            ],
    )
