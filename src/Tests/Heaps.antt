-- ===== src/Tests/Heaps.antt =====
-- malloc.c at concrete inputs.
use cmsis_rtos.Base.{ℕ, ◌+◌, ◌≤◌, ◌≡◌, ◌≢◌, ◌⊎◌, refl, true, [], ◌∷◌, Distinct, arith}
use cmsis_rtos.Heap.{Heap, aligned_alloc, malloc, free_block, mem_garbage}
use cmsis_rtos.Heap.Held.{Piece, addresses}
use cmsis_rtos.Heap.Calls.{
  State, new_heap, alloc, release, collect, Reach, start, next, In, Reach-apart,
}

abbrev piece : ℕ → ℕ → Piece
piece at size = record { at = at; size = size }

abbrev empty : State
empty = new_heap 4096 (λ p. 9) (λ p. true)

-- Two allocations, the release of the first one and a run of the collector.
abbrev one : Heap
one = (malloc 10 empty.heap).1

abbrev two : Heap
two = (malloc 5 one).1

abbrev three : Heap
three = mem_garbage 4096 (free_block (malloc 10 empty.heap).0 two)

abbrev used : State
used = record { heap = three; held = piece (malloc 5 one).0 5 ∷ [] }

one_end : one.last_block ≡ 4112
unfolding malloc aligned_alloc
one_end = refl

reached : Reach 4096 empty used
reached =
    next
      (next
        (next (next start (alloc empty.heap [] 10 (omega arith)))
          (alloc one (piece (malloc 10 empty.heap).0 10 ∷ []) 5 (ground (arith, one_end))))
        (release two (piece (malloc 5 one).0 5 ∷ []) (piece (malloc 10 empty.heap).0 10) []))
      (collect (free_block (malloc 10 empty.heap).0 two) (piece (malloc 5 one).0 5 ∷ []))

Reach-apart_example :
    Distinct (addresses used.held)
    × ((p : Piece) → In p used.held → (4100 ≤ p.at) × (p.at + p.size ≤ used.heap.last_block))
    × ((p q : Piece)
        → In p used.held
        → In q used.held
        → p.at ≢ q.at
        → (p.at + p.size + 4 ≤ q.at) ⊎ (q.at + q.size + 4 ≤ p.at))
Reach-apart_example = Reach-apart refl (omega arith) reached
