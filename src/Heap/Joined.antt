-- ===== src/Heap/Joined.antt =====
-- The collector keeps the row and the blocks in use.
use cmsis_rtos.Base.{
  ℕ, zero, suc, ◌+◌, ◌%◌, ◌^◌, ◌≤◌, ◌<◌, ◌≡◌, ◌≢◌, refl, sym, ◌∙◌, inl, inr, true, false, ◌||◌,
  Bool-cases, List, contains, ◌==◌, leb, ==→eq, arith, subst,
}
use cmsis_rtos.Base.Word.{add32}
use cmsis_rtos.Heap.{Heap, put, join_free, mem_garbage}
use cmsis_rtos.Heap.Row.{IsRow, starts, starts-bounds, next_start}
use cmsis_rtos.Heap.Merged.{merged, reclaimed, first_start}

-- A heap is a row of less than 2 ^ 30 bytes from a whole word on, and the collector goes on at a block or at the end.
pub record IsHeap (base : ℕ) (h : Heap) (ns : List ℕ) : Type 0 where
  pub row : IsRow h.size base ns h.last_block
  pub bound : h.last_block < base + 2 ^ 30
  pub word : base + 2 ^ 30 ≤ 2 ^ 32
  pub aligned : base % 4 ≡ 0
  pub scan :
      (contains h.first_free_block (starts base ns) || (h.first_free_block == h.last_block)) ≡ true

-- The blocks in use stay where they are.
abbrev pub KeepsUsed : ℕ → Heap → List ℕ → Heap → List ℕ → Type 0
KeepsUsed base h ns h' ns' =
    (a : ℕ)
    → contains a (starts base ns) ≡ true
    → h.free a ≡ false
    → (contains a (starts base ns') ≡ true) × (h'.free a ≡ false) × (h'.size a ≡ h.size a)

-- A free block is no block in use.
not_used : (h : Heap) (a b : ℕ) → h.free a ≡ false → h.free b ≡ true → a ≢ b
not_used h a b used free e = cc (rw e at used)

reclaim-IsHeap :
    (base block : ℕ) (h : Heap) (ns : List ℕ)
    → IsHeap base h ns
    → contains block (starts base ns) ≡ true
    → h.free block ≡ true
    → block + h.size block ≡ h.last_block
    → let h' = record h { last_block = block; first_free_block = base } in
      (ns' : List ℕ) × IsHeap base h' ns' × KeepsUsed base h ns h' ns'
reclaim-IsHeap base block h ns heap at free end =
    let (ns', row, keep) = reclaimed h.size base ns h.last_block block heap.row at end in
    (
      ns',
      record {
        row = row;
        bound = omega (arith, heap.bound, end);
        word = heap.word;
        aligned = heap.aligned;
        scan = first_start h.size base ns' block row;
      },
      λ a i u. (keep a i (not_used h a block u free), u, refl),
    )

join-IsHeap :
    (base block : ℕ) (h : Heap) (ns : List ℕ)
    → IsHeap base h ns
    → contains block (starts base ns) ≡ true
    → h.first_free_block ≡ block
    → h.free block ≡ true
    → contains (block + h.size block) (starts base ns) ≡ true
    → h.free (block + h.size block) ≡ true
    → let both = (h.size block + h.size (block + h.size block)) % 2 ^ 30 in
      let h' = record h { size = put h.size block both } in
      (ns' : List ℕ) × IsHeap base h' ns'
      × (contains block (starts base ns') ≡ true)
      × KeepsUsed base h ns h' ns'
join-IsHeap base block h ns heap at ff free next joins =
    let (low, high, big) = (starts-bounds h.size base ns h.last_block block heap.row).1 at in
    let (low', high', big') =
      (starts-bounds h.size base ns h.last_block (block + h.size block) heap.row).1 next in
    let small : (h.size block + h.size (block + h.size block)) % 2 ^ 30
        ≡ h.size block + h.size (block + h.size block) =
      omega (arith, heap.bound) in
    let (ns', row, self, keep) =
      merged h.size base ns h.last_block block heap.row at (λ e. absurd (omega arith)) in
    (
      ns',
      record {
        row = subst (λ v. IsRow (put h.size block v) base ns' h.last_block) (sym small) row;
        bound = heap.bound;
        word = heap.word;
        aligned = heap.aligned;
        scan = ground (arith, ff, self);
      },
      self,
      λ a i u.
          let other = not_used h a block u free in
          (keep a i (not_used h a (block + h.size block) u joins), u, ground arith),
    )

-- The loop at a free block keeps the row and the blocks in use.
join_free-IsHeap :
    (count base block : ℕ) (h : Heap) (ns : List ℕ)
    → IsHeap base h ns
    → contains block (starts base ns) ≡ true
    → h.first_free_block ≡ block
    → h.free block ≡ true
    → (ns' : List ℕ) × IsHeap base (join_free count base block h) ns'
      × KeepsUsed base h ns (join_free count base block h) ns'
unfolding join_free
join_free-IsHeap zero base block h ns heap at ff free = (ns, heap, λ a i u. (i, u, refl))
join_free-IsHeap (suc count) base block h ns heap at ff free =
    let (low, high, big) = (starts-bounds h.size base ns h.last_block block heap.row).1 at in
    let next = block + h.size block in
    let next_lem : add32 block (h.size block) ≡ next = omega (arith, heap.bound, heap.word) in
    elim (Bool-cases (next == h.last_block)) [
      | inl end ↦
          rw (next_lem, end)
            (reclaim-IsHeap base block h ns heap at free (==→eq next h.last_block end))
      | inr inner ↦
          let there : contains next (starts base ns) ≡ true =
            ground (arith, next_start h.size base ns h.last_block block heap.row at, inner) in
          elim (Bool-cases (h.free next)) [
            | inl joins ↦
                let (ns1, heap1, at1, keep1) =
                  join-IsHeap base block h ns heap at ff free there joins in
                let both = (h.size block + h.size next) % 2 ^ 30 in
                let (ns2, heap2, keep2) =
                  join_free-IsHeap count base block (record h { size = put h.size block both }) ns1
                    heap1 at1 ff free in
                rw (next_lem, inner, joins)
                  (
                    ns2,
                    heap2,
                    λ a i u.
                        let (i1, u1, same1) = keep1 a i u in
                        let (i2, u2, same2) = keep2 a i1 u1 in (i2, u2, same2 ∙ same1),
                  )
            | inr stops ↦
                let (low', high', big') =
                  (starts-bounds h.size base ns h.last_block next heap.row).1 there in
                let beyond : add32 next (h.size next) ≡ next + h.size next =
                  omega (arith, heap.bound, heap.word) in
                rw (next_lem, inner, stops, beyond)
                  (
                    ns,
                    record {
                      row = heap.row;
                      bound = heap.bound;
                      word = heap.word;
                      aligned = heap.aligned;
                      scan = next_start h.size base ns h.last_block next heap.row there;
                    },
                    λ a i u. (i, u, refl),
                  )
          ]
    ]

-- A run of `r3_mem_garbage` leaves a heap, in which the blocks in use stand where they were.
pub mem_garbage-IsHeap :
    (base : ℕ) (h : Heap) (ns : List ℕ)
    → IsHeap base h ns
    → (ns' : List ℕ) × IsHeap base (mem_garbage base h) ns'
      × KeepsUsed base h ns (mem_garbage base h) ns'
unfolding mem_garbage
mem_garbage-IsHeap base h ns heap = elim (Bool-cases (leb h.last_block h.first_free_block)) [
  | inl again ↦ rw again (
    ns,
    record {
      row = heap.row;
      bound = heap.bound;
      word = heap.word;
      aligned = heap.aligned;
      scan = first_start h.size base ns h.last_block heap.row;
    },
    λ a i u. (i, u, refl),
  )
  | inr inside ↦
      let at : contains h.first_free_block (starts base ns) ≡ true =
        ground (arith, heap.scan, inside) in
      elim (Bool-cases (h.free h.first_free_block)) [
        | inl free ↦
            rw (inside, free) (join_free-IsHeap 5 base h.first_free_block h ns heap at refl free)
        | inr used ↦
            let (low, high, big) =
              (starts-bounds h.size base ns h.last_block h.first_free_block heap.row).1 at in
            let beyond : add32 h.first_free_block (h.size h.first_free_block)
                ≡ h.first_free_block + h.size h.first_free_block =
              omega (arith, heap.bound, heap.word) in
            rw (inside, used, beyond)
              (
                ns,
                record {
                  row = heap.row;
                  bound = heap.bound;
                  word = heap.word;
                  aligned = heap.aligned;
                  scan = next_start h.size base ns h.last_block h.first_free_block heap.row at;
                },
                λ a i u. (i, u, refl),
              )
      ]
]
