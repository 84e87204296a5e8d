-- ===== src/Heap/Held.antt =====
-- The allocations in use over any sequence of calls.
use cmsis_rtos.Base.{
  ℕ, ◌+◌, ◌-◌, ◌*◌, ◌/◌, ◌%◌, ◌^◌, ◌≤◌, ◌<◌, ◌≡◌, refl, ap, ◌∙◌, inl, inr, true, false, Bool-cases,
  List, [], ◌∷◌, ◌++◌, contains, Distinct, ◌==◌, ==→eq, arith, bit_and,
}
use cmsis_rtos.Base.Word.{add32, sub32}
use cmsis_rtos.Base.Bits.{bit_not}
use cmsis_rtos.Base.Masks.{bit_and_low}
use cmsis_rtos.Heap.{Heap, put, with_block, aligned_alloc, malloc, free_block}
use cmsis_rtos.Heap.Row.{IsRow, starts, starts-bounds, IsRow-put, rounded, aligned_end}
use cmsis_rtos.Heap.Joined.{IsHeap, KeepsUsed}

-- An allocation in use: its address and the size that was asked for.
pub record Piece : Type 0 where
  pub at : ℕ
  pub size : ℕ

-- Each piece lies in a block in use behind its word, which no other piece has.
abbrev pub Owned : ℕ → Heap → List ℕ → List Piece → Type 0
Owned base h ns [] = Unit
Owned base h ns (p ∷ ps) =
    ((4 ≤ p.at)
      × (contains (p.at - 4) (starts base ns) ≡ true)
      × (h.free (p.at - 4) ≡ false)
      × (p.size + 4 ≤ h.size (p.at - 4)))
    × Owned base h ns ps

abbrev pub addresses : List Piece → List ℕ
addresses [] = []
addresses (p ∷ ps) = p.at ∷ addresses ps

-- The row from the end of the heap on, one block longer.
IsRow-snoc :
    (size : ℕ → ℕ) (p : ℕ) (ns : List ℕ) (last n : ℕ)
    → IsRow size p ns last
    → size last ≡ n
    → (3 < n) × (n % 4 ≡ 0)
    → IsRow size p (ns ++ (n ∷ [])) (last + n)
      × (contains last (starts p (ns ++ (n ∷ []))) ≡ true)
      × ((a : ℕ) → contains a (starts p ns) ≡ true → contains a (starts p (ns ++ (n ∷ []))) ≡ true)
IsRow-snoc size p [] last n row e big =
    ((ap size row ∙ e, big, ap (λ q. q + n) row), ground (arith, row), λ a i. cc)
IsRow-snoc size p (m ∷ ns) last n row e big =
    let (row', at, keep) = IsRow-snoc size (p + m) ns last n row.2 e big in
    (
      (row.0, row.1, row'),
      ground (arith, at),
      λ a i. elim (Bool-cases (p == a)) [
        | inl here ↦ ground arith
        | inr later ↦ let rest = keep a (ground (arith, i, later)) in ground (arith, rest)
      ],
    )

-- What `malloc` does at the end of a heap that is a multiple of four bytes long.
malloc_lem :
    (size : ℕ) (h : Heap)
    → h.last_block % 4 ≡ 0
    → h.last_block + size + 8 < 2 ^ 32
    → size < 2 ^ 30 - 8
    → let n = (size + 3) / 4 * 4 + 4 in
      malloc size h ≡ (
        h.last_block + 4,
        record (with_block h.last_block n false h) { last_block = h.last_block + n },
      )
unfolding malloc aligned_alloc
malloc_lem size h aligned fits small =
    let up : bit_and (add32 size 3) (bit_not 32 3) ≡ (size + 3) / 4 * 4 =
      rounded (add32 size 3) (omega arith) ∙ omega arith in
    let low : bit_and h.last_block 3 ≡ 0 = bit_and_low 2 h.last_block ∙ aligned in
    let end : add32 h.last_block (add32 0 (add32 ((size + 3) / 4 * 4) 4))
        ≡ h.last_block + ((size + 3) / 4 * 4 + 4) =
      omega arith in
    let block : add32 ((size + 3) / 4 * 4) 4 ≡ (size + 3) / 4 * 4 + 4 = omega arith in
    let start : add32 h.last_block 0 ≡ h.last_block = omega arith in
    let mem : add32 h.last_block 4 ≡ h.last_block + 4 = omega arith in
    rw (up, low, end, block, start, mem, malloc, aligned_alloc) refl

-- What keeps the blocks in use keeps the pieces.
pub Owned-keep :
    (base : ℕ) (h h' : Heap) (ns ns' : List ℕ) (ps : List Piece)
    → KeepsUsed base h ns h' ns'
    → Owned base h ns ps
    → Owned base h' ns' ps
Owned-keep base h h' ns ns' [] keep owned = tt
Owned-keep base h h' ns ns' (p ∷ ps) keep owned =
    let (above, at, used, fits) = owned.0 in
    let (at', used', same) = keep (p.at - 4) at used in
    ((above, at', used', omega (arith, same, fits)), Owned-keep base h h' ns ns' ps keep owned.1)

-- The end of the row is no start.
end_is_free :
    (size : ℕ → ℕ) (base : ℕ) (ns : List ℕ) (last : ℕ)
    → IsRow size base ns last
    → contains last (starts base ns) ≡ false
end_is_free size base ns last row = elim (Bool-cases (contains last (starts base ns))) [
  | inr out ↦ out
  | inl inside ↦ absurd (
      omega (
        arith,
        ((starts-bounds size base ns last last row).1 inside).1,
        ((starts-bounds size base ns last last row).1 inside).2,
      ))
]

-- An allocation adds a block in use behind all others.
pub malloc-IsHeap :
    (base : ℕ) (h : Heap) (ns : List ℕ) (size : ℕ)
    → IsHeap base h ns
    → h.last_block + size + 8 < base + 2 ^ 30
    → let (mem, h') = malloc size h in
      let ns' = ns ++ (((size + 3) / 4 * 4 + 4) ∷ []) in
      IsHeap base h' ns'
      × KeepsUsed base h ns h' ns'
      × Owned base h' ns' (record { at = mem; size = size } ∷ [])
      × (mem ≡ h.last_block + 4)
malloc-IsHeap base h ns size heap fits =
    let n = (size + 3) / 4 * 4 + 4 in
    let last = h.last_block in
    let (low, _) = starts-bounds h.size base ns last last heap.row in
    let out = end_is_free h.size base ns last heap.row in
    let whole = aligned_end h.size base ns last heap.row heap.aligned in
    let self : (last == last) ≡ true = ground arith in
    let small : n % 2 ^ 30 ≡ n = omega (arith, heap.word) in
    let back : last + 4 - 4 ≡ last = omega arith in
    let same : put h.size last (n % 2 ^ 30) last ≡ n = rw self small in
    let (row, at, keep) =
      IsRow-snoc (put h.size last (n % 2 ^ 30)) base ns last n
        (IsRow-put h.size base ns last last (n % 2 ^ 30) out heap.row) same (omega arith) in
    rw (malloc_lem size h whole (omega (arith, heap.word)) (omega (arith, low))) (
      record {
        row = row;
        bound = omega (arith, fits);
        word = heap.word;
        aligned = heap.aligned;
        scan = elim (Bool-cases (h.first_free_block == last)) [
          | inl here ↦ let e = ==→eq h.first_free_block last here in rw e (ground (arith, at))
          | inr inside ↦
              let there = keep h.first_free_block (ground (arith, heap.scan, inside)) in
              rw there refl
        ];
      },
      λ a i u.
          let other : (a == last) ≡ false = elim (Bool-cases (a == last)) [
            | inr elsewhere ↦ elsewhere
            | inl here ↦ let e = ==→eq a last here in cc (rw e at i, out)
          ] in
          (keep a i, rw other u, rw other refl),
      ((omega arith, rw back at, rw (back, self) refl, rw (back, same) (omega arith)), tt),
      refl,
    )

-- The release of one piece leaves the others.
pub Owned-free_block :
    (base a : ℕ) (h : Heap) (ns : List ℕ) (ps : List Piece)
    → 4 ≤ a
    → a < 2 ^ 32
    → contains a (addresses ps) ≡ false
    → Owned base h ns ps
    → Owned base (free_block a h) ns ps
unfolding free_block
Owned-free_block base a h ns [] low high out owned = tt
Owned-free_block base a h ns (p ∷ ps) low high out owned =
    let (above, at, used, fits) = owned.0 in
    let other : (p.at - 4 == sub32 a 4) ≡ false = ground (arith, out) in
    (
      (above, at, rw other used, fits),
      Owned-free_block base a h ns ps low high (ground (arith, out)) owned.1,
    )

pub Owned-split :
    (base : ℕ) (h : Heap) (ns : List ℕ) (before : List Piece) (p : Piece) (after : List Piece)
    → Owned base h ns (before ++ (p ∷ after))
    → Distinct (addresses (before ++ (p ∷ after)))
    → Owned base h ns (p ∷ [])
      × Owned base h ns (before ++ after)
      × (contains p.at (addresses (before ++ after)) ≡ false)
      × Distinct (addresses (before ++ after))
      × ((x : ℕ)
          → contains x (addresses (before ++ (p ∷ after))) ≡ false
          → (contains x (addresses (before ++ after)) ≡ false) × ((p.at == x) ≡ false))
Owned-split base h ns [] p after owned d =
    ((owned.0, tt), owned.1, d.0, d.1, λ x out. (ground (arith, out), ground (arith, out)))
Owned-split base h ns (q ∷ before) p after owned d =
    let (own, others, out, distinct, fewer) = Owned-split base h ns before p after owned.1 d.1 in
    (
      own,
      (owned.0, others),
      ground (arith, out, (fewer q.at d.0).1),
      ((fewer q.at d.0).0, distinct),
      λ x out'.
          let (rest, other) = fewer x (ground (arith, out')) in (ground (arith, out', rest), other),
    )

pub free_block-IsHeap :
    (base a : ℕ) (h : Heap) (ns : List ℕ) → IsHeap base h ns → IsHeap base (free_block a h) ns
unfolding free_block
free_block-IsHeap base a h ns heap = record {
  row = heap.row;
  bound = heap.bound;
  word = heap.word;
  aligned = heap.aligned;
  scan = heap.scan;
}
