-- ===== src/Heap/Merged.antt =====
-- Rows of blocks of which two are joined, or the last one is given back.
use cmsis_rtos.Base.{
  ℕ, ◌+◌, ◌≡◌, ◌≢◌, refl, ap, ◌∙◌, inl, inr, true, ◌||◌, Bool-cases, List, [], ◌∷◌, contains, ◌==◌,
  ==→eq, arith,
}
use cmsis_rtos.Heap.{put}
use cmsis_rtos.Heap.Row.{IsRow, starts, starts-bounds, IsRow-put, below_row}

merged_first :
    (size : ℕ → ℕ) (p n : ℕ) (ns : List ℕ) (last : ℕ)
    → IsRow size p (n ∷ ns) last
    → p + size p ≢ last
    → (ns' : List ℕ) × IsRow (put size p (size p + size (p + size p))) p ns' last
      × (contains p (starts p ns') ≡ true)
      × ((a : ℕ)
          → contains a (starts p (n ∷ ns)) ≡ true
          → a ≢ p + size p
          → contains a (starts p ns') ≡ true)
merged_first size p n [] last row ne = absurd (ne (omega (arith, row.0, row.2)))
merged_first size p n (m ∷ ns) last row ne =
    let both = size p + size (p + size p) in
    let second : size (p + size p) ≡ m = ap (λ k. size (p + k)) row.0 ∙ row.2.0 in
    let place : p + (n + m) ≡ p + n + m = omega arith in
    (
      (n + m) ∷ ns,
      (
        ground (arith, row.0, second),
        omega (arith, row.1, row.2.1),
        rw place (
            IsRow-put size (p + n + m) ns last p both
              (below_row size (p + n + m) ns last p row.2.2 (omega (arith, row.1))) row.2.2),
      ),
      ground arith,
      λ a i other. rw place (ground (arith, i, other, row.0)),
    )

reclaimed_first :
    (size : ℕ → ℕ) (p n : ℕ) (ns : List ℕ) (last : ℕ)
    → IsRow size p (n ∷ ns) last
    → p + size p ≡ last
    → (ns' : List ℕ) × IsRow size p ns' p
      × ((a : ℕ) → contains a (starts p (n ∷ ns)) ≡ true → a ≢ p → contains a (starts p ns') ≡ true)
reclaimed_first size p n [] last row e = ([], refl, λ a i other. ground (arith, i, other))
reclaimed_first size p n (m ∷ ns) last row e =
    let (le, _) = starts-bounds size (p + n + m) ns last p row.2.2 in
    absurd (omega (arith, row.0, row.2.1))

-- Two neighbours joined.
pub merged :
    (size : ℕ → ℕ) (p : ℕ) (ns : List ℕ) (last b : ℕ)
    → IsRow size p ns last
    → contains b (starts p ns) ≡ true
    → b + size b ≢ last
    → (ns' : List ℕ) × IsRow (put size b (size b + size (b + size b))) p ns' last
      × (contains b (starts p ns') ≡ true)
      × ((a : ℕ)
          → contains a (starts p ns) ≡ true
          → a ≢ b + size b
          → contains a (starts p ns') ≡ true)
merged size p [] last b row h ne = cc
merged size p (n ∷ ns) last b row h ne = elim (Bool-cases (p == b)) [
  | inl here ↦
      let same = ==→eq p b here in rw (← same) (merged_first size p n ns last row (rw same ne))
  | inr later ↦
      let (ns', row', self, keep) = merged size (p + n) ns last b row.2 (ground (arith, h)) ne in
      (
        n ∷ ns',
        (ground (arith, row.0, later), row.1, row'),
        ground (arith, self),
        λ a i other. elim (Bool-cases (p == a)) [
          | inl first ↦ ground arith
          | inr behind ↦ let rest = keep a (ground (arith, i)) other in ground (arith, rest)
        ],
      )
]

-- The last block given back.
pub reclaimed :
    (size : ℕ → ℕ) (p : ℕ) (ns : List ℕ) (last b : ℕ)
    → IsRow size p ns last
    → contains b (starts p ns) ≡ true
    → b + size b ≡ last
    → (ns' : List ℕ) × IsRow size p ns' b
      × ((a : ℕ) → contains a (starts p ns) ≡ true → a ≢ b → contains a (starts p ns') ≡ true)
reclaimed size p [] last b row h e = cc
reclaimed size p (n ∷ ns) last b row h e = elim (Bool-cases (p == b)) [
  | inl here ↦
      let same = ==→eq p b here in rw (← same) (reclaimed_first size p n ns last row (rw same e))
  | inr later ↦
      let (ns', row', keep) = reclaimed size (p + n) ns last b row.2 (ground (arith, h)) e in
      (
        n ∷ ns',
        (row.0, row.1, row'),
        λ a i other. elim (Bool-cases (p == a)) [
          | inl first ↦ ground arith
          | inr behind ↦ let rest = keep a (ground (arith, i)) other in ground (arith, rest)
        ],
      )
]

pub first_start :
    (size : ℕ → ℕ) (p : ℕ) (ns : List ℕ) (last : ℕ)
    → IsRow size p ns last
    → (contains p (starts p ns) || (p == last)) ≡ true
first_start size p [] last row = ground (arith, row)
first_start size p (n ∷ ns) last row = ground arith
