-- ===== src/Heap/Row.antt =====
-- The row of the blocks.
use cmsis_rtos.Base.{
  ℕ, ◌+◌, ◌-◌, ◌*◌, ◌/◌, ◌%◌, ◌^◌, ◌≤◌, ◌<◌, ◌≡◌, ◌≢◌, ◌⊎◌, inl, inr, true, false, ◌||◌, Bool-cases,
  List, [], ◌∷◌, contains, ◌==◌, ==→eq, arith, bit_and,
}
use cmsis_rtos.Base.Bits.{bit_not}
use cmsis_rtos.Base.Bits.Step.{bit_and_step}
use cmsis_rtos.Base.Masks.{bit_and_low}
use cmsis_rtos.Heap.{put}

-- From `p` the blocks of these sizes, in whole words, stand in a row up to `last`.
abbrev pub IsRow : (ℕ → ℕ) → ℕ → List ℕ → ℕ → Type 0
IsRow size p [] last = p ≡ last
IsRow size p (n ∷ ns) last = (size p ≡ n) × ((3 < n) × (n % 4 ≡ 0)) × IsRow size (p + n) ns last

abbrev pub starts : ℕ → List ℕ → List ℕ
starts p [] = []
starts p (n ∷ ns) = p ∷ starts (p + n) ns

pub starts-bounds :
    (size : ℕ → ℕ) (p : ℕ) (ns : List ℕ) (last a : ℕ)
    → IsRow size p ns last
    → (p ≤ last) × (contains a (starts p ns) ≡ true → (p ≤ a) × (a + size a ≤ last) × (3 < size a))
starts-bounds size p [] last a row = (omega (arith, row), λ h. cc)
starts-bounds size p (n ∷ ns) last a row =
    let (le, inside) = starts-bounds size (p + n) ns last a row.2 in
    (
      omega arith,
      λ h. elim (Bool-cases (p == a)) [
        | inl here ↦ let same = ==→eq p a here in ground (arith, row.0, row.1, le, same)
        | inr later ↦
            let (low, high, big) = inside (ground (arith, h, later)) in (omega arith, high, big)
      ],
    )

-- A block that starts outside of a row may change.
pub IsRow-put :
    (size : ℕ → ℕ) (p : ℕ) (ns : List ℕ) (last b v : ℕ)
    → contains b (starts p ns) ≡ false
    → IsRow size p ns last
    → IsRow (put size b v) p ns last
IsRow-put size p [] last b v out row = row
IsRow-put size p (n ∷ ns) last b v out row = (
  ground (arith, out, row.0),
  row.1,
  IsRow-put size (p + n) ns last b v (ground (arith, out)) row.2,
)

pub below_row :
    (size : ℕ → ℕ) (p : ℕ) (ns : List ℕ) (last b : ℕ)
    → IsRow size p ns last
    → b < p
    → contains b (starts p ns) ≡ false
below_row size p ns last b row h = elim (Bool-cases (contains b (starts p ns))) [
  | inr out ↦ out
  | inl inside ↦ absurd (omega (arith, ((starts-bounds size p ns last b row).1 inside).0))
]

-- Behind a block stands another one, or the end.
pub next_start :
    (size : ℕ → ℕ) (p : ℕ) (ns : List ℕ) (last a : ℕ)
    → IsRow size p ns last
    → contains a (starts p ns) ≡ true
    → (contains (a + size a) (starts p ns) || (a + size a == last)) ≡ true
next_start size p [] last a row h = cc
next_start size p (n ∷ []) last a row h = ground (arith, row.0, row.2, h)
next_start size p (n ∷ (m ∷ ns)) last a row h = elim (Bool-cases (p == a)) [
  | inl here ↦ ground (arith, row.0, here)
  | inr later ↦
      let rest = next_start size (p + n) (m ∷ ns) last a row.2 (ground (arith, h)) in
      ground (arith, rest)
]

-- Two blocks do not overlap.
pub starts-apart :
    (size : ℕ → ℕ) (p : ℕ) (ns : List ℕ) (last a b : ℕ)
    → IsRow size p ns last
    → contains a (starts p ns) ≡ true
    → contains b (starts p ns) ≡ true
    → a ≢ b
    → (a + size a ≤ b) ⊎ (b + size b ≤ a)
starts-apart size p [] last a b row h k ne = cc
starts-apart size p (n ∷ ns) last a b row h k ne = elim (Bool-cases (p == a)) [
  | inl here ↦
      let same = ==→eq p a here in
      let inside = (starts-bounds size (p + n) ns last b row.2).1 (ground (arith, k, same, ne)) in
      inl (ground (arith, same, row.0, inside.0))
  | inr later ↦ elim (Bool-cases (p == b)) [
    | inl here ↦
        let same = ==→eq p b here in
        let inside = (starts-bounds size (p + n) ns last a row.2).1 (ground (arith, h, later)) in
        inr (ground (arith, same, row.0, inside.0))
    | inr other ↦
        starts-apart size (p + n) ns last a b row.2 (ground (arith, h)) (ground (arith, k)) ne
  ]
]

-- A size rounded up to words.
pub rounded : (n : ℕ) → n < 2 ^ 32 → bit_and n (bit_not 32 3) ≡ n / 4 * 4
rounded n h = omega (
  arith,
  bit_and_step n (bit_not 32 3),
  bit_and_step (n / 2) (2 ^ 31 - 2),
  bit_and_low 30 (n / 2 / 2),
)

pub aligned_end :
    (size : ℕ → ℕ) (p : ℕ) (ns : List ℕ) (last : ℕ)
    → IsRow size p ns last
    → p % 4 ≡ 0
    → last % 4 ≡ 0
aligned_end size p [] last row h = omega (arith, row)
aligned_end size p (n ∷ ns) last row h =
    aligned_end size (p + n) ns last row.2 (omega (arith, row.1))
