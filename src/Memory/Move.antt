-- ===== src/Memory/Move.antt =====
-- What the copying loops leave in memory.
use cmsis_rtos.Base.{
  ℕ, zero, suc, ◌+◌, ◌-◌, ◌≤◌, ◌<◌, ◌≡◌, ◌≢◌, ap, ◌∙◌, Bool, Bool-cases, inl, inr, ◌==◌, ◌&&◌,
  if◌then◌else◌, leb, ltb, arith,
}
use cmsis_rtos.Base.Word.{u8}
use cmsis_rtos.Memory.{Bytes, poke, copy_up, copy_down, memmove, memset}

-- Whether an address is one of the `n` bytes from `p` on.
abbrev pub in_range : ℕ → ℕ → ℕ → Bool
in_range p n q = leb p q && ltb q (p + n)

poke-other : (m : Bytes) (p v q : ℕ) → q ≢ p → poke m p v q ≡ m q
poke-other m p v q ne = ground arith

copy_up_lem :
    (m : Bytes) (dst src n q : ℕ)
    → dst ≤ src
    → copy_up m dst src n q ≡ (if in_range dst n q then m (src + (q - dst)) else m q)
unfolding copy_up
copy_up_lem m dst src zero q h = ground arith
copy_up_lem m dst src (suc n) q h =
    let rest = copy_up_lem (poke m dst (m src)) (dst + 1) (src + 1) n q (omega arith) in
    elim (Bool-cases (ltb dst q)) [
      | inl beyond ↦
          let below : dst < q = ground arith in
          let shifted : src + 1 + (q - (dst + 1)) ≡ src + (q - dst) = omega arith in
          let kept = poke-other m dst (m src) (src + (q - dst)) (omega arith) in
          let moved = ap (poke m dst (m src)) shifted ∙ kept in ground (arith, rest, moved)
      | inr upto ↦
          let above : q ≤ dst = ground arith in
          let first : m (src + (q - dst)) ≡ m src = ap m (omega arith) in
          ground (arith, rest, first)
    ]

copy_down_lem :
    (m : Bytes) (dst src n q : ℕ)
    → src < dst
    → copy_down m dst src n q ≡ (if in_range dst n q then m (src + (q - dst)) else m q)
unfolding copy_down
copy_down_lem m dst src zero q h = ground arith
copy_down_lem m dst src (suc n) q h =
    let rest = copy_down_lem (poke m (dst + n) (m (src + n))) dst src n q h in
    elim (Bool-cases (in_range dst n q)) [
      | inl inside ↦
          let below : q < dst + n = ground arith in
          let kept =
            poke-other m (dst + n) (m (src + n)) (src + (q - dst)) (ground (arith, inside)) in
          ground (arith, rest, kept)
      | inr outside ↦
          let last : q ≡ dst + n → m (src + n) ≡ m (src + (q - dst)) = λ e. ap m (omega arith) in
          elim (Bool-cases (q == dst + n)) [
            | inl end ↦ let at = last (ground (arith, end)) in ground (arith, rest, at)
            | inr other ↦ ground (arith, rest)
          ]
    ]

-- Whether or not the two ranges overlap, `memmove` leaves at the destination what was at the
-- source, and changes no other byte.
pub memmove_lem :
    (m : Bytes) (dst src n q : ℕ)
    → memmove m dst src n q ≡ (if in_range dst n q then m (src + (q - dst)) else m q)
unfolding memmove
memmove_lem m dst src n q = elim (Bool-cases (ltb src dst)) [
  | inl above ↦ rw (above, memmove) (copy_down_lem m dst src n q (ground arith))
  | inr below ↦ rw (below, memmove) (copy_up_lem m dst src n q (ground arith))
]

-- `memset` leaves the low byte of its argument in the `n` bytes, and changes no other byte.
pub memset_lem :
    (m : Bytes) (dst c n q : ℕ) → memset m dst c n q ≡ (if in_range dst n q then u8 c else m q)
unfolding memset
memset_lem m dst c zero q = ground arith
memset_lem m dst c (suc n) q = ground (arith, memset_lem (poke m dst (u8 c)) (dst + 1) c n q)
