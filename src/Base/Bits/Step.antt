-- ===== src/Base/Bits/Step.antt =====
-- `&` and `|` on the lowest bit and on the other bits.
use Prim.Native.Nat.{
  ℕ, zero, suc, ◌+◌, ◌*◌, ◌/◌, ◌%◌, ◌≤◌, min, max, digits, bit_and, bit_or, bit_and-bitwise,
  bit_or-bitwise,
}
use mathlib.Core.Path.{◌≡◌, refl, ap, ◌∙◌}
use mathlib.Core.Logic.{inl, inr}
use native.Mathlib.Omega.{arith}
use cmsis_rtos.Base.Tests.{◌==◌, Bool-cases}

-- A round more than there are digits changes nothing.
spare_round :
    (rest : ℕ → ℕ) (digit : ℕ → ℕ → ℕ) (x rounds y : ℕ)
    → x ≤ rounds
    → digits rest digit (suc rounds) x y ≡ digits rest digit rounds x y
spare_round rest digit (suc x) (suc rounds) y h =
    let halved = spare_round rest digit (suc x / 2) rounds (y / 2) (omega arith) in
    ap (λ high. high * 2 + digit (suc x % 2) (y % 2)) halved
spare_round rest digit (suc x) zero y h = absurd (omega arith)
spare_round rest digit zero zero y h = refl
spare_round rest digit zero (suc rounds) y h = refl

-- As many rounds as the number itself are enough.
pub enough_rounds :
    (rest : ℕ → ℕ) (digit : ℕ → ℕ → ℕ) (rounds x y : ℕ)
    → x ≤ rounds
    → digits rest digit rounds x y ≡ digits rest digit x x y
enough_rounds rest digit zero x y h =
    let none_left : 0 ≡ x = omega arith in ap (λ n. digits rest digit n x y) none_left
enough_rounds rest digit (suc rounds) x y h = elim (Bool-cases (x == suc rounds)) [
  | inl all ↦ let same : suc rounds ≡ x = ground arith in ap (λ n. digits rest digit n x y) same
  | inr fewer ↦
      let below : x ≤ rounds = ground arith in
      spare_round rest digit x rounds y below ∙ enough_rounds rest digit rounds x y below
]

pub bit_and_step : (x y : ℕ) → bit_and x y ≡ min (x % 2) (y % 2) + 2 * bit_and (x / 2) (y / 2)
bit_and_step zero y = simp bit_and-bitwise (omega arith)
bit_and_step (suc x) y =
    let high = enough_rounds (λ _. 0) min x (suc x / 2) (y / 2) (omega arith) in
    simp bit_and-bitwise (omega (arith, high))

pub bit_or_step : (x y : ℕ) → bit_or x y ≡ max (x % 2) (y % 2) + 2 * bit_or (x / 2) (y / 2)
bit_or_step zero y = simp bit_or-bitwise (omega arith)
bit_or_step (suc x) y =
    let high = enough_rounds (λ n. n) max x (suc x / 2) (y / 2) (omega arith) in
    simp bit_or-bitwise (omega (arith, high))

pub bit_and-zero : (y : ℕ) → bit_and 0 y ≡ 0
bit_and-zero y = simp bit_and-bitwise (omega arith)
