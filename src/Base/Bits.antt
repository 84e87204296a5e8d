-- ===== src/Base/Bits.antt =====
-- Single bits of a word, and what `&`, `|`, `~` do to them, at every width.
pub mod Step
use Step.{bit_or_step, bit_and_step, bit_and-zero}
use Prim.Native.Nat.{ℕ, zero, suc, ◌+◌, ◌-◌, ◌*◌, ◌/◌, ◌%◌, ◌^◌, ◌≤◌, ◌<◌, bit_and, bit_or}
use mathlib.Core.Path.{◌≡◌, refl}
use mathlib.Core.Logic.{◌≢◌, inl, inr}
use mathlib.Core.Bool.{Bool, true, false, not, ◌&&◌, ◌||◌}
use native.Mathlib.Nat.{pow-suc, one-le-pow}
use native.Mathlib.Omega.{arith}
use cmsis_rtos.Base.Tests.{◌==◌, if◌then◌else◌, Bool-cases}

-- Bit `i` of `a`, that is `a & (1 << i)` as a truth value.
unfoldable pub test_bit : ℕ → ℕ → Bool
test_bit a zero = a % 2 == 1
test_bit a (suc i) = test_bit (a / 2) i

-- `~a` in `w` bits.
abbrev pub bit_not : ℕ → ℕ → ℕ
bit_not w a = 2 ^ w - 1 - a

-- `__builtin_ctz`, the number of low zero bits, over the first `w` bits.
unfoldable pub ctz : ℕ → ℕ → ℕ
ctz zero a = 0
ctz (suc w) a = let rest = suc (ctz w (a / 2)) in if a % 2 == 1 then 0 else rest

pub test_bit-bit_or : (a b i : ℕ) → test_bit (bit_or a b) i ≡ (test_bit a i || test_bit b i)
unfolding test_bit
test_bit-bit_or a b zero = ground (arith, bit_or_step a b)
test_bit-bit_or a b (suc i) =
    let half : bit_or a b / 2 ≡ bit_or (a / 2) (b / 2) = omega (arith, bit_or_step a b) in
    rw half (test_bit-bit_or (a / 2) (b / 2) i)

pub test_bit-bit_and : (a b i : ℕ) → test_bit (bit_and a b) i ≡ (test_bit a i && test_bit b i)
unfolding test_bit
test_bit-bit_and a b zero = ground (arith, bit_and_step a b)
test_bit-bit_and a b (suc i) =
    let half : bit_and a b / 2 ≡ bit_and (a / 2) (b / 2) = omega (arith, bit_and_step a b) in
    rw half (test_bit-bit_and (a / 2) (b / 2) i)

pub test_bit-zero : (i : ℕ) → test_bit 0 i ≡ false
unfolding test_bit
test_bit-zero zero = refl
test_bit-zero (suc i) = test_bit-zero i

pub test_bit-pow : (k i : ℕ) → test_bit (2 ^ k) i ≡ (k == i)
unfolding test_bit
test_bit-pow zero zero = refl
test_bit-pow zero (suc i) = ground (arith, test_bit-zero i)
test_bit-pow (suc k) zero = ground (arith, pow-suc 2 k)
test_bit-pow (suc k) (suc i) =
    let half : 2 ^ suc k / 2 ≡ 2 ^ k = omega (arith, pow-suc 2 k) in
    rw half (ground (arith, test_bit-pow k i))

pub test_bit-bit_not :
    (w a i : ℕ) → a < 2 ^ w → i < w → test_bit (bit_not w a) i ≡ not (test_bit a i)
unfolding test_bit
test_bit-bit_not zero a i h k = absurd (omega arith)
test_bit-bit_not (suc w) a zero h k = ground (arith, pow-suc 2 w)
test_bit-bit_not (suc w) a (suc i) h k =
    let half : bit_not (suc w) a / 2 ≡ bit_not w (a / 2) = omega (arith, pow-suc 2 w) in
    rw half (test_bit-bit_not w (a / 2) i (omega (arith, pow-suc 2 w)) (omega arith))

bit_or-zero_fuel : (n a : ℕ) → a ≤ n → bit_or a 0 ≡ a
bit_or-zero_fuel n zero h = refl
bit_or-zero_fuel zero (suc a) h = absurd (omega arith)
bit_or-zero_fuel (suc n) (suc a) h =
    omega (arith, bit_or_step (suc a) 0, bit_or-zero_fuel n (suc a / 2) (omega arith))

pub bit_or-zero : (a : ℕ) → bit_or a 0 ≡ a
bit_or-zero a = bit_or-zero_fuel a a (omega arith)

-- Setting a clear bit adds its weight, so the word grows.
pub bit_or_clear : (a k : ℕ) → test_bit a k ≡ false → bit_or a (2 ^ k) ≡ a + 2 ^ k
unfolding test_bit
bit_or_clear a zero h = ground (arith, bit_or_step a 1, bit_or-zero (a / 2))
bit_or_clear a (suc k) h =
    let half : 2 ^ suc k / 2 ≡ 2 ^ k = omega (arith, pow-suc 2 k) in
    let low : 2 ^ suc k % 2 ≡ 0 = omega (arith, pow-suc 2 k) in
    let rest : bit_or (a / 2) (2 ^ suc k / 2) ≡ a / 2 + 2 ^ k =
      rw half (bit_or_clear (a / 2) k h) in
    omega (arith, bit_or_step a (2 ^ suc k), pow-suc 2 k)

pub ctz_lem : (w a : ℕ) → a < 2 ^ w → a ≢ 0 → (ctz w a < w) × (test_bit a (ctz w a) ≡ true)
unfolding ctz test_bit
ctz_lem zero a h ne = absurd (omega arith)
ctz_lem (suc w) a h ne = elim (Bool-cases (a % 2 == 1)) [
  | inl odd ↦ rw odd (omega arith, odd)
  | inr even ↦
      let (below, set) = ctz_lem w (a / 2) (omega (arith, pow-suc 2 w)) (ground arith) in
      rw even (omega arith, set)
]

pub bit_or-lt : (w a b : ℕ) → a < 2 ^ w → b < 2 ^ w → bit_or a b < 2 ^ w
bit_or-lt zero zero zero h k = h
bit_or-lt zero (suc a) b h k = absurd (omega arith)
bit_or-lt zero zero (suc b) h k = absurd (omega arith)
bit_or-lt (suc w) a b h k = omega (
  arith,
  pow-suc 2 w,
  bit_or_step a b,
  bit_or-lt w (a / 2) (b / 2) (omega (arith, pow-suc 2 w)) (omega (arith, pow-suc 2 w)),
)

pub bit_and-lt : (w a b : ℕ) → a < 2 ^ w → bit_and a b < 2 ^ w
bit_and-lt zero zero b h = omega (arith, bit_and-zero b)
bit_and-lt zero (suc a) b h = absurd (omega arith)
bit_and-lt (suc w) a b h = omega (
  arith,
  pow-suc 2 w,
  bit_and_step a b,
  bit_and-lt w (a / 2) (b / 2) (omega (arith, pow-suc 2 w)),
)

pub bit_and_le : (w a b : ℕ) → a < 2 ^ w → bit_and a b ≤ a
bit_and_le zero zero b h = omega (arith, bit_and-zero b)
bit_and_le zero (suc a) b h = absurd (omega arith)
bit_and_le (suc w) a b h = omega (
  arith,
  pow-suc 2 w,
  bit_and_step a b,
  bit_and_le w (a / 2) (b / 2) (omega (arith, pow-suc 2 w)),
)

pub pow_lt : (i w : ℕ) → i < w → 2 ^ i < 2 ^ w
pow_lt i zero h = absurd (omega arith)
pow_lt zero (suc w) h = omega (arith, pow-suc 2 w, one-le-pow w 2 (omega arith))
pow_lt (suc i) (suc w) h = omega (arith, pow-suc 2 w, pow-suc 2 i, pow_lt i w (omega arith))
