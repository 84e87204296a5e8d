-- ===== src/Base/Xor.antt =====
-- The laws of `^` on words of any width.
use Prim.Native.Nat.{
  ℕ, zero, suc, ◌+◌, ◌*◌, ◌/◌, ◌%◌, ◌^◌, ◌≤◌, ◌<◌, bit_xor, bit_xor-bitwise, differ,
}
use mathlib.Core.Path.{◌≡◌, refl, ◌∙◌}
use native.Mathlib.Nat.{pow-suc}
use native.Mathlib.Omega.{arith}
use cmsis_rtos.Base.Bits.Step.{enough_rounds}

differ_parity : (a b : ℕ) → a < 2 → b < 2 → differ a b ≡ (a + b) % 2
differ_parity zero b h k = omega arith
differ_parity (suc zero) zero h k = refl
differ_parity (suc zero) (suc zero) h k = refl
differ_parity (suc zero) (suc (suc b)) h k = absurd (omega arith)
differ_parity (suc (suc a)) b h k = absurd (omega arith)

pub bit_xor_step : (x y : ℕ) → bit_xor x y ≡ (x % 2 + y % 2) % 2 + 2 * bit_xor (x / 2) (y / 2)
bit_xor_step zero y = simp bit_xor-bitwise (omega arith)
bit_xor_step (suc x) y =
    let high = enough_rounds (λ n. n) differ x (suc x / 2) (y / 2) (omega arith) in
    let low = differ_parity (suc x % 2) (y % 2) (omega arith) (omega arith) in
    simp bit_xor-bitwise (omega (arith, high, low))

pub bit_xor-zero : (a : ℕ) → bit_xor 0 a ≡ a
bit_xor-zero a = simp bit_xor-bitwise refl

comm_to : (n a b : ℕ) → a ≤ n → b ≤ n → bit_xor a b ≡ bit_xor b a
comm_to zero zero zero h k = refl
comm_to zero (suc a) b h k = absurd (omega arith)
comm_to zero zero (suc b) h k = absurd (omega arith)
comm_to (suc n) a b h k = omega (
  arith,
  bit_xor_step a b,
  bit_xor_step b a,
  comm_to n (a / 2) (b / 2) (omega arith) (omega arith),
)

pub bit_xor_comm : (a b : ℕ) → bit_xor a b ≡ bit_xor b a
bit_xor_comm a b = comm_to (a + b) a b (omega arith) (omega arith)

assoc_to : (n a b c : ℕ) → a ≤ n → b ≤ n → c ≤ n → bit_xor (bit_xor a b) c ≡ bit_xor a (bit_xor b c)
assoc_to zero zero zero zero h k l = refl
assoc_to zero (suc a) b c h k l = absurd (omega arith)
assoc_to zero zero (suc b) c h k l = absurd (omega arith)
assoc_to zero zero zero (suc c) h k l = absurd (omega arith)
assoc_to (suc n) a b c h k l =
    let left : bit_xor a b / 2 ≡ bit_xor (a / 2) (b / 2) = omega (arith, bit_xor_step a b) in
    let right : bit_xor b c / 2 ≡ bit_xor (b / 2) (c / 2) = omega (arith, bit_xor_step b c) in
    let ih = assoc_to n (a / 2) (b / 2) (c / 2) (omega arith) (omega arith) (omega arith) in
    let outer_left = rw left at (bit_xor_step (bit_xor a b) c) in
    let outer_right = rw right at (bit_xor_step a (bit_xor b c)) in
    omega (arith, bit_xor_step a b, bit_xor_step b c, outer_left, outer_right, ih)

pub bit_xor_assoc : (a b c : ℕ) → bit_xor (bit_xor a b) c ≡ bit_xor a (bit_xor b c)
bit_xor_assoc a b c = assoc_to (a + b + c) a b c (omega arith) (omega arith) (omega arith)

self_to : (n a : ℕ) → a ≤ n → bit_xor a a ≡ 0
self_to zero zero h = refl
self_to zero (suc a) h = absurd (omega arith)
self_to (suc n) a h = omega (arith, bit_xor_step a a, self_to n (a / 2) (omega arith))

pub bit_xor_self : (a : ℕ) → bit_xor a a ≡ 0
bit_xor_self a = self_to a a (omega arith)

pub bit_xor-half : (a b : ℕ) → bit_xor a b / 2 ≡ bit_xor (a / 2) (b / 2)
bit_xor-half a b = omega (arith, bit_xor_step a b)

pub bit_xor-parity : (a b : ℕ) → bit_xor a b % 2 ≡ (a % 2 + b % 2) % 2
bit_xor-parity a b = omega (arith, bit_xor_step a b)

-- The digits above and below the lowest four.
pub bit_xor-div16 : (a b : ℕ) → bit_xor a b / 16 ≡ bit_xor (a / 16) (b / 16)
bit_xor-div16 a b =
    let first : a / 2 / 2 / 2 / 2 ≡ a / 16 = omega arith in
    let second : b / 2 / 2 / 2 / 2 ≡ b / 16 = omega arith in
    let last = rw (first, second) at (bit_xor-half (a / 2 / 2 / 2) (b / 2 / 2 / 2)) in
    omega (
      arith,
      bit_xor-half a b,
      bit_xor-half (a / 2) (b / 2),
      bit_xor-half (a / 2 / 2) (b / 2 / 2),
      last,
    )

pub bit_xor-lt : (w a b : ℕ) → a < 2 ^ w → b < 2 ^ w → bit_xor a b < 2 ^ w
bit_xor-lt zero zero zero h k = h
bit_xor-lt zero (suc a) b h k = absurd (omega arith)
bit_xor-lt zero zero (suc b) h k = absurd (omega arith)
bit_xor-lt (suc w) a b h k = omega (
  arith,
  pow-suc 2 w,
  bit_xor_step a b,
  bit_xor-lt w (a / 2) (b / 2) (omega (arith, pow-suc 2 w)) (omega (arith, pow-suc 2 w)),
)

-- A number is the exclusive or of its digits above the lowest four and of those.
pub split16 : (a : ℕ) → bit_xor (a / 16 * 16) (a % 16) ≡ a
split16 a =
    let x = a / 16 * 16 in
    let y = a % 16 in
    let high : x / 2 / 2 / 2 / 2 ≡ a / 16 = omega arith in
    let low : y / 2 / 2 / 2 / 2 ≡ 0 = omega arith in
    let last = rw (high, low) at (bit_xor_step (x / 2 / 2 / 2) (y / 2 / 2 / 2)) in
    let rest = bit_xor_comm (a / 16) 0 ∙ bit_xor-zero (a / 16) in
    omega (
      arith,
      bit_xor_step x y,
      bit_xor_step (x / 2) (y / 2),
      bit_xor_step (x / 2 / 2) (y / 2 / 2),
      last,
      rest,
    )
