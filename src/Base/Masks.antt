-- ===== src/Base/Masks.antt =====
-- Masks and shifted fields as arithmetic, bytes by evaluation, and the leading zeros of a word.
use Prim.Native.Nat.{ℕ, zero, suc, ◌+◌, ◌-◌, ◌*◌, ◌/◌, ◌%◌, ◌^◌, ◌≤◌, ◌<◌, bit_and, bit_or}
use mathlib.Core.Path.{◌≡◌, refl, ap}
use mathlib.Core.Logic.{inl, inr}
use mathlib.Core.Bool.{Bool, true, ◌&&◌}
use native.Mathlib.Nat.{pow-suc, one-le-pow}
use native.Mathlib.Omega.{arith}
use cmsis_rtos.Base.Tests.{◌==◌, ltb, if◌then◌else◌, Bool-cases, ==→eq}
use cmsis_rtos.Base.Bits.{bit_or-zero, pow_lt}
use cmsis_rtos.Base.Bits.Step.{bit_and_step, bit_or_step}

-- A test on every number below a bound.
unfoldable pub holds_below : ℕ → (ℕ → Bool) → Bool
holds_below zero test = true
holds_below (suc n) test = test n && holds_below n test

pub holds_below-true :
    (n : ℕ) (test : ℕ → Bool) (x : ℕ) → holds_below n test ≡ true → x < n → test x ≡ true
unfolding holds_below
holds_below-true zero test x all h = absurd (omega arith)
holds_below-true (suc n) test x all h = elim (Bool-cases (x == n)) [
  | inl last ↦ ground arith
  | inr other ↦ ground (arith, holds_below-true n test x)
]

-- An equation between functions on bytes that holds at every byte.
pub on_bytes :
    (f g : ℕ → ℕ) → holds_below 256 (λ x. f x == g x) ≡ true → (x : ℕ) → x < 256 → f x ≡ g x
on_bytes f g all x h = ==→eq (f x) (g x) (holds_below-true 256 (λ x. f x == g x) x all h)

no-bits : (n a : ℕ) → a ≤ n → bit_and a 0 ≡ 0
no-bits n zero h = refl
no-bits zero (suc a) h = absurd (omega arith)
no-bits (suc n) (suc a) h =
    omega (arith, bit_and_step (suc a) 0, no-bits n (suc a / 2) (omega arith))

twice : (k q : ℕ) → q * 2 ^ suc k ≡ 2 * (q * 2 ^ k)
twice k q = omega (arith, ap (λ (t : ℕ). q * t) (pow-suc 2 k))

low_field : (k q r : ℕ) → r < 2 ^ k → bit_and (q * 2 ^ k + r) (2 ^ k - 1) ≡ r
low_field zero q r h = omega (arith, no-bits (q * 1 + r) (q * 1 + r) (omega arith))
low_field (suc k) q r h = ground (
  arith,
  twice k q,
  pow-suc 2 k,
  bit_and_step (q * 2 ^ suc k + r) (2 ^ suc k - 1),
  one-le-pow k 2,
  low_field k q (r / 2),
)

-- A mask of low bits takes the remainder.
pub bit_and_low : (k a : ℕ) → bit_and a (2 ^ k - 1) ≡ a % 2 ^ k
bit_and_low k a = ground (arith, one-le-pow k 2, low_field k (a / 2 ^ k) (a % 2 ^ k))

-- A field beside one of `k` bits.
pub bit_or_shifted : (k q r : ℕ) → r < 2 ^ k → bit_or (q * 2 ^ k) r ≡ q * 2 ^ k + r
bit_or_shifted zero q r h = ground (arith, bit_or-zero q)
bit_or_shifted (suc k) q r h =
    ground
      (arith, twice k q, pow-suc 2 k, bit_or_step (q * 2 ^ suc k) r, bit_or_shifted k q (r / 2))

-- `__builtin_clz` in a word of `w` bits.
unfoldable pub clz : ℕ → ℕ → ℕ
clz zero a = 0
clz (suc w) a = let rest = suc (clz w a) in if ltb a (2 ^ w) then rest else 0

pub clz-lower : (w j a : ℕ) → a < 2 ^ j → w ≤ clz w a + j
unfolding clz
clz-lower zero j a h = omega arith
clz-lower (suc w) j a h = elim (Bool-cases (ltb a (2 ^ w))) [
  | inl small ↦ rw small (omega (arith, clz-lower w j a h))
  | inr large ↦ elim (Bool-cases (ltb w j)) [
    | inl above ↦ ground arith
    | inr below ↦ elim (Bool-cases (j == w)) [
      | inl same ↦ let e = ==→eq j w same in absurd (ground (arith, ap (λ (t : ℕ). 2 ^ t) e))
      | inr less ↦ absurd (ground (arith, pow_lt j w))
    ]
  ]
]

pub clz-upper : (w k a : ℕ) → 2 ^ k ≤ a → k < w → clz w a + k + 1 ≤ w
unfolding clz
clz-upper zero k a h l = absurd (omega arith)
clz-upper (suc w) k a h l = elim (Bool-cases (ltb a (2 ^ w))) [
  | inr large ↦ rw large (omega arith)
  | inl small ↦ elim (Bool-cases (k == w)) [
    | inl same ↦ let e = ==→eq k w same in absurd (ground (arith, ap (λ (t : ℕ). 2 ^ t) e))
    | inr less ↦ rw small (let ih = clz-upper w k a h (ground arith) in omega arith)
  ]
]
