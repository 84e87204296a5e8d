-- ===== src/Mail/Count.antt =====
-- The number of blocks of a pool that are in use.
use cmsis_rtos.Base.{
  ℕ, zero, suc, ◌+◌, ◌≤◌, ◌<◌, ◌≡◌, refl, inl, inr, Bool, true, false, ◌||◌, ◌==◌, if◌then◌else◌,
  Bool-cases, ==→eq, arith,
}

-- How many of the first numbers pass a test.
abbrev pub tally : ℕ → (ℕ → Bool) → ℕ
tally zero f = 0
tally (suc n) f = (if f n then 1 else 0) + tally n f

pub tally-none : (n : ℕ) (f : ℕ → Bool) → ((k : ℕ) → f k ≡ false) → tally n f ≡ 0
tally-none zero f h = refl
tally-none (suc n) f h = ground (arith, h n, tally-none n f h)

pub tally-all : (n : ℕ) (f : ℕ → Bool) → ((k : ℕ) → k < n → f k ≡ true) → tally n f ≡ n
tally-all zero f h = refl
tally-all (suc n) f h = ground (arith, h n (omega arith), tally-all n f (λ k l. h k (omega arith)))

tally_same :
    (n : ℕ) (f g : ℕ → Bool) (x : ℕ)
    → n ≤ x
    → ((k : ℕ) → g k ≡ ((x == k) || f k))
    → tally n g ≡ tally n f
tally_same zero f g x l h = refl
tally_same (suc n) f g x l h = ground (arith, h n, tally_same n f g x (omega arith) h)

-- One number more passes.
pub tally-more :
    (n : ℕ) (f g : ℕ → Bool) (x : ℕ)
    → x < n
    → f x ≡ false
    → ((k : ℕ) → g k ≡ ((x == k) || f k))
    → tally n g ≡ suc (tally n f)
tally-more zero f g x l out h = absurd (omega arith)
tally-more (suc n) f g x l out h = elim (Bool-cases (x == n)) [
  | inl here ↦
      let same = ==→eq x n here in
      ground (arith, h n, same, out, tally_same n f g x (omega (arith, same)) h)
  | inr below ↦ ground (arith, h n, below, tally-more n f g x (ground (arith, below)) out h)
]

pub tally_bound : (n : ℕ) (f : ℕ → Bool) → tally n f ≤ n
tally_bound zero f = omega arith
tally_bound (suc n) f = ground (arith, tally_bound n f)
