-- ===== src/Memory/Compare.antt =====
-- What the comparisons return.
use cmsis_rtos.Base.{ℕ, zero, suc, ◌+◌, ◌^◌, ◌<◌, ◌≡◌, Bool, true, ◌==◌, ◌&&◌, ltb, refl, arith}
use cmsis_rtos.Memory.{Bytes, memcmp}

-- Every cell of the memory is a byte.
abbrev pub IsBytes : Bytes → Type 0
IsBytes m = (p : ℕ) → m p < 2 ^ 8

-- Whether two ranges of `n` bytes are the same.
abbrev pub same_bytes : Bytes → ℕ → ℕ → ℕ → Bool
same_bytes m s1 s2 zero = true
same_bytes m s1 s2 (suc n) = (m (s1 + n) == m (s2 + n)) && same_bytes m s1 s2 n

-- On a memory of bytes `memcmp` returns 0 exactly when the two ranges are the same.
pub memcmp_lem :
    (m : Bytes) (s1 s2 n : ℕ) → IsBytes m → (memcmp m s1 s2 n == 0) ≡ same_bytes m s1 s2 n
unfolding memcmp
memcmp_lem m s1 s2 zero b = refl
memcmp_lem m s1 s2 (suc n) b = ground (arith, memcmp_lem m s1 s2 n b, b (s1 + n), b (s2 + n))

-- When the last of two ranges of bytes differ and the first range has the smaller last byte,
-- `memcmp` returns a positive number, whatever stands before.
pub memcmp_reversed :
    (m : Bytes) (s1 s2 n : ℕ)
    → IsBytes m
    → m (s1 + n) < m (s2 + n)
    → ltb 0 (memcmp m s1 s2 (suc n)) && ltb (memcmp m s1 s2 (suc n)) (2 ^ 31) ≡ true
unfolding memcmp
memcmp_reversed m s1 s2 n b l = ground (arith, b (s1 + n), b (s2 + n))
