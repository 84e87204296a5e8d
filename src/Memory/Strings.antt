-- ===== src/Memory/Strings.antt =====
-- The string functions against `memcpy`.
use cmsis_rtos.Base.{ℕ, zero, suc, ◌+◌, ◌<◌, ◌≡◌, ◌≢◌, ◌⊎◌, ap, ◌∙◌, false, some, ◌==◌, arith}
use cmsis_rtos.Memory.{Bytes, poke, copy_up, memcpy, end_of, strcpy, strcat}

-- At `s` stands a string of `n` characters and then the zero.
abbrev pub IsString : Bytes → ℕ → ℕ → Type 0
IsString m s zero = m s ≡ 0
IsString m s (suc n) = (m s ≢ 0) × IsString m (s + 1) n

IsString-poke :
    (m : Bytes) (p v s n : ℕ) → (p < s) ⊎ (s + n < p) → IsString m s n → IsString (poke m p v) s n
IsString-poke m p v s zero out w = ground (arith, out, w)
IsString-poke m p v s (suc n) out w =
    (ground (arith, out, w.0), IsString-poke m p v (s + 1) n (ground (arith, out)) w.1)

end_of_lem :
    (rounds : ℕ) (m : Bytes) (s n : ℕ)
    → IsString m s n
    → n < rounds
    → end_of rounds m s ≡ some (s + n)
unfolding end_of
end_of_lem zero m s n w l = absurd (omega arith)
end_of_lem (suc rounds) m s zero w l = ground (arith, w)
end_of_lem (suc rounds) m s (suc n) w l =
    let more : (m s == 0) ≡ false = ground (arith, w.0) in
    rw (more, end_of) (end_of_lem rounds m (s + 1) n w.1 (omega arith) ∙ ap some (omega arith))

-- When the string at the source has `n` characters and the two places do not overlap, `strcpy`
-- ends, in one round more than that, and does what `memcpy` does with its characters and its zero.
pub strcpy-memcpy :
    (rounds : ℕ) (m : Bytes) (dst src n : ℕ)
    → IsString m src n
    → (dst + n < src) ⊎ (src + n < dst)
    → n < rounds
    → strcpy rounds m dst src ≡ some (memcpy m dst src (suc n))
unfolding strcpy memcpy copy_up
strcpy-memcpy zero m dst src n w apart l = absurd (omega arith)
strcpy-memcpy (suc rounds) m dst src zero w apart l = ground (arith, w)
strcpy-memcpy (suc rounds) m dst src (suc n) w apart l =
    let more : (m src == 0) ≡ false = ground (arith, w.0) in
    let kept = IsString-poke m dst (m src) (src + 1) n (ground (arith, apart)) w.1 in
    rw (more, strcpy)
      (strcpy-memcpy rounds (poke m dst (m src)) (dst + 1) (src + 1) n kept (ground (arith, apart))
        (omega arith))

-- With a string of `k` characters at `a`, one of `n` at `b`, and no overlap of the second one with
-- the place behind the first, `strcat` ends and does what `memcpy` does to that place.
pub strcat-memcpy :
    (rounds : ℕ) (m : Bytes) (a k b n : ℕ)
    → IsString m a k
    → IsString m b n
    → (a + k + n < b) ⊎ (b + n < a + k)
    → k < rounds
    → n < rounds
    → strcat rounds m a b ≡ some (memcpy m (a + k) b (suc n))
unfolding strcat
strcat-memcpy rounds m a k b n u w apart l h =
    rw (end_of_lem rounds m a k u l, strcat) (strcpy-memcpy rounds m (a + k) b n w apart h)
