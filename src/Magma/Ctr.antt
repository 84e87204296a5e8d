-- ===== src/Magma/Ctr.antt =====
-- magma.c: the counter mode. The data are the words of 64 bits that the code touches, the last one whole
-- also when the data end in it; `v`, which the source does not set, is an argument.
use cmsis_rtos.Base.{
  ℕ, zero, suc, ◌+◌, ◌*◌, ◌/◌, ◌%◌, ◌^◌, ◌≡◌, refl, ap, ap₂, ◌∙◌, bit_xor, List, [], ◌∷◌,
}
use cmsis_rtos.Base.Word.{add32}
use cmsis_rtos.Base.Xor.{bit_xor-zero, bit_xor_comm, bit_xor_assoc, bit_xor_self}
use cmsis_rtos.Magma.{magma_encrypt}

-- `__builtin_bswap64`, eight bytes from the lowest one on.
unfoldable pub swap_bytes : ℕ → ℕ → ℕ → ℕ
swap_bytes zero x r = r
swap_bytes (suc n) x r = swap_bytes n (x / 256) (r * 256 + x % 256)

-- The loop of `magma_ctr` from the value `count` of the counter on.
unfoldable pub ctr_from : (ℕ → ℕ) → ℕ → ℕ → ℕ → List ℕ → List ℕ
ctr_from key iv count v [] = []
ctr_from key iv count v (w ∷ ws) =
    let v' = bit_xor v (swap_bytes 8 (magma_encrypt key (iv * 2 ^ 32 + count)) 0) in
    bit_xor w v' ∷ ctr_from key iv (add32 count 1) v' ws

unfoldable pub magma_ctr : ℕ → (ℕ → ℕ) → ℕ → List ℕ → List ℕ
magma_ctr v key iv ws = ctr_from key iv 0 v ws

ctr_from-twice :
    (key : ℕ → ℕ) (iv count v : ℕ) (ws : List ℕ)
    → ctr_from key iv count v (ctr_from key iv count v ws) ≡ ws
unfolding ctr_from
ctr_from-twice key iv count v [] = refl
ctr_from-twice key iv count v (w ∷ ws) =
    let v' = bit_xor v (swap_bytes 8 (magma_encrypt key (iv * 2 ^ 32 + count)) 0) in
    ap₂ (λ x xs. x ∷ xs)
      (bit_xor_assoc w v' v' ∙ ap (bit_xor w) (bit_xor_self v') ∙ bit_xor_comm w 0 ∙ bit_xor-zero w)
      (ctr_from-twice key iv (add32 count 1) v' ws)

-- A second run of the counter mode, with the same key, `iv` and start of `v`, gives the data back.
pub magma_ctr-magma_ctr :
    (v : ℕ) (key : ℕ → ℕ) (iv : ℕ) (ws : List ℕ) → magma_ctr v key iv (magma_ctr v key iv ws) ≡ ws
unfolding magma_ctr
magma_ctr-magma_ctr v key iv ws = ctr_from-twice key iv 0 v ws
