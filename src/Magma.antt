-- ===== src/Magma.antt =====
-- magma.c: the block cipher of 64-bit blocks, its authentication code and its counter mode. A key is eight
-- words by their number; data are bytes, and `htonll` of eight bytes of memory is their value with
-- the first byte highest.
pub mod Inverse
pub mod Cmac
pub mod Ctr
use cmsis_rtos.Base.{
  ℕ, zero, suc, ◌+◌, ◌-◌, ◌*◌, ◌/◌, ◌%◌, ◌^◌, bit_and, bit_xor, bit_or, List, [], ◌∷◌, length,
  get_or, ◌==◌, leb, ltb, ◌&&◌, if◌then◌else◌,
}
use cmsis_rtos.Base.Word.{u32, add32}

abbrev pub sbox : List (List ℕ)
sbox =
    (12 ∷ 4 ∷ 6 ∷ 2 ∷ 10 ∷ 5 ∷ 11 ∷ 9 ∷ 14 ∷ 8 ∷ 13 ∷ 7 ∷ 0 ∷ 3 ∷ 15 ∷ 1 ∷ [])
    ∷ (6 ∷ 8 ∷ 2 ∷ 3 ∷ 9 ∷ 10 ∷ 5 ∷ 12 ∷ 1 ∷ 14 ∷ 4 ∷ 7 ∷ 11 ∷ 13 ∷ 0 ∷ 15 ∷ [])
    ∷ (11 ∷ 3 ∷ 5 ∷ 8 ∷ 2 ∷ 15 ∷ 10 ∷ 13 ∷ 14 ∷ 1 ∷ 7 ∷ 4 ∷ 12 ∷ 9 ∷ 6 ∷ 0 ∷ [])
    ∷ (12 ∷ 8 ∷ 2 ∷ 1 ∷ 13 ∷ 4 ∷ 15 ∷ 6 ∷ 7 ∷ 0 ∷ 10 ∷ 5 ∷ 3 ∷ 14 ∷ 9 ∷ 11 ∷ [])
    ∷ (7 ∷ 15 ∷ 5 ∷ 10 ∷ 8 ∷ 1 ∷ 6 ∷ 13 ∷ 0 ∷ 9 ∷ 3 ∷ 14 ∷ 11 ∷ 4 ∷ 2 ∷ 12 ∷ [])
    ∷ (5 ∷ 13 ∷ 15 ∷ 6 ∷ 9 ∷ 2 ∷ 12 ∷ 10 ∷ 11 ∷ 7 ∷ 8 ∷ 1 ∷ 4 ∷ 3 ∷ 14 ∷ 0 ∷ [])
    ∷ (8 ∷ 14 ∷ 2 ∷ 5 ∷ 6 ∷ 9 ∷ 1 ∷ 12 ∷ 15 ∷ 4 ∷ 11 ∷ 0 ∷ 13 ∷ 10 ∷ 3 ∷ 7 ∷ [])
    ∷ (1 ∷ 7 ∷ 14 ∷ 13 ∷ 0 ∷ 5 ∷ 8 ∷ 3 ∷ 4 ∷ 15 ∷ 10 ∷ 6 ∷ 9 ∷ 12 ∷ 11 ∷ 2 ∷ [])
    ∷ []

-- The loop of `t` over the rows of the table from row `i` on.
unfoldable pub substitute : List (List ℕ) → ℕ → ℕ → ℕ → ℕ
substitute [] i a r = r
substitute (row ∷ rows) i a r =
    let x = bit_and (a / 2 ^ (i * 4)) 15 in
    substitute rows (suc i) a (bit_xor r (get_or row x 0 * 2 ^ (i * 4)))

-- `t`, and `g` with its rotation by 11 bits.
unfoldable pub t : ℕ → ℕ
t a = substitute sbox 0 a 0

unfoldable pub g : ℕ → ℕ → ℕ
g k a = let x = t (add32 k a) in u32 (bit_or (x * 2 ^ 11) (x / 2 ^ 21))

-- Two rounds, with the two keys of one pass of a loop.
unfoldable pub pass : ℕ → ℕ → ℕ × ℕ → ℕ × ℕ
pass k1 k2 (n1, n2) = let n2' = bit_xor n2 (g k1 n1) in (bit_xor n1 (g k2 n2'), n2')

-- The two loops of `magma_encrypt`, `at` being the place of the pointer in the key.
unfoldable pub encrypt_down : ℕ → ℕ → (ℕ → ℕ) → ℕ × ℕ → ℕ × (ℕ × ℕ)
encrypt_down zero at key n = (at, n)
encrypt_down (suc count) at key n =
    let from = if at == 0 then 8 else at in
    encrypt_down count (from - 2) key (pass (key (from - 1)) (key (from - 2)) n)

unfoldable pub encrypt_up : ℕ → ℕ → (ℕ → ℕ) → ℕ × ℕ → ℕ × ℕ
encrypt_up zero at key n = n
encrypt_up (suc count) at key n = encrypt_up count (at + 2) key (pass (key at) (key (at + 1)) n)

-- Two words as one of 64 bits, whose halves do not meet.
abbrev pub joined : ℕ × ℕ → ℕ
joined (n1, n2) = n1 * 2 ^ 32 + n2

unfoldable pub magma_encrypt : (ℕ → ℕ) → ℕ → ℕ
magma_encrypt key v =
    let (at, n) = encrypt_down 12 0 key (u32 v, u32 (v / 2 ^ 32)) in joined (encrypt_up 4 at key n)

-- The loop of `magma_decrypt` from the key `i` of 32 keys down, and `magma_decrypt`.
unfoldable pub unpass : ℕ → ℕ → ℕ × ℕ → ℕ × ℕ
unpass k k' (a0, a1) = let a1' = bit_xor a1 (g k a0) in (bit_xor a0 (g k' a1'), a1')

unfoldable pub decrypt_loop : ℕ → ℕ → (ℕ → ℕ) → ℕ × ℕ → ℕ × ℕ
decrypt_loop zero i key a = a
decrypt_loop (suc count) i key a = decrypt_loop count (i - 2) key (unpass (key i) (key (i - 1)) a)

unfoldable pub magma_decrypt : (ℕ → ℕ) → ℕ → ℕ
magma_decrypt key v = joined (decrypt_loop 16 31 key (u32 v, u32 (v / 2 ^ 32)))
