-- ===== src/Magma/Cmac.antt =====
-- magma.c: the authentication code, whose data may come in pieces, and the counter mode.
pub mod Pieces
pub mod Standard
use cmsis_rtos.Base.{
  ℕ, zero, suc, ◌+◌, ◌-◌, ◌*◌, ◌/◌, ◌%◌, ◌^◌, Bool, bit_xor, List, [], ◌∷◌, length, get_or, ◌==◌,
  leb, ltb, ◌&&◌, if◌then◌else◌,
}
use cmsis_rtos.Base.Word.{u32}
use cmsis_rtos.Magma.{magma_encrypt}

abbrev pub take : ℕ → List ℕ → List ℕ
take zero xs = []
take (suc n) [] = []
take (suc n) (x ∷ xs) = x ∷ take n xs

abbrev pub drop : ℕ → List ℕ → List ℕ
drop zero xs = xs
drop (suc n) [] = []
drop (suc n) (x ∷ xs) = drop n xs

-- `htonll` of eight bytes of memory.
unfoldable pub htonll : (ℕ → ℕ) → ℕ
htonll b =
    ((((((b 0 * 256 + b 1) * 256 + b 2) * 256 + b 3) * 256 + b 4) * 256 + b 5) * 256 + b 6) * 256
    + b 7

abbrev pub bytes : List ℕ → ℕ → ℕ
bytes xs i = get_or xs i 0

-- `__builtin_memcpy` of bytes to the place `at`.
abbrev pub copied : (ℕ → ℕ) → ℕ → List ℕ → ℕ → ℕ
copied b at xs i = if leb at i && ltb i (at + length xs) then bytes xs (i - at) else b i

-- `CCM_t`; `last_block` by its bytes in memory.
pub record Ccm : Type 0 where
  pub last_block : ℕ → ℕ
  pub sum : ℕ
  pub key : ℕ → ℕ
  pub len : ℕ

unfoldable pub magma_cmac_init : (ℕ → ℕ) → Ccm
magma_cmac_init key = record { last_block = λ i. 0; sum = 0; key = key; len = 0 }

-- The first part of `magma_cmac_update`, on a block that is not full: the context and the data left.
unfoldable pub fill : Ccm → List ℕ → Ccm × List ℕ
fill ctx data_in =
    let slen = if ltb (length data_in) (8 - ctx.len) then length data_in else 8 - ctx.len in
    if ctx.len % 8 == 0 then (ctx, data_in) else (
      record ctx {
        last_block = copied ctx.last_block ctx.len (take slen data_in);
        len = ctx.len + slen;
      },
      drop slen data_in,
    )

-- The loop over whole blocks: the sum and the data left.
unfoldable pub chain : ℕ → (ℕ → ℕ) → ℕ → List ℕ → ℕ × List ℕ
chain zero key m xs = (m, xs)
chain (suc blocks) key m xs =
    chain blocks key (magma_encrypt key (bit_xor m (htonll (bytes xs)))) (drop 8 xs)

-- What follows when there are data left, with the last block cleared when it was full.
unfoldable pub digest_from : Ccm → (ℕ → ℕ) → ℕ → List ℕ → Ccm
digest_from ctx last_block m xs =
    let (m', rest) = chain ((length xs - 1) / 8) ctx.key m xs in
    record ctx { last_block = copied last_block 0 rest; sum = m'; len = length rest }

unfoldable pub digest : Ccm → List ℕ → Ccm
digest ctx xs =
    let m = magma_encrypt ctx.key (bit_xor ctx.sum (htonll ctx.last_block)) in
    if ctx.len == 8
    then digest_from ctx (λ i. 0) m xs
    else digest_from ctx ctx.last_block ctx.sum xs

unfoldable pub magma_cmac_update : Ccm → List ℕ → Ccm
magma_cmac_update ctx xs =
    let (ctx', rest) = fill ctx xs in if length rest == 0 then ctx' else digest ctx' rest

-- `__builtin_add_overflow (K1, K1, &K1)` and the reduction.
unfoldable pub doubled : ℕ → ℕ
doubled k = if leb (2 ^ 64) (k + k) then bit_xor ((k + k) % 2 ^ 64) 0x1B else (k + k) % 2 ^ 64

unfoldable pub magma_cmac_fini : Ccm → ℕ
magma_cmac_fini ctx =
    let k1 = doubled (magma_encrypt ctx.key 0) in
    let whole = ctx.len % 8 == 0 in
    let k = if whole then k1 else doubled k1 in
    let last : ℕ → ℕ =
      if whole
      then ctx.last_block
      else (λ i. if i == ctx.len % 8 then 0x80 else ctx.last_block i) in
    magma_encrypt ctx.key (bit_xor ctx.sum (bit_xor (htonll last) k))

unfoldable pub magma_cmac : (ℕ → ℕ) → List ℕ → List ℕ → ℕ
magma_cmac key iv xs =
    let ctx = magma_cmac_init key in
    let ctx1 = if length iv == 0 then ctx else magma_cmac_update ctx iv in
    magma_cmac_fini (if length xs == 0 then ctx1 else magma_cmac_update ctx1 xs)
