-- ===== src/Magma/Cmac/Standard.antt =====
-- The authentication code by the blocks of the whole of its data.
use cmsis_rtos.Base.{
  ℕ, zero, suc, ◌+◌, ◌-◌, ◌%◌, ◌≤◌, ◌<◌, ◌≡◌, refl, sym, ap, ◌∙◌, subst, fun_ext, inl, inr, true,
  false, Bool-cases, bit_xor, List, [], ◌∷◌, ◌++◌, length, length-append, ◌==◌, leb, ltb,
  if◌then◌else◌, arith,
}
use cmsis_rtos.Base.Xor.{bit_xor_assoc}
use cmsis_rtos.Magma.{magma_encrypt}
use cmsis_rtos.Magma.Cmac.{
  drop, htonll, bytes, Ccm, magma_cmac_init, magma_cmac_update, doubled, magma_cmac_fini,
  magma_cmac,
}
use cmsis_rtos.Magma.Cmac.Pieces.{
  step, absorb, absorb-append, absorb_short, absorb_block, length-drop, bytes-append, bytes_beyond,
  IsAt, magma_cmac_init-IsAt, magma_cmac_update-IsAt, magma_cmac_update-key,
}

-- The last block, of one to eight bytes: a short one is padded by 0x80 and zeros, and the subkey tells the
-- two cases apart.
unfoldable pub finish : (ℕ → ℕ) → ℕ → List ℕ → ℕ
finish key m p =
    let k1 = doubled (magma_encrypt key 0) in
    if length p == 8
    then magma_encrypt key (bit_xor (bit_xor m (htonll (bytes p))) k1)
    else magma_encrypt key (bit_xor (bit_xor m (htonll (bytes (p ++ (0x80 ∷ []))))) (doubled k1))

-- The chain over the blocks before the last one, within a number of blocks.
unfoldable pub cmac_blocks : ℕ → (ℕ → ℕ) → ℕ → List ℕ → ℕ
cmac_blocks zero key m xs = finish key m xs
cmac_blocks (suc n) key m xs =
    let rest = cmac_blocks n key (magma_encrypt key (bit_xor m (htonll (bytes xs)))) (drop 8 xs) in
    if leb (length xs) 8 then finish key m xs else rest

cmac_blocks-absorb :
    (n : ℕ) (key : ℕ → ℕ) (m : ℕ) (xs : List ℕ)
    → length xs ≤ n + 8
    → let s = absorb key (m, []) xs in cmac_blocks n key m xs ≡ finish key s.0 s.1
unfolding cmac_blocks
cmac_blocks-absorb zero key m xs h =
    ap (λ s. finish key s.0 s.1) (sym (absorb_short key m [] xs (omega (arith, h))))
cmac_blocks-absorb (suc n) key m xs h = elim (Bool-cases (leb (length xs) 8)) [
  | inl short ↦
      rw (short, cmac_blocks)
        (ap (λ s. finish key s.0 s.1) (sym (absorb_short key m [] xs (ground (arith, short)))))
  | inr long ↦
      let m' = magma_encrypt key (bit_xor m (htonll (bytes xs))) in
      rw (long, cmac_blocks)
        (cmac_blocks-absorb n key m' (drop 8 xs) (omega (arith, h, length-drop 8 xs))
          ∙ ap (λ s. finish key s.0 s.1) (sym (absorb_block key m xs (ground (arith, long)))))
]

step_some : (key : ℕ → ℕ) (s : ℕ × List ℕ) (b : ℕ) → 0 < length (step key s b).1
unfolding step
step_some key (m, p) b = elim (Bool-cases (length p == 8)) [
  | inl full ↦ rw full (omega arith)
  | inr room ↦ rw room (omega (arith, length-append p (b ∷ [])))
]

absorb_some :
    (key : ℕ → ℕ) (s : ℕ × List ℕ) (xs : List ℕ)
    → 0 < length s.1 + length xs
    → 0 < length (absorb key s xs).1
unfolding absorb
absorb_some key s [] h = omega (arith, h)
absorb_some key s (x ∷ xs) h = absorb_some key (step key s x) xs (omega (arith, step_some key s x))

padded : (p : List ℕ) → (λ i. if i == length p then 0x80 else bytes p i) ≡ bytes (p ++ (0x80 ∷ []))
padded p = fun_ext λ i. elim (Bool-cases (i == length p)) [
  | inl here ↦ ground (arith, bytes-append p (0x80 ∷ []) i, here)
  | inr other ↦ elim (Bool-cases (ltb i (length p))) [
    | inl inside ↦ ground (arith, bytes-append p (0x80 ∷ []) i, other, inside)
    | inr beyond ↦ ground (
      arith,
      bytes-append p (0x80 ∷ []) i,
      other,
      beyond,
      bytes_beyond p i (ground (arith, beyond)),
      bytes_beyond (0x80 ∷ []) (i - length p) (ground (arith, other, beyond)),
    )
  ]
]

-- The end of the code at a context with a byte or more in its block.
magma_cmac_fini-finish :
    (ctx : Ccm) (m : ℕ) (p : List ℕ)
    → IsAt ctx m p
    → 0 < length p
    → magma_cmac_fini ctx ≡ finish ctx.key m p
unfolding magma_cmac_fini finish
magma_cmac_fini-finish ctx m p h l = elim (Bool-cases (length p == 8)) [
  | inl full ↦
      let whole : (length p % 8 == 0) ≡ true = ground (arith, full) in
      rw (h.len, whole, full, h.sum, h.last)
        (ap (magma_encrypt ctx.key) (sym (bit_xor_assoc m _ _)))
  | inr short ↦
      let part : (length p % 8 == 0) ≡ false = ground (arith, short, h.small, l) in
      let own : length p % 8 ≡ length p = ground (arith, short, h.small) in
      rw (h.len, part, short, h.sum, h.last, own, padded p)
        (ap (magma_encrypt ctx.key) (sym (bit_xor_assoc m _ _)))
]

-- An update that is left out for no data.
given : Ccm → List ℕ → Ccm
given ctx xs = if length xs == 0 then ctx else magma_cmac_update ctx xs

given-IsAt :
    (key : ℕ → ℕ) (ctx : Ccm) (m : ℕ) (p xs : List ℕ)
    → ctx.key ≡ key
    → IsAt ctx m p
    → let s = absorb key (m, p) xs in IsAt (given ctx xs) s.0 s.1 × ((given ctx xs).key ≡ key)
unfolding given absorb
given-IsAt key ctx m p [] same h = (h, same)
given-IsAt key ctx m p (x ∷ xs) same h =
    let some_data : (suc (length xs) == 0) ≡ false = ground arith in
    let updated =
      subst (λ k. let s = absorb k (m, p) (x ∷ xs) in IsAt (magma_cmac_update ctx (x ∷ xs)) s.0 s.1)
        same (magma_cmac_update-IsAt ctx m p (x ∷ xs) h) in
    rw some_data (updated, magma_cmac_update-key ctx (x ∷ xs) ∙ same)

-- For any data of one byte or more, given as two pieces of which one may be empty, `magma_cmac` is the
-- code over the blocks of the whole: every block but the last one is added and enciphered, and the last
-- one with the subkey for a full or a padded block.
pub magma_cmac-cmac_blocks :
    (key : ℕ → ℕ) (iv xs : List ℕ)
    → 0 < length (iv ++ xs)
    → magma_cmac key iv xs ≡ cmac_blocks (length (iv ++ xs)) key 0 (iv ++ xs)
unfolding magma_cmac magma_cmac_init given
magma_cmac-cmac_blocks key iv xs some_data =
    let ctx = magma_cmac_init key in
    let s1 = absorb key (0, []) iv in
    let (at1, key1) = given-IsAt key ctx 0 [] iv refl (magma_cmac_init-IsAt key) in
    let (at2, key2) = given-IsAt key (given ctx iv) s1.0 s1.1 xs key1 at1 in
    let whole = absorb-append key (0, []) iv xs in
    let some_block = absorb_some key (0, []) (iv ++ xs) (omega (arith, some_data)) in
    let ends = subst (λ s. IsAt (given (given ctx iv) xs) s.0 s.1) (sym whole) at2 in
    let s = absorb key (0, []) (iv ++ xs) in
    magma_cmac_fini-finish (given (given ctx iv) xs) s.0 s.1 ends some_block
    ∙ ap (λ k. finish k s.0 s.1) key2
    ∙ sym (cmac_blocks-absorb (length (iv ++ xs)) key 0 (iv ++ xs) (omega arith))
