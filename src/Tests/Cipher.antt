-- ===== src/Tests/Cipher.antt =====
-- magma.c at the values that its comments give.
use cmsis_rtos.Base.{ℕ, ◌≡◌, refl, List, [], ◌∷◌, ◌++◌, get_or, arith}
use cmsis_rtos.Magma.{
  t, g, substitute, pass, encrypt_down, encrypt_up, magma_encrypt, magma_decrypt,
}
use cmsis_rtos.Magma.Inverse.{expanded, magma_decrypt-magma_encrypt}
use cmsis_rtos.Magma.Cmac.{magma_cmac}
use cmsis_rtos.Magma.Cmac.Standard.{cmac_blocks, magma_cmac-cmac_blocks}

abbrev key_1 : ℕ → ℕ
key_1 i =
    get_or
      (0xfcfdfeff ∷ 0xf8f9fafb ∷ 0xf4f5f6f7 ∷ 0xf0f1f2f3 ∷ 0x33221100 ∷ 0x77665544 ∷ 0xbbaa9988
        ∷ 0xffeeddcc ∷ [])
      i 0

substituted : t 0xfdb97531 ≡ 0x2a196f34
unfolding t substitute
substituted = refl

rotated : g 0x87654321 0xfedcba98 ≡ 0xfdcbc20c
unfolding g t substitute
rotated = refl

abbrev enciphered : ℕ
enciphered = magma_encrypt key_1 0xfedcba9876543210

enciphered_lem : enciphered ≡ 0x4ee901e5c2d8ca3d
unfolding magma_encrypt encrypt_down encrypt_up pass g t substitute
enciphered_lem = refl

magma_decrypt-magma_encrypt_example : magma_decrypt (expanded key_1) enciphered ≡ 0xfedcba9876543210
magma_decrypt-magma_encrypt_example =
    magma_decrypt-magma_encrypt key_1 0xfedcba9876543210 (omega arith)

abbrev text : List ℕ
text = 1 ∷ 2 ∷ 3 ∷ 4 ∷ 5 ∷ 6 ∷ 7 ∷ 8 ∷ 9 ∷ []

magma_cmac-cmac_blocks_example :
    magma_cmac key_1 text (10 ∷ 11 ∷ []) ≡ cmac_blocks 11 key_1 0 (text ++ (10 ∷ 11 ∷ []))
magma_cmac-cmac_blocks_example = magma_cmac-cmac_blocks key_1 text (10 ∷ 11 ∷ []) (omega arith)
