-- ===== src/Magma/Inverse.antt =====
-- The cipher is undone by `magma_decrypt`.
use cmsis_rtos.Base.{
  ℕ, ◌-◌, ◌/◌, ◌%◌, ◌^◌, ◌<◌, ◌≡◌, refl, ap, ap₂, ◌∙◌, bit_xor, List, [], ◌∷◌, ltb, if◌then◌else◌,
  arith,
}
use cmsis_rtos.Base.Word.{u32}
use cmsis_rtos.Base.Xor.{bit_xor-zero, bit_xor_comm, bit_xor_assoc, bit_xor_self, bit_xor-lt}
use cmsis_rtos.Magma.{
  g, pass, encrypt_down, encrypt_up, joined, magma_encrypt, unpass, decrypt_loop, magma_decrypt,
}

-- The 32 keys that `magma_decrypt` takes, in the order in which `magma_encrypt` uses the eight.
abbrev pub expanded : (ℕ → ℕ) → ℕ → ℕ
expanded key i = if ltb i 24 then key (7 - i % 8) else key (i - 24)

swap : ℕ × ℕ → ℕ × ℕ
swap (a, b) = (b, a)

abbrev Pairs : Type 0
Pairs = List (ℕ × ℕ)

passes : Pairs → ℕ × ℕ → ℕ × ℕ
passes [] n = n
passes ((k1, k2) ∷ ks) n = passes ks (pass k1 k2 n)

unpasses : Pairs → ℕ × ℕ → ℕ × ℕ
unpasses [] a = a
unpasses ((k1, k2) ∷ ks) a = unpass k2 k1 (unpasses ks a)

xor_back : (a b : ℕ) → bit_xor (bit_xor a b) b ≡ a
xor_back a b =
    bit_xor_assoc a b b ∙ ap (bit_xor a) (bit_xor_self b) ∙ bit_xor_comm a 0 ∙ bit_xor-zero a

unpass-pass : (k1 k2 : ℕ) (n : ℕ × ℕ) → unpass k2 k1 (swap (pass k1 k2 n)) ≡ swap n
unfolding unpass pass swap
unpass-pass k1 k2 (n1, n2) =
    let n2' = bit_xor n2 (g k1 n1) in
    let first = xor_back n1 (g k2 n2') in
    ap₂ (λ a b. (a, b)) (ap (λ m. bit_xor n2' (g k1 m)) first ∙ xor_back n2 (g k1 n1)) first

unpasses-passes : (ks : Pairs) (n : ℕ × ℕ) → unpasses ks (swap (passes ks n)) ≡ swap n
unfolding passes unpasses
unpasses-passes [] n = refl
unpasses-passes ((k1, k2) ∷ ks) n =
    ap (unpass k2 k1) (unpasses-passes ks (pass k1 k2 n)) ∙ unpass-pass k1 k2 n

keys : (ℕ → ℕ) → Pairs
keys key =
    (key 7, key 6)
    ∷ (key 5, key 4)
    ∷ (key 3, key 2)
    ∷ (key 1, key 0)
    ∷ (key 7, key 6)
    ∷ (key 5, key 4)
    ∷ (key 3, key 2)
    ∷ (key 1, key 0)
    ∷ (key 7, key 6)
    ∷ (key 5, key 4)
    ∷ (key 3, key 2)
    ∷ (key 1, key 0)
    ∷ (key 0, key 1)
    ∷ (key 2, key 3)
    ∷ (key 4, key 5)
    ∷ (key 6, key 7)
    ∷ []

encrypt-passes :
    (key : ℕ → ℕ) (v : ℕ)
    → magma_encrypt key v ≡ joined (passes (keys key) (u32 v, u32 (v / 2 ^ 32)))
unfolding magma_encrypt encrypt_down encrypt_up passes keys
encrypt-passes key v = refl

decrypt-unpasses :
    (key : ℕ → ℕ) (a : ℕ × ℕ) → decrypt_loop 16 31 (expanded key) a ≡ unpasses (keys key) a
unfolding decrypt_loop unpasses keys
decrypt-unpasses key a = refl

pass_bound :
    (k1 k2 : ℕ) (n : ℕ × ℕ)
    → n.0 < 2 ^ 32
    → n.1 < 2 ^ 32
    → ((pass k1 k2 n).0 < 2 ^ 32) × ((pass k1 k2 n).1 < 2 ^ 32)
unfolding pass g
pass_bound k1 k2 (n1, n2) h k =
    (bit_xor-lt 32 n1 _ h (omega arith), bit_xor-lt 32 n2 _ k (omega arith))

passes_bound :
    (ks : Pairs) (n : ℕ × ℕ)
    → n.0 < 2 ^ 32
    → n.1 < 2 ^ 32
    → ((passes ks n).0 < 2 ^ 32) × ((passes ks n).1 < 2 ^ 32)
unfolding passes
passes_bound [] n h k = (h, k)
passes_bound ((k1, k2) ∷ ks) n h k =
    let (h', k') = pass_bound k1 k2 n h k in passes_bound ks (pass k1 k2 n) h' k'

halves :
    (n : ℕ × ℕ) → n.0 < 2 ^ 32 → n.1 < 2 ^ 32 → (u32 (joined n), u32 (joined n / 2 ^ 32)) ≡ swap n
unfolding swap
halves (a, b) h k = ap₂ (λ x y. (x, y)) (omega arith) (omega arith)

-- For every key of eight words, `magma_decrypt` with the 32 keys in the order of the rounds gives back
-- every block of 64 bits that `magma_encrypt` has enciphered.
pub magma_decrypt-magma_encrypt :
    (key : ℕ → ℕ) (v : ℕ) → v < 2 ^ 64 → magma_decrypt (expanded key) (magma_encrypt key v) ≡ v
unfolding magma_decrypt swap
magma_decrypt-magma_encrypt key v h =
    let n : ℕ × ℕ = (u32 v, u32 (v / 2 ^ 32)) in
    let (low, high) = passes_bound (keys key) n (omega arith) (omega arith) in
    let w = magma_encrypt key v in
    let parts : (u32 w, u32 (w / 2 ^ 32)) ≡ swap (passes (keys key) n) =
      ap (λ x. (u32 x, u32 (x / 2 ^ 32))) (encrypt-passes key v)
      ∙ halves (passes (keys key) n) low high in
    ap joined (
      ap (decrypt_loop 16 31 (expanded key)) parts
      ∙ decrypt-unpasses key (swap (passes (keys key) n))
      ∙ unpasses-passes (keys key) n)
    ∙ omega (arith, h)
