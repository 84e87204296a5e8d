-- ===== src/Checksum/Bitwise.antt =====
-- The updates by four bits against the division by the polynomial bit by bit, which is the function
-- that the comment above `modbus_crc16_update` spells out.
use cmsis_rtos.Base.{
  ℕ, ◌*◌, ◌/◌, ◌%◌, ◌^◌, ◌<◌, ◌≡◌, refl, sym, ap, ap₂, ◌∙◌, inl, inr, true, false, Bool-cases, ◌==◌,
  if◌then◌else◌, List, get_or, arith, bit_and, bit_xor, ==→eq,
}
use cmsis_rtos.Base.Xor.{
  bit_xor-zero, bit_xor_comm, bit_xor_assoc, bit_xor_self, bit_xor-half, bit_xor-parity,
  bit_xor-div16, bit_xor-lt, split16,
}
use cmsis_rtos.Base.Masks.{bit_and_low, holds_below, holds_below-true}
use cmsis_rtos.Checksum.{
  crc16m_table, crc32b_table, table_step, modbus_crc16_update, crc32b_update, product_step,
  crc16b_update,
}

-- The division of one bit, and of four and eight bits.
abbrev pub bit_step : ℕ → ℕ → ℕ
bit_step poly x = if x % 2 == 1 then bit_xor (x / 2) poly else x / 2

pub four_steps : ℕ → ℕ → ℕ
four_steps poly x = bit_step poly (bit_step poly (bit_step poly (bit_step poly x)))

pub bitwise_update : ℕ → ℕ → ℕ → ℕ
bitwise_update poly crc val = four_steps poly (four_steps poly (bit_xor crc val))

cancel : (a b p : ℕ) → bit_xor (bit_xor a p) (bit_xor b p) ≡ bit_xor a b
cancel a b p =
    bit_xor_assoc a p (bit_xor b p)
    ∙ ap (λ x. bit_xor a x)
        (ap (λ x. bit_xor p x) (bit_xor_comm b p)
          ∙ sym (bit_xor_assoc p p b)
          ∙ ap (λ x. bit_xor x b) (bit_xor_self p)
          ∙ bit_xor-zero b)

swap_last : (a b p : ℕ) → bit_xor (bit_xor a b) p ≡ bit_xor (bit_xor a p) b
swap_last a b p =
    bit_xor_assoc a b p ∙ ap (λ x. bit_xor a x) (bit_xor_comm b p) ∙ sym (bit_xor_assoc a p b)

-- A step is linear.
step_linear :
    (poly a b : ℕ) → bit_step poly (bit_xor a b) ≡ bit_xor (bit_step poly a) (bit_step poly b)
step_linear poly a b =
    let half = bit_xor-half a b in
    let parity = bit_xor-parity a b in
    elim (Bool-cases (a % 2 == 1)) [
      | inl odd ↦ elim (Bool-cases (b % 2 == 1)) [
        | inl odd' ↦
            let even : (bit_xor a b % 2 == 1) ≡ false = ground (arith, parity) in
            rw (odd, odd', even, half) (sym (cancel (a / 2) (b / 2) poly))
        | inr even' ↦
            let one : (bit_xor a b % 2 == 1) ≡ true = ground (arith, parity) in
            rw (odd, even', one, half) (swap_last (a / 2) (b / 2) poly)
      ]
      | inr even ↦ elim (Bool-cases (b % 2 == 1)) [
        | inl odd' ↦
            let one : (bit_xor a b % 2 == 1) ≡ true = ground (arith, parity) in
            rw (even, odd', one, half) (bit_xor_assoc (a / 2) (b / 2) poly)
        | inr even' ↦
            let none : (bit_xor a b % 2 == 1) ≡ false = ground (arith, parity) in
            rw (even, even', none, half) refl
      ]
    ]

four_linear :
    (poly a b : ℕ) → four_steps poly (bit_xor a b) ≡ bit_xor (four_steps poly a) (four_steps poly b)
unfolding four_steps
four_linear poly a b =
    ap (λ x. bit_step poly (bit_step poly (bit_step poly x))) (step_linear poly a b)
    ∙ ap (λ x. bit_step poly (bit_step poly x))
        (step_linear poly (bit_step poly a) (bit_step poly b))
    ∙ ap (λ x. bit_step poly x)
        (step_linear poly (bit_step poly (bit_step poly a)) (bit_step poly (bit_step poly b)))
    ∙ step_linear poly (bit_step poly (bit_step poly (bit_step poly a)))
        (bit_step poly (bit_step poly (bit_step poly b)))

step_double : (poly y : ℕ) → bit_step poly (y * 2) ≡ y
step_double poly y = ground arith

four_shifted : (poly q : ℕ) → four_steps poly (q * 16) ≡ q
unfolding four_steps
four_shifted poly q =
    let form : q * 16 ≡ q * 2 * 2 * 2 * 2 = omega arith in
    rw form (
      ap (λ x. bit_step poly (bit_step poly (bit_step poly x))) (step_double poly (q * 2 * 2 * 2))
      ∙ ap (λ x. bit_step poly (bit_step poly x)) (step_double poly (q * 2 * 2))
      ∙ ap (λ x. bit_step poly x) (step_double poly (q * 2))
      ∙ step_double poly q)

-- Four steps take the low digits away and add what they amount to.
four_split : (poly x : ℕ) → four_steps poly x ≡ bit_xor (x / 16) (four_steps poly (x % 16))
four_split poly x =
    ap (four_steps poly) (sym (split16 x))
    ∙ four_linear poly (x / 16 * 16) (x % 16)
    ∙ ap (λ y. bit_xor y (four_steps poly (x % 16))) (four_shifted poly (x / 16))

-- A function on four bits that says what four steps amount to, such as a table or a product.
module _ (poly : ℕ) (amount : ℕ → ℕ) where
  abbrev Fits : Type 0
  Fits = (r : ℕ) → r < 16 → four_steps poly r ≡ amount r

  abbrev line : ℕ → ℕ → ℕ
  line crc x = bit_xor (crc / 16) (amount (bit_xor crc x % 16))

  line-four : (crc x : ℕ) → Fits → four_steps poly (bit_xor crc x) ≡ bit_xor (line crc x) (x / 16)
  line-four crc x fits =
      four_split poly (bit_xor crc x)
      ∙ ap₂ (λ a b. bit_xor a b) (bit_xor-div16 crc x) (fits (bit_xor crc x % 16) (omega arith))
      ∙ swap_last (crc / 16) (x / 16) (amount (bit_xor crc x % 16))

  two_lines :
      (crc val : ℕ)
      → Fits
      → val < 256
      → line (line crc val) (val / 16) ≡ bitwise_update poly crc val
  unfolding bitwise_update
  two_lines crc val fits h =
      let none_left : val / 16 / 16 ≡ 0 = omega arith in
      sym (
        ap (four_steps poly) (line-four crc val fits)
        ∙ line-four (line crc val) (val / 16) fits
        ∙ ap (λ x. bit_xor (line (line crc val) (val / 16)) x) none_left
        ∙ bit_xor_comm (line (line crc val) (val / 16)) 0
        ∙ bit_xor-zero (line (line crc val) (val / 16)))

-- A table of sixteen entries is checked entry by entry.
checked :
    (poly : ℕ) (amount : ℕ → ℕ)
    → holds_below 16 (λ r. four_steps poly r == amount r) ≡ true
    → Fits poly amount
checked poly amount all r h =
    ==→eq (four_steps poly r) (amount r)
      (holds_below-true 16 (λ r. four_steps poly r == amount r) r all h)

table_step-line :
    (table : List ℕ) (crc x : ℕ) → table_step table crc x ≡ line 0 (λ r. get_or table r 0) crc x
unfolding table_step
table_step-line table crc x =
    ap (λ r. bit_xor (crc / 16) (get_or table r 0)) (bit_and_low 4 (bit_xor crc x))

crc16m_fits : Fits 0xA001 (λ r. get_or crc16m_table r 0)
unfolding holds_below four_steps
crc16m_fits = checked 0xA001 (λ r. get_or crc16m_table r 0) refl

crc32b_fits : Fits 0xEDB88320 (λ r. get_or crc32b_table r 0)
unfolding holds_below four_steps
crc32b_fits = checked 0xEDB88320 (λ r. get_or crc32b_table r 0) refl

crc16b_fits : Fits 0x8408 (λ r. 0x1081 * r)
unfolding holds_below four_steps
crc16b_fits = checked 0x8408 (λ r. 0x1081 * r) refl

product_step-line :
    (crc x : ℕ)
    → crc < 2 ^ 16
    → (product_step crc x ≡ line 0 (λ r. 0x1081 * r) crc x) × (product_step crc x < 2 ^ 16)
unfolding product_step
product_step-line crc x h =
    let r = bit_and_low 4 (bit_xor crc x) in
    let amount = 0x1081 * bit_and (bit_xor crc x) 0xF in
    let small : amount < 2 ^ 16 = omega (arith, r) in
    let fits = bit_xor-lt 16 (crc / 16) amount (omega arith) small in
    let masked = bit_and_low 16 (bit_xor (crc / 16) amount) in
    let same : bit_and (bit_xor (crc / 16) amount) 0xFFFF ≡ bit_xor (crc / 16) amount =
      omega (arith, masked, fits) in
    (same ∙ ap (λ r. bit_xor (crc / 16) (0x1081 * r)) r, omega (arith, same, fits))

-- For a byte, the updates by a table of sixteen entries (MODBUS and CRC-32) do what eight divisions by
-- the reflected polynomials 0xA001 and 0xEDB88320 do bit by bit. So does `CRC16B_update`, which
-- multiplies by 0x1081 in place of a table, for 0x8408, at a checksum of 16 bits.
pub updates-bitwise :
    (crc val : ℕ)
    → val < 256
    → (modbus_crc16_update crc val ≡ bitwise_update 0xA001 crc val)
      × (crc32b_update crc val ≡ bitwise_update 0xEDB88320 crc val)
      × (crc < 2 ^ 16 → crc16b_update crc val ≡ bitwise_update 0x8408 crc val)
unfolding modbus_crc16_update crc32b_update crc16b_update
updates-bitwise crc val h = (
  by_table crc16m_table 0xA001 crc16m_fits,
  by_table crc32b_table 0xEDB88320 crc32b_fits,
  λ k.
      let (first, small) = product_step-line crc val k in
      let (second, _) = product_step-line (product_step crc val) (val / 16) small in
      second
      ∙ ap (λ c. line 0 (λ r. 0x1081 * r) c (val / 16)) first
      ∙ two_lines 0x8408 (λ r. 0x1081 * r) crc val crc16b_fits h,
)
  where
    by_table :
        (table : List ℕ) (poly : ℕ)
        → Fits poly (λ r. get_or table r 0)
        → table_step table (table_step table crc val) (val / 16) ≡ bitwise_update poly crc val
    by_table table poly fits =
        table_step-line table (table_step table crc val) (val / 16)
        ∙ ap (λ c. line 0 (λ r. get_or table r 0) c (val / 16)) (table_step-line table crc val)
        ∙ two_lines poly (λ r. get_or table r 0) crc val fits h
