-- ===== src/Modbus/Frames.antt =====
-- The frames that are answered, and the answers.
use cmsis_rtos.Base.{
  ℕ, zero, suc, ◌+◌, ◌-◌, ◌/◌, ◌%◌, ◌^◌, ◌≤◌, ◌<◌, ◌≡◌, refl, ap₂, ◌∙◌, inl, inr, true, Bool-cases,
  Option-cases, some, List, [], ◌∷◌, ltb, ◌&&◌, get_or, arith, bit_and, bit_xor, eq→==,
}
use cmsis_rtos.Base.Xor.{bit_xor-lt}
use cmsis_rtos.Base.Masks.{holds_below, holds_below-true, bit_and_low}
use cmsis_rtos.Memory.{Bytes, poke}
use cmsis_rtos.Checksum.{crc16m_table, table_step, modbus_crc16_update, modbus_loop, modbus_crc}
use cmsis_rtos.Modbus.{
  ModbusCtx, read16, write16, bytes_at, frame_ok, serve_frame, modbus_server_state,
}

-- The checksum stays in its 16 bits.
entry-lt : (r : ℕ) → r < 16 → get_or crc16m_table r 0 < 2 ^ 16
unfolding holds_below
entry-lt r h =
    let small = holds_below-true 16 (λ r. ltb (get_or crc16m_table r 0) (2 ^ 16)) r refl h in
    ground arith

table_step-lt : (crc x : ℕ) → crc < 2 ^ 16 → table_step crc16m_table crc x < 2 ^ 16
unfolding table_step
table_step-lt crc x h =
    let index = bit_and_low 4 (bit_xor crc x) in
    let entry = entry-lt (bit_and (bit_xor crc x) 0xF) (omega (arith, index)) in
    bit_xor-lt 16 (crc / 16) (get_or crc16m_table (bit_and (bit_xor crc x) 0xF) 0) (omega arith)
      entry

modbus_loop-lt : (crc : ℕ) (vals : List ℕ) → crc < 2 ^ 16 → modbus_loop crc vals < 2 ^ 16
unfolding modbus_loop modbus_crc16_update
modbus_loop-lt crc [] h = h
modbus_loop-lt crc (val ∷ vals) h =
    modbus_loop-lt (table_step crc16m_table (table_step crc16m_table crc val) (val / 16)) vals
      (table_step-lt (table_step crc16m_table crc val) (val / 16) (table_step-lt crc val h))

pub modbus_crc-lt : (vals : List ℕ) → modbus_crc vals < 2 ^ 16
unfolding modbus_crc
modbus_crc-lt vals =
    bit_xor-lt 16 (modbus_loop 0xFFFF vals) 0 (modbus_loop-lt 0xFFFF vals (omega arith))
      (omega arith)

-- A write behind the bytes leaves them.
bytes_at-poke : (m : Bytes) (p q v n : ℕ) → p + n ≤ q → bytes_at (poke m q v) p n ≡ bytes_at m p n
bytes_at-poke m p q v zero h = refl
bytes_at-poke m p q v (suc n) h =
    let here : poke m q v p ≡ m p = ground arith in
    ap₂ (λ b bs. b ∷ bs) here (bytes_at-poke m (p + 1) q v n (omega arith))

bytes_at-write16 :
    (m : Bytes) (p q v n : ℕ) → p + n ≤ q → bytes_at (write16 m q v) p n ≡ bytes_at m p n
bytes_at-write16 m p q v n h =
    bytes_at-poke (poke m q (v % 256)) p (q + 1) (v / 256 % 256) n (omega arith)
    ∙ bytes_at-poke m p q (v % 256) n h

read16-write16 : (m : Bytes) (p v : ℕ) → v < 2 ^ 16 → read16 (write16 m p v) p ≡ v
read16-write16 m p v h = ground arith

-- A frame with the checksum of its bytes behind them passes the test.
signed_ok :
    (m : Bytes) (p n : ℕ)
    → frame_ok (write16 m (p + n) (modbus_crc (bytes_at m p n))) p (n + 2) ≡ true
unfolding frame_ok
signed_ok m p n =
    let crc = modbus_crc (bytes_at m p n) in
    let cut : n + 2 - 2 ≡ n = omega arith in
    rw
      (
        cut,
        bytes_at-write16 m p (p + n) crc n (omega arith),
        read16-write16 m (p + n) crc (modbus_crc-lt (bytes_at m p n)),
      )
      (eq→== crc crc refl)

-- A frame that is answered is longer than four bytes and has the checksum of its bytes at its end, and
-- the answer passes the same test: it ends with the checksum of its bytes.
pub serve_frame-frame_ok :
    (ctx : ModbusCtx) (m : Bytes) (p len : ℕ) (m' : Bytes) (n : ℕ)
    → serve_frame ctx m p len ≡ some (m', some n)
    → (4 < len) × (frame_ok m p len ≡ true) × (frame_ok m' p n ≡ true)
unfolding serve_frame
serve_frame-frame_ok ctx m p len m' n h = elim (Bool-cases (ltb 4 len && frame_ok m p len)) [
  | inr refused ↦ cc (rw (refused, serve_frame) at h)
  | inl good ↦ elim (Option-cases (modbus_server_state ctx m (p + 1))) [
    | inl stuck ↦ cc (rw (good, stuck, serve_frame) at h)
    | inr ((m1, res), served) ↦
        let sent = rw (good, served, serve_frame) at h in
        let memory : write16 m1 (p + suc res) (modbus_crc (bytes_at m1 p (suc res))) ≡ m' =
          cc sent in
        let length : suc res + 2 ≡ n = cc sent in
        (
          ground (arith, good),
          ground (arith, good),
          rw (memory, length) at (signed_ok m1 p (suc res)),
        )
  ]
]
