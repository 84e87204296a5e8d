-- ===== src/Modbus/Registers.antt =====
-- The registers that an answer holds.
use cmsis_rtos.Base.{
  ℕ, zero, suc, ◌+◌, ◌*◌, ◌^◌, ◌≤◌, ◌<◌, ◌≡◌, ◌⊎◌, refl, ◌∙◌, inl, false, ltb, arith,
}
use cmsis_rtos.Memory.{Bytes, poke}
use cmsis_rtos.Modbus.{ModbusMap, put_registers, read_map, register_base}

-- The copied registers and the place for them do not overlap.
abbrev pub Apart : ℕ → ℕ → ℕ → Type 0
Apart dst base n = (dst + 2 * n ≤ base) ⊎ (base + 2 * n ≤ dst)

-- A copy leaves what stands outside of its place.
put_registers-outside :
    (m : Bytes) (dst base n q : ℕ)
    → (q < dst) ⊎ (dst + 2 * n ≤ q)
    → put_registers m dst base n q ≡ m q
unfolding put_registers
put_registers-outside m dst base zero q out = refl
put_registers-outside m dst base (suc n) q out =
    put_registers-outside (poke (poke m dst (m (base + 1))) (dst + 1) (m base)) (dst + 2) (base + 2)
      n q (ground (arith, out))
    ∙ (ground (arith, out))

-- Register `i` of a copy, at `q`, has the two bytes of its source, at `s`, the other way round.
put_registers-get :
    (m : Bytes) (dst base n i q s : ℕ)
    → Apart dst base n
    → i < n
    → q ≡ dst + 2 * i
    → s ≡ base + 2 * i
    → (put_registers m dst base n q ≡ m (s + 1)) × (put_registers m dst base n (q + 1) ≡ m s)
unfolding put_registers
put_registers-get m dst base zero i q s apart h a b = absurd (omega arith)
put_registers-get m dst base (suc n) zero q s apart h a b =
    let m' = poke (poke m dst (m (base + 1))) (dst + 1) (m base) in
    let same : s ≡ base = omega arith in
    let place : q ≡ dst = omega arith in
    (
      put_registers-outside m' (dst + 2) (base + 2) n q (inl (omega arith))
          ∙ rw (same, place) (ground arith),
      put_registers-outside m' (dst + 2) (base + 2) n (q + 1) (inl (omega arith))
          ∙ rw (same, place) (ground arith),
    )
put_registers-get m dst base (suc n) (suc i) q s apart h a b =
    let m' = poke (poke m dst (m (base + 1))) (dst + 1) (m base) in
    let (first, second) =
      put_registers-get m' (dst + 2) (base + 2) n i q s (ground (arith, apart)) (omega arith)
        (omega arith) (omega arith) in
    (first ∙ ground (arith, apart), second ∙ ground (arith, apart))

-- The answer of function 3 for at most 125 registers from `address` on, inside of a map and without an
-- overlap of the registers with the answer, has `2 + 2 * count` bytes: the function code, the number of
-- the bytes, and the registers in network order. They are those that begin as far before the
-- registers of the map as `address` is behind the first one, since the offset has the wrong sign.
pub read_map-registers :
    (m : Bytes) (pdu : ℕ) (map : ModbusMap) (k count base : ℕ)
    → count ≤ 125
    → k + count ≤ map.reg_length
    → base + 2 * k ≡ map.registers
    → map.registers < 2 ^ 32
    → Apart (pdu + 2) base count
    → let (m', n) = read_map m pdu map (map.reg_addr + k) count in
      (n ≡ 2 + 2 * count)
      × (m' pdu ≡ m pdu)
      × (m' (pdu + 1) ≡ 2 * count)
      × ((i : ℕ)
          → i < count
          → (m' (pdu + 2 + 2 * i) ≡ m (base + 2 * i + 1))
            × (m' (pdu + 2 + 2 * i + 1) ≡ m (base + 2 * i)))
unfolding read_map
read_map-registers m pdu map k count base h fits place word apart =
    let inside : ltb (map.reg_addr + map.reg_length) (count + (map.reg_addr + k)) ≡ false =
      ground arith in
    let start : register_base map (map.reg_addr + k) ≡ base = omega arith in
    rw (inside, start)
      (
        omega arith,
        ground (arith, put_registers-outside m (pdu + 2) base count pdu (inl (omega arith))),
        ground arith,
        λ i below.
            let (first, second) =
              put_registers-get m (pdu + 2) base count i (pdu + 2 + 2 * i) (base + 2 * i) apart
                below refl refl in
            (ground (arith, first), ground (arith, second)),
      )
