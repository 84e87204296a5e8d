-- ===== src/Tests/Wire.antt =====
-- The checksums, the Modbus server and the lists of values at concrete inputs.
use cmsis_rtos.Base.{
  ℕ, ◌+◌, ◌*◌, ◌<◌, ◌%◌, ◌≡◌, ◌^◌, ◌++◌, ◌/◌, Option, none, List, [], ◌∷◌, true, some, inl, arith,
  refl, get_or,
}
use cmsis_rtos.Memory.{Bytes}
use cmsis_rtos.Checksum.{
  modbus_crc16_update, crc32b_update, crc16b_update, adler32_update, modbus_crc, modbus_loop,
  table_step,
}
use cmsis_rtos.Checksum.Bitwise.{bitwise_update, updates-bitwise}
use cmsis_rtos.Checksum.Adler.{sums, adler32_update-sums}
use cmsis_rtos.Modbus.{
  ModbusMap, ModbusCtx, serve_frame, frame_ok, read_map, modbus_server_state, read_holding,
  key_compare,
}
use cmsis_rtos.Search.{bisect}
use cmsis_rtos.Modbus.Frames.{serve_frame-frame_ok}
use cmsis_rtos.Modbus.Found.{modbus_server_state-registers}
use cmsis_rtos.TtlList.{Item, item}

-- The text "123456789" that catalogues of checksums use.
abbrev digits : List ℕ
digits = 0x31 ∷ 0x32 ∷ 0x33 ∷ 0x34 ∷ 0x35 ∷ 0x36 ∷ 0x37 ∷ 0x38 ∷ 0x39 ∷ []

modbus_check : modbus_crc digits ≡ 0x4B37
unfolding modbus_crc modbus_loop modbus_crc16_update table_step
modbus_check = refl

updates-bitwise_example :
    (modbus_crc16_update 0xFFFF 0x31 ≡ bitwise_update 0xA001 0xFFFF 0x31)
    × (crc32b_update 0xFFFF 0x31 ≡ bitwise_update 0xEDB88320 0xFFFF 0x31)
    × (0xFFFF < 2 ^ 16 → crc16b_update 0xFFFF 0x31 ≡ bitwise_update 0x8408 0xFFFF 0x31)
updates-bitwise_example = updates-bitwise 0xFFFF 0x31 (omega arith)

adler32_update-sums_example :
    adler32_update (0 * 2 ^ 16 + 1) (0x31 ∷ 0x32 ∷ [])
    ≡ (sums 1 0 (0x31 ∷ 0x32 ∷ [])).1 % 65521 * 2 ^ 16 + (sums 1 0 (0x31 ∷ 0x32 ∷ [])).0 % 65521
adler32_update-sums_example =
    adler32_update-sums 1 0 (0x31 ∷ 0x32 ∷ []) (omega arith) (omega arith)
      (omega arith, (omega arith, tt))

-- A server with two registers at 130, whose values stand at 400.
abbrev registers : ModbusMap
registers = record { reg_addr = 130; reg_length = 2; registers = 400 }

abbrev server : ModbusCtx
server = record {
  mei = λ i. record { len = 0; text = 0 };
  mei_count = 0;
  map_regs_ro = λ i. registers;
  map_regs_ro_num = 1;
}

-- A request of the registers 130 and 131 to the device 0x17, at 0, with its checksum.
abbrev request : List ℕ
request = 0x17 ∷ 3 ∷ 0 ∷ 130 ∷ 0 ∷ 2 ∷ []

abbrev wire : Bytes
wire = λ p. get_or (request ++ (modbus_crc request % 256 ∷ modbus_crc request / 256 ∷ [])) p 7

abbrev answer : Option (Bytes × Option ℕ) → Bytes
answer none = wire
answer (some (m, n)) = m

answered : serve_frame server wire 0 8 ≡ some (answer (serve_frame server wire 0 8), some 9)
unfolding serve_frame frame_ok modbus_crc modbus_loop modbus_crc16_update table_step
    modbus_server_state read_holding bisect key_compare read_map
answered = refl

serve_frame-frame_ok_example :
    (4 < 8)
    × (frame_ok wire 0 8 ≡ true)
    × (frame_ok (answer (serve_frame server wire 0 8)) 0 9 ≡ true)
serve_frame-frame_ok_example =
    serve_frame-frame_ok server wire 0 8 (answer (serve_frame server wire 0 8)) 9 answered

-- A request of register 131, at 0.
abbrev second : Bytes
second = λ p. get_or (3 ∷ 0 ∷ 131 ∷ 0 ∷ 1 ∷ []) p 9

modbus_server_state-registers_example :
    (m' : Bytes) × (n : ℕ) × (modbus_server_state server second 0 ≡ some (m', n))
    × (n ≡ 2 + 2 * 1)
    × (m' 0 ≡ 3)
    × (m' (0 + 1) ≡ 2 * 1)
    × ((j : ℕ)
        → j < 1
        → (m' (0 + 2 + 2 * j) ≡ second (398 + 2 * j + 1))
          × (m' (0 + 2 + 2 * j + 1) ≡ second (398 + 2 * j)))
modbus_server_state-registers_example =
    modbus_server_state-registers server second 0 0 1 1 398 (λ a b l h. absurd (omega arith))
      (omega arith) refl refl refl (omega arith) (omega arith) (omega arith) (omega arith)
      (omega arith) (inl (omega arith))

abbrev three : List Item
three = item 7 100 ∷ item 8 101 ∷ item 7 102 ∷ []
