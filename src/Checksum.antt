-- ===== src/Checksum.antt =====
-- crc16.c, crc.h and the checksum of modbus.c: checksums by tables of sixteen entries or by products,
-- four bits at a time, and ADLER32.
pub mod Bitwise
pub mod Adler
use cmsis_rtos.Base.{
  ℕ, ◌+◌, ◌-◌, ◌*◌, ◌/◌, ◌%◌, ◌^◌, List, [], ◌∷◌, get_or, bit_and, bit_xor, if◌then◌else◌, leb,
}
use cmsis_rtos.Base.Bits.{bit_not}
use cmsis_rtos.Base.Word.{u32}

-- `CRC16M_Lookup4`
abbrev pub crc16m_table : List ℕ
crc16m_table =
    0x0000 ∷ 0xCC01 ∷ 0xD801 ∷ 0x1400 ∷ 0xF001 ∷ 0x3C00 ∷ 0x2800 ∷ 0xE401 ∷ 0xA001 ∷ 0x6C00 ∷ 0x7800
    ∷ 0xB401 ∷ 0x5000 ∷ 0x9C01 ∷ 0x8801 ∷ 0x4400 ∷ []

-- `CRC32B_Lookup4`
abbrev pub crc32b_table : List ℕ
crc32b_table =
    0x00000000 ∷ 0x1DB71064 ∷ 0x3B6E20C8 ∷ 0x26D930AC ∷ 0x76DC4190 ∷ 0x6B6B51F4 ∷ 0x4DB26158
    ∷ 0x5005713C ∷ 0xEDB88320 ∷ 0xF00F9344 ∷ 0xD6D6A3E8 ∷ 0xCB61B38C ∷ 0x9B64C2B0 ∷ 0x86D3D2D4
    ∷ 0xA00AE278 ∷ 0xBDBDF21C ∷ []

-- One line of the functions by tables: `(crc>>4) ^ table[(crc ^ x) & 0xF]`.
unfoldable pub table_step : List ℕ → ℕ → ℕ → ℕ
table_step table crc x = bit_xor (crc / 16) (get_or table (bit_and (bit_xor crc x) 0xF) 0)

unfoldable pub modbus_crc16_update : ℕ → ℕ → ℕ
modbus_crc16_update crc val = table_step crc16m_table (table_step crc16m_table crc val) (val / 16)

unfoldable pub crc32b_update : ℕ → ℕ → ℕ
crc32b_update crc val = table_step crc32b_table (table_step crc32b_table crc val) (val / 16)

-- One line of `CRC16B_update` and one of `CRC16_update`.
unfoldable pub product_step : ℕ → ℕ → ℕ
product_step crc x = bit_and (bit_xor (crc / 16) (0x1081 * bit_and (bit_xor crc x) 0xF)) 0xFFFF

unfoldable pub crc16b_update : ℕ → ℕ → ℕ
crc16b_update crc val = product_step (product_step crc val) (val / 16)

unfoldable pub shifted_step : ℕ → ℕ → ℕ
shifted_step crc x =
    bit_and (bit_xor (crc * 16) (0x1021 * bit_and (bit_xor (crc / 2 ^ 12) x) 0xF)) 0xFFFF

unfoldable pub crc16_update : ℕ → ℕ → ℕ
crc16_update crc val = shifted_step (shifted_step crc (val / 16)) val

-- The loop of `crc_from_block`, and the function on a block of at least one byte.
unfoldable pub crc32b_loop : ℕ → List ℕ → ℕ
crc32b_loop crc [] = crc
crc32b_loop crc (val ∷ vals) = crc32b_loop (crc32b_update crc val) vals

-- `CRC32_init`, and `CRC32_finalize`, which does the same.
abbrev pub crc32_init : ℕ → ℕ
crc32_init crc = bit_not 32 crc

unfoldable pub crc_from_block : ℕ → ℕ → List ℕ → ℕ
crc_from_block crc val vals = crc32_init (crc32b_loop (crc32_init crc) (val ∷ vals))

-- `modbus_crc` of modbus.c; its loop has the lines of `modbus_crc16_update`.
unfoldable pub modbus_loop : ℕ → List ℕ → ℕ
modbus_loop crc [] = crc
modbus_loop crc (val ∷ vals) = modbus_loop (modbus_crc16_update crc val) vals

unfoldable pub modbus_crc : List ℕ → ℕ
modbus_crc vals = bit_xor (modbus_loop 0xFFFF vals) 0

-- `ADLER32_update`: the two sums.
unfoldable pub adler_loop : ℕ → ℕ → List ℕ → ℕ × ℕ
adler_loop s1 s2 [] = (s1, s2)
adler_loop s1 s2 (val ∷ vals) =
    let t1 = s1 + val in
    let u1 = if leb 65521 t1 then t1 - 65521 else t1 in
    let t2 = s2 + u1 in let u2 = if leb 65521 t2 then t2 - 65521 else t2 in adler_loop u1 u2 vals

unfoldable pub adler32_update : ℕ → List ℕ → ℕ
adler32_update adler vals =
    let (s1, s2) = adler_loop (adler % 2 ^ 16) (adler / 2 ^ 16 % 2 ^ 16) vals in
    u32 (s2 * 2 ^ 16 + s1)
