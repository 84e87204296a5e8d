-- ===== src/Modbus.antt =====
-- modbus.c: the requests of a Modbus server and the frames around them, on a memory of bytes. `pdu` is
-- the address of the buffer, and the registers and the texts of the device stand in the same memory.
pub mod Frames
pub mod Registers
pub mod Found
use cmsis_rtos.Base.{
  ℕ, zero, suc, ◌+◌, ◌-◌, ◌*◌, ◌/◌, ◌%◌, ◌^◌, Bool, ◌&&◌, ◌||◌, Option, none, some, List, [], ◌∷◌,
  ◌==◌, if◌then◌else◌, ltb, bit_or,
}
use cmsis_rtos.Base.Word.{u8, u16, u32}
use cmsis_rtos.Memory.{Bytes, poke, memcpy}
use cmsis_rtos.Search.{Sign, bisect}
use cmsis_rtos.Checksum.{modbus_crc}
use Sign.{negative, nothing, positive}

-- `ModbusMap` and `ModbusEncObj`; `data` is an address.
pub record ModbusMap : Type 0 where
  pub reg_addr : ℕ
  pub reg_length : ℕ
  pub registers : ℕ

pub record ModbusEncObj : Type 0 where
  pub len : ℕ
  pub text : ℕ

-- `ModbusCtx`, the parts that the server reads.
pub record ModbusCtx : Type 0 where
  pub mei : ℕ → ModbusEncObj
  pub mei_count : ℕ
  pub map_regs_ro : ℕ → ModbusMap
  pub map_regs_ro_num : ℕ

-- A `uint16_t` in the order of the processor, and one in the order of the network.
abbrev pub read16 : Bytes → ℕ → ℕ
read16 m p = m p + 256 * m (p + 1)

abbrev pub write16 : Bytes → ℕ → ℕ → Bytes
write16 m p v = poke (poke m p (v % 256)) (p + 1) (v / 256 % 256)

abbrev pub read_network : Bytes → ℕ → ℕ
read_network m p = 256 * m p + m (p + 1)

-- `modbus_key_compare_cb` of a register and the map of an index.
unfoldable pub key_compare : ℕ → ModbusMap → Sign
key_compare addr elt =
    if ltb elt.reg_addr addr && ltb addr (elt.reg_addr + elt.reg_length)
    then nothing
    else (if addr == elt.reg_addr
        then nothing
        else if ltb addr elt.reg_addr
        then negative
        else positive)

-- An answer with an exception.
abbrev pub refuse : Bytes → ℕ → ℕ → Bytes × ℕ
refuse m pdu code = (poke (poke m pdu (bit_or (m pdu) 0x80)) (pdu + 1) code, 2)

-- The loop that copies registers with their bytes turned round.
unfoldable pub put_registers : Bytes → ℕ → ℕ → ℕ → Bytes
put_registers m dst base zero = m
put_registers m dst base (suc n) =
    put_registers (poke (poke m dst (m (base + 1))) (dst + 1) (m base)) (dst + 2) (base + 2) n

-- The address of the first register that is read; `offset` is `map->reg_addr - address`.
abbrev pub register_base : ModbusMap → ℕ → ℕ
register_base map address = u32 (map.registers + 2 ^ 32 + 2 * map.reg_addr - 2 * address)

-- Function 3 with a map that was found.
unfoldable pub read_map : Bytes → ℕ → ModbusMap → ℕ → ℕ → Bytes × ℕ
read_map m pdu map address count =
    if ltb (map.reg_addr + map.reg_length) (count + address) then refuse m pdu 4 else (
      poke (put_registers m (pdu + 2) (register_base map address) count) (pdu + 1) (u8 (count * 2)),
      u8 (2 + count * 2),
    )

-- Function 3: a register that no map has is an exception too; `none` is a search without an end.
unfoldable pub read_holding : ModbusCtx → Bytes → ℕ → Option (Bytes × ℕ)
read_holding ctx m pdu =
    let address = read_network m (pdu + 1) in
    let count = read_network m (pdu + 3) in
    let found =
      bisect (λ i. key_compare address (ctx.map_regs_ro i)) (suc ctx.map_regs_ro_num) 0
        ctx.map_regs_ro_num in
    if count == 0 || ltb 0x7D count then some (refuse m pdu 3) else elim found [
      | none ↦ none
      | some none ↦ some (refuse m pdu 2)
      | some (some i) ↦ some (read_map m pdu (ctx.map_regs_ro i) address count)
    ]

-- The loop of `modbus_encapsulated` over the objects from `i` on; the memory and the length.
unfoldable pub put_objects : (ℕ → ModbusEncObj) → Bytes → ℕ → ℕ → ℕ → ℕ → Bytes × ℕ
put_objects mei m pdu len i zero = (m, len)
put_objects mei m pdu len i (suc n) =
    let obj = mei i in
    let head = poke (poke m (pdu + len) (u8 i)) (pdu + len + 1) obj.len in
    put_objects mei (memcpy head (pdu + len + 2) obj.text obj.len) pdu (len + 2 + obj.len) (i + 1) n

-- `modbus_encapsulated`: -2, as a byte, for an unknown type.
unfoldable pub modbus_encapsulated : ModbusCtx → Bytes → ℕ → Bytes × ℕ
modbus_encapsulated ctx m pdu =
    let obj_id = m (pdu + 3) in
    let head = poke (poke (poke (poke m (pdu + 3) 1) (pdu + 4) 0) (pdu + 5) 0) (pdu + 6) 0 in
    let all = put_objects ctx.mei head pdu 7 obj_id (ctx.mei_count - obj_id) in
    if m (pdu + 1) == 0x0E
    then (poke all.0 (pdu + 6) (u8 (ctx.mei_count - obj_id)), u8 all.1)
    else (m, 254)

-- `modbus_server_state`; its result is a byte.
unfoldable pub modbus_server_state : ModbusCtx → Bytes → ℕ → Option (Bytes × ℕ)
modbus_server_state ctx m pdu =
    if m pdu == 0x03
    then read_holding ctx m pdu
    else (if m pdu == 0x2B then some (modbus_encapsulated ctx m pdu) else some (refuse m pdu 1))

-- `modbus_crc` of the bytes at an address.
abbrev pub bytes_at : Bytes → ℕ → ℕ → List ℕ
bytes_at m p zero = []
bytes_at m p (suc n) = m p ∷ bytes_at m (p + 1) n

-- The test `crc16==fcs16` on a frame.
unfoldable pub frame_ok : Bytes → ℕ → ℕ → Bool
frame_ok m pdu len = modbus_crc (bytes_at m pdu (len - 2)) == read16 m (pdu + (len - 2))

-- The answer to a frame that `modbus` has received: its length when one is sent.
unfoldable pub serve_frame : ModbusCtx → Bytes → ℕ → ℕ → Option (Bytes × Option ℕ)
serve_frame ctx m pdu len =
    if ltb 4 len && frame_ok m pdu len
    then elim (modbus_server_state ctx m (pdu + 1)) [
      | none ↦ none
      | some (m', res) ↦
          some (
            write16 m' (pdu + suc res) (modbus_crc (bytes_at m' pdu (suc res))),
            some (suc res + 2),
          )
    ]
    else some (m, none)
