-- ===== src/Utf8.antt =====
-- r3_stdlib_utf8.c: characters of one to four bytes in a memory of bytes.
pub mod RoundTrip
use cmsis_rtos.Base.{
  ℕ, zero, suc, ◌+◌, ◌-◌, ◌*◌, ◌/◌, ◌^◌, Bool, ◌&&◌, Option, none, some, ◌==◌, if◌then◌else◌, ltb,
  bit_and, bit_or,
}
use cmsis_rtos.Base.Word.{u8, u32}
use cmsis_rtos.Base.Bits.{bit_not}
use cmsis_rtos.Base.Masks.{clz}
use cmsis_rtos.Memory.{Bytes, poke}

-- The leading ones of a byte: `__builtin_clz(~(ch<<24))`.
abbrev pub leading_ones : ℕ → ℕ
leading_ones ch = clz 32 (bit_not 32 (u32 (ch * 2 ^ 24)))

-- `g_utf8_next_char`
unfoldable pub next_char : Bytes → ℕ → ℕ
next_char m str = str + (if bit_and (m str) 0x80 == 0 then 1 else leading_ones (m str))

-- A byte that goes on with a character.
abbrev pub continues : ℕ → Bool
continues b = bit_and b 0xC0 == 0x80

-- `g_utf8_get_char`
unfoldable pub get_char : Bytes → ℕ → ℕ
get_char m s =
    if bit_and (m s) 0x80 == 0
    then m s
    else (if bit_and (m s) 0xE0 == 0xC0 && continues (m (s + 1))
        then bit_or (bit_and (m s) 0x1F * 2 ^ 6) (bit_and (m (s + 1)) 0x3F)
        else (if bit_and (m s) 0xF0 == 0xE0 && continues (m (s + 1)) && continues (m (s + 2))
            then bit_or (bit_or (bit_and (m s) 0x0F * 2 ^ 12) (bit_and (m (s + 1)) 0x3F * 2 ^ 6))
                (bit_and (m (s + 2)) 0x3F)
            else m s))

-- `g_utf8_strlen` up to `n` characters.
unfoldable pub utf8_strlen : Bytes → ℕ → ℕ → ℕ
utf8_strlen m s zero = 0
utf8_strlen m s (suc n) =
    let rest = suc (utf8_strlen m (next_char m s) n) in if m s == 0 then 0 else rest

-- The number of bytes of `g_unichar_to_utf8`.
abbrev pub utf8_length : ℕ → ℕ
utf8_length ch = if ltb ch 0x80 then 1 else (35 - clz 32 ch) / 6

-- The loop from the last byte to the second one, and what is left of the character.
unfoldable pub put_tail : Bytes → ℕ → ℕ → ℕ → Bytes × ℕ
put_tail m str zero ch = (m, ch)
put_tail m str (suc i) ch =
    put_tail (poke m (str + suc i) (bit_or (bit_and ch 0x3F) 0x80)) str i (ch / 2 ^ 6)

-- `g_unichar_to_utf8`; without a place, NULL, only the length is computed.
unfoldable pub unichar_to_utf8 : Bytes → ℕ → ℕ → Bytes × ℕ
unichar_to_utf8 m ch str =
    let len = utf8_length ch in
    let tail = put_tail m str (len - 1) ch in
    if str == 0
    then (m, len)
    else (if ltb ch 0x80
        then (poke m str ch, len)
        else (poke tail.0 str (u8 (bit_or (0xFF * 2 ^ (8 - len)) tail.1)), len))

-- `g_utf8_prev_char`; below the memory there is nothing.
unfoldable pub prev_char : Bytes → ℕ → Option ℕ
prev_char m zero = none
prev_char m (suc s) = let rest = prev_char m s in if continues (m s) then rest else some s

-- `g_utf8_offset_to_pointer`
unfoldable pub offset_to_pointer : Bytes → ℕ → ℕ → ℕ
offset_to_pointer m str zero = str
offset_to_pointer m str (suc offset) = offset_to_pointer m (next_char m str) offset
