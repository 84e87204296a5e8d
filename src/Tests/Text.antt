-- ===== src/Tests/Text.antt =====
-- The UTF-8 routines at concrete inputs.
use cmsis_rtos.Base.{◌+◌, ◌≡◌, inl, inr, arith}
use cmsis_rtos.Memory.{Bytes}
use cmsis_rtos.Utf8.{unichar_to_utf8, get_char, next_char}
use cmsis_rtos.Utf8.RoundTrip.{get_char-unichar_to_utf8}

abbrev empty : Bytes
empty = λ p. 0

-- U+0416, the letter Zhe, and U+0E01, the letter Ko Kai.
get_char-unichar_to_utf8_example :
    (get_char (unichar_to_utf8 empty 0x416 100).0 100 ≡ 0x416)
    × (next_char (unichar_to_utf8 empty 0x416 100).0 100
        ≡ 100 + (unichar_to_utf8 empty 0x416 100).1)
get_char-unichar_to_utf8_example =
    get_char-unichar_to_utf8 empty 100 0x416 (omega arith) (inr (inl (omega arith, omega arith)))
