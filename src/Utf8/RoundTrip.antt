-- ===== src/Utf8/RoundTrip.antt =====
-- Which characters are read back, and which are not.
use cmsis_rtos.Base.{
  ℕ, ◌+◌, ◌*◌, ◌/◌, ◌%◌, ◌^◌, ◌≤◌, ◌<◌, ◌≡◌, ◌≢◌, ◌⊎◌, inl, inr, refl, sym, true, false, ◌==◌, ltb,
  Bool-cases, arith, bit_and, bit_or, ne→==,
}
use cmsis_rtos.Base.Word.{u8}
use cmsis_rtos.Base.Masks.{
  holds_below, on_bytes, bit_and_low, bit_or_shifted, clz, clz-lower, clz-upper,
}
use cmsis_rtos.Memory.{Bytes}
use cmsis_rtos.Utf8.{
  leading_ones, next_char, continues, get_char, utf8_length, put_tail, unichar_to_utf8,
}

-- The fields of a byte.
top_one : (b : ℕ) → b < 256 → bit_and b 0x80 ≡ b / 128 * 128
unfolding holds_below
top_one b h = on_bytes (λ b. bit_and b 0x80) (λ b. b / 128 * 128) refl b h

top_two : (b : ℕ) → b < 256 → bit_and b 0xC0 ≡ b / 64 * 64
unfolding holds_below
top_two b h = on_bytes (λ b. bit_and b 0xC0) (λ b. b / 64 * 64) refl b h

top_three : (b : ℕ) → b < 256 → bit_and b 0xE0 ≡ b / 32 * 32
unfolding holds_below
top_three b h = on_bytes (λ b. bit_and b 0xE0) (λ b. b / 32 * 32) refl b h

top_four : (b : ℕ) → b < 256 → bit_and b 0xF0 ≡ b / 16 * 16
unfolding holds_below
top_four b h = on_bytes (λ b. bit_and b 0xF0) (λ b. b / 16 * 16) refl b h

tail_byte : (x : ℕ) → x < 256 → bit_or (x % 64) 0x80 ≡ x % 64 + 128
unfolding holds_below
tail_byte x h = on_bytes (λ x. bit_or (x % 64) 0x80) (λ x. x % 64 + 128) refl x h

head_two : (x : ℕ) → x < 256 → u8 (bit_or (0xFF * 2 ^ 6) x) ≡ 192 + x % 64
unfolding holds_below
head_two x h = on_bytes (λ x. u8 (bit_or (0xFF * 2 ^ 6) x)) (λ x. 192 + x % 64) refl x h

head_three : (x : ℕ) → x < 256 → u8 (bit_or (0xFF * 2 ^ 5) x) ≡ 224 + x % 32
unfolding holds_below
head_three x h = on_bytes (λ x. u8 (bit_or (0xFF * 2 ^ 5) x)) (λ x. 224 + x % 32) refl x h

ones_two : (x : ℕ) → x < 256 → leading_ones (192 + x % 32) ≡ 2
unfolding holds_below clz
ones_two x h = on_bytes (λ x. leading_ones (192 + x % 32)) (λ x. 2) refl x h

ones_three : (x : ℕ) → x < 256 → leading_ones (224 + x % 16) ≡ 3
unfolding holds_below clz
ones_three x h = on_bytes (λ x. leading_ones (224 + x % 16)) (λ x. 3) refl x h

length_two : (ch : ℕ) → 2 ^ 8 ≤ ch → ch < 2 ^ 14 → utf8_length ch ≡ 2
length_two ch h k = ground (arith, clz-lower 32 14 ch, clz-upper 32 8 ch)

length_three : (ch : ℕ) → 2 ^ 14 ≤ ch → ch < 2 ^ 20 → utf8_length ch ≡ 3
length_three ch h k = ground (arith, clz-lower 32 20 ch, clz-upper 32 14 ch)

-- One character in two bytes, and in three.
record TwoBytes (m : Bytes) (s high low : ℕ) : Type 0 where
  first : m s ≡ 192 + high
  second : m (s + 1) ≡ low % 64 + 128

record ThreeBytes (m : Bytes) (s high mid low : ℕ) : Type 0 where
  first : m s ≡ 224 + high
  second : m (s + 1) ≡ mid % 64 + 128
  third : m (s + 2) ≡ low % 64 + 128

masked_tail : (ch : ℕ) → bit_or (bit_and ch 0x3F) 0x80 ≡ ch % 64 + 128
masked_tail ch =
    let small = tail_byte (ch % 64) (omega arith) in
    rw (bit_and_low 6 ch) (omega (arith, rw (the_same ch) at small))
  where
    the_same : (ch : ℕ) → ch % 64 % 64 ≡ ch % 64
    the_same ch = omega arith

written_two :
    (m : Bytes) (str ch : ℕ)
    → str ≢ 0
    → 2 ^ 8 ≤ ch
    → ch < 2 ^ 14
    → let (m', n) = unichar_to_utf8 m ch str in
      (n ≡ 2) × TwoBytes m' str (ch / 64 % 64) ch × (m' (str + 2) ≡ m (str + 2))
unfolding unichar_to_utf8 put_tail
written_two m str ch ne h k =
    let big : ltb ch 0x80 ≡ false = ground arith in
    rw (length_two ch h k, ne→== str 0 ne, big)
      (
        refl,
        record {
          first = ground (arith, head_two (ch / 64));
          second = ground (arith, masked_tail ch);
        },
        ground arith,
      )

written_three :
    (m : Bytes) (str ch : ℕ)
    → str ≢ 0
    → 2 ^ 14 ≤ ch
    → ch < 2 ^ 16
    → let (m', n) = unichar_to_utf8 m ch str in (n ≡ 3) × ThreeBytes m' str (ch / 4096) (ch / 64) ch
unfolding unichar_to_utf8 put_tail
written_three m str ch ne h k =
    let big : ltb ch 0x80 ≡ false = ground arith in
    rw (length_three ch h (omega arith), ne→== str 0 ne, big)
      (
        refl,
        record {
          first = ground (arith, head_three (ch / 64 / 64));
          second = ground (arith, masked_tail (ch / 64));
          third = ground (arith, masked_tail ch);
        },
      )

-- What is read from two bytes and from three.
read_two :
    (m : Bytes) (s high low : ℕ)
    → high < 32
    → TwoBytes m s high low
    → (get_char m s ≡ high * 64 + low % 64) × (next_char m s ≡ s + 2)
unfolding get_char next_char
read_two m s high low h b =
    let first = b.first in
    let second = b.second in
    let value : get_char m s ≡ high * 64 + low % 64 =
      unfold get_char in
      ground (
        arith,
        top_one (m s),
        top_three (m s),
        top_two (m (s + 1)),
        bit_and_low 5 (m s),
        bit_and_low 6 (m (s + 1)),
        bit_or_shifted 6 (bit_and (m s) 0x1F) (bit_and (m (s + 1)) 0x3F),
      ) in
    let form : m s ≡ 192 + high % 32 = omega arith in
    let more : (bit_and (192 + high % 32) 0x80 == 0) ≡ false =
      ground (arith, top_one (192 + high % 32)) in
    (value, rw (form, more) (omega (arith, ones_two high (omega arith))))

read_three :
    (m : Bytes) (s high mid low : ℕ)
    → high < 16
    → ThreeBytes m s high mid low
    → (get_char m s ≡ high * 4096 + mid % 64 * 64 + low % 64) × (next_char m s ≡ s + 3)
unfolding get_char next_char
read_three m s high mid low h b =
    let first = b.first in
    let second = b.second in
    let third = b.third in
    let middle =
      bit_or_shifted 6 (bit_and (m s) 0x0F * 64 + bit_and (m (s + 1)) 0x3F)
        (bit_and (m (s + 2)) 0x3F) in
    let value : get_char m s ≡ high * 4096 + mid % 64 * 64 + low % 64 =
      unfold get_char in
      ground (
        arith,
        top_one (m s),
        top_three (m s),
        top_four (m s),
        top_two (m (s + 1)),
        top_two (m (s + 2)),
        bit_and_low 4 (m s),
        bit_and_low 6 (m (s + 1)),
        bit_and_low 6 (m (s + 2)),
        bit_or_shifted 12 (bit_and (m s) 0x0F) (bit_and (m (s + 1)) 0x3F * 2 ^ 6),
        middle,
      ) in
    let form : m s ≡ 224 + high % 16 = omega arith in
    let more : (bit_and (224 + high % 16) 0x80 == 0) ≡ false =
      ground (arith, top_one (224 + high % 16)) in
    (value, rw (form, more) (omega (arith, ones_three high (omega arith))))

-- The characters whose number of bytes is computed rightly: one byte, and two or three bytes where
-- the highest bit is the eighth or the fourteenth at least.
abbrev pub IsEncodable : ℕ → Type 0
IsEncodable ch = (ch < 2 ^ 7) ⊎ ((2 ^ 8 ≤ ch) × (ch < 2 ^ 11)) ⊎ ((2 ^ 14 ≤ ch) × (ch < 2 ^ 16))

-- A character below 2 ^ 7, from 2 ^ 8 to 2 ^ 11 or from 2 ^ 14 to 2 ^ 16 (the ends left out) that
-- `g_unichar_to_utf8` has written at a place other than NULL is read back by `g_utf8_get_char`, and
-- `g_utf8_next_char` goes on by the number of bytes that was returned.
pub get_char-unichar_to_utf8 :
    (m : Bytes) (str ch : ℕ)
    → str ≢ 0
    → IsEncodable ch
    → let (m', n) = unichar_to_utf8 m ch str in
      (get_char m' str ≡ ch) × (next_char m' str ≡ str + n)
get_char-unichar_to_utf8 m str ch ne (inl one) =
    let small : ltb ch 0x80 ≡ true = ground arith in
    unfold unichar_to_utf8 get_char next_char in
    (rw (ne→== str 0 ne, small) (ground (arith, top_one ch), ground (arith, top_one ch)))
get_char-unichar_to_utf8 m str ch ne (inr (inl (low, high))) =
    let (n, bytes, _) = written_two m str ch ne low (omega arith) in
    let (value, next) =
      read_two (unichar_to_utf8 m ch str).0 str (ch / 64 % 64) ch (omega arith) bytes in
    (omega (arith, value), omega (arith, next, n))
get_char-unichar_to_utf8 m str ch ne (inr (inr (low, high))) =
    let (n, bytes) = written_three m str ch ne low high in
    let (value, next) =
      read_three (unichar_to_utf8 m ch str).0 str (ch / 4096) (ch / 64) ch (omega arith) bytes in
    (omega (arith, value), omega (arith, next, n))

-- Two bytes with none behind them never stand for more than eleven bits.
cut_short :
    (m : Bytes) (s high low : ℕ)
    → high < 64
    → TwoBytes m s high low
    → continues (m (s + 2)) ≡ false
    → get_char m s < 2 ^ 11
cut_short m s high low h b end = elim (Bool-cases (ltb high 32)) [
  | inl small ↦
      let fits : high < 32 = ground arith in
      let value = (read_two m s high low fits b).0 in omega arith
  | inr large ↦
      let first = b.first in
      unfold get_char in (ground (arith, top_one (m s), top_three (m s), end))
]

-- A character from 2 ^ 11 to 2 ^ 14 (the end left out), which takes three bytes in UTF-8, is written in
-- two, and is not read back when no byte that goes on with a character follows them.
pub unichar_to_utf8_lossy :
    (m : Bytes) (str ch : ℕ)
    → str ≢ 0
    → 2 ^ 11 ≤ ch
    → ch < 2 ^ 14
    → continues (m (str + 2)) ≡ false
    → ((unichar_to_utf8 m ch str).1 ≡ 2) × (get_char (unichar_to_utf8 m ch str).0 str ≢ ch)
unichar_to_utf8_lossy m str ch ne low high end =
    let (n, bytes, behind) = written_two m str ch ne (omega arith) high in
    (
      n,
      λ same. absurd (
          omega (
            arith,
            same,
            cut_short (unichar_to_utf8 m ch str).0 str (ch / 64 % 64) ch (omega arith) bytes
                (rw (sym behind) at end),
          )),
    )
