-- ===== src/Memory.antt =====
-- The memory and string functions of r3_stdlib_mem*.c and r3_stdlib_str*.c, on a memory of bytes. A
-- string function that looks for the end of its string runs on a number of rounds; `none` is a loop
-- that has not ended.
pub mod Move
pub mod Compare
pub mod Strings
use cmsis_rtos.Base.{
  ℕ, zero, suc, ◌+◌, Bool, Option, none, some, ◌==◌, ◌||◌, not, if◌then◌else◌, leb, ltb,
}
use cmsis_rtos.Base.Word.{u8, sub32}

abbrev pub Bytes : Type 0
Bytes = ℕ → ℕ

abbrev pub poke : Bytes → ℕ → ℕ → Bytes
poke m p v q = if q == p then v else m q

-- The loop of `memcpy`, which `memmove` has too: upwards.
unfoldable pub copy_up : Bytes → ℕ → ℕ → ℕ → Bytes
copy_up m dst src zero = m
copy_up m dst src (suc n) = copy_up (poke m dst (m src)) (dst + 1) (src + 1) n

-- The other loop of `memmove`: downwards.
unfoldable pub copy_down : Bytes → ℕ → ℕ → ℕ → Bytes
copy_down m dst src zero = m
copy_down m dst src (suc n) = copy_down (poke m (dst + n) (m (src + n))) dst src n

unfoldable pub memcpy : Bytes → ℕ → ℕ → ℕ → Bytes
memcpy m dst src n = copy_up m dst src n

unfoldable pub memmove : Bytes → ℕ → ℕ → ℕ → Bytes
memmove m dst src n = if ltb src dst then copy_down m dst src n else copy_up m dst src n

unfoldable pub memset : Bytes → ℕ → ℕ → ℕ → Bytes
memset m dst c zero = m
memset m dst c (suc n) = memset (poke m dst (u8 c)) (dst + 1) c n

-- `memcmp`, from the last byte to the first; the difference is an `int`.
unfoldable pub memcmp : Bytes → ℕ → ℕ → ℕ → ℕ
memcmp m s1 s2 zero = 0
memcmp m s1 s2 (suc n) =
    let rest = memcmp m s1 s2 n in
    let dif = sub32 (m (s2 + n)) (m (s1 + n)) in if dif == 0 then rest else dif

-- `strcmp`
unfoldable pub strcmp : ℕ → Bytes → ℕ → ℕ → Option ℕ
strcmp zero m s1 s2 = none
strcmp (suc rounds) m s1 s2 =
    let rest = strcmp rounds m (s1 + 1) (s2 + 1) in
    if (m s1 == 0) || not (m s1 == m s2) then some (sub32 (m s1) (m s2)) else rest

-- `strncmp`; the two numbers are `c1` and `c2` of the round before.
unfoldable pub strncmp_from : ℕ → ℕ → Bytes → ℕ → ℕ → ℕ → ℕ
strncmp_from c1 c2 m s1 s2 zero = sub32 c1 c2
strncmp_from c1 c2 m s1 s2 (suc n) =
    let rest = strncmp_from (m s1) (m s2) m (s1 + 1) (s2 + 1) n in
    if (m s1 == 0) || not (m s1 == m s2) then sub32 (m s1) (m s2) else rest

unfoldable pub strncmp : Bytes → ℕ → ℕ → ℕ → ℕ
strncmp m s1 s2 n = strncmp_from 0 0 m s1 s2 n

-- `strchr`, 0 for NULL; the end of the string is never found.
unfoldable pub strchr : ℕ → Bytes → ℕ → ℕ → Option ℕ
strchr zero m s c = none
strchr (suc rounds) m s c =
    let rest = strchr rounds m (s + 1) c in
    if m s == 0 then some 0 else if m s == u8 c then some s else rest

-- `strcpy`
unfoldable pub strcpy : ℕ → Bytes → ℕ → ℕ → Option Bytes
strcpy zero m dst src = none
strcpy (suc rounds) m dst src =
    let m' = poke m dst (m src) in
    let rest = strcpy rounds m' (dst + 1) (src + 1) in if m src == 0 then some m' else rest

-- `while (s[0]!='\0') s++` of `strcat` and `strncat`: the end of a string.
unfoldable pub end_of : ℕ → Bytes → ℕ → Option ℕ
end_of zero m s = none
end_of (suc rounds) m s = let rest = end_of rounds m (s + 1) in if m s == 0 then some s else rest

-- `strcat`; its second loop is that of `strcpy`.
unfoldable pub strcat : ℕ → Bytes → ℕ → ℕ → Option Bytes
strcat rounds m a b = elim (end_of rounds m a) [ none ↦ none | some s ↦ strcpy rounds m s b ]

-- `strncpy`, which does not fill up with zeros.
unfoldable pub strncpy : Bytes → ℕ → ℕ → ℕ → Bytes
strncpy m dst src zero = m
strncpy m dst src (suc n) =
    let m' = poke m dst (m src) in
    let rest = strncpy m' (dst + 1) (src + 1) n in if m src == 0 then m' else rest

-- The second loop of `strncat`, with the zero that it ends with.
unfoldable pub append_bytes : Bytes → ℕ → ℕ → ℕ → Bytes
append_bytes m s b zero = poke m s 0
append_bytes m s b (suc n) =
    let rest = append_bytes (poke m s (m b)) (s + 1) (b + 1) n in
    if m b == 0 then poke m s 0 else rest

-- `strncat`
unfoldable pub strncat : ℕ → Bytes → ℕ → ℕ → ℕ → Option Bytes
strncat rounds m a b n = elim (end_of rounds m a) [
  | none ↦ none
  | some s ↦ some (if n == 0 then m else append_bytes m s b n)
]
