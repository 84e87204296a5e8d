-- ===== src/Calendar.antt =====
-- r3_stdlib_mktime.c: dates and times of day from the seconds since 1970 and back. The time zone, in
-- seconds west of UTC, is a parameter. The source is read with LULIAN_CALENDAR, as it defines it.
pub mod Divisions
pub mod RoundTrip
use cmsis_rtos.Base.{
  ℕ, ◌+◌, ◌*◌, ◌-◌, ◌/◌, ◌%◌, ◌^◌, Bool, List, [], ◌∷◌, ◌==◌, if◌then◌else◌, ltb, get_or, bit_and,
}
use cmsis_rtos.Base.Word.{u32, add32, sub32}

-- `(v * factor ## ULL) >> shift`, a product in 64 bits.
abbrev pub reciprocal : ℕ → ℕ → ℕ → ℕ
reciprocal factor shift v = v * factor % 2 ^ 64 / 2 ^ shift

unfoldable pub div5 : ℕ → ℕ
div5 v = reciprocal 0xCCCCCCCD 34 v

unfoldable pub div10 : ℕ → ℕ
div10 v = reciprocal 0xCCCCCCCD 35 v

unfoldable pub div100 : ℕ → ℕ
div100 v = reciprocal 0xA3D70A3E 38 v

unfoldable pub div400 : ℕ → ℕ
div400 v = reciprocal 0xA3D70A3E 40 v

unfoldable pub div153 : ℕ → ℕ
div153 v = reciprocal 0xD62B80D7 39 v

unfoldable pub div1461 : ℕ → ℕ
div1461 v = reciprocal 0xB36D8398 42 v

unfoldable pub div146097 : ℕ → ℕ
div146097 v = reciprocal 0xE5AC1AF4 49 v

unfoldable pub rem7 : ℕ → ℕ
rem7 v = sub32 v (u32 (reciprocal 0x92492493 34 v * 7))

-- `g_date_is_leap_year`
unfoldable pub is_leap_year : ℕ → Bool
is_leap_year year =
    let q = div100 year in
    let r = sub32 year (u32 (q * 100)) in bit_and (if r == 0 then q else year) 3 == 0

-- The fields of `struct tm` that the source uses.
pub record Tm : Type 0 where
  pub tm_sec : ℕ
  pub tm_min : ℕ
  pub tm_hour : ℕ
  pub tm_mday : ℕ
  pub tm_mon : ℕ
  pub tm_year : ℕ
  pub tm_wday : ℕ

-- `g_timestamp_to_hms`: the days, and the time of day.
unfoldable pub timestamp_to_hms : ℕ → Tm → ℕ × Tm
timestamp_to_hms timestamp t =
    let days = reciprocal 0xC22E4507 48 timestamp in
    let n = sub32 timestamp (u32 (days * 86400)) in
    let minutes = reciprocal 0x88888889 37 n in
    let hours = reciprocal 0x88888889 37 minutes in
    (
      days,
      record t {
        tm_sec = sub32 n (u32 (minutes * 60));
        tm_min = sub32 minutes (u32 (hours * 60));
        tm_hour = hours;
      },
    )

-- `g_days_to_dmy`
unfoldable pub days_to_dmy : ℕ → Tm → Tm
days_to_dmy days t =
    let a = u32 (days + 2472632) in
    let b = div146097 (u32 (4 * a + 3)) in
    let c = sub32 a (u32 (146097 * b) / 4) in
    let d = div1461 (u32 (4 * c + 3)) in
    let e = sub32 c (u32 (1461 * d) / 4) in
    let m = div153 (u32 (5 * e + 2)) in
    let year = sub32 (u32 (100 * b + d + div10 m)) 4800 in
    record t {
      tm_mon = sub32 (u32 (m + 2)) (u32 (12 * div10 m));
      tm_mday = sub32 (u32 (e + 1)) (div5 (u32 (153 * m + 2)));
      tm_year = sub32 year 1900;
    }

-- `localtime_r`
unfoldable pub localtime_r : ℕ → ℕ → Tm → Tm
localtime_r timezone timer t =
    let (yday, t') = timestamp_to_hms (sub32 timer timezone) t in
    days_to_dmy yday (record t' { tm_wday = rem7 (add32 yday 4) })

-- The days of the year before each month, from the first of March on.
abbrev pub days_before : List ℕ
days_before = 306 ∷ 337 ∷ 0 ∷ 31 ∷ 61 ∷ 92 ∷ 122 ∷ 153 ∷ 184 ∷ 214 ∷ 245 ∷ 275 ∷ []

-- `_mktime`: the seconds since 1970, and the date with its day of the week.
unfoldable pub mktime : ℕ → Tm → ℕ × Tm
mktime timezone t =
    let y = sub32 (u32 (t.tm_year + 6700)) (if ltb t.tm_mon 2 then 1 else 0) in
    let days = sub32 (u32 (t.tm_mday + get_or days_before t.tm_mon 0 + 365 * y + y / 4)) 2472684 in
    (
      u32 (t.tm_sec + t.tm_min * 60 + t.tm_hour * 3600 + days * 86400 + timezone),
      record t { tm_wday = rem7 (add32 days 4) },
    )
