-- ===== src/Calendar/Divisions.antt =====
-- The divisions by products, and the time of day.
use cmsis_rtos.Base.{
  ℕ, ◌+◌, ◌*◌, ◌/◌, ◌%◌, ◌^◌, ◌<◌, ◌≡◌, arith, ◌==◌, ◌&&◌, ◌||◌, not, inl, inr, Bool-cases,
}
use cmsis_rtos.Base.Word.{u32, sub32}
use cmsis_rtos.Base.Masks.{bit_and_low}
use cmsis_rtos.Calendar.{
  div5, div10, div100, div400, div153, div1461, div146097, rem7, is_leap_year, Tm, timestamp_to_hms,
}

-- For every 32-bit number the products and shifts give the quotients by 5, 10, 100, 400, 153, 1461
-- and 146097.
pub divisions_exact :
    (v : ℕ)
    → v < 2 ^ 32
    → (div5 v ≡ v / 5)
      × (div10 v ≡ v / 10)
      × (div100 v ≡ v / 100)
      × (div400 v ≡ v / 400)
      × (div153 v ≡ v / 153)
      × (div1461 v ≡ v / 1461)
      × (div146097 v ≡ v / 146097)
unfolding div5 div10 div100 div400 div153 div1461 div146097
divisions_exact v h =
    (omega arith, omega arith, omega arith, omega arith, omega arith, omega arith, omega arith)

-- For every 31-bit number `rem7` is the remainder by 7.
pub rem7_lem : (v : ℕ) → v < 2 ^ 31 → rem7 v ≡ v % 7
unfolding rem7
rem7_lem v h = omega arith

-- Every 32-bit time stamp is split into days, hours below 24, minutes below 60 and seconds below 60
-- that make it up again.
pub timestamp_to_hms_lem :
    (ts : ℕ) (t : Tm)
    → ts < 2 ^ 32
    → let (days, t') = timestamp_to_hms ts t in
      (t'.tm_hour < 24)
      × (t'.tm_min < 60)
      × (t'.tm_sec < 60)
      × (((days * 24 + t'.tm_hour) * 60 + t'.tm_min) * 60 + t'.tm_sec ≡ ts)
unfolding timestamp_to_hms
timestamp_to_hms_lem ts t h = (omega arith, omega arith, omega arith, omega arith)

-- For every 32-bit year `g_date_is_leap_year` is the rule of the Gregorian calendar: a year that 4
-- divides and 100 does not, or that 400 divides.
pub is_leap_year_lem :
    (year : ℕ)
    → year < 2 ^ 32
    → is_leap_year year ≡ ((year % 4 == 0 && not (year % 100 == 0)) || year % 400 == 0)
unfolding is_leap_year
is_leap_year_lem year h =
    let q : div100 year ≡ year / 100 = (divisions_exact year h).2 in
    let r : sub32 year (u32 (year / 100 * 100)) ≡ year % 100 = omega arith in
    rw (q, r)
      (elim (Bool-cases (year % 100 == 0)) [
        | inl century ↦
            let low = bit_and_low 2 (year / 100) in rw century (ground (arith, low, century))
        | inr other ↦ let low = bit_and_low 2 year in rw other (ground (arith, low, other))
      ])
