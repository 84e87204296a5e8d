-- ===== src/Calendar/RoundTrip.antt =====
-- The way from a number of days to a date and back.
use cmsis_rtos.Base.{
  ℕ, ◌+◌, ◌*◌, ◌-◌, ◌/◌, ◌^◌, ◌≤◌, ◌<◌, ◌≡◌, inl, inr, refl, ap, ◌∙◌, Bool, true, Bool-cases, ltb,
  ◌&&◌, ◌==◌, if◌then◌else◌, get_or, arith,
}
use cmsis_rtos.Base.Word.{u32, add32, sub32}
use cmsis_rtos.Base.Masks.{holds_below, holds_below-true}
use cmsis_rtos.Calendar.{
  div5, div10, div153, div1461, div146097, rem7, Tm, timestamp_to_hms, days_to_dmy, localtime_r,
  mktime, days_before,
}
use cmsis_rtos.Calendar.Divisions.{divisions_exact, timestamp_to_hms_lem}

-- The days before the first of March, 2100, from which on the source's calendar is not in force.
abbrev pub days_in_force : ℕ
days_in_force = 47541

-- A number of days has a century `b`, a year `d` of it, a day `e` of that year and a month `m`, from
-- March on. The year of the source is `100 * b + d`, and has its first day after `whole` days.
abbrev whole : ℕ → ℕ
whole y = 365 * y + y / 4

record Parts (days : ℕ) : Type 0 where
  b : ℕ
  c : ℕ
  d : ℕ
  e : ℕ
  m : ℕ
  century : (4 * (days + 2472632) + 3) / 146097 ≡ b
  rest : c + 146097 * b / 4 ≡ days + 2472632
  year : (4 * c + 3) / 1461 ≡ d
  day : e + 1461 * d / 4 ≡ c
  month : (5 * e + 2) / 153 ≡ m
  b_bound : (67 ≤ b) × (b < 69)
  d_bound : d < 100
  e_bound : e < 366
  together : e + whole (100 * b + d) ≡ days + 2472683

in_century :
    (b c days : ℕ)
    → (4 * (days + 2472632) + 3) / 146097 ≡ b
    → c + 146097 * b / 4 ≡ days + 2472632
    → (67 ≤ b) × (b < 69)
    → whole (100 * b) + c ≡ days + 2472683
    → c < 36525
    → Parts days
in_century b c days century rest bound start small =
    let d = (4 * c + 3) / 1461 in
    let e = c - 1461 * d / 4 in
    record {
      b = b;
      c = c;
      d = d;
      e = e;
      m = (5 * e + 2) / 153;
      century = century;
      rest = rest;
      year = refl;
      day = omega arith;
      month = refl;
      b_bound = bound;
      d_bound = omega arith;
      e_bound = omega arith;
      together = omega arith;
    }

parts : (days : ℕ) → days < days_in_force → Parts days
parts days h = elim (Bool-cases (ltb days 11017)) [
  | inl early ↦
      let below : days < 11017 = ground arith in
      in_century 67 (days + 25508) days (omega arith) (omega arith) (omega arith, omega arith)
        (omega arith) (omega arith)
  | inr late ↦
      let above : 11017 ≤ days = ground arith in
      in_century 68 (days - 11017) days (omega arith) (omega arith) (omega arith, omega arith)
        (omega arith) (omega arith)
]

-- The number of a month from January on, and the day of the month.
abbrev month_of : ℕ → ℕ
month_of m = m + 2 - 12 * (m / 10)

abbrev day_of : ℕ → ℕ → ℕ
day_of e m = e + 1 - (153 * m + 2) / 5

-- The table has the days before a month, and January and February belong to the year before.
abbrev month_agrees : ℕ → Bool
month_agrees m =
    get_or days_before (month_of m) 0 == (153 * m + 2) / 5
    && (if ltb (month_of m) 2 then 1 else 0) == m / 10

month_table : (m : ℕ) → m < 12 → month_agrees m ≡ true
unfolding holds_below
month_table m h = holds_below-true 12 month_agrees m refl h

-- What `g_days_to_dmy` makes of the parts.
days_to_dmy_lem :
    (days : ℕ) (t : Tm) (p : Parts days)
    → days < days_in_force
    → days_to_dmy days t ≡ record t {
      tm_mon = month_of p.m;
      tm_mday = day_of p.e p.m;
      tm_year = 100 * p.b + p.d + p.m / 10 - 6700;
    }
unfolding days_to_dmy
days_to_dmy_lem days t p h =
    let a : u32 (days + 2472632) ≡ days + 2472632 = omega arith in
    let quad : u32 (4 * (days + 2472632) + 3) ≡ 4 * (days + 2472632) + 3 = omega arith in
    let b : div146097 (4 * (days + 2472632) + 3) ≡ p.b =
      (divisions_exact (4 * (days + 2472632) + 3) (omega arith)).6 ∙ p.century in
    let c : sub32 (days + 2472632) (u32 (146097 * p.b) / 4) ≡ p.c =
      omega (arith, p.rest, p.b_bound) in
    let bounded : p.c < 36525 = omega (arith, p.day, p.d_bound, p.e_bound) in
    let quad' : u32 (4 * p.c + 3) ≡ 4 * p.c + 3 = omega arith in
    let d : div1461 (4 * p.c + 3) ≡ p.d =
      (divisions_exact (4 * p.c + 3) (omega arith)).5 ∙ p.year in
    let e : sub32 p.c (u32 (1461 * p.d) / 4) ≡ p.e = omega (arith, p.day, p.d_bound) in
    let quint : u32 (5 * p.e + 2) ≡ 5 * p.e + 2 = omega (arith, p.e_bound) in
    let m : div153 (5 * p.e + 2) ≡ p.m =
      (divisions_exact (5 * p.e + 2) (omega (arith, p.e_bound))).4 ∙ p.month in
    let small : p.m < 12 = omega (arith, p.month, p.e_bound) in
    let tenth : div10 p.m ≡ p.m / 10 = (divisions_exact p.m (omega arith)).1 in
    let five : u32 (153 * p.m + 2) ≡ 153 * p.m + 2 = omega arith in
    let fifth : div5 (153 * p.m + 2) ≡ (153 * p.m + 2) / 5 =
      (divisions_exact (153 * p.m + 2) (omega arith)).0 in
    let mon : sub32 (u32 (p.m + 2)) (u32 (12 * (p.m / 10))) ≡ month_of p.m = omega arith in
    let mday : sub32 (u32 (p.e + 1)) ((153 * p.m + 2) / 5) ≡ day_of p.e p.m =
      omega (arith, p.month, p.e_bound) in
    let y : sub32 (sub32 (u32 (100 * p.b + p.d + p.m / 10)) 4800) 1900
        ≡ 100 * p.b + p.d + p.m / 10 - 6700 =
      omega (arith, p.b_bound, p.d_bound) in
    rw (a, quad, b, c, quad', d, e, quint, m, tenth, five, fifth, mon, mday, y) refl

-- The sum of `_mktime` on a date from the parts.
day_number :
    (days : ℕ) (p : Parts days)
    → days < days_in_force
    → let mon = month_of p.m in
      let y = sub32 (u32 (100 * p.b + p.d + p.m / 10 - 6700 + 6700)) (if ltb mon 2 then 1 else 0) in
      sub32 (u32 (day_of p.e p.m + get_or days_before mon 0 + 365 * y + y / 4)) 2472684 ≡ days
day_number days p h =
    let small : p.m < 12 = omega (arith, p.month, p.e_bound) in
    let table = month_table p.m small in
    let before : get_or days_before (month_of p.m) 0 ≡ (153 * p.m + 2) / 5 =
      ground (arith, table) in
    let carried : (if ltb (month_of p.m) 2 then 1 else 0) ≡ p.m / 10 = ground (arith, table) in
    let y : sub32 (u32 (100 * p.b + p.d + p.m / 10 - 6700 + 6700)) (p.m / 10) ≡ 100 * p.b + p.d =
      omega (arith, p.b_bound, p.d_bound) in
    rw (before, carried, y) (omega (arith, p.together, p.month, p.e_bound))

-- Up to the end of February, 2100, in the local time, `_mktime` of the date that `localtime_r` gives
-- is the time stamp again and leaves the date, with its day of the week, as it was. The month is below
-- 12, the day of the month between 1 and 31, and the time of day in its bounds.
pub mktime-localtime_r :
    (timezone timer : ℕ) (t : Tm)
    → timezone < 2 ^ 32
    → timer < 2 ^ 32
    → sub32 timer timezone < days_in_force * 86400
    → let date = localtime_r timezone timer t in
      (mktime timezone date ≡ (timer, date))
      × (date.tm_mon < 12)
      × (1 ≤ date.tm_mday)
      × (date.tm_mday ≤ 31)
      × (date.tm_hour < 24)
      × (date.tm_min < 60)
      × (date.tm_sec < 60)
unfolding localtime_r mktime
mktime-localtime_r timezone timer t hz ht h =
    let local = sub32 timer timezone in
    let (days, t') = timestamp_to_hms local t in
    let (hour, min, sec, sum) = timestamp_to_hms_lem local t (omega arith) in
    let early : days < days_in_force = omega (arith, hour, min, sec, sum) in
    let p = parts days early in
    let date = days_to_dmy_lem days (record t' { tm_wday = rem7 (add32 days 4) }) p early in
    rw (date, day_number days p early)
      (
        ap
            (λ stamp. (
              stamp,
              record t' {
                tm_wday = rem7 (add32 days 4);
                tm_mon = month_of p.m;
                tm_mday = day_of p.e p.m;
                tm_year = 100 * p.b + p.d + p.m / 10 - 6700;
              },
            ))
            (omega (arith, hour, min, sec, sum, h)),
        omega (arith, p.month, p.e_bound),
        omega (arith, p.month, p.e_bound),
        omega (arith, p.month, p.e_bound),
        hour,
        min,
        sec,
      )
