-- ===== src/Tests/Library.antt =====
-- The memory, string and date functions at concrete inputs.
use cmsis_rtos.Base.{◌≡◌, ◌<◌, ◌≤◌, ◌-◌, ◌^◌, refl, arith}
use cmsis_rtos.Memory.{Bytes, poke}
use cmsis_rtos.Calendar.RoundTrip.{mktime-localtime_r}
use cmsis_rtos.Calendar.{
  div5, div10, div153, div1461, div146097, Tm, timestamp_to_hms, localtime_r, mktime, days_to_dmy,
  rem7,
}

-- The characters 65 and 66 at 10, 67 at 20, each with a zero behind.
abbrev two_strings : Bytes
two_strings = poke (poke (poke (λ _. 0) 10 65) 11 66) 20 67

abbrev no_date : Tm
no_date = record {
  tm_sec = 0;
  tm_min = 0;
  tm_hour = 0;
  tm_mday = 0;
  tm_mon = 0;
  tm_year = 0;
  tm_wday = 0;
}

-- Sunday, 9 September 2001, and back.
billionth_second : (localtime_r 0 1000000000 no_date).tm_mday ≡ 9
unfolding localtime_r timestamp_to_hms days_to_dmy div5 div10 div153 div1461 div146097 rem7
billionth_second = refl

billionth_second_back : (mktime 0 (localtime_r 0 1000000000 no_date)).0 ≡ 1000000000
unfolding mktime localtime_r timestamp_to_hms days_to_dmy div5 div10 div153 div1461 div146097 rem7
billionth_second_back = refl

-- The 13th of September, 2020, 15:26:40 in Moscow, three hours east of UTC.
abbrev blank : Tm
blank = record {
  tm_sec = 0;
  tm_min = 0;
  tm_hour = 0;
  tm_mday = 0;
  tm_mon = 0;
  tm_year = 0;
  tm_wday = 0;
}

mktime-localtime_r_example :
    let date = localtime_r (2 ^ 32 - 10800) 1600000000 blank in
    (mktime (2 ^ 32 - 10800) date ≡ (1600000000, date))
    × (date.tm_mon < 12)
    × (1 ≤ date.tm_mday)
    × (date.tm_mday ≤ 31)
    × (date.tm_hour < 24)
    × (date.tm_min < 60)
    × (date.tm_sec < 60)
mktime-localtime_r_example =
    mktime-localtime_r (2 ^ 32 - 10800) 1600000000 blank (omega arith) (omega arith) (omega arith)
