-- ===== src/Tests/Time.antt =====
-- timer.c and kernel.c at concrete inputs.
use cmsis_rtos.Base.{ℕ, ◌+◌, ◌*◌, ◌<◌, ◌≡◌, refl, true, false, [], ◌∷◌, length, arith}
use cmsis_rtos.Base.Word.{sub32}
use cmsis_rtos.Timer.{Timers, timers, timer_periodic}
use cmsis_rtos.Timer.Served.{ticks, regular, ticks-regular}
use cmsis_rtos.Kernel.{Clock, timespec, second}
use cmsis_rtos.Kernel.Uptime.{total, run_ticks, uptime_exact}

-- A periodic timer at 8, started at the time 100 with an interval of 500.
abbrev alone : Timers
alone =
    timers 8 8 (λ p. record { next = 8; timestamp = 100; interval = 500; notify = timer_periodic })

ticks-regular_example :
    (rest : ℕ) × (rest < 500)
    × (sub32 100 100 + 12 * 100 ≡ length (ticks (regular 100 12 100) alone).0 * 500 + rest)
ticks-regular_example =
    ticks-regular 100 12 100 8 alone (omega arith) refl refl refl (omega arith) (omega arith)
      (omega arith) (omega arith) (omega arith)

abbrev no_timers : Timers
no_timers =
    timers 0 0 (λ p. record { next = 0; timestamp = 0; interval = 0; notify = timer_periodic })

abbrev late_clock : Clock
late_clock = record {
  ticks = 999900;
  uptime = timespec 999900000 7;
  utc = timespec 500000000 1000;
  microsec = 900;
  timers = alone;
}

uptime_exact_example :
    let after = (run_ticks 100 (true ∷ false ∷ []) late_clock).1 in
    (after.uptime.tv_nsec < second)
    × (after.microsec < 1000)
    × (total after.uptime ≡ total (late_clock.uptime) + 2 * (100 * 1000))
uptime_exact_example =
    uptime_exact 100 (true ∷ false ∷ []) late_clock (omega arith) (omega arith) (omega arith)
      (omega arith)
