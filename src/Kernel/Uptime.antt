-- ===== src/Kernel/Uptime.antt =====
-- What `SysTick_Handler` keeps over any number of ticks.
use cmsis_rtos.Base.{
  ℕ, zero, suc, ◌+◌, ◌*◌, ◌^◌, ◌<◌, ◌≤◌, ◌≡◌, refl, Bool, true, false, List, [], ◌∷◌, length,
  if◌then◌else◌, arith,
}
use cmsis_rtos.Base.Word.{add32}
use cmsis_rtos.Kernel.{Timespec, timespec, Clock, second, is_second, carry, sys_tick, clock_gettime}

-- Nanoseconds in all.
abbrev pub total : Timespec → ℕ
total t = t.tv_sec * second + t.tv_nsec

-- The ticks of a run, one for each flag, and how many of them ask for a switch.
unfoldable pub run_ticks : ℕ → List Bool → Clock → ℕ × Clock
run_ticks period [] c = (0, c)
run_ticks period (low ∷ flags) c =
    let t = sys_tick period low c in
    let (n, c') = run_ticks period flags t.clock in ((if t.yields then suc n else n), c')

carry_lem :
    (t : Timespec)
    → t.tv_nsec < 2 * second
    → t.tv_sec + 1 < 2 ^ 32
    → ((carry t).tv_nsec < second) × (total (carry t) ≡ total t)
unfolding carry is_second
carry_lem t n s = (ground arith, ground arith)

-- A clock between two ticks: the nanoseconds are below a second and the microseconds of the running
-- thread below a millisecond.
pub record IsClock (c : Clock) : Type 0 where
  pub nsec : c.uptime.tv_nsec < second
  pub micro : c.microsec < 1000

sys_tick_lem :
    (period : ℕ) (low : Bool) (c : Clock)
    → period ≤ 1000
    → c.uptime.tv_sec + 1 < 2 ^ 32
    → IsClock c
    → let t = sys_tick period low c in
      IsClock t.clock
      × (total t.clock.uptime ≡ total c.uptime + period * 1000)
      × (t.clock.uptime.tv_sec ≤ c.uptime.tv_sec + 1)
      × (low ≡ true → (if t.yields then 1000 else 0) + t.clock.microsec ≡ c.microsec + period)
unfolding sys_tick carry is_second
sys_tick_lem period low c p s w =
    let sum : add32 c.uptime.tv_nsec (period * 1000) ≡ c.uptime.tv_nsec + period * 1000 =
      omega (arith, w.nsec) in
    let carried =
      carry_lem (timespec (add32 c.uptime.tv_nsec (period * 1000)) c.uptime.tv_sec)
        (omega (arith, w.nsec)) s in
    (
      record { nsec = carried.0; micro = ground (arith, w.micro) },
      omega (arith, carried.1, sum),
      ground arith,
      λ l. ground (arith, w.micro),
    )

run_ticks-uptime :
    (period : ℕ) (flags : List Bool) (c : Clock)
    → period ≤ 1000
    → c.uptime.tv_sec + length flags < 2 ^ 32
    → IsClock c
    → IsClock (run_ticks period flags c).1
      × (total (run_ticks period flags c).1.uptime
          ≡ total c.uptime + length flags * (period * 1000))
unfolding run_ticks
run_ticks-uptime period [] c p s w = (w, omega arith)
run_ticks-uptime period (low ∷ flags) c p s w =
    let (kept, sum, sec, _) = sys_tick_lem period low c p (omega (arith, s)) w in
    let (still, rest) =
      run_ticks-uptime period flags (sys_tick period low c).clock p (omega (arith, s, sec)) kept in
    (still, omega (arith, sum, rest))

-- From a clock between two ticks, with a period of at most a millisecond and no overflow of the
-- seconds, any number of ticks adds exactly that many periods to the uptime, and leaves the
-- nanoseconds below a second and the microseconds of the running thread below a millisecond.
pub uptime_exact :
    (period : ℕ) (flags : List Bool) (c : Clock)
    → period ≤ 1000
    → c.uptime.tv_sec + length flags < 2 ^ 32
    → c.uptime.tv_nsec < second
    → c.microsec < 1000
    → let after = (run_ticks period flags c).1 in
      (after.uptime.tv_nsec < second)
      × (after.microsec < 1000)
      × (total after.uptime ≡ total c.uptime + length flags * (period * 1000))
uptime_exact period flags c p s n m =
    let (kept, sum) = run_ticks-uptime period flags c p s (record { nsec = n; micro = m }) in
    (kept.nsec, kept.micro, sum)

-- The flag of every tick, for a thread below the realtime priority.
abbrev pub all_low : ℕ → List Bool
all_low zero = []
all_low (suc k) = true ∷ all_low k

-- While threads below the realtime priority run, with a period of at most a millisecond, the
-- number of switches asked for in `k` ticks is the number of whole milliseconds that passed since
-- the last one: a thousand for each and the microseconds left make up the time.
pub run_ticks-switches :
    (period k : ℕ) (c : Clock)
    → period ≤ 1000
    → c.uptime.tv_sec + k < 2 ^ 32
    → c.uptime.tv_nsec < second
    → c.microsec < 1000
    → let r = run_ticks period (all_low k) c in
      (r.0 * 1000 + r.1.microsec ≡ c.microsec + k * period) × (r.1.microsec < 1000)
unfolding run_ticks
run_ticks-switches period zero c p s n m = (omega arith, m)
run_ticks-switches period (suc k) c p s n m =
    let (kept, _, sec, switch) =
      sys_tick_lem period true c p (omega arith) (record { nsec = n; micro = m }) in
    let (sum, below) =
      run_ticks-switches period k (sys_tick period true c).clock p (omega (arith, s, sec)) kept.nsec
        kept.micro in
    (ground (arith, sum, switch refl), below)

-- With both clocks below a second in their nanoseconds and no overflow of the seconds,
-- `clock_gettime` gives nanoseconds below a second, and `TIME_UTC` is the sum of the uptime and
-- the offset.
pub clock_gettime_lem :
    (c : Clock)
    → c.uptime.tv_nsec < second
    → c.utc.tv_nsec < second
    → c.uptime.tv_sec + c.utc.tv_sec + 1 < 2 ^ 32
    → ((clock_gettime true c).tv_nsec < second)
      × (total (clock_gettime true c) ≡ total c.uptime + total c.utc)
      × (clock_gettime false c ≡ c.uptime)
unfolding clock_gettime carry is_second
clock_gettime_lem c n u s = (ground arith, ground arith, refl)
