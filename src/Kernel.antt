-- ===== src/Kernel.antt =====
-- kernel.c, time.h: the clock of the system. `BOARD_RTC_PERIOD`, the microseconds between two ticks,
-- is set by the board and is a parameter.
pub mod Uptime
pub mod Sleep
use cmsis_rtos.Base.{
  ℕ, ◌+◌, ◌*◌, ◌/◌, ◌%◌, ◌-◌, Bool, true, false, List, ◌==◌, ◌&&◌, if◌then◌else◌, ltb, leb, ◌^◌,
  not, ◌||◌, Option, none, some,
}
use cmsis_rtos.Base.Word.{add32, u32}
use cmsis_rtos.Timer.{Timers, timer_work}

-- `struct timespec`
pub record Timespec : Type 0 where
  pub tv_nsec : ℕ
  pub tv_sec : ℕ

abbrev pub timespec : ℕ → ℕ → Timespec
timespec n s = record { tv_nsec = n; tv_sec = s }

-- `system_ticks`, `system_uptime`, `UTC`, `system_microsec`, and the timers of timer.c.
pub record Clock : Type 0 where
  pub ticks : ℕ
  pub uptime : Timespec
  pub utc : Timespec
  pub microsec : ℕ
  pub timers : Timers

abbrev pub second : ℕ
second = 1000000000

-- A `long` of a whole second or more; it is negative from 2 ^ 31 on.
unfoldable pub is_second : ℕ → Bool
is_second nsec = leb second nsec && ltb nsec (2 ^ 31)

-- The step that carries a whole second from the nanoseconds to the seconds.
unfoldable pub carry : Timespec → Timespec
carry t = if is_second t.tv_nsec then timespec (t.tv_nsec - second) (add32 t.tv_sec 1) else t

-- What a tick does to the outside: the timers it serves, and whether it asks for a switch.
pub record Tick : Type 0 where
  pub served : List ℕ
  pub yields : Bool
  pub clock : Clock

-- `SysTick_Handler`. The flag tells that the running thread is below the realtime priority.
unfoldable pub sys_tick : ℕ → Bool → Clock → Tick
sys_tick period low c =
    let now = add32 c.ticks period in
    let (served, timers) = timer_work now c.timers in
    let microsec = add32 c.microsec period in
    let over = leb 1000 microsec in
    record {
      served = served;
      yields = over && low;
      clock = record c {
        ticks = now;
        uptime = carry (timespec (add32 c.uptime.tv_nsec (period * 1000)) c.uptime.tv_sec);
        microsec = if over then microsec - 1000 else microsec;
        timers = timers;
      };
    }

-- `clock`
unfoldable pub clock : Clock → ℕ
clock c = c.ticks

-- `clock_gettime`; the flag tells `TIME_UTC` from the other clocks.
unfoldable pub clock_gettime : Bool → Clock → Timespec
clock_gettime utc c =
    if utc
    then (carry
        (timespec (add32 c.uptime.tv_nsec c.utc.tv_nsec) (add32 c.uptime.tv_sec c.utc.tv_sec)))
    else c.uptime

-- `clock_getres`
unfoldable pub clock_getres : ℕ → Timespec
clock_getres period = timespec (1000 * period) 0

-- `time`
unfoldable pub time : Clock → ℕ
time c = c.uptime.tv_sec

-- `div1000`, a product and a shift in 64 bits.
unfoldable pub div1000 : ℕ → ℕ
div1000 v = v * 0x83126E98 % 2 ^ 64 / 2 ^ 41

-- `clock_nanosleep`: the microseconds of the call `SVC_USLEEP`, or `none` for -1.
unfoldable pub clock_nanosleep : Timespec → Option ℕ
clock_nanosleep t =
    if not (t.tv_sec == 0) || is_second t.tv_nsec then none else some (div1000 t.tv_nsec)
