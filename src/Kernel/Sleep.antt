-- ===== src/Kernel/Sleep.antt =====
-- The reciprocal product behind `clock_nanosleep`.
use cmsis_rtos.Base.{if◌then◌else◌, ltb, ◌==◌, ◌&&◌, ℕ, ◌/◌, ◌^◌, ◌<◌, ◌≡◌, none, some, arith}
use cmsis_rtos.Kernel.{Timespec, div1000, clock_nanosleep, is_second, second}

-- For every 32-bit word the product and the shift give the quotient by 1000.
pub div1000_lem : (v : ℕ) → v < 2 ^ 32 → div1000 v ≡ v / 1000
unfolding div1000
div1000_lem v h = omega arith

-- For a time of 32-bit fields whose nanoseconds are not negative, `clock_nanosleep` asks for a
-- sleep exactly when the time is below one second, and then for its whole microseconds.
pub clock_nanosleep_lem :
    (t : Timespec)
    → t.tv_nsec < 2 ^ 31
    → clock_nanosleep t
      ≡ (if (t.tv_sec == 0) && ltb t.tv_nsec second then some (t.tv_nsec / 1000) else none)
unfolding clock_nanosleep is_second
clock_nanosleep_lem t n =
    let quotient = div1000_lem t.tv_nsec (omega arith) in ground (arith, quotient)
