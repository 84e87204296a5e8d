-- ===== src/Thrd/Slept.antt =====
-- What remains of a sleep.
use cmsis_rtos.Base.{
  ℕ, ◌+◌, ◌-◌, ◌*◌, ◌/◌, ◌^◌, ◌<◌, ◌≡◌, refl, ◌∙◌, inl, inr, Bool-cases, ltb, if◌then◌else◌, arith,
}
use cmsis_rtos.Base.Word.{u32, sub32}
use cmsis_rtos.Kernel.{Timespec}
use cmsis_rtos.Thrd.{all_ones, timespec_to_us, timespec_from_us, thrd_sleep}

-- An interval of microseconds is the same after it was a `struct timespec`, whose nanoseconds are a fraction
-- of a second.
pub to_us-from_us :
    (us : ℕ)
    → us < 2 ^ 32
    → (timespec_to_us (timespec_from_us us) ≡ us) × ((timespec_from_us us).tv_nsec < 10 ^ 9)
unfolding timespec_to_us timespec_from_us
to_us-from_us us h = (omega (arith, h), omega (arith, h))

nothing_left : timespec_to_us (record { tv_sec = 0; tv_nsec = 0 }) ≡ 0
unfolding timespec_to_us
nothing_left = refl

-- The duration in whole microseconds, which `timespec_to_us` keeps in 32 bits only.
abbrev microseconds : Timespec → ℕ
microseconds duration = duration.tv_sec * 1000000 + duration.tv_nsec / 1000

-- `thrd_sleep` of a duration below 2 ^ 32 microseconds, over a wrap of the clock too: when the time from
-- the clock before to the one after, less than 2 ^ 32 microseconds, is short of the duration, it
-- returns -1 and the rest is what the two leave of the duration, to the microsecond; otherwise it
-- returns 0 and the rest is 0.
pub thrd_sleep_remaining :
    (before slept : ℕ) (duration : Timespec)
    → before < 2 ^ 32
    → slept < 2 ^ 32
    → microseconds duration < 2 ^ 32
    → let (status, rest) = thrd_sleep before (u32 (before + slept)) duration in
      (status ≡ (if ltb slept (microseconds duration) then all_ones else 0))
      × (timespec_to_us rest ≡ microseconds duration - slept)
      × (rest.tv_nsec < 10 ^ 9)
unfolding thrd_sleep timespec_to_us
thrd_sleep_remaining before slept duration h k fits =
    let ts : sub32 (u32 (before + slept)) before ≡ slept = omega arith in
    let us = microseconds duration in
    let whole : u32 us ≡ us = omega (arith, fits) in
    elim (Bool-cases (ltb slept us)) [
      | inl short ↦
          let less : slept < us = ground (arith, short) in
          let left : sub32 us slept ≡ us - slept = omega (arith, less, fits) in
          let (back, fraction) = to_us-from_us (us - slept) (omega (arith, fits)) in
          rw (ts, whole, short, left) (refl, back, fraction)
      | inr enough ↦
          rw (ts, whole, enough) (refl, nothing_left ∙ ground (arith, enough), omega arith)
    ]
