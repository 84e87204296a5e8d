-- ===== src/Timer.antt =====
-- timer.c: the software timers, served one for each tick of the system clock. A timer is its
-- address, 0 for NULL, and the memory of the timers is a function of the address.
pub mod Served
pub mod Stop
use cmsis_rtos.Base.{
  ℕ, zero, suc, Bool, ◌&&◌, List, [], ◌∷◌, Option, none, some, ◌==◌, if◌then◌else◌, ltb, leb, ◌^◌,
  ◌-◌,
}
use cmsis_rtos.Base.Word.{add32, sub32}

-- `struct os_timer_cb`. `notify` is `sigev_notify` as a bit pattern, negative while switched off;
-- the function and its argument are known by the timer they belong to.
pub record Timer : Type 0 where
  pub next : ℕ
  pub timestamp : ℕ
  pub interval : ℕ
  pub notify : ℕ

-- `timer_first`, `timer_next` and the timers.
pub record Timers : Type 0 where
  pub first : ℕ
  pub cursor : ℕ
  pub at : ℕ → Timer

abbrev pub timers : ℕ → ℕ → (ℕ → Timer) → Timers
timers f c a = record { first = f; cursor = c; at = a }

abbrev pub store : (ℕ → Timer) → ℕ → Timer → ℕ → Timer
store a p v q = if q == p then v else a q

abbrev pub timer_once : ℕ
timer_once = 0

abbrev pub timer_periodic : ℕ
timer_periodic = 1

abbrev pub timer_off : ℕ
timer_off = 2 ^ 32 - 1

abbrev pub ok : ℕ
ok = 0

abbrev pub error_resource : ℕ
error_resource = 0x81

-- `osTimerCreate`, at the address that the allocator gave.
unfoldable pub timer_create : ℕ → ℕ → Timers → Timers
timer_create p type s = record s {
  at = store s.at p (record { next = 0; timestamp = 0; interval = 0; notify = type });
}

-- `osTimerStartMicroSec` at the time `now`, in the round whose exclusive store succeeds.
unfoldable pub timer_start : ℕ → ℕ → ℕ → Timers → Timers
timer_start p microsec now s =
    let following = if s.first == 0 then p else s.first in
    record s {
      first = p;
      at =
          store s.at p (record (s.at p) { next = following; timestamp = now; interval = microsec });
    }

-- The loop of `osTimerStop` from a timer on, within a number of rounds.
unfoldable pub stop_from : ℕ → ℕ → ℕ → Timers → Option (ℕ × Timers)
stop_from zero p timer s = none
stop_from (suc rounds) p timer s =
    let rest = stop_from rounds p (s.at timer).next s in
    if timer == 0
    then some (error_resource, s)
    else (if timer == p
        then some
            (ok, record s { at = store s.at timer (record (s.at timer) { notify = timer_off }) })
        else rest)

-- `osTimerStop`
unfoldable pub timer_stop : ℕ → ℕ → Timers → Option (ℕ × Timers)
timer_stop rounds p s = stop_from rounds p s.first s

-- `osTimerDelete`
unfoldable pub timer_delete : ℕ → Timers → ℕ
timer_delete p s = error_resource

-- `(uint32_t)(timestamp - timer->timestamp) >= timer->interval` for a timer that is switched on.
unfoldable pub is_due : ℕ → Timer → Bool
is_due now t = leb t.interval (sub32 now t.timestamp) && ltb t.notify (2 ^ 31)

-- What the work does to a timer that is due.
unfoldable pub advance : Timer → Timer
advance t = record t {
  timestamp = add32 t.timestamp t.interval;
  notify = if t.notify == timer_once then timer_off else t.notify;
}

-- `osTimerWork`: the timers whose function it calls, and the state after it.
unfoldable pub timer_work : ℕ → Timers → List ℕ × Timers
timer_work now s =
    let t = s.at s.cursor in
    if s.cursor == 0
    then ([], record s { cursor = s.first })
    else (if is_due now t
        then (s.cursor ∷ [], record s { cursor = t.next; at = store s.at s.cursor (advance t) })
        else ([], record s { cursor = t.next }))
