-- ===== src/Timer/Served.antt =====
-- Which timers `osTimerWork` serves, and when, over any sequence of ticks.
use cmsis_rtos.Base.{
  ℕ, zero, suc, Bool-cases, ◌-◌, inl, inr, true, false, ◌+◌, ◌*◌, ◌^◌, ◌<◌, ◌≡◌, ◌≢◌, refl, ap, ap₂,
  List, [], ◌∷◌, ◌++◌, contains, length, ◌==◌, ◌≤◌, ◌∙◌, contains-append, arith,
}
use cmsis_rtos.Base.Word.{add32, sub32}
use cmsis_rtos.Timer.{
  Timer, Timers, timer_work, timer_start, is_due, advance, timer_periodic, timers, store,
}

-- The ticks of the system at the given times: the timers served, in order, and the state after.
unfoldable pub ticks : List ℕ → Timers → List ℕ × Timers
ticks [] s = ([], s)
ticks (now ∷ times) s =
    let (served, s') = timer_work now s in let (more, s'') = ticks times s' in (served ++ more, s'')

-- What one tick does when the turn is that of a timer that leads to itself.
record Alone (now p : ℕ) (s : Timers) : Type 0 where
  cursor : (timer_work now s).1.cursor ≡ p
  next : ((timer_work now s).1.at p).next ≡ p
  others :
      (q : ℕ)
      → q ≢ p
      → (contains q (timer_work now s).0 ≡ false) × ((timer_work now s).1.at q ≡ s.at q)

timer_work-Alone :
    (now : ℕ) (s : Timers) (p : ℕ) → p ≢ 0 → s.cursor ≡ p → (s.at p).next ≡ p → Alone now p s
unfolding timer_work advance
timer_work-Alone now s p ne c loop = record {
  cursor = ground arith;
  next = ground arith;
  others = λ q other. (ground arith, ground arith);
}

-- When the turn is that of a timer that leads to itself, then at whatever times the ticks come no
-- other timer is ever served or changed.
pub ticks-alone :
    (times : List ℕ) (s : Timers) (p : ℕ)
    → p ≢ 0
    → s.cursor ≡ p
    → (s.at p).next ≡ p
    → (q : ℕ) → q ≢ p
    → (contains q (ticks times s).0 ≡ false) × ((ticks times s).1.at q ≡ s.at q)
unfolding ticks
ticks-alone [] s p ne c loop q other = (refl, refl)
ticks-alone (now ∷ times) s p ne c loop q other =
    let first = timer_work-Alone now s p ne c loop in
    let (skipped, same) = first.others q other in
    let (later, kept) =
      ticks-alone times (timer_work now s).1 p ne first.cursor first.next q other in
    (
      contains-append q (timer_work now s).0 (ticks times (timer_work now s).1).0
          ∙ rw skipped later,
      kept ∙ same,
    )

-- The times of `k` ticks after `now`, a period apart.
abbrev pub regular : ℕ → ℕ → ℕ → List ℕ
regular period zero now = []
regular period (suc k) now = add32 now period ∷ regular period k (add32 now period)

sub32-sub32 : (a b i : ℕ) → b < 2 ^ 32 → i ≤ sub32 a b → sub32 a (add32 b i) ≡ sub32 a b - i
sub32-sub32 a b i h k = omega arith

-- A timer that leads to itself and has its turn, at a tick when it is due and when it is not.
timer_work-due :
    (now p : ℕ) (s : Timers)
    → p ≢ 0
    → s.cursor ≡ p
    → (s.at p).next ≡ p
    → is_due now (s.at p) ≡ true
    → timer_work now s ≡ (p ∷ [], timers s.first p (store s.at p (advance (s.at p))))
unfolding timer_work
timer_work-due now p s ne c loop due =
    let turn : (p == 0) ≡ false = ground arith in rw (c, turn, due, loop, timer_work) refl

timer_work-idle :
    (now p : ℕ) (s : Timers)
    → p ≢ 0
    → s.cursor ≡ p
    → (s.at p).next ≡ p
    → is_due now (s.at p) ≡ false
    → timer_work now s ≡ ([], timers s.first p s.at)
unfolding timer_work
timer_work-idle now p s ne c loop due =
    let turn : (p == 0) ≡ false = ground arith in rw (c, turn, due, loop, timer_work) refl

ticks-regular_at :
    (period k now p ts i : ℕ) (s : Timers)
    → p ≢ 0
    → s.cursor ≡ p
    → (s.at p).next ≡ p
    → (s.at p).notify ≡ timer_periodic
    → (s.at p).timestamp ≡ ts
    → (s.at p).interval ≡ i
    → now < 2 ^ 32
    → ts < 2 ^ 32
    → i < 2 ^ 31
    → period ≤ i
    → sub32 now ts < i
    → (rest : ℕ) × (rest < i)
      × (sub32 now ts + k * period ≡ length (ticks (regular period k now) s).0 * i + rest)
unfolding ticks is_due advance
ticks-regular_at period zero now p ts i s ne c loop on et ei n t b short d =
    (sub32 now ts, d, omega arith)
ticks-regular_at period (suc k) now p ts i s ne c loop on et ei n t b short d =
    let passed : sub32 (add32 now period) ts ≡ sub32 now ts + period = omega arith in
    elim (Bool-cases (is_due (add32 now period) (s.at p))) as (λ _. Kept) [
      | inl due ↦
          let tick = timer_work-due (add32 now period) p s ne c loop due in
          let own : store s.at p (advance (s.at p)) p ≡ advance (s.at p) = ground arith in
          let reached : i ≤ sub32 (add32 now period) ts = ground arith in
          let moved = sub32-sub32 (add32 now period) ts i t reached in
          let (rest, less, sum) =
            ticks-regular_at period k (add32 now period) p (add32 ts i) i
              (timers s.first p (store s.at p (advance (s.at p)))) ne refl
              (ap Timer.next own ∙ loop) (ap Timer.notify own ∙ ground arith)
              (ap Timer.timestamp own ∙ ap₂ add32 et ei) (ap Timer.interval own ∙ ei) (omega arith)
              (omega arith) b short (omega arith) in
          (rest, less, rw (tick, ticks) (omega (arith, sum, moved, passed, reached)))
      | inr idle ↦
          let tick = timer_work-idle (add32 now period) p s ne c loop idle in
          let (rest, less, sum) =
            ticks-regular_at period k (add32 now period) p ts i (timers s.first p s.at) ne refl loop
              on et ei (omega arith) t b short (ground arith) in
          (rest, less, rw (tick, ticks) (omega (arith, sum, passed)))
    ]
  where
    Kept : Type 0
    Kept =
        (rest : ℕ) × (rest < i)
        × (sub32 now ts + suc k * period
            ≡ length (ticks (regular period (suc k) now) s).0 * i + rest)

-- A periodic timer with an interval below 2 ^ 31 that leads to itself and has its turn, with a period of
-- the tick no longer than its interval and not yet due, is served floor (t / interval) times in `k`
-- ticks a period apart, where `t` is the time from its last due time to the last tick: it does not
-- drift. The clock and the due time at the start are 32-bit words.
pub ticks-regular :
    (period k now p : ℕ) (s : Timers)
    → p ≢ 0
    → s.cursor ≡ p
    → (s.at p).next ≡ p
    → (s.at p).notify ≡ timer_periodic
    → now < 2 ^ 32
    → (s.at p).timestamp < 2 ^ 32
    → (s.at p).interval < 2 ^ 31
    → period ≤ (s.at p).interval
    → sub32 now (s.at p).timestamp < (s.at p).interval
    → (rest : ℕ) × (rest < (s.at p).interval)
      × (sub32 now (s.at p).timestamp + k * period
          ≡ length (ticks (regular period k now) s).0 * (s.at p).interval + rest)
ticks-regular period k now p s ne c loop on n t i short d =
    ticks-regular_at period k now p (s.at p).timestamp (s.at p).interval s ne c loop on refl refl n
      t i short d

-- With no timer started, one timer is started, a tick comes, and then another timer is started:
-- at whatever times the ticks come, the second timer is never served.
pub timer_start_second :
    (p q : ℕ) (s : Timers) (microsec now tick microsec' later : ℕ) (times : List ℕ)
    → p ≢ 0
    → q ≢ p
    → s.first ≡ 0
    → s.cursor ≡ 0
    → let one = (timer_work tick (timer_start p microsec now s)).1 in
      contains q (ticks times (timer_start q microsec' later one)).0 ≡ false
unfolding timer_start timer_work
timer_start_second p q s microsec now tick microsec' later times ne other f c =
    (ticks-alone times
      (timer_start q microsec' later (timer_work tick (timer_start p microsec now s)).1) p ne
      (ground arith) (ground arith) q other).0
