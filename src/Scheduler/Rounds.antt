-- ===== src/Scheduler/Rounds.antt =====
-- Which thread `osThreadScheduler` chooses: the first ready one after the current thread, in the
-- order of the ring.
use cmsis_rtos.Base.{
  ℕ, zero, suc, ◌<◌, ◌≡◌, refl, true, false, List, [], ◌∷◌, ◌++◌, append_assoc, ap, some, arith,
  length, length-append, inl, inr, Bool-cases, ◌⊎◌,
}
use cmsis_rtos.Scheduler.{Thread, Cells, state, has, running, poll, schedule}
use cmsis_rtos.Scheduler.Poll.{poll-running, poll_not_ready, poll_running_lem}

-- The scheduler passes over the threads `ts`, none of which is ready, from memory `m` to `m'`.
abbrev pub Skips : (ℕ → ℕ) → List Thread → Cells → Cells → Type 0
Skips clock [] m m' = m ≡ m'
Skips clock (t ∷ ts) m m' =
    ((poll (clock 0) t m).ready ≡ false)
    × Skips (λ i. clock (suc i)) ts (poll (clock 0) t m).cells m'

schedule_ready_at_once :
    (rounds : ℕ) (clock : ℕ → ℕ) (current : Thread) (ts : List Thread) (t : Thread) (m : Cells)
    (others : List Thread)
    → ts ++ (current ∷ []) ≡ t ∷ others
    → (poll (clock 0) t m).ready ≡ true
    → schedule (suc rounds) clock (current ∷ ts) m
      ≡ some (state ((poll (clock 0) t m).thread ∷ others) (poll (clock 0) t m).cells)
unfolding schedule
schedule_ready_at_once rounds clock current ts t m others e r = rw (e, r, schedule)

-- Passing over the threads `skipped`, the scheduler runs the next one that is ready. The ring keeps
-- its order and starts with that thread; only that thread and the memory change.
pub schedule-ready :
    (skipped : List Thread) (rounds : ℕ) (clock : ℕ → ℕ) (current t : Thread) (others : List Thread)
    (m m' : Cells)
    → Skips clock skipped m m'
    → (poll (clock (length skipped)) t m').ready ≡ true
    → length skipped < rounds
    → schedule rounds clock (current ∷ skipped ++ (t ∷ others)) m ≡ (
        let p = poll (clock (length skipped)) t m' in
        some (state (p.thread ∷ (others ++ (current ∷ skipped))) p.cells))
unfolding schedule
schedule-ready skipped zero clock current t others m m' s r h = absurd (omega arith)
schedule-ready [] (suc rounds) clock current t others m m' s r h = rw (← s) (
    schedule_ready_at_once rounds clock current (t ∷ others) t m (others ++ (current ∷ [])) refl
      (rw s r))
schedule-ready (x ∷ skipped) (suc rounds) clock current t others m m' s r h =
    let after = (poll (clock 0) x m).cells in
    let rest =
      schedule-ready skipped rounds (λ i. clock (suc i)) x t (others ++ (current ∷ [])) after m' s.1
        r (omega arith) in
    rw (s.0, poll_not_ready _ x m s.0, append_assoc, schedule) (simp append_assoc at rest)

-- When no other thread is ready the scheduler comes back to the current thread.
pub schedule_current :
    (skipped : List Thread) (rounds : ℕ) (clock : ℕ → ℕ) (current : Thread) (m m' : Cells)
    → Skips clock skipped m m'
    → (poll (clock (length skipped)) current m').ready ≡ true
    → length skipped < rounds
    → schedule rounds clock (current ∷ skipped) m ≡ (
        let p = poll (clock (length skipped)) current m' in
        some (state (p.thread ∷ skipped) p.cells))
unfolding schedule
schedule_current skipped zero clock current m m' s r h = absurd (omega arith)
schedule_current [] (suc rounds) clock current m m' s r h =
    rw (← s) (schedule_ready_at_once rounds clock current [] current m [] refl (rw s r))
schedule_current (x ∷ skipped) (suc rounds) clock current m m' s r h =
    let after = (poll (clock 0) x m).cells in
    rw (s.0, poll_not_ready _ x m s.0, schedule)
      (schedule-ready skipped rounds (λ i. clock (suc i)) x current [] after m' s.1 r (omega arith))

-- The first thread of `ts` that is ready, with those before it, if there is one.
data Scan (clock : ℕ → ℕ) (ts : List Thread) (m : Cells) : Type 0 where
  found :
      (skipped : List Thread) (t : Thread) (others : List Thread) (m' : Cells)
      → ts ≡ skipped ++ (t ∷ others)
      → Skips clock skipped m m'
      → (poll (clock (length skipped)) t m').ready ≡ true
      → Scan clock ts m
  nobody : (m' : Cells) → Skips clock ts m m' → Scan clock ts m

scan : (clock : ℕ → ℕ) (ts : List Thread) (m : Cells) → Scan clock ts m
scan clock [] m = nobody m refl
scan clock (t ∷ ts) m = elim (Bool-cases (poll (clock 0) t m).ready) [
  | inl ready ↦ found [] t ts m refl refl ready
  | inr wait ↦ elim (scan (λ i. clock (suc i)) ts (poll (clock 0) t m).cells) [
    | found skipped u others m' e s r ↦
        found (t ∷ skipped) u others m' (ap (λ l. t ∷ l) e) (wait, s) r
    | nobody m' s ↦ nobody m' (wait, s)
  ]
]

-- A thread of the list has the running flag.
abbrev pub AnyRunning : List Thread → Type 0
AnyRunning [] = ⊥
AnyRunning (t ∷ ts) = (has t.event.status running ≡ true) ⊎ AnyRunning ts

not_Skips_of_AnyRunning :
    (clock : ℕ → ℕ) (ts : List Thread) (m m' : Cells) → AnyRunning ts → Skips clock ts m m' → ⊥
not_Skips_of_AnyRunning clock [] m m' a s = a
not_Skips_of_AnyRunning clock (t ∷ ts) m m' (inl r) s = cc (poll_running_lem (clock 0) t m r, s.0)
not_Skips_of_AnyRunning clock (t ∷ ts) m m' (inr a) s =
    not_Skips_of_AnyRunning (λ i. clock (suc i)) ts (poll (clock 0) t m).cells m' a s.1

-- As long as some thread of the ring is running, the scheduler ends within one round for each
-- thread, and the thread that it runs has the running flag.
pub schedule_total :
    (clock : ℕ → ℕ) (current : Thread) (ts : List Thread) (m : Cells)
    → AnyRunning (current ∷ ts)
    → (t : Thread) × (others : List Thread) × (m' : Cells) × (schedule
          (suc (length ts))
          clock
          (current ∷ ts)
          m
        ≡ some (state (t ∷ others) m'))
      × (has t.event.status running ≡ true)
      × (length others ≡ length ts)
schedule_total clock current ts m a = elim (scan clock ts m) [
  | found skipped t others m' e s r ↦
      let p = poll (clock (length skipped)) t m' in
      let size : length ts ≡ length (skipped ++ (t ∷ others)) = ap length e in
      (
        p.thread,
        others ++ (current ∷ skipped),
        p.cells,
        rw e (
            schedule-ready skipped _ clock current t others m m' s r
              (omega (arith, length-append skipped (t ∷ others)))),
        poll-running _ t m' r,
        omega (arith, length-append skipped (t ∷ others), length-append others (current ∷ skipped)),
      )
  | nobody m' s ↦ elim a [
    | inl live ↦
        let p = poll (clock (length ts)) current m' in
        let r : p.ready ≡ true = rw (poll_running_lem (clock (length ts)) current m' live) refl in
        (
          p.thread,
          ts,
          p.cells,
          schedule_current ts _ clock current m m' s r (omega arith),
          poll-running _ current m' r,
          refl,
        )
    | inr live ↦ absurd (not_Skips_of_AnyRunning clock ts m m' live s)
  ]
]
