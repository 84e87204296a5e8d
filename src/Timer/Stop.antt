-- ===== src/Timer/Stop.antt =====
-- `osTimerStop` on the list that `osTimerStartMicroSec` builds.
use cmsis_rtos.Base.{
  if◌then◌else◌, ℕ, zero, suc, ◌<◌, ◌≡◌, ◌≢◌, refl, Bool-cases, inl, inr, true, false, List, [],
  ◌∷◌, contains, length, none, some, ◌==◌, ap, ◌∙◌, arith,
}
use cmsis_rtos.Timer.{Timer, Timers, store, stop_from, timer_stop, timer_start, timer_off, ok}

-- From the timer `x` the links lead through the timers of the list, and the last of them leads to
-- itself.
abbrev pub IsRing : (ℕ → Timer) → ℕ → List ℕ → Type 0
IsRing a x [] = (x ≢ 0) × ((a x).next ≡ x)
IsRing a x (y ∷ ys) = (x ≢ 0) × ((a x).next ≡ y) × IsRing a y ys

IsRing-store :
    (a : ℕ → Timer) (p : ℕ) (v : Timer) (x : ℕ) (xs : List ℕ)
    → contains p (x ∷ xs) ≡ false
    → IsRing a x xs
    → IsRing (store a p v) x xs
IsRing-store a p v x [] out r =
    let same : store a p v x ≡ a x = ground arith in (r.0, ap Timer.next same ∙ r.1)
IsRing-store a p v x (y ∷ ys) out r =
    let same : store a p v x ≡ a x = ground arith in
    (r.0, ap Timer.next same ∙ r.1, IsRing-store a p v y ys (ground arith) r.2)

-- The first timer that is started leads to itself; a timer started after others leads to them.
pub timer_start-IsRing :
    (p microsec now : ℕ) (s : Timers) (xs : List ℕ)
    → p ≢ 0
    → let s' = timer_start p microsec now s in
      (s.first ≡ 0 → IsRing s'.at s'.first [])
      × (contains p (s.first ∷ xs) ≡ false
          → IsRing s.at s.first xs
          → IsRing s'.at s'.first (s.first ∷ xs))
unfolding timer_start
timer_start-IsRing p microsec now s [] ne = (
  λ f. (ne, ground arith),
  λ out r. (ne, ground (arith, r.0), IsRing-store s.at p _ s.first [] out r),
)
timer_start-IsRing p microsec now s (y ∷ ys) ne = (
  λ f. (ne, ground arith),
  λ out r. (ne, ground (arith, r.0), IsRing-store s.at p _ s.first (y ∷ ys) out r),
)

stop_from-next :
    (rounds p x : ℕ) (s : Timers)
    → x ≢ 0
    → (x == p) ≡ false
    → stop_from (suc rounds) p x s ≡ stop_from rounds p (s.at x).next s
unfolding stop_from
stop_from-next rounds p x s ne other =
    let more : (x == 0) ≡ false = ground arith in rw (more, other, stop_from) refl

stop_from-found :
    (rounds p x : ℕ) (xs : List ℕ) (s : Timers)
    → IsRing s.at x xs
    → contains p (x ∷ xs) ≡ true
    → length xs < rounds
    → stop_from rounds p x s
      ≡ some (ok, record s { at = store s.at p (record (s.at p) { notify = timer_off }) })
unfolding stop_from
stop_from-found zero p x xs s r found l = absurd (omega arith)
stop_from-found (suc rounds) p x [] s r found l =
    let here : x ≡ p = ground arith in ground (arith, r.0)
stop_from-found (suc rounds) p x (y ∷ ys) s r found l = elim (Bool-cases (x == p)) [
  | inl here ↦ let same : x ≡ p = ground arith in ground (arith, r.0, same)
  | inr other ↦
      stop_from-next rounds p x s r.0 other
      ∙ rw r.1 (stop_from-found rounds p y ys s r.2 (ground (arith, other)) (omega arith))
]

stop_from-lost :
    (rounds p x : ℕ) (xs : List ℕ) (s : Timers)
    → IsRing s.at x xs
    → contains p (x ∷ xs) ≡ false
    → stop_from rounds p x s ≡ none
unfolding stop_from
stop_from-lost zero p x xs s r lost = refl
stop_from-lost (suc rounds) p x [] s r lost =
    stop_from-next rounds p x s r.0 (ground arith) ∙ rw r.1 (stop_from-lost rounds p x [] s r lost)
stop_from-lost (suc rounds) p x (y ∷ ys) s r lost =
    stop_from-next rounds p x s r.0 (ground arith)
    ∙ rw r.1 (stop_from-lost rounds p y ys s r.2 (ground arith))

-- On the timers that were started, with at least as many rounds of its loop as there are timers,
-- `osTimerStop` of one of them switches it off and changes nothing else; of any other timer it has
-- not returned, however many rounds there are.
pub timer_stop_lem :
    (rounds p : ℕ) (xs : List ℕ) (s : Timers)
    → IsRing s.at s.first xs
    → length xs < rounds
    → timer_stop rounds p s ≡ (
        if contains p (s.first ∷ xs)
        then some (ok, record s { at = store s.at p (record (s.at p) { notify = timer_off }) })
        else none)
unfolding timer_stop
timer_stop_lem rounds p xs s r l = elim (Bool-cases (contains p (s.first ∷ xs))) [
  | inl found ↦ rw found (stop_from-found rounds p s.first xs s r found l)
  | inr lost ↦ rw lost (stop_from-lost rounds p s.first xs s r lost)
]
