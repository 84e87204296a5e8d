-- ===== src/Dispatch/Looped.antt =====
-- The loop over linked threads against the loop over the list of the ring.
use cmsis_rtos.Base.{
  ℕ, zero, suc, ◌≡◌, refl, sym, ap, ◌∙◌, inl, inr, true, false, Bool-cases, Option, none, some,
  List, [], ◌∷◌, ◌++◌, map, ◌==◌, contains, Distinct, Distinct-snoc, arith, subst,
}
use cmsis_rtos.Scheduler.{Thread, State, state, poll, schedule, rotate}
use cmsis_rtos.Dispatch.{Kernel, written, look}

-- A number of threads from one on along the links, and the thread behind them.
abbrev pub around : ℕ → (ℕ → ℕ) → ℕ → List ℕ
around zero next p = []
around (suc n) next p = p ∷ around n next (next p)

abbrev pub behind : ℕ → (ℕ → ℕ) → ℕ → ℕ
behind zero next p = p
behind (suc n) next p = behind n next (next p)

-- As many different threads make a ring.
abbrev pub IsLoop : ℕ → (ℕ → ℕ) → ℕ → Type 0
IsLoop n next p = Distinct (around n next p) × (behind n next p ≡ p)

-- The state of the scheduler that a kernel stands for.
abbrev pub ring_of : ℕ → Kernel → List Thread
ring_of n k = map k.tcbs.thread (around n k.tcbs.next k.current_thread)

abbrev pub view : ℕ → Option (ℕ × Kernel) → Option State
view n none = none
view n (some (thr, k)) = some (state (ring_of n k) k.cells)

around-snoc :
    (n : ℕ) (next : ℕ → ℕ) (p : ℕ)
    → around (suc n) next p ≡ around n next p ++ (behind n next p ∷ [])
around-snoc zero next p = refl
around-snoc (suc n) next p = ap (λ l. p ∷ l) (around-snoc n next (next p))

behind-next : (n : ℕ) (next : ℕ → ℕ) (p : ℕ) → behind n next (next p) ≡ next (behind n next p)
behind-next zero next p = refl
behind-next (suc n) next p = behind-next n next (next p)

map-snoc : (f : ℕ → Thread) (xs : List ℕ) (x : ℕ) → map f (xs ++ (x ∷ [])) ≡ map f xs ++ (f x ∷ [])
map-snoc f [] x = refl
map-snoc f (y ∷ ys) x = ap (λ l. f y ∷ l) (map-snoc f ys x)

map-written :
    (f : ℕ → Thread) (p : ℕ) (t : Thread) (xs : List ℕ)
    → contains p xs ≡ false
    → map (written f p t) xs ≡ map f xs
map-written f p t [] out = refl
map-written f p t (x ∷ xs) out =
    let other : (x == p) ≡ false = ground (arith, out) in
    rw (other, map-written f p t xs (ground (arith, out))) refl

-- The next thread starts the same ring, turned by one.
turned :
    (n : ℕ) (next : ℕ → ℕ) (p : ℕ)
    → IsLoop (suc n) next p
    → IsLoop (suc n) next (next p)
      × (around (suc n) next (next p) ≡ around n next (next p) ++ (p ∷ []))
turned n next p loop =
    let last : around (suc n) next (next p) ≡ around n next (next p) ++ (p ∷ []) =
      around-snoc n next (next p) ∙ ap (λ q. around n next (next p) ++ (q ∷ [])) loop.1 in
    (
      (
        subst Distinct (sym last) (Distinct-snoc p (around n next (next p)) loop.0.0 loop.0.1),
        behind-next (suc n) next p ∙ ap next loop.1,
      ),
      last,
    )

-- On a ring of linked threads, the loop of the scheduler and the loop over the list of the ring end in
-- the same rounds, with the same ring, current thread and semaphores.
pub look-schedule :
    (rounds n : ℕ) (clock : ℕ → ℕ) (k : Kernel)
    → IsLoop (suc n) k.tcbs.next k.current_thread
    → view (suc n) (look rounds clock k) ≡ schedule rounds clock (ring_of (suc n) k) k.cells
unfolding look schedule
look-schedule zero n clock k loop = refl
look-schedule (suc rounds) n clock k loop =
    let p = k.current_thread in
    let thr = k.tcbs.next p in
    let polled = poll (clock 0) (k.tcbs.thread thr) k.cells in
    let (loop', ring) = turned n k.tcbs.next p loop in
    let k' = record k {
      current_thread = thr;
      tcbs = record (k.tcbs) { thread = written k.tcbs.thread thr polled.thread };
      cells = polled.cells;
    } in
    let threads = map k.tcbs.thread (around n k.tcbs.next (k.tcbs.next thr)) in
    let self : (thr == thr) ≡ true = ground arith in
    let after : ring_of (suc n) k' ≡ polled.thread ∷ threads =
      rw
        (
          self,
          map-written k.tcbs.thread thr polled.thread (around n k.tcbs.next (k.tcbs.next thr))
              loop'.0.0,
        )
        refl in
    let rotated : rotate (ring_of (suc n) k) ≡ k.tcbs.thread thr ∷ threads =
      sym (map-snoc k.tcbs.thread (around n k.tcbs.next thr) p)
      ∙ ap (map k.tcbs.thread) (sym ring) in
    elim (Bool-cases polled.ready) [
      | inl ready ↦
          rw (ready, look, rotated, schedule, ready) (ap (λ r. some (state r polled.cells)) after)
      | inr waits ↦
          rw (waits, look, rotated, schedule, waits)
            (look-schedule rounds n (λ i. clock (suc i)) k' loop'
              ∙ ap (λ r. schedule rounds (λ i. clock (suc i)) r polled.cells) after)
    ]
