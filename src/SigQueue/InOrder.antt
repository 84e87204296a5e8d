-- ===== src/SigQueue/InOrder.antt =====
-- The queue of signals against a first-in first-out list.
use cmsis_rtos.Base.{
  ℕ, ◌+◌, ◌%◌, ◌<◌, ◌≡◌, refl, ap, inl, inr, true, false, Bool-cases, List, [], ◌∷◌, ◌++◌, length,
  length-append, ◌==◌, if◌then◌else◌, ==→eq, arith, subst,
}
use cmsis_rtos.Base.Word.{add32}
use cmsis_rtos.Semaphore.{init, enter, leave, fetch_add_loop}
use cmsis_rtos.SigQueue.{SigInfo, SigQueue, eagain, sigqueue, signal_queue_init, signal_queue_get}

-- From the place `at` on, round the 32 places, stand these signals.
abbrev pub Stored : (ℕ → SigInfo) → ℕ → List SigInfo → Type 0
Stored info at [] = Unit
Stored info at (x ∷ xs) = (info at ≡ x) × Stored info ((at + 1) % 32) xs

pub record IsSigQueue (q : SigQueue) (xs : List SigInfo) : Type 0 where
  pub places : q.wrlock + length xs ≡ 32
  pub next : q.wrpos % 32 ≡ (q.rdpos + length xs) % 32
  pub stored : Stored q.info (q.rdpos % 32) xs

-- A signal is written behind those that are there.
Stored-snoc :
    (info : ℕ → SigInfo) (at w : ℕ) (x : SigInfo) (xs : List SigInfo)
    → at < 32
    → length xs < 32
    → w ≡ (at + length xs) % 32
    → Stored info at xs
    → Stored (λ i. if i == w then x else info i) at (xs ++ (x ∷ []))
Stored-snoc info at w x [] h l e stored = (ground (arith, e, h), tt)
Stored-snoc info at w x (y ∷ xs) h l e stored =
    let other : (at == w) ≡ false = ground (arith, e, h, l) in
    (
      rw other stored.0,
      Stored-snoc info ((at + 1) % 32) w x xs (omega arith) (omega (arith, l))
          (omega (arith, e, h, l)) stored.1,
    )

sigqueue-room :
    (signo value : ℕ) (q : SigQueue) (xs : List SigInfo)
    → IsSigQueue q xs
    → length xs < 32
    → let x : SigInfo = record { si_signo = signo; si_value = value } in
      ((sigqueue signo value q).0 ≡ 0) × IsSigQueue (sigqueue signo value q).1 (xs ++ (x ∷ []))
unfolding sigqueue enter
sigqueue-room signo value q xs h l =
    let free : (q.wrlock == 0) ≡ false = ground (arith, h.places, l) in
    let x : SigInfo = record { si_signo = signo; si_value = value } in
    let longer = length-append xs (x ∷ []) in
    rw (free, free)
      (
        refl,
        record {
          places = omega (arith, h.places, longer, l);
          next = omega (arith, h.next, longer);
          stored =
              Stored-snoc q.info (q.rdpos % 32) (q.wrpos % 32) x xs (omega arith) l
                (omega (arith, h.next)) h.stored;
        },
      )

sigqueue-full :
    (signo value : ℕ) (q : SigQueue) (xs : List SigInfo)
    → IsSigQueue q xs
    → length xs ≡ 32
    → sigqueue signo value q ≡ (eagain, q)
unfolding sigqueue enter
sigqueue-full signo value q xs h l =
    let none_left : (q.wrlock == 0) ≡ true = ground (arith, h.places, l) in rw none_left refl

get-first :
    (q : SigQueue) (x : SigInfo) (xs : List SigInfo)
    → IsSigQueue q (x ∷ xs)
    → let (result, (info, q')) = signal_queue_get q in (info ≡ x) × IsSigQueue q' xs
unfolding signal_queue_get leave fetch_add_loop
get-first q x xs h =
    let on : (q.rdpos % 32 + 1) % 32 ≡ add32 q.rdpos 1 % 32 = omega arith in
    (
      h.stored.0,
      record {
        places = omega (arith, h.places);
        next = omega (arith, h.next);
        stored = subst (λ at. Stored q.info at xs) on h.stored.1;
      },
    )

signal_queue_init-IsSigQueue : (q : SigQueue) → IsSigQueue (signal_queue_init q) []
unfolding signal_queue_init init
signal_queue_init-IsSigQueue q = record { places = refl; next = refl; stored = tt }

-- A call, and what a sequence of calls gives: the status of each `sigqueue`, and the signal of each
-- `signal_queue_get`.
pub data Call : Type 0 where
  send : SigInfo → Call
  get : Call

pub data Answer : Type 0 where
  status : ℕ → Answer
  signal : SigInfo → Answer

unfoldable pub run : List Call → SigQueue → List Answer
run [] q = []
run (send x ∷ calls) q =
    let (result, q') = sigqueue x.si_signo x.si_value q in status result ∷ run calls q'
run (get ∷ calls) q = let (result, (info, q')) = signal_queue_get q in signal info ∷ run calls q'

-- The same on a list of at most 32 signals.
unfoldable pub run_list : List Call → List SigInfo → List Answer
run_list [] xs = []
run_list (send x ∷ calls) xs =
    let full = run_list calls xs in
    let sent = run_list calls (xs ++ (x ∷ [])) in
    if length xs == 32 then status eagain ∷ full else status 0 ∷ sent
run_list (get ∷ calls) [] = run_list calls []
run_list (get ∷ calls) (x ∷ xs) = signal x ∷ run_list calls xs

-- No signal is got from an empty queue.
abbrev pub Filled : List Call → List SigInfo → Type 0
Filled [] xs = Unit
Filled (send x ∷ calls) xs = Filled calls (if length xs == 32 then xs else xs ++ (x ∷ []))
Filled (get ∷ calls) [] = ⊥
Filled (get ∷ calls) (x ∷ xs) = Filled calls xs

run-IsSigQueue :
    (calls : List Call) (q : SigQueue) (xs : List SigInfo)
    → IsSigQueue q xs
    → Filled calls xs
    → run calls q ≡ run_list calls xs
unfolding run run_list
run-IsSigQueue [] q xs h f = refl
run-IsSigQueue (send x ∷ calls) q xs h f = elim (Bool-cases (length xs == 32)) [
  | inl full ↦
      let e = sigqueue-full x.si_signo x.si_value q xs h (==→eq _ _ full) in
      rw (full, e) (ap (λ rest. status eagain ∷ rest) (run-IsSigQueue calls q xs h (rw full at f)))
  | inr room ↦
      let (e, h') = sigqueue-room x.si_signo x.si_value q xs h (ground (arith, room, h.places)) in
      rw (room, e)
        (ap (λ rest. status 0 ∷ rest)
          (run-IsSigQueue calls (sigqueue x.si_signo x.si_value q).1 (xs ++ (x ∷ [])) h'
            (rw room at f)))
]
run-IsSigQueue (get ∷ calls) q [] h f = absurd f
run-IsSigQueue (get ∷ calls) q (x ∷ xs) h f =
    let (e, h') = get-first q x xs h in
    rw e (ap (λ rest. signal x ∷ rest) (run-IsSigQueue calls (signal_queue_get q).1.1 xs h' f))

-- After `signal_queue_init` on any memory, every sequence of `sigqueue` and `signal_queue_get` in which no
-- signal is got from an empty queue answers as a first-in first-out list of at most 32 signals: a
-- signal for which there is no place is refused with EAGAIN, any other one is taken with 0, and the
-- signals are got in the order in which they were taken.
pub run-signals_in_order :
    (calls : List Call) (q : SigQueue)
    → Filled calls []
    → run calls (signal_queue_init q) ≡ run_list calls []
run-signals_in_order calls q f =
    run-IsSigQueue calls (signal_queue_init q) [] (signal_queue_init-IsSigQueue q) f

-- From a queue without a signal `signal_queue_get` gives what stands at the next place, and after it 33
-- places count as free.
pub get_nothing :
    (q : SigQueue)
    → IsSigQueue q []
    → let (result, (info, q')) = signal_queue_get q in
      (result ≡ 1) × (info ≡ q.info (q.rdpos % 32)) × (q'.wrlock ≡ 33)
unfolding signal_queue_get leave fetch_add_loop
get_nothing q h = (refl, refl, omega (arith, h.places))
