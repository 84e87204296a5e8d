-- ===== src/Ring/Life.antt =====
-- Creation and end of threads against the list of the ring.
use cmsis_rtos.Base.{
  ℕ, ◌≤◌, ◌≡◌, ◌≢◌, refl, ◌∙◌, inl, inr, true, false, Bool-cases, none, some, List, [], ◌∷◌, ◌==◌,
  ◌||◌, if◌then◌else◌, ◌+◌, ◌*◌, ◌^◌, ◌<◌, contains, Distinct, length, arith, bit_and, ne→==,
}
use cmsis_rtos.Ring.{Threads, thrd_create, Killed, service, unlink_thread, kill}
use cmsis_rtos.Ring.Stacks.{stack_free_bit}
use cmsis_rtos.Base.Bits.{test_bit}
use cmsis_rtos.Ring.Chain.{
  IsRing, insert_behind, without, insert-IsChain, remove-IsChain, predecessor_missing,
}

contains-insert :
    (current thr p x : ℕ) (ts : List ℕ)
    → contains current (p ∷ ts) ≡ true
    → contains x (insert_behind current thr p ts) ≡ ((thr == x) || contains x ts)
unfolding insert_behind
contains-insert current thr p x [] inside = refl
contains-insert current thr p x (t ∷ ts) inside = elim (Bool-cases (p == current)) [
  | inl here ↦ rw here refl
  | inr later ↦
      rw later (ground (arith, contains-insert current thr t x ts (ground (arith, inside))))
]

insert-Distinct :
    (current thr p : ℕ) (ts : List ℕ)
    → Distinct (p ∷ ts)
    → contains current (p ∷ ts) ≡ true
    → contains thr (p ∷ ts) ≡ false
    → Distinct (p ∷ insert_behind current thr p ts)
unfolding insert_behind
insert-Distinct current thr p [] d inside out =
    (ground (arith, contains-insert current thr p p [] inside, out), (refl, tt))
insert-Distinct current thr p (t ∷ ts) d inside out = (
  contains-insert current thr p p (t ∷ ts) inside ∙ ground (arith, out, d.0),
  elim (Bool-cases (p == current)) [
    | inl here ↦ rw here (ground (arith, out), d.1)
    | inr later ↦
        rw later
          (insert-Distinct current thr t ts d.1 (ground (arith, inside)) (ground (arith, out)))
  ],
)

contains-without :
    (thr x : ℕ) (ts : List ℕ) → contains x ts ≡ false → contains x (without thr ts) ≡ false
unfolding without
contains-without thr x [] h = refl
contains-without thr x (t ∷ ts) h = ground (arith, contains-without thr x ts)

without-Distinct : (thr : ℕ) (ts : List ℕ) → Distinct ts → Distinct (without thr ts)
unfolding without
without-Distinct thr [] d = tt
without-Distinct thr (t ∷ ts) d = elim (Bool-cases (t == thr)) [
  | inl here ↦ rw here d.1
  | inr later ↦ rw later (contains-without thr t ts d.0, without-Distinct thr ts d.1)
]

-- In a ring of distinct threads, a thread that is not in it and that `thrd_create` makes stands behind
-- the running one, and the ring of distinct threads goes on with the others in their order.
pub thrd_create-IsRing :
    (main current thr : ℕ) (ts : List ℕ) (s : Threads)
    → IsRing s.next main ts
    → contains current (main ∷ ts) ≡ true
    → contains thr (main ∷ ts) ≡ false
    → IsRing (thrd_create current thr s).next main (insert_behind current thr main ts)
      × ((thrd_create current thr s).next current ≡ thr)
unfolding thrd_create
thrd_create-IsRing main current thr ts s ring inside out = (
  (
    insert-IsChain s.next main ts main current thr ring.1 inside out ring.0,
    insert-Distinct current thr main ts ring.1 inside out,
  ),
  ground arith,
)

-- A thread of the ring other than "main", not NULL and no service, whose stack pointer is less than a
-- KiB below the upper end of stack `idx` of the 32, is killed within as many rounds as there are other
-- threads: it is complete, the bit of its stack and no other is cleared in the map, the others stay in
-- the ring in their order, and a switch is asked for exactly when it is the running one.
pub kill-IsRing :
    (rounds base main current thr idx used : ℕ) (ts : List ℕ) (s : Threads)
    → IsRing s.next main ts
    → contains thr ts ≡ true
    → thr ≢ 0
    → bit_and (s.status thr) service ≡ 0
    → length ts ≤ rounds
    → idx < 32
    → used < 2 ^ 10
    → s.sp thr + used + idx * 2 ^ 10 ≡ base
    → (k : Killed) × (kill rounds base main current thr s ≡ some k)
      × IsRing k.threads.next main (without thr ts)
      × (k.threads.status thr ≡ 0)
      × ((i : ℕ)
          → i < 32
          → test_bit k.threads.map i ≡ (if idx == i then false else test_bit s.map i))
      × (k.yields ≡ (thr == current))
unfolding kill unlink_thread
kill-IsRing rounds base main current thr idx used ts s ring inside ne plain h below u place =
    let (q, found, known, chain) =
      remove-IsChain rounds s.next main ts main thr ring.1 inside ring.0 h in
    let real : (thr == 0) ≡ false = ne→== thr 0 ne in
    let other : (bit_and (s.status thr) service == 0) ≡ true = ground arith in
    (
      unlink_thread base current q thr s,
      rw (real, other, found, kill) refl,
      (chain, (contains-without thr main ts ring.1.0, without-Distinct thr ts ring.1.1)),
      ground arith,
      λ i l. stack_free_bit base s.map (s.sp thr) idx used i below u l place,
      refl,
    )

-- To kill a thread that is neither NULL nor a service nor in the ring never ends: the loop goes round
-- for any number of rounds.
pub kill_missing :
    (rounds base main current thr : ℕ) (ts : List ℕ) (s : Threads)
    → IsRing s.next main ts
    → contains thr (main ∷ ts) ≡ false
    → thr ≢ 0
    → bit_and (s.status thr) service ≡ 0
    → kill rounds base main current thr s ≡ none
unfolding kill
kill_missing rounds base main current thr ts s ring out ne plain =
    let real : (thr == 0) ≡ false = ne→== thr 0 ne in
    let other : (bit_and (s.status thr) service == 0) ≡ true = ground arith in
    let lost = predecessor_missing rounds s.next main main ts thr ring.0 out (ground arith) in
    rw (real, other, lost, kill) refl
