-- ===== src/Rtos/Exclusion.antt =====
-- Any number of tasks that share one semaphore by the calls of mutex.c and semaphore.c: the
-- interleavings of their steps, a step being one atomic access of the cell or the end of a wait by its
-- timeout.
use cmsis_rtos.Base.{
  ℕ, zero, suc, ◌+◌, ◌-◌, ◌≤◌, ◌<◌, ◌^◌, ◌≡◌, ◌≢◌, refl, ap, subst, some, List, [], ◌∷◌, arith,
  get_elem?, set, replicate, true, false,
}
use cmsis_rtos.Semaphore.{enter, leave, fetch_add_loop, is_positive}

-- Where a task stands: outside, in the wait of the kernel, or past a call that told it success, from
-- where it goes on as a holder.
pub data Phase : Type 0 where
  outside waiting inside : Phase

pub record System : Type 0 where
  pub cell : ℕ
  pub tasks : List Phase
  -- How many waits have run into their timeout.
  pub expired : ℕ

abbrev pub system : ℕ → List Phase → ℕ → System
system c ts e = record { cell = c; tasks = ts; expired = e }

-- `call` is `semaphore_enter` by the task itself, `wake` the one by the scheduler on its behalf,
-- which goes by an `int` above zero. `expire` ends a wait by its timeout: `osMutexWait` and
-- `osSemaphoreWait` then tell the task success, as `wait_timed_out` of Rtos/Slow shows, and it goes on
-- as a holder without a token. `release` is `semaphore_leave`, made by a holder.
pub data Step (s : System) : System → Type 0 where
  call_enters :
      (i : ℕ)
      → get_elem? s.tasks i ≡ some outside
      → (enter s.cell).count ≢ 0
      → Step s (system (enter s.cell).cell (set s.tasks i inside) s.expired)
  call_waits :
      (i : ℕ)
      → get_elem? s.tasks i ≡ some outside
      → (enter s.cell).count ≡ 0
      → Step s (system (enter s.cell).cell (set s.tasks i waiting) s.expired)
  wake :
      (i : ℕ)
      → get_elem? s.tasks i ≡ some waiting
      → is_positive (enter s.cell).count ≡ true
      → Step s (system (enter s.cell).cell (set s.tasks i inside) s.expired)
  wake_fails :
      (i : ℕ)
      → get_elem? s.tasks i ≡ some waiting
      → is_positive (enter s.cell).count ≡ false
      → Step s (system (enter s.cell).cell s.tasks s.expired)
  expire :
      (i : ℕ)
      → get_elem? s.tasks i ≡ some waiting
      → Step s (system s.cell (set s.tasks i inside) (suc s.expired))
  release :
      (i : ℕ)
      → get_elem? s.tasks i ≡ some inside
      → Step s (system (leave s.cell).cell (set s.tasks i outside) s.expired)

pub data Reach (s : System) : System → Type 0 where
  start : Reach s s
  next : {t u : System} → Reach s t → Step t u → Reach s u

abbrev weight : Phase → ℕ
weight inside = 1
weight outside = 0
weight waiting = 0

-- How many tasks go on as holders.
abbrev pub holders : List Phase → ℕ
holders [] = 0
holders (t ∷ ts) = weight t + holders ts

holders-set :
    (ts : List Phase) (i : ℕ) (a b : Phase)
    → get_elem? ts i ≡ some a
    → holders (set ts i b) + weight a ≡ holders ts + weight b
holders-set [] i a b e = absurd (cc e)
holders-set (t ∷ ts) zero a b e = let same : weight t ≡ weight a = cc e in omega arith
holders-set (t ∷ ts) (suc i) a b e = omega (arith, holders-set ts i a b e)

-- The holders and the tokens in the cell make up the initial count and the waits that have expired.
abbrev Balanced : ℕ → System → Type 0
Balanced n s = s.cell + holders s.tasks ≡ n + s.expired

Step-expired : {s s' : System} → Step s s' → s.expired ≤ s'.expired
Step-expired (call_enters i at ne) = omega arith
Step-expired (call_waits i at z) = omega arith
Step-expired (wake i at z) = omega arith
Step-expired (wake_fails i at z) = omega arith
Step-expired (expire i at) = omega arith
Step-expired (release i at) = omega arith

Step-Balanced :
    {s s' : System} (n : ℕ) → n + s'.expired < 2 ^ 31 → Step s s' → Balanced n s → Balanced n s'
unfolding enter leave fetch_add_loop
Step-Balanced {s} n small (call_enters i at ne) b =
    ground (arith, holders-set s.tasks i outside inside at)
Step-Balanced {s} n small (call_waits i at z) b =
    ground (arith, holders-set s.tasks i outside waiting at)
Step-Balanced {s} n small (wake i at z) b = ground (arith, holders-set s.tasks i waiting inside at)
Step-Balanced {s} n small (wake_fails i at z) b = ground arith
Step-Balanced {s} n small (expire i at) b = ground (arith, holders-set s.tasks i waiting inside at)
Step-Balanced {s} n small (release i at) b = ground (arith, holders-set s.tasks i inside outside at)

Reach-Balanced :
    {s s' : System} (n : ℕ) → n + s'.expired < 2 ^ 31 → Reach s s' → Balanced n s → Balanced n s'
Reach-Balanced n small start b = b
Reach-Balanced n small (next r st) b =
    Step-Balanced n small st (Reach-Balanced n (omega (arith, Step-expired st)) r b)

holders-replicate : (k : ℕ) → holders (replicate k outside) ≡ 0
holders-replicate zero = refl
holders-replicate (suc k) = omega (arith, holders-replicate k)

-- However the tasks interleave, for a semaphore created with `n` tokens the holders and the count of
-- the cell make up `n` and the number of waits that have expired, as long as this is below 2 ^ 31.
holders-add-cell :
    (n k : ℕ) {s : System}
    → n + s.expired < 2 ^ 31
    → Reach (system n (replicate k outside) 0) s
    → s.cell + holders s.tasks ≡ n + s.expired
holders-add-cell n k small r = Reach-Balanced n small r (omega (arith, holders-replicate k))

holders_pos : (ts : List Phase) (i : ℕ) → get_elem? ts i ≡ some inside → 1 ≤ holders ts
holders_pos [] i e = absurd (cc e)
holders_pos (t ∷ ts) zero e = let same : weight t ≡ weight inside = cc e in omega arith
holders_pos (t ∷ ts) (suc i) e = omega (arith, holders_pos ts i e)

holders_one :
    (ts : List Phase) (i j : ℕ)
    → holders ts ≤ 1
    → get_elem? ts i ≡ some inside
    → get_elem? ts j ≡ some inside
    → i ≡ j
holders_one [] i j h e f = absurd (cc e)
holders_one (t ∷ ts) zero zero h e f = refl
holders_one (t ∷ ts) zero (suc j) h e f =
    let same : weight t ≡ weight inside = cc e in absurd (omega (arith, holders_pos ts j f))
holders_one (t ∷ ts) (suc i) zero h e f =
    let same : weight t ≡ weight inside = cc f in absurd (omega (arith, holders_pos ts i e))
holders_one (t ∷ ts) (suc i) (suc j) h e f = ap suc (holders_one ts i j (omega arith) e f)

-- However any number of tasks interleave, a mutex, a semaphore created with one token, is held by one
-- task at a time as long as no wait for it has run into its timeout.
pub mutual_exclusion :
    (k i j : ℕ) {s : System}
    → Reach (system 1 (replicate k outside) 0) s
    → s.expired ≡ 0
    → get_elem? s.tasks i ≡ some inside
    → get_elem? s.tasks j ≡ some inside
    → i ≡ j
mutual_exclusion k i j {s} r never e f =
    holders_one s.tasks i j (omega (arith, never, holders-add-cell 1 k (omega (arith, never)) r)) e
      f

-- After one timeout two tasks hold the mutex: the one that has the token and the one that waited.
expire_two_holders : Reach (system 1 (replicate 2 outside) 0) (system 0 (inside ∷ inside ∷ []) 1)
unfolding enter
expire_two_holders =
    Reach.next
      (Reach.next (Reach.next Reach.start (Step.call_enters 0 refl (omega arith)))
        (Step.call_waits 1 refl refl))
      (Step.expire 1 refl)

-- No wakeup is lost: in every reachable state where fewer than `n` tasks are holders, the next
-- look of the scheduler at any waiting task lets it in.
pub waiting_gets_in :
    (n k i : ℕ) {s : System}
    → n + s.expired < 2 ^ 31
    → Reach (system n (replicate k outside) 0) s
    → holders s.tasks < n
    → get_elem? s.tasks i ≡ some waiting
    → Step s (system (s.cell - 1) (set s.tasks i inside) s.expired)
unfolding enter
waiting_gets_in n k i {s} small r free at =
    let sum : s.cell + holders s.tasks ≡ n + s.expired = holders-add-cell n k small r in
    let less : (enter s.cell).cell ≡ s.cell - 1 = ground arith in
    let some_left : is_positive (enter s.cell).count ≡ true = ground arith in
    subst (λ c. Step s (system c (set s.tasks i inside) s.expired)) less (wake i at some_left)
