-- ===== src/Threads/Mutex/Nested.antt =====
-- Nested locks of one thread: each but the first takes two from the count, and an unlock gives one
-- back.
use cmsis_rtos.Base.Word.{u32, add32}
use cmsis_rtos.Base.{
  ◌≢◌, ◌⊎◌, inl, inr, ◌≤◌, ap, ◌∙◌, ℕ, zero, suc, ◌≡◌, refl, ◌+◌, ◌*◌, ◌-◌, ◌<◌, ◌^◌, arith,
}
use cmsis_rtos.Semaphore.{enter, leave, fetch_add_loop}
use cmsis_rtos.Threads.Mutex.{Mutex, mutex, success, busy, mtx_trylock, mtx_unlock, mtx_init}

unfoldable pub lock_times : ℕ → ℕ → Mutex → Mutex
lock_times zero me m = m
lock_times (suc k) me m = (mtx_trylock me (lock_times k me m)).1

unfoldable pub unlock_times : ℕ → Mutex → Mutex
unlock_times zero m = m
unlock_times (suc k) m = (mtx_unlock (unlock_times k m)).1

-- The steps that `lock_times` is made of.
first_locks :
    (me : ℕ)
    → (mtx_trylock me (mutex 1 0) ≡ (success, mutex 0 me))
      × (mtx_trylock me (mutex 0 me) ≡ (success, mutex (2 ^ 32 - 1) me))
unfolding mtx_trylock enter
first_locks me = (ground arith, ground arith)

nested_lock :
    (c me : ℕ) → 2 ^ 31 ≤ c → c < 2 ^ 32 → mtx_trylock me (mutex c me) ≡ (success, mutex (c - 2) me)
unfolding mtx_trylock enter
nested_lock c me h l = ground arith

lock_times-suc :
    (k me : ℕ) (m : Mutex) → lock_times (suc k) me m ≡ (mtx_trylock me (lock_times k me m)).1
unfolding lock_times
lock_times-suc k me m = refl

lock_twice : (me : ℕ) → lock_times 2 me mtx_init ≡ mutex (2 ^ 32 - 1) me
unfolding lock_times mtx_init
lock_twice me =
    ap (λ r. (mtx_trylock me r.1).1) (first_locks me).0 ∙ ap (λ r. r.1) (first_locks me).1

lock_times-eq :
    (k me n : ℕ)
    → 2 ^ 31 + 2 * k + n + 2 ≡ 2 ^ 32
    → lock_times (suc (suc k)) me mtx_init ≡ mutex (2 ^ 31 + n + 1) me
lock_times-eq zero me n h = lock_twice me ∙ ap (λ c. mutex c me) (omega arith)
lock_times-eq (suc k) me n h =
    rw
      (
        lock_times-suc (suc (suc k)) me mtx_init,
        lock_times-eq k me (n + 2) (omega arith),
        nested_lock (2 ^ 31 + (n + 2) + 1) me (omega arith) (omega arith),
      )
      (ap (λ c. mutex c me) (omega arith))

unlock_times-eq : (k c me : ℕ) → c < 2 ^ 32 → unlock_times k (mutex c me) ≡ mutex (u32 (c + k)) me
unfolding unlock_times mtx_unlock leave fetch_add_loop
unlock_times-eq zero c me h = ap (λ n. mutex n me) (omega arith)
unlock_times-eq (suc k) c me h =
    ap (λ m. mutex (add32 m.count 1) m.owner) (unlock_times-eq k c me h)
    ∙ ap (λ n. mutex n me) (omega arith)

-- One nested lock works: two locks and two unlocks of a thread leave the mutex free.
pub nested_twice : (me : ℕ) → unlock_times 2 (lock_times 2 me mtx_init) ≡ mutex 1 me
nested_twice me = rw (lock_twice me) (unlock_times-eq 2 (2 ^ 32 - 1) me (omega arith))

busy_for_others :
    (c me other : ℕ)
    → (c ≡ 0) ⊎ (2 ^ 31 < c)
    → c < 2 ^ 32
    → other ≢ me
    → (mtx_trylock other (mutex c me)).0 ≡ busy
unfolding mtx_trylock enter
busy_for_others c me other h l ne = ground arith

count_left :
    (j : ℕ)
    → j < 2 ^ 29
    → let c = u32 (2 ^ 31 + (2 ^ 31 - 2 * suc j - 2) + 1 + suc (suc (suc j))) in
      (c ≡ 0) ⊎ (2 ^ 31 < c)
count_left zero h = inl (omega arith)
count_left (suc j) h = inr (omega arith)

-- Deeper nesting leaks the mutex: after three or more locks of one thread and as many unlocks it
-- still refuses every other thread.
pub nested_leaks :
    (j me other : ℕ)
    → j < 2 ^ 29
    → other ≢ me
    → let depth = suc (suc (suc j)) in
      (mtx_trylock other (unlock_times depth (lock_times depth me mtx_init))).0 ≡ busy
nested_leaks j me other h ne =
    let n = 2 ^ 31 - 2 * suc j - 2 in
    rw
      (
        lock_times-eq (suc j) me n (omega arith),
        unlock_times-eq (suc (suc (suc j))) (2 ^ 31 + n + 1) me (omega arith),
      )
      (busy_for_others (u32 (2 ^ 31 + n + 1 + suc (suc (suc j)))) me other (count_left j h)
        (omega arith) ne)
