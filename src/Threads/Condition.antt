-- ===== src/Threads/Condition.antt =====
-- c11_cond.c. A condition variable is the list of its waiters, last come first: the addresses of
-- the counts of their mutexes, 0 for NULL, in the cells of the scheduler.
pub mod Laws
use cmsis_rtos.Base.{ℕ, List, [], ◌∷◌, ◌==◌, if◌then◌else◌}
use cmsis_rtos.Semaphore.{leave}
use cmsis_rtos.Scheduler.{Cells, Event, event, update, has, semaphore}

pub record Condition : Type 0 where
  pub waiters : List ℕ
  pub cells : Cells

abbrev pub condition : List ℕ → Cells → Condition
condition w m = record { waiters = w; cells = m }

unfoldable pub cnd_init : Cells → Condition
cnd_init m = condition [] m

-- `if (node->mutex) semaphore_leave(&node->mutex->count)`
unfoldable pub wake : ℕ → Cells → Cells
wake p m = if p == 0 then m else update m p (leave (m p)).cell

unfoldable pub cnd_signal : List ℕ → Cells → Condition
cnd_signal [] m = condition [] m
cnd_signal (p ∷ ps) m = condition ps (wake p m)

-- The loop of `cnd_broadcast`, which `cnd_destroy` has too.
unfoldable pub cnd_broadcast : List ℕ → Cells → Condition
cnd_broadcast [] m = condition [] m
cnd_broadcast (p ∷ ps) m = cnd_broadcast ps (wake p m)

unfoldable pub cnd_destroy : List ℕ → Cells → Condition
cnd_destroy [] m = condition [] m
cnd_destroy (p ∷ ps) m = cnd_destroy ps (wake p m)

pub data Status : Type 0 where
  success timed_out : Status

-- `cnd_timedwait` up to its system call: the count of the mutex is set to 0 and the thread queued.
unfoldable pub cnd_enqueue : ℕ → Condition → Condition
cnd_enqueue p c = condition (p ∷ c.waiters) (update c.cells p 0)

-- The whole call, and `cnd_wait` when the wait has no end. `svc` is the call SVC_CLOCK_WAIT: from
-- the event asked for to the status of the event and the state when the thread runs again.
unfoldable pub cnd_timedwait :
    (Event → Condition → ℕ × Condition) → ℕ → Condition → Status × Condition
unfolding cnd_enqueue
cnd_timedwait svc p c =
    let (status, c') = svc (event semaphore p) (cnd_enqueue p c) in
    (if has status semaphore then success else timed_out, c')
