-- ===== src/Scheduler.antt =====
-- thread.c, sys/thread.h: the event of a thread, the system calls that wait for one, and the loop
-- of `osThreadScheduler` that looks for a thread to run.
-- The circular list of threads starts with `current_thread`. A `volatile int*` is an address of
-- `Cells`, the memory of the semaphores.
pub mod Poll
pub mod Rounds
pub mod Signals
use cmsis_rtos.Base.{
  ℕ, zero, suc, ◌+◌, ◌-◌, ◌^◌, Bool, true, false, not, ◌&&◌, List, [], ◌∷◌, ◌++◌, Option, none,
  some, ◌==◌, leb, if◌then◌else◌, bit_and, bit_or,
}
use cmsis_rtos.Base.Word.{sub32}
use cmsis_rtos.Semaphore.{enter, is_positive}

abbrev pub running : ℕ
running = 1

abbrev pub signal : ℕ
signal = 0x04

abbrev pub semaphore : ℕ
semaphore = 0x20

abbrev pub timeout : ℕ
timeout = 0x40

abbrev pub wait_forever : ℕ
wait_forever = 2 ^ 32 - 1

-- `struct _Event`. The union `value` is one word: a number, the address of a cell or a mask of signals.
pub record Event : Type 0 where
  pub status : ℕ
  pub value : ℕ

abbrev pub event : ℕ → ℕ → Event
event s v = record { status = s; value = v }

-- The fields of `struct _thread` that the scheduler reads: the signals, the event and the wait.
pub record Thread : Type 0 where
  pub id : ℕ
  pub signals : ℕ
  pub event : Event
  pub wait_timestamp : ℕ
  pub wait_timeout : ℕ

abbrev pub Cells : Type 0
Cells = ℕ → ℕ

abbrev pub update : Cells → ℕ → ℕ → Cells
update m p v q = if q == p then v else m q

-- `status & flag` as a truth value.
abbrev pub has : ℕ → ℕ → Bool
has status flag = not (bit_and status flag == 0)

-- What one round of the loop makes of a thread: whether it can run, the thread and the memory.
pub record Polled : Type 0 where
  pub ready : Bool
  pub thread : Thread
  pub cells : Cells

abbrev pub polled : Bool → Thread → Cells → Polled
polled r t m = record { ready = r; thread = t; cells = m }

-- The wait for a timeout, also by a thread that waits for something else.
unfoldable pub poll_timeout : ℕ → Thread → Cells → Polled
poll_timeout now t m =
    if has t.event.status timeout && leb t.wait_timeout (sub32 now t.wait_timestamp)
    then polled true (record t { event = record (t.event) { status = bit_or timeout running } }) m
    else polled false t m

unfoldable pub poll_signal : ℕ → Thread → Cells → Polled
poll_signal now t m =
    let signals = bit_and t.signals t.event.value in
    if signals == 0
    then poll_timeout now t m
    else polled true (record t { event = event (bit_or signal running) signals }) m

-- `semaphore_enter` also takes one from a negative count, and the thread waits on.
unfoldable pub poll_semaphore : ℕ → Thread → Cells → Polled
poll_semaphore now t m =
    let r = enter (m t.event.value) in
    let m' = update m t.event.value r.cell in
    if is_positive r.count
    then polled true (record t { event = event (bit_or semaphore running) r.count }) m'
    else poll_timeout now t m'

-- One round of the loop at the thread it has come to.
unfoldable pub poll : ℕ → Thread → Cells → Polled
poll now t m =
    if has t.event.status running
    then polled true t m
    else if has t.event.status signal
    then poll_signal now t m
    else if has t.event.status semaphore
    then poll_semaphore now t m
    else poll_timeout now t m

-- The scheduler's state: the ring of threads from `current_thread` on, and the semaphores.
pub record State : Type 0 where
  pub ring : List Thread
  pub cells : Cells

abbrev pub state : List Thread → Cells → State
state r m = record { ring = r; cells = m }

-- `current_thread = current_thread->next` on the ring.
abbrev pub rotate : List Thread → List Thread
rotate [] = []
rotate (t ∷ ts) = ts ++ (t ∷ [])

-- The loop `do … while (1)` within a number of rounds, `clock` giving the time at each round.
-- `none` is a loop that has not ended; the ring is never empty, since "main" stays in it.
unfoldable pub schedule : ℕ → (ℕ → ℕ) → List Thread → Cells → Option State
schedule zero clock ring m = none
schedule (suc rounds) clock ring m = elim (rotate ring) [
  | [] ↦ none
  | t ∷ ts ↦
      let p = poll (clock 0) t m in
      elim p.ready [
        | true ↦ some (state (p.thread ∷ ts) p.cells)
        | false ↦ schedule rounds (λ i. clock (suc i)) (p.thread ∷ ts) p.cells
      ]
]

-- `svc_handler_event_wait`: the calling thread waits for an event, with a timeout or without.
unfoldable pub event_wait : ℕ → ℕ → ℕ → ℕ → Thread → Thread
event_wait now status arg interval t =
    if interval == wait_forever then record t { event = event status arg } else record t {
      event = event (bit_or status timeout) arg;
      wait_timestamp = now;
      wait_timeout = interval;
    }

-- The branch of `svc_handler_usleep` from 1000 microseconds on.
unfoldable pub usleep_wait : ℕ → ℕ → Thread → Thread
usleep_wait now interval t = record t {
  event = record (t.event) { status = timeout };
  wait_timestamp = now;
  wait_timeout = interval;
}

-- The shorter branch, a busy loop: whether its test lets it go on at time `now`.
unfoldable pub usleep_spins : ℕ → ℕ → ℕ → Bool
usleep_spins timestamp now interval = leb interval (sub32 now timestamp)
