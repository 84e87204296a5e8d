-- ===== src/Scheduler/Signals.antt =====
-- The queue of signals of thread.c: a ring of entries with a bit for each one that is ready.
use cmsis_rtos.Base.{
  ℕ, ◌+◌, ◌-◌, ◌*◌, ◌/◌, ◌%◌, ◌^◌, ◌<◌, ◌≡◌, ◌≢◌, refl, bit_and, bit_or, true, false, Option, none,
  some, ◌==◌, if◌then◌else◌, arith,
}
use cmsis_rtos.Base.Word.{u16, add32}
use cmsis_rtos.Base.Bits.{test_bit, bit_not, test_bit-bit_or, test_bit-pow}
use cmsis_rtos.Semaphore.{enter, leave}

-- `sig_data_t`
pub record SigData : Type 0 where
  pub signo : ℕ
  pub thread_id : ℕ
  pub activation_time : ℕ

-- `event_queue_t`. `wr_pos` and `rd_pos` are the two halves of one word, and the atomic addition to
-- `wr_pos` is one on the whole word `pos`.
pub record EventQueue : Type 0 where
  pub count : ℕ
  pub pos : ℕ
  pub ready : ℕ
  pub buf : ℕ → SigData

-- `sig_queue_put` at the time `now`.
unfoldable pub sig_queue_put : ℕ → ℕ → ℕ → EventQueue → ℕ × EventQueue
sig_queue_put now thread_id signo q =
    let r = enter q.count in
    let n = q.pos % 32 in
    let sig : SigData = record { signo = signo; thread_id = thread_id; activation_time = now } in
    if r.count == 0 then (2 ^ 32 - 1, record q { count = r.cell }) else (
      n,
      record {
        count = r.cell;
        pos = add32 q.pos 1;
        ready = bit_or q.ready (2 ^ n);
        buf = λ i. if i == n then sig else q.buf i;
      },
    )

-- `sig_queue_try`, `none` for NULL.
unfoldable pub sig_queue_try : EventQueue → Option SigData × EventQueue
sig_queue_try q =
    let n = q.pos / 2 ^ 16 % 32 in
    (
      if test_bit q.ready n then some (q.buf n) else none,
      record q { ready = bit_and q.ready (bit_not 32 (2 ^ n)) },
    )

-- `sig_queue_next`
unfoldable pub sig_queue_next : EventQueue → ℕ × EventQueue
sig_queue_next q =
    let r = leave q.count in
    (r.count, record q { count = r.cell; pos = q.pos % 2 ^ 16 + 2 ^ 16 * u16 (q.pos / 2 ^ 16 + 1) })

-- The queue as it is initialized.
abbrev pub signal_queue : (ℕ → SigData) → EventQueue
signal_queue buf = record { count = 0; pos = 0; ready = 0; buf = buf }

-- The queue starts with a count of 0, so no signal can be put in it.
pub sig_queue_put-signal_queue :
    (now thread_id signo : ℕ) (buf : ℕ → SigData)
    → sig_queue_put now thread_id signo (signal_queue buf) ≡ (2 ^ 32 - 1, signal_queue buf)
unfolding sig_queue_put enter
sig_queue_put-signal_queue now thread_id signo buf = refl

-- With a count above 0 and both positions at the same entry, what is put is what is tried next.
pub sig_queue_try-put :
    (now thread_id signo : ℕ) (q : EventQueue)
    → q.count ≢ 0
    → q.pos / 2 ^ 16 ≡ q.pos % 2 ^ 16
    → q.pos % 2 ^ 16 + 1 < 2 ^ 16
    → (sig_queue_try (sig_queue_put now thread_id signo q).1).0
      ≡ some (record { signo = signo; thread_id = thread_id; activation_time = now })
unfolding sig_queue_put sig_queue_try enter
sig_queue_try-put now thread_id signo q ne e l =
    let busy : (q.count == 0) ≡ false = ground arith in
    let place : add32 q.pos 1 / 2 ^ 16 % 32 ≡ q.pos % 32 = omega arith in
    let set : test_bit (bit_or q.ready (2 ^ (q.pos % 32))) (q.pos % 32) ≡ true = ground (
      arith,
      test_bit-bit_or q.ready (2 ^ (q.pos % 32)) (q.pos % 32),
      test_bit-pow (q.pos % 32) (q.pos % 32),
    ) in
    let here : (q.pos % 32 == q.pos % 32) ≡ true = ground arith in
    rw (busy, sig_queue_put, enter, busy, place, set, here) refl
