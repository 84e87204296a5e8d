-- ===== src/SigQueue.antt =====
-- signal.c: the queue of signals with values, of many senders and one reader, and the mask of a thread,
-- when no other thread comes between. Its single word `ready` has a bit for each of the 32 places.
pub mod InOrder
use cmsis_rtos.Base.{
  ℕ, zero, suc, ◌+◌, ◌-◌, ◌*◌, ◌%◌, ◌^◌, bit_and, bit_or, true, false, ◌==◌, if◌then◌else◌,
}
use cmsis_rtos.Base.Word.{add32}
use cmsis_rtos.Base.Bits.{bit_not}
use cmsis_rtos.Semaphore.{init, enter, leave}

abbrev pub sigqueue_max : ℕ
sigqueue_max = 32

-- The two fields of `siginfo_t` that the queue sets.
pub record SigInfo : Type 0 where
  pub si_signo : ℕ
  pub si_value : ℕ

-- `struct _fifo`
pub record SigQueue : Type 0 where
  pub rdlock : ℕ
  pub wrlock : ℕ
  pub wrpos : ℕ
  pub rdpos : ℕ
  pub ready : ℕ
  pub info : ℕ → SigInfo

-- `-EAGAIN`
abbrev pub eagain : ℕ
eagain = 2 ^ 32 - 11

-- `sigqueue` for a queue that is not NULL.
unfoldable pub sigqueue : ℕ → ℕ → SigQueue → ℕ × SigQueue
sigqueue signo value q =
    let r = enter q.wrlock in
    let idx = q.wrpos % sigqueue_max in
    let sent : SigInfo = record { si_signo = signo; si_value = value } in
    if r.count == 0 then (eagain, record q { wrlock = r.cell }) else (
      0,
      record {
        rdlock = (leave q.rdlock).cell;
        wrlock = r.cell;
        wrpos = add32 q.wrpos 1;
        rdpos = q.rdpos;
        ready = bit_or q.ready (2 ^ idx);
        info = λ i. if i == idx then sent else q.info i;
      },
    )

-- `signal_queue_init`, which leaves `rdlock` and the places as they are.
unfoldable pub signal_queue_init : SigQueue → SigQueue
unfolding init
signal_queue_init q = record q { wrlock = init sigqueue_max; wrpos = 0; rdpos = 0; ready = 0 }

-- `signal_queue_get`. The test of the bit is followed by a semicolon, so the block behind it always runs.
unfoldable pub signal_queue_get : SigQueue → ℕ × (SigInfo × SigQueue)
signal_queue_get q =
    let idx = q.rdpos % sigqueue_max in
    (
      1,
      (
        q.info idx,
        record q {
          ready = bit_and q.ready (bit_not 32 (2 ^ idx));
          wrlock = (leave q.wrlock).cell;
          rdpos = add32 q.rdpos 1;
        },
      ),
    )

-- `pthread_sigmask` on the mask of the current thread, in the order SIG_SETMASK, SIG_BLOCK, SIG_UNBLOCK.
pub data How : Type 0 where
  set_mask : How
  block : How
  unblock : How

unfoldable pub pthread_sigmask : How → ℕ → ℕ → ℕ × ℕ
pthread_sigmask set_mask set mask = (mask, set)
pthread_sigmask block set mask = (mask, bit_or mask set)
pthread_sigmask unblock set mask = (mask, bit_and mask (bit_not 32 set))
