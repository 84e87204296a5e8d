-- ===== src/Thrd.antt =====
-- c11_thread.c: the threads of ISO C, on the fields of the threads by address and the masks of signals, when
-- no other thread comes between. A thread waits in a system call, which is a parameter.

pub mod Slept
pub mod Joined
use cmsis_rtos.Base.{
  ℕ, ◌+◌, ◌-◌, ◌*◌, ◌/◌, ◌%◌, ◌^◌, bit_and, bit_or, ltb, ◌==◌, ◌&&◌, if◌then◌else◌,
}
use cmsis_rtos.Base.Word.{u32, sub32}
use cmsis_rtos.Base.Bits.{bit_not, ctz}
use cmsis_rtos.Scheduler.{running}
use cmsis_rtos.Kernel.{Timespec}

abbrev pub all_ones : ℕ
all_ones = 2 ^ 32 - 1

-- The fields of `struct _thread` that the calls use, by its address. `parent` and `sig_no` are fields that
-- the header has only in comments.
pub record Thrds : Type 0 where
  pub parent : ℕ → ℕ
  pub func : ℕ → ℕ
  pub arg : ℕ → ℕ
  pub status : ℕ → ℕ
  pub next : ℕ → ℕ
  pub result : ℕ → ℕ
  pub sig_no : ℕ → ℕ
  pub sig_mask : ℕ → ℕ

abbrev pub put : (ℕ → ℕ) → ℕ → ℕ → ℕ → ℕ
put f p v q = if q == p then v else f q

-- `atomic_list_push`, the value at the pointer `at` and the links: a list whose end is marked is left.
unfoldable pub atomic_list_push : ℕ → ℕ → (ℕ → ℕ) → ℕ → ℕ
atomic_list_push at item next =
    if next at == all_ones then next else put (put next item (next at)) at item

-- `atomic_sig_alloc`: the number of the flag, and the flags.
unfoldable pub atomic_sig_alloc : ℕ → ℕ × ℕ
atomic_sig_alloc flags =
    let idx = ctz 32 (bit_not 32 flags) in
    if flags == all_ones then (all_ones, flags) else (idx, bit_or flags (2 ^ idx))

-- `atomic_sig_free`
unfoldable pub atomic_sig_free : ℕ → ℕ → ℕ × ℕ
atomic_sig_free flags sig_no = (bit_and flags (2 ^ sig_no), bit_and flags (bit_not 32 (2 ^ sig_no)))

abbrev pub success : ℕ
success = 0

abbrev pub nomem : ℕ
nomem = 2 ^ 32 - 5

-- `thrd_create` by the thread `self`, for a thread whose memory the caller gives.
unfoldable pub thrd_create : ℕ → ℕ → ℕ → ℕ → Thrds → ℕ × Thrds
thrd_create self thrd func arg t = if thrd == 0 then (nomem, t) else (
  success,
  record t {
    parent = put t.parent thrd self;
    func = put t.func thrd func;
    arg = put t.arg thrd arg;
    status = put t.status thrd running;
    next = if t.next thrd == 0 then atomic_list_push self thrd t.next else t.next;
  },
)

-- `thrd_detach`
unfoldable pub thrd_detach : ℕ → Thrds → ℕ × Thrds
thrd_detach thrd t = (success, record t { parent = put t.parent thrd 0 })

-- The system call that waits for the signals of a mask, after which the other threads have changed the fields.
abbrev pub Waiting : Type 0
Waiting = ℕ → Thrds → Thrds

-- `thrd_join` by the thread `self`: the result of the thread, the status and the fields. A shift by -1 is
-- one by its low five bits here.
unfoldable pub thrd_join : Waiting → ℕ → ℕ → Thrds → ℕ × (ℕ × Thrds)
thrd_join svc self thrd t =
    let (sig_no, flags) = atomic_sig_alloc (t.sig_mask self) in
    let asked = record t {
      sig_mask = put t.sig_mask self flags;
      sig_no = put t.sig_no thrd sig_no;
      parent = put t.parent thrd self;
    } in
    let waited = svc (2 ^ (sig_no % 32)) asked in
    let freed = record waited {
      sig_mask =
          put waited.sig_mask self (atomic_sig_free (waited.sig_mask self) (waited.sig_no thrd)).1;
    } in
    let end = if t.status thrd == 0 then asked else freed in (end.result thrd, (success, end))

-- `_timespec_to_us` and `_timespec_from_us`, with 1000000 for CLOCKS_PER_SEC.
unfoldable pub timespec_to_us : Timespec → ℕ
timespec_to_us ts = u32 (ts.tv_sec * 1000000 + ts.tv_nsec / 1000)

unfoldable pub timespec_from_us : ℕ → Timespec
timespec_from_us timestamp =
    let sec = timestamp / 1000000 in
    record { tv_sec = sec; tv_nsec = sub32 timestamp (u32 (sec * 1000000)) * 1000 }

-- `thrd_sleep` with a place for what remains: the clock before the system call and after it, the status
-- and what remains.
unfoldable pub thrd_sleep : ℕ → ℕ → Timespec → ℕ × Timespec
thrd_sleep before after duration =
    let interval = timespec_to_us duration in
    let ts = sub32 after before in
    if ltb ts interval
    then (all_ones, timespec_from_us (sub32 interval ts))
    else (0, record { tv_sec = 0; tv_nsec = 0 })
