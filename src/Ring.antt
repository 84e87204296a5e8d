-- ===== src/Ring.antt =====
-- thread.c: the creation and the end of threads. The threads are linked in a ring by `next`, from
-- `tcb_list`, the thread "main", back to it; their stacks are the bits of a map.
pub mod Chain
pub mod Stacks
pub mod Life
use cmsis_rtos.Base.{
  ℕ, zero, suc, ◌+◌, ◌-◌, ◌*◌, ◌/◌, ◌^◌, Bool, true, false, Option, none, some, ◌==◌, if◌then◌else◌,
  bit_and, bit_or, ltb,
}
use cmsis_rtos.Base.Word.{sub32}
use cmsis_rtos.Base.Bits.{ctz, bit_not}

-- The stack pool: `osStackAlloc` when no other thread comes between, the map and the upper end of
-- the stack; the end of the first one is `base`. C leaves `__builtin_ctz` of a full map undefined.
unfoldable pub stack_alloc : ℕ → ℕ → ℕ × ℕ
stack_alloc base map =
    let idx = ctz 32 (bit_not 32 map) in (bit_or map (2 ^ idx), base - idx * 2 ^ 10)

-- `osStackFree` of a stack pointer. Outside of the 32 stacks C leaves the shift undefined; the map is
-- then left as it is.
unfoldable pub stack_free : ℕ → ℕ → ℕ → ℕ
stack_free base map stk =
    let idx = sub32 base stk / 2 ^ 10 in
    if ltb idx 32 then bit_and map (bit_not 32 (2 ^ idx)) else map

-- The fields of `struct _thread` that creation and end use, for every address, and the map.
pub record Threads : Type 0 where
  pub next : ℕ → ℕ
  pub status : ℕ → ℕ
  pub sp : ℕ → ℕ
  pub map : ℕ

abbrev pub update : (ℕ → ℕ) → ℕ → ℕ → ℕ → ℕ
update f p v q = if q == p then v else f q

-- `thrd_create` of the thread at `thr`: it becomes the one behind the running thread.
unfoldable pub thrd_create : ℕ → ℕ → Threads → Threads
thrd_create current thr s = record s {
  next = update (update s.next thr (s.next current)) current thr;
  status = update s.status thr 1;
  sp = update s.sp thr 0;
}

-- The loop of `svc_handler_kill` from a thread on, to the one whose link leads to `thr`.
unfoldable pub predecessor : ℕ → (ℕ → ℕ) → ℕ → ℕ → Option ℕ
predecessor zero next q thr = none
predecessor (suc rounds) next q thr =
    let rest = predecessor rounds next (next q) thr in if next q == thr then some q else rest

-- The outcome of `svc_handler_kill`: the threads, and whether it asks for a switch.
pub record Killed : Type 0 where
  pub threads : Threads
  pub yields : Bool

abbrev pub service : ℕ
service = 0x800

-- A service loses its stack and stays in the ring.
unfoldable pub kill_service : ℕ → ℕ → Threads → Killed
kill_service base thr s = record {
  threads = record s { sp = update s.sp thr 0; map = stack_free base s.map (s.sp thr) };
  yields = true;
}

-- Another thread leaves the ring from behind `q`.
unfoldable pub unlink_thread : ℕ → ℕ → ℕ → ℕ → Threads → Killed
unlink_thread base current q thr s = record {
  threads = record s {
    next = update s.next q (s.next thr);
    status = update s.status thr 0;
    map = stack_free base s.map (s.sp thr);
  };
  yields = thr == current;
}

-- `svc_handler_kill`; `none` is a loop that has not ended.
unfoldable pub kill : ℕ → ℕ → ℕ → ℕ → ℕ → Threads → Option Killed
kill rounds base main current thr s =
    if thr == 0
    then some (record { threads = s; yields = false })
    else (if bit_and (s.status thr) service == 0
        then elim (predecessor rounds s.next main thr) [
          | none ↦ none
          | some q ↦ some (unlink_thread base current q thr s)
        ]
        else some (kill_service base thr s))
