-- ===== src/Tests/Joins.antt =====
-- c11_thread.c at concrete inputs.
use cmsis_rtos.Base.{
  ℕ, ◌+◌, ◌-◌, ◌<◌, ◌≡◌, ◌^◌, refl, ◌==◌, ltb, ◌&&◌, ◌||◌, if◌then◌else◌, arith, false,
}
use cmsis_rtos.Base.Bits.{test_bit}
use cmsis_rtos.Base.Word.{u32}
use cmsis_rtos.Kernel.{Timespec}
use cmsis_rtos.Thrd.{
  Thrds, all_ones, success, thrd_join, thrd_sleep, timespec_to_us, atomic_sig_alloc,
}
use cmsis_rtos.Thrd.Joined.{thrd_join_mask}
use cmsis_rtos.Thrd.Slept.{thrd_sleep_remaining}

-- The thread at 200 runs, and the one at 100 has the lowest flag in use.
abbrev threads : Thrds
threads = record {
  parent = λ p. 0;
  func = λ p. 0;
  arg = λ p. 0;
  status = λ p. 1;
  next = λ p. 0;
  result = λ p. 77;
  sig_no = λ p. 0;
  sig_mask = λ p. 1;
}

thrd_join_mask_example :
    let (result, (status, t')) = thrd_join (λ mask u. u) 100 200 threads in
    let idx = (atomic_sig_alloc 1).0 in
    (status ≡ success)
    × (result ≡ t'.result 200)
    × (test_bit 1 idx ≡ false)
    × ((i : ℕ) → i < 32 → test_bit (t'.sig_mask 100) i ≡ (((1 == 0) && (idx == i)) || test_bit 1 i))
thrd_join_mask_example =
    thrd_join_mask (λ mask u. u) 100 200 threads (omega arith) (λ e. cc) (λ mask u. (refl, refl))

abbrev two_and_half : Timespec
two_and_half = record { tv_sec = 2; tv_nsec = 500000000 }

thrd_sleep_remaining_example :
    let (status, rest) = thrd_sleep 4294967000 (u32 (4294967000 + 1000)) two_and_half in
    (status ≡ (if ltb 1000 2500000 then all_ones else 0))
    × (timespec_to_us rest ≡ 2500000 - 1000)
    × (rest.tv_nsec < 10 ^ 9)
thrd_sleep_remaining_example =
    thrd_sleep_remaining 4294967000 1000 two_and_half (omega arith) (omega arith) (omega arith)
