-- ===== src/Thrd/Joined.antt =====
-- The flags of signals that `thrd_join` takes.
use cmsis_rtos.Base.{
  ℕ, ◌%◌, ◌^◌, ◌<◌, ◌≡◌, ◌≢◌, refl, ap₂, ◌∙◌, true, false, ◌||◌, ◌&&◌, inl, inr, Bool-cases, ◌==◌,
  bit_or, arith,
}
use cmsis_rtos.Base.Bits.{
  ctz, bit_not, test_bit, test_bit-bit_or, test_bit-bit_and, test_bit-bit_not, test_bit-pow, pow_lt,
}
use cmsis_rtos.Pool.Word.{lowest_zero}
use cmsis_rtos.Thrd.{
  all_ones, Thrds, put, success, Waiting, atomic_sig_alloc, atomic_sig_free, thrd_join,
}

-- A flag that is taken and given back.
pub atomic_sig_free-atomic_sig_alloc :
    (flags : ℕ)
    → flags < 2 ^ 32
    → flags ≢ all_ones
    → let (idx, taken) = atomic_sig_alloc flags in
      (idx < 32)
      × (test_bit flags idx ≡ false)
      × ((i : ℕ) → test_bit taken i ≡ ((idx == i) || test_bit flags i))
      × ((i : ℕ) → i < 32 → test_bit (atomic_sig_free taken idx).1 i ≡ test_bit flags i)
unfolding atomic_sig_alloc atomic_sig_free
atomic_sig_free-atomic_sig_alloc flags h ne =
    let idx = ctz 32 (bit_not 32 flags) in
    let (below, clear) = lowest_zero flags h ne in
    let some_left : (flags == all_ones) ≡ false = ground (arith, ne) in
    rw some_left (
      below,
      clear,
      λ i. ground (arith, test_bit-bit_or flags (2 ^ idx) i, test_bit-pow idx i),
      λ i k. ground (
        arith,
        clear,
        test_bit-bit_and (bit_or flags (2 ^ idx)) (bit_not 32 (2 ^ idx)) i,
        test_bit-bit_or flags (2 ^ idx) i,
        test_bit-bit_not 32 (2 ^ idx) i (pow_lt idx 32 below) k,
        test_bit-pow idx i,
      ),
    )

-- A thread with a flag left joins another one. When that one has not ended and the wait leaves the mask of
-- the joining thread and the number in the other one, the mask is afterwards what it was; when
-- it has ended before, the call keeps a flag that was free. In both cases the status is success and
-- the result is the one that the thread then has.
pub thrd_join_mask :
    (svc : Waiting) (self thrd : ℕ) (t : Thrds)
    → t.sig_mask self < 2 ^ 32
    → t.sig_mask self ≢ all_ones
    → ((mask : ℕ) (u : Thrds)
        → ((svc mask u).sig_mask self ≡ u.sig_mask self)
          × ((svc mask u).sig_no thrd ≡ u.sig_no thrd))
    → let (result, (status, t')) = thrd_join svc self thrd t in
      let idx = (atomic_sig_alloc (t.sig_mask self)).0 in
      (status ≡ success)
      × (result ≡ t'.result thrd)
      × (test_bit (t.sig_mask self) idx ≡ false)
      × ((i : ℕ)
          → i < 32
          → test_bit (t'.sig_mask self) i
            ≡ (((t.status thrd == 0) && (idx == i)) || test_bit (t.sig_mask self) i))
unfolding thrd_join
thrd_join_mask svc self thrd t h ne keeps =
    let (below, clear, taken, back) = atomic_sig_free-atomic_sig_alloc (t.sig_mask self) h ne in
    let own : (self == self) ≡ true = ground arith in
    let other : (thrd == thrd) ≡ true = ground arith in
    elim (Bool-cases (t.status thrd == 0)) [
      | inl ended ↦ rw (ended, own) (refl, refl, clear, λ i k. taken i)
      | inr runs ↦
          let (idx, flags) = atomic_sig_alloc (t.sig_mask self) in
          let asked = record t {
            sig_mask = put t.sig_mask self flags;
            sig_no = put t.sig_no thrd idx;
            parent = put t.parent thrd self;
          } in
          let (same_mask, same_number) = keeps (2 ^ (idx % 32)) asked in
          let waited = svc (2 ^ (idx % 32)) asked in
          let mask : waited.sig_mask self ≡ flags = same_mask ∙ rw own refl in
          let number : waited.sig_no thrd ≡ idx = same_number ∙ rw other refl in
          rw (runs, own)
            (
              refl,
              refl,
              clear,
              λ i k. ap₂ (λ f n. test_bit (atomic_sig_free f n).1 i) mask number ∙ back i k,
            )
    ]
