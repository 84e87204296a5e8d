-- ===== src/Pool/Word.antt =====
-- The loop of `osPoolAlloc` on one word of the map.
use cmsis_rtos.Base.{
  ℕ, ◌+◌, ◌^◌, ◌<◌, ◌≡◌, ◌≢◌, refl, sym, ap, subst, ◌∙◌, bit_or, Bool-cases, inl, inr, true, false,
  List, [], ◌∷◌, contains, ◌==◌, arith,
}
use cmsis_rtos.Base.Bits.{ctz, ctz_lem, bit_not, test_bit, test_bit-bit_not, bit_or_clear}
use cmsis_rtos.Pool.{Outcome, all_ones, alloc_word}
use Outcome.{taken, full}

-- The lowest zero of a word that has one.
pub lowest_zero :
    (mask : ℕ)
    → mask < 2 ^ 32
    → mask ≢ all_ones
    → (ctz 32 (bit_not 32 mask) < 32) × (test_bit mask (ctz 32 (bit_not 32 mask)) ≡ false)
lowest_zero mask m ne =
    let (below, set) = ctz_lem 32 (bit_not 32 mask) (omega arith) (omega (arith, ne)) in
    (below, ground (arith, set, test_bit-bit_not 32 mask (ctz 32 (bit_not 32 mask)) m below))

-- With no other thread between, one round is enough: it takes the lowest block that is free, or
-- finds none.
pub alloc_word-alone :
    (word : ℕ)
    → word < 2 ^ 32
    → (word ≡ all_ones → alloc_word (word ∷ []) word ≡ full)
      × (word ≢ all_ones
          → (idx : ℕ) × (idx < 32)
            × (test_bit word idx ≡ false)
            × (alloc_word (word ∷ []) word ≡ taken idx (bit_or word (2 ^ idx))))
unfolding alloc_word
alloc_word-alone word w = (
  λ e. ground (arith, e),
  λ ne.
      let (below, clear) = lowest_zero word w ne in
      let more : (word == all_ones) ≡ false = ground arith in
      (ctz 32 (bit_not 32 word), below, clear, rw (more, clear, alloc_word) refl),
)

-- The block `idx` was free in one of the values `cells`, and the word becomes that value with the
-- bit of the block set.
pub record Took (cells : List ℕ) (idx word : ℕ) : Type 0 where
  pub cell : ℕ
  pub found : contains cell cells ≡ true
  pub below : idx < 32
  pub free : test_bit cell idx ≡ false
  pub stored : word ≡ cell + 2 ^ idx

-- Whatever values of the word the rounds find, when the loop takes a block then one of these
-- values had the bit of that block clear, and the word becomes that value with this bit set.
pub alloc_word-taken :
    (cells : List ℕ) (mask idx word : ℕ)
    → mask < 2 ^ 32
    → ((cell : ℕ) → contains cell cells ≡ true → cell < 2 ^ 32)
    → alloc_word cells mask ≡ taken idx word
    → Took cells idx word
unfolding alloc_word
alloc_word-taken [] mask idx word m b e = absurd (ground (arith, e))
alloc_word-taken (cell ∷ cells) mask idx word m b e =
    elim (Bool-cases (mask == all_ones)) as (λ _. Took (cell ∷ cells) idx word) [
      | inl ones ↦ absurd (ground (arith, e, ones))
      | inr more ↦
          let (below, clear) = lowest_zero mask m (ground (arith, more)) in
          elim (Bool-cases (test_bit cell (ctz 32 (bit_not 32 mask))))
            as (λ _. Took (cell ∷ cells) idx word) [
              | inl collision ↦
                  let next : alloc_word cells cell ≡ taken idx word =
                    ground (arith, e, more, collision) in
                  let took =
                    alloc_word-taken cells cell idx word (b cell (ground arith))
                      (λ c h. b c (ground arith)) next in
                  record {
                    cell = took.cell;
                    found = ground (arith, took.found);
                    below = took.below;
                    free = took.free;
                    stored = took.stored;
                  }
              | inr free ↦
                  let same : ctz 32 (bit_not 32 mask) ≡ idx = ground (arith, e, more, free) in
                  let stored : bit_or cell (2 ^ ctz 32 (bit_not 32 mask)) ≡ word =
                    ground (arith, e, more, free) in
                  record {
                    cell = cell;
                    found = ground arith;
                    below = subst (λ i. i < 32) same below;
                    free = subst (λ i. test_bit cell i ≡ false) same free;
                    stored =
                        sym stored
                        ∙ bit_or_clear cell (ctz 32 (bit_not 32 mask)) free
                        ∙ ap (λ i. cell + 2 ^ i) same;
                  }
            ]
    ]
