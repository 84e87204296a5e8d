-- ===== src/Search.antt =====
-- bsearch.c: the search in sorted data.
pub mod Bisection
use cmsis_rtos.Base.{ℕ, zero, suc, ◌+◌, ◌-◌, ◌*◌, ◌/◌, ◌^◌, Option, none, some, if◌then◌else◌, ltb}

-- The sign of what the comparison function returns.
pub data Sign : Type 0 where
  negative nothing positive : Sign

-- The loop of `bsearch` between `l` and `u`, within a number of rounds; `cmp` compares the key with
-- the element of an index. `none` is a loop that has not ended, `some none` is NULL.
unfoldable pub bisect : (ℕ → Sign) → ℕ → ℕ → ℕ → Option (Option ℕ)
bisect cmp zero l u = none
bisect cmp (suc rounds) l u =
    let mid = (l + u) / 2 in
    let lower = bisect cmp rounds l mid in
    let upper = bisect cmp rounds (mid + 1) u in
    if ltb l u
    then elim (cmp mid) [ negative ↦ lower | positive ↦ upper | nothing ↦ some (some mid) ]
    else some none

-- `bsearch`: the address of the element that was found, 0 for NULL.
unfoldable pub bsearch : (ℕ → Sign) → ℕ → ℕ → ℕ → ℕ → Option ℕ
bsearch cmp rounds base num size = elim (bisect cmp rounds 0 num) [
  | none ↦ none
  | some none ↦ some 0
  | some (some i) ↦ some (base + i * size)
]
