-- ===== src/Semaphore/Tokens.antt =====
-- A semaphore counts its tokens: over any sequence of calls none is lost and none is made.
use cmsis_rtos.Base.{ℕ, suc, ◌+◌, ◌^◌, ◌<◌, ◌≡◌, List, [], ◌∷◌, arith, ◌==◌, if◌then◌else◌}
use cmsis_rtos.Base.Word.{add32, sub32}
use cmsis_rtos.Semaphore.{enter, leave, fetch_add_loop}

pub data Call : Type 0 where
  down up : Call

-- The cell after the calls, and how many calls of `semaphore_enter` took a token.
unfoldable pub run : ℕ → List Call → ℕ × ℕ
run cell [] = (cell, 0)
run cell (down ∷ calls) =
    let r = enter cell in
    let (c, taken) = run r.cell calls in (c, (if r.count == 0 then taken else suc taken))
run cell (up ∷ calls) = run (leave cell).cell calls

abbrev pub ups : List Call → ℕ
ups [] = 0
ups (down ∷ calls) = ups calls
ups (up ∷ calls) = suc (ups calls)

-- When the initial count and the number of tokens given back stay below 2 ^ 32 together, the tokens
-- taken and those left make up the initial count and the tokens given back.
pub run_conserves :
    (calls : List Call) (cell : ℕ)
    → cell + ups calls < 2 ^ 32
    → let (c, taken) = run cell calls in c + taken ≡ cell + ups calls
unfolding run enter leave fetch_add_loop
run_conserves [] cell h = omega arith
run_conserves (down ∷ calls) cell h =
    ground (arith, run_conserves calls cell, run_conserves calls (sub32 cell 1))
run_conserves (up ∷ calls) cell h = ground (arith, run_conserves calls (add32 cell 1))
