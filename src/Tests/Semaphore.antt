-- ===== src/Tests/Semaphore.antt =====
-- semaphore.h at concrete inputs.
use cmsis_rtos.Base.{◌+◌, ◌≡◌, true, false, [], ◌∷◌, contains, arith}
use cmsis_rtos.Semaphore.{result, enter, enter_loop}
use cmsis_rtos.Semaphore.Atomic.{enter_loop-enter}
use cmsis_rtos.Semaphore.Tokens.{down, up, run, ups, run_conserves}

enter_loop-enter_example :
    (contains 0 (3 ∷ 2 ∷ []) ≡ true → enter_loop (3 ∷ 2 ∷ []) 5 ≡ result 0 0)
    × (contains 0 (3 ∷ 2 ∷ []) ≡ false → enter_loop (3 ∷ 2 ∷ []) 5 ≡ enter 5)
enter_loop-enter_example = enter_loop-enter (3 ∷ 2 ∷ []) 5

run_conserves_example :
    let (c, taken) = run 1 (down ∷ down ∷ up ∷ []) in c + taken ≡ 1 + ups (down ∷ down ∷ up ∷ [])
run_conserves_example = run_conserves (down ∷ down ∷ up ∷ []) 1 (omega arith)
