-- ===== src/Tests/Pipes.antt =====
-- The pipe at concrete inputs.
use cmsis_rtos.Base.{◌≡◌, List, [], ◌∷◌, arith, refl}
use cmsis_rtos.Pipe.{pipe_create}
use cmsis_rtos.Pipe.Ordered.{Call, write, read, run, queued, replay, run-in_order}

-- Three writes into two places, two reads, a write round the end of the ring and two reads.
abbrev calls : List Call
calls = write 7 ∷ write 8 ∷ write 9 ∷ read ∷ write 5 ∷ read ∷ read ∷ read ∷ []

replayed : replay 2 calls [] ≡ 0 ∷ 1 ∷ 0 ∷ 7 ∷ 1 ∷ 8 ∷ 5 ∷ 0 ∷ []
unfolding replay queued
replayed = refl

run-in_order_example : run calls (pipe_create 2 (λ i. 99)) ≡ replay 2 calls []
run-in_order_example = run-in_order calls 2 (λ i. 99) (omega arith) (omega arith)
