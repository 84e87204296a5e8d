-- ===== src/Tests/Queue.antt =====
-- queue.c at concrete inputs.
use cmsis_rtos.Base.{◌≡◌, refl, some, List, [], ◌∷◌, arith}
use cmsis_rtos.Queue.{Links, queue_init, queue_push}
use cmsis_rtos.Queue.Fifo.{Holds, queue_init-Holds, queue_push-Holds}
use cmsis_rtos.Queue.Runs.{Operation, send, receive, run, run_list, run-first_in_first_out}

abbrev no_links : Links
no_links p = 0

-- The nodes 5 and 9 were sent.
two_nodes : Holds (queue_push 9 (queue_push 5 (queue_init no_links))) (5 ∷ 9 ∷ [])
two_nodes =
    queue_push-Holds 9 (queue_push-Holds 5 (queue_init-Holds no_links) (omega arith) refl)
      (omega arith) refl

abbrev operations : List Operation
operations = send 5 ∷ send 9 ∷ receive ∷ send 5 ∷ receive ∷ receive ∷ receive ∷ []

run-first_in_first_out_example :
    run 8 operations (queue_init no_links) ≡ some (run_list operations [])
run-first_in_first_out_example =
    run-first_in_first_out operations no_links
      (omega arith, refl, (omega arith, refl, (omega arith, refl, tt)))
