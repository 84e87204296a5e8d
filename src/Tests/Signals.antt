-- ===== src/Tests/Signals.antt =====
-- The queue of signals of signal.c at a concrete input.
use cmsis_rtos.Base.{ℕ, ◌≡◌, refl, List, [], ◌∷◌}
use cmsis_rtos.SigQueue.{SigInfo, SigQueue, signal_queue_init}
use cmsis_rtos.SigQueue.InOrder.{
  Call, send, get, status, signal, run, run_list, run-signals_in_order,
}

abbrev sent : ℕ → SigInfo
sent n = record { si_signo = n; si_value = n }

abbrev memory : SigQueue
memory = record { rdlock = 5; wrlock = 6; wrpos = 7; rdpos = 8; ready = 9; info = λ i. sent 0 }

abbrev calls : List Call
calls = send (sent 3) ∷ send (sent 4) ∷ get ∷ send (sent 5) ∷ get ∷ get ∷ []

listed :
    run_list calls []
    ≡ status 0 ∷ status 0 ∷ signal (sent 3) ∷ status 0 ∷ signal (sent 4) ∷ signal (sent 5) ∷ []
unfolding run_list
listed = refl

run-signals_in_order_example : run calls (signal_queue_init memory) ≡ run_list calls []
run-signals_in_order_example = run-signals_in_order calls memory tt
