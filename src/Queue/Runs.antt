-- ===== src/Queue/Runs.antt =====
-- Runs of the queue's operations against a list of nodes.
use cmsis_rtos.Base.{
  ℕ, suc, ◌+◌, ◌<◌, ◌≡◌, ◌≢◌, refl, false, Option, none, some, List, [], ◌∷◌, ◌++◌, contains,
  length, length-append, arith,
}
use cmsis_rtos.Queue.{Queue, queue_init, queue_push, queue_pop, Links}
use cmsis_rtos.Queue.Fifo.{Holds, queue_init-Holds, queue_push-Holds, queue_pop-Holds}

pub data Operation : Type 0 where
  send : ℕ → Operation
  receive : Operation

-- What the receiver gets in a run of the operations; `none` is a loop that has not ended.
unfoldable pub run : ℕ → List Operation → Queue → Option (List ℕ)
run rounds [] q = some []
run rounds (send el ∷ ops) q = run rounds ops (queue_push el q)
run rounds (receive ∷ ops) q = elim (queue_pop rounds q) [
  | none ↦ none
  | some (el, q') ↦ elim (run rounds ops q') [ none ↦ none | some els ↦ some (el ∷ els) ]
]

-- The same run on a list: a sender appends, the receiver takes the first node, or 0 for NULL.
unfoldable pub run_list : List Operation → List ℕ → List ℕ
run_list [] xs = []
run_list (send el ∷ ops) xs = run_list ops (xs ++ (el ∷ []))
run_list (receive ∷ ops) [] = 0 ∷ run_list ops []
run_list (receive ∷ ops) (x ∷ xs) = x ∷ run_list ops xs

-- Every node that is sent is not NULL and not in the queue at that time.
abbrev pub Fresh : List Operation → List ℕ → Type 0
Fresh [] xs = Unit
Fresh (send el ∷ ops) xs = (el ≢ 0) × (contains el xs ≡ false) × Fresh ops (xs ++ (el ∷ []))
Fresh (receive ∷ ops) [] = Fresh ops []
Fresh (receive ∷ ops) (x ∷ xs) = Fresh ops xs

run-Holds :
    (rounds : ℕ) (ops : List Operation) {q : Queue} {xs : List ℕ}
    → Holds q xs
    → Fresh ops xs
    → length ops + length xs < rounds
    → run rounds ops q ≡ some (run_list ops xs)
unfolding run run_list
run-Holds rounds [] h f l = refl
run-Holds rounds (send el ∷ ops) {xs = xs} h f l =
    run-Holds rounds ops (queue_push-Holds el h f.0 f.1) f.2
      (omega (arith, l, length-append xs (el ∷ [])))
run-Holds rounds (receive ∷ ops) {q = q} {xs = []} h f l =
    let popped : queue_pop rounds q ≡ some (0, q) = queue_pop-Holds rounds h (ground arith) in
    rw (popped, run, run-Holds rounds ops h f (ground arith)) refl
run-Holds rounds (receive ∷ ops) {xs = x ∷ xs} h f l =
    let popped = queue_pop-Holds rounds h (ground arith) in
    rw (popped.1, run, run-Holds rounds ops popped.2 f (ground arith)) refl

-- From a new queue, any sequence of sends and receives, in which no node is NULL and none is sent
-- while it is in the queue, gives the receiver the nodes a first-in first-out list would, NULL
-- where that list is empty; and no call of the receiver runs for more rounds than the sequence has
-- operations.
pub run-first_in_first_out :
    (ops : List Operation) (n : Links)
    → Fresh ops []
    → run (suc (length ops)) ops (queue_init n) ≡ some (run_list ops [])
run-first_in_first_out ops n f =
    run-Holds (suc (length ops)) ops (queue_init-Holds n) f (ground arith)
