-- ===== src/Mail/Flow.antt =====
-- Message queues: any sequence of calls that do not wait, against a first-in first-out list.
use cmsis_rtos.Base.{
  ℕ, zero, suc, ◌+◌, ◌*◌, ◌/◌, ◌^◌, ◌≤◌, ◌<◌, ◌≡◌, refl, ap, ◌∙◌, inl, inr, true, false, ◌&&◌,
  Bool-cases, Option, none, some, List, [], ◌∷◌, ◌++◌, map, length, length-append, length-map, ◌==◌,
  if◌then◌else◌, arith, subst,
}
use cmsis_rtos.Scheduler.{event}
use cmsis_rtos.Rtos.{os_ok}
use cmsis_rtos.Queue.{Queue, queue_push, queue_pop, Links}
use cmsis_rtos.Queue.Fifo.{queue_init-Holds, queue_pop-Holds}
use cmsis_rtos.Pool.{pool_create, pool_free}
use cmsis_rtos.Pool.Maps.{used, pool_alloc-Taken}
use cmsis_rtos.Pool.Cycle.{pool_create-IsPool}
use cmsis_rtos.Mail.{
  MailQ, Waiting, message, take_block, await_node, mail_create, message_put, message_from,
  message_get,
}
use cmsis_rtos.Mail.Count.{tally-none, tally-all, tally_bound}
use cmsis_rtos.Mail.Blocks.{place, IsMessageQ, put-keeps, get-keeps}

-- A put that finds a free block appends its message.
put-room :
    (base item n rounds millisec info : ℕ) (svc : Waiting) (q : MailQ) (ks xs : List ℕ)
    → IsMessageQ base item n q ks xs
    → length ks < n
    → (k : ℕ) × (q' : MailQ) × (message_put (suc rounds) svc info millisec q ≡ some (os_ok, q'))
      × IsMessageQ base item n q' (ks ++ (k ∷ [])) (xs ++ (info ∷ []))
unfolding message_put take_block
put-room base item n rounds millisec info svc q ks xs m l = elim (pool_alloc-Taken q.pool m.pool) [
  | inr (lost, all) ↦
      absurd
        (omega (arith, m.in_use, tally-all n (used q.pool) (λ k b. all k (omega (arith, m.whole)))))
  | inl t ↦
      let k = t.number in
      let block = q.pool.base + k * q.pool.item_aligned_size in
      let some_block : (block == 0) ≡ false = ground (arith, m.at, m.based) in
      let after = record q {
        pool = t.after;
        queue = queue_push block q.queue;
        info = λ p. if p == block then info else q.info p;
      } in
      (
        k,
        after,
        rw (t.returns, some_block, take_block, message_put) refl,
        put-keeps base item n info q ks xs m t,
      )
]

abbrev AnswersZero : Option (ℕ × Queue) → Type 0
AnswersZero none = Unit
AnswersZero (some (el, q)) = el ≡ 0

empty_pop :
    (rounds : ℕ) (q : Queue) (el : ℕ) (q' : Queue)
    → ((q.head == 0) && (q.tail == 0)) ≡ true
    → queue_pop rounds q ≡ some (el, q')
    → el ≡ 0
unfolding queue_pop
empty_pop rounds q el q' empty popped =
    let head : (q.head == 0) ≡ true = ground (arith, empty) in
    let tail : (q.tail == 0) ≡ true = ground (arith, empty) in
    let answer : AnswersZero (queue_pop rounds q) = rw (head, tail, queue_pop) refl in
    subst AnswersZero popped answer

pub await-busy :
    (kind millisec : ℕ) (svc : Waiting) (q : MailQ)
    → ((q.queue.head == 0) && (q.queue.tail == 0)) ≡ false
    → await_node kind svc millisec q ≡ (none, q)
unfolding await_node
await-busy kind millisec svc q busy = rw busy refl

-- A get from a queue with messages answers with the first one.
get-first :
    (base item n rounds millisec k : ℕ) (svc : Waiting) (q : MailQ) (ks xs : List ℕ)
    → IsMessageQ base item n q (k ∷ ks) xs
    → suc (length ks) < rounds
    → (q' : MailQ) × (message_get rounds svc millisec q
        ≡ some (event message (q.info (place base item k)), q'))
      × IsMessageQ base item n q' ks (map (λ j. q.info (place base item j)) ks)
unfolding message_get message_from
get-first base item n rounds millisec k svc q ks xs m l =
    let count : length (map (place base item) ks) ≡ length ks = length-map (place base item) ks in
    let (queue, popped, holds) = queue_pop-Holds rounds m.holds (omega (arith, l, count)) in
    let busy : ((q.queue.head == 0) && (q.queue.tail == 0)) ≡ false =
      elim (Bool-cases ((q.queue.head == 0) && (q.queue.tail == 0))) [
        | inr some_node ↦ some_node
        | inl empty ↦ absurd (
            omega (arith, m.based, empty_pop rounds q.queue (place base item k) queue empty popped))
      ] in
    let at_once = ap (message_from rounds) (await-busy message millisec svc q busy) in
    (
      record q { queue = queue; pool = (pool_free q.pool (place base item k)).1 },
      at_once ∙ rw (popped, message_from) refl,
      get-keeps base item n k q ks xs queue m holds,
    )

-- The first state: no message, no block in use.
mail_create-IsMessageQ :
    (at words item_sz base thread_id : ℕ) (next : Links) (info : ℕ → ℕ)
    → words < 2 ^ 11
    → 29 ≤ item_sz
    → item_sz < 2 ^ 16
    → 0 < base
    → IsMessageQ base
        ((item_sz + 3) / 4)
        (words * 32)
        (mail_create at (words * 32) item_sz base thread_id next info)
        []
        []
unfolding mail_create pool_create
mail_create-IsMessageQ at words item_sz base thread_id next info few low high based =
    let (pool, size, fits, tight, free) =
      pool_create-IsPool (words * 32) item_sz base (omega (arith, few)) in
    record {
      pool = pool;
      at = refl;
      step = omega (arith, low, high);
      size = omega (arith, few);
      whole = omega (arith, few);
      wide = omega (arith, low);
      based = based;
      holds = queue_init-Holds next;
      distinct = tt;
      marked = λ k. free k;
      within = λ k h. cc;
      in_use = tally-none (words * 32) _ free;
      contents = refl;
    }

-- A call, and the messages that a sequence of calls gets; `none` is a loop that has not ended.
pub data Call : Type 0 where
  put : ℕ → Call
  get : Call

unfoldable pub run : ℕ → Waiting → ℕ → List Call → MailQ → Option (List ℕ)
run rounds svc millisec [] q = some []
run rounds svc millisec (put info ∷ calls) q = elim (message_put rounds svc info millisec q) [
  | none ↦ none
  | some (status, q') ↦ run rounds svc millisec calls q'
]
run rounds svc millisec (get ∷ calls) q = elim (message_get rounds svc millisec q) [
  | none ↦ none
  | some (e, q') ↦ elim (run rounds svc millisec calls q') [
    | none ↦ none
    | some infos ↦ some (e.value ∷ infos)
  ]
]

-- The same on a list.
unfoldable pub run_list : List Call → List ℕ → List ℕ
run_list [] xs = []
run_list (put info ∷ calls) xs = run_list calls (xs ++ (info ∷ []))
run_list (get ∷ calls) [] = run_list calls []
run_list (get ∷ calls) (x ∷ xs) = x ∷ run_list calls xs

-- No call has to wait: with `n` blocks, of which as many are in use as the second number says.
abbrev pub Fits : ℕ → List Call → ℕ → Type 0
Fits n [] used = Unit
Fits n (put info ∷ calls) used = (used < n) × Fits n calls (suc used)
Fits n (get ∷ calls) zero = ⊥
Fits n (get ∷ calls) (suc used) = Fits n calls used

run-IsMessageQ :
    (base item n rounds millisec : ℕ) (svc : Waiting) (calls : List Call) (q : MailQ)
    (ks xs : List ℕ)
    → IsMessageQ base item n q ks xs
    → Fits n calls (length ks)
    → n < rounds
    → run (suc rounds) svc millisec calls q ≡ some (run_list calls xs)
unfolding run run_list
run-IsMessageQ base item n rounds millisec svc [] q ks xs m fits l = refl
run-IsMessageQ base item n rounds millisec svc (put info ∷ calls) q ks xs m fits l =
    let (k, q', puts, m') = put-room base item n rounds millisec info svc q ks xs m fits.0 in
    let longer : length (ks ++ (k ∷ [])) ≡ suc (length ks) =
      omega (arith, length-append ks (k ∷ [])) in
    rw (puts, run)
      (run-IsMessageQ base item n rounds millisec svc calls q' (ks ++ (k ∷ [])) (xs ++ (info ∷ []))
        m' (rw longer fits.1) l)
run-IsMessageQ base item n rounds millisec svc (get ∷ calls) q [] xs m fits l = absurd fits
run-IsMessageQ base item n rounds millisec svc (get ∷ calls) q (k ∷ ks) xs m fits l =
    let xs' = map (λ j. q.info (place base item j)) ks in
    let few : suc (length ks) ≤ n = omega (arith, m.in_use, tally_bound n (used q.pool)) in
    let (q', got, m') =
      get-first base item n (suc rounds) millisec k svc q ks xs m (omega (arith, few, l)) in
    let later = run-IsMessageQ base item n rounds millisec svc calls q' ks xs' m' fits l in
    subst (λ ys. run (suc rounds) svc millisec (get ∷ calls) q ≡ some (run_list (get ∷ calls) ys))
      m.contents (rw (got, run, later) refl)

-- A new message queue of a pool with a whole number of words in its map, and with 29 bytes or more for
-- an item, so that its blocks are 8 bytes apart: in any sequence of `osMessagePut` and `osMessageGet`
-- in which no put finds all blocks in use and no get finds the queue empty, whatever the system
-- call would do, the gets answer with the messages first in first out, and every loop ends within as
-- many rounds as there are blocks and two.
pub run-messages_in_order :
    (at words item_sz base thread_id millisec : ℕ) (next : Links) (info : ℕ → ℕ) (svc : Waiting)
    (calls : List Call)
    → words < 2 ^ 11
    → 29 ≤ item_sz
    → item_sz < 2 ^ 16
    → 0 < base
    → Fits (words * 32) calls 0
    → run
        (suc (suc (words * 32)))
        svc
        millisec
        calls
        (mail_create at (words * 32) item_sz base thread_id next info)
      ≡ some (run_list calls [])
run-messages_in_order at words item_sz base thread_id millisec next info svc calls few low high
      based fits =
    run-IsMessageQ base ((item_sz + 3) / 4) (words * 32) (suc (words * 32)) millisec svc calls
      (mail_create at (words * 32) item_sz base thread_id next info) [] []
      (mail_create-IsMessageQ at words item_sz base thread_id next info few low high based) fits
      (omega arith)
