-- ===== src/MessageQueue/Flow.antt =====
-- The counters, the lists and the blocks of a message queue, over any number of its operations.
use cmsis_rtos.Base.{
  ℕ, suc, ◌+◌, ◌^◌, ◌<◌, ◌≡◌, ◌≢◌, refl, ap, sym, subst, Bool-cases, inl, inr, false, List, [], ◌∷◌,
  ◌++◌, append_assoc, length, length-append, contains, contains-append, Distinct, some, ◌==◌, leb,
  arith,
}
use cmsis_rtos.Base.Word.{add32, sub32, u32}
use cmsis_rtos.Semaphore.{init, enter, leave, fetch_add_loop}
use cmsis_rtos.MemoryPool.{MemoryPool, memory_pool_alloc, memory_pool_free, memory_pool_get_space}
use cmsis_rtos.MemoryPool.Blocks.{
  Shares, Distinct-in, Distinct-out, memory_pool_alloc-Shares, memory_pool_free-Shares,
  memory_pool_new-Shares,
}
use cmsis_rtos.MessageQueue.{
  Message, message, MessageQueue, copy, insert, sort_in, message_queue_new, message_queue_get,
  message_queue_put, message_queue_get_count, message_queue_get_space,
}
use cmsis_rtos.MessageQueue.Order.{Sorted, Delivered, deliver-Delivered, length-sort_in}

-- The blocks of the messages.
abbrev pub nodes : List Message → List ℕ
nodes [] = []
nodes (m ∷ ms) = m.node ∷ nodes ms

nodes-append : (xs ys : List Message) → nodes (xs ++ ys) ≡ nodes xs ++ nodes ys
nodes-append [] ys = refl
nodes-append (x ∷ xs) ys = ap (λ l. x.node ∷ l) (nodes-append xs ys)

length-nodes : (xs : List Message) → length (nodes xs) ≡ length xs
length-nodes [] = refl
length-nodes (x ∷ xs) = ap suc (length-nodes xs)

-- Two neighbours change places.
Distinct-swap :
    (a b : ℕ) (xs ys : List ℕ) → Distinct (xs ++ (a ∷ b ∷ ys)) → Distinct (xs ++ (b ∷ a ∷ ys))
Distinct-swap a b [] ys d = (ground (arith, d.0, d.1.0), (ground (arith, d.0), d.1.1))
Distinct-swap a b (x ∷ xs) ys d = (
  ground (arith, d.0, contains-append x xs (a ∷ b ∷ ys), contains-append x xs (b ∷ a ∷ ys)),
  Distinct-swap a b xs ys d.1,
)

insert-Distinct :
    (m : Message) (xs : List Message) (before : List ℕ)
    → Distinct (before ++ (m.node ∷ nodes xs))
    → Distinct (before ++ nodes (insert m xs))
unfolding insert
insert-Distinct m [] before d = d
insert-Distinct m (x ∷ xs) before d =
    elim (Bool-cases (leb m.prio x.prio)) as (λ _. Distinct (before ++ nodes (insert m (x ∷ xs)))) [
      | inl behind ↦
          let swapped = Distinct-swap m.node x.node before (nodes xs) d in
          let moved =
            subst Distinct (sym (append_assoc before (x.node ∷ []) (m.node ∷ nodes xs))) swapped in
          rw (behind, insert)
            (subst Distinct (append_assoc before (x.node ∷ []) (nodes (insert m xs)))
              (insert-Distinct m xs (before ++ (x.node ∷ [])) moved))
      | inr ahead ↦ rw (ahead, insert) d
    ]

sort_in-Distinct :
    (ms head : List Message) (before : List ℕ)
    → Distinct (before ++ (nodes ms ++ nodes head))
    → Distinct (before ++ nodes (sort_in ms head))
unfolding sort_in
sort_in-Distinct [] head before d = d
sort_in-Distinct (m ∷ ms) head before d =
    let out = Distinct-out m.node before (nodes ms ++ nodes head) d in
    let out' : (contains m.node ((before ++ nodes ms) ++ nodes head) ≡ false)
        × Distinct ((before ++ nodes ms) ++ nodes head) =
      (
        subst (λ l. contains m.node l ≡ false) (sym (append_assoc before (nodes ms) (nodes head)))
            out.0,
        subst Distinct (sym (append_assoc before (nodes ms) (nodes head))) out.1,
      ) in
    let inner = Distinct-in m.node (before ++ nodes ms) (nodes head) out'.0 out'.1 in
    sort_in-Distinct ms (insert m head) before (
      subst Distinct (append_assoc before (nodes ms) (nodes (insert m head)))
        (insert-Distinct m head (before ++ nodes ms) inner))

length-held : (xs ys : List Message) → length (nodes xs ++ nodes ys) ≡ length xs + length ys
length-held xs ys =
    omega (arith, length-append (nodes xs) (nodes ys), length-nodes xs, length-nodes ys)

-- The counter of messages is the number of messages, those the receiver has sorted are sorted, and
-- the blocks of the pool are shared between the pool and the messages, `total` in number.
pub record IsQueue (q : MessageQueue) (total : ℕ) : Type 0 where
  pub counted : q.count ≡ length q.tail + length q.head
  pub sorted : Sorted q.head
  pub shares : Shares q.pool (nodes q.tail ++ nodes q.head) total

-- The queue with a message in the block that the pool gave.
sent : List ℕ → ℕ → ℕ → MemoryPool → MessageQueue → MessageQueue
sent bytes prio block p q = record q {
  count = add32 q.count 1;
  pool = p;
  tail = message block prio (copy q.msg_size bytes) ∷ q.tail;
}

message_queue_put-sent :
    (svc : MessageQueue → ℕ × MessageQueue) (bytes : List ℕ) (prio block : ℕ) (p : MemoryPool)
    (q : MessageQueue)
    → q.pool.count ≢ 0
    → memory_pool_alloc
        (λ p. ((svc (record q { pool = p })).0, (svc (record q { pool = p })).1.pool))
        q.pool
      ≡ (some block, p)
    → message_queue_put svc bytes prio q ≡ (0, sent bytes prio block p q)
unfolding message_queue_put leave fetch_add_loop sent
message_queue_put-sent svc bytes prio block p q ne e =
    let busy : (q.pool.count == 0) ≡ false = ground arith in
    rw (e, busy, message_queue_put) (ap (λ r. (0, sent bytes prio block r.1 q)) e)

-- `osMessageQueuePut` with a block left succeeds without a wait: the message, with its priority and
-- its first `msg_size` bytes, stands before those sent before.
pub message_queue_put-IsQueue :
    (svc : MessageQueue → ℕ × MessageQueue) (bytes : List ℕ) (prio total : ℕ) (q : MessageQueue)
    → IsQueue q total
    → total < 2 ^ 32
    → q.pool.count ≢ 0
    → let r = message_queue_put svc bytes prio q in
      (r.0 ≡ 0)
      × IsQueue r.1 total
      × ((node : ℕ) × (r.1.tail ≡ message node prio (copy q.msg_size bytes) ∷ q.tail))
      × (r.1.head ≡ q.head)
unfolding sent
message_queue_put-IsQueue svc bytes prio total q w l ne =
    let (block, p', returns, _, shares) =
      memory_pool_alloc-Shares
        (λ p. ((svc (record q { pool = p })).0, (svc (record q { pool = p })).1.pool)) q.pool
        (nodes q.tail ++ nodes q.head) total w.shares l ne in
    let held = length-held q.tail q.head in
    let bound : length q.tail + length q.head < total =
      omega (arith, ne, w.shares.counted, w.shares.sum, held) in
    rw (message_queue_put-sent svc bytes prio block p' q ne returns, sent)
      (
        refl,
        record { counted = omega (arith, w.counted, bound); sorted = w.sorted; shares = shares },
        (block, refl),
        refl,
      )

-- The blocks after a delivery.
deliver-Shares :
    (q : MessageQueue) (total : ℕ) (first : Message) (rest : List Message)
    → Shares q.pool (nodes q.tail ++ nodes q.head) total
    → total < 2 ^ 32
    → sort_in q.tail q.head ≡ first ∷ rest
    → Shares (memory_pool_free first.node q.pool).1 (nodes rest) total
deliver-Shares q total first rest h l e =
    memory_pool_free-Shares q.pool [] (nodes rest) first.node total
      (record {
        counted = h.counted;
        distinct =
            subst (λ ms. Distinct (q.pool.free ++ nodes ms)) e
              (sort_in-Distinct q.tail q.head q.pool.free h.distinct);
        sum = omega (
          arith,
          h.sum,
          length-held q.tail q.head,
          length-nodes rest,
          ap length e,
          length-sort_in q.tail q.head,
        );
      })
      l

-- `osMessageQueueGet` with a message there does not wait and delivers one of highest priority.
pub message_queue_get-IsQueue :
    (svc : MessageQueue → ℕ × MessageQueue) (total : ℕ) (q : MessageQueue)
    → IsQueue q total
    → total < 2 ^ 32
    → q.count ≢ 0
    → Delivered (record q { count = sub32 q.count 1 }) (message_queue_get svc q)
      × IsQueue (message_queue_get svc q).1 total
unfolding message_queue_get enter
message_queue_get-IsQueue svc total q w l ne =
    let busy : (q.count == 0) ≡ false = ground arith in
    let d =
      deliver-Delivered (record q { count = sub32 q.count 1 }) w.sorted
        (omega (arith, ne, w.counted)) in
    rw (busy, message_queue_get, enter, busy)
      (
        d,
        rw d.returns (record {
          counted = omega (
            arith,
            ne,
            w.counted,
            ap length d.order,
            length-sort_in q.tail q.head,
            w.shares.sum,
            length-held q.tail q.head,
          );
          sorted = d.sorted;
          shares = deliver-Shares q total d.first d.rest w.shares l d.order;
        }),
      )

-- The operations that do not wait.
pub data Step (q : MessageQueue) : MessageQueue → Type 0 where
  put :
      (svc : MessageQueue → ℕ × MessageQueue) (bytes : List ℕ) (prio : ℕ)
      → q.pool.count ≢ 0
      → Step q (message_queue_put svc bytes prio q).1
  get : (svc : MessageQueue → ℕ × MessageQueue) → q.count ≢ 0 → Step q (message_queue_get svc q).1

pub data Reach (q : MessageQueue) : MessageQueue → Type 0 where
  start : Reach q q
  next : {r s : MessageQueue} → Reach q r → Step r s → Reach q s

Reach-IsQueue :
    {q r : MessageQueue} (total : ℕ)
    → total < 2 ^ 32
    → Reach q r
    → IsQueue q total
    → IsQueue r total
Reach-IsQueue total l Reach.start w = w
Reach-IsQueue total l (Reach.next {r = r} x (Step.put svc bytes prio ne)) w =
    (message_queue_put-IsQueue svc bytes prio total r (Reach-IsQueue total l x w) l ne).1
Reach-IsQueue total l (Reach.next {r = r} x (Step.get svc ne)) w =
    (message_queue_get-IsQueue svc total r (Reach-IsQueue total l x w) l ne).1

message_queue_new-IsQueue :
    (n msg_size base : ℕ)
    → 0 < n
    → n < 2 ^ 32
    → msg_size + 11 < 2 ^ 32
    → IsQueue (message_queue_new n msg_size base) n
unfolding message_queue_new init
message_queue_new-IsQueue n msg_size base pos l size = record {
  counted = omega arith;
  sorted = tt;
  shares = memory_pool_new-Shares n (u32 (msg_size + 8)) base pos l (omega arith) (omega arith);
}

-- Over any sequence of operations that do not wait, from a new queue of `n` messages, the count is
-- the number of messages, and with the space it makes up `n`.
pub message_queue_runs :
    (n msg_size base : ℕ) {q : MessageQueue}
    → 0 < n
    → n < 2 ^ 32
    → msg_size + 11 < 2 ^ 32
    → Reach (message_queue_new n msg_size base) q
    → (message_queue_get_count q ≡ length q.tail + length q.head)
      × (message_queue_get_count q + message_queue_get_space q ≡ n)
unfolding message_queue_get_count message_queue_get_space memory_pool_get_space
message_queue_runs n msg_size base {q} pos l size r =
    let w = Reach-IsQueue n l r (message_queue_new-IsQueue n msg_size base pos l size) in
    (w.counted, omega (arith, w.counted, w.shares.counted, w.shares.sum, length-held q.tail q.head))

-- After any sequence of puts and gets that do not wait, from a new queue on, when the count is not 0,
-- `osMessageQueueGet` does not wait: it takes one off the count, delivers a message of highest
-- priority, and keeps exactly the other messages.
pub message_queue_get_runs :
    (svc : MessageQueue → ℕ × MessageQueue) (n msg_size base : ℕ) {q : MessageQueue}
    → 0 < n
    → n < 2 ^ 32
    → msg_size + 11 < 2 ^ 32
    → Reach (message_queue_new n msg_size base) q
    → q.count ≢ 0
    → Delivered (record q { count = sub32 q.count 1 }) (message_queue_get svc q)
message_queue_get_runs svc n msg_size base {q} pos l size r ne =
    let w = Reach-IsQueue n l r (message_queue_new-IsQueue n msg_size base pos l size) in
    (message_queue_get-IsQueue svc n q w l ne).0
