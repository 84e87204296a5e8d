-- ===== src/Mail/Cycle.antt =====
-- The way of a mail: it is allocated, put, got and freed.
use cmsis_rtos.Base.{
  ℕ, suc, ◌+◌, ◌*◌, ◌<◌, ◌^◌, ◌≡◌, refl, ap, ap₂, ◌∙◌, inl, inr, false, some, [], ◌==◌, ◌&&◌, arith,
}
use cmsis_rtos.Base.Word.{add32, sub32}
use cmsis_rtos.Scheduler.{event}
use cmsis_rtos.Queue.{Queue, queue_push}
use cmsis_rtos.Queue.Fifo.{Holds, queue_push-Holds, queue_pop-Holds}
use cmsis_rtos.Pool.{Pool, pool_free, error_resource}
use cmsis_rtos.Pool.Maps.{used, IsPool, pool_alloc-Taken}
use cmsis_rtos.Pool.Cycle.{alloc_then_free}
use cmsis_rtos.Mail.{
  MailQ, Waiting, mail, take_block, mail_alloc, mail_put, mail_from, mail_get, mail_free,
}
use cmsis_rtos.Mail.Flow.{await-busy}

empty-Holds : (q : Queue) → q.head ≡ 0 → q.tail ≡ 0 → Holds q []
empty-Holds q head tail = record {
  front = [];
  back = [];
  order = refl;
  front_segment = head;
  back_segment = tail;
  front_distinct = tt;
  back_distinct = tt;
  apart = λ a mem. refl;
}

-- The one node of a queue is got.
get_pushed :
    (rounds millisec block : ℕ) (svc : Waiting) (q : MailQ)
    → q.queue.head ≡ 0
    → q.queue.tail ≡ 0
    → 0 < block
    → (q' : MailQ) × (mail_get
          (suc (suc rounds))
          svc
          millisec
          (record q { queue = queue_push block q.queue })
        ≡ some (event mail (add32 block 4), q'))
      × (q'.pool ≡ q.pool)
unfolding queue_push mail_get mail_from
get_pushed rounds millisec block svc q head tail above =
    let some_block : (block == 0) ≡ false = ground (arith, above) in
    let pushed =
      queue_push-Holds block (empty-Holds q.queue head tail) (λ e. absurd (omega (arith, above)))
        refl in
    let (queue, popped, _) = queue_pop-Holds (suc (suc rounds)) pushed (omega arith) in
    let q2 = record q { queue = queue_push block q.queue } in
    let busy : ((q2.queue.head == 0) && (q2.queue.tail == 0)) ≡ false =
      ground (arith, some_block) in
    (
      record q { queue = queue },
      ap (mail_from (suc (suc rounds))) (await-busy mail millisec svc q2 busy)
          ∙ rw (popped, mail_from, some_block) refl,
      refl,
    )

free_at :
    (q : MailQ) (p : Pool) (mem block : ℕ)
    → q.pool ≡ p
    → sub32 mem 4 ≡ block
    → ((mail_free mem q).0 ≡ (pool_free p block).0)
      × ((mail_free mem q).1.pool ≡ (pool_free p block).1)
unfolding mail_free
free_at q p mem block same at =
    (ap₂ (λ r b. (pool_free r b).0) same at, ap₂ (λ r b. (pool_free r b).1) same at)

-- On an empty queue with a free block in its pool, which has a word of the map for every 32 blocks, fills
-- its map, and has blocks of some size above NULL and below 2 ^ 32: the mail that
-- `osMailAlloc` gives, when it is put, is the one that the next `osMailGet` answers with; and when it is
-- freed, the blocks in use are those of before, with the status `osErrorResource`.
pub mail_cycle :
    (rounds millisec free : ℕ) (svc : Waiting) (q : MailQ)
    → IsPool q.pool
    → q.pool.size ≡ q.pool.maps * 32
    → 0 < q.pool.item_aligned_size
    → 0 < q.pool.base
    → ((k : ℕ) → k < q.pool.size → q.pool.base + k * q.pool.item_aligned_size + 4 < 2 ^ 32)
    → q.queue.head ≡ 0
    → q.queue.tail ≡ 0
    → free < q.pool.maps * 32
    → used q.pool free ≡ false
    → (mem : ℕ) × (q1 q3 : MailQ) × (mail_alloc (suc rounds) svc millisec q ≡ some (mem, q1))
      × (mail_get (suc (suc rounds)) svc millisec (mail_put mem q1).1 ≡ some (event mail mem, q3))
      × ((mail_free mem q3).0 ≡ error_resource)
      × ((j : ℕ) → used (mail_free mem q3).1.pool j ≡ used q.pool j)
unfolding mail_alloc take_block mail_put
mail_cycle rounds millisec free svc q pool whole item based below head tail inside unused =
    elim (pool_alloc-Taken q.pool pool) [
      | inr (lost, all) ↦ cc (all free inside, unused)
      | inl t ↦
          let block = q.pool.base + t.number * q.pool.item_aligned_size in
          let within : t.number < q.pool.size = omega (arith, t.within, whole) in
          let fits = below t.number within in
          let some_block : (block == 0) ≡ false = ground (arith, based) in
          let back : sub32 (add32 block 4) 4 ≡ block = omega (arith, fits) in
          let q1 = record q { pool = t.after } in
          let (q3, got, same) =
            get_pushed rounds millisec block svc q1 head tail (omega (arith, based)) in
          let puts : (mail_put (add32 block 4) q1).1
              ≡ record q1 { queue = queue_push block q.queue } =
            ap (λ b. record q1 { queue = queue_push b q.queue }) back in
          let freed = free_at q3 t.after (add32 block 4) block same back in
          let (status, blocks) = alloc_then_free q.pool pool (omega (arith, whole)) item t within in
          (
            add32 block 4,
            q1,
            q3,
            rw (t.returns, some_block, take_block, mail_alloc) refl,
            ap (mail_get (suc (suc rounds)) svc millisec) puts ∙ got,
            freed.0 ∙ status,
            λ j. ap (λ p. used p j) freed.1 ∙ blocks j,
          )
    ]
