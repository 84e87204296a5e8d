-- ===== src/Mail/Full.antt =====
-- Calls that have to wait, when the scheduler ends the wait.
use cmsis_rtos.Base.{
  ℕ, ◌-◌, ◌*◌, ◌<◌, ◌^◌, ◌≡◌, refl, ap, ◌∙◌, inl, inr, true, false, Bool-cases, none, some, ◌==◌,
  ◌&&◌, ==→eq, arith, bit_or,
}
use cmsis_rtos.Base.Word.{add32, u32}
use cmsis_rtos.Semaphore.{enter}
use cmsis_rtos.Scheduler.{
  Event, event, Thread, Cells, has, running, timeout, semaphore, poll, poll_semaphore, event_wait,
  wait_forever,
}
use cmsis_rtos.Rtos.{kernel_wait}
use cmsis_rtos.Queue.{queue_pop}
use cmsis_rtos.Pool.{pool_free}
use cmsis_rtos.Mail.{
  MailQ, Waiting, mail, message, await_node, message_from, message_get, mail_from, mail_get,
}

-- A status with the flag of running is not that of a timeout.
not_timeout : (status : ℕ) → has status running ≡ true → (status == timeout) ≡ false
not_timeout status h = elim (Bool-cases (status == timeout)) [
  | inr other ↦ other
  | inl same ↦ let e = ==→eq status timeout same in cc (rw e at h)
]

await-ended :
    (kind millisec : ℕ) (svc : Waiting) (q : MailQ)
    → ((e : Event) (interval : ℕ) → has (svc e interval q).0.status running ≡ true)
    → ((e : Event) (interval : ℕ) → (svc e interval q).1 ≡ q)
    → await_node kind svc millisec q ≡ (none, q)
unfolding await_node
await-ended kind millisec svc q ends same =
    let asked = event (bit_or kind timeout) (add32 q.at 4) in
    let interval = u32 (millisec * 1000) in
    elim (Bool-cases ((q.queue.head == 0) && (q.queue.tail == 0))) [
      | inl empty ↦
          rw
            (
              empty,
              not_timeout (svc asked interval q).0.status (ends asked interval),
              same asked interval,
            )
            refl
      | inr busy ↦ rw busy refl
    ]

-- On an empty queue, when the scheduler ends the wait, with the flag of running as it always does, and
-- no message has come: `osMessageGet` still answers that there is a message, the word that stands at
-- the field `info` behind NULL, and `osMailGet` that there is a mail, at NULL.
pub get_empty :
    (rounds millisec : ℕ) (svc : Waiting) (q : MailQ)
    → q.queue.head ≡ 0
    → q.queue.tail ≡ 0
    → ((e : Event) (interval : ℕ) → has (svc e interval q).0.status running ≡ true)
    → ((e : Event) (interval : ℕ) → (svc e interval q).1 ≡ q)
    → ((q' : MailQ) × (message_get rounds svc millisec q ≡ some (event message (q.info 0), q')))
      × (mail_get rounds svc millisec q ≡ some (event mail 0, q))
unfolding message_get message_from mail_get mail_from queue_pop
get_empty rounds millisec svc q head tail ends same =
    let no_head : (q.queue.head == 0) ≡ true = ground (arith, head) in
    let no_tail : (q.queue.tail == 0) ≡ true = ground (arith, tail) in
    let message_lem = ap (message_from rounds) (await-ended message millisec svc q ends same) in
    let mail_lem = ap (mail_from rounds) (await-ended mail millisec svc q ends same) in
    (
      (
        record q { pool = (pool_free q.pool 0).1 },
        message_lem ∙ rw (no_head, no_tail, queue_pop, message_from) refl,
      ),
      mail_lem ∙ rw (no_head, no_tail, queue_pop, mail_from) refl,
    )

-- A wait for a free block, as `osMessagePut` and `osMailAlloc` make it, names the pointer to the pool as
-- the semaphore: on an address below 2 ^ 31 the scheduler ends the wait at once as if it had got a
-- token, and takes one off the pointer.
pub wait_moves_pool :
    (start now at interval : ℕ) (t : Thread) (m : Cells)
    → 0 < m (add32 at 8)
    → m (add32 at 8) < 2 ^ 31
    → let r =
        kernel_wait start now
          (λ c. c)
          t
          (event (bit_or semaphore timeout) (add32 at 8))
          interval
          m in
      (r.0.status ≡ bit_or semaphore running) × (r.1 (add32 at 8) ≡ m (add32 at 8) - 1)
unfolding kernel_wait poll poll_semaphore event_wait enter
wait_moves_pool start now at interval t m pos small = elim (Bool-cases (interval == wait_forever)) [
  | inl forever ↦ rw forever (ground arith)
  | inr until ↦ rw until (ground arith)
]
