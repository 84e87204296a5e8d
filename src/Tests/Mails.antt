-- ===== src/Tests/Mails.antt =====
-- message.c and mail.c at concrete inputs.
use cmsis_rtos.Base.{ℕ, ◌≡◌, refl, List, [], ◌∷◌, some, arith}
use cmsis_rtos.Queue.{queue_init}
use cmsis_rtos.Scheduler.{event}
use cmsis_rtos.Pool.{pool_create, error_resource}
use cmsis_rtos.Pool.Maps.{used}
use cmsis_rtos.Pool.Cycle.{pool_create-IsPool}
use cmsis_rtos.Mail.{
  MailQ, Waiting, mail, message, mail_create, message_get, mail_alloc, mail_put, mail_get,
  mail_free,
}
use cmsis_rtos.Mail.Flow.{Call, put, get, run, run_list, run-messages_in_order}
use cmsis_rtos.Mail.Full.{get_empty}
use cmsis_rtos.Mail.Cycle.{mail_cycle}

-- 32 blocks of 8 bytes from 1000 on.
abbrev box : MailQ
box = mail_create 100 32 32 1000 7 (λ p. 0) (λ p. 55)

abbrev timed_out : Waiting
timed_out e interval q = (event 0x41 0, q)

abbrev calls : List Call
calls = put 7 ∷ put 8 ∷ get ∷ put 9 ∷ get ∷ get ∷ []

in_order : run_list calls [] ≡ 7 ∷ 8 ∷ 9 ∷ []
unfolding run_list
in_order = refl

run-messages_in_order_example : run 34 timed_out 5 calls box ≡ some (run_list calls [])
run-messages_in_order_example =
    run-messages_in_order 100 1 32 1000 7 5 (λ p. 0) (λ p. 55) timed_out calls (omega arith)
      (omega arith) (omega arith) (omega arith) (omega arith, (omega arith, (omega arith, tt)))

get_empty_example :
    ((q' : MailQ) × (message_get 2 timed_out 5 box ≡ some (event message 55, q')))
    × (mail_get 2 timed_out 5 box ≡ some (event mail 0, box))
unfolding mail_create queue_init
get_empty_example = get_empty 2 5 timed_out box refl refl (λ e interval. refl) (λ e interval. refl)

mail_cycle_example :
    (mem : ℕ) × (q1 q3 : MailQ) × (mail_alloc 2 timed_out 5 box ≡ some (mem, q1))
    × (mail_get 3 timed_out 5 (mail_put mem q1).1 ≡ some (event mail mem, q3))
    × ((mail_free mem q3).0 ≡ error_resource)
    × ((j : ℕ) → used (mail_free mem q3).1.pool j ≡ used box.pool j)
unfolding mail_create queue_init pool_create
mail_cycle_example =
    mail_cycle 1 5 3 timed_out box (pool_create-IsPool 32 32 1000 (omega arith)).0 refl
      (omega arith) (omega arith) (λ k below. omega (arith, below)) refl refl (omega arith)
      ((pool_create-IsPool 32 32 1000 (omega arith)).4 3)
