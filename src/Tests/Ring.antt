-- ===== src/Tests/Ring.antt =====
-- The creation and the end of threads at concrete inputs.
use cmsis_rtos.Base.{ℕ, ◌≡◌, ◌<◌, false, [], ◌∷◌, some, arith, refl, if◌then◌else◌, ◌==◌}
use cmsis_rtos.Ring.{Threads, Killed, thrd_create, kill}
use cmsis_rtos.Base.Bits.{test_bit}
use cmsis_rtos.Ring.Chain.{IsRing, insert_behind, without}
use cmsis_rtos.Ring.Life.{thrd_create-IsRing, kill-IsRing}

-- "main" at 100 and the threads 200 and 300.
abbrev links : ℕ → ℕ
links p = if p == 100 then 200 else if p == 200 then 300 else 100

abbrev threads : Threads
threads = record { next = links; status = λ p. 1; sp = λ p. 0x20003B00; map = 7 }

threads-IsRing : IsRing links 100 (200 ∷ 300 ∷ [])
threads-IsRing = ((refl, (refl, refl)), (refl, (refl, (refl, tt))))

thrd_create-IsRing_example :
    IsRing (thrd_create 200 400 threads).next 100 (insert_behind 200 400 100 (200 ∷ 300 ∷ []))
    × ((thrd_create 200 400 threads).next 200 ≡ 400)
thrd_create-IsRing_example =
    thrd_create-IsRing 100 200 400 (200 ∷ 300 ∷ []) threads threads-IsRing refl refl

kill-IsRing_example :
    (k : Killed) × (kill 2 0x20004000 100 200 300 threads ≡ some k)
    × IsRing k.threads.next 100 (without 300 (200 ∷ 300 ∷ []))
    × (k.threads.status 300 ≡ 0)
    × ((i : ℕ) → i < 32 → test_bit k.threads.map i ≡ (if 1 == i then false else test_bit 7 i))
    × (k.yields ≡ (300 == 200))
kill-IsRing_example =
    kill-IsRing 2 0x20004000 100 200 300 1 256 (200 ∷ 300 ∷ []) threads threads-IsRing refl
      (omega arith) refl (omega arith) (omega arith) (omega arith) refl
