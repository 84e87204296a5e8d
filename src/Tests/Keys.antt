-- ===== src/Tests/Keys.antt =====
-- The keys of a thread at concrete inputs.
use cmsis_rtos.Base.{◌≡◌, [], ◌∷◌, refl}
use cmsis_rtos.Tss.{Tss, tss_create, tss_set}
use cmsis_rtos.Tss.Destroyed.{due}

abbrev fresh : Tss
fresh = record { value = λ k. 0; dtor = λ k. 0; keys = λ t. [] }

-- Thread 1 makes the keys 100, 104 and 108, of which 104 has no value.
abbrev used : Tss
used =
    tss_set 108 7
      (tss_set 100 5 (tss_create 1 108 33 (tss_create 1 104 22 (tss_create 1 100 11 fresh))))

newest_first : due (used.keys 1) used ≡ (33, 7) ∷ (11, 5) ∷ []
unfolding tss_set tss_create
newest_first = refl
