-- ===== src/Semaphore/Atomic.antt =====
-- The exclusive load and store loops act in one instant, whatever comes between their rounds.
use cmsis_rtos.Base.{contains, ℕ, ◌≡◌, refl, true, false, List, [], ◌∷◌, arith, ◌==◌}
use cmsis_rtos.Base.{inl, inr, Bool-cases}
use cmsis_rtos.Semaphore.{result, enter, enter_loop}

-- `semaphore_enter` with any number of failed exclusive stores: when one of those rounds reads 0, the
-- count is 0 and the cell is left at 0; otherwise the loop does what a single undisturbed round does
-- at the value of the round whose store succeeds, and at no value that was read before.
pub enter_loop-enter :
    (rounds : List ℕ) (value : ℕ)
    → (contains 0 rounds ≡ true → enter_loop rounds value ≡ result 0 0)
      × (contains 0 rounds ≡ false → enter_loop rounds value ≡ enter value)
unfolding enter_loop
enter_loop-enter [] value = (λ e. cc, λ e. refl)
enter_loop-enter (seen ∷ rounds) value =
    let (zero_read, none_read) = enter_loop-enter rounds value in
    elim (Bool-cases (seen == 0)) [
      | inl e ↦ (λ h. rw (e, enter_loop) (ground arith), λ h. absurd (ground (arith, e, h)))
      | inr e ↦ (
        λ h. rw (e, enter_loop) (zero_read (ground (arith, e, h))),
        λ h. rw (e, enter_loop) (none_read (ground (arith, e, h))),
      )
    ]
