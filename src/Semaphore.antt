-- ===== src/Semaphore.antt =====
-- semaphore.h over atomic.h: the counting semaphore under every blocking object of the system.
-- A `volatile int` is kept as its bit pattern, a number below 2 ^ 32.
pub mod Atomic
pub mod Tokens
use cmsis_rtos.Base.{ℕ, Bool, List, [], ◌∷◌, ◌==◌, if◌then◌else◌, ◌<◌, ltb, ◌&&◌, ◌^◌}
use cmsis_rtos.Base.Word.{add32, sub32}

-- What an operation returns, and what the cell holds after it.
pub record Result : Type 0 where
  pub count : ℕ
  pub cell : ℕ

abbrev pub result : ℕ → ℕ → Result
result n c = record { count = n; cell = c }

-- An `int` above zero.
abbrev pub is_positive : ℕ → Bool
is_positive n = ltb 0 n && ltb n (2 ^ 31)

-- `semaphore_init`
unfoldable pub init : ℕ → ℕ
init count = count

-- One round of `semaphore_enter` that reads `value` and whose store succeeds.
unfoldable pub enter : ℕ → Result
enter value = if value == 0 then result 0 value else result value (sub32 value 1)

-- The loop of `semaphore_enter`. The list holds what is read by the rounds whose exclusive store
-- fails since another writer came between; a zero ends the loop in any round.
unfoldable pub enter_loop : List ℕ → ℕ → Result
enter_loop [] value = enter value
enter_loop (seen ∷ rounds) value =
    let rest = enter_loop rounds value in if seen == 0 then result 0 seen else rest

-- The loop of `atomic_fetch_add`, the same way.
unfoldable pub fetch_add_loop : List ℕ → ℕ → ℕ → Result
fetch_add_loop [] value operand = result value (add32 value operand)
fetch_add_loop (seen ∷ rounds) value operand = fetch_add_loop rounds value operand

-- `semaphore_leave`, a `atomic_fetch_add` of 1.
unfoldable pub leave : ℕ → Result
leave value = fetch_add_loop [] value 1
