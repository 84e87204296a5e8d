-- ===== src/Search/Bisection.antt =====
-- What the bisection finds.
use cmsis_rtos.Base.{
  ℕ, zero, suc, ◌+◌, ◌-◌, ◌/◌, ◌≤◌, ◌<◌, ◌≡◌, ◌≢◌, refl, Bool-cases, inl, inr, ◌⊎◌, Option, none,
  some, ltb, arith,
}
use cmsis_rtos.Search.{Sign, bisect}
use Sign.{negative, nothing, positive}

-- The comparison fits elements in ascending order: below an element that the key is above, the key
-- is above all, and above an element that the key is below, it is below all.
pub record IsOrdered (cmp : ℕ → Sign) : Type 0 where
  pub below : (i j : ℕ) → i ≤ j → cmp i ≡ negative → cmp j ≡ negative
  pub above : (i j : ℕ) → i ≤ j → cmp j ≡ positive → cmp i ≡ positive

-- Between `l` and `u` an element equal to the key was found, or there is none.
abbrev pub Answer : (ℕ → Sign) → ℕ → ℕ → Option ℕ → Type 0
Answer cmp l u (some i) = (l ≤ i) × (i < u) × (cmp i ≡ nothing)
Answer cmp l u none = (i : ℕ) → l ≤ i → i < u → cmp i ≢ nothing

pub Sign-cases : (s : Sign) → (s ≡ negative) ⊎ (s ≡ positive) ⊎ (s ≡ nothing)
Sign-cases negative = inl refl
Sign-cases positive = inr (inl refl)
Sign-cases nothing = inr (inr refl)

wider_below :
    (cmp : ℕ → Sign) (l mid u : ℕ) (answer : Option ℕ)
    → IsOrdered cmp
    → mid < u
    → cmp mid ≡ negative
    → Answer cmp l mid answer
    → Answer cmp l u answer
wider_below cmp l mid u (some i) o h e a = (a.0, omega (arith, a.1), a.2)
wider_below cmp l mid u none o h e a = λ i above within found. elim (Bool-cases (ltb i mid)) [
  | inl left ↦ a i above (ground arith) found
  | inr right ↦ cc (o.below mid i (ground arith) e, found)
]

wider_above :
    (cmp : ℕ → Sign) (l mid u : ℕ) (answer : Option ℕ)
    → IsOrdered cmp
    → l ≤ mid
    → cmp mid ≡ positive
    → Answer cmp (mid + 1) u answer
    → Answer cmp l u answer
wider_above cmp l mid u (some i) o h e a = (omega (arith, a.0), a.1, a.2)
wider_above cmp l mid u none o h e a = λ i above within found. elim (Bool-cases (ltb mid i)) [
  | inl right ↦ a i (ground arith) within found
  | inr left ↦ cc (o.above i mid (ground arith) e, found)
]

-- For elements in ascending order, with more rounds than there are elements, the loop ends: with the
-- index of an element that is equal to the key, or with NULL when there is no such element.
pub bisect-Answer :
    (cmp : ℕ → Sign) (rounds l u : ℕ)
    → IsOrdered cmp
    → u - l < rounds
    → (answer : Option ℕ) × (bisect cmp rounds l u ≡ some answer) × Answer cmp l u answer
unfolding bisect
bisect-Answer cmp zero l u o h = absurd (omega arith)
bisect-Answer cmp (suc rounds) l u o h = elim (Bool-cases (ltb l u)) [
  | inr ended ↦ (none, rw (ended, bisect) refl, λ i above within found. ground arith)
  | inl more ↦
      let inside : l < u = ground arith in
      elim (Sign-cases (cmp ((l + u) / 2))) [
        | inl lower ↦
            let (answer, returns, a) = bisect-Answer cmp rounds l ((l + u) / 2) o (omega arith) in
            (
              answer,
              rw (more, lower, bisect) returns,
              wider_below cmp l ((l + u) / 2) u answer o (omega arith) lower a,
            )
        | inr (inl upper) ↦
            let (answer, returns, a) =
              bisect-Answer cmp rounds ((l + u) / 2 + 1) u o (omega arith) in
            (
              answer,
              rw (more, upper, bisect) returns,
              wider_above cmp l ((l + u) / 2) u answer o (omega arith) upper a,
            )
        | inr (inr found) ↦
            (some ((l + u) / 2), rw (more, found, bisect) refl, (omega arith, omega arith, found))
      ]
]
