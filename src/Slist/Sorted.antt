-- ===== src/Slist/Sorted.antt =====
-- The insertion of `g_slist_insert_sorted` and the removal.
use cmsis_rtos.Base.{
  ℕ, ◌≡◌, refl, ap, Bool, Bool-cases, inl, inr, List, [], ◌∷◌, ◌++◌, ltb, ◌≤◌, arith,
}
use cmsis_rtos.Slist.{Node, slist_append, insert_sorted, insert_sorted_rest}

pub slist_append-append : (xs : List Node) (e : Node) → slist_append xs e ≡ xs ++ (e ∷ [])
unfolding slist_append
slist_append-append [] e = refl
slist_append-append (x ∷ xs) e = ap (λ l. x ∷ l) (slist_append-append xs e)

-- `g_slist_insert_sorted` by numbers keeps a sorted list sorted.
abbrev pub AllAbove : ℕ → List Node → Type 0
AllAbove v [] = Unit
AllAbove v (x ∷ xs) = (v ≤ x.value) × AllAbove v xs

abbrev pub Ascending : List Node → Type 0
Ascending [] = Unit
Ascending (x ∷ xs) = AllAbove x.value xs × Ascending xs

AllAbove-trans : (v w : ℕ) (xs : List Node) → v ≤ w → AllAbove w xs → AllAbove v xs
AllAbove-trans v w [] h all = tt
AllAbove-trans v w (x ∷ xs) h all = (omega (arith, all.0), AllAbove-trans v w xs h all.1)

abbrev pub above : ℕ → ℕ → Bool
above a b = ltb b a

rest-AllAbove :
    (v : ℕ) (xs : List Node) (e : Node)
    → v ≤ e.value
    → AllAbove v xs
    → AllAbove v (insert_sorted_rest above xs e)
unfolding insert_sorted_rest
rest-AllAbove v [] e h all = (h, tt)
rest-AllAbove v (x ∷ xs) e h all = elim (Bool-cases (above x.value e.value)) [
  | inl here ↦ rw (here, insert_sorted_rest) (h, all)
  | inr later ↦ rw (later, insert_sorted_rest) (all.0, rest-AllAbove v xs e h all.1)
]

rest-Ascending :
    (xs : List Node) (e : Node) → Ascending xs → Ascending (insert_sorted_rest above xs e)
unfolding insert_sorted_rest
rest-Ascending [] e s = (tt, tt)
rest-Ascending (x ∷ xs) e s = elim (Bool-cases (above x.value e.value)) [
  | inl here ↦
      let less : e.value ≤ x.value = ground arith in
      rw (here, insert_sorted_rest) ((less, AllAbove-trans e.value x.value xs less s.0), s)
  | inr later ↦
      let less : x.value ≤ e.value = ground arith in
      rw (later, insert_sorted_rest) (rest-AllAbove x.value xs e less s.0, rest-Ascending xs e s.1)
]

pub insert_sorted-Ascending :
    (xs : List Node) (e : Node) → Ascending xs → Ascending (insert_sorted above xs e)
unfolding insert_sorted insert_sorted_rest
insert_sorted-Ascending [] e s = (tt, tt)
insert_sorted-Ascending (x ∷ xs) e s = rest-Ascending (x ∷ xs) e s
