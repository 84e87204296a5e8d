-- ===== src/Tree/Settled.antt =====
-- The balancing of one node whose counts are exact: `tree_balance_`.
use cmsis_rtos.Base.{
  ℕ, ◌^◌, ◌<◌, ◌≡◌, refl, ap, ◌∙◌, inl, inr, Bool-cases, arith, Option, none, some, if◌then◌else◌,
}
use cmsis_rtos.Tree.{Tree, leaf, node, Entry}
use cmsis_rtos.Tree.Rotation.{
  ◌>>=◌, is_negative, is_positive, below_minus_one, above_one, entry_balance, depth, balance,
  tree_rotate_left, tree_rotate_right,
}
use cmsis_rtos.Tree.Balance.{settle, settle_left, settle_right}
use cmsis_rtos.Tree.Arranged.{
  size, Exact, Arranged, right_Arranged, left_Arranged, left_heavy, right_heavy, size-leaf, in_prev,
  in_next, Arranged-refl, Arranged-trans, first_left, first_right,
}

bind_assoc :
    {A B C : Type 0} (m : Option A) (f : A → Option B) (g : B → Option C)
    → (m >>= λ a. f a >>= g) ≡ ((m >>= f) >>= g)
bind_assoc none f g = refl
bind_assoc (some a) f g = refl

settle_right-Arranged :
    (l : Tree) (n : Entry) (r : Tree)
    → Exact (node l n r)
    → size (node l n r) < 2 ^ 15
    → 0 < size l
    → (t' : Tree) × (settle_right l n r ≡ some t') × Arranged (node l n r) t'
unfolding settle_right
settle_right-Arranged l n r e h more =
    let (l', first, a) = first_left l e.2 (omega arith) more in
    let b = in_prev l l' n r e a in
    let (t', second, c) =
      right_Arranged l' n r b.exact (omega (arith, h, b.same_size))
        (size-leaf l' (omega (arith, more, a.same_size))) in
    (
      t',
      bind_assoc (balance l) (λ b. if is_positive b then tree_rotate_left l else some l)
            (λ l'. tree_rotate_right (node l' n r))
          ∙ rw first second,
      Arranged-trans (node l n r) (node l' n r) t' b c,
    )

settle_left-Arranged :
    (l : Tree) (n : Entry) (r : Tree)
    → Exact (node l n r)
    → size (node l n r) < 2 ^ 15
    → 0 < size r
    → (t' : Tree) × (settle_left l n r ≡ some t') × Arranged (node l n r) t'
unfolding settle_left
settle_left-Arranged l n r e h more =
    let (r', first, a) = first_right r e.3 (omega arith) more in
    let b = in_next l n r r' e a in
    let (t', second, c) =
      left_Arranged l n r' b.exact (omega (arith, h, b.same_size))
        (size-leaf r' (omega (arith, more, a.same_size))) in
    (
      t',
      bind_assoc (balance r) (λ b. if is_negative b then tree_rotate_right r else some r)
            (λ r'. tree_rotate_left (node l n r'))
          ∙ rw first second,
      Arranged-trans (node l n r) (node l n r') t' b c,
    )

depth-size : (t : Tree) → Exact t → size t < 2 ^ 15 → 0 < size t → depth t ≡ some (size t)
unfolding depth
depth-size leaf e h more = absurd (omega arith)
depth-size (node l n r) e h more = ap some (omega (arith, e))

-- The result of a step is there, with the number of its nodes.
abbrev pub Settles : Tree → Option (Tree × ℕ) → Type 0
Settles t result = (t' : Tree) × (result ≡ some (t', size t)) × Arranged t t'

finish :
    (t : Tree) (step : Option Tree) (t' : Tree)
    → step ≡ some t'
    → Arranged t t'
    → size t < 2 ^ 15
    → 0 < size t
    → Settles t (step >>= λ u. depth u >>= λ d. some (u, d))
finish t step t' returns a h more = (
  t',
  rw
      (
        returns,
        depth-size t' a.exact (omega (arith, h, a.same_size)) (omega (arith, more, a.same_size)),
        a.same_size,
      )
      refl,
  a,
)

pub settle-Settles :
    (l : Tree) (n : Entry) (r : Tree)
    → Exact (node l n r)
    → size (node l n r) < 2 ^ 15
    → Settles (node l n r) (settle (node l n r))
unfolding settle
settle-Settles l n r e h = elim (Bool-cases (below_minus_one (entry_balance n))) [
  | inl left ↦
      let more = left_heavy n (omega (arith, e)) (omega (arith, e)) left in
      let (t', returns, a) = settle_right-Arranged l n r e h (omega (arith, e, more)) in
      rw left (finish (node l n r) (settle_right l n r) t' returns a h (omega arith))
  | inr even ↦ elim (Bool-cases (above_one (entry_balance n))) [
    | inl right ↦
        let more = right_heavy n (omega (arith, e)) (omega (arith, e)) right in
        let (t', returns, a) = settle_left-Arranged l n r e h (omega (arith, e, more)) in
        rw (even, right) (finish (node l n r) (settle_left l n r) t' returns a h (omega arith))
    | inr balanced ↦
        rw (even, balanced)
          (finish (node l n r) (some (node l n r)) (node l n r) refl (Arranged-refl (node l n r) e)
            h (omega arith))
  ]
]
