-- ===== src/Tree/Arranged.antt =====
-- What rotations by exact counts do: the entries stay, and the counts stay exact.
use cmsis_rtos.Base.{
  ℕ, ◌+◌, ◌^◌, ◌<◌, ◌≡◌, ◌≢◌, refl, sym, ap, ◌∙◌, inl, inr, Bool-cases, ◌∷◌, ◌++◌, arith, some,
  if◌then◌else◌, append_assoc, true,
}
use cmsis_rtos.Tree.{Tree, leaf, node, Entry, tree_foreach}
use cmsis_rtos.Tree.Rotation.{
  ◌>>=◌, is_negative, is_positive, below_minus_one, above_one, entry_balance, balance,
  tree_rotate_left, tree_rotate_right, lowered_left, raised_left, lowered_right, raised_right,
}

abbrev pub size : Tree → ℕ
size leaf = 0
size (node l e r) = size l + size r + 1

-- Every count is the number of the nodes on its side.
abbrev pub Exact : Tree → Type 0
Exact leaf = Unit
Exact (node l e r) = (e.prev_depth ≡ size l) × (e.next_depth ≡ size r) × Exact l × Exact r

-- The count on a side without a child is 0.
abbrev pub ZeroAt : Tree → ℕ → Type 0
ZeroAt leaf d = d ≡ 0
ZeroAt (node l e r) d = Unit

abbrev pub Zeroed : Tree → Type 0
Zeroed leaf = Unit
Zeroed (node l e r) = ZeroAt l e.prev_depth × ZeroAt r e.next_depth × Zeroed l × Zeroed r

pub Exact-ZeroAt : (t : Tree) (d : ℕ) → d ≡ size t → ZeroAt t d
Exact-ZeroAt leaf d h = h
Exact-ZeroAt (node l e r) d h = tt

pub Exact-Zeroed : (t : Tree) → Exact t → Zeroed t
Exact-Zeroed leaf h = tt
Exact-Zeroed (node l e r) h = (
  Exact-ZeroAt l e.prev_depth h.0,
  Exact-ZeroAt r e.next_depth h.1,
  Exact-Zeroed l h.2,
  Exact-Zeroed r h.3,
)

-- The same entries in the same order, with exact counts.
pub record Arranged (t t' : Tree) : Type 0 where
  pub same : tree_foreach t' ≡ tree_foreach t
  pub same_size : size t' ≡ size t
  pub exact : Exact t'

pub right_Arranged :
    (l : Tree) (n : Entry) (r : Tree)
    → Exact (node l n r)
    → size (node l n r) < 2 ^ 15
    → l ≢ leaf
    → (t' : Tree) × (tree_rotate_right (node l n r) ≡ some t') × Arranged (node l n r) t'
unfolding tree_rotate_right tree_foreach
right_Arranged leaf n r e h ne = absurd (ne refl)
right_Arranged (node a p b) n r e h ne = (
  node a (raised_right n p) (node b (lowered_right n p) r),
  refl,
  record {
    same = sym (append_assoc (tree_foreach a) _ _);
    same_size = omega arith;
    exact = (e.2.0, omega (arith, e), e.2.2, (e.2.1, e.1, e.2.3, e.3));
  },
)

pub left_Arranged :
    (l : Tree) (n : Entry) (r : Tree)
    → Exact (node l n r)
    → size (node l n r) < 2 ^ 15
    → r ≢ leaf
    → (t' : Tree) × (tree_rotate_left (node l n r) ≡ some t') × Arranged (node l n r) t'
unfolding tree_rotate_left tree_foreach
left_Arranged l n leaf e h ne = absurd (ne refl)
left_Arranged a n (node b p c) e h ne = (
  node (node a (lowered_left n p) b) (raised_left n p) c,
  refl,
  record {
    same = append_assoc (tree_foreach a) _ _;
    same_size = omega arith;
    exact = (omega (arith, e), e.3.1, (e.0, e.3.0, e.2, e.3.2), e.3.3);
  },
)

-- What the tests on the balance say, for counts below 2 ^ 15.
pub left_heavy :
    (e : Entry)
    → e.prev_depth < 2 ^ 15
    → e.next_depth < 2 ^ 15
    → below_minus_one (entry_balance e) ≡ true
    → e.next_depth + 1 < e.prev_depth
left_heavy e h k t = ground arith

pub right_heavy :
    (e : Entry)
    → e.prev_depth < 2 ^ 15
    → e.next_depth < 2 ^ 15
    → above_one (entry_balance e) ≡ true
    → e.prev_depth + 1 < e.next_depth
right_heavy e h k t = ground arith

leans_right :
    (e : Entry)
    → e.prev_depth < 2 ^ 15
    → e.next_depth < 2 ^ 15
    → is_positive (entry_balance e) ≡ true
    → e.prev_depth < e.next_depth
leans_right e h k t = ground arith

leans_left :
    (e : Entry)
    → e.prev_depth < 2 ^ 15
    → e.next_depth < 2 ^ 15
    → is_negative (entry_balance e) ≡ true
    → e.next_depth < e.prev_depth
leans_left e h k t = ground arith

pub size-leaf : (t : Tree) → 0 < size t → t ≢ leaf
size-leaf leaf h = absurd (omega arith)
size-leaf (node l e r) h = λ q. cc q

-- The root with another tree in place of a child.
pub in_prev :
    (l l' : Tree) (n : Entry) (r : Tree)
    → Exact (node l n r)
    → Arranged l l'
    → Arranged (node l n r) (node l' n r)
unfolding tree_foreach
in_prev l l' n r e a = record {
  same = ap (λ xs. xs ++ ((n.key, n.value) ∷ tree_foreach r)) a.same;
  same_size = omega (arith, a.same_size);
  exact = (omega (arith, e, a.same_size), e.1, a.exact, e.3);
}

pub in_next :
    (l : Tree) (n : Entry) (r r' : Tree)
    → Exact (node l n r)
    → Arranged r r'
    → Arranged (node l n r) (node l n r')
unfolding tree_foreach
in_next l n r r' e a = record {
  same = ap (λ xs. tree_foreach l ++ ((n.key, n.value) ∷ xs)) a.same;
  same_size = omega (arith, a.same_size);
  exact = (e.0, omega (arith, e, a.same_size), e.2, a.exact);
}

pub Arranged-refl : (t : Tree) → Exact t → Arranged t t
Arranged-refl t e = record { same = refl; same_size = refl; exact = e }

pub Arranged-trans : (t u v : Tree) → Arranged t u → Arranged u v → Arranged t v
Arranged-trans t u v a b = record {
  same = b.same ∙ a.same;
  same_size = b.same_size ∙ a.same_size;
  exact = b.exact;
}

-- The first rotation of a double one.
pub first_left :
    (l : Tree)
    → Exact l
    → size l < 2 ^ 15
    → 0 < size l
    → (l' : Tree) × ((balance l >>= λ b. if is_positive b then tree_rotate_left l else some l)
        ≡ some l')
      × Arranged l l'
unfolding balance
first_left leaf e h ne = absurd (omega arith)
first_left (node a m b) e h ne = elim (Bool-cases (is_positive (entry_balance m))) [
  | inl positive ↦
      let more = leans_right m (omega (arith, e)) (omega (arith, e)) positive in
      rw positive (left_Arranged a m b e h (size-leaf b (omega (arith, e, more))))
  | inr other ↦ rw other (node a m b, refl, Arranged-refl (node a m b) e)
]

pub first_right :
    (r : Tree)
    → Exact r
    → size r < 2 ^ 15
    → 0 < size r
    → (r' : Tree) × ((balance r >>= λ b. if is_negative b then tree_rotate_right r else some r)
        ≡ some r')
      × Arranged r r'
unfolding balance
first_right leaf e h ne = absurd (omega arith)
first_right (node a m b) e h ne = elim (Bool-cases (is_negative (entry_balance m))) [
  | inl negative ↦
      let more = leans_left m (omega (arith, e)) (omega (arith, e)) negative in
      rw negative (right_Arranged a m b e h (size-leaf a (omega (arith, e, more))))
  | inr other ↦ rw other (node a m b, refl, Arranged-refl (node a m b) e)
]
