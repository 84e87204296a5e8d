-- ===== src/Tree/Balanced.antt =====
-- Balancing keeps the entries, and leaves every count exact.
use cmsis_rtos.Base.{
  ℕ, zero, suc, ◌^◌, ◌<◌, ◌≤◌, ◌≡◌, refl, sym, ap, ◌∙◌, ◌∷◌, ◌++◌, arith, Option, some,
  append_assoc,
}
use cmsis_rtos.Tree.{Tree, leaf, node, Entry, tree_foreach}
use cmsis_rtos.Tree.Rotation.{
  ◌>>=◌, tree_rotate_left, tree_rotate_right, lowered_left, raised_left, lowered_right,
  raised_right,
}
use cmsis_rtos.Tree.Balance.{
  settle, lean_left, lean_right, balance_prev, balance_next, tree_balance,
}
use cmsis_rtos.Tree.Arranged.{
  size, Exact, Zeroed, ZeroAt, Exact-Zeroed, Exact-ZeroAt, Arranged-refl,
}
use cmsis_rtos.Tree.Settled.{Settles, settle-Settles}

-- The same entries, in another tree.
pub record SameEntries (t u : Tree) : Type 0 where
  pub calls : tree_foreach u ≡ tree_foreach t
  pub nodes : size u ≡ size t

-- A node with a left child, after the first rotation.
pub record LeansLeft (t : Tree) (l : Tree) (n : Entry) (r : Tree) : Type 0 where
  pub returns : lean_left t ≡ some (node l n r)
  pub there : 0 < size l
  pub zeroed : Zeroed (node l n r)
  pub kept : SameEntries t (node l n r)

lean_left-LeansLeft :
    (t : Tree) → Zeroed t → 1 < size t → (l : Tree) × (n : Entry) × (r : Tree) × LeansLeft t l n r
unfolding lean_left tree_rotate_left tree_foreach
lean_left-LeansLeft leaf z h = absurd (omega arith)
lean_left-LeansLeft (node (node a m b) n r) z h = (
  node a m b,
  n,
  r,
  record {
    returns = refl;
    there = omega arith;
    zeroed = z;
    kept = record { calls = refl; nodes = refl };
  },
)
lean_left-LeansLeft (node leaf n leaf) z h = absurd (omega arith)
lean_left-LeansLeft (node leaf n (node b p c)) z h = (
  node leaf (lowered_left n p) b,
  raised_left n p,
  c,
  record {
    returns = refl;
    there = omega arith;
    zeroed = (tt, z.3.1, (z.0, z.3.0, tt, z.3.2), z.3.3);
    kept = record { calls = refl; nodes = omega arith };
  },
)

-- A node with a balanced left child and some right child, after the second rotation.
pub record LeansRight (t : Tree) (l : Tree) (n : Entry) (r : Tree) : Type 0 where
  pub returns : lean_right t ≡ some (node l n r)
  pub there : 0 < size r
  pub zeroed : Zeroed r
  pub counted : n.prev_depth ≡ size l
  pub exact : Exact l
  pub kept : SameEntries t (node l n r)

lean_right-LeansRight :
    (l : Tree) (n : Entry) (r : Tree)
    → Exact l
    → 0 < size l
    → n.prev_depth ≡ size l
    → ZeroAt r n.next_depth
    → Zeroed r
    → (l' : Tree) × (n' : Entry) × (r' : Tree) × LeansRight (node l n r) l' n' r'
unfolding lean_right tree_rotate_right tree_foreach
lean_right-LeansRight leaf n r e h d z zr = absurd (omega arith)
lean_right-LeansRight (node a q b) n leaf e h d z zr = (
  a,
  raised_right n q,
  node b (lowered_right n q) leaf,
  record {
    returns = refl;
    there = omega arith;
    zeroed = (Exact-ZeroAt b q.next_depth e.1, z, Exact-Zeroed b e.3, tt);
    counted = e.0;
    exact = e.2;
    kept = record { calls = sym (append_assoc (tree_foreach a) _ _); nodes = omega arith };
  },
)
lean_right-LeansRight (node a q b) n (node c p f) e h d z zr = (
  node a q b,
  n,
  node c p f,
  record {
    returns = refl;
    there = omega arith;
    zeroed = zr;
    counted = d;
    exact = e;
    kept = record { calls = refl; nodes = refl };
  },
)

Settles-kept :
    (t u : Tree) (result : Option (Tree × ℕ))
    → SameEntries t u
    → Settles u result
    → Settles t result
Settles-kept t u result k (t', returns, a) = (
  t',
  rw (sym (k.nodes)) returns,
  record { same = a.same ∙ k.calls; same_size = a.same_size ∙ k.nodes; exact = a.exact },
)

-- What the calls for the children do, by induction.
abbrev Works : ℕ → (Tree → Option (Tree × ℕ)) → Type 0
Works limit rec = (u : Tree) → Zeroed u → 0 < size u → size u < limit → Settles u (rec u)

next_half :
    (limit : ℕ) (rec : Tree → Option (Tree × ℕ)) (l : Tree) (n : Entry) (r : Tree)
    → Works limit rec
    → size (node l n r) < 2 ^ 15
    → size (node l n r) ≤ limit
    → Exact l
    → n.prev_depth ≡ size l
    → Zeroed r
    → 0 < size r
    → Settles (node l n r) (balance_next rec (node l n r) >>= settle)
unfolding balance_next
next_half limit rec l n r works h fits e d z more =
    let (r', returns, a) = works r z more (omega (arith, fits)) in
    let n' = record n { next_depth = size r } in
    let exact : Exact (node l n' r') = (d, sym a.same_size, e, a.exact) in
    let kept : SameEntries (node l n r) (node l n' r') = record {
      calls = unfold tree_foreach in (ap (λ xs. tree_foreach l ++ ((n.key, n.value) ∷ xs)) a.same);
      nodes = omega (arith, a.same_size);
    } in
    rw returns (
      Settles-kept (node l n r) (node l n' r') (settle (node l n' r')) kept
        (settle-Settles l n' r' exact (omega (arith, h, a.same_size))))

both_halves :
    (limit : ℕ) (rec : Tree → Option (Tree × ℕ)) (l : Tree) (n : Entry) (r : Tree)
    → Works limit rec
    → size (node l n r) < 2 ^ 15
    → size (node l n r) ≤ limit
    → Zeroed (node l n r)
    → 0 < size l
    → Settles
        (node l n r)
        (balance_prev rec (node l n r) >>= λ t. lean_right t >>= λ t. balance_next rec t >>= settle)
unfolding balance_prev
both_halves limit rec l n r works h fits z more =
    let (l', returns, a) = works l z.2 more (omega (arith, fits)) in
    let n' = record n { prev_depth = size l } in
    let (l3, n3, r3, lean) =
      lean_right-LeansRight l' n' r a.exact (omega (arith, more, a.same_size)) (sym a.same_size) z.1
        z.3 in
    let kept : SameEntries (node l n r) (node l' n' r) = record {
      calls = unfold tree_foreach in (ap (λ xs. xs ++ ((n.key, n.value) ∷ tree_foreach r)) a.same);
      nodes = omega (arith, a.same_size);
    } in
    let all : SameEntries (node l n r) (node l3 n3 r3) = record {
      calls = lean.kept.calls ∙ kept.calls;
      nodes = lean.kept.nodes ∙ kept.nodes;
    } in
    rw (returns, lean.returns)
      (Settles-kept (node l n r) (node l3 n3 r3) (balance_next rec (node l3 n3 r3) >>= settle) all (
        next_half limit rec l3 n3 r3 works (omega (arith, h, all.nodes))
          (omega (arith, fits, all.nodes)) lean.exact lean.counted lean.zeroed lean.there))

whole :
    (limit : ℕ) (rec : Tree → Option (Tree × ℕ)) (t : Tree)
    → Works limit rec
    → size t < 2 ^ 15
    → size t ≤ limit
    → Zeroed t
    → 1 < size t
    → Settles t (
        lean_left t >>= λ t.
        balance_prev rec t >>= λ t. lean_right t >>= λ t. balance_next rec t >>= settle)
whole limit rec t works h fits z more =
    let (l, n, r, lean) = lean_left-LeansLeft t z more in
    rw (lean.returns) (
      Settles-kept t (node l n r)
        (balance_prev rec (node l n r) >>= λ t. lean_right t >>= λ t. balance_next rec t >>= settle)
        lean.kept
        (both_halves limit rec l n r works (omega (arith, h, lean.kept.nodes))
          (omega (arith, fits, lean.kept.nodes)) lean.zeroed lean.there))

balance_works :
    (rounds : ℕ) (t : Tree)
    → Zeroed t
    → 0 < size t
    → size t ≤ rounds
    → size t < 2 ^ 15
    → Settles t (tree_balance rounds t)
unfolding tree_balance
balance_works zero t z more fits h = absurd (omega arith)
balance_works (suc rounds) leaf z more fits h = absurd (omega arith)
balance_works (suc rounds) (node leaf n leaf) z more fits h =
    (node leaf n leaf, refl, Arranged-refl (node leaf n leaf) (z.0, z.1, tt, tt))
balance_works (suc rounds) (node leaf n (node b p c)) z more fits h =
    let t = node leaf n (node b p c) in
    whole (size t) (tree_balance rounds) t
      (λ u zu mu lu. balance_works rounds u zu mu (omega arith) (omega arith)) h (omega arith) z
      (omega arith)
balance_works (suc rounds) (node (node a m b) n r) z more fits h =
    let t = node (node a m b) n r in
    whole (size t) (tree_balance rounds) t
      (λ u zu mu lu. balance_works rounds u zu mu (omega arith) (omega arith)) h (omega arith) z
      (omega arith)

-- On a tree that is not empty, has less than 2 ^ 15 nodes and the count 0 on each side without a child,
-- `tree_balance` ends, within as many rounds as there are nodes, without a read through NULL: it
-- returns the number of the nodes and a tree with the same calls of `tree_foreach` in which each
-- count is the number of the nodes on its side.
pub tree_balance-Exact :
    (rounds : ℕ) (t : Tree)
    → Zeroed t
    → 0 < size t
    → size t ≤ rounds
    → size t < 2 ^ 15
    → (t' : Tree) × (tree_balance rounds t ≡ some (t', size t))
      × (tree_foreach t' ≡ tree_foreach t)
      × Exact t'
tree_balance-Exact rounds t z more fits h =
    let (t', returns, a) = balance_works rounds t z more fits h in (t', returns, a.same, a.exact)
