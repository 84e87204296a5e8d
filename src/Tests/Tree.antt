-- ===== src/Tests/Tree.antt =====
-- The search trees at concrete inputs.
use cmsis_rtos.Base.{◌≡◌, List, [], ◌∷◌, some, arith, refl}
use cmsis_rtos.Tree.{Tree, leaf, node, alone, tree_init, tree_foreach, tree_notify, key_sign}
use cmsis_rtos.Tree.Insert.{tree_insert, insert_below, attach_left, restore}
use cmsis_rtos.Tree.Balance.{tree_balance}
use cmsis_rtos.Tree.Lookup.{IsSearchTree}
use cmsis_rtos.Tree.Runs.{Call, insert, insert_tree, remove, lookup, run, replay, run-replay}
use cmsis_rtos.Tree.Arranged.{size, Exact}
use cmsis_rtos.Tree.Balanced.{tree_balance-Exact}
use cmsis_rtos.Tree.Archive.{restore-tree_notify}

-- The keys 10, 20, 40 as a chain to the right, and 10, 20, 40 with 20 at the root.
abbrev chain : Tree
chain = node leaf (tree_init 10 1) (node leaf (tree_init 20 2) (alone (tree_init 40 4)))

abbrev bushy : Tree
bushy = node (alone (tree_init 10 1)) (tree_init 20 2) (alone (tree_init 40 4))

chain-foreach : tree_foreach chain ≡ (10, 1) ∷ (20, 2) ∷ (40, 4) ∷ []
unfolding tree_foreach
chain-foreach = refl

chain-IsSearchTree : IsSearchTree chain
unfolding tree_foreach
chain-IsSearchTree = omega arith

bushy-IsSearchTree : IsSearchTree bushy
unfolding tree_foreach
bushy-IsSearchTree = omega arith

-- The element 30 takes part in a rotation below the root.
rotated :
    tree_foreach (tree_insert chain (tree_init 30 3)).0 ≡ (10, 1) ∷ (20, 2) ∷ (30, 3) ∷ (40, 4) ∷ []
unfolding tree_foreach tree_insert key_sign insert_below attach_left
rotated = refl

abbrev calls : List Call
calls = insert 30 3 ∷ remove 20 ∷ insert_tree 30 5 ∷ lookup 30 ∷ lookup 20 ∷ []

run-replay_example :
    (tree_foreach (run calls chain).0 ≡ (replay calls (tree_foreach chain)).0)
    × ((run calls chain).1 ≡ (replay calls (tree_foreach chain)).1)
    × IsSearchTree (run calls chain).0
run-replay_example = run-replay calls chain (omega arith) chain-IsSearchTree

tree_balance-Exact_example :
    (t' : Tree) × (tree_balance 3 chain ≡ some (t', size chain))
    × (tree_foreach t' ≡ tree_foreach chain)
    × Exact t'
tree_balance-Exact_example =
    tree_balance-Exact 3 chain (omega arith) (omega arith) (omega arith) (omega arith)

restore-tree_notify_example : restore leaf (tree_notify bushy) ≡ bushy
restore-tree_notify_example = restore-tree_notify bushy bushy-IsSearchTree
