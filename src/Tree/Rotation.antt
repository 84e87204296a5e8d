-- ===== src/Tree/Rotation.antt =====
-- r3_tree.h: the counts of a node, and the rotations. `none` is a read through NULL.
use cmsis_rtos.Base.{ℕ, ◌+◌, ◌-◌, ◌^◌, Bool, ◌&&◌, Option, none, some, leb, ltb}
use cmsis_rtos.Base.Word.{u16}
use cmsis_rtos.Tree.{Tree, leaf, node, Entry}

infixl 5 ◌>>=◌
abbrev pub ◌>>=◌ : {A B : Type 0} → Option A → (A → Option B) → Option B
none >>= f = none
some a >>= f = f a

-- `_depth`
abbrev pub entry_depth : Entry → ℕ
entry_depth e = u16 (e.next_depth + e.prev_depth + 1)

-- `_balance`, an `int16_t` as its bit pattern, and the tests on it.
abbrev pub entry_balance : Entry → ℕ
entry_balance e = u16 (e.next_depth + 2 ^ 16 - e.prev_depth)

abbrev pub is_negative : ℕ → Bool
is_negative b = leb (2 ^ 15) b

abbrev pub is_positive : ℕ → Bool
is_positive b = ltb 0 b && ltb b (2 ^ 15)

-- `< -1` and `> 1`
abbrev pub below_minus_one : ℕ → Bool
below_minus_one b = leb (2 ^ 15) b && ltb b (2 ^ 16 - 1)

abbrev pub above_one : ℕ → Bool
above_one b = ltb 1 b && ltb b (2 ^ 15)

unfoldable pub depth : Tree → Option ℕ
depth leaf = none
depth (node l e r) = some (entry_depth e)

unfoldable pub balance : Tree → Option ℕ
balance leaf = none
balance (node l e r) = some (entry_balance e)

-- The two nodes of a rotation after it: the one that goes down, and the pivot.
abbrev pub lowered_right : Entry → Entry → Entry
lowered_right n pivot = record n { prev_depth = pivot.next_depth }

abbrev pub raised_right : Entry → Entry → Entry
raised_right n pivot = record pivot { next_depth = entry_depth (lowered_right n pivot) }

abbrev pub lowered_left : Entry → Entry → Entry
lowered_left n pivot = record n { next_depth = pivot.prev_depth }

abbrev pub raised_left : Entry → Entry → Entry
raised_left n pivot = record pivot { prev_depth = entry_depth (lowered_left n pivot) }

-- `tree_rotate_right`
unfoldable pub tree_rotate_right : Tree → Option Tree
tree_rotate_right leaf = none
tree_rotate_right (node leaf n c) = none
tree_rotate_right (node (node a pivot b) n c) =
    some (node a (raised_right n pivot) (node b (lowered_right n pivot) c))

-- `tree_rotate_left`
unfoldable pub tree_rotate_left : Tree → Option Tree
tree_rotate_left leaf = none
tree_rotate_left (node a n leaf) = none
tree_rotate_left (node a n (node b pivot c)) =
    some (node (node a (lowered_left n pivot) b) (raised_left n pivot) c)
