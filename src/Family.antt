-- ===== src/Family.antt =====
-- queue.h: the children of the nodes of a tree, and the joining of lists. The chain of the `next`
-- links from `children` on is the list of the addresses. A node that is initialised or attached
-- stands in no chain, so that its own `next` link is no part of the state before.
pub mod Detached
use cmsis_rtos.Base.{ℕ, Option, none, some, List, [], ◌∷◌, ◌==◌, if◌then◌else◌}

-- `struct _Node` for every address.
pub record Family : Type 0 where
  pub parent : ℕ → ℕ
  pub children : ℕ → List ℕ

-- `node_init`
unfoldable pub node_init : ℕ → Family → Family
node_init node f = record {
  parent = λ n. if n == node then 0 else f.parent n;
  children = λ n. if n == node then [] else f.children n;
}

-- `node_attach`
unfoldable pub node_attach : ℕ → ℕ → Family → Family
node_attach parent node f = record {
  parent = λ n. if n == node then parent else f.parent n;
  children = λ n. if n == parent then node ∷ f.children parent else f.children n;
}

-- The loop of `node_detach` on the children.
unfoldable pub unlink : ℕ → List ℕ → List ℕ
unlink node [] = []
unlink node (n ∷ ns) = let rest = unlink node ns in if n == node then ns else n ∷ rest

-- `node_detach`: the link to the parent stays.
unfoldable pub node_detach : ℕ → ℕ → Family → Family
node_detach parent node f = record f {
  children = λ n. if n == parent then unlink node (f.children parent) else f.children n;
}

-- The loop to the last element, whose link is set.
unfoldable pub link_last : ℕ → List ℕ → List ℕ → List ℕ
link_last l [] tail = l ∷ tail
link_last l (next ∷ ls) tail = l ∷ link_last next ls tail

-- `list_prepend`; without an element the loop reads through NULL.
unfoldable pub list_prepend : List ℕ → List ℕ → Option (List ℕ)
list_prepend head [] = none
list_prepend head (l ∷ ls) = some (link_last l ls head)

-- `list_append`
unfoldable pub list_append : List ℕ → List ℕ → List ℕ
list_append [] elem = elem
list_append (l ∷ ls) elem = link_last l ls elem
