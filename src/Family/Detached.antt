-- ===== src/Family/Detached.antt =====
-- Attaching and detaching a node, and the two ways to join lists.
use cmsis_rtos.Base.{ℕ, ◌≡◌, refl, ap, some, List, [], ◌∷◌, ◌++◌, eq→==}
use cmsis_rtos.Family.{
  Family, node_attach, node_detach, unlink, link_last, list_prepend, list_append,
}

-- A node that was attached last is detached again: the parent has the children that it had.
pub node_detach-node_attach :
    (p n : ℕ) (f : Family) → (node_detach p n (node_attach p n f)).children p ≡ f.children p
unfolding node_detach node_attach unlink
node_detach-node_attach p n f = rw (eq→== p p refl, eq→== n n refl) refl

link_last-append : (l : ℕ) (ls tail : List ℕ) → link_last l ls tail ≡ (l ∷ ls) ++ tail
unfolding link_last
link_last-append l [] tail = refl
link_last-append l (next ∷ ls) tail = ap (λ xs. l ∷ xs) (link_last-append next ls tail)

pub list_append-append : (head elem : List ℕ) → list_append head elem ≡ head ++ elem
unfolding list_append
list_append-append [] elem = refl
list_append-append (l ∷ ls) elem = link_last-append l ls elem

-- Putting a list before another is appending the other to it, for a list that is not empty.
pub list_prepend-list_append :
    (head : List ℕ) (l : ℕ) (ls : List ℕ)
    → list_prepend head (l ∷ ls) ≡ some (list_append (l ∷ ls) head)
unfolding list_prepend list_append
list_prepend-list_append head l ls = refl
