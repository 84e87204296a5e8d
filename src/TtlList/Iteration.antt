-- ===== src/TtlList/Iteration.antt =====
-- The calls of `ttl_datalist_get_next` one after another.
use cmsis_rtos.Base.{ℕ, zero, suc, ◌+◌, ◌*◌, ◌≡◌, ap, ◌∙◌, List, [], ◌∷◌, ◌++◌, length, arith}
use native.Mathlib.Nat.{suc-mul}
use cmsis_rtos.TtlList.{Item, ttl_get_next}

-- The items of a number of calls from an iterator on.
unfoldable pub handed_over : List Item → ℕ → List Item → List Item
handed_over dl zero iter = []
handed_over dl (suc n) iter =
    let step = ttl_get_next dl iter in step.found ++ handed_over dl n step.iter

-- A list a number of times, one after the other.
abbrev pub repeated : ℕ → List Item → List Item
repeated zero xs = []
repeated (suc n) xs = xs ++ repeated n xs

-- The calls hand over what is left of the iterator's list, and then go on from NULL.
to_end :
    (dl : List Item) (n : ℕ) (xs : List Item)
    → handed_over dl (length xs + n) xs ≡ xs ++ handed_over dl n []
unfolding handed_over ttl_get_next
to_end dl n [] =
    let count : length {A = Item} [] + n ≡ n = omega arith in ap (λ k. handed_over dl k []) count
to_end dl n (x ∷ xs) =
    let count : length (x ∷ xs) + n ≡ suc (length xs + n) = omega arith in
    ap (λ k. handed_over dl k (x ∷ xs)) count ∙ ap (λ l. x ∷ l) (to_end dl n xs)

from_null : (dl : List Item) (n : ℕ) → handed_over dl (length dl + n) [] ≡ dl ++ handed_over dl n []
unfolding handed_over ttl_get_next
from_null [] n =
    let count : length {A = Item} [] + n ≡ n = omega arith in ap (λ k. handed_over [] k []) count
from_null (x ∷ xs) n =
    let count : length (x ∷ xs) + n ≡ suc (length xs + n) = omega arith in
    ap (λ k. handed_over (x ∷ xs) k []) count ∙ ap (λ l. x ∷ l) (to_end (x ∷ xs) n xs)

-- From a NULL iterator, the first `length dl` calls hand over the items of a list in their order, and
-- the calls go on from the beginning: `n` times as many calls hand over all the items `n` times, so
-- that a call on a list of at least one item never says that the list is at its end.
pub ttl_get_next-repeated :
    (dl : List Item) (n : ℕ) → handed_over dl (n * length dl) [] ≡ repeated n dl
unfolding handed_over
ttl_get_next-repeated dl zero =
    let count : 0 * length dl ≡ 0 = omega arith in ap (λ k. handed_over dl k []) count
ttl_get_next-repeated dl (suc n) =
    let count : suc n * length dl ≡ length dl + n * length dl =
      omega (arith, suc-mul n (length dl)) in
    ap (λ k. handed_over dl k []) count
    ∙ from_null dl (n * length dl)
    ∙ ap (λ l. dl ++ l) (ttl_get_next-repeated dl n)
