-- ===== src/Queue/Segment.antt =====
-- The list of nodes that a pointer leads to.
use cmsis_rtos.Base.{ℕ, ◌≡◌, ◌≢◌, false, List, [], ◌∷◌, contains, arith}
use cmsis_rtos.Queue.{Links, link}

-- From `p` the links lead through the nodes of the list to NULL.
abbrev pub IsSegment : Links → ℕ → List ℕ → Type 0
IsSegment n p [] = p ≡ 0
IsSegment n p (x ∷ xs) = (p ≡ x) × (x ≢ 0) × IsSegment n (n x) xs

-- A write to a node that is not in the list leaves the list as it is.
pub IsSegment-link :
    (n : Links) (p y v : ℕ) (xs : List ℕ)
    → contains y xs ≡ false
    → IsSegment n p xs
    → IsSegment (link n y v) p xs
IsSegment-link n p y v [] out s = s
IsSegment-link n p y v (x ∷ xs) out s =
    let same : link n y v x ≡ n x = ground arith in
    (s.0, s.1, rw same (IsSegment-link n (n x) y v xs (ground arith) s.2))
