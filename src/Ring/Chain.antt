-- ===== src/Ring/Chain.antt =====
-- The ring as a list of threads, and what insertion and removal make of it.
use cmsis_rtos.Base.{
  ℕ, zero, suc, ◌≤◌, ◌≡◌, refl, sym, subst, inl, inr, true, false, Bool-cases, none, some, List, [],
  ◌∷◌, ◌==◌, ◌||◌, if◌then◌else◌, contains, Distinct, length, arith, ==→eq,
}
use cmsis_rtos.Ring.{update, predecessor}

-- From `p` the links lead through the threads of the list to `q`.
abbrev pub IsChain : (ℕ → ℕ) → ℕ → List ℕ → ℕ → Type 0
IsChain next p [] q = next p ≡ q
IsChain next p (t ∷ ts) q = (next p ≡ t) × IsChain next t ts q

-- The ring of "main" and the other threads.
abbrev pub IsRing : (ℕ → ℕ) → ℕ → List ℕ → Type 0
IsRing next main ts = IsChain next main ts main × Distinct (main ∷ ts)

-- The list with a thread behind another, and without a thread.
unfoldable pub insert_behind : ℕ → ℕ → ℕ → List ℕ → List ℕ
insert_behind current thr p [] = thr ∷ []
insert_behind current thr p (t ∷ ts) =
    let rest = t ∷ insert_behind current thr t ts in if p == current then thr ∷ (t ∷ ts) else rest

unfoldable pub without : ℕ → List ℕ → List ℕ
without thr [] = []
without thr (t ∷ ts) = let rest = t ∷ without thr ts in if t == thr then ts else rest

-- A write to a thread that the chain does not pass leaves it.
pub IsChain-update :
    (next : ℕ → ℕ) (p : ℕ) (ts : List ℕ) (q r v : ℕ)
    → contains r (p ∷ ts) ≡ false
    → IsChain next p ts q
    → IsChain (update next r v) p ts q
IsChain-update next p [] q r v out c = ground (arith, out, c)
IsChain-update next p (t ∷ ts) q r v out c =
    (ground (arith, out, c.0), IsChain-update next t ts q r v (ground (arith, out)) c.1)

-- Behind a thread of the chain another one is put in.
pub insert-IsChain :
    (next : ℕ → ℕ) (p : ℕ) (ts : List ℕ) (q current thr : ℕ)
    → Distinct (p ∷ ts)
    → contains current (p ∷ ts) ≡ true
    → contains thr (p ∷ ts) ≡ false
    → IsChain next p ts q
    → IsChain
        (update (update next thr (next current)) current thr)
        p
        (insert_behind current thr p ts)
        q
unfolding insert_behind
insert-IsChain next p [] q current thr d inside out c = ground (arith, inside, out, c)
insert-IsChain next p (t ∷ ts) q current thr d inside out c = elim (Bool-cases (p == current)) [
  | inl here ↦
      let same : p ≡ current = ==→eq p current here in
      rw here (
        ground (arith, same),
        (
          ground (arith, same, c.0, out),
          IsChain-update (update next thr (next current)) t ts q current thr
              (subst (λ x. contains x (t ∷ ts) ≡ false) same (d.0))
              (IsChain-update next t ts q thr (next current) (ground (arith, out)) c.1),
        ),
      )
  | inr later ↦ rw later (
    ground (arith, c.0, out),
    insert-IsChain next t ts q current thr d.1 (ground (arith, inside)) (ground (arith, out)) c.1,
  )
]

-- The chain without its first thread.
skip :
    (next : ℕ → ℕ) (p t : ℕ) (ts : List ℕ) (q : ℕ)
    → contains p (t ∷ ts) ≡ false
    → IsChain next t ts q
    → IsChain (update next p (next t)) p ts q
skip next p t [] q out c = ground (arith, c)
skip next p t (u ∷ ts) q out c =
    (ground (arith, c.0), IsChain-update next u ts q p (next t) (ground (arith, out)) c.1)

distinct_from :
    (x y : ℕ) (l : List ℕ) → contains x l ≡ false → contains y l ≡ true → (x == y) ≡ false
distinct_from x y l out inside = elim (Bool-cases (x == y)) [
  | inr other ↦ other
  | inl same ↦ let e : y ≡ x = sym (==→eq x y same) in cc (rw e at inside)
]

link : (next : ℕ → ℕ) (p t r v : ℕ) → next p ≡ t → (p == r) ≡ false → update next r v p ≡ t
link next p t r v leads other = ground arith

-- The loop finds the thread before one of the chain, and the write there takes it out.
pub remove-IsChain :
    (rounds : ℕ) (next : ℕ → ℕ) (p : ℕ) (ts : List ℕ) (q thr : ℕ)
    → Distinct (p ∷ ts)
    → contains thr ts ≡ true
    → IsChain next p ts q
    → length ts ≤ rounds
    → (r : ℕ) × (predecessor rounds next p thr ≡ some r)
      × (contains r (p ∷ ts) ≡ true)
      × IsChain (update next r (next thr)) p (without thr ts) q
unfolding predecessor without
remove-IsChain rounds next p [] q thr d inside c h = cc inside
remove-IsChain zero next p (t ∷ ts) q thr d inside c h = absurd (omega arith)
remove-IsChain (suc rounds) next p (t ∷ ts) q thr d inside c h = elim (Bool-cases (t == thr)) [
  | inl here ↦
      let same : t ≡ thr = ==→eq t thr here in
      let found : (next p == thr) ≡ true = ground (arith, c.0) in
      (
        p,
        rw (found, predecessor) refl,
        ground arith,
        rw here (rw same at (skip next p t ts q d.0 c.1)),
      )
  | inr later ↦
      let missed : (next p == thr) ≡ false = ground (arith, c.0) in
      let (r, found, known, chain) =
        remove-IsChain rounds next t ts q thr d.1 (ground (arith, inside)) c.1 (omega arith) in
      (
        r,
        rw (missed, predecessor, c.0) found,
        ground (arith, known),
        rw later (link next p t r (next thr) c.0 (distinct_from p r (t ∷ ts) d.0 known), chain),
      )
]

-- A link from a thread of the chain leads to another one, or to its end.
next_inside :
    (next : ℕ → ℕ) (p : ℕ) (ts : List ℕ) (q x : ℕ)
    → IsChain next p ts q
    → contains x (p ∷ ts) ≡ true
    → (contains (next x) ts || (q == next x)) ≡ true
next_inside next p [] q x c h = ground (arith, c, h)
next_inside next p (t ∷ ts) q x c h = elim (Bool-cases (p == x)) [
  | inl here ↦ let same = ==→eq p x here in ground (arith, c.0, same)
  | inr later ↦ let rest = next_inside next t ts q x c.1 (ground (arith, h)) in ground (arith, rest)
]

-- A thread that is not in the ring is never found.
pub predecessor_missing :
    (rounds : ℕ) (next : ℕ → ℕ) (main x : ℕ) (ts : List ℕ) (thr : ℕ)
    → IsChain next main ts main
    → contains thr (main ∷ ts) ≡ false
    → contains x (main ∷ ts) ≡ true
    → predecessor rounds next x thr ≡ none
unfolding predecessor
predecessor_missing zero next main x ts thr c out inside = refl
predecessor_missing (suc rounds) next main x ts thr c out inside =
    let still = next_inside next main ts main x c inside in
    let here : contains (next x) (main ∷ ts) ≡ true = ground (arith, still) in
    let other = distinct_from thr (next x) (main ∷ ts) out here in
    let missed : (next x == thr) ≡ false = ground arith in
    rw (missed, predecessor) (predecessor_missing rounds next main (next x) ts thr c out here)
