-- ===== src/Queue/Reverse.antt =====
-- The loop of `queue_pop` turns the list of the senders round in place.
use mathlib.Core.List.{reverse_aux}
use cmsis_rtos.Base.{
  ℕ, zero, suc, ◌<◌, ◌≡◌, ◌≢◌, refl, true, false, ◌==◌, Option, some, List, [], ◌∷◌, Distinct,
  Disjoint, length, arith,
}
use cmsis_rtos.Queue.{Links, link, turn_round}
use cmsis_rtos.Queue.Segment.{IsSegment, IsSegment-link}

-- What the loop returns for a list whose nodes, turned round, are `all`.
pub record Turned (result : Option (ℕ × ℕ × Links)) (all : List ℕ) : Type 0 where
  pub el : ℕ
  pub head : ℕ
  pub next : Links
  pub rest : List ℕ
  pub returns : result ≡ some (el, head, next)
  pub nodes : all ≡ el ∷ rest
  pub el_ne : el ≢ 0
  pub segment : IsSegment next head rest
  pub distinct : Distinct (el ∷ rest)

pub turn_round-Turned :
    (rounds : ℕ) (x head : ℕ) (n : Links) (xs ys : List ℕ)
    → length xs < rounds
    → IsSegment n x (x ∷ xs)
    → IsSegment n head ys
    → Distinct (x ∷ xs)
    → Distinct ys
    → Disjoint (x ∷ xs) ys
    → Turned (turn_round rounds x head n) (reverse_aux (x ∷ xs) ys)
unfolding turn_round
turn_round-Turned zero x head n xs ys l s t d e apart = absurd (omega arith)
turn_round-Turned (suc rounds) x head n [] ys l s t d e apart =
    let last : (n x == 0) ≡ true = ground arith in
    record {
      el = x;
      head = head;
      next = n;
      rest = ys;
      returns = rw (last, turn_round);
      nodes = refl;
      el_ne = s.1;
      segment = t;
      distinct = (apart x (ground arith), e);
    }
turn_round-Turned (suc rounds) x head n (y ∷ xs) ys l s t d e apart =
    let more : (n x == 0) ≡ false = ground arith in
    let step : n x ≡ y = s.2.0 in
    let here : link n x head x ≡ head = ground arith in
    let rest =
      turn_round-Turned rounds y x (link n x head) xs (x ∷ ys) (omega arith)
        (IsSegment-link n y x head (y ∷ xs) d.0 (refl, s.2.1, s.2.2))
        (refl, s.1, rw here (IsSegment-link n head x head ys (apart x (ground arith)) t)) d.1
        (apart x (ground arith), e) (λ a mem. ground (arith, apart a)) in
    rw (more, step, turn_round) rest
