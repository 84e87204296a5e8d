-- ===== src/Tree/Dictionary.antt =====
-- Lists of keys and values in ascending order of the keys: what the trees stand for.
use cmsis_rtos.Base.{
  ℕ, ◌^◌, ◌≤◌, ◌<◌, ◌≡◌, refl, List, [], ◌∷◌, ◌++◌, ◌==◌, ltb, if◌then◌else◌, arith, Option, none,
  some,
}

abbrev pub AllBelow : ℕ → List (ℕ × ℕ) → Type 0
AllBelow k [] = Unit
AllBelow k ((j, v) ∷ m) = (j < k) × AllBelow k m

abbrev pub AllAbove : ℕ → List (ℕ × ℕ) → Type 0
AllAbove k [] = Unit
AllAbove k ((j, v) ∷ m) = (k < j) × AllAbove k m

abbrev pub Ascending : List (ℕ × ℕ) → Type 0
Ascending [] = Unit
Ascending ((j, v) ∷ m) = AllAbove j m × Ascending m

-- Ascending keys below 2 ^ 31, so that the sign of a difference is the order.
abbrev pub IsDictionary : List (ℕ × ℕ) → Type 0
IsDictionary m = Ascending m × AllBelow (2 ^ 31) m

-- The value of a key.
unfoldable pub find : ℕ → List (ℕ × ℕ) → Option ℕ
find k [] = none
find k ((j, v) ∷ m) = let rest = find k m in if k == j then some v else rest

-- The pointer that a search returns, 0 for NULL.
abbrev pub or_null : Option ℕ → ℕ
or_null none = 0
or_null (some v) = v

unfoldable pub put : ℕ → ℕ → List (ℕ × ℕ) → List (ℕ × ℕ)
put k v [] = (k, v) ∷ []
put k v ((j, w) ∷ m) =
    let rest = put k v m in
    if k == j then (j, v) ∷ m else if ltb k j then (k, v) ∷ ((j, w) ∷ m) else (j, w) ∷ rest

unfoldable pub erase : ℕ → List (ℕ × ℕ) → List (ℕ × ℕ)
erase k [] = []
erase k ((j, w) ∷ m) = let rest = erase k m in if k == j then m else (j, w) ∷ rest

pub AllBelow-trans : (k j : ℕ) (m : List (ℕ × ℕ)) → k ≤ j → AllBelow k m → AllBelow j m
AllBelow-trans k j [] h b = tt
AllBelow-trans k j ((i, v) ∷ m) h b = (omega (arith, b.0), AllBelow-trans k j m h b.1)

pub AllAbove-trans : (k j : ℕ) (m : List (ℕ × ℕ)) → k ≤ j → AllAbove j m → AllAbove k m
AllAbove-trans k j [] h b = tt
AllAbove-trans k j ((i, v) ∷ m) h b = (omega (arith, b.0), AllAbove-trans k j m h b.1)

-- The parts of a list around an entry.
pub record Around (xs : List (ℕ × ℕ)) (j : ℕ) (ys : List (ℕ × ℕ)) : Type 0 where
  pub below : AllBelow j xs
  pub before : Ascending xs
  pub above : AllAbove j ys
  pub after : Ascending ys

AllAbove-before :
    (k : ℕ) (xs : List (ℕ × ℕ)) (j v : ℕ) (ys : List (ℕ × ℕ))
    → AllAbove k (xs ++ ((j, v) ∷ ys))
    → AllAbove k xs × (k < j)
AllAbove-before k [] j v ys a = (tt, a.0)
AllAbove-before k ((i, w) ∷ xs) j v ys a =
    let (rest, less) = AllAbove-before k xs j v ys a.1 in ((a.0, rest), less)

pub around :
    (xs : List (ℕ × ℕ)) (j v : ℕ) (ys : List (ℕ × ℕ))
    → Ascending (xs ++ ((j, v) ∷ ys))
    → Around xs j ys
around [] j v ys a = record { below = tt; before = tt; above = a.0; after = a.1 }
around ((i, w) ∷ xs) j v ys a =
    let rest = around xs j v ys a.1 in
    let (all, less) = AllAbove-before i xs j v ys a.0 in
    record {
      below = (less, rest.below);
      before = (all, rest.before);
      above = rest.above;
      after = rest.after;
    }

pub AllBelow-append :
    (k : ℕ) (xs ys : List (ℕ × ℕ)) → AllBelow k (xs ++ ys) → AllBelow k xs × AllBelow k ys
AllBelow-append k [] ys b = (tt, b)
AllBelow-append k ((j, v) ∷ xs) ys b =
    let (front, back) = AllBelow-append k xs ys b.1 in ((b.0, front), back)

pub AllBelow-split :
    (k : ℕ) (xs : List (ℕ × ℕ)) (j v : ℕ) (ys : List (ℕ × ℕ))
    → AllBelow k (xs ++ ((j, v) ∷ ys))
    → AllBelow k xs × (j < k) × AllBelow k ys
AllBelow-split k [] j v ys b = (tt, b.0, b.1)
AllBelow-split k ((i, w) ∷ xs) j v ys b =
    let (front, here, back) = AllBelow-split k xs j v ys b.1 in ((b.0, front), here, back)

pub AllAbove-split :
    (k : ℕ) (xs : List (ℕ × ℕ)) (j v : ℕ) (ys : List (ℕ × ℕ))
    → AllAbove k (xs ++ ((j, v) ∷ ys))
    → AllAbove k xs × (k < j) × AllAbove k ys
AllAbove-split k [] j v ys b = (tt, b.0, b.1)
AllAbove-split k ((i, w) ∷ xs) j v ys b =
    let (front, here, back) = AllAbove-split k xs j v ys b.1 in ((b.0, front), here, back)

-- Both parts around an entry of a dictionary are dictionaries.
pub record Parts (xs : List (ℕ × ℕ)) (j : ℕ) (ys : List (ℕ × ℕ)) : Type 0 where
  pub order : Around xs j ys
  pub prev : IsDictionary xs
  pub next : IsDictionary ys
  pub bound : j < 2 ^ 31

pub parts :
    (xs : List (ℕ × ℕ)) (j v : ℕ) (ys : List (ℕ × ℕ))
    → IsDictionary (xs ++ ((j, v) ∷ ys))
    → Parts xs j ys
parts xs j v ys d =
    let order = around xs j v ys d.0 in
    let (front, back) = AllBelow-append (2 ^ 31) xs ((j, v) ∷ ys) d.1 in
    record {
      order = order;
      prev = (order.before, front);
      next = (order.after, back.1);
      bound = back.0;
    }

-- The three operations before, at and behind an entry.
pub find_before :
    (k : ℕ) (xs : List (ℕ × ℕ)) (j v : ℕ) (ys : List (ℕ × ℕ))
    → AllAbove k ((j, v) ∷ ys)
    → find k (xs ++ ((j, v) ∷ ys)) ≡ find k xs
unfolding find
find_before k [] j v ys a = find_above k ((j, v) ∷ ys) a
  where
    find_above : (k : ℕ) (ys : List (ℕ × ℕ)) → AllAbove k ys → find k ys ≡ none
    find_above k [] a = refl
    find_above k ((j, v) ∷ ys) a = ground (arith, a.0, find_above k ys a.1)
find_before k ((i, w) ∷ xs) j v ys a = ground (arith, find_before k xs j v ys a)

pub find_behind : (k : ℕ) (xs ys : List (ℕ × ℕ)) → AllBelow k xs → find k (xs ++ ys) ≡ find k ys
unfolding find
find_behind k [] ys b = refl
find_behind k ((i, w) ∷ xs) ys b = ground (arith, b.0, find_behind k xs ys b.1)

pub find_here : (k v : ℕ) (ys : List (ℕ × ℕ)) → find k ((k, v) ∷ ys) ≡ some v
unfolding find
find_here k v ys = ground arith

pub find_step : (k j w : ℕ) (ys : List (ℕ × ℕ)) → j < k → find k ((j, w) ∷ ys) ≡ find k ys
unfolding find
find_step k j w ys h = ground arith

pub put_before :
    (k v : ℕ) (xs : List (ℕ × ℕ)) (j w : ℕ) (ys : List (ℕ × ℕ))
    → k < j
    → put k v (xs ++ ((j, w) ∷ ys)) ≡ put k v xs ++ ((j, w) ∷ ys)
unfolding put
put_before k v [] j w ys h = ground arith
put_before k v ((i, u) ∷ xs) j w ys h = ground (arith, put_before k v xs j w ys h)

pub put_behind :
    (k v : ℕ) (xs ys : List (ℕ × ℕ)) → AllBelow k xs → put k v (xs ++ ys) ≡ xs ++ put k v ys
unfolding put
put_behind k v [] ys b = refl
put_behind k v ((i, u) ∷ xs) ys b = ground (arith, b.0, put_behind k v xs ys b.1)

pub put_step :
    (k v j w : ℕ) (ys : List (ℕ × ℕ)) → j < k → put k v ((j, w) ∷ ys) ≡ (j, w) ∷ put k v ys
unfolding put
put_step k v j w ys h = ground arith

pub put_here : (k v w : ℕ) (ys : List (ℕ × ℕ)) → put k v ((k, w) ∷ ys) ≡ (k, v) ∷ ys
unfolding put
put_here k v w ys = ground arith

pub erase_before :
    (k : ℕ) (xs : List (ℕ × ℕ)) (j v : ℕ) (ys : List (ℕ × ℕ))
    → AllAbove k ((j, v) ∷ ys)
    → erase k (xs ++ ((j, v) ∷ ys)) ≡ erase k xs ++ ((j, v) ∷ ys)
unfolding erase
erase_before k [] j v ys a = erase_above k ((j, v) ∷ ys) a
  where
    erase_above : (k : ℕ) (ys : List (ℕ × ℕ)) → AllAbove k ys → erase k ys ≡ ys
    erase_above k [] a = refl
    erase_above k ((j, v) ∷ ys) a = ground (arith, a.0, erase_above k ys a.1)
erase_before k ((i, w) ∷ xs) j v ys a = ground (arith, erase_before k xs j v ys a)

pub erase_behind :
    (k : ℕ) (xs ys : List (ℕ × ℕ)) → AllBelow k xs → erase k (xs ++ ys) ≡ xs ++ erase k ys
unfolding erase
erase_behind k [] ys b = refl
erase_behind k ((i, u) ∷ xs) ys b = ground (arith, b.0, erase_behind k xs ys b.1)

pub erase_step :
    (k j w : ℕ) (ys : List (ℕ × ℕ)) → j < k → erase k ((j, w) ∷ ys) ≡ (j, w) ∷ erase k ys
unfolding erase
erase_step k j w ys h = ground arith

pub erase_here : (k w : ℕ) (ys : List (ℕ × ℕ)) → erase k ((k, w) ∷ ys) ≡ ys
unfolding erase
erase_here k w ys = ground arith
