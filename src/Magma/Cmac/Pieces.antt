-- ===== src/Magma/Cmac/Pieces.antt =====
-- The context after any data, given in pieces, by the data one byte at a time.
use cmsis_rtos.Base.{
  ℕ, zero, suc, ◌+◌, ◌-◌, ◌*◌, ◌/◌, ◌%◌, ◌≤◌, ◌<◌, ◌≡◌, refl, sym, ap, ◌∙◌, subst, fun_ext, inl,
  inr, true, false, Bool-cases, bit_xor, List, [], ◌∷◌, ◌++◌, append-nil, append_assoc, length,
  length-append, ◌==◌, ltb, if◌then◌else◌, arith,
}
use cmsis_rtos.Magma.{magma_encrypt}
use cmsis_rtos.Magma.Cmac.{
  take, drop, htonll, bytes, copied, Ccm, magma_cmac_init, fill, chain, digest_from, digest,
  magma_cmac_update,
}

-- The sum and the bytes of the block that is not enciphered yet; a full one is when another byte comes.
abbrev pub Progress : Type 0
Progress = ℕ × List ℕ

unfoldable pub step : (ℕ → ℕ) → Progress → ℕ → Progress
step key (m, p) b =
    if length p == 8
    then (magma_encrypt key (bit_xor m (htonll (bytes p))), b ∷ [])
    else (m, p ++ (b ∷ []))

unfoldable pub absorb : (ℕ → ℕ) → Progress → List ℕ → Progress
absorb key s [] = s
absorb key s (b ∷ bs) = absorb key (step key s b) bs

pub absorb-append :
    (key : ℕ → ℕ) (s : Progress) (xs ys : List ℕ)
    → absorb key s (xs ++ ys) ≡ absorb key (absorb key s xs) ys
unfolding absorb
absorb-append key s [] ys = refl
absorb-append key s (x ∷ xs) ys = absorb-append key (step key s x) xs ys

pub absorb_short :
    (key : ℕ → ℕ) (m : ℕ) (p xs : List ℕ)
    → length p + length xs ≤ 8
    → absorb key (m, p) xs ≡ (m, p ++ xs)
unfolding absorb step
absorb_short key m p [] h = ap (λ q. (m, q)) (sym (append-nil p))
absorb_short key m p (x ∷ xs) h =
    let room : (length p == 8) ≡ false = ground (arith, h) in
    rw room (
      absorb_short key m (p ++ (x ∷ [])) xs (omega (arith, h, length-append p (x ∷ [])))
      ∙ ap (λ q. (m, q)) (append_assoc p (x ∷ []) xs))

absorb_full :
    (key : ℕ → ℕ) (m : ℕ) (p xs : List ℕ)
    → length p ≡ 8
    → 0 < length xs
    → absorb key (m, p) xs ≡ absorb key (magma_encrypt key (bit_xor m (htonll (bytes p))), []) xs
unfolding absorb step
absorb_full key m p [] h l = absurd (omega (arith, l))
absorb_full key m p (x ∷ xs) h l =
    let full : (length p == 8) ≡ true = ground (arith, h) in rw full refl

take-drop : (n : ℕ) (xs : List ℕ) → take n xs ++ drop n xs ≡ xs
take-drop zero xs = refl
take-drop (suc n) [] = refl
take-drop (suc n) (x ∷ xs) = ap (λ ys. x ∷ ys) (take-drop n xs)

length-take : (n : ℕ) (xs : List ℕ) → n ≤ length xs → length (take n xs) ≡ n
length-take zero xs h = refl
length-take (suc n) [] h = absurd (omega (arith, h))
length-take (suc n) (x ∷ xs) h = ap suc (length-take n xs (omega (arith, h)))

pub length-drop : (n : ℕ) (xs : List ℕ) → length (drop n xs) ≡ length xs - n
length-drop zero xs = omega arith
length-drop (suc n) [] = omega arith
length-drop (suc n) (x ∷ xs) = length-drop n xs ∙ omega arith

bytes-take : (n : ℕ) (xs : List ℕ) (i : ℕ) → i < n → bytes (take n xs) i ≡ bytes xs i
bytes-take zero xs i h = absurd (omega (arith, h))
bytes-take (suc n) [] i h = refl
bytes-take (suc n) (x ∷ xs) zero h = refl
bytes-take (suc n) (x ∷ xs) (suc i) h = bytes-take n xs i (omega (arith, h))

htonll-take : (xs : List ℕ) → htonll (bytes (take 8 xs)) ≡ htonll (bytes xs)
unfolding htonll
htonll-take xs =
    let same = bytes-take 8 xs in
    rw
      (
        same 0 (omega arith),
        same 1 (omega arith),
        same 2 (omega arith),
        same 3 (omega arith),
        same 4 (omega arith),
        same 5 (omega arith),
        same 6 (omega arith),
        same 7 (omega arith),
      )
      refl

-- A whole block with data behind it.
pub absorb_block :
    (key : ℕ → ℕ) (m : ℕ) (xs : List ℕ)
    → 8 < length xs
    → absorb key (m, []) xs
      ≡ absorb key (magma_encrypt key (bit_xor m (htonll (bytes xs))), []) (drop 8 xs)
absorb_block key m xs h =
    let eight = length-take 8 xs (omega (arith, h)) in
    ap (absorb key (m, [])) (sym (take-drop 8 xs))
    ∙ absorb-append key (m, []) (take 8 xs) (drop 8 xs)
    ∙ ap (λ s. absorb key s (drop 8 xs)) (absorb_short key m [] (take 8 xs) (omega (arith, eight)))
    ∙ absorb_full key m (take 8 xs) (drop 8 xs) eight (omega (arith, length-drop 8 xs, h))
    ∙ ap (λ v. absorb key (magma_encrypt key (bit_xor m v), []) (drop 8 xs)) (htonll-take xs)

pub chain-absorb :
    (blocks : ℕ) (key : ℕ → ℕ) (m : ℕ) (xs : List ℕ)
    → 8 * blocks < length xs
    → let (m', rest) = chain blocks key m xs in
      (absorb key (m, []) xs ≡ absorb key (m', []) rest) × (length rest ≡ length xs - 8 * blocks)
unfolding chain
chain-absorb zero key m xs h = (refl, omega arith)
chain-absorb (suc blocks) key m xs h =
    let m' = magma_encrypt key (bit_xor m (htonll (bytes xs))) in
    let fewer = length-drop 8 xs in
    let (same, count) = chain-absorb blocks key m' (drop 8 xs) (omega (arith, h, fewer)) in
    (absorb_block key m xs (omega (arith, h)) ∙ same, omega (arith, count, fewer))

pub bytes-append :
    (p xs : List ℕ) (i : ℕ)
    → bytes (p ++ xs) i ≡ (if ltb i (length p) then bytes p i else bytes xs (i - length p))
bytes-append [] xs i = ground arith
bytes-append (x ∷ p) xs zero = ground arith
bytes-append (x ∷ p) xs (suc i) = ground (arith, bytes-append p xs i)

pub bytes_beyond : (p : List ℕ) (i : ℕ) → length p ≤ i → bytes p i ≡ 0
bytes_beyond [] i h = refl
bytes_beyond (x ∷ p) zero h = absurd (omega (arith, h))
bytes_beyond (x ∷ p) (suc i) h = bytes_beyond p i (omega (arith, h))

copied-bytes : (p xs : List ℕ) → copied (bytes p) (length p) xs ≡ bytes (p ++ xs)
copied-bytes p xs = fun_ext λ i. elim (Bool-cases (ltb i (length p))) [
  | inl inside ↦ ground (arith, bytes-append p xs i, inside)
  | inr behind ↦ elim (Bool-cases (ltb i (length p + length xs))) [
    | inl there ↦ ground (arith, bytes-append p xs i, behind, there)
    | inr beyond ↦ ground (
      arith,
      bytes-append p xs i,
      behind,
      beyond,
      bytes_beyond p i (ground (arith, behind)),
      bytes_beyond xs (i - length p) (ground (arith, beyond, behind)),
    )
  ]
]

-- The context is at this progress.
pub record IsAt (ctx : Ccm) (m : ℕ) (p : List ℕ) : Type 0 where
  pub sum : ctx.sum ≡ m
  pub len : ctx.len ≡ length p
  pub last : ctx.last_block ≡ bytes p
  pub small : length p ≤ 8

pub magma_cmac_init-IsAt : (key : ℕ → ℕ) → IsAt (magma_cmac_init key) 0 []
unfolding magma_cmac_init
magma_cmac_init-IsAt key = record { sum = refl; len = refl; last = refl; small = omega arith }

digest_from-IsAt :
    (ctx : Ccm) (m : ℕ) (xs : List ℕ)
    → 0 < length xs
    → let s = absorb ctx.key (m, []) xs in IsAt (digest_from ctx (bytes []) m xs) s.0 s.1
unfolding digest_from
digest_from-IsAt ctx m xs l =
    let n = (length xs - 1) / 8 in
    let (same, count) = chain-absorb n ctx.key m xs (omega (arith, l)) in
    let (m', rest) = chain n ctx.key m xs in
    let short : length rest ≤ 8 = omega (arith, count, l) in
    subst (λ s. IsAt (digest_from ctx (bytes []) m xs) s.0 s.1)
      (sym (same ∙ absorb_short ctx.key m' [] rest (omega (arith, short))))
      (record { sum = refl; len = refl; last = copied-bytes [] rest; small = short })

-- One byte or more at a block that is empty or full.
digest-IsAt :
    (ctx : Ccm) (m : ℕ) (p xs : List ℕ)
    → IsAt ctx m p
    → length p % 8 ≡ 0
    → 0 < length xs
    → let s = absorb ctx.key (m, p) xs in IsAt (digest ctx xs) s.0 s.1
unfolding digest digest_from
digest-IsAt ctx m [] xs h e l =
    let not_full : (ctx.len == 8) ≡ false = ground (arith, h.len) in
    rw (not_full, h.last, h.sum) (digest_from-IsAt ctx m xs l)
digest-IsAt ctx m (b ∷ p) xs h e l =
    let eight : length (b ∷ p) ≡ 8 = omega (arith, e, h.small) in
    let full : (ctx.len == 8) ≡ true = ground (arith, h.len, eight) in
    let m' = magma_encrypt ctx.key (bit_xor m (htonll (bytes (b ∷ p)))) in
    rw (full, h.last, h.sum)
      (subst (λ s. IsAt (digest_from ctx (bytes []) m' xs) s.0 s.1)
        (sym (absorb_full ctx.key m (b ∷ p) xs eight l)) (digest_from-IsAt ctx m' xs l))

rest-IsAt :
    (ctx : Ccm) (m : ℕ) (p xs : List ℕ)
    → IsAt ctx m p
    → (0 < length xs → length p % 8 ≡ 0)
    → let s = absorb ctx.key (m, p) xs in
      IsAt (if length xs == 0 then ctx else digest ctx xs) s.0 s.1
unfolding absorb
rest-IsAt ctx m p [] h whole = h
rest-IsAt ctx m p (x ∷ xs) h whole =
    let some_data : (suc (length xs) == 0) ≡ false = ground arith in
    rw some_data (digest-IsAt ctx m p (x ∷ xs) h (whole (omega arith)) (omega arith))

filled-IsAt :
    (ctx : Ccm) (m n : ℕ) (p xs : List ℕ)
    → IsAt ctx m p
    → n ≤ length xs
    → length p + n ≤ 8
    → let ctx' = record ctx {
      last_block = copied ctx.last_block ctx.len (take n xs);
      len = ctx.len + n;
    } in
      IsAt ctx' m (p ++ take n xs)
      × (absorb ctx.key (m, p) xs ≡ absorb ctx.key (m, p ++ take n xs) (drop n xs))
filled-IsAt ctx m n p xs h inside room =
    let count = length-take n xs inside in
    let both = length-append p (take n xs) in
    (
      record {
        sum = h.sum;
        len = omega (arith, h.len, count, both);
        last = rw (h.last, h.len) (copied-bytes p (take n xs));
        small = omega (arith, count, both, room);
      },
      ap (absorb ctx.key (m, p)) (sym (take-drop n xs))
          ∙ absorb-append ctx.key (m, p) (take n xs) (drop n xs)
          ∙ ap (λ s. absorb ctx.key s (drop n xs))
              (absorb_short ctx.key m p (take n xs) (omega (arith, count, room))),
    )

-- `magma_cmac_update` absorbs its data, whatever part of a block was there.
pub magma_cmac_update-IsAt :
    (ctx : Ccm) (m : ℕ) (p xs : List ℕ)
    → IsAt ctx m p
    → let s = absorb ctx.key (m, p) xs in IsAt (magma_cmac_update ctx xs) s.0 s.1
unfolding magma_cmac_update fill
magma_cmac_update-IsAt ctx m p xs h = elim (Bool-cases (ctx.len % 8 == 0)) [
  | inl whole ↦
      rw (whole, magma_cmac_update)
        (rest-IsAt ctx m p xs h (λ some_data. ground (arith, h.len, whole)))
  | inr part ↦
      let n = if ltb (length xs) (8 - ctx.len) then length xs else 8 - ctx.len in
      let (filled, same) =
        filled-IsAt ctx m n p xs h (ground arith) (ground (arith, h.len, h.small)) in
      let most : 0 < length xs - n → length p + n ≡ 8 =
        λ more. ground (arith, more, h.len, h.small) in
      let full : 0 < length (drop n xs) → length (p ++ take n xs) % 8 ≡ 0 = λ some_data.
        let eight = most (omega (arith, some_data, length-drop n xs)) in
        let count = length-take n xs (ground arith) in
        omega (arith, length-append p (take n xs), count, eight) in
      let ctx' = record ctx {
        last_block = copied ctx.last_block ctx.len (take n xs);
        len = ctx.len + n;
      } in
      rw (part, magma_cmac_update)
        (subst
          (λ s. IsAt (if length (drop n xs) == 0 then ctx' else digest ctx' (drop n xs)) s.0 s.1)
          (sym same) (rest-IsAt ctx' m (p ++ take n xs) (drop n xs) filled full))
]

pub magma_cmac_update-key : (ctx : Ccm) (xs : List ℕ) → (magma_cmac_update ctx xs).key ≡ ctx.key
unfolding magma_cmac_update fill digest digest_from
magma_cmac_update-key ctx xs = ground arith
