-- ===== src/Checksum/Adler.antt =====
-- ADLER32: the subtractions keep both sums reduced.
use cmsis_rtos.Base.{
  ℕ, ◌+◌, ◌-◌, ◌*◌, ◌/◌, ◌%◌, ◌^◌, ◌<◌, ◌≡◌, refl, ◌∙◌, List, [], ◌∷◌, arith, leb, if◌then◌else◌,
}
use cmsis_rtos.Checksum.{adler_loop, adler32_update}

abbrev pub AllBytes : List ℕ → Type 0
AllBytes [] = Unit
AllBytes (val ∷ vals) = (val < 256) × AllBytes vals

-- The sum of the bytes and the sum of all its stages, without any reduction.
abbrev pub sums : ℕ → ℕ → List ℕ → ℕ × ℕ
sums s1 s2 [] = (s1, s2)
sums s1 s2 (val ∷ vals) = sums (s1 + val) (s2 + (s1 + val)) vals

reduced : (t : ℕ) → t < 2 * 65521 → (if leb 65521 t then t - 65521 else t) ≡ t % 65521
reduced t h = ground arith

loop-sums :
    (a b : ℕ) (vals : List ℕ)
    → AllBytes vals
    → adler_loop (a % 65521) (b % 65521) vals
      ≡ ((sums a b vals).0 % 65521, (sums a b vals).1 % 65521)
unfolding adler_loop
loop-sums a b [] all = refl
loop-sums a b (val ∷ vals) all =
    let first : (if leb 65521 (a % 65521 + val) then a % 65521 + val - 65521 else a % 65521 + val)
        ≡ (a + val) % 65521 =
      reduced (a % 65521 + val) (omega (arith, all.0)) ∙ (omega arith) in
    let second : (if leb 65521 (b % 65521 + (a + val) % 65521)
          then b % 65521 + (a + val) % 65521 - 65521
          else b % 65521 + (a + val) % 65521)
        ≡ (b + (a + val)) % 65521 =
      reduced (b % 65521 + (a + val) % 65521) (omega arith) ∙ (omega arith) in
    rw (first, second) (loop-sums (a + val) (b + (a + val)) vals all.1)

-- From a checksum whose two halves are below 65521, `ADLER32_update` of any bytes gives the checksum
-- whose halves are the remainders by 65521 of the two sums: of the bytes, and of the stages of that
-- sum. Both are below 65521, so that no sum leaves its word.
pub adler32_update-sums :
    (a b : ℕ) (vals : List ℕ)
    → a < 65521
    → b < 65521
    → AllBytes vals
    → let total = sums a b vals in
      adler32_update (b * 2 ^ 16 + a) vals ≡ total.1 % 65521 * 2 ^ 16 + total.0 % 65521
unfolding adler32_update
adler32_update-sums a b vals h k all =
    let low : (b * 2 ^ 16 + a) % 2 ^ 16 ≡ a % 65521 = omega arith in
    let high : (b * 2 ^ 16 + a) / 2 ^ 16 % 2 ^ 16 ≡ b % 65521 = omega arith in
    rw (low, high, loop-sums a b vals all) (omega arith)
