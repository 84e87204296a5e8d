-- ===== src/Tss/Destroyed.antt =====
-- The end of a thread's keys.
use cmsis_rtos.Base.{
  ℕ, ◌≡◌, refl, ◌∙◌, false, ◌==◌, ◌&&◌, not, if◌then◌else◌, List, [], ◌∷◌, contains, Distinct,
  arith,
}
use cmsis_rtos.Tss.{Tss, put, tss_delete, tss_destroy}

-- The calls of the destructors, by what stands in the entries at first.
abbrev pub due : List ℕ → Tss → List (ℕ × ℕ)
due [] s = []
due (key ∷ keys) s =
    let rest = due keys s in
    if not (s.dtor key == 0) && not (s.value key == 0)
    then (s.dtor key, s.value key) ∷ rest
    else rest

due-delete :
    (key : ℕ) (keys : List ℕ) (s : Tss)
    → contains key keys ≡ false
    → due keys (tss_delete key s) ≡ due keys s
unfolding tss_delete
due-delete key [] s h = refl
due-delete key (k ∷ keys) s h =
    let other : (k == key) ≡ false = ground (arith, h) in
    rw (other, due-delete key keys s (ground (arith, h))) refl

cleared :
    (f : ℕ → ℕ) (key k : ℕ) (keys : List ℕ)
    → (if contains k keys then 0 else put f key 0 k) ≡ (if contains k (key ∷ keys) then 0 else f k)
cleared f key k keys = ground arith

-- The end of a thread with different keys calls, from the newest key on, the destructor of each key
-- that has one and a value, with that value, and no other; afterwards all its keys are without value
-- and destructor, and the other keys are as they were.
pub tss_destroy_lem :
    (keys : List ℕ) (s : Tss)
    → Distinct keys
    → let (calls, s') = tss_destroy keys s in
      (calls ≡ due keys s)
      × ((k : ℕ) → s'.value k ≡ (if contains k keys then 0 else s.value k))
      × ((k : ℕ) → s'.dtor k ≡ (if contains k keys then 0 else s.dtor k))
unfolding tss_destroy tss_delete
tss_destroy_lem [] s d = (refl, λ k. refl, λ k. refl)
tss_destroy_lem (key ∷ keys) s d =
    let (calls, values, dtors) = tss_destroy_lem keys (tss_delete key s) d.1 in
    let same = calls ∙ due-delete key keys s d.0 in
    (
      rw same refl,
      λ k. values k ∙ cleared s.value key k keys,
      λ k. dtors k ∙ cleared s.dtor key k keys,
    )
