-- ===== src/Modbus/Found.antt =====
-- A request for registers, from its bytes to the answer.
use cmsis_rtos.Base.{
  ℕ, zero, suc, ◌+◌, ◌*◌, ◌/◌, ◌^◌, ◌≤◌, ◌<◌, ◌≡◌, refl, sym, ap, ap₂, subst, ◌∙◌, inl, inr, true,
  false, Bool-cases, Option, none, some, ◌==◌, ◌||◌, if◌then◌else◌, ltb, arith,
}
use cmsis_rtos.Memory.{Bytes}
use cmsis_rtos.Search.{Sign, bisect}
use cmsis_rtos.Search.Bisection.{IsOrdered, Sign-cases, Answer, bisect-Answer}
use cmsis_rtos.Modbus.{
  ModbusCtx, key_compare, read_network, read_map, read_holding, modbus_server_state,
}
use cmsis_rtos.Modbus.Registers.{Apart, read_map-registers}
use Sign.{negative, nothing, positive}

-- The maps of a device stand in the order of their registers and have none in common.
abbrev IsAscending : ModbusCtx → Type 0
IsAscending ctx =
    (a b : ℕ)
    → a < b
    → b < ctx.map_regs_ro_num
    → ((ctx.map_regs_ro a).reg_addr < (ctx.map_regs_ro b).reg_addr)
      × ((ctx.map_regs_ro a).reg_addr + (ctx.map_regs_ro a).reg_length
          ≤ (ctx.map_regs_ro b).reg_addr)

-- The search looks at no element behind the last one.
bisect_within :
    (f g : ℕ → Sign) (rounds l u : ℕ)
    → ((i : ℕ) → i < u → f i ≡ g i)
    → bisect f rounds l u ≡ bisect g rounds l u
unfolding bisect
bisect_within f g zero l u same = refl
bisect_within f g (suc rounds) l u same = elim (Bool-cases (ltb l u)) [
  | inr ended ↦ rw (ended, bisect) refl
  | inl more ↦
      let mid = (l + u) / 2 in
      let inside : mid < u = ground arith in
      let left = bisect_within f g rounds l mid (λ i h. same i (omega (arith, inside))) in
      let right = bisect_within f g rounds (mid + 1) u same in
      let at_mid = same mid inside in
      elim (Sign-cases (g mid)) [
        | inl lower ↦ rw (more, at_mid, lower, bisect) left
        | inr (inl upper) ↦ rw (more, at_mid, upper, bisect) right
        | inr (inr found) ↦ rw (more, at_mid, found, bisect) refl
      ]
]

-- The comparison with the maps, as if those behind the last one were beyond every register.
abbrev compare_within : ModbusCtx → ℕ → ℕ → Sign
compare_within ctx address j =
    if ltb j ctx.map_regs_ro_num then key_compare address (ctx.map_regs_ro j) else negative

compare_within-IsOrdered :
    (ctx : ModbusCtx) (address : ℕ) → IsAscending ctx → IsOrdered (compare_within ctx address)
unfolding key_compare
compare_within-IsOrdered ctx address up = record {
  below = λ i j le e. elim (Bool-cases (ltb i j)) [
    | inl less ↦ elim (Bool-cases (ltb j ctx.map_regs_ro_num)) [
      | inl within ↦
          let apart = up i j (ground (arith, less)) (ground (arith, within)) in
          ground (arith, apart, less, within, e)
      | inr beyond ↦ rw beyond refl
    ]
    | inr same ↦
        let here : i ≡ j = ground (arith, same) in
        subst (λ x. compare_within ctx address x ≡ negative) here e
  ];
  above = λ i j le e. elim (Bool-cases (ltb i j)) [
    | inl less ↦ elim (Bool-cases (ltb j ctx.map_regs_ro_num)) [
      | inl within ↦
          let apart = up i j (ground (arith, less)) (ground (arith, within)) in
          ground (arith, apart, less, within, e)
      | inr beyond ↦ absurd (cc (rw beyond at e))
    ]
    | inr same ↦
        let here : i ≡ j = ground (arith, same) in
        subst (λ x. compare_within ctx address x ≡ positive) (sym here) e
  ];
}

-- The register `k` of a map belongs to this map and no other.
key_compare_own :
    (ctx : ModbusCtx) (i j k : ℕ)
    → IsAscending ctx
    → i < ctx.map_regs_ro_num
    → j < ctx.map_regs_ro_num
    → k < (ctx.map_regs_ro i).reg_length
    → key_compare ((ctx.map_regs_ro i).reg_addr + k) (ctx.map_regs_ro j) ≡ nothing
    → j ≡ i
unfolding key_compare
key_compare_own ctx i j k up hi hj hk e = elim (Bool-cases (ltb i j)) [
  | inl above ↦
      let apart = up i j (ground (arith, above)) hj in absurd (ground (arith, apart, e, hk))
  | inr other ↦ elim (Bool-cases (ltb j i)) [
    | inl below ↦ let apart = up j i (ground (arith, below)) hi in absurd (ground (arith, apart, e))
    | inr level ↦ ground (arith, other, level)
  ]
]

own_found :
    (ctx : ModbusCtx) (i k : ℕ)
    → k < (ctx.map_regs_ro i).reg_length
    → key_compare ((ctx.map_regs_ro i).reg_addr + k) (ctx.map_regs_ro i) ≡ nothing
unfolding key_compare
own_found ctx i k h = ground arith

-- The search for a register of map `i` finds this map.
bisect_own :
    (ctx : ModbusCtx) (i k : ℕ)
    → IsAscending ctx
    → i < ctx.map_regs_ro_num
    → k < (ctx.map_regs_ro i).reg_length
    → bisect
        (λ j. key_compare ((ctx.map_regs_ro i).reg_addr + k) (ctx.map_regs_ro j))
        (suc ctx.map_regs_ro_num)
        0
        ctx.map_regs_ro_num
      ≡ some (some i)
bisect_own ctx i k up h own =
    let address = (ctx.map_regs_ro i).reg_addr + k in
    let n = ctx.map_regs_ro_num in
    let (answer, ends, found) =
      bisect-Answer (compare_within ctx address) (suc n) 0 n
        (compare_within-IsOrdered ctx address up) (omega arith) in
    bisect_within (λ j. key_compare address (ctx.map_regs_ro j)) (compare_within ctx address)
      (suc n) 0 n (λ j l. ground arith)
    ∙ ends
    ∙ ap some (is_own answer found)
  where
    is_own :
        (answer : Option ℕ)
        → Answer
            (compare_within ctx ((ctx.map_regs_ro i).reg_addr + k))
            0
            ctx.map_regs_ro_num
            answer
        → answer ≡ some i
    is_own none missing =
        absurd (missing i (omega arith) h (ground (arith, h, own_found ctx i k own)))
    is_own (some j) (_, l, e) =
        ap some (key_compare_own ctx i j k up h l own (ground (arith, l, e)))

-- Function 3 with a map that the search finds.
read_holding_found :
    (ctx : ModbusCtx) (m : Bytes) (pdu address count i : ℕ)
    → read_network m (pdu + 1) ≡ address
    → read_network m (pdu + 3) ≡ count
    → (count == 0 || ltb 0x7D count) ≡ false
    → bisect
        (λ j. key_compare address (ctx.map_regs_ro j))
        (suc ctx.map_regs_ro_num)
        0
        ctx.map_regs_ro_num
      ≡ some (some i)
    → read_holding ctx m pdu ≡ some (read_map m pdu (ctx.map_regs_ro i) address count)
unfolding read_holding
read_holding_found ctx m pdu address count i at many legal found =
    let legal' = subst (λ c. (c == 0 || ltb 0x7D c) ≡ false) (sym many) legal in
    let found' =
      subst
        (λ a.
          bisect (λ j. key_compare a (ctx.map_regs_ro j)) (suc ctx.map_regs_ro_num) 0
            ctx.map_regs_ro_num
          ≡ some (some i))
        (sym at) found in
    rw (legal', found') refl ∙ ap₂ (λ a c. some (read_map m pdu (ctx.map_regs_ro i) a c)) at many

-- A request with function code 3 for 1 to 125 registers, all of one map, from its register `k` on, by a
-- device whose maps are in order, is answered, when the registers that are read do not overlap the
-- answer, by `2 + 2 * count` bytes: the function code, the number of the bytes, and registers in
-- network order. They are those that begin `k` registers before the data of the map, at `base`, since
-- the offset has the wrong sign.
pub modbus_server_state-registers :
    (ctx : ModbusCtx) (m : Bytes) (pdu i k count base : ℕ)
    → IsAscending ctx
    → i < ctx.map_regs_ro_num
    → m pdu ≡ 3
    → read_network m (pdu + 1) ≡ (ctx.map_regs_ro i).reg_addr + k
    → read_network m (pdu + 3) ≡ count
    → 1 ≤ count
    → count ≤ 125
    → k + count ≤ (ctx.map_regs_ro i).reg_length
    → base + 2 * k ≡ (ctx.map_regs_ro i).registers
    → (ctx.map_regs_ro i).registers < 2 ^ 32
    → Apart (pdu + 2) base count
    → (m' : Bytes) × (n : ℕ) × (modbus_server_state ctx m pdu ≡ some (m', n))
      × (n ≡ 2 + 2 * count)
      × (m' pdu ≡ 3)
      × (m' (pdu + 1) ≡ 2 * count)
      × ((j : ℕ)
          → j < count
          → (m' (pdu + 2 + 2 * j) ≡ m (base + 2 * j + 1))
            × (m' (pdu + 2 + 2 * j + 1) ≡ m (base + 2 * j)))
unfolding modbus_server_state
modbus_server_state-registers ctx m pdu i k count base up h code at many pos few fits place word
      apart =
    let map = ctx.map_regs_ro i in
    let read : (m pdu == 3) ≡ true = ground (arith, code) in
    let legal : (count == 0 || ltb 0x7D count) ≡ false = ground arith in
    let found = bisect_own ctx i k up h (omega (arith, pos, fits)) in
    let r = read_map m pdu map (map.reg_addr + k) count in
    let (size, same, bytes, words) =
      read_map-registers m pdu map k count base few fits place word apart in
    (
      r.0,
      r.1,
      rw read (read_holding_found ctx m pdu (map.reg_addr + k) count i at many legal found),
      size,
      same ∙ code,
      bytes,
      words,
    )
