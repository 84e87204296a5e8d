-- ===== src/Pipe/Ordered.antt =====
-- The pipe against the list of the items that it holds.
use cmsis_rtos.Base.{
  ℕ, ◌+◌, ◌-◌, ◌%◌, ◌^◌, ◌≤◌, ◌<◌, ◌≡◌, refl, ap, ap₂, ◌∙◌, inl, inr, true, false, Bool-cases, ◌==◌,
  leb, if◌then◌else◌, List, [], ◌∷◌, ◌++◌, length, length-append, arith,
}
use cmsis_rtos.Semaphore.{enter, leave, fetch_add_loop}
use cmsis_rtos.Pipe.{Pipe, stored, turned, pipe_write, pipe_read, pipe_create}

-- The place of a position some items ahead.
abbrev pub ahead : ℕ → ℕ → ℕ → ℕ
ahead len pos n = if leb (pos + n) len then pos + n else pos + n - len

-- The items from a position on.
abbrev pub Holds : (ℕ → ℕ) → ℕ → ℕ → List ℕ → Type 0
Holds base len pos [] = Unit
Holds base len pos (x ∷ xs) = (base (turned len pos) ≡ x) × Holds base len (turned len pos + 1) xs

-- The pipe holds the items, from the read position on up to the write position.
pub record HasItems (p : Pipe) (xs : List ℕ) : Type 0 where
  pub counted : p.count ≡ length xs
  pub bounded : length xs ≤ p.length
  pub word : p.length < 2 ^ 16
  pub some_place : 0 < p.length
  pub read_bound : p.read_pos ≤ p.length
  pub position : p.write_pos ≡ ahead p.length p.read_pos (length xs)
  pub items : Holds p.base p.length p.read_pos xs

-- A write at the position behind the items adds one and keeps the others.
Holds-stored :
    (base : ℕ → ℕ) (len pos item w : ℕ) (xs : List ℕ)
    → pos ≤ len
    → length xs < len
    → w ≡ ahead len pos (length xs)
    → Holds base len pos xs
    → Holds (stored base (turned len w) item) len pos (xs ++ (item ∷ []))
Holds-stored base len pos item w [] h k e items =
    let same : w ≡ pos = ground (arith, e) in (ground (arith, same), tt)
Holds-stored base len pos item w (x ∷ xs) h k e items =
    let other : (turned len pos == turned len w) ≡ false = ground (arith, e, h, k) in
    let next : w ≡ ahead len (turned len pos + 1) (length xs) = ground (arith, e, h, k) in
    (
      rw other items.0,
      Holds-stored base len (turned len pos + 1) item w xs (ground (arith, h, k)) (omega (arith, k))
          next items.1,
    )

-- `pipe_write` with room for an item.
write-HasItems :
    (item : ℕ) (p : Pipe) (xs : List ℕ)
    → HasItems p xs
    → length xs < p.length
    → ((pipe_write item p).0 ≡ length xs)
      × HasItems (pipe_write item p).1 (xs ++ (item ∷ []))
      × ((pipe_write item p).1.length ≡ p.length)
unfolding pipe_write leave fetch_add_loop
write-HasItems item p xs h room =
    let free : (p.count == p.length) ≡ false = ground (arith, h.counted) in
    let longer = length-append xs (item ∷ []) in
    rw free (
      h.counted,
      record {
        counted = omega (arith, h.counted, h.word, longer);
        bounded = omega (arith, longer);
        word = h.word;
        some_place = h.some_place;
        read_bound = h.read_bound;
        position = ground (arith, h.position, h.word, h.read_bound, longer);
        items =
            Holds-stored p.base p.length p.read_pos item p.write_pos xs h.read_bound room h.position
              h.items;
      },
      refl,
    )

-- `pipe_read` of a pipe with items.
read-HasItems :
    (p : Pipe) (x : ℕ) (xs : List ℕ)
    → HasItems p (x ∷ xs)
    → ((pipe_read p).0 ≡ x) × HasItems (pipe_read p).1 xs × ((pipe_read p).1.length ≡ p.length)
unfolding pipe_read enter
read-HasItems p x xs h =
    let some_items : (p.count == 0) ≡ false = ground (arith, h.counted) in
    let place : (turned p.length p.read_pos + 1) % 2 ^ 16 ≡ turned p.length p.read_pos + 1 =
      ground (arith, h.word, h.read_bound, h.some_place) in
    rw (some_items, some_items, place)
      (
        h.items.0,
        record {
          counted = omega (arith, h.counted, h.bounded, h.word);
          bounded = omega (arith, h.bounded);
          word = h.word;
          some_place = h.some_place;
          read_bound = ground (arith, h.read_bound, h.some_place);
          position = ground (arith, h.position, h.bounded, h.read_bound, h.some_place);
          items = h.items.1;
        },
        refl,
      )

-- The calls, and what they return one after another.
pub data Call : Type 0 where
  write : ℕ → Call
  read : Call

unfoldable pub call : Call → Pipe → ℕ × Pipe
call (write item) p = pipe_write item p
call read p = pipe_read p

unfoldable pub run : List Call → Pipe → List ℕ
run [] p = []
run (c ∷ cs) p = let r = call c p in r.0 ∷ run cs r.1

-- The same on a list: a write returns the number of the items before, and 0 when the list is full; a
-- read returns the first item, and 0 when there is none.
unfoldable pub queued : ℕ → Call → List ℕ → ℕ × List ℕ
queued len (write item) xs = if length xs == len then (0, xs) else (length xs, xs ++ (item ∷ []))
queued len read [] = (0, [])
queued len read (x ∷ xs) = (x, xs)

unfoldable pub replay : ℕ → List Call → List ℕ → List ℕ
replay len [] xs = []
replay len (c ∷ cs) xs = let r = queued len c xs in r.0 ∷ replay len cs r.1

call-HasItems :
    (c : Call) (p : Pipe) (xs : List ℕ)
    → HasItems p xs
    → ((call c p).0 ≡ (queued p.length c xs).0)
      × HasItems (call c p).1 (queued p.length c xs).1
      × ((call c p).1.length ≡ p.length)
unfolding call queued pipe_write pipe_read enter
call-HasItems (write item) p xs h = elim (Bool-cases (length xs == p.length)) [
  | inl full ↦
      let full' : (p.count == p.length) ≡ true = rw h.counted full in
      rw (full, full') (refl, h, refl)
  | inr room ↦ rw room (write-HasItems item p xs h (ground (arith, h.bounded)))
]
call-HasItems read p [] h =
    let empty : (p.count == 0) ≡ true = ground (arith, h.counted) in rw empty (refl, h, refl)
call-HasItems read p (x ∷ xs) h = read-HasItems p x xs h

run-queued :
    (cs : List Call) (p : Pipe) (xs : List ℕ) → HasItems p xs → run cs p ≡ replay p.length cs xs
unfolding run replay
run-queued [] p xs h = refl
run-queued (c ∷ cs) p xs h =
    let (same, items, len) = call-HasItems c p xs h in
    ap₂ (λ y ys. y ∷ ys) same
      (run-queued cs (call c p).1 (queued p.length c xs).1 items
        ∙ ap (λ n. replay n cs (queued p.length c xs).1) len)

-- A new pipe of 1 to 65535 places, whatever stands in its array, returns over any writes and reads what
-- a list does that holds as many items: each read gives the items in the order of the writes, or 0
-- when there is none, and each write the number of the items before it, or 0 when there is no room.
pub run-in_order :
    (cs : List Call) (len : ℕ) (base : ℕ → ℕ)
    → 0 < len
    → len < 2 ^ 16
    → run cs (pipe_create len base) ≡ replay len cs []
unfolding pipe_create
run-in_order cs len base pos word =
    let fits : len % 2 ^ 16 ≡ len = omega arith in
    run-queued cs (pipe_create len base) [] (record {
      counted = refl;
      bounded = omega arith;
      word = omega arith;
      some_place = omega arith;
      read_bound = omega arith;
      position = ground arith;
      items = tt;
    })
    ∙ ap (λ n. replay n cs []) fits
