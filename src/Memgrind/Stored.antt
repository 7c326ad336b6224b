-- ===== src/Memgrind/Stored.antt =====
-- The tasks of P1/memgrind.c that store something in their objects: `task4`, a linked list, and `task5`,
-- an array that is resized.
use cs214_assignments.Base.{ℕ, zero, suc, ◌+◌, ◌-◌, ◌*◌, ◌/◌, ◌%◌, ◌&&◌, ltb, ◌==◌, if◌then◌else◌}
use cs214_assignments.Malloc.{store}
use cs214_assignments.Memgrind.{ok, endless, M, pure, ◌>>=◌, ◌>>◌, malloc, free, checked, draw}

-- The variables of `task5`.
pub record Array : Type 0 where
  pub array : ℕ
  pub size : ℕ

module _ (base : ℕ) where
  -- `array[i] = v` and `array[i]` for an array of 4-byte ints: each is a cell at its address
  unfoldable pub write_int : ℕ → ℕ → ℕ → M (Unit {0})
  write_int p i v w =
      let bytes = store w.heap.bytes (p - base + 4 * i) v in
      ok tt (record w { heap = record w.heap { bytes = bytes } })

  unfoldable pub read_int : ℕ → ℕ → M ℕ
  read_int p i w = ok (w.heap.bytes (p - base + 4 * i)) w

  -- the loops of `task5` that write `array[i] = i`, and that copy an array, from `i` on for `n` ints
  unfoldable pub fill_ints : ℕ → ℕ → ℕ → M (Unit {0})
  fill_ints p i zero = pure tt
  fill_ints p i (suc n) = do write_int p i i; fill_ints p (i + 1) n

  unfoldable pub copy_ints : ℕ → ℕ → ℕ → ℕ → M (Unit {0})
  copy_ints p old i zero = pure tt
  copy_ints p old i (suc n) = do v ← read_int old i; write_int p i v; copy_ints p old (i + 1) n

  unfoldable pub shrink_array : Array → M Array
  unfolding copy_ints
  shrink_array a = do
    p ← malloc base 178 (a.size / 2 * 4)
    p ← checked base p
    copy_ints p a.array 0 (a.size / 2)
    free base 188 a.array
    pure (record { array = p; size = a.size / 2 })

  unfoldable pub grow_array : Array → M Array
  unfolding copy_ints fill_ints
  grow_array a = do
    p ← malloc base 194 (a.size * 2 * 4)
    p ← checked base p
    copy_ints p a.array 0 a.size
    fill_ints p a.size (a.size * 2 - a.size)
    free base 208 a.array
    pure (record { array = p; size = a.size * 2 })

  -- `data` and `next` of a node, which stand at its address and 8 bytes behind
  unfoldable pub write_data : ℕ → ℕ → M (Unit {0})
  write_data p v w =
      ok tt (record w { heap = record w.heap { bytes = store w.heap.bytes (p - base + 0) v } })

  unfoldable pub write_next : ℕ → ℕ → M (Unit {0})
  write_next p q w =
      ok tt (record w { heap = record w.heap { bytes = store w.heap.bytes (p - base + 8) q } })

  unfoldable pub read_next : ℕ → M ℕ
  read_next p w = ok (w.heap.bytes (p - base + 8)) w

  -- the loop of `task4` that makes the list, by the rounds left
  unfoldable pub build : ℕ → ℕ → ℕ → M ℕ
  build zero i head = pure head
  build (suc n) i head = do
    p ← malloc base 113 16
    p ← checked base p
    write_data p i
    write_next p head
    build n (i + 1) p

  -- the node behind `prev` is left out; the head of the list then
  unfoldable pub unlink : ℕ → ℕ → ℕ → M ℕ
  unlink head prev next = if prev == 0 then pure next else (do write_next prev next; pure head)

  -- the loop that removes every other node, with fuel
  unfoldable pub remove_odd : ℕ → ℕ → ℕ → ℕ → ℕ → M ℕ
  remove_odd zero count head prev curr = λ w. endless
  remove_odd (suc f) count head prev curr =
      let removed = (do
        next ← read_next curr
        head' ← unlink head prev next
        next' ← read_next curr
        free base 137 curr
        remove_odd f (count + 1) head' prev next') in
      let passed = (do next ← read_next curr; remove_odd f (count + 1) head curr next) in
      if curr == 0 then pure head else (if count % 2 == 1 then removed else passed)

  -- the loop that frees the rest, with fuel
  unfoldable pub free_rest : ℕ → ℕ → M (Unit {0})
  free_rest zero head = λ w. endless
  free_rest (suc f) head =
      let rest = (do next ← read_next head; free base 149 head; free_rest f next) in
      if head == 0 then pure tt else rest

  -- `task4` with the number of nodes and the fuel
  unfoldable pub list_task : ℕ → ℕ → M (Unit {0})
  unfolding build remove_odd free_rest
  list_task count fuel = do
    head ← build count 0 0
    head' ← remove_odd fuel 0 head 0 head
    free_rest fuel head'

  unfoldable pub task4 : M (Unit {0})
  unfolding list_task
  task4 = list_task 60 61

  module _ (rand : ℕ → ℕ) where
    -- an operation of `task5`
    unfoldable pub resize : Array → M Array
    resize a = do
      operation ← draw base rand
      if operation % 3 == 0 && ltb 5 a.size
          then shrink_array a
          else (if operation % 3 == 1 && ltb a.size 80 then grow_array a else pure a)

    unfoldable pub task5_loop : ℕ → Array → M Array
    task5_loop zero a = pure a
    task5_loop (suc n) a = do a' ← resize a; task5_loop n a'

    unfoldable pub task5 : M (Unit {0})
    unfolding task5_loop
    task5 = do
      p ← malloc base 158 (10 * 4)
      p ← checked base p
      fill_ints p 0 10
      a ← task5_loop 100 (record { array = p; size = 10 })
      free base 214 a.array
