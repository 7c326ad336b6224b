-- ===== src/Memgrind.antt =====
-- P1/memgrind.c over the allocator of P1/src/mymalloc.c: how a program calls it, and the first three
-- tasks. What `rand` returns is a parameter, a sequence of numbers.
pub mod Owned
pub mod Stored
pub mod Main
pub mod Tasks
pub mod Random
pub mod Arrays
pub mod Resizes
pub mod Linked
pub mod Nodes
pub mod Making
pub mod Removal
pub mod Rounds
pub mod Program
mod Tests
use cs214_assignments.Base.{
  ℕ, zero, suc, ◌*◌, ◌/◌, ◌&&◌, ◌+◌, ◌-◌, ◌%◌, Bool, true, false, List, [], ◌∷◌, ◌++◌, Option, none,
  some, ltb, ◌==◌, if◌then◌else◌, get_or, set, replicate,
}
use cs214_assignments.Base.Bytes.{codes}
use cs214_assignments.Malloc.{
  store, Heap, Site, Message, Malloced, Freed, returned, exited, mymalloc, myfree,
}

abbrev pub alloc_count : ℕ
alloc_count = 120

abbrev pub num_runs : ℕ
num_runs = 50

-- The heap, what was printed to stderr, and how often `rand` was called.
pub record World : Type 0 where
  pub heap : Heap
  pub stderr : List Message
  pub drawn : ℕ

-- The process goes on, or was ended by `exit`; `endless` where a loop is out of fuel.
pub data Run (A : Type 0) : Type 0 where
  ok : A → World → Run A
  exit : ℕ → Run A
  endless : Run A

abbrev pub M : Type 0 → Type 0
M A = World → Run A

abbrev pub pure : {A : Type 0} → A → M A
pure a w = ok a w

abbrev pub fail : {A : Type 0} → ℕ → M A
fail code w = exit code

infixl 5 ◌>>=◌ ◌>>◌
abbrev pub ◌>>=◌ : {A B : Type 0} → M A → (A → M B) → M B
◌>>=◌ m f w = elim (m w) [ ok a w' ↦ f a w' | exit code ↦ exit code | endless ↦ endless ]

abbrev pub ◌>>◌ : {B : Type 0} → M (Unit {0}) → M B → M B
m >> k = m >>= λ _. k

abbrev pub site : ℕ → Site
site line = record { file = codes "memgrind.c"; line = line }

-- The variables of `task3`.
pub record Slots : Type 0 where
  pub ptrs : List ℕ
  pub allocated : ℕ
  pub total : ℕ

module _ (base : ℕ) where
  -- the macro `malloc` on a line of the file
  unfoldable pub malloc : ℕ → ℕ → M ℕ
  malloc line size w = elim (mymalloc base w.heap size (site line)) [
    | none ↦ endless
    | some r ↦ ok r.pointer (record w { heap = r.heap; stderr = w.stderr ++ r.printed })
  ]

  -- the macro `free`
  unfoldable pub free : ℕ → ℕ → M (Unit {0})
  free line p w = elim (myfree base w.heap p (site line)) as (λ _. Run (Unit {0})) [
    | none ↦ endless
    | some (returned h) ↦ ok tt (record w { heap = h })
    | some (exited code m) ↦ exit code
  ]

  -- what stands behind each call of `malloc`
  abbrev pub checked : ℕ → M ℕ
  checked p = if p == 0 then fail 1 else pure p

  -- the loop of `task1`, by the rounds left
  unfoldable pub task1_loop : ℕ → M (Unit {0})
  task1_loop zero = pure tt
  task1_loop (suc n) = do p ← malloc 20 1; p ← checked p; free 25 p; task1_loop n

  unfoldable pub task1 : M (Unit {0})
  unfolding task1_loop
  task1 = task1_loop alloc_count

  -- the first loop of `task2`, behind the pointers that are in the array
  unfoldable pub fill : ℕ → List ℕ → M (List ℕ)
  fill zero ptrs = pure ptrs
  fill (suc n) ptrs = do p ← malloc 35 1; p ← checked p; fill n (ptrs ++ p ∷ [])

  -- the second loop of `task2`
  unfoldable pub free_all : List ℕ → M (Unit {0})
  free_all [] = pure tt
  free_all (p ∷ ps) = do free 44 p; free_all ps

  unfoldable pub task2 : M (Unit {0})
  unfolding fill free_all
  task2 = do ptrs ← fill alloc_count []; free_all ptrs

  -- the loop over the slots that allocates at the first empty one, and how many it filled
  unfoldable pub fill_first : List ℕ → M (List ℕ × ℕ)
  fill_first [] = pure ([], 0)
  fill_first (x ∷ xs) =
      if x == 0
      then (do p ← malloc 66 1; p ← checked p; pure (p ∷ xs, 1))
      else (do r ← fill_first xs; pure (x ∷ r.0, r.1))

  -- the loop that frees the first object from slot `start + i` on, by the rounds left
  unfoldable pub free_first : ℕ → ℕ → List ℕ → M (List ℕ × ℕ)
  free_first zero idx ptrs = pure (ptrs, 0)
  free_first (suc n) idx ptrs =
      let i = idx % alloc_count in
      let p = get_or ptrs i 0 in
      let next = free_first n (idx + 1) ptrs in
      if p == 0 then next else (do free 84 p; pure (set ptrs i 0, 1))

  -- an allocation of `task3`
  unfoldable pub grow : Slots → M Slots
  grow s = do
    r ← fill_first s.ptrs
    pure (record { ptrs = r.0; allocated = s.allocated + r.1; total = s.total + r.1 })

  -- the clean-up
  unfoldable pub free_slots : List ℕ → M (Unit {0})
  free_slots [] = pure tt
  free_slots (p ∷ ps) = let rest = free_slots ps in if p == 0 then rest else (do free 97 p; rest)

  module _ (rand : ℕ → ℕ) where
    unfoldable pub draw : M ℕ
    draw w = ok (rand w.drawn) (record w { drawn = w.drawn + 1 })

    -- a deallocation of `task3`
    unfoldable pub shrink : Slots → M Slots
    shrink s = do
      start ← draw
      r ← free_first alloc_count (start % alloc_count) s.ptrs
      pure (record { ptrs = r.0; allocated = s.allocated - r.1; total = s.total })

    -- the body of the `while`
    unfoldable pub task3_round : Slots → M Slots
    task3_round s = do
      choice ← draw
      if choice % 2 == 0
          then (if ltb s.allocated alloc_count then grow s else pure s)
          else (if ltb 0 s.allocated then shrink s else pure s)

    -- the `while`, with fuel
    unfoldable pub task3_loop : ℕ → Slots → M Slots
    task3_loop zero s = λ w. endless
    task3_loop (suc f) s =
        let more = (do s' ← task3_round s; task3_loop f s') in
        if ltb s.total alloc_count then more else pure s

    unfoldable pub task3 : ℕ → M (Unit {0})
    unfolding task3_loop free_slots
    task3 fuel = do
      s ← task3_loop fuel (record { ptrs = replicate alloc_count 0; allocated = 0; total = 0 })
      free_slots s.ptrs
