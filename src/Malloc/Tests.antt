-- ===== src/Malloc/Tests.antt =====
-- Runs of P1/src/mymalloc.c, and its theorems at concrete heaps.
use cs214_assignments.Base.{
  ℕ, ◌+◌, ◌-◌, ◌^◌, ◌⊎◌, true, false, List, [], ◌∷◌, ◌++◌, some, ◌≡◌, refl, arith, ◌==◌,
  if◌then◌else◌, length, ltb,
}
use cs214_assignments.Malloc.{
  init_heap, Mem, Heap, Site, unable_to_allocate, inappropriate_pointer, leaked, Malloced, returned,
  exited, find_free, find_free_from, coalesce, coalesce_from, place, malloc_in, ready, store,
  round_up, mymalloc, valid_ptr, myfree, check_leaks, leaks_from, report_leaks,
}
use cs214_assignments.Malloc.Chunks.{Chunks, blocks, first_fit}
use cs214_assignments.Malloc.Represent.{Represents}
use cs214_assignments.Malloc.Merge.{Merged}
use cs214_assignments.Malloc.Serve.{
  Holds, Served, Refused, mymalloc_lem, coalesce-Merged, find_free-first_fit,
}
use cs214_assignments.Malloc.Release.{Released, myfree_lem, double_free}
use cs214_assignments.Malloc.Layout.{
  InOrder, NewBlock, mymalloc-InOrder, total, check_leaks_lem, mymalloc-myfree,
}
use cs214_assignments.Malloc.Picks.{Picks}
use cs214_assignments.Malloc.History.{Distinct, Reached, unused, given, Reached_lem}
use cs214_assignments.Malloc.Room.{mymalloc_room}
use cs214_assignments.Malloc.Overflow.{Jammed, mymalloc-Jammed, mymalloc_overflow}

abbrev here : Site
here = record { file = []; line = 7 }

-- A heap before the first call.
abbrev fresh_heap : Heap
fresh_heap = record { bytes = λ a. 0; initialized = false; checked_at_exit = false }

abbrev whole : Chunks
whole = record { size = 4088; used = false } ∷ []

-- A heap with two blocks, of 24 and 16 bytes, and a hole of 40 bytes between them.
abbrev sample_bytes : Mem
sample_bytes a =
    if a == 0
    then 25
    else if a == 32
    then 40
    else if a == 80
    then 17
    else if a == 104
    then 3984
    else 0

abbrev sample : Heap
sample = record { bytes = sample_bytes; initialized = true; checked_at_exit = true }

abbrev sample_chunks : Chunks
sample_chunks =
    record { size = 24; used = true }
    ∷ record { size = 40; used = false }
    ∷ record { size = 16; used = true }
    ∷ record { size = 3984; used = false }
    ∷ []

sample-Represents : Represents sample_bytes 0 sample_chunks
sample-Represents = omega arith

sample-Holds : Holds sample sample_chunks
sample-Holds = record { is_initialized = refl; represents = sample-Represents }

ready-Represents : Represents (ready sample).bytes 0 sample_chunks
unfolding ready
ready-Represents = sample-Represents

sample_blocks : blocks 0 sample_chunks ≡ (8, 24) ∷ (88, 16) ∷ []
sample_blocks = refl

-- the first chunk that is large enough is split
malloc_splits : find_free sample_bytes 40 ≡ some (some 32)
unfolding find_free find_free_from
malloc_splits = refl

leaks_reported : check_leaks sample ≡ some (leaked 40 2 ∷ [])
unfolding check_leaks leaks_from report_leaks
leaks_reported = refl

find_free-first_fit_example : find_free sample_bytes 48 ≡ some (first_fit 48 0 sample_chunks)
find_free-first_fit_example = find_free-first_fit sample_bytes 48 sample_chunks sample-Represents

coalesce-Merged_example : Merged sample_bytes 0 sample_chunks (coalesce sample_bytes)
coalesce-Merged_example = coalesce-Merged sample_bytes sample_chunks sample-Represents

mymalloc_lem_example :
    (r : Malloced) × (mymalloc 65536 sample 30 here ≡ some r)
    × (Served 65536 30 (ready sample) sample_chunks r
        ⊎ Refused 30 here (ready sample) sample_chunks r)
mymalloc_lem_example =
    mymalloc_lem 65536 30 sample here sample_chunks (omega arith) (omega arith) ready-Represents

mymalloc-InOrder_example :
    (r : Malloced) × (ds : Chunks) × (mymalloc 65536 sample 30 here ≡ some r)
    × Holds r.heap ds
    × InOrder 0 (blocks 0 ds)
    × (((r.pointer ≡ 0) × (blocks 0 ds ≡ blocks 0 sample_chunks))
        ⊎ NewBlock 65536 30 sample_chunks r ds)
mymalloc-InOrder_example =
    mymalloc-InOrder 65536 30 sample here sample_chunks refl (omega arith) (omega arith)
      ready-Represents

myfree_lem_example :
    (h' : Heap) × (myfree 65536 sample (65536 + 88) here ≡ some (returned h'))
    × Released sample h' ((8, 24) ∷ []) []
myfree_lem_example =
    myfree_lem 65536 88 16 sample here sample_chunks ((8, 24) ∷ []) [] refl sample-Holds refl

-- a request of 30 bytes is rounded up to 32, and takes the hole of 40
served : mymalloc 65536 sample 30 here ≡ some (place 65536 sample 32 32)
unfolding mymalloc malloc_in ready round_up find_free find_free_from
served = refl

mymalloc-myfree_example :
    (h' : Heap) × (ds : Chunks) × (myfree 65536
        (place 65536 sample 32 32).heap
        (place 65536 sample 32 32).pointer
        here
      ≡ some (returned h'))
    × Holds h' ds
    × (blocks 0 ds ≡ (8, 24) ∷ (88, 16) ∷ [])
unfolding place
mymalloc-myfree_example =
    mymalloc-myfree 65536 30 sample here here sample_chunks (place 65536 sample 32 32) refl
      (omega arith) (omega arith) ready-Represents served (λ e. absurd (omega arith))

-- the heap behind the free of the first block
abbrev freed : Heap
freed = record {
  bytes = store (store sample_bytes 0 24) 0 72;
  initialized = true;
  checked_at_exit = true;
}

frees_first : myfree 65536 sample 65544 here ≡ some (returned freed)
unfolding myfree valid_ptr coalesce coalesce_from store
frees_first = refl

double_free_example : myfree 65536 freed 65544 here ≡ some (exited 2 (inappropriate_pointer here))
double_free_example =
    double_free 65536 65544 sample freed here here (λ e. absurd (omega arith)) frees_first

check_leaks_lem_example :
    check_leaks sample
    ≡ some (
        if ltb 0 (length (blocks 0 sample_chunks))
        then leaked (total (blocks 0 sample_chunks)) (length (blocks 0 sample_chunks)) ∷ []
        else [])
check_leaks_lem_example = check_leaks_lem sample sample_chunks sample-Represents

mymalloc_overflow_example :
    (r : Malloced) × (mymalloc 65536 fresh_heap (2 ^ 64 - 1) here ≡ some r)
    × (r.pointer ≡ 65536 + 8)
    × (r.printed ≡ [])
    × Jammed r.heap
mymalloc_overflow_example =
    mymalloc_overflow 65536 (2 ^ 64 - 1) fresh_heap here refl (omega arith) (omega arith)

abbrev jammed : Heap
jammed = record { bytes = λ a. 1; initialized = true; checked_at_exit = true }

mymalloc-Jammed_example :
    mymalloc 65536 jammed 1 here
    ≡ some (record { pointer = 0; heap = jammed; printed = unable_to_allocate 1 here ∷ [] })
mymalloc-Jammed_example =
    mymalloc-Jammed 65536 1 jammed here (refl, refl) (λ e. absurd (omega arith))

-- the first call, for 30 bytes
abbrev first : Malloced
first = place 65536 (init_heap fresh_heap) 32 0

first_call : mymalloc 65536 fresh_heap 30 here ≡ some first
unfolding mymalloc malloc_in ready init_heap round_up find_free find_free_from store
first_call = refl

first-Reached : Reached 65536 first.heap (65544 ∷ [])
unfolding place
first-Reached =
    given fresh_heap [] 30 here first (unused fresh_heap refl) (omega arith) (omega arith)
      first_call (λ e. absurd (omega arith))

Reached_lem_example :
    ((cs : Chunks) × Represents (ready first.heap).bytes 0 cs
      × InOrder 0 (blocks 0 cs)
      × Picks 65536 (65544 ∷ []) (blocks 0 cs)
      × (length (blocks 0 cs) ≡ 1))
    × Distinct (65544 ∷ [])
    × ((xs ys : List ℕ) (p : ℕ) (site : Site)
        → 65544 ∷ [] ≡ xs ++ p ∷ ys
        → (h' : Heap) × (myfree 65536 first.heap p site ≡ some (returned h')))
Reached_lem_example = Reached_lem 65536 first.heap (65544 ∷ []) refl (omega arith) first-Reached

mymalloc_room_example :
    (r : Malloced) × (mymalloc 65536 sample 30 here ≡ some r)
    × Served 65536 30 (ready sample) sample_chunks r
unfolding round_up
mymalloc_room_example =
    mymalloc_room 65536 30 sample here sample_chunks (omega arith) (omega arith) ready-Represents
      (omega arith)
