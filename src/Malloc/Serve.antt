-- ===== src/Malloc/Serve.antt =====
-- `mymalloc` of P1/src/mymalloc.c on a heap that holds a list of chunks.
use cs214_assignments.Base.{
  ℕ, ◌+◌, ◌-◌, ◌%◌, ◌^◌, ◌≤◌, ◌<◌, ◌⊎◌, true, false, List, [], ◌∷◌, ◌++◌, none, some, ◌≡◌, refl,
  sym, ◌∙◌, subst, arith, Option-cases, inl, inr, ◌==◌,
}
use cs214_assignments.Malloc.{
  Mem, Heap, Site, unable_to_allocate, Malloced, loop_fuel, find_free, coalesce, round_up, place,
  retry, malloc_in, ready, init_heap, mymalloc,
}
use cs214_assignments.Malloc.Chunks.{Chunks, blocks, first_fit, Separated}
use cs214_assignments.Malloc.Represent.{
  Represents, length-le-span, SameIn, SameIn-trans, find_free_from-first_fit,
}
use cs214_assignments.Malloc.Merge.{Merged, coalesce_from-Merged}
use cs214_assignments.Malloc.Allocate.{taken-Allocated}

pub record Holds (h : Heap) (cs : Chunks) : Type 0 where
  pub is_initialized : h.initialized ≡ true
  pub represents : Represents h.bytes 0 cs

-- A new block for the caller, apart from the old ones.
pub record Served (base size : ℕ) (h : Heap) (cs : Chunks) (r : Malloced) : Type 0 where
  pub address : ℕ
  pub given : ℕ
  pub chunks : Chunks
  pub before : List (ℕ × ℕ)
  pub after : List (ℕ × ℕ)
  pub pointer_is : r.pointer ≡ base + address
  pub holds : Holds r.heap chunks
  pub enough : size ≤ given
  pub not_wasteful : given ≤ round_up size + 8
  pub old_blocks : blocks 0 cs ≡ before ++ after
  pub new_blocks : blocks 0 chunks ≡ before ++ (address, given) ∷ after
  pub kept : SameIn h.bytes r.heap.bytes (blocks 0 cs)
  pub silent : r.printed ≡ []

-- NULL and a message; the blocks stay, and no free chunk is large enough though all free
-- neighbours are merged.
pub record Refused (size : ℕ) (site : Site) (h : Heap) (cs : Chunks) (r : Malloced) : Type 0 where
  pub chunks : Chunks
  pub null : r.pointer ≡ 0
  pub holds : Holds r.heap chunks
  pub same_blocks : blocks 0 chunks ≡ blocks 0 cs
  pub separated : Separated chunks
  pub no_room : first_fit (round_up size) 0 chunks ≡ none
  pub kept : SameIn h.bytes r.heap.bytes (blocks 0 cs)
  pub printed_is : r.printed ≡ unable_to_allocate size site ∷ []

-- On a heap that holds a list of chunks `find_free` ends within its fuel and gives the first chunk
-- that is free and has at least `n` bytes, or NULL where there is none.
pub find_free-first_fit :
    (m : Mem) (n : ℕ) (cs : Chunks) → Represents m 0 cs → find_free m n ≡ some (first_fit n 0 cs)
unfolding find_free
find_free-first_fit m n cs r =
    find_free_from-first_fit loop_fuel m n 0 cs r (omega (arith, length-le-span m 0 cs r))

-- `coalesce` ends within its fuel on a heap that holds a list of chunks: no two free neighbours are
-- left, and the allocated blocks and all that is stored in them stay as they are.
pub coalesce-Merged : (m : Mem) (cs : Chunks) → Represents m 0 cs → Merged m 0 cs (coalesce m)
unfolding coalesce
coalesce-Merged m cs r =
    coalesce_from-Merged loop_fuel m 0 cs r (omega (arith, length-le-span m 0 cs r))

-- `(size + 7) & ~7` where the sum does not wrap
pub round_up_lem :
    (size : ℕ)
    → 0 < size
    → size ≤ 2 ^ 64 - 8
    → (round_up size % 8 ≡ 0) × (size ≤ round_up size) × (round_up size < size + 8)
unfolding round_up
round_up_lem size h k = omega arith

ready-initialized : (h : Heap) → (ready h).initialized ≡ true
unfolding ready init_heap
ready-initialized h = ground arith

place-Served :
    (base size x : ℕ) (h : Heap) (cs : Chunks)
    → 0 < size
    → size ≤ 2 ^ 64 - 8
    → Holds h cs
    → first_fit (round_up size) 0 cs ≡ some x
    → Served base size h cs (place base h (round_up size) x)
unfolding place
place-Served base size x h cs pos small held found =
    let (aligned, enough, _) = round_up_lem size pos small in
    let g =
      taken-Allocated h.bytes x (round_up size) cs held.represents aligned (omega arith) found in
    record {
      address = x + 8;
      given = g.size;
      chunks = g.chunks;
      before = g.before;
      after = g.after;
      pointer_is = omega arith;
      holds = record { is_initialized = held.is_initialized; represents = g.represents };
      enough = omega (arith, g.enough);
      not_wasteful = g.not_wasteful;
      old_blocks = g.old_blocks;
      new_blocks = g.new_blocks;
      kept = g.kept;
      silent = refl;
    }

abbrev Outcome : ℕ → ℕ → Site → Heap → Chunks → Malloced → Type 0
Outcome base size site h cs r = Served base size h cs r ⊎ Refused size site h cs r

-- The heap behind the merge serves for the heap before it.
Served-merged :
    {base size : ℕ} {h h' : Heap} {cs ds : Chunks} {r : Malloced}
    → blocks 0 ds ≡ blocks 0 cs
    → SameIn h.bytes h'.bytes (blocks 0 cs)
    → Served base size h' ds r
    → Served base size h cs r
Served-merged {h} {h'} {cs} {r} e same s = record {
  address = s.address;
  given = s.given;
  chunks = s.chunks;
  before = s.before;
  after = s.after;
  pointer_is = s.pointer_is;
  holds = s.holds;
  enough = s.enough;
  not_wasteful = s.not_wasteful;
  old_blocks = sym e ∙ s.old_blocks;
  new_blocks = s.new_blocks;
  kept = SameIn-trans h.bytes h'.bytes r.heap.bytes _ same (subst (SameIn _ _) e s.kept);
  silent = s.silent;
}

retry_lem :
    (base size : ℕ) (h : Heap) (site : Site) (cs : Chunks)
    → 0 < size
    → size ≤ 2 ^ 64 - 8
    → Holds h cs
    → (r : Malloced) × (retry base h size site ≡ some r) × Outcome base size site h cs r
unfolding retry
retry_lem base size h site cs pos small held =
    let g = coalesce-Merged h.bytes cs held.represents in
    let h' = record h { bytes = g.mem } in
    let held' : Holds h' g.chunks = record {
      is_initialized = held.is_initialized;
      represents = g.represents;
    } in
    rw (g.result_is, find_free-first_fit g.mem (round_up size) g.chunks g.represents)
      (elim (Option-cases (first_fit (round_up size) 0 g.chunks)) [
        | inl e ↦ (
          record { pointer = 0; heap = h'; printed = unable_to_allocate size site ∷ [] },
          rw e,
          inr (record {
            chunks = g.chunks;
            null = refl;
            holds = held';
            same_blocks = g.same_blocks;
            separated = g.separated;
            no_room = e;
            kept = g.kept;
            printed_is = refl;
          }),
        )
        | inr (x, e) ↦ (
          place base h' (round_up size) x,
          rw e,
          inl (
              Served-merged g.same_blocks g.kept
                (place-Served base size x h' g.chunks pos small held' e)),
        )
      ])

malloc_in_lem :
    (base size : ℕ) (h : Heap) (site : Site) (cs : Chunks)
    → 0 < size
    → size ≤ 2 ^ 64 - 8
    → Holds h cs
    → (r : Malloced) × (malloc_in base h size site ≡ some r) × Outcome base size site h cs r
unfolding malloc_in
malloc_in_lem base size h site cs pos small held =
    let nonzero : (size == 0) ≡ false = ground arith in
    rw (nonzero, find_free-first_fit h.bytes (round_up size) cs held.represents)
      (elim (Option-cases (first_fit (round_up size) 0 cs)) [
        | inl e ↦ rw e (retry_lem base size h site cs pos small held)
        | inr (x, e) ↦ (
          place base h (round_up size) x,
          rw e,
          inl (place-Served base size x h cs pos small held e),
        )
      ])

-- `mymalloc` returns for every request of 1 up to 2 ^ 64 - 8 bytes on a heap that holds a list of
-- chunks, and either gives a block of at least `size` bytes that it adds to the allocated ones, or
-- returns NULL with a message and leaves the allocated blocks as they are, when no free chunk is
-- large enough. No allocated payload changes.
pub mymalloc_lem :
    (base size : ℕ) (h : Heap) (site : Site) (cs : Chunks)
    → 0 < size
    → size ≤ 2 ^ 64 - 8
    → Represents (ready h).bytes 0 cs
    → (r : Malloced) × (mymalloc base h size site ≡ some r)
      × (Served base size (ready h) cs r ⊎ Refused size site (ready h) cs r)
unfolding mymalloc
mymalloc_lem base size h site cs pos small r =
    malloc_in_lem base size (ready h) site cs pos small
      (record { is_initialized = ready-initialized h; represents = r })
