-- ===== src/Malloc/Overflow.antt =====
-- Requests for which `(size + 7) & ~7` of `mymalloc` (P1/src/mymalloc.c) wraps to 0.
use cs214_assignments.Base.{
  ℕ, suc, ◌+◌, ◌-◌, ◌^◌, ◌<◌, true, false, [], ◌∷◌, none, some, ◌≡◌, ◌≢◌, refl, ap, arith,
  if◌then◌else◌, ◌==◌,
}
use cs214_assignments.Malloc.{
  Mem, Heap, Site, Malloced, unable_to_allocate, find_free, find_free_from, coalesce_from, coalesce,
  place, retry, malloc_in, ready, mymalloc, round_up, split_chunk, mark_used, store, init_heap,
}

-- The heap where the first header says that the first chunk is allocated and has no bytes.
abbrev pub Jammed : Heap → Type 0
Jammed h = (h.initialized ≡ true) × (h.bytes 0 ≡ 1)

find_free_from-stops :
    (f : ℕ) (m : Mem) (n : ℕ) → m 0 ≡ 1 → find_free_from (suc f) m n 0 ≡ some none
unfolding find_free_from
find_free_from-stops f m n e = rw e refl

coalesce_from-stops : (f : ℕ) (m : Mem) → m 0 ≡ 1 → coalesce_from (suc f) m 0 ≡ some m
unfolding coalesce_from
coalesce_from-stops f m e = rw e refl

ready_self : (h : Heap) → h.initialized ≡ true → ready h ≡ h
unfolding ready
ready_self h i = ap (λ b. if b then h else init_heap h) i

-- On a jammed heap, which is initialized and whose first header is 1, every request of a byte or
-- more fails, however small.
pub mymalloc-Jammed :
    (base size : ℕ) (h : Heap) (site : Site)
    → Jammed h
    → size ≢ 0
    → mymalloc base h size site
      ≡ some (record { pointer = 0; heap = h; printed = unable_to_allocate size site ∷ [] })
unfolding mymalloc malloc_in retry find_free coalesce
mymalloc-Jammed base size h site j ne =
    let nonzero : (size == 0) ≡ false = ground arith in
    let searched = λ (n : ℕ). find_free_from-stops 511 h.bytes n j.1 in
    simp (ready_self h j.0, nonzero, searched, coalesce_from-stops 511 h.bytes j.1)

find_free-fresh : (f : ℕ) (m : Mem) → find_free_from (suc f) (store m 0 4088) 0 0 ≡ some (some 0)
unfolding find_free_from store
find_free-fresh f m = refl

taken-fresh : (m : Mem) → mark_used (split_chunk (store m 0 4088) 0 0) 0 0 ≡ 1
unfolding mark_used split_chunk store
taken-fresh m = refl

-- A request of more than 2 ^ 64 - 8 bytes, on a heap that was not used before, is granted in spite
-- of its size: the pointer is not NULL, nothing is printed, and the heap is jammed.
pub mymalloc_overflow :
    (base size : ℕ) (h : Heap) (site : Site)
    → h.initialized ≡ false
    → 2 ^ 64 - 8 < size
    → size < 2 ^ 64
    → (r : Malloced) × (mymalloc base h size site ≡ some r)
      × (r.pointer ≡ base + 8)
      × (r.printed ≡ [])
      × Jammed r.heap
unfolding mymalloc malloc_in ready init_heap find_free place
mymalloc_overflow base size h site i lo hi =
    let e : round_up size ≡ 0 = unfold round_up in omega arith in
    let nonzero : (size == 0) ≡ false = ground arith in
    let h' : Heap = record {
      bytes = mark_used (split_chunk (store h.bytes 0 4088) 0 0) 0;
      initialized = true;
      checked_at_exit = true;
    } in
    (
      record { pointer = base + 0 + 8; heap = h'; printed = [] },
      simp (i, e, nonzero, find_free-fresh 511 h.bytes),
      omega arith,
      refl,
      (refl, taken-fresh h.bytes),
    )
