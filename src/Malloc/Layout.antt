-- ===== src/Malloc/Layout.antt =====
-- Where the allocated payloads of P1/src/mymalloc.c lie, the first heap, and the report of leaks.
use cs214_assignments.Base.{
  ℕ, zero, suc, ◌+◌, ◌-◌, ◌%◌, ◌^◌, ◌≤◌, ◌<◌, ◌⊎◌, ◌≢◌, true, false, List, [], ◌∷◌, ◌++◌, some, ◌≡◌,
  refl, sym, ap, ◌∙◌, subst, arith, Bool-cases, inl, inr, length, ltb, if◌then◌else◌,
}
use Prim.Native.Nat.add
use cs214_assignments.Malloc.{
  Mem, Heap, Site, leaked, Malloced, returned, loop_fuel, leaks_from, report_leaks, check_leaks,
  init_heap, ready, mymalloc, myfree,
}
use cs214_assignments.Malloc.Chunks.{Chunks, blocks}
use cs214_assignments.Malloc.Represent.{
  Represents, Represents-span, length-le-span, header_lem, store_self,
}
use cs214_assignments.Malloc.Serve.{Holds, Served, mymalloc_lem}
use cs214_assignments.Malloc.Release.{myfree_lem}

-- Blocks in address order, each behind a header of its own: aligned to 8, not empty, inside the
-- heap, and no two overlapping.
abbrev pub InOrder : ℕ → List (ℕ × ℕ) → Type 0
InOrder lo [] = Unit
InOrder lo ((p, n) ∷ bs) =
    (lo + 8 ≤ p) × (p % 8 ≡ 0) × (0 < n) × (p + n ≤ 4096) × InOrder (p + n) bs

pub InOrder-le : {a b : ℕ} (bs : List (ℕ × ℕ)) → a ≤ b → InOrder b bs → InOrder a bs
InOrder-le [] h i = tt
InOrder-le ((p, n) ∷ bs) h i = (omega arith, i.1, i.2, i.3, i.4)

-- The allocated blocks of a heap are aligned, in bounds, and pairwise disjoint, headers included.
pub blocks-InOrder :
    (m : Mem) (off : ℕ) (cs : Chunks)
    → Represents m off cs
    → off % 8 ≡ 0
    → InOrder off (blocks off cs)
blocks-InOrder m off [] r h = tt
blocks-InOrder m off (c ∷ cs) r h =
    let rest = blocks-InOrder m (off + 8 + c.size) cs r.2 (omega (arith, r.1.size_aligned)) in
    elim (Bool-cases c.used) [
      | inl u ↦ rw u (
        omega arith,
        omega arith,
        r.1.size_pos,
        omega (arith, Represents-span m (off + 8 + c.size) cs r.2),
        rest,
      )
      | inr u ↦ rw u (InOrder-le (blocks (off + 8 + c.size) cs) (omega arith) rest)
    ]

InOrder-aligned : (lo p n : ℕ) (bs cs : List (ℕ × ℕ)) → InOrder lo (bs ++ (p, n) ∷ cs) → p % 8 ≡ 0
InOrder-aligned lo p n [] cs i = i.1
InOrder-aligned lo p n ((q, m) ∷ bs) cs i = InOrder-aligned (q + m) p n bs cs i.4

-- A new block among the old ones: the pointer is aligned, the old blocks are still there, each
-- where it was, and all of them with the new one are in order.
abbrev pub NewBlock : ℕ → ℕ → Chunks → Malloced → Chunks → Type 0
NewBlock base size cs r ds =
    (p : ℕ) × (n : ℕ) × (before : List (ℕ × ℕ)) × (after : List (ℕ × ℕ)) × (r.pointer ≡ base + p)
    × (r.pointer % 8 ≡ 0)
    × (size ≤ n)
    × (blocks 0 cs ≡ before ++ after)
    × (blocks 0 ds ≡ before ++ (p, n) ∷ after)

-- What `mymalloc` gives for a request of 1 up to 2 ^ 64 - 8 bytes on an aligned heap is aligned to
-- 8, lies inside the heap behind a header of its own, is new among the blocks that were allocated
-- before, which all stay where they are, and shares no byte with them or their headers; else the
-- pointer is NULL and the allocated blocks stay as they are.
pub mymalloc-InOrder :
    (base size : ℕ) (h : Heap) (site : Site) (cs : Chunks)
    → base % 8 ≡ 0
    → 0 < size
    → size ≤ 2 ^ 64 - 8
    → Represents (ready h).bytes 0 cs
    → (r : Malloced) × (ds : Chunks) × (mymalloc base h size site ≡ some r)
      × Holds r.heap ds
      × InOrder 0 (blocks 0 ds)
      × (((r.pointer ≡ 0) × (blocks 0 ds ≡ blocks 0 cs)) ⊎ NewBlock base size cs r ds)
mymalloc-InOrder base size h site cs align pos small rep =
    let (r, runs, outcome) = mymalloc_lem base size h site cs pos small rep in
    elim outcome [
      | inl s ↦
          let ordered = blocks-InOrder _ 0 s.chunks s.holds.represents refl in
          let at =
            InOrder-aligned 0 s.address s.given s.before s.after
              (subst (InOrder 0) s.new_blocks ordered) in
          (
            r,
            s.chunks,
            runs,
            s.holds,
            ordered,
            inr (
              s.address,
              s.given,
              s.before,
              s.after,
              s.pointer_is,
              ap (λ (k : ℕ). k % 8) s.pointer_is ∙ omega (arith, at),
              s.enough,
              s.old_blocks,
              s.new_blocks,
            ),
          )
      | inr f ↦ (
        r,
        f.chunks,
        runs,
        f.holds,
        blocks-InOrder _ 0 f.chunks f.holds.represents refl,
        inl (f.null, f.same_blocks),
      )
    ]

abbrev pub total : List (ℕ × ℕ) → ℕ
total [] = 0
total ((p, n) ∷ bs) = n + total bs

leaks_from_lem :
    (fuel : ℕ) (m : Mem) (off : ℕ) (cs : Chunks) (k b : ℕ)
    → Represents m off cs
    → length cs < fuel
    → b ≤ off
    → leaks_from fuel m off (k, b) ≡ some (k + length (blocks off cs), b + total (blocks off cs))
unfolding leaks_from
leaks_from_lem zero m off cs k b r h l = absurd (omega arith)
leaks_from_lem (suc f) m off [] k b r h l = ground arith
leaks_from_lem (suc f) m off (c ∷ cs) k b r h l =
    let (s, u) = header_lem c r.1 in
    let ends = Represents-span m (off + 8 + c.size) cs r.2 in
    let ih_used = leaks_from_lem f m (off + 8 + c.size) cs (k + 1) ((b + c.size) % 2 ^ 64) r.2 in
    let ih_free = leaks_from_lem f m (off + 8 + c.size) cs k b r.2 in
    rw (r.0, s, u)
      (elim (Bool-cases c.used) [
        | inl used ↦ rw used (ground (arith, ends, ih_used, r.1.size_pos))
        | inr free ↦ rw free (ground (arith, ends, ih_free, r.1.size_pos))
      ])

-- On a heap that holds a list of chunks `check_leaks` reports the number of allocated blocks and
-- the sum of their sizes, and prints nothing where no block is allocated.
pub check_leaks_lem :
    (h : Heap) (cs : Chunks)
    → Represents h.bytes 0 cs
    → check_leaks h
      ≡ some (
          if ltb 0 (length (blocks 0 cs))
          then leaked (total (blocks 0 cs)) (length (blocks 0 cs)) ∷ []
          else [])
unfolding check_leaks report_leaks
check_leaks_lem h cs r =
    let e =
      leaks_from_lem loop_fuel h.bytes 0 cs 0 0 r (omega (arith, length-le-span h.bytes 0 cs r))
        (omega arith) in
    rw (e, add.zero, add.zero)

-- The first call of `mymalloc` finds one free chunk that takes up the whole heap.
pub init_heap-Holds :
    (h : Heap)
    → Holds (init_heap h) (record { size = 4088; used = false } ∷ [])
      × ((init_heap h).checked_at_exit ≡ true)
unfolding init_heap
init_heap-Holds h = (
  record {
    is_initialized = refl;
    represents =
        (store_self h.bytes 0 4088, record { size_pos = omega arith; size_aligned = refl }, refl);
  },
  refl,
)

Served-myfree :
    (base size : ℕ) (h : Heap) (site : Site) (cs : Chunks) (r : Malloced)
    → base % 8 ≡ 0
    → Served base size h cs r
    → (h' : Heap) × (ds : Chunks) × (myfree base r.heap r.pointer site ≡ some (returned h'))
      × Holds h' ds
      × (blocks 0 ds ≡ blocks 0 cs)
Served-myfree base size h site cs r align s =
    let (h', e, done) =
      myfree_lem base s.address s.given r.heap site s.chunks s.before s.after align s.holds
        s.new_blocks in
    (h', done.chunks, rw s.pointer_is e, done.holds, done.blocks_are ∙ sym s.old_blocks)

-- What `mymalloc` gave for a request of 1 up to 2 ^ 64 - 8 bytes, `myfree` takes back at once: it
-- returns, and the heap has the blocks that it had before the request.
pub mymalloc-myfree :
    (base size : ℕ) (h : Heap) (site site' : Site) (cs : Chunks) (r : Malloced)
    → base % 8 ≡ 0
    → 0 < size
    → size ≤ 2 ^ 64 - 8
    → Represents (ready h).bytes 0 cs
    → mymalloc base h size site ≡ some r
    → r.pointer ≢ 0
    → (h' : Heap) × (ds : Chunks) × (myfree base r.heap r.pointer site' ≡ some (returned h'))
      × Holds h' ds
      × (blocks 0 ds ≡ blocks 0 cs)
mymalloc-myfree base size h site site' cs r align pos small rep runs ne =
    let (r', runs', outcome) = mymalloc_lem base size h site cs pos small rep in
    let same : r' ≡ r = cc in
    elim outcome [
      | inl s ↦
          Served-myfree base size (ready h) site' cs r align
            (subst (Served base size (ready h) cs) same s)
      | inr f ↦ absurd (ne (ap (λ (m : Malloced). m.pointer) (sym same) ∙ f.null))
    ]
