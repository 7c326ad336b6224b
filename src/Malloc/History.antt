-- ===== src/Malloc/History.antt =====
-- Whole histories of calls of `mymalloc` and `myfree` (P1/src/mymalloc.c) by a client that frees only
-- what it was given.
use cs214_assignments.Base.{
  ℕ, ◌+◌, ◌-◌, ◌%◌, ◌^◌, ◌≤◌, ◌<◌, ◌⊎◌, ◌≢◌, false, List, [], ◌∷◌, ◌++◌, some, ◌≡◌, refl, sym, ap,
  ◌∙◌, subst, arith, inl, inr, length,
}
use cs214_assignments.Malloc.{Heap, Site, Malloced, returned, init_heap, ready, mymalloc, myfree}
use cs214_assignments.Malloc.Chunks.{Chunks, blocks}
use cs214_assignments.Malloc.Represent.{Represents}
use cs214_assignments.Malloc.Serve.{Holds, Served, mymalloc_lem}
use cs214_assignments.Malloc.Release.{myfree_lem}
use cs214_assignments.Malloc.Layout.{InOrder, InOrder-le, blocks-InOrder, init_heap-Holds}
use cs214_assignments.Malloc.Picks.{Picks, done, pick, Picks-remove, length-Picks}

-- no pointer of the list is `p`
abbrev pub Avoids : ℕ → List ℕ → Type 0
Avoids p [] = Unit
Avoids p (x ∷ xs) = (p ≢ x) × Avoids p xs

abbrev pub Distinct : List ℕ → Type 0
Distinct [] = Unit
Distinct (x ∷ xs) = Avoids x xs × Distinct xs

-- The heaps that a client can reach, with the pointers that it was given and has not freed, the
-- last one given first: every result of `mymalloc` counts, and any live pointer may be freed.
pub data Reached (base : ℕ) : Heap → List ℕ → Type 0 where
  unused : (h : Heap) → h.initialized ≡ false → Reached base h []
  given :
      (h : Heap) (live : List ℕ) (size : ℕ) (site : Site) (r : Malloced)
      → Reached base h live
      → 0 < size
      → size ≤ 2 ^ 64 - 8
      → mymalloc base h size site ≡ some r
      → r.pointer ≢ 0
      → Reached base r.heap (r.pointer ∷ live)
  refused :
      (h : Heap) (live : List ℕ) (size : ℕ) (site : Site) (r : Malloced)
      → Reached base h live
      → 0 < size
      → size ≤ 2 ^ 64 - 8
      → mymalloc base h size site ≡ some r
      → r.pointer ≡ 0
      → Reached base r.heap live
  freed :
      (h h' : Heap) (xs ys : List ℕ) (p : ℕ) (site : Site)
      → Reached base h (xs ++ p ∷ ys)
      → myfree base h p site ≡ some (returned h')
      → Reached base h' (xs ++ ys)

-- no block is at `q`
abbrev Clear : ℕ → List (ℕ × ℕ) → Type 0
Clear q [] = Unit
Clear q ((p, n) ∷ bs) = (q ≢ p) × Clear q bs

Clear-remove :
    (q a k : ℕ) (bs cs : List (ℕ × ℕ)) → Clear q (bs ++ (a, k) ∷ cs) → (q ≢ a) × Clear q (bs ++ cs)
Clear-remove q a k [] cs c = c
Clear-remove q a k (b ∷ bs) cs c =
    let (here, rest) = Clear-remove q a k bs cs c.1 in (here, (c.0, rest))

InOrder-Clear : (q lo : ℕ) (bs : List (ℕ × ℕ)) → q < lo + 8 → InOrder lo bs → Clear q bs
InOrder-Clear q lo [] h i = tt
InOrder-Clear q lo ((p, n) ∷ bs) h i =
    (λ e. omega (arith, i.0), InOrder-Clear q (p + n) bs (omega (arith, i.0)) i.4)

InOrder-lo : (lo p n : ℕ) (bs cs : List (ℕ × ℕ)) → InOrder lo (bs ++ (p, n) ∷ cs) → lo + 8 ≤ p
InOrder-lo lo p n [] cs i = i.0
InOrder-lo lo p n ((q, m) ∷ bs) cs i = omega (arith, i.0, InOrder-lo (q + m) p n bs cs i.4)

-- a block taken out: the others are in order and elsewhere
InOrder-remove :
    (lo p n : ℕ) (bs cs : List (ℕ × ℕ))
    → InOrder lo (bs ++ (p, n) ∷ cs)
    → InOrder lo (bs ++ cs) × Clear p (bs ++ cs)
InOrder-remove lo p n [] cs i =
    (InOrder-le cs (omega (arith, i.0)) i.4, InOrder-Clear p (p + n) cs (omega arith) i.4)
InOrder-remove lo p n ((q, m) ∷ bs) cs i =
    let (ordered, clear) = InOrder-remove (q + m) p n bs cs i.4 in
    ((i.0, i.1, i.2, i.3, ordered), (λ e. omega (arith, InOrder-lo (q + m) p n bs cs i.4), clear))

module _ (base : ℕ) where
  Picks-Avoids :
      (q : ℕ) (live : List ℕ) (bs : List (ℕ × ℕ))
      → Picks base live bs
      → Clear q bs
      → Avoids (base + q) live
  Picks-Avoids q live bs done c = tt
  Picks-Avoids q live bs (pick {p} {ps} a k before after at splits rest) c =
      let (other, clear) = Clear-remove q a k before after (subst (Clear q) splits c) in
      (λ e. other (omega arith), Picks-Avoids q ps (before ++ after) rest clear)

  -- the pointers of blocks in order are distinct
  Picks-Distinct :
      (live : List ℕ) (bs : List (ℕ × ℕ)) → Picks base live bs → InOrder 0 bs → Distinct live
  Picks-Distinct live bs done i = tt
  Picks-Distinct live bs (pick {p} {ps} a k before after at splits rest) i =
      let (ordered, clear) = InOrder-remove 0 a k before after (subst (InOrder 0) splits i) in
      (
        subst (λ x. Avoids x ps) (sym at) (Picks-Avoids a ps (before ++ after) rest clear),
        Picks-Distinct ps (before ++ after) rest ordered,
      )

  -- The heap was not used yet, or holds chunks whose allocated blocks are the client's.
  abbrev Consistent : Heap → List ℕ → Type 0
  Consistent h live =
      ((h.initialized ≡ false) × (live ≡ []))
      ⊎ ((cs : Chunks) × Holds h cs × Picks base live (blocks 0 cs))

  ready-Consistent :
      (h : Heap) (live : List ℕ)
      → Consistent h live
      → (cs : Chunks) × Represents (ready h).bytes 0 cs × Picks base live (blocks 0 cs)
  unfolding ready init_heap
  ready-Consistent h live (inl (new, none_live)) = (
    record { size = 4088; used = false } ∷ [],
    rw new ((init_heap-Holds h).0.represents),
    subst (λ k. Picks base k []) (sym none_live) done,
  )
  ready-Consistent h live (inr (cs, held, e)) = (cs, rw held.is_initialized held.represents, e)

  given-Consistent :
      (h : Heap) (size : ℕ) (cs : Chunks) (r : Malloced) (live : List ℕ)
      → Served base size h cs r
      → Picks base live (blocks 0 cs)
      → Consistent r.heap (r.pointer ∷ live)
  given-Consistent h size cs r live s k = inr (
    s.chunks,
    s.holds,
    pick s.address s.given s.before s.after s.pointer_is s.new_blocks
        (subst (Picks base live) s.old_blocks k),
  )

  -- a live pointer is freed
  free-live :
      (h : Heap) (xs ys : List ℕ) (p : ℕ) (site : Site)
      → base % 8 ≡ 0
      → Consistent h (xs ++ p ∷ ys)
      → (h' : Heap) × (myfree base h p site ≡ some (returned h')) × Consistent h' (xs ++ ys)
  free-live h [] ys p site align (inl (new, e)) = absurd (cc)
  free-live h (x ∷ xs) ys p site align (inl (new, e)) = absurd (cc)
  free-live h xs ys p site align (inr (cs, held, picks)) =
      let k = Picks-remove base xs ys p (blocks 0 cs) picks in
      let (h', runs, out) =
        myfree_lem base k.address k.size h site cs k.before k.after align held k.splits in
      (
        h',
        ap (λ x. myfree base h x site) k.pointer_is ∙ runs,
        inr (out.chunks, out.holds, subst (Picks base (xs ++ ys)) (sym out.blocks_are) k.others),
      )

  Reached-Consistent :
      (h : Heap) (live : List ℕ) → base % 8 ≡ 0 → 0 < base → Reached base h live → Consistent h live
  Reached-Consistent h live align pos (unused g new) = inl (new, refl)
  Reached-Consistent h live align pos (given g live' size site r before pos_size small runs ne) =
      let (cs, rep, k) = ready-Consistent g live' (Reached-Consistent g live' align pos before) in
      let (r', runs', outcome) = mymalloc_lem base size g site cs pos_size small rep in
      let same : r' ≡ r = cc in
      elim outcome [
        | inl s ↦
            given-Consistent (ready g) size cs r live'
              (subst (Served base size (ready g) cs) same s) k
        | inr f ↦ absurd (ne (ap (λ (m : Malloced). m.pointer) (sym same) ∙ f.null))
      ]
  Reached-Consistent h live align pos
        (refused g live' size site r before pos_size small runs null) =
      let (cs, rep, k) = ready-Consistent g live' (Reached-Consistent g live' align pos before) in
      let (r', runs', outcome) = mymalloc_lem base size g site cs pos_size small rep in
      let same : r' ≡ r = cc in
      elim outcome [
        | inl s ↦
            let at : r.pointer ≡ base + s.address =
              ap (λ (m : Malloced). m.pointer) (sym same) ∙ s.pointer_is in
            absurd (omega arith)
        | inr f ↦
            subst (λ (m : Malloced). Consistent m.heap live') same
              (inr (f.chunks, f.holds, subst (Picks base live') (sym f.same_blocks) k))
      ]
  Reached-Consistent h live align pos (freed g g' xs ys p site before runs) =
      let (h', runs', c) =
        free-live g xs ys p site align (Reached-Consistent g (xs ++ p ∷ ys) align pos before) in
      let same : h' ≡ g' = cc in subst (λ (k : Heap). Consistent k (xs ++ ys)) same c

  -- However a client has called `mymalloc`, for 1 up to 2 ^ 64 - 8 bytes, and `myfree`, with the
  -- pointers that it was given and has not freed, in any order: no two of these pointers are the
  -- same, each is the address of an allocated block of its own and there is no other block, the
  -- blocks are aligned, in bounds and disjoint, and `myfree` of any of them returns. The base is
  -- aligned and not 0.
  pub Reached_lem :
      (h : Heap) (live : List ℕ)
      → base % 8 ≡ 0
      → 0 < base
      → Reached base h live
      → ((cs : Chunks) × Represents (ready h).bytes 0 cs
          × InOrder 0 (blocks 0 cs)
          × Picks base live (blocks 0 cs)
          × (length (blocks 0 cs) ≡ length live))
        × Distinct live
        × ((xs ys : List ℕ) (p : ℕ) (site : Site)
            → live ≡ xs ++ p ∷ ys
            → (h' : Heap) × (myfree base h p site ≡ some (returned h')))
  Reached_lem h live align pos reached =
      let c = Reached-Consistent h live align pos reached in
      let (cs, rep, picks) = ready-Consistent h live c in
      let ordered = blocks-InOrder (ready h).bytes 0 cs rep refl in
      (
        (cs, rep, ordered, picks, length-Picks base live (blocks 0 cs) picks),
        Picks-Distinct live (blocks 0 cs) picks ordered,
        λ xs ys p site e.
            let (h', runs, _) = free-live h xs ys p site align (subst (Consistent h) e c) in
            (h', runs),
      )
