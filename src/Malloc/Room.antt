-- ===== src/Malloc/Room.antt =====
-- How many requests P1/src/mymalloc.c can serve at least, however its heap is cut up.
use cs214_assignments.Base.{
  ℕ, ◌+◌, ◌-◌, ◌*◌, ◌%◌, ◌^◌, ◌≤◌, ◌<◌, false, List, [], ◌∷◌, none, some, ◌≡◌, subst, arith,
  Bool-cases, inl, inr, length, leb,
}
use cs214_assignments.Malloc.{Heap, Site, Malloced, round_up, ready, mymalloc}
use cs214_assignments.Malloc.Chunks.{Chunk, Chunks, blocks, span, first_fit, Separated, StartsUsed}
use cs214_assignments.Malloc.Represent.{Represents, Represents-span}
use cs214_assignments.Malloc.Serve.{Served, mymalloc_lem, round_up_lem}
use cs214_assignments.Malloc.Layout.{total}

-- What the blocks can take away at most from requests for `n` bytes: their bytes, their headers, and
-- a free chunk in front of each that is too small.
abbrev pub taken_away : ℕ → List (ℕ × ℕ) → ℕ
taken_away n [] = 0
taken_away n ((p, m) ∷ bs) = m + 8 + n + taken_away n bs

Separated-tail : (c : Chunk) (cs : Chunks) → Separated (c ∷ cs) → Separated cs
Separated-tail c [] s = tt
Separated-tail c (d ∷ cs) s = s.1

Separated-next : (c : Chunk) (cs : Chunks) → c.used ≡ false → Separated (c ∷ cs) → StartsUsed cs
Separated-next c [] free s = tt
Separated-next c (d ∷ cs) free s = s.0 free

-- Where no chunk has `n` free bytes and no two neighbours are free, the chunks end early.
crowded :
    (m : ℕ → ℕ) (n off : ℕ) (cs : Chunks)
    → n % 8 ≡ 0
    → Represents m off cs
    → Separated cs
    → first_fit n off cs ≡ none
    → (span cs ≤ taken_away n (blocks off cs) + n)
      × (StartsUsed cs → span cs ≤ taken_away n (blocks off cs))
crowded m n off [] al r s e = (omega arith, λ u. omega arith)
crowded m n off (c ∷ cs) al r s e = elim (Bool-cases c.used) [
  | inl used ↦
      let ih = crowded m n (off + 8 + c.size) cs al r.2 (Separated-tail c cs s) (rw used at e) in
      rw used (omega (arith, ih.0), λ u. omega (arith, ih.0))
  | inr free ↦ elim (Bool-cases (leb n c.size)) [
    | inl fit ↦ absurd (cc (rw (free, fit) at e))
    | inr small ↦
        let ih =
          crowded m n (off + 8 + c.size) cs al r.2 (Separated-tail c cs s)
            (rw (free, small) at e) in
        let rest = ih.1 (Separated-next c cs free s) in
        rw free (ground (arith, rest, r.1.size_aligned), λ u. cc)
  ]
]

taken_away_lem : (n : ℕ) (bs : List (ℕ × ℕ)) → taken_away n bs ≡ total bs + (8 + n) * length bs
taken_away_lem n [] = omega arith
taken_away_lem n ((p, m) ∷ bs) = grind (arith, taken_away_lem n bs)

-- A request of 1 up to 2 ^ 64 - 8 bytes, `n` when rounded up, is served on a heap that holds a list
-- of chunks however they are cut up, as long as the bytes of the allocated blocks, `8 + n` for each
-- of them, and `n` are less than 4096 in all.
pub mymalloc_room :
    (base size : ℕ) (h : Heap) (site : Site) (cs : Chunks)
    → 0 < size
    → size ≤ 2 ^ 64 - 8
    → Represents (ready h).bytes 0 cs
    → let n = round_up size in
      total (blocks 0 cs) + (8 + n) * length (blocks 0 cs) + n < 4096
      → (r : Malloced) × (mymalloc base h size site ≡ some r) × Served base size (ready h) cs r
mymalloc_room base size h site cs pos small rep room =
    let (r, runs, outcome) = mymalloc_lem base size h site cs pos small rep in
    elim outcome [
      | inl s ↦ (r, runs, s)
      | inr f ↦
          let n = round_up size in
          let al = (round_up_lem size pos small).0 in
          let c =
            (crowded r.heap.bytes n 0 f.chunks al f.holds.represents f.separated f.no_room).0 in
          let c' : span f.chunks ≤ taken_away n (blocks 0 cs) + n =
            subst (λ bs. span f.chunks ≤ taken_away n bs + n) f.same_blocks c in
          absurd (
            omega (
              arith,
              c',
              taken_away_lem n (blocks 0 cs),
              room,
              Represents-span r.heap.bytes 0 f.chunks f.holds.represents,
            ))
    ]
