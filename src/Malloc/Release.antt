-- ===== src/Malloc/Release.antt =====
-- `myfree` of P1/src/mymalloc.c on a heap that holds a list of chunks.
use cs214_assignments.Base.{
  ℕ, zero, suc, ◌+◌, ◌-◌, ◌%◌, ◌≤◌, ◌≢◌, true, false, List, [], ◌∷◌, ◌++◌, some, ◌≡◌, refl, sym, ap,
  ◌∙◌, subst, subst₂, arith, Option-cases, inl, inr,
}
use cs214_assignments.Malloc.{
  Mem, Heap, add_size, store, Site, inappropriate_pointer, returned, exited, loop_fuel, coalesce,
  coalesce_from, valid_ptr, size_bits, is_used, myfree,
}
use cs214_assignments.Malloc.Chunks.{Chunk, Chunks, IsChunk, span, blocks, Separated}
use cs214_assignments.Malloc.Represent.{
  Represents, Represents-at, Represents-store, Represents-span, store_self, store_ne, header_lem,
  SameIn, SameIn-trans, SameIn-store, header,
}
use cs214_assignments.Malloc.Surgery.{
  blocks-BlockAt, blocks-append, Represents-suffix, Represents-replace, SameIn-append, SameIn-below,
}
use cs214_assignments.Malloc.Serve.{Holds, coalesce-Merged}

-- the chunk with its flag cleared
abbrev freed_chunk : Chunk → Chunk
freed_chunk c = record { size = c.size; used = false }

-- One block less, no payload changed, and no two free neighbours.
pub record Released (h h' : Heap) (before after : List (ℕ × ℕ)) : Type 0 where
  pub chunks : Chunks
  pub holds : Holds h' chunks
  pub blocks_are : blocks 0 chunks ≡ before ++ after
  pub separated : Separated chunks
  pub kept : SameIn h.bytes h'.bytes (before ++ after)

-- The header of an allocated chunk passes every test of `myfree`.
myfree-accepts :
    (base x : ℕ) (h : Heap) (site : Site) (c : Chunk) (m' : Mem)
    → base % 8 ≡ 0
    → x % 8 ≡ 0
    → h.bytes x ≡ header c
    → IsChunk c
    → c.used ≡ true
    → x + 8 + c.size ≤ 4096
    → coalesce (store h.bytes x c.size) ≡ some m'
    → myfree base h (base + x + 8) site ≡ some (returned (record h { bytes = m' }))
unfolding myfree valid_ptr
myfree-accepts base x h site c m' align xa at_x i u fit merged =
    let (a, b) = header_lem c i in
    let e : base + x + 8 - 8 - base ≡ x = omega arith in
    rw (e, at_x, a, b, u, merged) (ground (arith, i.size_pos))

-- The memory with the flag of one chunk cleared.
cleared-Represents :
    (m : Mem) (x : ℕ) (xs ys : Chunks) (c : Chunk)
    → x ≡ 0 + span xs
    → Represents m 0 (xs ++ c ∷ ys)
    → Represents (store m x c.size) 0 (xs ++ freed_chunk c ∷ ys)
cleared-Represents m x xs ys c e r =
    let rc = Represents-at m (c ∷ ys) (sym e) (Represents-suffix m 0 xs (c ∷ ys) r) in
    Represents-replace m _ 0 xs (c ∷ ys) _ r (λ a h. store_ne m x c.size a (omega arith))
      (Represents-at (store m x c.size) (freed_chunk c ∷ ys) e (
        store_self m x c.size ∙ omega arith,
        record { size_pos = rc.1.size_pos; size_aligned = rc.1.size_aligned },
        Represents-store m x c.size (x + 8 + c.size) ys (omega arith) rc.2,
      ))

headers_aligned :
    (m : Mem) (off : ℕ) (xs ys : Chunks)
    → Represents m off (xs ++ ys)
    → off % 8 ≡ 0
    → (off + span xs) % 8 ≡ 0
headers_aligned m off [] ys r h = omega arith
headers_aligned m off (c ∷ xs) ys r h = omega (
  arith,
  r.1.size_aligned,
  headers_aligned m (off + 8 + c.size) xs ys r.2 (omega (arith, r.1.size_aligned)),
)

-- What is left of the blocks when the chunk is freed.
blocks-freed :
    (x : ℕ) (xs ys : Chunks) (c : Chunk)
    → x ≡ 0 + span xs
    → blocks 0 (xs ++ freed_chunk c ∷ ys) ≡ blocks 0 xs ++ blocks (x + 8 + c.size) ys
blocks-freed x xs ys c e = blocks-append 0 xs (freed_chunk c ∷ ys) ∙ rw (← e) refl

release_at :
    (base x : ℕ) (h : Heap) (site : Site) (xs ys : Chunks) (c : Chunk)
    → base % 8 ≡ 0
    → h.initialized ≡ true
    → x ≡ 0 + span xs
    → c.used ≡ true
    → Represents h.bytes 0 (xs ++ c ∷ ys)
    → (h' : Heap) × (myfree base h (base + x + 8) site ≡ some (returned h'))
      × Released h h' (blocks 0 xs) (blocks (x + 8 + c.size) ys)
release_at base x h site xs ys c align init e u r =
    let rc = Represents-at h.bytes (c ∷ ys) (sym e) (Represents-suffix h.bytes 0 xs (c ∷ ys) r) in
    let m = store h.bytes x c.size in
    let left = blocks-freed x xs ys c e in
    let g =
      coalesce-Merged m (xs ++ freed_chunk c ∷ ys) (cleared-Represents h.bytes x xs ys c e r) in
    let aligned : x % 8 ≡ 0 = omega (arith, headers_aligned h.bytes 0 xs (c ∷ ys) r refl) in
    let fit : x + 8 + c.size ≤ 4096 =
      omega (arith, Represents-span h.bytes (x + 8 + c.size) ys rc.2) in
    let written =
      SameIn-append h.bytes m (blocks 0 xs) _
        (SameIn-below h.bytes m 0 xs (λ a k. store_ne h.bytes x c.size a (omega arith)))
        (SameIn-store h.bytes x c.size (x + 8 + c.size) ys (omega arith)) in
    (
      record h { bytes = g.mem },
      myfree-accepts base x h site c g.mem align aligned rc.0 rc.1 u fit g.result_is,
      record {
        chunks = g.chunks;
        holds = record { is_initialized = init; represents = g.represents };
        blocks_are = g.same_blocks ∙ left;
        separated = g.separated;
        kept = SameIn-trans h.bytes m g.mem _ written (subst (SameIn m g.mem) left g.kept);
      },
    )

-- `myfree` of the address of an allocated block, on a heap with an aligned base, returns, takes
-- just that block away, changes no other payload, and leaves no two free neighbours.
pub myfree_lem :
    (base p n : ℕ) (h : Heap) (site : Site) (cs : Chunks) (xs ys : List (ℕ × ℕ))
    → base % 8 ≡ 0
    → Holds h cs
    → blocks 0 cs ≡ xs ++ (p, n) ∷ ys
    → (h' : Heap) × (myfree base h (base + p) site ≡ some (returned h')) × Released h h' xs ys
myfree_lem base p n h site cs xs ys align held e =
    let b = blocks-BlockAt 0 p n cs xs ys e in
    let (h', runs, done) =
      release_at base b.header_at h site b.before b.after b.chunk align held.is_initialized
        b.split.at_header b.is_used (rw b.split.splits at held.represents) in
    let at_p : base + b.header_at + 8 ≡ base + p = omega (arith, b.address) in
    let ends : b.header_at + 8 + b.chunk.size ≡ p + n = omega (arith, b.address, b.size_is) in
    (
      h',
      subst (λ k. myfree base h k site ≡ some (returned h')) at_p runs,
      subst₂ (Released h h') b.blocks_before (ap (λ k. blocks k b.after) ends ∙ b.blocks_after)
          done,
    )

store-is_used :
    (m : Mem) (x v a : ℕ) → is_used (m a) ≡ false → is_used (store m x (size_bits v) a) ≡ false
unfolding store
store-is_used m x v a u = ground arith

-- `coalesce` sets no flag.
coalesce_from-is_used :
    (fuel : ℕ) (m : Mem) (off x : ℕ) {m' : Mem}
    → coalesce_from fuel m off ≡ some m'
    → is_used (m x) ≡ false
    → is_used (m' x) ≡ false
unfolding coalesce_from
coalesce_from-is_used zero m off x e u = cc
coalesce_from-is_used (suc f) m off x {m'} e u =
    let next = off + 8 + size_bits (m off) in
    let word = add_size (add_size (size_bits (m off)) 8) (size_bits (m next)) in
    let again = coalesce_from-is_used f (store m off (size_bits word)) off x {m' = m'} in
    let advance = coalesce_from-is_used f m next x {m' = m'} in
    let stop : m ≡ m' → is_used (m' x) ≡ false = λ p. rw (← p) u in
    ground (arith, again, advance, stop, store-is_used m off word x u)

-- A call that returns has merged the heap with the flag cleared.
myfree-cleared :
    (base ptr : ℕ) (h h' : Heap) (site : Site)
    → ptr ≢ 0
    → myfree base h ptr site ≡ some (returned h')
    → (coalesce (store h.bytes (ptr - 8 - base) (size_bits (h.bytes (ptr - 8 - base))))
        ≡ some h'.bytes)
unfolding myfree
myfree-cleared base ptr h h' site ne e =
    elim (Option-cases
      (coalesce (store h.bytes (ptr - 8 - base) (size_bits (h.bytes (ptr - 8 - base)))))) [
        | inl none_left ↦ ground arith
        | inr (m, some_left) ↦ ground arith
      ]

myfree-refuses :
    (base ptr : ℕ) (h : Heap) (site : Site)
    → ptr ≢ 0
    → is_used (h.bytes (ptr - 8 - base)) ≡ false
    → myfree base h ptr site ≡ some (exited 2 (inappropriate_pointer site))
unfolding myfree
myfree-refuses base ptr h site ne u = rw u (ground arith)

-- Double free: a pointer other than NULL that `myfree` has accepted it refuses when it is called
-- with it again at once, on any heap.
pub double_free :
    (base ptr : ℕ) (h h' : Heap) (site again : Site)
    → ptr ≢ 0
    → myfree base h ptr site ≡ some (returned h')
    → myfree base h' ptr again ≡ some (exited 2 (inappropriate_pointer again))
unfolding coalesce
double_free base ptr h h' site again ne e =
    let x = ptr - 8 - base in
    let w = size_bits (h.bytes x) in
    let cleared : is_used (store h.bytes x w x) ≡ false =
      rw (store_self h.bytes x w) (ground arith) in
    myfree-refuses base ptr h' again ne (
      coalesce_from-is_used loop_fuel (store h.bytes x w) 0 x
        (myfree-cleared base ptr h h' site ne e) cleared)
