-- ===== src/Malloc/Allocate.antt =====
-- What `split_chunk` and the marking of `mymalloc` (P1/src/mymalloc.c) do to a free chunk.
use cs214_assignments.Base.{
  ℕ, ◌+◌, ◌-◌, ◌%◌, ◌≤◌, ◌<◌, ◌⊎◌, ◌≢◌, true, false, List, ◌∷◌, ◌++◌, some, ◌≡◌, sym, ap, ◌∙◌,
  arith, Bool-cases, inl, inr, leb, leb→le, if◌then◌else◌,
}
use cs214_assignments.Malloc.{Mem, store, split_chunk, mark_used, size_bits}
use cs214_assignments.Malloc.Chunks.{Chunk, Chunks, IsChunk, span, blocks, fits, first_fit, carve}
use cs214_assignments.Malloc.Represent.{
  Represents, Represents-at, Represents-same, SameIn-above, Represents-span, SameIn, header,
  header_lem,
}
use cs214_assignments.Malloc.Surgery.{
  blocks-append, Represents-suffix, Represents-replace, SameIn-below, SameIn-append,
  first_fit-Split,
}

-- the memory behind the last two writes of `mymalloc`
abbrev pub taken : Mem → ℕ → ℕ → Mem
taken m x n = mark_used (split_chunk m x n) x

module _ (m : Mem) (x n : ℕ) (c : Chunk) (at_x : m x ≡ header c) (i : IsChunk c)
    (free : c.used ≡ false) (aligned : n % 8 ≡ 0) (small : c.size ≤ 4096) where
  word : size_bits (m x) ≡ c.size
  word = ap size_bits at_x ∙ (header_lem c i).0

  split_at_x : n + 16 ≤ c.size → taken m x n x ≡ n + 1
  unfolding mark_used split_chunk store
  split_at_x h = ground (arith, word)

  split_at_rest : n + 16 ≤ c.size → taken m x n (x + 8 + n) ≡ c.size - n - 8
  unfolding mark_used split_chunk store
  split_at_rest h = ground (arith, word, i.size_aligned)

  split_elsewhere : (a : ℕ) → n + 16 ≤ c.size → a ≢ x → a ≢ x + 8 + n → taken m x n a ≡ m a
  unfolding mark_used split_chunk store
  split_elsewhere a h p q = ground (arith, word)

  whole_at_x : n ≤ c.size → c.size < n + 16 → taken m x n x ≡ c.size + 1
  unfolding mark_used split_chunk store
  whole_at_x h k = ground (arith, word)

  whole_elsewhere : (a : ℕ) → n ≤ c.size → c.size < n + 16 → a ≢ x → taken m x n a ≡ m a
  unfolding mark_used split_chunk store
  whole_elsewhere a h k p = ground (arith, word)

-- the payload that `mymalloc` gives of a free chunk
abbrev pub granted : ℕ → Chunk → ℕ
granted n c = if leb (n + 16) c.size then n else c.size

module _ (m : Mem) (x n : ℕ) (c : Chunk) (ys : Chunks) (r : Represents m x (c ∷ ys))
    (fit : fits n c ≡ true) (aligned : n % 8 ≡ 0) (pos : 0 < n) where
  free_chunk : (c.used ≡ false) × (n ≤ c.size) × (c.size ≤ 4096)
  free_chunk = ground (arith, Represents-span m (x + 8 + c.size) ys r.2)

  small_chunk : c.size ≤ 4096
  small_chunk = free_chunk.2

  taken-Represents : Represents (taken m x n) x (carve n c ys)
  taken-Represents = elim (Bool-cases (leb (n + 16) c.size)) [
    | inl h ↦
        let le = leb→le (n + 16) c.size h in
        let else_same =
          λ (a : ℕ). split_elsewhere m x n c r.0 r.1 free_chunk.0 aligned small_chunk a le in
        rw h (
          split_at_x m x n c r.0 r.1 free_chunk.0 aligned small_chunk le,
          record { size_pos = pos; size_aligned = aligned },
          (
            split_at_rest m x n c r.0 r.1 free_chunk.0 aligned small_chunk le ∙ omega arith,
            record { size_pos = omega arith; size_aligned = omega (arith, r.1.size_aligned) },
            Represents-at _ ys (omega arith) (
                Represents-same m _ (x + 8 + c.size) ys
                  (λ a k. else_same a (omega arith) (omega arith)) r.2),
          ),
        )
    | inr h ↦
        let lt : c.size < n + 16 = ground arith in
        rw h (
          whole_at_x m x n c r.0 r.1 free_chunk.0 aligned small_chunk free_chunk.1 lt,
          record { size_pos = r.1.size_pos; size_aligned = r.1.size_aligned },
          Represents-same m _ (x + 8 + c.size) ys
              (λ a k.
                whole_elsewhere m x n c r.0 r.1 free_chunk.0 aligned small_chunk a free_chunk.1 lt
                  (omega arith))
              r.2,
        )
  ]

  -- Outside the chunk nothing changes.
  taken_outside : (a : ℕ) → (a < x) ⊎ (x + 8 + c.size ≤ a) → taken m x n a ≡ m a
  taken_outside a out = elim (Bool-cases (leb (n + 16) c.size)) [
    | inl h ↦
        let le = leb→le (n + 16) c.size h in
        split_elsewhere m x n c r.0 r.1 free_chunk.0 aligned small_chunk a le (ground arith)
          (ground arith)
    | inr h ↦
        whole_elsewhere m x n c r.0 r.1 free_chunk.0 aligned small_chunk a free_chunk.1
          (ground arith) (ground arith)
  ]

  blocks-carve : blocks x (carve n c ys) ≡ (x + 8, granted n c) ∷ blocks (x + 8 + c.size) ys
  blocks-carve = elim (Bool-cases (leb (n + 16) c.size)) [
    | inl h ↦
        let le = leb→le (n + 16) c.size h in rw h (ap (λ k. (x + 8, n) ∷ blocks k ys) (omega arith))
    | inr h ↦ rw h
  ]

-- The chunks behind an allocation of `n` bytes in the chunk with header `x`: one block more, of
-- at least `n` bytes, and no payload changed.
pub record Allocated (m m' : Mem) (x n : ℕ) (cs : Chunks) : Type 0 where
  pub chunks : Chunks
  pub size : ℕ
  pub before : List (ℕ × ℕ)
  pub after : List (ℕ × ℕ)
  pub represents : Represents m' 0 chunks
  pub enough : n ≤ size
  pub not_wasteful : size ≤ n + 8
  pub old_blocks : blocks 0 cs ≡ before ++ after
  pub new_blocks : blocks 0 chunks ≡ before ++ (x + 8, size) ∷ after
  pub kept : SameIn m m' (blocks 0 cs)

pub taken-Allocated :
    (m : Mem) (x n : ℕ) (cs : Chunks)
    → Represents m 0 cs
    → n % 8 ≡ 0
    → 0 < n
    → first_fit n 0 cs ≡ some x
    → Allocated m (taken m x n) x n cs
taken-Allocated m x n cs r aligned pos found =
    let (s, fit) = first_fit-Split n 0 x cs found in
    let c = s.chunk in
    let at_split : Represents m 0 (s.before ++ c ∷ s.after) = rw s.splits at r in
    let e : x ≡ span s.before = s.at_header ∙ omega arith in
    let rc =
      Represents-at m (c ∷ s.after) (sym s.at_header)
        (Represents-suffix m 0 s.before (c ∷ s.after) at_split) in
    let outside = taken_outside m x n c s.after rc fit aligned pos in
    let free = (free_chunk m x n c s.after rc fit aligned pos).0 in
    let behind : blocks x (c ∷ s.after) ≡ blocks (x + 8 + c.size) s.after = rw free in
    let old : blocks 0 cs ≡ blocks 0 s.before ++ blocks (x + 8 + c.size) s.after =
      ap (blocks 0) s.splits
      ∙ blocks-append 0 s.before _
      ∙ rw (← s.at_header) (ap (◌++◌ (blocks 0 s.before)) behind) in
    record {
      chunks = s.before ++ carve n c s.after;
      size = granted n c;
      before = blocks 0 s.before;
      after = blocks (x + 8 + c.size) s.after;
      represents =
          Represents-replace m _ 0 s.before (c ∷ s.after) _ at_split
            (λ a h. outside a (inl (omega arith)))
            (Represents-at _ _ s.at_header (taken-Represents m x n c s.after rc fit aligned pos));
      enough = ground arith;
      not_wasteful = ground (arith, rc.1.size_aligned);
      old_blocks = old;
      new_blocks =
          blocks-append 0 s.before _
          ∙ rw (← s.at_header)
              (ap (◌++◌ (blocks 0 s.before)) (blocks-carve m x n c s.after rc fit aligned pos));
      kept = rw old (
          SameIn-append m _ (blocks 0 s.before) _
            (SameIn-below m _ 0 s.before (λ a h. outside a (inl (omega arith))))
            (SameIn-above m _ (x + 8 + c.size) s.after (λ a h. outside a (inr h))));
    }
