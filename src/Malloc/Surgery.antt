-- ===== src/Malloc/Surgery.antt =====
-- Taking a list of chunks apart at one chunk, and what that means for its blocks and the memory of
-- P1/src/mymalloc.c.
use cs214_assignments.Base.{
  ℕ, ◌+◌, ◌<◌, true, false, List, [], ◌∷◌, ◌++◌, some, ◌≡◌, refl, sym, ap, ap₂, ◌∙◌, subst, arith,
  Bool-cases, inl, inr,
}
use cs214_assignments.Malloc.{Mem}
use cs214_assignments.Malloc.Chunks.{Chunk, Chunks, span, blocks, fits, first_fit}
use cs214_assignments.Malloc.Represent.{Represents, Represents-at, SameIn}

pub blocks-append :
    (off : ℕ) (xs ys : Chunks) → blocks off (xs ++ ys) ≡ blocks off xs ++ blocks (off + span xs) ys
blocks-append off [] ys = ap (λ k. blocks k ys) (omega arith)
blocks-append off (c ∷ xs) ys =
    let e : off + 8 + c.size + span xs ≡ off + (8 + c.size + span xs) = omega arith in
    elim (Bool-cases c.used) [
      | inl u ↦ rw (u, blocks-append (off + 8 + c.size) xs ys, e)
      | inr u ↦ rw (u, blocks-append (off + 8 + c.size) xs ys, e)
    ]

pub Represents-suffix :
    (m : Mem) (off : ℕ) (xs ys : Chunks)
    → Represents m off (xs ++ ys)
    → Represents m (off + span xs) ys
Represents-suffix m off [] ys r = Represents-at m ys (omega arith) r
Represents-suffix m off (c ∷ xs) ys r =
    Represents-at m ys (omega arith) (Represents-suffix m (off + 8 + c.size) xs ys r.2)

-- Another tail can be put behind a prefix whose bytes did not change.
pub Represents-replace :
    (m m' : Mem) (off : ℕ) (xs ys zs : Chunks)
    → Represents m off (xs ++ ys)
    → ((a : ℕ) → a < off + span xs → m' a ≡ m a)
    → Represents m' (off + span xs) zs
    → Represents m' off (xs ++ zs)
Represents-replace m m' off [] ys zs r same t = Represents-at m' zs (omega arith) t
Represents-replace m m' off (c ∷ xs) ys zs r same t = (
  same off (omega arith) ∙ r.0,
  r.1,
  Represents-replace m m' (off + 8 + c.size) xs ys zs r.2 (λ a h. same a (omega arith))
      (Represents-at m' zs (omega arith) t),
)

pub SameIn-append :
    (m m' : Mem) (xs ys : List (ℕ × ℕ)) → SameIn m m' xs → SameIn m m' ys → SameIn m m' (xs ++ ys)
SameIn-append m m' [] ys s t = t
SameIn-append m m' (b ∷ xs) ys s t = (s.0, SameIn-append m m' xs ys s.1 t)

-- Blocks in front of an address below which nothing changed.
pub SameIn-below :
    (m m' : Mem) (off : ℕ) (xs : Chunks)
    → ((a : ℕ) → a < off + span xs → m' a ≡ m a)
    → SameIn m m' (blocks off xs)
SameIn-below m m' off [] same = tt
SameIn-below m m' off (c ∷ xs) same =
    let rest = SameIn-below m m' (off + 8 + c.size) xs (λ a h. same a (omega arith)) in
    elim (Bool-cases c.used) [
      | inl u ↦ rw u (λ a lo hi. same a (omega arith), rest)
      | inr u ↦ rw u rest
    ]

-- A list of chunks taken apart at the chunk with header `x`.
pub record Split (off x : ℕ) (cs : Chunks) : Type 0 where
  pub before : Chunks
  pub chunk : Chunk
  pub after : Chunks
  pub splits : cs ≡ before ++ chunk ∷ after
  pub at_header : x ≡ off + span before

Split-cons :
    (off x : ℕ) (c : Chunk) (cs : Chunks) → Split (off + 8 + c.size) x cs → Split off x (c ∷ cs)
Split-cons off x c cs s = record {
  before = c ∷ s.before;
  chunk = s.chunk;
  after = s.after;
  splits = ap (◌∷◌ c) s.splits;
  at_header = s.at_header ∙ omega arith;
}

Split-here : (off x : ℕ) (c : Chunk) (cs : Chunks) → x ≡ off → Split off x (c ∷ cs)
Split-here off x c cs e = record {
  before = [];
  chunk = c;
  after = cs;
  splits = refl;
  at_header = omega arith;
}

-- What a search finds is a free chunk that is large enough.
pub first_fit-Split :
    (n off x : ℕ) (cs : Chunks)
    → first_fit n off cs ≡ some x
    → (s : Split off x cs) × (fits n s.chunk ≡ true)
unfolding Split-here Split-cons
first_fit-Split n off x [] h = cc
first_fit-Split n off x (c ∷ cs) h = elim (Bool-cases (fits n c)) [
  | inl f ↦ (Split-here off x c cs (ground arith), f)
  | inr f ↦
      let (s, g) = first_fit-Split n (off + 8 + c.size) x cs (rw f at h) in
      (Split-cons off x c cs s, g)
]

-- An allocated chunk whose block has the address `p` and the size `n`, between the blocks `xs`
-- and `ys`.
pub record BlockAt (off p n : ℕ) (cs : Chunks) (xs ys : List (ℕ × ℕ)) : Type 0 where
  pub header_at : ℕ
  pub split : Split off header_at cs
  pub open split use {before, chunk, after}
  pub address : p ≡ header_at + 8
  pub is_used : chunk.used ≡ true
  pub size_is : chunk.size ≡ n
  pub blocks_before : blocks off before ≡ xs
  pub blocks_after : blocks (p + n) after ≡ ys

BlockAt-free :
    (off p n : ℕ) (c : Chunk) (cs : Chunks) (xs ys : List (ℕ × ℕ))
    → c.used ≡ false
    → BlockAt (off + 8 + c.size) p n cs xs ys
    → BlockAt off p n (c ∷ cs) xs ys
unfolding Split-cons
BlockAt-free off p n c cs xs ys u b = record {
  header_at = b.header_at;
  split = Split-cons off b.header_at c cs b.split;
  address = b.address;
  is_used = b.is_used;
  size_is = b.size_is;
  blocks_before = rw u b.blocks_before;
  blocks_after = b.blocks_after;
}

BlockAt-used :
    (off p n : ℕ) (c : Chunk) (cs : Chunks) (xs ys : List (ℕ × ℕ))
    → c.used ≡ true
    → BlockAt (off + 8 + c.size) p n cs xs ys
    → BlockAt off p n (c ∷ cs) ((off + 8, c.size) ∷ xs) ys
unfolding Split-cons
BlockAt-used off p n c cs xs ys u b = record {
  header_at = b.header_at;
  split = Split-cons off b.header_at c cs b.split;
  address = b.address;
  is_used = b.is_used;
  size_is = b.size_is;
  blocks_before = rw u (ap (◌∷◌ (off + 8, c.size)) b.blocks_before);
  blocks_after = b.blocks_after;
}

BlockAt-here :
    (off p n : ℕ) (c : Chunk) (cs : Chunks) (ys : List (ℕ × ℕ))
    → c.used ≡ true
    → off + 8 ≡ p
    → c.size ≡ n
    → blocks (off + 8 + c.size) cs ≡ ys
    → BlockAt off p n (c ∷ cs) [] ys
unfolding Split-here
BlockAt-here off p n c cs ys u e f g = record {
  header_at = off;
  split = Split-here off off c cs refl;
  address = sym e;
  is_used = u;
  size_is = f;
  blocks_before = refl;
  blocks_after = ap₂ (λ a b. blocks (a + b) cs) (sym e) (sym f) ∙ g;
}

-- Every block belongs to an allocated chunk.
pub blocks-BlockAt :
    (off p n : ℕ) (cs : Chunks) (xs ys : List (ℕ × ℕ))
    → blocks off cs ≡ xs ++ (p, n) ∷ ys
    → BlockAt off p n cs xs ys
blocks-BlockAt off p n [] [] ys h = cc
blocks-BlockAt off p n [] (b ∷ xs) ys h = cc
blocks-BlockAt off p n (c ∷ cs) [] ys h = elim (Bool-cases c.used) [
  | inl u ↦
      let e : (off + 8, c.size) ∷ blocks (off + 8 + c.size) cs ≡ (p, n) ∷ ys = rw u at h in
      BlockAt-here off p n c cs ys u (ground arith) (ground arith) (ground arith)
  | inr u ↦
      BlockAt-free off p n c cs [] ys u (blocks-BlockAt (off + 8 + c.size) p n cs [] ys (rw u at h))
]
blocks-BlockAt off p n (c ∷ cs) (b ∷ xs) ys h = elim (Bool-cases c.used) [
  | inl u ↦
      let e : (off + 8, c.size) ∷ blocks (off + 8 + c.size) cs ≡ b ∷ (xs ++ (p, n) ∷ ys) =
        rw u at h in
      let f : (off + 8, c.size) ≡ b = cc in
      subst (λ d. BlockAt off p n (c ∷ cs) (d ∷ xs) ys) f
        (BlockAt-used off p n c cs xs ys u (blocks-BlockAt (off + 8 + c.size) p n cs xs ys (cc)))
  | inr u ↦
      BlockAt-free off p n c cs (b ∷ xs) ys u
        (blocks-BlockAt (off + 8 + c.size) p n cs (b ∷ xs) ys (rw u at h))
]
