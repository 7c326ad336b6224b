-- ===== src/Malloc/Merge.antt =====
-- `coalesce` of P1/src/mymalloc.c on a memory that holds a list of chunks.
use cs214_assignments.Base.{
  ℕ, zero, suc, ◌+◌, ◌%◌, ◌<◌, ◌≤◌, ◌⊎◌, true, false, [], ◌∷◌, Option, some, ◌≡◌, refl, ap, ◌∙◌,
  subst, arith, length, Bool-cases, inl, inr,
}
use cs214_assignments.Malloc.{Mem, store, add_size, coalesce_from, size_bits}
use cs214_assignments.Malloc.Chunks.{Chunk, Chunks, blocks, Separated, StartsUsed}
use cs214_assignments.Malloc.Represent.{
  Represents, Represents-span, Represents-store, SameIn, SameIn-trans, SameIn-store, Represents-at,
  store_self, store_ne, header_lem,
}

abbrev joined : Chunk → Chunk → Chunk
joined c d = record { size = c.size + 8 + d.size; used = false }

joined_word :
    (a b : ℕ)
    → a % 8 ≡ 0
    → b % 8 ≡ 0
    → a + 8 + b ≤ 4096
    → size_bits (add_size (add_size a 8) b) ≡ a + 8 + b
joined_word a b h k l = omega arith

-- two free neighbours become one
coalesce_from-join :
    (fuel : ℕ) (m : Mem) (off : ℕ) (c d : Chunk) (cs : Chunks)
    → Represents m off (c ∷ d ∷ cs)
    → c.used ≡ false
    → d.used ≡ false
    → coalesce_from (suc fuel) m off ≡ coalesce_from fuel (store m off (c.size + 8 + d.size)) off
unfolding coalesce_from
coalesce_from-join f m off c d cs r u v =
    let (a, b) = header_lem c r.1 in
    let (a', b') = header_lem d r.2.1 in
    let ends = Represents-span m (off + 8 + c.size + 8 + d.size) cs r.2.2 in
    rw
      (
        r.0,
        a,
        b,
        r.2.0,
        a',
        b',
        joined_word c.size d.size r.1.size_aligned r.2.1.size_aligned (omega (arith, ends)),
      )
      (ground (arith, ends))

-- any other chunk is passed
coalesce_from-pass :
    (fuel : ℕ) (m : Mem) (off : ℕ) (c : Chunk) (cs : Chunks)
    → Represents m off (c ∷ cs)
    → (c.used ≡ true) ⊎ StartsUsed cs
    → coalesce_from (suc fuel) m off ≡ coalesce_from fuel m (off + 8 + c.size)
unfolding coalesce_from
coalesce_from-pass f m off c [] r u = let (a, b) = header_lem c r.1 in rw (r.0, a, b) (ground arith)
coalesce_from-pass f m off c (d ∷ cs) r u =
    let (a, b) = header_lem c r.1 in
    let (a', b') = header_lem d r.2.1 in
    rw (r.0, a, b, r.2.0, a', b')
      (ground (arith, Represents-span m (off + 8 + c.size + 8 + d.size) cs r.2.2))

-- What the loop of `coalesce` does from `off` on.
pub record Merged (m : Mem) (off : ℕ) (cs : Chunks) (result : Option Mem) : Type 0 where
  pub mem : Mem
  pub chunks : Chunks
  pub result_is : result ≡ some mem
  pub represents : Represents mem off chunks
  pub same_blocks : blocks off chunks ≡ blocks off cs
  pub separated : Separated chunks
  pub starts_used : StartsUsed cs → StartsUsed chunks
  pub kept : SameIn m mem (blocks off cs)
  pub below : (a : ℕ) → a < off → mem a ≡ m a

Separated-cons :
    (c : Chunk) (cs : Chunks) → (c.used ≡ true) ⊎ StartsUsed cs → Separated cs → Separated (c ∷ cs)
Separated-cons c [] u s = tt
Separated-cons c (d ∷ cs) (inl u) s = (λ f. cc, s)
Separated-cons c (d ∷ cs) (inr u) s = (λ f. u, s)

Merged-nil : (fuel : ℕ) (m : Mem) → Merged m 4096 [] (coalesce_from (suc fuel) m 4096)
unfolding coalesce_from
Merged-nil f m = record {
  mem = m;
  chunks = [];
  result_is = refl;
  represents = refl;
  same_blocks = refl;
  separated = tt;
  starts_used = λ u. u;
  kept = tt;
  below = λ a h. refl;
}

blocks-cons :
    (off : ℕ) (c : Chunk) (cs ds : Chunks)
    → blocks (off + 8 + c.size) cs ≡ blocks (off + 8 + c.size) ds
    → blocks off (c ∷ cs) ≡ blocks off (c ∷ ds)
blocks-cons off c cs ds e = rw e

SameIn-cons :
    (m m' : Mem) (off : ℕ) (c : Chunk) (cs : Chunks)
    → ((a : ℕ) → a < off + 8 + c.size → m' a ≡ m a)
    → SameIn m m' (blocks (off + 8 + c.size) cs)
    → SameIn m m' (blocks off (c ∷ cs))
SameIn-cons m m' off c cs b s = elim (Bool-cases c.used) [
  | inl u ↦ rw u (λ a lo hi. b a (omega arith), s)
  | inr u ↦ rw u s
]

Merged-pass :
    (m : Mem) (off : ℕ) (c : Chunk) (cs : Chunks) {result : Option Mem}
    → Represents m off (c ∷ cs)
    → (c.used ≡ true) ⊎ StartsUsed cs
    → Merged m (off + 8 + c.size) cs result
    → Merged m off (c ∷ cs) result
Merged-pass m off c cs r u g = record {
  mem = g.mem;
  chunks = c ∷ g.chunks;
  result_is = g.result_is;
  represents = (g.below off (omega arith) ∙ r.0, r.1, g.represents);
  same_blocks = blocks-cons off c g.chunks cs g.same_blocks;
  separated =
      Separated-cons c g.chunks (elim u [ inl x ↦ inl x | inr x ↦ inr (g.starts_used x) ])
        g.separated;
  starts_used = λ x. x;
  kept = SameIn-cons m g.mem off c cs g.below g.kept;
  below = λ a h. g.below a (omega arith);
}

-- The blocks and the memory do not see two free chunks joined.
blocks-joined :
    (off : ℕ) (c d : Chunk) (cs : Chunks)
    → c.used ≡ false
    → d.used ≡ false
    → blocks off (joined c d ∷ cs) ≡ blocks off (c ∷ d ∷ cs)
blocks-joined off c d cs u v = rw (u, v) (ap (λ k. blocks k cs) (omega arith))

Represents-joined :
    (m : Mem) (off : ℕ) (c d : Chunk) (cs : Chunks)
    → Represents m off (c ∷ d ∷ cs)
    → Represents (store m off (c.size + 8 + d.size)) off (joined c d ∷ cs)
Represents-joined m off c d cs r = (
  store_self m off _ ∙ omega arith,
  record {
    size_pos = omega arith;
    size_aligned = omega (arith, r.1.size_aligned, r.2.1.size_aligned);
  },
  Represents-at _ cs (omega arith)
      (Represents-store m off _ (off + 8 + c.size + 8 + d.size) cs (omega arith) r.2.2),
)

Merged-join :
    (m : Mem) (off : ℕ) (c d : Chunk) (cs : Chunks) {result : Option Mem}
    → c.used ≡ false
    → d.used ≡ false
    → Merged (store m off (c.size + 8 + d.size)) off (joined c d ∷ cs) result
    → Merged m off (c ∷ d ∷ cs) result
Merged-join m off c d cs u v g = record {
  mem = g.mem;
  chunks = g.chunks;
  result_is = g.result_is;
  represents = g.represents;
  same_blocks = g.same_blocks ∙ blocks-joined off c d cs u v;
  separated = g.separated;
  starts_used = λ x. cc;
  kept =
      SameIn-trans m _ g.mem _ (SameIn-store m off _ off (c ∷ d ∷ cs) (omega arith))
        (subst (SameIn _ g.mem) (blocks-joined off c d cs u v) g.kept);
  below = λ a h. g.below a h ∙ store_ne m off _ a (omega arith);
}

pub coalesce_from-Merged :
    (fuel : ℕ) (m : Mem) (off : ℕ) (cs : Chunks)
    → Represents m off cs
    → length cs < fuel
    → Merged m off cs (coalesce_from fuel m off)
coalesce_from-Merged zero m off cs r h = absurd (omega arith)
coalesce_from-Merged (suc f) m off [] r h = rw r (Merged-nil f m)
coalesce_from-Merged (suc f) m off (c ∷ []) r h = rw (coalesce_from-pass f m off c [] r (inr tt)) (
    Merged-pass m off c [] r (inr tt)
      (coalesce_from-Merged f m (off + 8 + c.size) [] r.2 (omega arith)))
coalesce_from-Merged (suc f) m off (c ∷ d ∷ cs) r h =
    let ih = coalesce_from-Merged f m (off + 8 + c.size) (d ∷ cs) r.2 (omega arith) in
    let ih' =
      coalesce_from-Merged f (store m off (c.size + 8 + d.size)) off (joined c d ∷ cs)
        (Represents-joined m off c d cs r) (omega arith) in
    elim (Bool-cases c.used) [
      | inl u ↦
          rw (coalesce_from-pass f m off c (d ∷ cs) r (inl u))
            (Merged-pass m off c (d ∷ cs) r (inl u) ih)
      | inr u ↦ elim (Bool-cases d.used) [
        | inl v ↦
            rw (coalesce_from-pass f m off c (d ∷ cs) r (inr v))
              (Merged-pass m off c (d ∷ cs) r (inr v) ih)
        | inr v ↦ rw (coalesce_from-join f m off c d cs r u v) (Merged-join m off c d cs u v ih')
      ]
    ]
