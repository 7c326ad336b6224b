-- ===== src/Malloc/Represent.antt =====
-- When the memory of P1/src/mymalloc.c holds a list of chunks, and what each loop then computes.
use cs214_assignments.Base.{
  ℕ, zero, suc, ◌+◌, ◌*◌, ◌≤◌, ◌<◌, List, [], ◌∷◌, some, if◌then◌else◌, ◌≡◌, refl, arith, length,
  ◌≢◌, ◌∙◌, Bool-cases, inl, inr,
}
use cs214_assignments.Malloc.{Mem, store, find_free_from, size_bits, is_used}
use cs214_assignments.Malloc.Chunks.{Chunk, Chunks, IsChunk, span, blocks, first_fit}

abbrev pub header : Chunk → ℕ
header c = c.size + (if c.used then 1 else 0)

-- The headers from `off` on are those of the chunks, which end where the heap does.
abbrev pub Represents : Mem → ℕ → Chunks → Type 0
Represents m off [] = off ≡ 4096
Represents m off (c ∷ cs) = (m off ≡ header c) × IsChunk c × Represents m (off + 8 + c.size) cs

pub Represents-span : (m : Mem) (off : ℕ) (cs : Chunks) → Represents m off cs → off + span cs ≡ 4096
Represents-span m off [] r = omega arith
Represents-span m off (c ∷ cs) r = omega (arith, Represents-span m (off + 8 + c.size) cs r.2)

pub length-le-span :
    (m : Mem) (off : ℕ) (cs : Chunks) → Represents m off cs → off + 9 * length cs ≤ 4096
length-le-span m off [] r = omega arith
length-le-span m off (c ∷ cs) r = omega (arith, length-le-span m (off + 8 + c.size) cs r.2)

pub header_lem :
    (c : Chunk) → IsChunk c → (size_bits (header c) ≡ c.size) × (is_used (header c) ≡ c.used)
header_lem c i = ground arith

pub find_free_from-first_fit :
    (fuel : ℕ) (m : Mem) (n off : ℕ) (cs : Chunks)
    → Represents m off cs
    → length cs < fuel
    → find_free_from fuel m n off ≡ some (first_fit n off cs)
unfolding find_free_from
find_free_from-first_fit zero m n off cs r h = absurd (omega arith)
find_free_from-first_fit (suc f) m n off [] r h = ground arith
find_free_from-first_fit (suc f) m n off (c ∷ cs) r h =
    let (a, b) = header_lem c r.1 in
    rw (r.0, a, b)
      (ground (
        arith,
        Represents-span m (off + 8 + c.size) cs r.2,
        find_free_from-first_fit f m n (off + 8 + c.size) cs r.2,
      ))

-- The two memories agree on the payload of each block.
abbrev pub SameIn : Mem → Mem → List (ℕ × ℕ) → Type 0
SameIn m m' [] = Unit
SameIn m m' ((p, n) ∷ bs) = ((a : ℕ) → p ≤ a → a < p + n → m' a ≡ m a) × SameIn m m' bs

pub SameIn-refl : (m : Mem) (bs : List (ℕ × ℕ)) → SameIn m m bs
SameIn-refl m [] = tt
SameIn-refl m ((p, n) ∷ bs) = (λ a _ _. refl, SameIn-refl m bs)

pub SameIn-trans :
    (m m' m'' : Mem) (bs : List (ℕ × ℕ)) → SameIn m m' bs → SameIn m' m'' bs → SameIn m m'' bs
SameIn-trans m m' m'' [] s t = tt
SameIn-trans m m' m'' ((p, n) ∷ bs) s t =
    (λ a lo hi. t.0 a lo hi ∙ s.0 a lo hi, SameIn-trans m m' m'' bs s.1 t.1)

pub store_self : (m : Mem) (x v : ℕ) → store m x v x ≡ v
unfolding store
store_self m x v = ground arith

pub store_ne : (m : Mem) (x v a : ℕ) → x ≢ a → store m x v a ≡ m a
unfolding store
store_ne m x v a h = ground arith

-- A write in front of the chunks, or to their first header, leaves their payloads alone.
pub SameIn-store :
    (m : Mem) (x v off : ℕ) (cs : Chunks) → x < off + 8 → SameIn m (store m x v) (blocks off cs)
SameIn-store m x v off [] h = tt
SameIn-store m x v off (c ∷ cs) h =
    let rest = SameIn-store m x v (off + 8 + c.size) cs (omega arith) in
    elim (Bool-cases c.used) [
      | inl u ↦ rw u (λ a lo hi. store_ne m x v a (omega arith), rest)
      | inr u ↦ rw u rest
    ]

pub Represents-store :
    (m : Mem) (x v off : ℕ) (cs : Chunks)
    → x < off
    → Represents m off cs
    → Represents (store m x v) off cs
Represents-store m x v off [] h r = r
Represents-store m x v off (c ∷ cs) h r = (
  store_ne m x v off (omega arith) ∙ r.0,
  r.1,
  Represents-store m x v (off + 8 + c.size) cs (omega arith) r.2,
)

pub Represents-at :
    (m : Mem) (cs : Chunks) {a b : ℕ} → a ≡ b → Represents m a cs → Represents m b cs
Represents-at m cs e r = rw e at r

-- Nothing behind `off` changed.
pub Represents-same :
    (m m' : Mem) (off : ℕ) (cs : Chunks)
    → ((a : ℕ) → off ≤ a → m' a ≡ m a)
    → Represents m off cs
    → Represents m' off cs
Represents-same m m' off [] same r = r
Represents-same m m' off (c ∷ cs) same r = (
  same off (omega arith) ∙ r.0,
  r.1,
  Represents-same m m' (off + 8 + c.size) cs (λ a h. same a (omega arith)) r.2,
)

pub SameIn-above :
    (m m' : Mem) (off : ℕ) (cs : Chunks)
    → ((a : ℕ) → off ≤ a → m' a ≡ m a)
    → SameIn m m' (blocks off cs)
SameIn-above m m' off [] same = tt
SameIn-above m m' off (c ∷ cs) same =
    let rest = SameIn-above m m' (off + 8 + c.size) cs (λ a h. same a (omega arith)) in
    elim (Bool-cases c.used) [
      | inl u ↦ rw u (λ a lo hi. same a (omega arith), rest)
      | inr u ↦ rw u rest
    ]
