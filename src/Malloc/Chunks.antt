-- ===== src/Malloc/Chunks.antt =====
-- The abstract heap of P1/src/mymalloc.c: the chunks in address order, and what a search, a split
-- and a merge do to them. `blocks` is what a client sees: the allocated payloads.
use cs214_assignments.Base.{
  ℕ, ◌+◌, ◌-◌, ◌%◌, ◌<◌, Bool, true, false, not, ◌&&◌, List, [], ◌∷◌, Option, none, some, leb,
  if◌then◌else◌, ◌≡◌,
}

pub record Chunk : Type 0 where
  pub size : ℕ
  pub used : Bool

abbrev pub Chunks : Type 0
Chunks = List Chunk

-- A payload is a positive multiple of 8 bytes.
pub record IsChunk (c : Chunk) : Type 0 where
  pub size_pos : 0 < c.size
  pub size_aligned : c.size % 8 ≡ 0

-- the bytes that the chunks take, headers included
abbrev pub span : Chunks → ℕ
span [] = 0
span (c ∷ cs) = 8 + c.size + span cs

-- Address and size of each allocated payload, the first header standing at `off`.
abbrev pub blocks : ℕ → Chunks → List (ℕ × ℕ)
blocks off [] = []
blocks off (c ∷ cs) =
    let rest = blocks (off + 8 + c.size) cs in if c.used then (off + 8, c.size) ∷ rest else rest

abbrev pub fits : ℕ → Chunk → Bool
fits n c = not c.used && leb n c.size

-- the header of the first free chunk of at least `n` bytes
abbrev pub first_fit : ℕ → ℕ → Chunks → Option ℕ
first_fit n off [] = none
first_fit n off (c ∷ cs) =
    let rest = first_fit n (off + 8 + c.size) cs in if fits n c then some off else rest

-- The chunk with its first `n` bytes allocated; the rest stays free if it has room for a header
-- and 8 bytes.
abbrev pub carve : ℕ → Chunk → Chunks → Chunks
carve n c cs =
    if leb (n + 16) c.size
    then record { size = n; used = true } ∷ record { size = c.size - n - 8; used = false } ∷ cs
    else record { size = c.size; used = true } ∷ cs

-- Neighbours are never both free.
abbrev pub Separated : Chunks → Type 0
Separated [] = Unit
Separated (c ∷ []) = Unit
Separated (c ∷ d ∷ cs) = ((c.used ≡ false) → (d.used ≡ true)) × Separated (d ∷ cs)

-- the first chunk, if there is one, is allocated
abbrev pub StartsUsed : Chunks → Type 0
StartsUsed [] = Unit
StartsUsed (c ∷ cs) = c.used ≡ true
