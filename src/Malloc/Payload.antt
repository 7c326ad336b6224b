-- ===== src/Malloc/Payload.antt =====
-- A client of P1/src/mymalloc.c that writes inside its blocks leaves the headers alone.
use cs214_assignments.Base.{
  ◌≡◌, ap, sym, subst, ℕ, ◌+◌, ◌≤◌, ◌<◌, ◌⊎◌, List, [], ◌∷◌, ◌++◌, ◌∙◌, arith, Bool-cases, inl, inr,
}
use cs214_assignments.Malloc.{Mem, store}
use cs214_assignments.Malloc.Chunks.{Chunks, blocks}
use cs214_assignments.Malloc.Represent.{Represents, store_ne, SameIn, SameIn-store}

-- The address is inside one of the blocks.
abbrev pub Inside : ℕ → List (ℕ × ℕ) → Type 0
Inside a [] = ⊥
Inside a ((p, n) ∷ bs) = ((p ≤ a) × (a < p + n)) ⊎ Inside a bs

pub Inside-middle :
    (a q n : ℕ) (before after : List (ℕ × ℕ))
    → q ≤ a
    → a < q + n
    → Inside a (before ++ (q, n) ∷ after)
Inside-middle a q n [] after lo hi = inl (lo, hi)
Inside-middle a q n (b ∷ before) after lo hi = inr (Inside-middle a q n before after lo hi)

Inside-above : (a off : ℕ) (cs : Chunks) → Inside a (blocks off cs) → off + 8 ≤ a
Inside-above a off [] i = absurd i
Inside-above a off (c ∷ cs) i = elim (Bool-cases c.used) [
  | inl used ↦
      let j : ((off + 8 ≤ a) × (a < off + 8 + c.size)) ⊎ Inside a (blocks (off + 8 + c.size) cs) =
        rw used at i in
      elim j [
        | inl here ↦ here.0
        | inr there ↦ omega (arith, Inside-above a (off + 8 + c.size) cs there)
      ]
  | inr free ↦
      let j : Inside a (blocks (off + 8 + c.size) cs) = rw free at i in
      omega (arith, Inside-above a (off + 8 + c.size) cs j)
]

-- a write in front of the chunks
Represents-behind :
    (m : Mem) (a v off : ℕ) (cs : Chunks)
    → a < off
    → Represents m off cs
    → Represents (store m a v) off cs
Represents-behind m a v off [] h r = r
Represents-behind m a v off (c ∷ cs) h r = (
  store_ne m a v off (omega arith) ∙ r.0,
  r.1,
  Represents-behind m a v (off + 8 + c.size) cs (omega arith) r.2,
)

-- A write inside an allocated block keeps the chunks.
pub Represents-store :
    (m : Mem) (a v off : ℕ) (cs : Chunks)
    → Inside a (blocks off cs)
    → Represents m off cs
    → Represents (store m a v) off cs
Represents-store m a v off [] i r = absurd i
Represents-store m a v off (c ∷ cs) i r =
    let above = Inside-above a off (c ∷ cs) i in
    let tail : Represents (store m a v) (off + 8 + c.size) cs = elim (Bool-cases c.used) [
      | inl used ↦
          let j : ((off + 8 ≤ a) × (a < off + 8 + c.size))
              ⊎ Inside a (blocks (off + 8 + c.size) cs) =
            rw used at i in
          elim j [
            | inl here ↦ Represents-behind m a v (off + 8 + c.size) cs here.1 r.2
            | inr there ↦ Represents-store m a v (off + 8 + c.size) cs there r.2
          ]
      | inr free ↦
          let j : Inside a (blocks (off + 8 + c.size) cs) = rw free at i in
          Represents-store m a v (off + 8 + c.size) cs j r.2
    ] in
    (store_ne m a v off (omega arith) ∙ r.0, r.1, tail)

-- A write inside one block leaves what the others hold.
pub SameIn-store-others :
    (m : Mem) (a v off : ℕ) (cs : Chunks) (before after : List (ℕ × ℕ)) (q n : ℕ)
    → blocks off cs ≡ before ++ (q, n) ∷ after
    → q ≤ a
    → a < q + n
    → SameIn m (store m a v) (before ++ after)
SameIn-store-others m a v off [] [] after q n e lo hi = absurd cc
SameIn-store-others m a v off [] (b ∷ before) after q n e lo hi = absurd cc
SameIn-store-others m a v off (c ∷ cs) [] after q n e lo hi = elim (Bool-cases c.used) [
  | inr free ↦ SameIn-store-others m a v (off + 8 + c.size) cs [] after q n (rw free at e) lo hi
  | inl used ↦
      let split : (off + 8, c.size) ∷ blocks (off + 8 + c.size) cs ≡ (q, n) ∷ after =
        rw used at e in
      let rest : blocks (off + 8 + c.size) cs ≡ after = cc in
      let at : off + 8 ≡ q = cc in
      let long : c.size ≡ n = cc in
      subst (SameIn m (store m a v)) rest
        (SameIn-store m a v (off + 8 + c.size) cs (omega (arith, hi, at, long)))
]
SameIn-store-others m a v off (c ∷ cs) (b ∷ before) after q n e lo hi = elim (Bool-cases c.used) [
  | inr free ↦
      SameIn-store-others m a v (off + 8 + c.size) cs (b ∷ before) after q n (rw free at e) lo hi
  | inl used ↦
      let split : (off + 8, c.size) ∷ blocks (off + 8 + c.size) cs ≡ b ∷ before ++ (q, n) ∷ after =
        rw used at e in
      let rest : blocks (off + 8 + c.size) cs ≡ before ++ (q, n) ∷ after = cc in
      let here : (off + 8, c.size) ≡ b = cc in
      let above =
        Inside-above a (off + 8 + c.size) cs
          (subst (Inside a) (sym rest) (Inside-middle a q n before after lo hi)) in
      (
        λ x xlo xhi. store_ne m a v x (
            omega
              (arith, xlo, xhi, above, ap (λ (k : ℕ × ℕ). k.0) here, ap (λ (k : ℕ × ℕ). k.1) here)),
        SameIn-store-others m a v (off + 8 + c.size) cs before after q n rest lo hi,
      )
]
