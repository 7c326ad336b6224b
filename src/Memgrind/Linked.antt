-- ===== src/Memgrind/Linked.antt =====
-- Linked lists of `task4` of P1/memgrind.c in the memory: each node lies in a block of its own.
use cs214_assignments.Base.{
  ℕ, ◌+◌, ◌-◌, ◌≤◌, ◌<◌, ◌≢◌, List, [], ◌∷◌, ◌++◌, ◌≡◌, sym, ap, ◌∙◌, subst, arith,
}
use cs214_assignments.Malloc.{Mem}
use cs214_assignments.Malloc.Represent.{SameIn}
use cs214_assignments.Malloc.Picks.{Picks, done, pick}

-- The nodes lead from `head` to `end`; the field `next` stands 8 bytes behind the node.
abbrev pub Chain : ℕ → Mem → List ℕ → ℕ → ℕ → Type 0
Chain base m [] head end = head ≡ end
Chain base m (p ∷ ps) head end = (head ≡ p) × (p ≢ 0) × Chain base m ps (m (p - base + 8)) end

-- every block has room for a node
abbrev pub Big : List (ℕ × ℕ) → Type 0
Big [] = Unit
Big ((p, n) ∷ bs) = (16 ≤ n) × Big bs

pub Big-insert :
    (before after : List (ℕ × ℕ)) (q n : ℕ)
    → 16 ≤ n
    → Big (before ++ after)
    → Big (before ++ (q, n) ∷ after)
Big-insert [] after q n h s = (h, s)
Big-insert ((p, m) ∷ before) after q n h s = (s.0, Big-insert before after q n h s.1)

pub Big-remove :
    (before after : List (ℕ × ℕ)) (q n : ℕ)
    → Big (before ++ (q, n) ∷ after)
    → (16 ≤ n) × Big (before ++ after)
Big-remove [] after q n s = s
Big-remove ((p, m) ∷ before) after q n s =
    let r = Big-remove before after q n s.1 in (r.0, (s.0, r.1))

-- the memories agree on the block in the middle, and on the others
SameIn-remove :
    (m m' : Mem) (before after : List (ℕ × ℕ)) (q n : ℕ)
    → SameIn m m' (before ++ (q, n) ∷ after)
    → ((a : ℕ) → q ≤ a → a < q + n → m' a ≡ m a) × SameIn m m' (before ++ after)
SameIn-remove m m' [] after q n s = s
SameIn-remove m m' ((p, k) ∷ before) after q n s =
    let r = SameIn-remove m m' before after q n s.1 in (r.0, (s.0, r.1))

-- The memories agree on the `next` of each node.
abbrev pub SameNext : ℕ → Mem → Mem → List ℕ → Type 0
SameNext base m m' [] = Unit
SameNext base m m' (p ∷ ps) = (m' (p - base + 8) ≡ m (p - base + 8)) × SameNext base m m' ps

pub SameNext-SameIn :
    (base : ℕ) (m m' : Mem) (ps : List ℕ) (bs : List (ℕ × ℕ))
    → Picks base ps bs
    → Big bs
    → SameIn m m' bs
    → SameNext base m m' ps
SameNext-SameIn base m m' all bs done big same = tt
SameNext-SameIn base m m' all bs (pick {p} {ps} q n before after e s rest) big same =
    let (room, others) = Big-remove before after q n (subst Big s big) in
    let (here, there) = SameIn-remove m m' before after q n (subst (SameIn m m') s same) in
    let cell : p - base + 8 ≡ q + 8 = omega (arith, e) in
    (
      ap m' cell ∙ here (q + 8) (omega arith) (omega (arith, room)) ∙ ap m (sym cell),
      SameNext-SameIn base m m' ps (before ++ after) rest others there,
    )

module _ (base : ℕ) (m m' : Mem) where
  pub Chain-same :
      (ps : List ℕ) (head end : ℕ)
      → SameNext base m m' ps
      → Chain base m ps head end
      → Chain base m' ps head end
  Chain-same [] head end s c = c
  Chain-same (p ∷ ps) head end s (e, ne, c) = (
    e,
    ne,
    subst (λ (h : ℕ). Chain base m' ps h end) (sym s.0)
        (Chain-same ps (m (p - base + 8)) end s.1 c),
  )

module _ (base : ℕ) (m : Mem) where
  pub Chain-append :
      (xs ys : List ℕ) (head mid end : ℕ)
      → Chain base m xs head mid
      → Chain base m ys mid end
      → Chain base m (xs ++ ys) head end
  Chain-append [] ys head mid end c d = subst (λ (h : ℕ). Chain base m ys h end) (sym c) d
  Chain-append (x ∷ xs) ys head mid end (e, ne, c) d =
      (e, ne, Chain-append xs ys (m (x - base + 8)) mid end c d)

pub SameNext-split :
    (base : ℕ) (m m' : Mem) (xs ys : List ℕ)
    → SameNext base m m' (xs ++ ys)
    → SameNext base m m' xs × SameNext base m m' ys
SameNext-split base m m' [] ys s = (tt, s)
SameNext-split base m m' (x ∷ xs) ys s =
    let r = SameNext-split base m m' xs ys s.1 in ((s.0, r.0), r.1)

-- the last node of a chain
pub Chain-last :
    (base : ℕ) (m : Mem) (xs : List ℕ) (p head end : ℕ)
    → Chain base m (xs ++ p ∷ []) head end
    → Chain base m xs head p × (p ≢ 0) × (m (p - base + 8) ≡ end)
Chain-last base m [] p head end c = c
Chain-last base m (x ∷ xs) p head end (e, ne, c) =
    let (front, pos, cell) = Chain-last base m xs p (m (x - base + 8)) end c in
    ((e, ne, front), pos, cell)
