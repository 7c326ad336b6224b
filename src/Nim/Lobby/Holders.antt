-- ===== src/Nim/Lobby/Holders.antt =====
-- Who holds a `Player` of P4/clients/src/nimd.c, and what follows of the object.
use cs214_assignments.Base.{
  ℕ, ◌+◌, ◌≤◌, ◌≡◌, refl, sym, ap, List, [], ◌∷◌, ◌++◌, Option, none, some, arith, Option-cases,
  inl, inr, ◌∙◌,
}
use cs214_assignments.Base.Bytes.{Bytes}
use cs214_assignments.Nim.Names.{same}
use cs214_assignments.Nim.Lobby.{Player, Lobby, name_at}
use cs214_assignments.Nim.Lobby.Invariant.{sum, sum-middle, holders, is_live, bears, Sound}

pub sum-split :
    {A : Type 0} (w : A → ℕ) (l xs : List A) (a : A) (ys : List A)
    → l ≡ xs ++ a ∷ ys
    → sum w l ≡ w a + sum w (xs ++ ys)
sum-split w l xs a ys e = ap (sum w) e ∙ sum-middle w xs a ys

pub is_live-none : (p : Option Player) → is_live p ≡ 0 → p ≡ none
is_live-none none h = refl
is_live-none (some p) h = absurd (omega arith)

-- nobody holds the null pointer
pub holders-null : (s : Lobby) → Sound s → holders 0 s ≡ 0
holders-null s i = i.once 0 ∙ ap is_live i.null

pub is_live-most : (p : Option Player) → is_live p ≤ 1
is_live-most none = omega arith
is_live-most (some p) = omega arith

pub live-bears :
    (players : ℕ → Option Player) (q : ℕ) (n : Bytes)
    → 1 ≤ is_live (players q)
    → same (name_at players q) n ≡ bears n (players q)
live-bears players q n h = elim (Option-cases (players q)) [
  | inl e ↦ absurd (omega (arith, ap is_live e))
  | inr (p, e) ↦
      ap (λ (o : Option Player). same (elim o [ none ↦ [] | some p' ↦ p'.name ]) n) e
      ∙ sym (ap (bears n) e)
]
