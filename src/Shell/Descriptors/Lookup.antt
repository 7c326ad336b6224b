-- ===== src/Shell/Descriptors/Lookup.antt =====
-- What each descriptor of a table stands for behind the changes of P3/src/exec.c.
use cs214_assignments.Base.{
  ℕ, zero, suc, ◌≡◌, ◌≢◌, refl, Bool, false, ◌||◌, List, [], ◌∷◌, Option, none, some, ◌==◌,
  if◌then◌else◌, arith, inl, inr, ◌∙◌, sym, ap, Bool-cases, ==_iff,
}
use cs214_assignments.Shell.Descriptors.{
  Opened, FdTable, open_at, lowest, install, put_at, close, dup2, redirect, close_all,
}

-- A free descriptor is none that is open.
pub free-apart :
    (fds : FdTable) (j k : ℕ) (f : Opened) → open_at fds j ≡ none → open_at fds k ≡ some f → j ≢ k
free-apart fds j k f free there e =
    let clash : none ≡ some f = sym free ∙ ap (open_at fds) e ∙ there in cc

pub open_at-lowest : (fds : FdTable) → open_at fds (lowest fds) ≡ none
unfolding lowest
open_at-lowest [] = refl
open_at-lowest (none ∷ fds) = refl
open_at-lowest (some f ∷ fds) = open_at-lowest fds

pub open_at-install :
    (fds : FdTable) (f : Opened) (k : ℕ)
    → open_at (install fds f) k ≡ (if k == lowest fds then some f else open_at fds k)
unfolding lowest install
open_at-install [] f zero = refl
open_at-install [] f (suc k) = ground arith
open_at-install (none ∷ fds) f zero = refl
open_at-install (none ∷ fds) f (suc k) = ground arith
open_at-install (some g ∷ fds) f zero = ground arith
open_at-install (some g ∷ fds) f (suc k) = ground (arith, open_at-install fds f k)

pub open_at-put_at :
    (fds : FdTable) (n : ℕ) (f : Option Opened) (k : ℕ)
    → open_at (put_at fds n f) k ≡ (if k == n then f else open_at fds k)
unfolding put_at
open_at-put_at [] zero f zero = refl
open_at-put_at [] zero f (suc k) = ground arith
open_at-put_at [] (suc n) f zero = ground arith
open_at-put_at [] (suc n) f (suc k) = ground (arith, open_at-put_at [] n f k)
open_at-put_at (g ∷ fds) zero f zero = refl
open_at-put_at (g ∷ fds) zero f (suc k) = ground arith
open_at-put_at (g ∷ fds) (suc n) f zero = ground arith
open_at-put_at (g ∷ fds) (suc n) f (suc k) = ground (arith, open_at-put_at fds n f k)

pub open_at-dup2 :
    (fds : FdTable) (from to : ℕ) (f : Opened) (k : ℕ)
    → open_at fds from ≡ some f
    → open_at (dup2 fds from to) k ≡ (if k == to then some f else open_at fds k)
open_at-dup2 fds from to f k e =
    ap (λ (o : Option Opened). open_at (elim o [ none ↦ fds | some g ↦ put_at fds to (some g) ]) k)
      e
    ∙ open_at-put_at fds to (some f) k

-- Where the descriptor `to` is open, `redirect` changes that one only.
pub open_at-redirect :
    (fds : FdTable) (to : ℕ) (f g : Opened) (k : ℕ)
    → open_at fds to ≡ some g
    → open_at (redirect fds to f) k ≡ (if k == to then some f else open_at fds k)
open_at-redirect fds to f g k e =
    let free = open_at-lowest fds in
    let there : open_at (install fds f) (lowest fds) ≡ some f =
      ground (arith, open_at-install fds f (lowest fds)) in
    let a = open_at-put_at (dup2 (install fds f) (lowest fds) to) (lowest fds) none k in
    let b = open_at-dup2 (install fds f) (lowest fds) to f k there in
    let c = open_at-install fds f k in
    let apart : lowest fds ≢ to = free-apart fds (lowest fds) to g free e in
    elim (Bool-cases (k == lowest fds)) [
      | inl is_new ↦
          let same : k ≡ lowest fds = (==_iff k (lowest fds)).0 is_new in
          let unused : open_at fds k ≡ none = ap (open_at fds) same ∙ free in
          ground (arith, a, unused, apart, same)
      | inr old ↦ ground (arith, a, b, c, old)
    ]

abbrev pub is_end : List (ℕ × ℕ) → ℕ → Bool
is_end [] k = false
is_end (p ∷ ps) k = k == p.0 || k == p.1 || is_end ps k

pub open_at-close_all :
    (ps : List (ℕ × ℕ)) (fds : FdTable) (k : ℕ)
    → open_at (close_all ps fds) k ≡ (if is_end ps k then none else open_at fds k)
unfolding close_all
open_at-close_all [] fds k = refl
open_at-close_all (p ∷ ps) fds k =
    let a = open_at-close_all ps (close (close fds p.0) p.1) k in
    let b = open_at-put_at (close fds p.0) p.1 none k in
    let c = open_at-put_at fds p.0 none k in ground (arith, a, b, c)
