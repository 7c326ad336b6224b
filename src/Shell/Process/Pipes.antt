-- ===== src/Shell/Process/Pipes.antt =====
-- The pipes that `execute_job` of P3/src/exec.c makes: their ends are new descriptors.
use cs214_assignments.Base.{
  ℕ, zero, suc, ◌+◌, ◌<◌, ◌≡◌, ◌≢◌, refl, sym, ap, ◌∙◌, true, false, List, [], ◌∷◌, none, some,
  ◌==◌, arith, get_or, Bool-cases, ==_iff, inl, inr,
}
use cs214_assignments.Shell.Descriptors.{
  Opened, read_end, write_end, FdTable, open_at, lowest, install, close_all,
}
use cs214_assignments.Shell.Descriptors.Lookup.{
  open_at-lowest, open_at-install, free-apart, is_end, open_at-close_all,
}
use cs214_assignments.Shell.Command.{Os}
use cs214_assignments.Shell.Process.{make_pipes}

-- The pipes lead from the one table to the other: the ends of pipe `i + k` are at place `k`, on
-- descriptors that were free, and every other descriptor is as before.
pub record Piped (fds : FdTable) (i n : ℕ) (ps : List (ℕ × ℕ)) (made : FdTable) : Type 0 where
  pub free : (k : ℕ) → is_end ps k ≡ true → open_at fds k ≡ none
  pub same : (k : ℕ) → is_end ps k ≡ false → open_at made k ≡ open_at fds k
  pub ends :
      (k : ℕ)
      → k < n
      → (open_at made (get_or ps k (0, 0)).0 ≡ some (read_end (i + k)))
        × (open_at made (get_or ps k (0, 0)).1 ≡ some (write_end (i + k)))
        × (is_end ps (get_or ps k (0, 0)).0 ≡ true)
        × (is_end ps (get_or ps k (0, 0)).1 ≡ true)

no_pipes-Piped : (fds : FdTable) (i : ℕ) → Piped fds i 0 [] fds
no_pipes-Piped fds i = record {
  free = λ k e. ground arith;
  same = λ k e. refl;
  ends = λ k h. absurd (omega arith);
}

-- an open descriptor is not one of the ends
pub not_end :
    (fds : FdTable) (i n : ℕ) (ps : List (ℕ × ℕ)) (made : FdTable) (k : ℕ) (f : Opened)
    → Piped fds i n ps made
    → open_at fds k ≡ some f
    → is_end ps k ≡ false
not_end fds i n ps made k f m there = elim (Bool-cases (is_end ps k)) [
  | inr e ↦ e
  | inl e ↦ let clash : none ≡ some f = sym (m.free k e) ∙ there in cc
]

-- both ends of a new pipe
abbrev both : FdTable → ℕ → FdTable
both fds i = install (install fds (read_end i)) (write_end i)

abbrev end_0 : FdTable → ℕ
end_0 fds = lowest fds

abbrev end_1 : FdTable → ℕ → ℕ
end_1 fds i = lowest (install fds (read_end i))

open_at-both :
    (fds : FdTable) (i k : ℕ)
    → (open_at (both fds i) (end_0 fds) ≡ some (read_end i))
      × (open_at (both fds i) (end_1 fds i) ≡ some (write_end i))
      × (open_at fds (end_1 fds i) ≡ none)
      × (k ≢ end_0 fds → k ≢ end_1 fds i → open_at (both fds i) k ≡ open_at fds k)
open_at-both fds i k =
    let one = install fds (read_end i) in
    let e0 : open_at one (end_0 fds) ≡ some (read_end i) =
      ground (arith, open_at-install fds (read_end i) (end_0 fds)) in
    let free1 = open_at-lowest one in
    let apart : end_1 fds i ≢ end_0 fds =
      free-apart one (end_1 fds i) (end_0 fds) (read_end i) free1 e0 in
    (
      ground (arith, open_at-install one (write_end i) (end_0 fds), e0, apart),
      ground (arith, open_at-install one (write_end i) (end_1 fds i)),
      ground (arith, open_at-install fds (read_end i) (end_1 fds i), free1, apart),
      λ n0 n1.
          ground (
            arith,
            open_at-install one (write_end i) k,
            open_at-install fds (read_end i) k,
            n0,
            n1,
          ),
    )

next_ends :
    (fds : FdTable) (i n : ℕ) (ps : List (ℕ × ℕ)) (made : FdTable)
    → Piped (both fds i) (suc i) n ps made
    → (k : ℕ) → k < suc n
    → (open_at made (get_or ((end_0 fds, end_1 fds i) ∷ ps) k (0, 0)).0 ≡ some (read_end (i + k)))
      × (open_at made (get_or ((end_0 fds, end_1 fds i) ∷ ps) k (0, 0)).1
          ≡ some (write_end (i + k)))
      × (is_end ((end_0 fds, end_1 fds i) ∷ ps) (get_or ((end_0 fds, end_1 fds i) ∷ ps) k (0, 0)).0
          ≡ true)
      × (is_end ((end_0 fds, end_1 fds i) ∷ ps) (get_or ((end_0 fds, end_1 fds i) ∷ ps) k (0, 0)).1
          ≡ true)
next_ends fds i n ps made m zero h =
    let (r, w, _, _) = open_at-both fds i 0 in
    let old0 = not_end (both fds i) (suc i) n ps made (end_0 fds) (read_end i) m r in
    let old1 = not_end (both fds i) (suc i) n ps made (end_1 fds i) (write_end i) m w in
    let e : i ≡ i + 0 = omega arith in
    (
      m.same (end_0 fds) old0 ∙ r ∙ ap (λ (j : ℕ). some (read_end j)) e,
      m.same (end_1 fds i) old1 ∙ w ∙ ap (λ (j : ℕ). some (write_end j)) e,
      ground arith,
      ground arith,
    )
next_ends fds i n ps made m (suc k) h =
    let (r, w, a, b) = m.ends k (omega arith) in
    let e : suc i + k ≡ i + suc k = omega arith in
    (
      r ∙ ap (λ (j : ℕ). some (read_end j)) e,
      w ∙ ap (λ (j : ℕ). some (write_end j)) e,
      ground (arith, a),
      ground (arith, b),
    )

next_pipe-Piped :
    (fds : FdTable) (i n : ℕ) (ps : List (ℕ × ℕ)) (made : FdTable)
    → Piped (both fds i) (suc i) n ps made
    → Piped fds i (suc n) ((end_0 fds, end_1 fds i) ∷ ps) made
next_pipe-Piped fds i n ps made m =
    let (_, _, unused, _) = open_at-both fds i 0 in
    record {
      free = λ k e. elim (Bool-cases (k == end_0 fds)) [
        | inl a ↦ ap (open_at fds) ((==_iff k (end_0 fds)).0 a) ∙ open_at-lowest fds
        | inr a ↦ elim (Bool-cases (k == end_1 fds i)) [
          | inl b ↦ ap (open_at fds) ((==_iff k (end_1 fds i)).0 b) ∙ unused
          | inr b ↦
              let (_, _, _, keep) = open_at-both fds i k in
              sym (keep (ground (arith, a)) (ground (arith, b)))
              ∙ m.free k (ground (arith, a, b, e))
        ]
      ];
      same = λ k e.
          let (_, _, _, keep) = open_at-both fds i k in
          m.same k (ground (arith, e)) ∙ keep (ground (arith, e)) (ground (arith, e));
      ends = λ k h. next_ends fds i n ps made m k h;
    }

pub make_pipes-Piped :
    (os : Os) (w : os.State) (i n : ℕ) (fds : FdTable)
    → (make_pipes os w i n fds).0 ≡ true
    → Piped fds i n (make_pipes os w i n fds).1 (make_pipes os w i n fds).2
unfolding make_pipes
make_pipes-Piped os w i zero fds e = no_pipes-Piped fds i
make_pipes-Piped os w i (suc n) fds e = elim (Bool-cases (os.can_pipe w i)) [
  | inr fails ↦ absurd (ground (arith, fails))
  | inl goes ↦
      rw (goes, make_pipes)
        (next_pipe-Piped fds i n _ _
          (make_pipes-Piped os w (suc i) n (both fds i) (rw (goes, make_pipes) at e)))
]

pub all_pipes :
    (os : Os) (w : os.State) (i n : ℕ) (fds : FdTable)
    → ((k : ℕ) → os.can_pipe w k ≡ true)
    → (make_pipes os w i n fds).0 ≡ true
unfolding make_pipes
all_pipes os w i zero fds h = refl
all_pipes os w i (suc n) fds h = rw (h i, make_pipes) (all_pipes os w (suc i) n (both fds i) h)

-- Behind the loops that close all pipes a table is as it was.
pub close_all-Piped :
    (fds : FdTable) (i n : ℕ) (ps : List (ℕ × ℕ)) (made : FdTable) (k : ℕ)
    → Piped fds i n ps made
    → open_at (close_all ps made) k ≡ open_at fds k
close_all-Piped fds i n ps made k m =
    open_at-close_all ps made k ∙ elim (Bool-cases (is_end ps k)) [
      | inl e ↦ rw e (sym (m.free k e))
      | inr e ↦ rw e (m.same k e)
    ]
