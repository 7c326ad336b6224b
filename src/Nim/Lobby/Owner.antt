-- ===== src/Nim/Lobby/Owner.antt =====
-- Whose socket a thread of P4/clients/src/nimd.c polls: `handle_client` compares the address in
-- `waiting_player` with that of its own `Player`, so all hangs on whether an address that a thread still
-- compares may be allocated again.
use cs214_assignments.Base.{
  ℕ, ◌+◌, ◌≤◌, ◌≡◌, ◌≢◌, refl, sym, ap, List, [], ◌∷◌, ◌++◌, Option, none, some, ◌==◌,
  if◌then◌else◌, arith, Option-cases, inl, inr, ◌∙◌,
}
use cs214_assignments.Base.Bytes.{Bytes}
use cs214_assignments.Nim.Names.{Answer, hang_up, refused, wait, open_client}
use cs214_assignments.Nim.Lobby.{
  Player, Thread, admitted, arrived, polling, leaving, Lobby, put, admit, Step, connect, allocate,
  wait_first, pair_up, interrupted, matched, leave, game_ends, free_players, Reach, here, next,
}
use cs214_assignments.Nim.Lobby.Invariant.{
  sum, sum-middle, sum-cong, thread_holds, polls, Sound, holders, is_live,
}
use cs214_assignments.Nim.Lobby.Holders.{sum-split}
use cs214_assignments.Nim.Lobby.Steps.{Reach-Sound}

-- `malloc` gives no address that a thread still compares.
abbrev pub Fresh : Lobby → ℕ → Type 0
Fresh s q = sum (polls q) s.threads ≡ 0

-- the object, where there is one, is of another client
abbrev other_fd : Option Player → ℕ → ℕ
other_fd none fd = 0
other_fd (some p) fd = if p.fd == fd then 0 else 1

abbrev strange : (ℕ → Option Player) → Thread → ℕ
strange players (admitted fd name) = 0
strange players (arrived fd me) = other_fd (players me) fd
strange players (polling fd me) = other_fd (players me) fd
strange players (leaving fd me) = other_fd (players me) fd

abbrev Own : Lobby → Type 0
Own s = sum (strange s.players) s.threads ≡ 0

module _ (players : ℕ → Option Player) (q : ℕ) where
  strange-new :
      (p : Option Player) (t : Thread)
      → thread_holds q t + polls q t ≡ 0
      → strange (put players q p) t ≡ strange players t
  strange-new p (admitted fd name) h = refl
  strange-new p (arrived fd me) h = ground arith
  strange-new p (polling fd me) h = ground arith
  strange-new p (leaving fd me) h = ground arith

  strange-free : (t : Thread) → strange (put players q none) t ≤ strange players t
  strange-free (admitted fd name) = omega arith
  strange-free (arrived fd me) = ground arith
  strange-free (polling fd me) = ground arith
  strange-free (leaving fd me) = ground arith

  sum-free : (ts : List Thread) → sum (strange (put players q none)) ts ≤ sum (strange players) ts
  sum-free [] = omega arith
  sum-free (t ∷ ts) = omega (arith, strange-free t, sum-free ts)

sum-plus : {A : Type 0} (u v : A → ℕ) (xs : List A) → sum (λ a. u a + v a) xs ≡ sum u xs + sum v xs
sum-plus u v [] = refl
sum-plus u v (x ∷ xs) = omega (arith, sum-plus u v xs)

admit-Own :
    (players : ℕ → Option Player) (fd : ℕ) (a : Answer) (ts : List Thread)
    → sum (strange players) (admit fd a ts) ≡ sum (strange players) ts
admit-Own players fd (wait name) ts = omega arith
admit-Own players fd hang_up ts = refl
admit-Own players fd (refused code) ts = refl

allocate-Own :
    (s : Lobby) (xs ys : List Thread) (fd : ℕ) (name : Bytes) (q : ℕ)
    → Sound s
    → Own s
    → s.threads ≡ xs ++ admitted fd name ∷ ys
    → s.players q ≡ none
    → Fresh s q
    → sum
        (strange (put s.players q (some (record { fd = fd; name = name }))))
        (xs ++ arrived fd q ∷ ys)
      ≡ 0
allocate-Own s xs ys fd name q i o e free fresh =
    let new : Option Player = some (record { fd = fd; name = name }) in
    let nobody : holders q s ≡ 0 = i.once q ∙ ap is_live free in
    let a = sum-split (strange s.players) s.threads xs (admitted fd name) ys e in
    let b = sum-middle (strange (put s.players q new)) xs (arrived fd q) ys in
    let h = sum-split (thread_holds q) s.threads xs (admitted fd name) ys e in
    let p = sum-split (polls q) s.threads xs (admitted fd name) ys e in
    let c =
      sum-cong (λ t. thread_holds q t + polls q t) (strange (put s.players q new))
        (strange s.players) (xs ++ ys) (strange-new s.players q new)
        (omega (arith, sum-plus (thread_holds q) (polls q) (xs ++ ys), nobody, h, p, fresh)) in
    let k : strange (put s.players q new) (arrived fd q) ≡ 0 = ground arith in
    omega (arith, o, a, b, c, k)

Step-Own : {s t : Lobby} → Sound s → Own s → Step Fresh s t → Own t
Step-Own {s = s} i o (connect fd r) = admit-Own s.players fd (open_client s.names r).0 s.threads ∙ o
Step-Own {s = s} i o (allocate xs ys fd name q e free pos c) =
    allocate-Own s xs ys fd name q i o e free c
Step-Own {s = s} i o (wait_first xs ys fd me e w) = omega (
  arith,
  o,
  sum-split (strange s.players) s.threads xs (arrived fd me) ys e,
  sum-middle (strange s.players) xs (polling fd me) ys,
)
Step-Own {s = s} i o (pair_up xs ys fd me e w) =
    omega (arith, o, sum-split (strange s.players) s.threads xs (arrived fd me) ys e)
Step-Own {s = s} i o (interrupted xs ys fd me e w) = omega (
  arith,
  o,
  sum-split (strange s.players) s.threads xs (polling fd me) ys e,
  sum-middle (strange s.players) xs (leaving fd me) ys,
)
Step-Own {s = s} i o (matched xs ys fd me e w) =
    omega (arith, o, sum-split (strange s.players) s.threads xs (polling fd me) ys e)
Step-Own {s = s} i o (leave xs ys fd me e) = omega (
  arith,
  o,
  sum-split (strange s.players) s.threads xs (leaving fd me) ys e,
  sum-free s.players me (xs ++ ys),
)
Step-Own {s = s} i o (game_ends xs ys p1 p2 e) = o
Step-Own {s = s} i o (free_players xs ys p1 p2 e) =
    omega (arith, o, sum-free s.players p1 s.threads, sum-free (put s.players p1 none) p2 s.threads)

Reach-Own : {s : Lobby} → Reach Fresh s → Own s
Reach-Own here = refl
Reach-Own (next r st) = Step-Own (Reach-Sound r) (Reach-Own r) st

-- Where `malloc` gives no `Player` an address that a thread still compares with `waiting_player`: a
-- thread that finds its own address there, and so may close the socket and free the `Player`, has
-- the socket of just that client, and the `Player` is allocated.
pub poll_own :
    {s : Lobby} (xs ys : List Thread) (fd me : ℕ)
    → Reach Fresh s
    → s.threads ≡ xs ++ polling fd me ∷ ys
    → s.waiting ≡ me
    → (p : Player) × (s.players me ≡ some p) × (p.fd ≡ fd)
poll_own {s = s} xs ys fd me r e w =
    let i = Reach-Sound r in
    let o = Reach-Own r in
    let pos : me ≢ 0 =
      ground (arith, i.never_null, sum-split (polls 0) s.threads xs (polling fd me) ys e) in
    let a = sum-split (strange s.players) s.threads xs (polling fd me) ys e in
    elim (Option-cases (s.players me)) [
      | inl free ↦ absurd (ground (arith, i.once me, ap is_live free, w, pos))
      | inr (p, live) ↦
          let own : other_fd (some p) fd ≡ 0 =
            ap (λ (o : Option Player). other_fd o fd) (sym live) ∙ omega (arith, a, o) in
          (p, live, ground (arith, own))
    ]
