-- ===== src/Nim/Lobby/Invariant.antt =====
-- What holds in every reachable state of the lobby of P4/clients/src/nimd.c: who holds the `Player`s,
-- and whose names the register has.
use cs214_assignments.Base.{
  ℕ, ◌+◌, ◌≤◌, ◌≡◌, ◌≢◌, refl, ap₂, List, [], ◌∷◌, ◌++◌, Option, none, some, ◌==◌, if◌then◌else◌,
  arith,
}
use cs214_assignments.Base.Bytes.{Bytes}
use cs214_assignments.Nim.Names.{Distinct, same, count}
use cs214_assignments.Nim.Lobby.{
  Player, Thread, admitted, arrived, polling, leaving, GameThread, playing, over, Lobby, put,
}

abbrev pub one : ℕ → ℕ → ℕ
one p q = if p == q then 1 else 0

module _ {A : Type 0} where
  abbrev pub sum : (A → ℕ) → List A → ℕ
  sum w [] = 0
  sum w (x ∷ xs) = w x + sum w xs

  pub sum-middle :
      (w : A → ℕ) (xs : List A) (a : A) (ys : List A)
      → sum w (xs ++ a ∷ ys) ≡ w a + sum w (xs ++ ys)
  sum-middle w [] a ys = refl
  sum-middle w (x ∷ xs) a ys = omega (arith, sum-middle w xs a ys)

  -- where `u` is 0 on the list, `v` and `w` have one sum
  pub sum-cong :
      (u v w : A → ℕ) (xs : List A)
      → ((a : A) → u a ≡ 0 → v a ≡ w a)
      → sum u xs ≡ 0
      → sum v xs ≡ sum w xs
  sum-cong u v w [] f z = refl
  sum-cong u v w (x ∷ xs) f z =
      ap₂ (λ (a b : ℕ). a + b) (f x (omega arith)) (sum-cong u v w xs f (omega arith))

-- How often a thread holds the `Player` at `q`: it is to hand it on or to free it.
abbrev pub thread_holds : ℕ → Thread → ℕ
thread_holds q (admitted fd name) = 0
thread_holds q (arrived fd me) = one me q
thread_holds q (polling fd me) = 0
thread_holds q (leaving fd me) = one me q

abbrev pub game_holds : ℕ → GameThread → ℕ
game_holds q (playing p1 p2) = one p1 q + one p2 q
game_holds q (over p1 p2) = one p1 q + one p2 q

abbrev pub waiting_holds : ℕ → ℕ → ℕ
waiting_holds q w = if w == 0 then 0 else one w q

abbrev pub holders : ℕ → Lobby → ℕ
holders q s =
    waiting_holds q s.waiting + sum (thread_holds q) s.threads + sum (game_holds q) s.games

abbrev pub is_live : Option Player → ℕ
is_live none = 0
is_live (some p) = 1

-- How often the `Player` at `q` is one of the name.
abbrev pub bears : Bytes → Option Player → ℕ
bears n none = 0
bears n (some p) = same p.name n

module _ (players : ℕ → Option Player) (n : Bytes) where
  abbrev pub thread_named : Thread → ℕ
  thread_named (admitted fd name) = same name n
  thread_named (arrived fd me) = bears n (players me)
  thread_named (polling fd me) = 0
  thread_named (leaving fd me) = 0

  abbrev pub game_named : GameThread → ℕ
  game_named (playing p1 p2) = bears n (players p1) + bears n (players p2)
  game_named (over p1 p2) = 0

abbrev pub clients_named : Bytes → Lobby → ℕ
clients_named n s =
    bears n (s.players s.waiting)
    + sum (thread_named s.players n) s.threads
    + sum (game_named s.players n) s.games

abbrev pub polls : ℕ → Thread → ℕ
polls q (admitted fd name) = 0
polls q (arrived fd me) = 0
polls q (polling fd me) = one me q
polls q (leaving fd me) = 0

-- A `Player` that is allocated is in exactly one place: `waiting_player`, a thread that is to place or
-- to free it, or one of the two places of a game; no other address is in any. A name is registered
-- once for every client of that name that is admitted, waits or plays, and never twice; and some
-- thread polls for the waiting client.
pub record Sound (s : Lobby) : Type 0 where
  pub null : s.players 0 ≡ none
  pub never_null : sum (polls 0) s.threads ≡ 0
  pub once : (q : ℕ) → holders q s ≡ is_live (s.players q)
  pub register : (n : Bytes) → count n s.names ≡ clients_named n s
  pub distinct : Distinct s.names
  pub watched : s.waiting ≢ 0 → 1 ≤ sum (polls s.waiting) s.threads

module _ (players : ℕ → Option Player) (q : ℕ) (p : Option Player) where
  thread_named-put :
      (n : Bytes) (t : Thread)
      → thread_holds q t ≡ 0
      → thread_named (put players q p) n t ≡ thread_named players n t
  thread_named-put n (admitted fd name) h = refl
  thread_named-put n (arrived fd me) h = ground arith
  thread_named-put n (polling fd me) h = refl
  thread_named-put n (leaving fd me) h = refl

  game_named-put :
      (n : Bytes) (g : GameThread)
      → game_holds q g ≡ 0
      → game_named (put players q p) n g ≡ game_named players n g
  game_named-put n (playing a b) h = ground arith
  game_named-put n (over a b) h = refl

  -- Another object where nobody holds one changes no client.
  pub clients-put :
      (n : Bytes) (w : ℕ) (ts : List Thread) (gs : List GameThread)
      → players 0 ≡ none
      → q ≢ 0
      → waiting_holds q w + sum (thread_holds q) ts + sum (game_holds q) gs ≡ 0
      → bears n (put players q p w)
          + sum (thread_named (put players q p) n) ts
          + sum (game_named (put players q p) n) gs
        ≡ bears n (players w) + sum (thread_named players n) ts + sum (game_named players n) gs
  clients-put n w ts gs null pos h =
      let t =
        sum-cong (thread_holds q) (thread_named (put players q p) n) (thread_named players n) ts
          (thread_named-put n) (omega arith) in
      let g =
        sum-cong (game_holds q) (game_named (put players q p) n) (game_named players n) gs
          (game_named-put n) (omega arith) in
      let e : bears n (put players q p w) ≡ bears n (players w) = ground arith in
      omega (arith, t, g, e)
