-- ===== src/Nim/Game/Play.antt =====
-- Whole games of `game_thread` (P4/clients/src/nimd.c), over every sequence of inputs.
use cs214_assignments.Base.{
  ℕ, zero, suc, ◌⊎◌, ◌≢◌, Bool, false, List, [], ◌∷◌, ◌++◌, none, some, ◌≡◌, refl, sym, ap, ◌∙◌,
  subst, arith, ◌==◌, length, set, inl, inr,
}
use mathlib.Core.List.{append_assoc}
use cs214_assignments.Base.Bytes.{Bytes, codes}
use cs214_assignments.Nim.Frame.{message, split_pipe}
use cs214_assignments.Nim.Game.{
  atoi, Table, Msg, over, Status, playing, left, Round, Polled, ready, other, stones, round, Game,
  start_game, end_game, game_step, run_game,
}
use cs214_assignments.Nim.Game.Shown.{Told, last_play, Tells-append, round-Told}
use cs214_assignments.Nim.Game.Rules.{
  IsTable, Legal, Effect, unchanged, moved, won, idle_gone, active_gone, dropped, round-Effect,
}

length-set : (ps : List ℕ) (i v : ℕ) → length (set ps i v) ≡ length ps
length-set [] i v = refl
length-set (p ∷ ps) zero v = refl
length-set (p ∷ ps) (suc i) v = ap suc (length-set ps i v)

other_lem : (t : ℕ) → (t ≡ 1) ⊎ (t ≡ 2) → (other t ≡ 1) ⊎ (other t ≡ 2)
other_lem t h = ground arith

-- The last `PLAY` to each player has the turn and the piles that count.
abbrev pub Shown : Game → Type 0
Shown g =
    (last_play 1 g.sent ≡ some (g.table.turn, g.table.piles))
    × (last_play 2 g.sent ≡ some (g.table.turn, g.table.piles))

-- What a round leaves of a game: a table again, or a winner who is one of the players, with all
-- piles empty unless the other one forfeits, or no winner.
abbrev pub Outcome : Table → Status → Type 0
Outcome u playing = IsTable u
Outcome u (left winner why) =
    (winner ≡ 0) ⊎ (((winner ≡ 1) ⊎ (winner ≡ 2)) × (why ≡ false → stones u.piles ≡ 0))

Effect-Outcome :
    (t : Table) (e : Polled) (u : Table) (s : Status) → IsTable t → Effect t e u s → Outcome u s
Effect-Outcome t e u s i (unchanged idle active _ _ _ a b) = rw (a, b) i
Effect-Outcome t e u s i (moved idle body x y _ _ _ legal taken turn board more st) =
    rw st (record {
      five = rw taken (length-set t.piles _ _ ∙ i.five);
      turn_is = rw turn (other_lem t.turn i.turn_is);
      shown = board;
      not_over = more;
    })
Effect-Outcome t e u s i (won idle body x y _ _ _ legal taken empty st) =
    rw st (inr (i.turn_is, λ _. empty))
Effect-Outcome t e u s i (idle_gone active _ a st) = rw st (inr (i.turn_is, λ h. cc))
Effect-Outcome t e u s i (active_gone idle _ _ a st) =
    rw st (inr (other_lem t.turn i.turn_is, λ h. cc))
Effect-Outcome t e u s i (dropped _ a st) = rw st (inl refl)

-- A game that began as `start_game` does: it goes on at a table, or it is over, both sockets are
-- closed, and where somebody has won the last messages told both players who, with the final board.
abbrev pub Result : Game → Status → Type 0
Result g playing = IsTable g.table × Shown g
Result g (left winner why) =
    Outcome g.table (left winner why)
    × ((before : List ℕ) × (g.closes ≡ before ++ (1 ∷ 2 ∷ [])))
    × (winner ≢ 0
        → (before : List (ℕ × Msg)) × (g.sent
            ≡ before
              ++ ((1, over winner g.table.piles why) ∷ (2, over winner g.table.piles why) ∷ [])))

pub start_game-Result : (name1 name2 : Bytes) → Result (start_game name1 name2) playing
unfolding start_game
start_game-Result name1 name2 =
    (record { five = refl; turn_is = inl refl; shown = refl; not_over = omega arith }, (refl, refl))

module _ (g : Game) (r : Round) where
  abbrev pub behind : Game
  behind =
      let g' = end_game r in record g' { sent = g.sent ++ g'.sent; closes = g.closes ++ g'.closes }

  end_game-Result :
      (s : Status)
      → r.status ≡ s
      → Outcome r.table s
      → Shown g
      → Told 1 g.table r.table r.sent s
      → Told 2 g.table r.table r.sent s
      → Result behind s
  unfolding end_game
  end_game-Result playing e o (old1, old2) told1 told2 = rw e (
    o,
    (
      Tells-append 1 g.table r.table g.sent r.sent old1 told1,
      Tells-append 2 g.table r.table g.sent r.sent old2 told2,
    ),
  )
  end_game-Result (left winner why) e o old told1 told2 = rw e (
    o,
    (g.closes ++ r.closes, sym (append_assoc g.closes r.closes (1 ∷ 2 ∷ []))),
    λ ne.
        let named : (winner == 0) ≡ false = ground arith in
        (g.sent ++ r.sent, rw named (sym (append_assoc g.sent r.sent _))),
  )

  status-end_game : (end_game r).status ≡ r.status
  unfolding end_game
  status-end_game = ground arith

pub Status-cases :
    (s : Status) → (s ≡ playing) ⊎ ((winner : ℕ) × (why : Bool) × (s ≡ left winner why))
Status-cases playing = inl refl
Status-cases (left winner why) = inr (winner, why, refl)

pub game_step-playing :
    (g : Game) (e : Polled) → g.status ≡ playing → game_step g e ≡ behind g (round g.table e)
unfolding game_step
game_step-playing g e p =
    ap
      (λ (s : Status). elim s as (λ _. Game) [
        | left winner why ↦ g
        | playing ↦ behind g (round g.table e)
      ])
      p

pub game_step-left :
    (g : Game) (e : Polled) (winner : ℕ) (why : Bool)
    → g.status ≡ left winner why
    → game_step g e ≡ g
unfolding game_step
game_step-left g e winner why p =
    ap
      (λ (s : Status). elim s as (λ _. Game) [
        | left winner why ↦ g
        | playing ↦ behind g (round g.table e)
      ])
      p

pub game_step-Result :
    (g : Game) (e : Polled) → Result g g.status → Result (game_step g e) (game_step g e).status
game_step-Result g e h = elim (Status-cases g.status) [
  | inl p ↦
      let r = round g.table e in
      let playing_on : Result g playing = rw p at h in
      let (i, old) = playing_on in
      let o = Effect-Outcome g.table e r.table r.status i (round-Effect g.table e) in
      subst (λ (k : Game). Result k k.status) (sym (game_step-playing g e p))
        (subst (Result (behind g r)) (sym (status-end_game g r)) (
          end_game-Result g r r.status refl o old (round-Told 1 g.table i.shown (inl refl) e)
            (round-Told 2 g.table i.shown (inr refl) e)))
  | inr (winner, why, p) ↦
      subst (λ (k : Game). Result k k.status) (sym (game_step-left g e winner why p)) h
]

run_game-Result :
    (es : List Polled) (g : Game)
    → Result g g.status
    → Result (run_game g es) (run_game g es).status
unfolding run_game
run_game-Result [] g h = h
run_game-Result (e ∷ es) g h = run_game-Result es (game_step g e) (game_step-Result g e h)

pub start_game-playing : (name1 name2 : Bytes) → (start_game name1 name2).status ≡ playing
unfolding start_game
start_game-playing name1 name2 = refl

-- Whatever the players send and when: a game either goes on, with five piles that are not all
-- empty, the turn of player 1 or 2, and the last `PLAY` that was sent to each player having the
-- current piles and turn; or it is over, both sockets are closed, a winner is player 1 or 2 and
-- without a forfeit all piles are empty, and where there is a winner both players were last told
-- who, with the final board.
pub run_game_lem :
    (name1 name2 : Bytes) (es : List Polled)
    → let g = run_game (start_game name1 name2) es in Result g g.status
run_game_lem name1 name2 es =
    let g = start_game name1 name2 in
    run_game-Result es g
      (subst (Result g) (sym (start_game-playing name1 name2)) (start_game-Result name1 name2))

-- The active player alone sends a legal move.
abbrev pub SendsLegal : Table → Polled → Type 0
SendsLegal t e =
    (body : Bytes) × (x : Bytes) × (y : Bytes) × (e
      ≡ ready none (some (message (codes "MOVE") body)))
    × (split_pipe body ≡ some (x, y))
    × Legal t (atoi x) (atoi y)

-- In every round that is played such a move is sent.
abbrev pub Lively : Game → List Polled → Type 0
Lively g [] = Unit
Lively g (e ∷ es) = (g.status ≡ playing → SendsLegal g.table e) × Lively (game_step g e) es
