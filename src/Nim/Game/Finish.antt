-- ===== src/Nim/Game/Finish.antt =====
-- Every game of P4/clients/src/nimd.c in which legal moves keep coming ends, and what a broken
-- message does to a game.
use cs214_assignments.Base.{
  ℕ, zero, suc, ◌+◌, ◌⊎◌, if◌then◌else◌, ◌≤◌, ◌<◌, false, List, [], ◌∷◌, ◌++◌, Option, none, some,
  ◌≡◌, refl, ap, ◌∙◌, arith, ◌==◌, length, get_or, Bool-cases, inl, inr,
}
use mathlib.Core.List.{append-nil}
use cs214_assignments.Base.Bytes.{Bytes, codes, str_eq, str_eq_iff}
use cs214_assignments.Nim.Frame.{Received, closed, invalid, message}
use cs214_assignments.Nim.Game.{
  Table, Msg, over, fail, play, drop_player, then_active, stay, idle_part, other, playing, left,
  Round, ready, stones, round, active_part, Game, end_game, game_step,
}
use cs214_assignments.Nim.Game.Rules.{IsTable, Stays, IsBroken}
use cs214_assignments.Nim.Game.Play.{game_step-playing}

-- In every game that goes on the active player has a legal move.
legal_move : (ps : List ℕ) → 0 < stones ps → (i : ℕ) × (i < length ps) × (1 ≤ get_or ps i 0)
legal_move [] h = absurd (omega arith)
legal_move (zero ∷ ps) h = let (i, a, b) = legal_move ps (omega arith) in (suc i, omega arith, b)
legal_move (suc p ∷ ps) h = (0, omega arith, omega arith)

-- no message of the list says who has won
abbrev pub NoResult : List (ℕ × Msg) → Type 0
NoResult [] = Unit
NoResult ((to, over winner piles why) ∷ ms) = ⊥
NoResult ((to, _) ∷ ms) = NoResult ms

abbrev pub times : ℕ → List ℕ → ℕ
times k [] = 0
times k (x ∷ xs) = (if x == k then 1 else 0) + times k xs

active_part-IsBroken :
    (t : Table) (active : Option Received)
    → IsBroken active
    → (code : ℕ) × (active_part t active ≡ drop_player t t.turn code)
unfolding active_part
active_part-IsBroken t none b = absurd b
active_part-IsBroken t (some closed) b = absurd b
active_part-IsBroken t (some (invalid code)) b = (code, refl)
active_part-IsBroken t (some (message type body)) (is, e) =
    let move = (str_eq_iff type (codes "MOVE")).1 is in (10, rw (move, e) refl)

idle_part-Stays :
    (t : Table) (idle : Option Received)
    → Stays idle
    → (sent : List (ℕ × Msg)) × (idle_part t idle ≡ stay t sent)
      × ((to code : ℕ) → NoResult (sent ++ (to, fail code) ∷ []))
unfolding idle_part
idle_part-Stays t none b = ([], refl, λ to code. tt)
idle_part-Stays t (some closed) b = absurd b
idle_part-Stays t (some (invalid code)) b = absurd b
idle_part-Stays t (some (message type body)) b = elim (Bool-cases (str_eq type (codes "MOVE"))) [
  | inl move ↦ (
    ((other t.turn, fail 31) ∷ (other t.turn, play t.turn t.board) ∷ []),
    rw move refl,
    λ to code. tt,
  )
  | inr quiet ↦ ([], rw quiet refl, λ to code. tt)
]

-- the round that such a message ends
abbrev broken_round : Table → List (ℕ × Msg) → ℕ → Round
broken_round t sent code = record {
  table = t;
  status = left 0 false;
  sent = sent ++ (t.turn, fail code) ∷ [];
  closes = t.turn ∷ [];
}

round-broken :
    (t : Table) (idle active : Option Received) (sent : List (ℕ × Msg)) (code : ℕ)
    → idle_part t idle ≡ stay t sent
    → active_part t active ≡ drop_player t t.turn code
    → round t (ready idle active) ≡ broken_round t sent code
unfolding round
round-broken t idle active sent code b a =
    ap (λ (r : Round). then_active r active) b
    ∙ ap (λ (r : Round). record r { sent = sent ++ r.sent; closes = [] ++ r.closes }) a

times-turn :
    (turn : ℕ)
    → (turn ≡ 1) ⊎ (turn ≡ 2)
    → (times turn (turn ∷ 1 ∷ 2 ∷ []) ≡ 2) × (times (other turn) (turn ∷ 1 ∷ 2 ∷ []) ≡ 1)
times-turn turn (inl e) = rw e (refl, refl)
times-turn turn (inr e) = rw e (refl, refl)

-- Where the active player sends what is no message, or a `MOVE` without a second field, and the
-- idle player nothing or a message, while the game goes on: the game is left with no winner, nobody
-- is told a result, and the socket of the active player is closed twice, that of the other once.
pub broken_message :
    (g : Game) (idle active : Option Received)
    → g.status ≡ playing
    → IsTable g.table
    → Stays idle
    → IsBroken active
    → let g' = game_step g (ready idle active) in
      (g'.status ≡ left 0 false)
      × ((new : List (ℕ × Msg)) × (g'.sent ≡ g.sent ++ new) × NoResult new)
      × ((new : List ℕ) × (g'.closes ≡ g.closes ++ new)
          × (times g.table.turn new ≡ 2)
          × (times (other g.table.turn) new ≡ 1))
unfolding end_game
broken_message g idle active p i quiet broken =
    let (code, a) = active_part-IsBroken g.table active broken in
    let (sent, b, none_won) = idle_part-Stays g.table idle quiet in
    rw (game_step-playing g (ready idle active) p, round-broken g.table idle active sent code b a)
      (
        refl,
        (
          sent ++ (g.table.turn, fail code) ∷ [],
          ap (◌++◌ g.sent) (append-nil _),
          none_won g.table.turn code,
        ),
        (
          g.table.turn ∷ 1 ∷ 2 ∷ [],
          refl,
          (times-turn g.table.turn i.turn_is).0,
          (times-turn g.table.turn i.turn_is).1,
        ),
      )
