-- ===== src/Nim/Tests.antt =====
-- Runs of P4/clients/src/nimd.c, and its theorems at concrete messages and games.
use cs214_assignments.Base.{
  ℕ, zero, suc, ◌-◌, ◌^◌, ◌⊎◌, ◌≢◌, false, List, [], ◌∷◌, ◌++◌, none, some, inl, ◌≡◌, refl, arith,
  if◌then◌else◌, ◌==◌,
}
use cs214_assignments.Base.Bytes.{Bytes, codes, str_eq, str_eq_iff}
use cs214_assignments.Nim.Frame.{invalid, message, send_msg, receive_msg, read_n, header_ok}
use cs214_assignments.Nim.Frame.RoundTrip.{receive_msg-send_msg}
use cs214_assignments.Nim.Names.{
  is_registered, remove_name, wait, open_client, Distinct, AllDifferent, Distinct-AllDifferent,
  Admissible, open_client_lem, remove_name_lem, register_name,
}
use cs214_assignments.Nim.Game.{
  Table, Msg, other, left, Polled, ready, round, Game, start_game, game_step, run_game, atoi,
  signed_value, digits_value,
}
use cs214_assignments.Nim.Game.Rules.{IsTable, Effect, round-Effect}
use cs214_assignments.Nim.Game.Play.{Result, run_game_lem, start_game-playing}
use cs214_assignments.Nim.Game.Finish.{NoResult, times, broken_message}
use cs214_assignments.Nim.Lobby.{
  Player, Lobby, Step, Reach, here, next, connect, allocate, wait_first, polling,
}
use cs214_assignments.Nim.Lobby.Invariant.{Sound}
use cs214_assignments.Nim.Lobby.Steps.{Reach-Sound}
use cs214_assignments.Nim.Lobby.Owner.{Fresh, poll_own}
use cs214_assignments.Nim.Lobby.Race.{
  Any, reused, taken_over, freed_other, abandoned, waiting_taken_over,
}

abbrev open_ann : Bytes
open_ann = codes "0|09|OPEN|Ann|"

sent_open : send_msg (codes "OPEN|Ann") ≡ some open_ann
unfolding send_msg
sent_open = refl

-- a length field that is no number
bad_length : receive_msg (codes "0|x9|OPEN|Ann|") ≡ (invalid 10, codes "OPEN|Ann|")
unfolding receive_msg read_n header_ok
bad_length = refl

minus_one : atoi (codes "-1") ≡ 2 ^ 32 - 1
unfolding atoi signed_value digits_value
minus_one = refl

receive_msg-send_msg_example :
    (m : Bytes) × (send_msg (codes "OPEN|Ann") ≡ some m)
    × (receive_msg (m ++ codes "0|09|") ≡ (message (codes "OPEN") (codes "Ann"), codes "0|09|"))
receive_msg-send_msg_example =
    receive_msg-send_msg (codes "OPEN") (codes "Ann") (codes "0|09|") (ground arith) (ground arith)
      (omega arith)

abbrev names : List Bytes
names = codes "Ann" ∷ codes "Bob" ∷ []

names-Distinct : Distinct names
unfolding is_registered str_eq
names-Distinct = (refl, (refl, tt))

names-AllDifferent : AllDifferent names
names-AllDifferent = (Distinct-AllDifferent names).0 names-Distinct

open_client_lem_example :
    AllDifferent (open_client names (message (codes "OPEN") (codes "Eve"))).1
    × (((name : Bytes) × Admissible names (message (codes "OPEN") (codes "Eve")) name
          × (open_client names (message (codes "OPEN") (codes "Eve")) ≡ (wait name, name ∷ names)))
        ⊎ (((name : Bytes) → ¬ Admissible names (message (codes "OPEN") (codes "Eve")) name)
            × ((name : Bytes)
                → (open_client names (message (codes "OPEN") (codes "Eve"))).0 ≢ wait name)
            × ((open_client names (message (codes "OPEN") (codes "Eve"))).1 ≡ names)))
open_client_lem_example =
    open_client_lem names (message (codes "OPEN") (codes "Eve")) names-AllDifferent

remove_name_lem_example :
    Distinct (remove_name names (codes "Ann"))
    × (is_registered (remove_name names (codes "Ann")) (codes "Ann") ≡ false)
    × ((b : Bytes)
        → codes "Ann" ≢ b
        → is_registered (remove_name names (codes "Ann")) b ≡ is_registered names b)
remove_name_lem_example = remove_name_lem names (codes "Ann") names-Distinct

-- the input in which the active player alone sends a move
abbrev move : Bytes → Polled
move body = ready none (some (message (codes "MOVE") body))

abbrev opening : Table
opening = record { piles = 1 ∷ 3 ∷ 5 ∷ 7 ∷ 9 ∷ []; turn = 1; board = 1 ∷ 3 ∷ 5 ∷ 7 ∷ 9 ∷ [] }

round-Effect_example :
    Effect opening
      (move (codes "3|2"))
      (round opening (move (codes "3|2"))).table
      (round opening (move (codes "3|2"))).status
round-Effect_example = round-Effect opening (move (codes "3|2"))

-- a game in which every move takes a whole pile
abbrev short_game : List Polled
short_game =
    move (codes "0|1")
    ∷ move (codes "1|3")
    ∷ move (codes "2|5")
    ∷ move (codes "3|7")
    ∷ move (codes "4|9")
    ∷ []

run_game_lem_example :
    Result
      (run_game (start_game (codes "Ann") (codes "Bob")) short_game)
      (run_game (start_game (codes "Ann") (codes "Bob")) short_game).status
run_game_lem_example = run_game_lem (codes "Ann") (codes "Bob") short_game

abbrev more_moves : ℕ → List Polled
more_moves zero = []
more_moves (suc n) = move (codes "0|1") ∷ more_moves n

abbrev first_game : Game
first_game = start_game (codes "Ann") (codes "Bob")

first_game-IsTable : IsTable first_game.table
unfolding start_game
first_game-IsTable = record {
  five = refl;
  turn_is = inl refl;
  shown = refl;
  not_over = omega arith;
}

broken_message_example :
    ((game_step first_game (ready none (some (invalid 10)))).status ≡ left 0 false)
    × ((new : List (ℕ × Msg)) × ((game_step first_game (ready none (some (invalid 10)))).sent
          ≡ first_game.sent ++ new)
        × NoResult new)
    × ((new : List ℕ) × ((game_step first_game (ready none (some (invalid 10)))).closes
          ≡ first_game.closes ++ new)
        × (times first_game.table.turn new ≡ 2)
        × (times (other first_game.table.turn) new ≡ 1))
broken_message_example =
    broken_message first_game none (some (invalid 10))
      (start_game-playing (codes "Ann") (codes "Bob")) first_game-IsTable tt tt

-- the server once Ann waits, on socket 4, with her `Player` at the address 1000
abbrev ann_waits : Lobby
ann_waits = record {
  names = codes "Ann" ∷ [];
  players = λ q. if 1000 == q then some (record { fd = 4; name = codes "Ann" }) else none;
  waiting = 1000;
  threads = polling 4 1000 ∷ [];
  games = [];
  closed = [];
}

ann_waits-Reach : Reach Fresh ann_waits
unfolding open_client register_name is_registered str_eq
ann_waits-Reach =
    next
      (next (next here (connect 4 (message (codes "OPEN") (codes "Ann"))))
        (allocate [] [] 4 (codes "Ann") 1000 refl refl (omega arith) refl))
      (wait_first [] [] 4 1000 refl refl)

Reach-Sound_example : Sound ann_waits
Reach-Sound_example = Reach-Sound ann_waits-Reach

poll_own_example : (p : Player) × (ann_waits.players 1000 ≡ some p) × (p.fd ≡ 4)
poll_own_example = poll_own [] [] 4 1000 ann_waits-Reach refl refl

waiting_taken_over_example :
    let s = reused (codes "Ann") (codes "Bob") (codes "Cat") 4 5 6 1000 2000 in
    let taken = taken_over (codes "Ann") (codes "Bob") (codes "Cat") 4 5 6 1000 2000 in
    let gone = freed_other (codes "Ann") (codes "Bob") (codes "Cat") 4 5 6 1000 2000 in
    let t = abandoned (codes "Ann") (codes "Bob") (codes "Cat") 4 5 6 1000 2000 in
    (Reach Any s
      × (s.waiting ≡ 1000)
      × (s.players 1000 ≡ some (record { fd = 6; name = codes "Cat" }))
      × (s.threads ≡ polling 6 1000 ∷ polling 4 1000 ∷ [])
      × ((x : Player) → s.players 1000 ≡ some x → x.fd ≢ 4))
    × (Step Any s taken × Step Any taken gone × Step Any gone t)
    × ((t.players 1000 ≡ none)
        × (t.names ≡ [])
        × (t.threads ≡ [])
        × (t.games ≡ [])
        × (t.closed ≡ 4 ∷ []))
unfolding str_eq
waiting_taken_over_example =
    let apart : codes "Ann" ≢ codes "Bob" =
      λ e. let same = (str_eq_iff (codes "Ann") (codes "Bob")).1 e in cc in
    waiting_taken_over (codes "Ann") (codes "Bob") (codes "Cat") 4 5 6 1000 2000 (omega arith)
      (omega arith) (omega arith) apart (omega arith) (omega arith) (omega arith) (omega arith)
