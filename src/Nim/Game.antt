-- ===== src/Nim/Game.antt =====
-- `game_thread` of P4/clients/src/nimd.c. A round of its loop is a step on the variables of the
-- loop: what `poll` and `receive_msg` return in it is the step's input, and the messages that it
-- sends and the sockets that it closes are collected. Sockets go by the player's number, 1 or 2.
-- A C `int` is its bit pattern, below 2 ^ 32.
pub mod Rules
pub mod Shown
pub mod Play
pub mod Finish
use cs214_assignments.Base.{
  ℕ, zero, suc, ◌+◌, ◌-◌, ◌*◌, ◌%◌, ◌^◌, Bool, true, false, not, ◌&&◌, ◌||◌, List, [], ◌∷◌, ◌++◌,
  Option, none, some, ltb, leb, ◌==◌, if◌then◌else◌, get_or, set,
}
use Prim.Native.Nat.{min}
use cs214_assignments.Base.Bytes.{Bytes, codes, str_eq, is_digit, is_space}
use cs214_assignments.Nim.Frame.{Received, closed, invalid, message, split_pipe}

-- the digits at the front of a string, behind those already read
unfoldable pub digits_value : ℕ → Bytes → ℕ
digits_value n [] = n
digits_value n (c ∷ cs) =
    let rest = digits_value (n * 10 + (c - b'0')) cs in if is_digit c then rest else n

-- `(int) strtol(s)` with 64-bit longs: the value is clamped, then cut to 32 bits
unfoldable pub signed_value : Bytes → ℕ
unfolding digits_value
signed_value [] = 0
signed_value (c ∷ cs) =
    if c == b'-'
    then (2 ^ 64 - min (digits_value 0 cs) (2 ^ 63)) % 2 ^ 32
    else if c == b'+'
    then min (digits_value 0 cs) (2 ^ 63 - 1) % 2 ^ 32
    else min (digits_value 0 (c ∷ cs)) (2 ^ 63 - 1) % 2 ^ 32

unfoldable pub atoi : Bytes → ℕ
unfolding signed_value
atoi [] = 0
atoi (c ∷ cs) = let rest = atoi cs in if is_space c then rest else signed_value (c ∷ cs)

abbrev pub is_negative : ℕ → Bool
is_negative n = leb (2 ^ 31) n

-- The five piles, whose turn it is, and the piles that the variable `board_str` shows.
pub record Table : Type 0 where
  pub piles : List ℕ
  pub turn : ℕ
  pub board : List ℕ

-- The messages of a game, without their framing; the board is the list of the piles.
pub data Msg : Type 0 where
  name : ℕ → Bytes → Msg
  play : ℕ → List ℕ → Msg
  over : ℕ → List ℕ → Bool → Msg
  fail : ℕ → Msg

-- the loop goes on, or it was left with `winner` and the reason `Forfeit` or none
pub data Status : Type 0 where
  playing : Status
  left : ℕ → Bool → Status

pub record Round : Type 0 where
  pub table : Table
  pub status : Status
  pub sent : List (ℕ × Msg)
  pub closes : List ℕ

-- What `poll` finds: its failure, or for the idle and the active player what `receive_msg` reads
-- where the socket is ready.
pub data Polled : Type 0 where
  failed : Polled
  ready : Option Received → Option Received → Polled

abbrev pub other : ℕ → ℕ
other turn = if turn == 1 then 2 else 1

abbrev pub stay : Table → List (ℕ × Msg) → Round
stay t sent = record { table = t; status = playing; sent = sent; closes = [] }

-- `send_error(...); close(...); break;`
abbrev pub drop_player : Table → ℕ → ℕ → Round
drop_player t player code = record {
  table = t;
  status = left 0 false;
  sent = (player, fail code) ∷ [];
  closes = player ∷ [];
}

abbrev pub forfeit : Table → ℕ → Round
forfeit t winner = record { table = t; status = left winner true; sent = []; closes = [] }

-- 1. the idle player
unfoldable pub idle_part : Table → Option Received → Round
idle_part t none = stay t []
idle_part t (some closed) = forfeit t t.turn
idle_part t (some (invalid code)) = drop_player t (other t.turn) code
idle_part t (some (message type body)) =
    if str_eq type (codes "MOVE")
    then stay t ((other t.turn, fail 31) ∷ (other t.turn, play t.turn t.board) ∷ [])
    else stay t []

abbrev pub stones : List ℕ → ℕ
stones [] = 0
stones (p ∷ ps) = p + stones ps

abbrev refuse : Table → ℕ → Round
refuse t code = stay t ((t.turn, fail code) ∷ (t.turn, play t.turn t.board) ∷ [])

-- the end of the loop's body, for a legal move
unfoldable pub take_stones : Table → ℕ → ℕ → Round
take_stones t pile amount =
    let piles = set t.piles pile (get_or t.piles pile 0 - amount) in
    let next = other t.turn in
    if stones piles == 0
    then record {
      table = record t { piles = piles };
      status = left t.turn false;
      sent = [];
      closes = [];
    }
    else stay (record { piles = piles; turn = next; board = piles })
        ((1, play next piles) ∷ (2, play next piles) ∷ [])

unfoldable pub make_move : Table → ℕ → ℕ → Round
make_move t pile amount =
    if is_negative pile || ltb 4 pile
    then refuse t 32
    else if is_negative amount || ltb amount 1 || ltb (get_or t.piles pile 0) amount
    then refuse t 33
    else take_stones t pile amount

-- 2. the active player
unfoldable pub active_part : Table → Option Received → Round
active_part t none = stay t []
active_part t (some closed) = forfeit t (other t.turn)
active_part t (some (invalid code)) = drop_player t t.turn code
active_part t (some (message type body)) =
    if not (str_eq type (codes "MOVE")) then stay t [] else elim (split_pipe body) [
      | none ↦ drop_player t t.turn 10
      | some (pile, amount) ↦ make_move t (atoi pile) (atoi amount)
    ]

-- the second part runs where the first did not leave the loop
abbrev pub then_active : Round → Option Received → Round
then_active r active = elim r.status [
  | left winner why ↦ r
  | playing ↦
      let r' = active_part r.table active in
      record r' { sent = r.sent ++ r'.sent; closes = r.closes ++ r'.closes }
]

unfoldable pub round : Table → Polled → Round
round t failed = record { table = t; status = left 0 false; sent = []; closes = [] }
round t (ready idle active) = then_active (idle_part t idle) active

-- A game that is over, or waits for the next event.
pub record Game : Type 0 where
  pub table : Table
  pub status : Status
  pub sent : List (ℕ × Msg)
  pub closes : List ℕ

-- in front of the loop
unfoldable pub start_game : Bytes → Bytes → Game
start_game name1 name2 =
    let piles : List ℕ = 1 ∷ 3 ∷ 5 ∷ 7 ∷ 9 ∷ [] in
    record {
      table = record { piles = piles; turn = 1; board = piles };
      status = playing;
      sent = (1, name 1 name2) ∷ (2, name 2 name1) ∷ (1, play 1 piles) ∷ (2, play 1 piles) ∷ [];
      closes = [];
    }

-- behind the loop: the result, where there is a winner, and both sockets closed
unfoldable pub end_game : Round → Game
end_game r = elim r.status [
  | playing ↦ record { table = r.table; status = playing; sent = r.sent; closes = r.closes }
  | left winner why ↦
      let result = over winner r.table.piles why in
      record {
        table = record (r.table) { board = r.table.piles };
        status = left winner why;
        sent = r.sent ++ (if winner == 0 then [] else (1, result) ∷ (2, result) ∷ []);
        closes = r.closes ++ 1 ∷ 2 ∷ [];
      }
]

unfoldable pub game_step : Game → Polled → Game
game_step g e = elim g.status [
  | left winner why ↦ g
  | playing ↦
      let g' = end_game (round g.table e) in
      record g' { sent = g.sent ++ g'.sent; closes = g.closes ++ g'.closes }
]

unfoldable pub run_game : Game → List Polled → Game
run_game g [] = g
run_game g (e ∷ es) = run_game (game_step g e) es
