-- ===== src/Nim/Game/Rules.antt =====
-- What one round of `game_thread` (P4/clients/src/nimd.c) does to the board and the turn.
use cs214_assignments.Base.{
  ℕ, zero, suc, ◌+◌, ◌-◌, ◌^◌, ◌≢◌, ◌≤◌, ◌<◌, ◌⊎◌, true, false, ◌||◌, List, [], ◌∷◌, Option, none,
  some, ◌≡◌, refl, arith, ltb, ◌==◌, length, get_or, set, Bool-cases, Option-cases, inl, inr,
}
use cs214_assignments.Base.Bytes.{Bytes, codes, str_eq, str_eq_iff}
use cs214_assignments.Nim.Frame.{Received, closed, invalid, message, split_pipe}
use cs214_assignments.Nim.Game.{
  atoi, is_negative, Table, Status, playing, left, Polled, failed, ready, other, idle_part, stones,
  take_stones, make_move, active_part, round,
}

-- While the game goes on: five piles that are not all empty, one of two turns, and `board_str`
-- showing the piles.
pub record IsTable (t : Table) : Type 0 where
  pub five : length t.piles ≡ 5
  pub turn_is : (t.turn ≡ 1) ⊎ (t.turn ≡ 2)
  pub shown : t.board ≡ t.piles
  pub not_over : 0 < stones t.piles

pub stones-set :
    (ps : List ℕ) (i a : ℕ)
    → a ≤ get_or ps i 0
    → stones (set ps i (get_or ps i 0 - a)) + a ≡ stones ps
stones-set [] i a h = omega arith
stones-set (p ∷ ps) zero a h = omega arith
stones-set (p ∷ ps) (suc i) a h = omega (arith, stones-set ps i a h)

-- A legal move.
abbrev pub Legal : Table → ℕ → ℕ → Type 0
Legal t pile amount = (pile < 5) × (1 ≤ amount) × (amount ≤ get_or t.piles pile 0)

-- Where the stones go by a legal move.
abbrev pub Taken : Table → ℕ → ℕ → Table → Type 0
Taken t pile amount u = u.piles ≡ set t.piles pile (get_or t.piles pile 0 - amount)

-- What the idle player sends does not end the game: nothing, or a message.
abbrev pub Stays : Option Received → Type 0
Stays none = Unit
Stays (some (message type body)) = Unit
Stays (some _) = ⊥

-- The active player sends nothing that counts: nothing, another message than `MOVE`, or a move that
-- is not legal or whose amount is a negative `int`.
abbrev pub NoMove : Table → Option Received → Type 0
NoMove t none = Unit
NoMove t (some (message type body)) =
    (type ≢ codes "MOVE")
    ⊎ ((x : Bytes) × (y : Bytes) × (split_pipe body ≡ some (x, y))
        × ((¬ Legal t (atoi x) (atoi y)) ⊎ (2 ^ 31 ≤ atoi y)))
NoMove t (some _) = ⊥

-- The active player sends what is no message, or a `MOVE` without a second field.
abbrev pub IsBroken : Option Received → Type 0
IsBroken (some (invalid code)) = Unit
IsBroken (some (message type body)) = (type ≡ codes "MOVE") × (split_pipe body ≡ none)
IsBroken _ = ⊥

-- Why a game ends without a winner: `poll` fails, or a player sends what is broken.
abbrev pub Breaks : Polled → Type 0
Breaks failed = Unit
Breaks (ready (some (invalid code)) active) = Unit
Breaks (ready idle active) = Stays idle × IsBroken active

-- What a round with the input `e` leaves behind: the table as it was; or a legal move that the
-- active player sent, with the turn passed on or, where it took the last stone, the game won; or the
-- game left, because a player is gone, who forfeits it, or because of a bad message or of `poll`.
pub data Effect (t : Table) (e : Polled) (u : Table) (s : Status) : Type 0 where
  unchanged :
      (idle active : Option Received)
      → e ≡ ready idle active
      → Stays idle
      → NoMove t active
      → u ≡ t
      → s ≡ playing
      → Effect t e u s
  moved :
      (idle : Option Received) (body x y : Bytes)
      → e ≡ ready idle (some (message (codes "MOVE") body))
      → Stays idle
      → split_pipe body ≡ some (x, y)
      → Legal t (atoi x) (atoi y)
      → Taken t (atoi x) (atoi y) u
      → u.turn ≡ other t.turn
      → u.board ≡ u.piles
      → 0 < stones u.piles
      → s ≡ playing
      → Effect t e u s
  won :
      (idle : Option Received) (body x y : Bytes)
      → e ≡ ready idle (some (message (codes "MOVE") body))
      → Stays idle
      → split_pipe body ≡ some (x, y)
      → Legal t (atoi x) (atoi y)
      → Taken t (atoi x) (atoi y) u
      → stones u.piles ≡ 0
      → s ≡ left t.turn false
      → Effect t e u s
  idle_gone :
      (active : Option Received)
      → e ≡ ready (some closed) active
      → u ≡ t
      → s ≡ left t.turn true
      → Effect t e u s
  active_gone :
      (idle : Option Received)
      → e ≡ ready idle (some closed)
      → Stays idle
      → u ≡ t
      → s ≡ left (other t.turn) true
      → Effect t e u s
  dropped : Breaks e → u ≡ t → s ≡ left 0 false → Effect t e u s

illegal_amount :
    (t : Table) (pile amount : ℕ)
    → (is_negative amount || ltb amount 1 || ltb (get_or t.piles pile 0) amount) ≡ true
    → (¬ Legal t pile amount) ⊎ (2 ^ 31 ≤ amount)
illegal_amount t pile amount bad = elim (Bool-cases (is_negative amount)) [
  | inl n ↦ inr (ground arith)
  | inr n ↦ inl (λ legal. ground arith)
]

make_move-Effect :
    (t : Table) (idle : Option Received) (body x y : Bytes)
    → Stays idle
    → split_pipe body ≡ some (x, y)
    → let r = make_move t (atoi x) (atoi y) in
      Effect t (ready idle (some (message (codes "MOVE") body))) r.table r.status
unfolding make_move take_stones
make_move-Effect t idle body x y st e = elim (Bool-cases (is_negative (atoi x) || ltb 4 (atoi x))) [
  | inl bad ↦
      let illegal : ¬ Legal t (atoi x) (atoi y) = λ legal. ground arith in
      rw bad (unchanged idle _ refl st (inr (x, y, e, inl illegal)) refl refl)
  | inr in_range ↦
      elim (Bool-cases
        (is_negative (atoi y) || ltb (atoi y) 1 || ltb (get_or t.piles (atoi x) 0) (atoi y))) [
          | inl bad ↦
              let illegal = illegal_amount t (atoi x) (atoi y) bad in
              rw (in_range, bad) (unchanged idle _ refl st (inr (x, y, e, illegal)) refl refl)
          | inr fits ↦
              let legal : Legal t (atoi x) (atoi y) = (ground arith, ground arith, ground arith) in
              elim (Bool-cases
                (stones (set t.piles (atoi x) (get_or t.piles (atoi x) 0 - atoi y)) == 0)) [
                  | inl empty ↦
                      rw (in_range, fits, empty)
                        (won idle body x y refl st e legal refl (ground arith) refl)
                  | inr more ↦
                      rw (in_range, fits, more)
                        (moved idle body x y refl st e legal refl refl refl (ground arith) refl)
                ]
        ]
]

Breaks-active :
    (idle active : Option Received) → Stays idle → IsBroken active → Breaks (ready idle active)
Breaks-active none active st b = (st, b)
Breaks-active (some (message type body)) active st b = (st, b)
Breaks-active (some closed) active st b = absurd st
Breaks-active (some (invalid code)) active st b = absurd st

active_part-Effect :
    (t : Table) (idle active : Option Received)
    → Stays idle
    → Effect t (ready idle active) (active_part t active).table (active_part t active).status
unfolding active_part
active_part-Effect t idle none st = unchanged idle none refl st tt refl refl
active_part-Effect t idle (some closed) st = active_gone idle refl st refl refl
active_part-Effect t idle (some (invalid code)) st = dropped (Breaks-active idle _ st tt) refl refl
active_part-Effect t idle (some (message type body)) st =
    elim (Bool-cases (str_eq type (codes "MOVE"))) [
      | inr no_move ↦
          let differs : type ≢ codes "MOVE" =
            λ is. let k = (str_eq_iff type (codes "MOVE")).1 is in absurd cc in
          rw no_move (unchanged idle _ refl st (inl differs) refl refl)
      | inl move ↦ rw move (elim (Option-cases (split_pipe body)) [
        | inl e ↦
            let is = (str_eq_iff type (codes "MOVE")).0 move in
            rw e (dropped (Breaks-active idle _ st (is, e)) refl refl)
        | inr ((x, y), e) ↦
            rw e
              (rw ((str_eq_iff type (codes "MOVE")).0 move) (make_move-Effect t idle body x y st e))
      ])
    ]

-- Every round of the game keeps to the rules. The table stays as it was only where the idle player
-- sends nothing or a message, and the active player nothing, a message that is no `MOVE`, or a
-- `MOVE` that is not legal or whose amount is negative; a legal `MOVE` of the active player takes
-- its stones and passes the turn, or wins by the last stone; a player who is gone forfeits the
-- game; and it ends without a winner only where `poll` fails, a player sends what is no message, or
-- the active player a `MOVE` without a second field.
pub round-Effect : (t : Table) (e : Polled) → Effect t e (round t e).table (round t e).status
unfolding round idle_part
round-Effect t failed = dropped tt refl refl
round-Effect t (ready none active) = active_part-Effect t none active tt
round-Effect t (ready (some closed) active) = idle_gone active refl refl refl
round-Effect t (ready (some (invalid code)) active) = dropped tt refl refl
round-Effect t (ready (some (message type body)) active) =
    elim (Bool-cases (str_eq type (codes "MOVE"))) [
      | inl impatient ↦ rw impatient (active_part-Effect t (some (message type body)) active tt)
      | inr ignored ↦ rw ignored (active_part-Effect t (some (message type body)) active tt)
    ]
