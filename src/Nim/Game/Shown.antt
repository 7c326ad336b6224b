-- ===== src/Nim/Game/Shown.antt =====
-- Which board and turn the players of `game_thread` (P4/clients/src/nimd.c) were last sent.
use cs214_assignments.Base.{
  ℕ, ◌-◌, ◌⊎◌, ◌||◌, List, [], ◌∷◌, ◌++◌, Option, none, some, ltb, if◌then◌else◌, get_or,
  Bool-cases, Option-cases, ◌≡◌, refl, sym, ap, ◌∙◌, ◌==◌, set, inl, inr,
}
use cs214_assignments.Base.Bytes.{codes, str_eq}
use cs214_assignments.Nim.Frame.{Received, closed, invalid, message, split_pipe}
use cs214_assignments.Nim.Game.{
  atoi, is_negative, Table, Msg, name, play, fail, over, failed, idle_part, take_stones, make_move,
  active_part, Status, playing, left, Polled, ready, other, stones, round,
}

-- the turn and the board of the last `PLAY` that went to a player
abbrev pub play_to : ℕ → ℕ × Msg → Option (ℕ × List ℕ)
play_to k (j, play turn piles) = if j == k then some (turn, piles) else none
play_to k (j, name n text) = none
play_to k (j, over winner piles why) = none
play_to k (j, fail code) = none

abbrev pub or_else : Option (ℕ × List ℕ) → Option (ℕ × List ℕ) → Option (ℕ × List ℕ)
or_else none o = o
or_else (some x) o = some x

abbrev pub last_play : ℕ → List (ℕ × Msg) → Option (ℕ × List ℕ)
last_play k [] = none
last_play k (m ∷ ms) = or_else (last_play k ms) (play_to k m)

or_else_assoc : (a b c : Option (ℕ × List ℕ)) → or_else (or_else a b) c ≡ or_else a (or_else b c)
or_else_assoc none b c = refl
or_else_assoc (some x) b c = refl

or_else-none : (a : Option (ℕ × List ℕ)) → or_else a none ≡ a
or_else-none none = refl
or_else-none (some x) = refl

pub last_play-append :
    (k : ℕ) (ms ns : List (ℕ × Msg))
    → last_play k (ms ++ ns) ≡ or_else (last_play k ns) (last_play k ms)
last_play-append k [] ns = sym (or_else-none (last_play k ns))
last_play-append k (m ∷ ms) ns =
    ap (λ (o : Option (ℕ × List ℕ)). or_else o (play_to k m)) (last_play-append k ms ns)
    ∙ or_else_assoc (last_play k ns) (last_play k ms) (play_to k m)

-- What a round that goes on has sent to a player: a `PLAY` of the table behind it last, or none,
-- where the table is the one before.
abbrev pub Tells : ℕ → Table → Table → List (ℕ × Msg) → Type 0
Tells k t u sent =
    (last_play k sent ≡ some (u.turn, u.piles))
    ⊎ ((last_play k sent ≡ none) × (u.turn ≡ t.turn) × (u.piles ≡ t.piles))

abbrev pub Told : ℕ → Table → Table → List (ℕ × Msg) → Status → Type 0
Told k t u sent playing = Tells k t u sent
Told k t u sent (left winner why) = Unit

-- a message, and the board in front of the rest
Told-again :
    (k : ℕ) (t u : Table) (s : Status) (sent : List (ℕ × Msg)) (to code : ℕ)
    → t.board ≡ t.piles
    → Told k t u sent s
    → Told k t u ((to, fail code) ∷ (to, play t.turn t.board) ∷ sent) s
Told-again k t u (left winner why) sent to code shown h = tt
Told-again k t u playing sent to code shown (inl e) = inl (rw e refl)
Told-again k t u playing sent to code shown (inr (none_yet, turn, piles)) =
    elim (Bool-cases (to == k)) [
      | inl me ↦ inl (rw (none_yet, me, shown, turn, piles) refl)
      | inr you ↦ inr (rw (none_yet, you) refl, turn, piles)
    ]

module _ (k : ℕ) (t : Table) (shown : t.board ≡ t.piles) (one_of : (k ≡ 1) ⊎ (k ≡ 2)) where
  quiet-Told : Told k t t [] playing
  quiet-Told = inr (refl, refl, refl)

  take_stones-Told :
      (pile amount : ℕ) → let r = take_stones t pile amount in Told k t r.table r.sent r.status
  unfolding take_stones
  take_stones-Told pile amount =
      elim (Bool-cases (stones (set t.piles pile (get_or t.piles pile 0 - amount)) == 0)) [
        | inl e ↦ rw e tt
        | inr e ↦ rw e (inl (elim one_of [ inl is ↦ rw is refl | inr is ↦ rw is refl ]))
      ]

  make_move-Told :
      (pile amount : ℕ) → let r = make_move t pile amount in Told k t r.table r.sent r.status
  unfolding make_move
  make_move-Told pile amount = elim (Bool-cases (is_negative pile || ltb 4 pile)) [
    | inl bad ↦ rw bad (Told-again k t t playing [] t.turn 32 shown quiet-Told)
    | inr fine ↦
        elim (Bool-cases
          (is_negative amount || ltb amount 1 || ltb (get_or t.piles pile 0) amount)) [
            | inl bad ↦ rw (fine, bad) (Told-again k t t playing [] t.turn 33 shown quiet-Told)
            | inr fits ↦ rw (fine, fits) (take_stones-Told pile amount)
          ]
  ]

  active_part-Told :
      (active : Option Received) → let r = active_part t active in Told k t r.table r.sent r.status
  unfolding active_part
  active_part-Told none = quiet-Told
  active_part-Told (some closed) = tt
  active_part-Told (some (invalid code)) = tt
  active_part-Told (some (message type body)) = elim (Bool-cases (str_eq type (codes "MOVE"))) [
    | inr no_move ↦ rw no_move quiet-Told
    | inl move ↦ rw move (elim (Option-cases (split_pipe body)) [
      | inl e ↦ rw e tt
      | inr ((x, y), e) ↦ rw e (make_move-Told (atoi x) (atoi y))
    ])
  ]

  pub round-Told : (e : Polled) → let r = round t e in Told k t r.table r.sent r.status
  unfolding round idle_part
  round-Told failed = tt
  round-Told (ready none active) = active_part-Told active
  round-Told (ready (some closed) active) = tt
  round-Told (ready (some (invalid code)) active) = tt
  round-Told (ready (some (message type body)) active) =
      elim (Bool-cases (str_eq type (codes "MOVE"))) [
        | inl impatient ↦
            let r = active_part t active in
            rw impatient (
              Told-again k t r.table r.status r.sent (other t.turn) 31 shown
                (active_part-Told active))
        | inr ignored ↦ rw ignored (active_part-Told active)
      ]

-- The last `PLAY` to a player, once more messages are sent.
pub Tells-append :
    (k : ℕ) (t u : Table) (before sent : List (ℕ × Msg))
    → last_play k before ≡ some (t.turn, t.piles)
    → Tells k t u sent
    → last_play k (before ++ sent) ≡ some (u.turn, u.piles)
Tells-append k t u before sent old (inl e) =
    last_play-append k before sent
    ∙ ap (λ (o : Option (ℕ × List ℕ)). or_else o (last_play k before)) e
Tells-append k t u before sent old (inr (e, turn, piles)) =
    last_play-append k before sent
    ∙ ap (λ (o : Option (ℕ × List ℕ)). or_else o (last_play k before)) e
    ∙ rw (turn, piles) old
