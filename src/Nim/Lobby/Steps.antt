-- ===== src/Nim/Lobby/Steps.antt =====
-- Every step of the threads of P4/clients/src/nimd.c keeps what holds of the lobby.
use cs214_assignments.Base.{ℕ, ◌≡◌, ◌≢◌, refl, List, arith, inl, inr}
use cs214_assignments.Base.Bytes.{Bytes}
use cs214_assignments.Nim.Frame.{Received}
use cs214_assignments.Nim.Names.{Answer, hang_up, refused, wait, open_client, open_client-cases}
use cs214_assignments.Nim.Lobby.{
  Thread, Lobby, start, admit, Step, connect, allocate, wait_first, pair_up, interrupted, matched,
  leave, game_ends, free_players, Reach, here, next,
}
use cs214_assignments.Nim.Lobby.Invariant.{Sound}
use cs214_assignments.Nim.Lobby.Clients.{
  wait_first-Sound, pair_up-Sound, matched-Sound, interrupted-Sound, leave-Sound,
}
use cs214_assignments.Nim.Lobby.Ends.{allocate-Sound, game_ends-Sound, free_players-Sound}

start-Sound : Sound start
start-Sound = record {
  null = refl;
  never_null = refl;
  once = λ q. refl;
  register = λ n. refl;
  distinct = tt;
  watched = λ h. absurd (h refl);
}

-- the answers that admit nobody
admit-nobody :
    (fd : ℕ) (a : Answer) (ts : List Thread) → ((name : Bytes) → a ≢ wait name) → admit fd a ts ≡ ts
admit-nobody fd (wait name) ts h = absurd (h name refl)
admit-nobody fd hang_up ts h = refl
admit-nobody fd (refused code) ts h = refl

connect-Sound :
    (s : Lobby) (fd : ℕ) (r : Received)
    → Sound s
    → Sound (record s {
      names = (open_client s.names r).1;
      threads = admit fd (open_client s.names r).0 s.threads;
    })
connect-Sound s fd r i =
    let (d, cases) = open_client-cases s.names r i.distinct in
    elim cases [
      | inl (name, _, _, _, e) ↦ rw e (record {
        null = i.null;
        never_null = omega (arith, i.never_null);
        once = λ q. omega (arith, i.once q);
        register = λ n. omega (arith, i.register n);
        distinct = rw e at d;
        watched = λ h. omega (arith, i.watched h);
      })
      | inr (nobody, same_names) ↦
          rw (same_names, admit-nobody fd (open_client s.names r).0 s.threads nobody)
            (record {
              null = i.null;
              never_null = i.never_null;
              once = i.once;
              register = i.register;
              distinct = i.distinct;
              watched = i.watched;
            })
    ]

Step-Sound : {Choice : Lobby → ℕ → Type 0} {s t : Lobby} → Sound s → Step Choice s t → Sound t
Step-Sound {s = s} i (connect fd r) = connect-Sound s fd r i
Step-Sound {s = s} i (allocate xs ys fd name q e free pos c) =
    allocate-Sound s i xs ys fd name q e free pos
Step-Sound {s = s} i (wait_first xs ys fd me e w) = wait_first-Sound s xs ys fd me i e w
Step-Sound {s = s} i (pair_up xs ys fd me e w) = pair_up-Sound s xs ys fd me i e w
Step-Sound {s = s} i (interrupted xs ys fd me e w) = interrupted-Sound s xs ys fd me i e w
Step-Sound {s = s} i (matched xs ys fd me e w) = matched-Sound s xs ys fd me i e w
Step-Sound {s = s} i (leave xs ys fd me e) = leave-Sound s xs ys fd me i e
Step-Sound {s = s} i (game_ends xs ys p1 p2 e) = game_ends-Sound s i xs ys p1 p2 e
Step-Sound {s = s} i (free_players xs ys p1 p2 e) = free_players-Sound s i xs ys p1 p2 e

-- However the threads of the server interleave, and wherever `malloc` puts a `Player`: a `Player`
-- that is allocated is in exactly one place, which is `waiting_player`, or a thread that is to
-- place or to free it, or a seat of a game; no place holds an address that is free, or NULL; a name
-- is registered once for every client of that name that is admitted, waits or plays, and never
-- twice; no thread polls for NULL; and a thread polls for the client that waits.
pub Reach-Sound : {Choice : Lobby → ℕ → Type 0} {s : Lobby} → Reach Choice s → Sound s
Reach-Sound here = start-Sound
Reach-Sound (next r st) = Step-Sound (Reach-Sound r) st
