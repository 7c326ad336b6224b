-- ===== src/Nim/Lobby.antt =====
-- The threads of P4/clients/src/nimd.c that admit clients and pair them (`handle_client`), and the
-- ends of the games (`game_thread`), interleaved in any order. What a thread does while it holds the
-- lock, and what it does between two calls that others can see, is one step. A `Player` goes by its
-- address, which `malloc` may give out again once it is freed.
pub mod Invariant
pub mod Holders
pub mod Clients
pub mod Ends
pub mod Steps
pub mod Owner
pub mod Race
use cs214_assignments.Base.{
  ℕ, ◌≡◌, ◌≢◌, Bool, true, false, List, [], ◌∷◌, ◌++◌, Option, none, some, ◌==◌, if◌then◌else◌,
}
use cs214_assignments.Base.Bytes.{Bytes}
use cs214_assignments.Nim.Frame.{Received}
use cs214_assignments.Nim.Names.{remove_name, Answer, hang_up, refused, wait, open_client}

pub record Player : Type 0 where
  pub fd : ℕ
  pub name : Bytes

-- Where a `handle_client` thread stands: behind the answer `WAIT`; with its `Player`; in the loop
-- that polls the socket; behind the loop, where it is to close the socket and to free the `Player`.
pub data Thread : Type 0 where
  admitted : ℕ → Bytes → Thread
  arrived : ℕ → ℕ → Thread
  polling : ℕ → ℕ → Thread
  leaving : ℕ → ℕ → Thread

-- A `game_thread`: until its names are removed, and then until its players are freed.
pub data GameThread : Type 0 where
  playing : ℕ → ℕ → GameThread
  over : ℕ → ℕ → GameThread

-- The objects at their addresses; `waiting` is `waiting_player`, 0 for NULL; and the sockets that
-- `handle_client` closed behind its loop.
pub record Lobby : Type 0 where
  pub names : List Bytes
  pub players : ℕ → Option Player
  pub waiting : ℕ
  pub threads : List Thread
  pub games : List GameThread
  pub closed : List ℕ

abbrev pub start : Lobby
start = record {
  names = [];
  players = λ q. none;
  waiting = 0;
  threads = [];
  games = [];
  closed = [];
}

abbrev pub name_at : (ℕ → Option Player) → ℕ → Bytes
name_at players q = elim (players q) [ none ↦ [] | some p ↦ p.name ]

abbrev pub put : (ℕ → Option Player) → ℕ → Option Player → ℕ → Option Player
put players q p k = if q == k then p else players k

-- the thread goes on where the answer to its client is `WAIT`
abbrev pub admit : ℕ → Answer → List Thread → List Thread
admit fd (wait name) ts = admitted fd name ∷ ts
admit fd hang_up ts = ts
admit fd (refused code) ts = ts

-- A step of one of the threads; `Choice s q` tells at which addresses `q` the next object may be
-- allocated.
pub data Step (Choice : Lobby → ℕ → Type 0) (s : Lobby) : Lobby → Type 0 where
  connect :
      (fd : ℕ) (r : Received)
      → Step Choice s (record s {
        names = (open_client s.names r).1;
        threads = admit fd (open_client s.names r).0 s.threads;
      })
  allocate :
      (xs ys : List Thread) (fd : ℕ) (name : Bytes) (q : ℕ)
      → s.threads ≡ xs ++ admitted fd name ∷ ys
      → s.players q ≡ none
      → q ≢ 0
      → Choice s q
      → Step Choice s (record s {
        players = put s.players q (some (record { fd = fd; name = name }));
        threads = xs ++ arrived fd q ∷ ys;
      })
  wait_first :
      (xs ys : List Thread) (fd me : ℕ)
      → s.threads ≡ xs ++ arrived fd me ∷ ys
      → s.waiting ≡ 0
      → Step Choice s (record s { waiting = me; threads = xs ++ polling fd me ∷ ys })
  pair_up :
      (xs ys : List Thread) (fd me : ℕ)
      → s.threads ≡ xs ++ arrived fd me ∷ ys
      → s.waiting ≢ 0
      → Step Choice s
          (record s { waiting = 0; threads = xs ++ ys; games = playing s.waiting me ∷ s.games })
  -- `poll` reports input, and `waiting_player == me`
  interrupted :
      (xs ys : List Thread) (fd me : ℕ)
      → s.threads ≡ xs ++ polling fd me ∷ ys
      → s.waiting ≡ me
      → Step Choice s (record s {
        waiting = 0;
        names = remove_name s.names (name_at s.players me);
        threads = xs ++ leaving fd me ∷ ys;
      })
  -- `waiting_player != me`
  matched :
      (xs ys : List Thread) (fd me : ℕ)
      → s.threads ≡ xs ++ polling fd me ∷ ys
      → s.waiting ≢ me
      → Step Choice s (record s { threads = xs ++ ys })
  -- `close(fd); free(me);`
  leave :
      (xs ys : List Thread) (fd me : ℕ)
      → s.threads ≡ xs ++ leaving fd me ∷ ys
      → Step Choice s
          (record s { players = put s.players me none; threads = xs ++ ys; closed = fd ∷ s.closed })
  -- the end of a game, under the lock, and what follows it
  game_ends :
      (xs ys : List GameThread) (p1 p2 : ℕ)
      → s.games ≡ xs ++ playing p1 p2 ∷ ys
      → Step Choice s (record s {
        names = remove_name (remove_name s.names (name_at s.players p1)) (name_at s.players p2);
        games = xs ++ over p1 p2 ∷ ys;
      })
  free_players :
      (xs ys : List GameThread) (p1 p2 : ℕ)
      → s.games ≡ xs ++ over p1 p2 ∷ ys
      → Step Choice s (record s { players = put (put s.players p1 none) p2 none; games = xs ++ ys })

pub data Reach (Choice : Lobby → ℕ → Type 0) : Lobby → Type 0 where
  here : Reach Choice start
  next : {s t : Lobby} → Reach Choice s → Step Choice s t → Reach Choice t
