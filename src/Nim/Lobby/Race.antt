-- ===== src/Nim/Lobby/Race.antt =====
-- What the threads of P4/clients/src/nimd.c can do where `malloc` may give out again the address of a
-- freed `Player` that a thread still compares with `waiting_player`.
use cs214_assignments.Base.{
  ℕ, ◌≤◌, ◌≡◌, ◌≢◌, refl, sym, ap, ap₂, false, List, [], ◌∷◌, Option, none, some, arith, ◌∙◌, subst,
  length,
}
use cs214_assignments.Base.Bytes.{Bytes, codes, str_eq_iff}
use cs214_assignments.Nim.Frame.{message, name_limit}
use cs214_assignments.Nim.Names.{
  Answer, open_client-free, is_registered, remove_name, remove_name-both, remove_name-only,
}
use cs214_assignments.Nim.Lobby.{
  Player, admitted, polling, leaving, over, Lobby, start, name_at, put, admit, Step, connect,
  allocate, wait_first, pair_up, interrupted, matched, leave, game_ends, free_players, Reach, here,
  next,
}

-- every address that is not in use
abbrev pub Any : Lobby → ℕ → Type 0
Any s q = Unit

abbrev client : ℕ → Bytes → Player
client fd name = record { fd = fd; name = name }

connects :
    (s : Lobby) (fd : ℕ) (name : Bytes)
    → length name ≤ name_limit
    → is_registered s.names name ≡ false
    → Reach Any s
    → Reach Any (record s { names = name ∷ s.names; threads = admitted fd name ∷ s.threads })
connects s fd name short free r =
    subst
      (λ (o : Answer × List Bytes).
        Reach Any (record s { names = o.1; threads = admit fd o.0 s.threads }))
      (open_client-free s.names name short free) (next r (connect fd (message (codes "OPEN") name)))

put-fd :
    (players : ℕ → Option Player) (q : ℕ) (x y : Player)
    → put players q (some x) q ≡ some y
    → x.fd ≡ y.fd
put-fd players q x y e =
    let at : put players q (some x) q ≡ some x = ground arith in
    ap (λ (o : Option Player). elim o as (λ _. ℕ) [ none ↦ x.fd | some p ↦ p.fd ]) (sym at ∙ e)

module _ (players : ℕ → Option Player) (q : ℕ) (x : Player) where
  name_at-put : name_at (put players q (some x)) q ≡ x.name
  name_at-put =
      let e : put players q (some x) q ≡ some x = ground arith in
      ap (λ (o : Option Player). elim o as (λ _. Bytes) [ none ↦ [] | some p ↦ p.name ]) e

  name_at-put-other :
      (k : ℕ) (o : Option Player) → k ≢ q → name_at (put (put players q (some x)) k o) q ≡ x.name
  name_at-put-other k o ne =
      let e : put (put players q (some x)) k o q ≡ some x = ground (arith, ne) in
      ap (λ (o : Option Player). elim o as (λ _. Bytes) [ none ↦ [] | some p ↦ p.name ]) e

-- Clients `a` and `b` play and leave while the thread of `a` sleeps in `poll`; the objects at `q`, `p`.
module _ (a b c : Bytes) (fd1 fd2 fd3 : ℕ) (q p : ℕ) where
  abbrev first_two : ℕ → Option Player
  first_two = put (put (λ k. none) q (some (client fd1 a))) p (some (client fd2 b))

  abbrev freed : ℕ → Option Player
  freed = put (put first_two q none) p none

  -- the game of the first two is over, and nobody has noticed but its own thread
  abbrev after_game : Lobby
  after_game = record {
    names = [];
    players = freed;
    waiting = 0;
    threads = polling fd1 q ∷ [];
    games = [];
    closed = [];
  }

  -- `c` waits at the address that `a` had
  abbrev pub reused : Lobby
  reused = record {
    names = c ∷ [];
    players = put freed q (some (client fd3 c));
    waiting = q;
    threads = polling fd3 q ∷ polling fd1 q ∷ [];
    games = [];
    closed = [];
  }

  after_game-Reach :
      length a ≤ name_limit
      → length b ≤ name_limit
      → a ≢ b
      → q ≢ 0
      → p ≢ 0
      → q ≢ p
      → Reach Any after_game
  unfolding is_registered
  after_game-Reach la lb ne qpos ppos apart =
      let one = connects start fd1 a la refl here in
      let two = next one (allocate [] [] fd1 a q refl refl qpos tt) in
      let three = next two (wait_first [] [] fd1 q refl refl) in
      let four = connects _ fd2 b lb (ground (arith, str_eq_iff a b, ne)) three in
      let five =
        next four (allocate [] (polling fd1 q ∷ []) fd2 b p refl (ground (arith, apart)) ppos tt) in
      let six = next five (pair_up [] (polling fd1 q ∷ []) fd2 p refl qpos) in
      let seven = next six (game_ends [] [] q p refl) in
      let gone =
        ap₂ (λ (m n : Bytes). remove_name (remove_name (b ∷ a ∷ []) m) n)
          (name_at-put-other (λ k. none) q (client fd1 a) p (some (client fd2 b))
            (λ e. apart (sym e)))
          (name_at-put (put (λ k. none) q (some (client fd1 a))) p (client fd2 b))
        ∙ remove_name-both a b ne in
      let eight =
        subst
          (λ (ns : List Bytes). Reach Any (record {
            names = ns;
            players = first_two;
            waiting = 0;
            threads = polling fd1 q ∷ [];
            games = over q p ∷ [];
            closed = [];
          }))
          gone seven in
      next eight (free_players [] [] q p refl)

  reused-Reach : length c ≤ name_limit → q ≢ 0 → q ≢ p → Reach Any after_game → Reach Any reused
  unfolding is_registered
  reused-Reach lc qpos apart r =
      next
        (next (connects after_game fd3 c lc refl r)
          (allocate [] (polling fd1 q ∷ []) fd3 c q refl (ground (arith, apart)) qpos tt))
        (wait_first [] (polling fd1 q ∷ []) fd3 q refl refl)

  -- the thread of `a` has taken `c` for its own client: nobody waits, and the name of `c` is gone
  abbrev pub taken_over : Lobby
  taken_over = record {
    names = [];
    players = put freed q (some (client fd3 c));
    waiting = 0;
    threads = polling fd3 q ∷ leaving fd1 q ∷ [];
    games = [];
    closed = [];
  }

  -- it has freed the `Player` of `c`, and closed its own socket
  abbrev pub freed_other : Lobby
  freed_other = record {
    names = [];
    players = put (put freed q (some (client fd3 c))) q none;
    waiting = 0;
    threads = polling fd3 q ∷ [];
    games = [];
    closed = fd1 ∷ [];
  }

  -- the thread of `c` has returned as if its client played
  abbrev pub abandoned : Lobby
  abandoned = record (freed_other) { threads = [] }

  takes_over : Step Any reused taken_over
  takes_over =
      let gone =
        ap (remove_name (c ∷ [])) (name_at-put freed q (client fd3 c)) ∙ remove_name-only c in
      subst
        (λ (ns : List Bytes). Step Any reused (record {
          names = ns;
          players = put freed q (some (client fd3 c));
          waiting = 0;
          threads = polling fd3 q ∷ leaving fd1 q ∷ [];
          games = [];
          closed = [];
        }))
        gone (interrupted (polling fd3 q ∷ []) [] fd1 q refl refl)

-- Where `malloc` may give out the address of a freed `Player` while a thread still compares it with
-- `waiting_player`: for any two clients of different names and a third on another socket than the
-- first, names of at most 72 bytes, and any two addresses, the server reaches a state in which the
-- third waits at an address `q` with its own `Player`, while the thread of the first still polls
-- for `q`. From there the thread of the first can take the third for its own client, free its
-- `Player` and remove its name; then the thread of the third returns, and no thread, game, name or
-- `Player` of it is left, while the one socket that was closed is that of the first.
pub waiting_taken_over :
    (a b c : Bytes) (fd1 fd2 fd3 q p : ℕ)
    → length a ≤ name_limit
    → length b ≤ name_limit
    → length c ≤ name_limit
    → a ≢ b
    → fd1 ≢ fd3
    → q ≢ 0
    → p ≢ 0
    → q ≢ p
    → let s = reused a b c fd1 fd2 fd3 q p in
      let t = abandoned a b c fd1 fd2 fd3 q p in
      (Reach Any s
        × (s.waiting ≡ q)
        × (s.players q ≡ some (record { fd = fd3; name = c }))
        × (s.threads ≡ polling fd3 q ∷ polling fd1 q ∷ [])
        × ((x : Player) → s.players q ≡ some x → x.fd ≢ fd1))
      × (Step Any s (taken_over a b c fd1 fd2 fd3 q p)
          × Step Any (taken_over a b c fd1 fd2 fd3 q p) (freed_other a b c fd1 fd2 fd3 q p)
          × Step Any (freed_other a b c fd1 fd2 fd3 q p) t)
      × ((t.players q ≡ none)
          × (t.names ≡ [])
          × (t.threads ≡ [])
          × (t.games ≡ [])
          × (t.closed ≡ fd1 ∷ []))
waiting_taken_over a b c fd1 fd2 fd3 q p la lb lc ne other qpos ppos apart = (
  (
    reused-Reach a b c fd1 fd2 fd3 q p lc qpos apart
        (after_game-Reach a b c fd1 fd2 fd3 q p la lb ne qpos ppos apart),
    refl,
    ground arith,
    refl,
    λ x e is. other (sym is ∙ sym (put-fd (freed a b c fd1 fd2 fd3 q p) q (client fd3 c) x e)),
  ),
  (
    takes_over a b c fd1 fd2 fd3 q p,
    leave (polling fd3 q ∷ []) [] fd1 q refl,
    matched [] [] fd3 q refl (λ e. qpos (sym e)),
  ),
  (ground arith, refl, refl, refl, refl),
)
