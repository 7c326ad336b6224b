-- ===== src/Nim/Lobby/Ends.antt =====
-- The steps that allocate and that end a game of P4/clients/src/nimd.c keep what holds of the lobby.
use cs214_assignments.Base.{ℕ, ◌+◌, ◌≡◌, ◌≢◌, ap, List, ◌∷◌, ◌++◌, Option, none, some, arith, ◌∙◌}
use cs214_assignments.Base.Bytes.{Bytes}
use cs214_assignments.Nim.Names.{remove_name, same, count-remove_name, remove_name_lem}
use cs214_assignments.Nim.Lobby.{
  Player, Thread, admitted, arrived, GameThread, playing, over, Lobby, name_at, put,
}
use cs214_assignments.Nim.Lobby.Invariant.{
  sum, sum-middle, thread_holds, game_holds, waiting_holds, holders, is_live, bears, thread_named,
  game_named, polls, Sound, clients-put,
}
use cs214_assignments.Nim.Lobby.Holders.{sum-split, holders-null, is_live-most, live-bears}

module _ (s : Lobby) (i : Sound s) where
  pub allocate-Sound :
      (xs ys : List Thread) (fd : ℕ) (name : Bytes) (q : ℕ)
      → s.threads ≡ xs ++ admitted fd name ∷ ys
      → s.players q ≡ none
      → q ≢ 0
      → Sound (record s {
        players = put s.players q (some (record { fd = fd; name = name }));
        threads = xs ++ arrived fd q ∷ ys;
      })
  allocate-Sound xs ys fd name q e free pos =
      let nobody : holders q s ≡ 0 = i.once q ∙ ap is_live free in
      let a = sum-split (thread_holds q) s.threads xs (admitted fd name) ys e in
      let new : Option Player = some (record { fd = fd; name = name }) in
      record {
        null = ground (arith, i.null, pos);
        never_null =
            let b = sum-middle (polls 0) xs (arrived fd q) ys in
            omega
              (arith, i.never_null, sum-split (polls 0) s.threads xs (admitted fd name) ys e, b);
        once = λ k.
            let a = sum-split (thread_holds k) s.threads xs (admitted fd name) ys e in
            let b = sum-middle (thread_holds k) xs (arrived fd q) ys in
            ground (arith, i.once k, a, b, nobody, free);
        register = λ n.
            let b = sum-split (thread_named s.players n) s.threads xs (admitted fd name) ys e in
            let c = sum-middle (thread_named (put s.players q new) n) xs (arrived fd q) ys in
            let d =
              clients-put s.players q new n s.waiting (xs ++ ys) s.games i.null pos
                (omega (arith, nobody, a)) in
            let k : bears n (put s.players q new q) ≡ same name n = ground arith in
            omega (arith, i.register n, b, c, d, k);
        distinct = i.distinct;
        watched = λ h.
            let b = sum-middle (polls s.waiting) xs (arrived fd q) ys in
            omega (
              arith,
              i.watched h,
              sum-split (polls s.waiting) s.threads xs (admitted fd name) ys e,
              b,
            );
      }

  module _ (xs ys : List GameThread) (p1 p2 : ℕ) where
    pub game_ends-Sound :
        s.games ≡ xs ++ playing p1 p2 ∷ ys
        → Sound (record s {
          names = remove_name (remove_name s.names (name_at s.players p1)) (name_at s.players p2);
          games = xs ++ over p1 p2 ∷ ys;
        })
    game_ends-Sound e = record {
      null = i.null;
      never_null = i.never_null;
      once = λ q. omega (
        arith,
        i.once q,
        sum-split (game_holds q) s.games xs (playing p1 p2) ys e,
        sum-middle (game_holds q) xs (over p1 p2) ys,
      );
      register = λ n.
          let n1 = name_at s.players p1 in
          let n2 = name_at s.players p2 in
          let a = sum-split (game_named s.players n) s.games xs (playing p1 p2) ys e in
          let b = sum-middle (game_named s.players n) xs (over p1 p2) ys in
          let c = count-remove_name s.names n1 n in
          let d = count-remove_name (remove_name s.names n1) n2 n in
          let h1 = sum-split (game_holds p1) s.games xs (playing p1 p2) ys e in
          let h2 = sum-split (game_holds p2) s.games xs (playing p1 p2) ys e in
          let l1 = live-bears s.players p1 n (ground (arith, i.once p1, h1)) in
          let l2 = live-bears s.players p2 n (ground (arith, i.once p2, h2)) in
          omega (arith, i.register n, a, b, c, d, l1, l2);
      distinct =
          (remove_name_lem (remove_name s.names (name_at s.players p1)) (name_at s.players p2)
            (remove_name_lem s.names (name_at s.players p1) i.distinct).0).0;
      watched = i.watched;
    }

    over_free :
        s.games ≡ xs ++ over p1 p2 ∷ ys
        → (p1 ≢ 0)
          × (p2 ≢ 0)
          × (waiting_holds p1 s.waiting
                + sum (thread_holds p1) s.threads
                + sum (game_holds p1) (xs ++ ys)
              ≡ 0)
          × (waiting_holds p2 s.waiting
                + sum (thread_holds p2) s.threads
                + sum (game_holds p2) (xs ++ ys)
              ≡ 0)
    over_free e =
        let z = sum-split (game_holds 0) s.games xs (over p1 p2) ys e in
        let h1 = sum-split (game_holds p1) s.games xs (over p1 p2) ys e in
        let h2 = sum-split (game_holds p2) s.games xs (over p1 p2) ys e in
        let l1 = is_live-most (s.players p1) in
        let l2 = is_live-most (s.players p2) in
        let n = holders-null s i in
        (
          ground (arith, z, n),
          ground (arith, z, n),
          ground (arith, h1, l1, i.once p1),
          ground (arith, h2, l2, i.once p2),
        )

    pub free_players-Sound :
        s.games ≡ xs ++ over p1 p2 ∷ ys
        → Sound (record s { players = put (put s.players p1 none) p2 none; games = xs ++ ys })
    free_players-Sound e =
        let (pos1, pos2, free1, free2) = over_free e in
        let null1 : put s.players p1 none 0 ≡ none = ground (arith, i.null, pos1) in
        record {
          null = ground (arith, null1, pos2);
          never_null = i.never_null;
          once = λ q.
              let a = sum-split (game_holds q) s.games xs (over p1 p2) ys e in
              ground (arith, i.once q, a, free1, free2);
          register = λ n.
              let a = sum-split (game_named s.players n) s.games xs (over p1 p2) ys e in
              let b =
                clients-put s.players p1 none n s.waiting s.threads (xs ++ ys) i.null pos1 free1 in
              let c =
                clients-put (put s.players p1 none) p2 none n s.waiting s.threads (xs ++ ys) null1
                  pos2 free2 in
              omega (arith, i.register n, a, b, c);
          distinct = i.distinct;
          watched = i.watched;
        }
