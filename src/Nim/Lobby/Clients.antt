-- ===== src/Nim/Lobby/Clients.antt =====
-- The steps of `handle_client` of P4/clients/src/nimd.c behind `malloc` keep what holds of the lobby.
use cs214_assignments.Base.{ℕ, ◌+◌, ◌≡◌, ◌≢◌, refl, ap, List, ◌∷◌, ◌++◌, none, arith, ◌∙◌}
use cs214_assignments.Nim.Names.{remove_name, count-remove_name, remove_name_lem}
use cs214_assignments.Nim.Lobby.{Thread, arrived, polling, leaving, playing, Lobby, name_at, put}
use cs214_assignments.Nim.Lobby.Invariant.{
  sum, sum-middle, thread_holds, game_holds, waiting_holds, bears, thread_named, polls, Sound,
  clients-put,
}
use cs214_assignments.Nim.Lobby.Holders.{sum-split, holders-null, is_live-most, live-bears}

module _ (s : Lobby) (xs ys : List Thread) (fd me : ℕ) (i : Sound s) where
  pub wait_first-Sound :
      s.threads ≡ xs ++ arrived fd me ∷ ys
      → s.waiting ≡ 0
      → Sound (record s { waiting = me; threads = xs ++ polling fd me ∷ ys })
  wait_first-Sound e w = record {
    null = i.null;
    never_null =
        let z = sum-split (thread_holds 0) s.threads xs (arrived fd me) ys e in
        let a = sum-split (polls 0) s.threads xs (arrived fd me) ys e in
        let b = sum-middle (polls 0) xs (polling fd me) ys in
        ground (arith, z, a, b, holders-null s i, i.never_null);
    once = λ q.
        let a = sum-split (thread_holds q) s.threads xs (arrived fd me) ys e in
        let b = sum-middle (thread_holds q) xs (polling fd me) ys in
        let z = sum-split (thread_holds 0) s.threads xs (arrived fd me) ys e in
        ground (arith, i.once q, a, b, z, w, holders-null s i);
    register = λ n.
        let a = sum-split (thread_named s.players n) s.threads xs (arrived fd me) ys e in
        let b = sum-middle (thread_named s.players n) xs (polling fd me) ys in
        let z : bears n (s.players s.waiting) ≡ 0 =
          ap (λ (k : ℕ). bears n (s.players k)) w ∙ ap (bears n) i.null in
        omega (arith, i.register n, a, b, z);
    distinct = i.distinct;
    watched = λ h. let b = sum-middle (polls me) xs (polling fd me) ys in ground (arith, b);
  }

  pub pair_up-Sound :
      s.threads ≡ xs ++ arrived fd me ∷ ys
      → s.waiting ≢ 0
      → Sound (record s { waiting = 0; threads = xs ++ ys; games = playing s.waiting me ∷ s.games })
  pair_up-Sound e w = record {
    null = i.null;
    never_null = omega (arith, i.never_null, sum-split (polls 0) s.threads xs (arrived fd me) ys e);
    once = λ q.
        let a = sum-split (thread_holds q) s.threads xs (arrived fd me) ys e in
        ground (arith, i.once q, a, w);
    register = λ n.
        let a = sum-split (thread_named s.players n) s.threads xs (arrived fd me) ys e in
        omega (arith, i.register n, a, ap (bears n) i.null);
    distinct = i.distinct;
    watched = λ h. absurd (h refl);
  }

  pub matched-Sound :
      s.threads ≡ xs ++ polling fd me ∷ ys
      → s.waiting ≢ me
      → Sound (record s { threads = xs ++ ys })
  matched-Sound e w = record {
    null = i.null;
    never_null = omega (arith, i.never_null, sum-split (polls 0) s.threads xs (polling fd me) ys e);
    once =
        λ q. omega (arith, i.once q, sum-split (thread_holds q) s.threads xs (polling fd me) ys e);
    register = λ n. omega (
      arith,
      i.register n,
      sum-split (thread_named s.players n) s.threads xs (polling fd me) ys e,
    );
    distinct = i.distinct;
    watched = λ h.
        let a = sum-split (polls s.waiting) s.threads xs (polling fd me) ys e in
        let b = i.watched h in ground (arith, a, b, w);
  }

  pub interrupted-Sound :
      s.threads ≡ xs ++ polling fd me ∷ ys
      → s.waiting ≡ me
      → Sound (record s {
        waiting = 0;
        names = remove_name s.names (name_at s.players me);
        threads = xs ++ leaving fd me ∷ ys;
      })
  interrupted-Sound e w =
      let me_pos : me ≢ 0 =
        ground (arith, i.never_null, sum-split (polls 0) s.threads xs (polling fd me) ys e) in
      record {
        null = i.null;
        never_null =
            let b = sum-middle (polls 0) xs (leaving fd me) ys in
            omega (arith, i.never_null, sum-split (polls 0) s.threads xs (polling fd me) ys e, b);
        once = λ q.
            let a = sum-split (thread_holds q) s.threads xs (polling fd me) ys e in
            let b = sum-middle (thread_holds q) xs (leaving fd me) ys in
            ground (arith, i.once q, a, b, w, me_pos);
        register = λ n.
            let a = sum-split (thread_named s.players n) s.threads xs (polling fd me) ys e in
            let b = sum-middle (thread_named s.players n) xs (leaving fd me) ys in
            let c = count-remove_name s.names (name_at s.players me) n in
            let o = i.once me in
            let l = live-bears s.players me n (ground (arith, o, w, me_pos)) in
            let k : bears n (s.players s.waiting) ≡ bears n (s.players me) =
              ap (λ (k : ℕ). bears n (s.players k)) w in
            omega (arith, i.register n, a, b, c, l, k, ap (bears n) i.null);
        distinct = (remove_name_lem s.names (name_at s.players me) i.distinct).0;
        watched = λ h. absurd (h refl);
      }

  pub leave-Sound :
      s.threads ≡ xs ++ leaving fd me ∷ ys
      → Sound
          (record s { players = put s.players me none; threads = xs ++ ys; closed = fd ∷ s.closed })
  leave-Sound e =
      let me_pos : me ≢ 0 =
        ground
          (arith, holders-null s i, sum-split (thread_holds 0) s.threads xs (leaving fd me) ys e) in
      let gone : waiting_holds me s.waiting
            + sum (thread_holds me) (xs ++ ys)
            + sum (game_holds me) s.games
          ≡ 0 =
        ground (
          arith,
          i.once me,
          sum-split (thread_holds me) s.threads xs (leaving fd me) ys e,
          is_live-most (s.players me),
        ) in
      record {
        null = ground (arith, i.null, me_pos);
        never_null =
            omega (arith, i.never_null, sum-split (polls 0) s.threads xs (leaving fd me) ys e);
        once = λ q.
            let a = sum-split (thread_holds q) s.threads xs (leaving fd me) ys e in
            ground (arith, i.once q, a, gone);
        register = λ n.
            let a = sum-split (thread_named s.players n) s.threads xs (leaving fd me) ys e in
            let c =
              clients-put s.players me none n s.waiting (xs ++ ys) s.games i.null me_pos gone in
            omega (arith, i.register n, a, c);
        distinct = i.distinct;
        watched = λ h.
            omega
              (arith, i.watched h, sum-split (polls s.waiting) s.threads xs (leaving fd me) ys e);
      }
