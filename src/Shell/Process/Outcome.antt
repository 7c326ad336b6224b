-- ===== src/Shell/Process/Outcome.antt =====
-- What becomes of a job of P3/src/exec.c: its children, its status and the shell's descriptors.
use cs214_assignments.Base.{
  ℕ, zero, suc, ◌+◌, ◌-◌, ◌<◌, ◌≤◌, ◌≡◌, ◌⊎◌, refl, sym, ap, subst, ◌∙◌, Bool, true, false, ◌&&◌,
  List, [], ◌∷◌, Option, none, some, ltb, ◌==◌, if◌then◌else◌, arith, length, Bool-cases,
  Option-cases, ◌≢◌, ◌%◌, ◌/◌, inl, inr,
}
use cs214_assignments.Shell.Parse.{Segment, Job}
use cs214_assignments.Shell.Descriptors.{Opened, write_end, FdTable, Child, gives_up, open_at}
use cs214_assignments.Shell.Command.{Os, is_builtin, command_of}
use cs214_assignments.Shell.Process.{
  redirected, connect_pipes, run_segment, child, fork_all, make_pipes, run_pipeline, exec_program,
  run_one, only_child, Ran, wait_for, exit_code,
}
use cs214_assignments.Shell.Process.Pipes.{Piped, make_pipes-Piped, all_pipes, close_all-Piped}
use cs214_assignments.Shell.Process.Wiring.{
  source, target, before, after, Redirected, opens_input, opens_output, redirected_lem, in_table,
  out_table, tables-Redirected, connect_lem,
}

module _ (os : Os) where
  open os use {State, can_pipe, can_fork, behind, junk}

  -- Child `i` of `count` runs its segment with its input and output where they belong, and else with the
  -- shell's own descriptors; or a file that it needs cannot be opened, and it exits.
  abbrev pub Outcome : State → Bool → FdTable → ℕ → ℕ → Segment → Child → Type 0
  Outcome w is_interactive fds count i seg c =
      ((opens_input os w (i == 0) is_interactive seg && opens_output os w (i == count - 1) seg
          ≡ true)
        × (t : FdTable) × Redirected fds
            (source (i == 0) is_interactive seg.input_file (before i (open_at fds 0)))
            (target (i == count - 1) seg.output_file (after i count (open_at fds 1))) t
        × (c ≡ run_segment os w seg t))
      ⊎ ((opens_input os w (i == 0) is_interactive seg && opens_output os w (i == count - 1) seg
            ≡ false)
          × (c ≡ gives_up))

  abbrev pub Outcomes : State → Bool → FdTable → ℕ → ℕ → Job → List Child → Type 0
  Outcomes w is_interactive fds count i [] [] = Unit
  Outcomes w is_interactive fds count i (seg ∷ segs) (c ∷ cs) =
      Outcome w is_interactive fds count i seg c
      × Outcomes w is_interactive fds count (suc i) segs cs
  Outcomes w is_interactive fds count i _ _ = ⊥

  -- the end of `child`, behind its redirections
  abbrev then_run : State → Segment → Option FdTable → Child
  then_run w seg none = gives_up
  then_run w seg (some t) = run_segment os w seg t

  runs_program :
      (w : State) (seg : Segment)
      → is_builtin (command_of os seg.argv) ≡ false
      → (o : Option FdTable)
      → elim o as (λ _. Child) [ none ↦ gives_up | some t ↦ exec_program os w seg t ]
        ≡ then_run w seg o
  unfolding run_segment
  runs_program w seg program none = refl
  runs_program w seg program (some t) = rw program refl

  before-open : (i : ℕ) (f : Opened) → (h : Opened) × (before i (some f) ≡ some h)
  before-open zero f = (f, refl)
  before-open (suc i) f = (_, refl)

  after-open : (i count : ℕ) (f : Opened) → (h : Opened) × (after i count (some f) ≡ some h)
  after-open i count f = elim (Bool-cases (ltb i (count - 1))) [
    | inl e ↦ (write_end i, rw e refl)
    | inr e ↦ (f, rw e refl)
  ]

  module _ (f g : Opened) (w : State) (is_interactive : Bool) (fds : FdTable)
      (e0 : open_at fds 0 ≡ some f) (e1 : open_at fds 1 ≡ some g) where
    -- a child behind its pipes
    redirected-Outcome :
        (count i : ℕ) (seg : Segment) (begin : FdTable)
        → Redirected fds (before i (open_at fds 0)) (after i count (open_at fds 1)) begin
        → Outcome w is_interactive fds count i seg
            (then_run w seg (redirected os w (i == 0) (i == count - 1) is_interactive seg begin))
    redirected-Outcome count i seg begin c =
        let final =
          out_table (i == count - 1) seg.output_file
            (in_table (i == 0) is_interactive seg.input_file begin) in
        let r = redirected_lem os w seg begin (i == 0) (i == count - 1) is_interactive in
        elim (Bool-cases (
          opens_input os w (i == 0) is_interactive seg && opens_output os w (i == count - 1) seg)) [
            | inr fails ↦ inr (
              fails,
              ap (then_run w seg) (r ∙ ap (λ (b : Bool). if b then some final else none) fails),
            )
            | inl opens ↦
                let (h0, p0) = before-open i f in
                let (h1, p1) = after-open i count g in
                let d =
                  tables-Redirected h0 h1 begin (i == 0) (i == count - 1) is_interactive
                    seg.input_file seg.output_file (c.input_is ∙ ap (before i) e0 ∙ p0)
                    (c.output_is ∙ ap (after i count) e1 ∙ p1) in
                inl (
                  opens,
                  final,
                  record {
                    input_is =
                        d.input_is ∙ ap (source (i == 0) is_interactive seg.input_file) c.input_is;
                    output_is =
                        d.output_is ∙ ap (target (i == count - 1) seg.output_file) c.output_is;
                    others = λ k le. d.others k le ∙ c.others k le;
                  },
                  ap (then_run w seg) (r ∙ ap (λ (b : Bool). if b then some final else none) opens),
                )
          ]

    child-Outcome :
        (count i : ℕ) (ps : List (ℕ × ℕ)) (made : FdTable) (seg : Segment)
        → Piped fds 0 (count - 1) ps made
        → i < count
        → Outcome w is_interactive fds count i seg (child os w is_interactive i count ps seg made)
    unfolding child
    child-Outcome count i ps made seg m h =
        redirected-Outcome count i seg (connect_pipes os i count ps made)
          (connect_lem os f g fds count ps made m e0 e1 i h)

    only_child-Outcome :
        (seg : Segment)
        → is_builtin (command_of os seg.argv) ≡ false
        → Outcome w is_interactive fds 1 0 seg (only_child os w is_interactive seg fds)
    unfolding only_child
    only_child-Outcome seg program =
        subst (Outcome w is_interactive fds 1 0 seg)
          (sym (runs_program w seg program (redirected os w true true is_interactive seg fds)))
          (redirected-Outcome 1 0 seg fds
            (record { input_is = refl; output_is = refl; others = λ k le. refl }))

    fork_all-Outcomes :
        (count i : ℕ) (ps : List (ℕ × ℕ)) (made : FdTable) (segs : Job)
        → Piped fds 0 (count - 1) ps made
        → i + length segs ≤ count
        → (fork_all os w is_interactive i count ps made segs).0 ≡ true
        → Outcomes w is_interactive fds count i segs
            (fork_all os w is_interactive i count ps made segs).1
    unfolding fork_all
    fork_all-Outcomes count i ps made [] m h e = tt
    fork_all-Outcomes count i ps made (seg ∷ segs) m h e = elim (Bool-cases (can_fork w i)) [
      | inr fails ↦ absurd (ground (arith, fails))
      | inl forks ↦
          let rest =
            fork_all-Outcomes count (suc i) ps made segs m (omega arith)
              (rw (forks, fork_all) at e) in
          rw (forks, fork_all) (child-Outcome count i ps made seg m (omega arith), rest)
    ]

  all_forks :
      (w : State) (is_interactive : Bool) (i count : ℕ) (ps : List (ℕ × ℕ)) (made : FdTable)
      (segs : Job)
      → ((k : ℕ) → can_fork w k ≡ true)
      → (fork_all os w is_interactive i count ps made segs).0 ≡ true
  unfolding fork_all
  all_forks w is_interactive i count ps made [] h = refl
  all_forks w is_interactive i count ps made (seg ∷ segs) h =
      rw (h i, fork_all) (all_forks w is_interactive (suc i) count ps made segs h)

  -- What the status is by what `waitpid` gives for the last child: the code it exited with, or 1 where it
  -- did not exit; where the call fails, the same of a variable that nobody has written.
  abbrev pub Decoded : ℕ → ℕ → Type 0
  Decoded status code =
      ((status % 128 ≡ 0) × (code ≡ status / 256 % 256)) ⊎ ((status % 128 ≢ 0) × (code ≡ 1))

  abbrev pub StatusOf : State → Option ℕ → ℕ → Type 0
  StatusOf w none code = Decoded (junk w) code
  StatusOf w (some status) code = Decoded status code

  exit_code-Decoded : (status : ℕ) → Decoded status (exit_code os status)
  exit_code-Decoded status = elim (Bool-cases (status % 128 == 0)) [
    | inl e ↦ rw e (inl (ground arith, refl))
    | inr e ↦ rw e (inr (λ z. ground arith, refl))
  ]

  wait_for-StatusOf :
      (w : State) (cs : List Child) (i : ℕ)
      → StatusOf w (os.waitpid w cs i) (exit_code os (wait_for os w cs i))
  unfolding wait_for
  wait_for-StatusOf w cs i = elim (Option-cases (os.waitpid w cs i)) [
    | inl e ↦ rw (e, wait_for) (exit_code-Decoded (junk w))
    | inr (status, e) ↦ rw (e, wait_for) (exit_code-Decoded status)
  ]

  -- A job was run: each child did what it is to do, the status is the last child's, and the shell's
  -- descriptors are as before.
  pub record DoneJob (w : State) (is_interactive : Bool) (fds : FdTable) (j : Job) (ran : Ran os)
      : Type 0 where
    pub children : List Child
    pub outcomes : Outcomes w is_interactive fds (length j) 0 j children
    pub status_is : ran.0 ≡ exit_code os (wait_for os w children (length j - 1))
    pub waited : StatusOf w (os.waitpid w children (length j - 1)) ran.0
    pub system_is : ran.1 ≡ behind w children
    pub no_leak : (k : ℕ) → open_at ran.2 k ≡ open_at fds k

  module _ (f g : Opened) (w : State) (is_interactive : Bool) (fds : FdTable)
      (e0 : open_at fds 0 ≡ some f) (e1 : open_at fds 1 ≡ some g)
      (pipes : (i : ℕ) → can_pipe w i ≡ true) (forks : (i : ℕ) → can_fork w i ≡ true) where
    pub run_pipeline-DoneJob :
        (j : Job) → DoneJob w is_interactive fds j (run_pipeline os w is_interactive fds j)
    unfolding run_pipeline
    run_pipeline-DoneJob j =
        let count = length j in
        let ps = (make_pipes os w 0 (count - 1) fds).1 in
        let made = (make_pipes os w 0 (count - 1) fds).2 in
        let a = all_pipes os w 0 (count - 1) fds pipes in
        let m = make_pipes-Piped os w 0 (count - 1) fds a in
        let b = all_forks w is_interactive 0 count ps made j forks in
        rw (a, b, run_pipeline)
          (record {
            children = (fork_all os w is_interactive 0 count ps made j).1;
            outcomes =
                fork_all-Outcomes f g w is_interactive fds e0 e1 count 0 ps made j m (omega arith)
                  b;
            status_is = refl;
            waited = wait_for-StatusOf w _ (count - 1);
            system_is = refl;
            no_leak = λ k. close_all-Piped fds 0 (count - 1) ps made k m;
          })

    pub run_one-DoneJob :
        (seg : Segment)
        → is_builtin (command_of os seg.argv) ≡ false
        → DoneJob w is_interactive fds (seg ∷ []) (run_one os w is_interactive fds seg)
    unfolding run_one
    run_one-DoneJob seg program =
        rw (forks 0, run_one)
          (record {
            children = only_child os w is_interactive seg fds ∷ [];
            outcomes = (only_child-Outcome f g w is_interactive fds e0 e1 seg program, tt);
            status_is = refl;
            waited = wait_for-StatusOf w _ 0;
            system_is = refl;
            no_leak = λ k. refl;
          })
