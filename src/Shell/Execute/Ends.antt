-- ===== src/Shell/Execute/Ends.antt =====
-- Which jobs end the loop of P3/src/shell.c.
use cs214_assignments.Base.{
  ◌≡◌, ◌↔◌, ◌⊎◌, refl, ap, ◌∙◌, true, false, [], ◌∷◌, ◌++◌, Bool-cases, inl, inr,
}
use cs214_assignments.Base.Bytes.{Bytes, codes, str_eq, str_eq_iff}
use cs214_assignments.Shell.Parse.{Segment, Job}
use cs214_assignments.Shell.Command.{
  Os, Code, success, failure, terminated, is_builtin, execute_builtin, command_of,
}
use cs214_assignments.Shell.Command.Builtins.{execute_builtin-Restrained}
use cs214_assignments.Shell.Execute.{Shell, run_builtin, run_processes, execute_job, check_exit}

module _ (os : Os) where
  open os use {State}

  -- the job is `exit` with whatever behind it, or `die` alone and not in a pipeline
  abbrev pub Ending : Segment → Job → Type 0
  Ending seg segs =
      (command_of os seg.argv ≡ codes "exit")
      ⊎ ((command_of os seg.argv ≡ codes "die") × (segs ≡ []))

  -- what `run_builtin` makes of the result of a built-in command
  abbrev behind_code : Shell os → State → Bytes → Code → Shell os
  behind_code s w out code = elim code [
    | terminated ↦ record s {
      system = w;
      exit_status = 1;
      should_exit = true;
      printed = s.printed ++ out;
    }
    | success ↦ record s { system = w; exit_status = 0; printed = s.printed ++ out }
    | failure ↦ record s { system = w; exit_status = 1; printed = s.printed ++ out }
  ]

  behind_code-should_exit :
      (s : Shell os) (w : State) (out : Bytes) (code : Code)
      → s.should_exit ≡ false
      → (behind_code s w out code).should_exit ≡ true ↔ code ≡ terminated
  behind_code-should_exit s w out success on = (λ e. cc, λ e. cc)
  behind_code-should_exit s w out failure on = (λ e. cc, λ e. cc)
  behind_code-should_exit s w out terminated on = (λ e. refl, λ e. refl)

  run_builtin-should_exit :
      (s : Shell os) (seg : Segment)
      → s.should_exit ≡ false
      → (run_builtin os s seg).should_exit ≡ true ↔ command_of os seg.argv ≡ codes "die"
  unfolding run_builtin
  run_builtin-should_exit s seg on =
      let r = execute_builtin-Restrained os s.system (command_of os seg.argv) seg.argv in
      let done = execute_builtin os s.system (command_of os seg.argv) seg.argv in
      let b = behind_code-should_exit s done.1 done.2 done.0 on in
      (λ e. r.only_die (b.0 e), λ e. b.1 (r.die_ends e))

  die_is_builtin : (cmd : Bytes) → cmd ≡ codes "die" → is_builtin cmd ≡ true
  unfolding is_builtin str_eq
  die_is_builtin cmd e = ap is_builtin e

  run_processes-should_exit :
      (s : Shell os) (j : Job) → (run_processes os s j).should_exit ≡ s.should_exit
  unfolding run_processes
  run_processes-should_exit s [] = refl
  run_processes-should_exit s (seg ∷ []) = refl
  run_processes-should_exit s (seg ∷ seg' ∷ segs) = refl

  execute_job-should_exit :
      (s : Shell os) (seg : Segment) (segs : Job)
      → s.should_exit ≡ false
      → (execute_job os s (seg ∷ segs)).should_exit ≡ true
        ↔ ((command_of os seg.argv ≡ codes "die") × (segs ≡ []))
  unfolding execute_job
  execute_job-should_exit s seg [] on = elim (Bool-cases (is_builtin (command_of os seg.argv))) [
    | inl b ↦
        let (to, from) = run_builtin-should_exit s seg on in rw b (λ e. (to e, refl), λ e. from e.0)
    | inr b ↦
        let same = run_processes-should_exit s (seg ∷ []) ∙ on in
        rw b (
          λ e. absurd cc,
          λ e. let builtin = die_is_builtin (command_of os seg.argv) e.0 in absurd cc,
        )
  ]
  execute_job-should_exit s seg (seg' ∷ segs) on =
      let same = run_processes-should_exit s (seg ∷ seg' ∷ segs) ∙ on in
      (λ e. absurd cc, λ e. absurd cc)

  -- A job that is run sets `should_exit` exactly where its first command is `exit`, in a pipeline
  -- too, or where it is the one command `die`, whatever the arguments.
  pub job_ends_shell :
      (s : Shell os) (seg : Segment) (segs : Job)
      → s.should_exit ≡ false
      → (check_exit os (execute_job os s (seg ∷ segs)) (seg ∷ segs)).should_exit ≡ true
        ↔ Ending seg segs
  unfolding check_exit
  job_ends_shell s seg segs on =
      let (to, from) = execute_job-should_exit s seg segs on in
      let named = str_eq_iff (command_of os seg.argv) (codes "exit") in
      elim (Bool-cases (str_eq (command_of os seg.argv) (codes "exit"))) [
        | inl b ↦ rw b (λ e. inl (named.0 b), λ e. refl)
        | inr b ↦ rw b (
          λ e. inr (to e),
          λ e. elim e [ inl exit ↦ (let k = named.1 exit in absurd cc) | inr die ↦ from die ],
        )
      ]
