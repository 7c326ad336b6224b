-- ===== src/Shell/Execute/Status.antt =====
-- The exit status of a job of P3/src/exec.c, and whether it says anything of the job.
use cs214_assignments.Base.{ℕ, ◌≡◌, refl, ap, ◌∙◌, true, false, List, [], ◌∷◌, Option, none, some}
use cs214_assignments.Shell.Parse.{Job}
use cs214_assignments.Shell.Descriptors.{Opened, Child, open_at}
use cs214_assignments.Shell.Command.{Os, is_builtin, command_of}
use cs214_assignments.Shell.Process.{Ran, exit_code, wait_for, run_one, run_pipeline}
use cs214_assignments.Shell.Process.Outcome.{DoneJob, run_one-DoneJob, run_pipeline-DoneJob}
use cs214_assignments.Shell.Execute.{Shell, settle, execute_job}

module _ (os : Os) where
  open os use {State, can_pipe, can_fork, waitpid, junk}

  -- The job is run by child processes.
  abbrev pub Forks : Job → Type 0
  Forks [] = ⊥
  Forks (seg ∷ []) = is_builtin (command_of os seg.argv) ≡ false
  Forks (seg ∷ seg' ∷ segs) = Unit

  -- A job of child processes, where its pipes and processes can be made and the shell has a
  -- standard input and output: every child has its input and output from the pipes next to it and
  -- from the redirections at the two ends, every other descriptor as in the shell and so no end of
  -- a pipe, and then runs its segment, a built-in command or a program, giving up where the program
  -- is not found or `execv` fails, or it gives up before where a file that it needs cannot be
  -- opened; the status is the exit code of the last child as `waitpid` gives it, 1 where the child
  -- did not exit, or, where `waitpid` fails, the same of a variable that was never written; and the
  -- shell is left with the descriptors that it had.
  pub execute_job-DoneJob :
      (s : Shell os) (j : Job) (f g : Opened)
      → Forks j
      → open_at s.fds 0 ≡ some f
      → open_at s.fds 1 ≡ some g
      → ((i : ℕ) → can_pipe s.system i ≡ true)
      → ((i : ℕ) → can_fork s.system i ≡ true)
      → (ran : Ran os) × DoneJob os s.system s.is_interactive s.fds j ran
        × (execute_job os s j ≡ settle os s ran)
  unfolding execute_job
  execute_job-DoneJob s [] f g forked e0 e1 pipes forks = absurd forked
  execute_job-DoneJob s (seg ∷ []) f g program e0 e1 pipes forks = (
    run_one os s.system s.is_interactive s.fds seg,
    run_one-DoneJob os f g s.system s.is_interactive s.fds e0 e1 pipes forks seg program,
    rw program refl,
  )
  execute_job-DoneJob s (seg ∷ seg' ∷ segs) f g many e0 e1 pipes forks = (
    run_pipeline os s.system s.is_interactive s.fds (seg ∷ seg' ∷ segs),
    run_pipeline-DoneJob os f g s.system s.is_interactive s.fds e0 e1 pipes forks
        (seg ∷ seg' ∷ segs),
    refl,
  )

  -- Where `waitpid` fails, as it does in a program that ignores SIGCHLD, the status of a job of
  -- child processes is that of a variable that was never written, whatever the job and its
  -- children, where its pipes and processes can be made and the shell has a standard input and
  -- output.
  pub status_is_junk :
      (s : Shell os) (j : Job) (f g : Opened)
      → Forks j
      → open_at s.fds 0 ≡ some f
      → open_at s.fds 1 ≡ some g
      → ((i : ℕ) → can_pipe s.system i ≡ true)
      → ((i : ℕ) → can_fork s.system i ≡ true)
      → ((w : State) (cs : List Child) (i : ℕ) → waitpid w cs i ≡ none)
      → (execute_job os s j).exit_status ≡ exit_code os (junk s.system)
  unfolding wait_for
  status_is_junk s j f g forked e0 e1 pipes forks ignored =
      let (ran, d, e) = execute_job-DoneJob s j f g forked e0 e1 pipes forks in
      ap (λ (t : Shell os). t.exit_status) e
      ∙ d.status_is
      ∙ ap (λ (o : Option ℕ). exit_code os (elim o [ none ↦ junk s.system | some status ↦ status ]))
          (ignored s.system d.children _)
