-- ===== src/Shell/Execute.antt =====
-- `execute_job` of P3/src/exec.c, the loop of P3/src/shell.c and `main` of P3/src/main.c.
pub mod Status
pub mod Ends
use cs214_assignments.Base.{
  ◌>>=◌, ℕ, zero, suc, Bool, true, false, not, List, [], ◌∷◌, ◌++◌, Option, none, some, ◌==◌,
  if◌then◌else◌,
}
use cs214_assignments.Base.Bytes.{Bytes, codes, str_eq}
use cs214_assignments.Shell.Tokens.{Token, tokenize, read_command}
use cs214_assignments.Shell.Parse.{
  Segment, Job, Parsed, job, syntax_error, overrun, Conditional, always, if_succeeded, if_failed,
  parse_job,
}
use cs214_assignments.Shell.Descriptors.{FdTable, reads, install}
use cs214_assignments.Shell.Command.{
  Os, success, failure, terminated, is_builtin, execute_builtin, command_of,
}
use cs214_assignments.Shell.Process.{Ran, run_one, run_pipeline}

module _ (os : Os) where
  open os use {State}

  -- the variables of `shell_loop`, with the state of the system and what was printed to stdout
  pub record Shell : Type 0 where
    pub system : State
    pub fds : FdTable
    pub is_interactive : Bool
    pub exit_status : ℕ
    pub should_exit : Bool
    -- the program has written past an array, and nothing is said of it from there on
    pub is_undefined : Bool
    pub printed : Bytes

  unfoldable pub run_builtin : Shell → Segment → Shell
  run_builtin s seg =
      let (code, w, out) = execute_builtin os s.system (command_of os seg.argv) seg.argv in
      elim code [
        | terminated ↦ record s {
          system = w;
          exit_status = 1;
          should_exit = true;
          printed = s.printed ++ out;
        }
        | success ↦ record s { system = w; exit_status = 0; printed = s.printed ++ out }
        | failure ↦ record s { system = w; exit_status = 1; printed = s.printed ++ out }
      ]

  abbrev pub settle : Shell → Ran os → Shell
  settle s (status, w, fds) = record s { system = w; fds = fds; exit_status = status }

  unfoldable pub run_processes : Shell → Job → Shell
  run_processes s [] = record s { exit_status = 1 }
  run_processes s (seg ∷ []) = settle s (run_one os s.system s.is_interactive s.fds seg)
  run_processes s (seg ∷ seg' ∷ segs) =
      settle s (run_pipeline os s.system s.is_interactive s.fds (seg ∷ seg' ∷ segs))

  unfoldable pub execute_job : Shell → Job → Shell
  unfolding run_builtin run_processes
  execute_job s [] = record s { exit_status = 1 }
  execute_job s (seg ∷ []) =
      if is_builtin (command_of os seg.argv) then run_builtin s seg else run_processes s (seg ∷ [])
  execute_job s (seg ∷ seg' ∷ segs) = run_processes s (seg ∷ seg' ∷ segs)

  -- `exit` as the first command ends the loop
  unfoldable pub check_exit : Shell → Job → Shell
  check_exit s [] = s
  check_exit s (seg ∷ segs) =
      if str_eq (command_of os seg.argv) (codes "exit") then record s { should_exit = true } else s

  -- whether the tests of `shell_loop` let the job run
  abbrev pub goes_on : Conditional → ℕ → Bool
  goes_on always status = true
  goes_on if_succeeded status = status == 0
  goes_on if_failed status = not (status == 0)

  -- The body of `shell_loop` behind `read_command`; where `parse_job` writes past its arrays the model
  -- of the program stops.
  unfoldable pub execute_parsed : Shell → Conditional → Parsed → Shell
  execute_parsed s cond (syntax_error e) = record s { exit_status = 1 }
  execute_parsed s cond overrun = record s { should_exit = true; is_undefined = true }
  execute_parsed s cond (job j) =
      if goes_on cond s.exit_status then check_exit (execute_job s j) j else s

  unfoldable pub execute_tokens : Shell → List Token → Shell
  execute_tokens s [] = s
  execute_tokens s (t ∷ ts) =
      let (cond, parsed) = parse_job (t ∷ ts) in execute_parsed s cond parsed

  unfoldable pub execute_line : Shell → Bytes → Shell
  execute_line s line = execute_tokens s (tokenize line)

  abbrev pub print : Shell → Bytes → Shell
  print s text = record s { printed = s.printed ++ text }

  abbrev pub prompted : Shell → Shell
  prompted s = if s.is_interactive then print s (codes "mysh> ") else s

  -- `shell_loop` with fuel: `none` where it runs out; else the shell and the input left unread
  unfoldable pub shell_loop : ℕ → Shell → Bytes → Option (Shell × Bytes)
  shell_loop zero s input = none
  shell_loop (suc fuel) s input =
      let (line, rest) = read_command input in
      let more = elim line as (λ _. Option (Shell × Bytes)) [
        | none ↦ some (prompted s, rest)
        | some l ↦ shell_loop fuel (execute_line (prompted s) l) rest
      ] in
      if s.should_exit then some (s, input) else more

  -- `main` from the test of the terminal on: the shell behind it
  unfoldable pub run_input : ℕ → State → FdTable → Bool → Bytes → Option Shell
  run_input fuel w fds is_tty input =
      let opened : Shell = record {
        system = w;
        fds = fds;
        is_interactive = is_tty;
        exit_status = 0;
        should_exit = false;
        is_undefined = false;
        printed = if is_tty then codes "Welcome to my shell!\n" else [];
      } in
      shell_loop fuel opened input >>= λ (t, rest).
      some (if is_tty then print t (codes "Exiting my shell.\n") else t)

  -- What `main` returns, and the shell behind it where it gets that far. The arguments are those behind
  -- the name of the program; a script is what `fopen` finds, and `isatty` is asked about the input.
  unfoldable pub main :
      ℕ
      → State
      → FdTable
      → (Bytes → Option Bytes)
      → (Option Bytes → Bool)
      → Bytes
      → List Bytes
      → Option (ℕ × Option Shell)
  main fuel w fds fopen isatty stdin [] =
      run_input fuel w fds (isatty none) stdin >>= λ t. some (0, some t)
  main fuel w fds fopen isatty stdin (name ∷ []) = elim (fopen name) [
    | none ↦ some (1, none)
    | some script ↦ run_input fuel w (install fds (reads name)) (isatty (some name)) script >>= λ t.
        some (0, some t)
  ]
  main fuel w fds fopen isatty stdin (name ∷ more ∷ rest) = some (1, none)
