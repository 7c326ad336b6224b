-- ===== src/Shell/Process.antt =====
-- The processes of a job: the part of `execute_job` of P3/src/exec.c that makes pipes, forks and
-- waits.
pub mod Pipes
pub mod Wiring
pub mod Outcome
use cs214_assignments.Base.{
  ℕ, zero, suc, ◌+◌, ◌-◌, ◌/◌, ◌%◌, Bool, true, false, not, ◌&&◌, List, [], ◌∷◌, Option, none, some,
  ltb, ◌==◌, if◌then◌else◌, length, get_or, ◌>>=◌,
}
use cs214_assignments.Base.Bytes.{Bytes, codes}
use cs214_assignments.Shell.Parse.{Segment, Job}
use cs214_assignments.Shell.Descriptors.{
  Opened, null_device, reads, writes, read_end, write_end, FdTable, Child, gives_up, built_in,
  executes, lowest, install, dup2, redirect, close_all,
}
use cs214_assignments.Shell.Command.{
  Os, Code, success, failure, terminated, is_builtin, find_program, execute_builtin, command_of,
}

module _ (os : Os) where
  open os use {State, can_pipe, can_fork, can_open, can_create, can_exec, waitpid, junk, behind}

  -- The loop that makes the pipes from number `i` on: whether it goes to the end, the pipes, the table.
  unfoldable pub make_pipes : State → ℕ → ℕ → FdTable → Bool × List (ℕ × ℕ) × FdTable
  make_pipes w i zero fds = (true, [], fds)
  make_pipes w i (suc n) fds =
      let with_read = install fds (read_end i) in
      let (ok, pipes, made) = make_pipes w (suc i) n (install with_read (write_end i)) in
      if can_pipe w i then (ok, (lowest fds, lowest with_read) ∷ pipes, made) else (false, [], fds)

  -- What a child does about its standard input and output behind the pipes; `none` where it exits.
  unfoldable pub from_null : State → Bool → Bool → Segment → FdTable → Option FdTable
  from_null w first is_interactive seg fds = elim seg.input_file [
    | some name ↦ some fds
    | none ↦
        if first && not is_interactive
        then if can_open w (codes "/dev/null") then some (redirect fds 0 null_device) else none
        else some fds
  ]

  unfoldable pub from_file : State → Bool → Segment → FdTable → Option FdTable
  from_file w first seg fds = elim seg.input_file [
    | none ↦ some fds
    | some name ↦
        if first
        then if can_open w name then some (redirect fds 0 (reads name)) else none
        else some fds
  ]

  unfoldable pub to_file : State → Bool → Segment → FdTable → Option FdTable
  to_file w last seg fds = elim seg.output_file [
    | none ↦ some fds
    | some name ↦
        if last
        then if can_create w name then some (redirect fds 1 (writes name)) else none
        else some fds
  ]

  abbrev pub redirected : State → Bool → Bool → Bool → Segment → FdTable → Option FdTable
  redirected w first last is_interactive seg fds =
      from_null w first is_interactive seg fds >>= λ fds1.
      from_file w first seg fds1 >>= λ fds2. to_file w last seg fds2

  -- the end of a child: the program takes its place, or it is not found, or `execv` fails
  unfoldable pub exec_program : State → Segment → FdTable → Child
  exec_program w seg fds = elim (find_program os w (command_of os seg.argv)) [
    | none ↦ gives_up
    | some path ↦ if can_exec w path then executes path seg.argv fds else gives_up
  ]

  -- the child of a job of one segment
  unfoldable pub only_child : State → Bool → Segment → FdTable → Child
  only_child w is_interactive seg fds = elim (redirected w true true is_interactive seg fds) [
    | none ↦ gives_up
    | some fds' ↦ exec_program w seg fds'
  ]

  -- `dup2` of the ends of the pipes on either side, and all pipes closed
  unfoldable pub connect_pipes : ℕ → ℕ → List (ℕ × ℕ) → FdTable → FdTable
  connect_pipes i count pipes fds =
      let fds1 = if ltb 0 i then dup2 fds (get_or pipes (i - 1) (0, 0)).0 0 else fds in
      let fds2 = if ltb i (count - 1) then dup2 fds1 (get_or pipes i (0, 0)).1 1 else fds1 in
      close_all pipes fds2

  abbrev pub exit_of : Code → ℕ
  exit_of success = 0
  exit_of failure = 1
  exit_of terminated = 1

  -- a built-in command of a pipeline runs in its child
  unfoldable pub run_segment : State → Segment → FdTable → Child
  run_segment w seg fds =
      let done = execute_builtin os w (command_of os seg.argv) seg.argv in
      let inside = built_in (exit_of done.0) done.2 fds in
      if is_builtin (command_of os seg.argv) then inside else exec_program w seg fds

  -- child number `i` of a pipeline of `count` segments
  unfoldable pub child : State → Bool → ℕ → ℕ → List (ℕ × ℕ) → Segment → FdTable → Child
  child w is_interactive i count pipes seg fds =
      elim (redirected w (i == 0) (i == count - 1) is_interactive seg
        (connect_pipes i count pipes fds)) [ none ↦ gives_up | some fds' ↦ run_segment w seg fds' ]

  -- The loop that forks, from segment `i` on: whether it goes to the end, and the children.
  unfoldable pub fork_all : State → Bool → ℕ → ℕ → List (ℕ × ℕ) → FdTable → Job → Bool × List Child
  fork_all w is_interactive i count pipes fds [] = (true, [])
  fork_all w is_interactive i count pipes fds (seg ∷ segs) =
      let (ok, cs) = fork_all w is_interactive (suc i) count pipes fds segs in
      if can_fork w i then (ok, child w is_interactive i count pipes seg fds ∷ cs) else (false, [])

  -- `WEXITSTATUS(status)` where `WIFEXITED(status)`, else 1
  abbrev pub exit_code : ℕ → ℕ
  exit_code status = if status % 128 == 0 then status / 256 % 256 else 1

  -- the status behind `waitpid` for child `i`: where the call fails, `status` is what was there
  unfoldable pub wait_for : State → List Child → ℕ → ℕ
  wait_for w cs i = elim (waitpid w cs i) [ none ↦ junk w | some status ↦ status ]

  -- the exit status of the job, the system behind it, and the shell's descriptors
  abbrev pub Ran : Type 0
  Ran = ℕ × State × FdTable

  unfoldable pub run_one : State → Bool → FdTable → Segment → Ran
  run_one w is_interactive fds seg =
      let cs = only_child w is_interactive seg fds ∷ [] in
      if can_fork w 0 then (exit_code (wait_for w cs 0), behind w cs, fds) else (1, w, fds)

  unfoldable pub run_pipeline : State → Bool → FdTable → Job → Ran
  run_pipeline w is_interactive fds j =
      let count = length j in
      let (piped, pipes, fds') = make_pipes w 0 (count - 1) fds in
      let (forked, cs) = fork_all w is_interactive 0 count pipes fds' j in
      if not piped
      then (1, w, fds')
      else if not forked
      then (1, behind w cs, fds')
      else (exit_code (wait_for w cs (count - 1)), behind w cs, close_all pipes fds')
