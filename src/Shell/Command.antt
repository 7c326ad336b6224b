-- ===== src/Shell/Command.antt =====
-- The built-in commands and the search for programs of P3/src/exec.c. What the operating system does
-- is a parameter.
pub mod Loop
pub mod Builtins
use cs214_assignments.Base.{
  ℕ, zero, suc, ◌+◌, ◌-◌, Bool, true, false, not, ◌&&◌, ◌||◌, List, [], ◌∷◌, ◌++◌, Option, none,
  some, ltb, ◌==◌, if◌then◌else◌, length,
}
use cs214_assignments.Base.Bytes.{Bytes, codes, str_eq}
use cs214_assignments.Shell.Descriptors.{Child}
use cs214_assignments.Shell.Tokens.{Token, tokenize, read_command}
use cs214_assignments.Shell.Parse.{
  Segment, Job, Parsed, job, syntax_error, Conditional, always, if_succeeded, if_failed, parse_job,
}

-- The calls of the operating system, over its state.
pub record Os : Type 1 where
  pub State : Type 0
  -- whether `chdir` succeeds, and the state behind it
  pub chdir : State → Bytes → Option State
  pub getcwd : State → Option Bytes
  -- `access(path, X_OK) == 0`
  pub can_run : State → Bytes → Bool
  -- whether `execv` succeeds: the program takes the place of the child
  pub can_exec : State → Bytes → Bool
  -- whether `open` succeeds, for reading, and for writing to a file that is made or emptied
  pub can_open : State → Bytes → Bool
  pub can_create : State → Bytes → Bool
  -- whether the call of `pipe` for pipe `i` of a job succeeds, and the call of `fork` for child `i`
  pub can_pipe : State → ℕ → Bool
  pub can_fork : State → ℕ → Bool
  -- the status that `waitpid` gives for child `i`, `none` where it fails; a child that never ends is
  -- left out
  pub waitpid : State → List Child → ℕ → Option ℕ
  -- what an `int` that nobody has written holds
  pub junk : State → ℕ
  -- the system once the children have run
  pub behind : State → List Child → State

unfoldable pub is_builtin : Bytes → Bool
is_builtin cmd =
    str_eq cmd (codes "cd")
    || str_eq cmd (codes "pwd")
    || str_eq cmd (codes "which")
    || str_eq cmd (codes "exit")
    || str_eq cmd (codes "die")

unfoldable pub has_slash : Bytes → Bool
has_slash [] = false
has_slash (c ∷ cs) = c == b'/' || has_slash cs

abbrev pub search_paths : List Bytes
search_paths = codes "/usr/local/bin" ∷ codes "/usr/bin" ∷ codes "/bin" ∷ []

-- the arguments of `die`, with a space between two
unfoldable pub die_text : List Bytes → Bytes
die_text [] = []
die_text (a ∷ []) = a
die_text (a ∷ b ∷ as') = a ++ (b' ' ∷ die_text (b ∷ as'))

-- What a built-in command returns, leaves behind and prints to stdout; -1 is `terminated`.
pub data Code : Type 0 where
  success failure terminated : Code

module _ (os : Os) where
  open os use {State, chdir, getcwd, can_run}

  -- the loop of `find_program` over the paths
  unfoldable pub search_in : State → Bytes → List Bytes → Option Bytes
  search_in w name [] = none
  search_in w name (p ∷ ps) =
      let rest = search_in w name ps in
      let full_path = p ++ (b'/' ∷ name) in if can_run w full_path then some full_path else rest

  unfoldable pub find_program : State → Bytes → Option Bytes
  unfolding search_in has_slash
  find_program w name =
      if has_slash name
      then if can_run w name then some name else none
      else search_in w name search_paths

  abbrev pub Done : Type 0
  Done = Code × State × Bytes

  unfoldable pub change_dir : State → List Bytes → Done
  change_dir w (cmd ∷ dir ∷ []) = elim (chdir w dir) [
    | none ↦ (failure, w, [])
    | some w' ↦ (success, w', [])
  ]
  change_dir w _ = (failure, w, [])

  unfoldable pub print_dir : State → List Bytes → Done
  print_dir w (cmd ∷ []) = elim (getcwd w) [
    | none ↦ (failure, w, [])
    | some dir ↦ (success, w, dir ++ b'\n' ∷ [])
  ]
  print_dir w _ = (failure, w, [])

  unfoldable pub which : State → List Bytes → Done
  unfolding find_program is_builtin
  which w (cmd ∷ name ∷ []) =
      if is_builtin name then (failure, w, []) else elim (find_program w name) [
        | none ↦ (failure, w, [])
        | some path ↦ (success, w, path ++ b'\n' ∷ [])
      ]
  which w _ = (failure, w, [])

  unfoldable pub die : State → List Bytes → Done
  unfolding die_text
  die w (cmd ∷ a ∷ as') = (terminated, w, die_text (a ∷ as') ++ b'\n' ∷ [])
  die w _ = (terminated, w, [])

  unfoldable pub execute_builtin : State → Bytes → List Bytes → Done
  unfolding change_dir print_dir which die
  execute_builtin w cmd argv =
      if str_eq cmd (codes "cd")
      then change_dir w argv
      else if str_eq cmd (codes "pwd")
      then print_dir w argv
      else if str_eq cmd (codes "which")
      then which w argv
      else if str_eq cmd (codes "exit")
      then (success, w, [])
      else if str_eq cmd (codes "die")
      then die w argv
      else (failure, w, [])

  -- `seg->argv[0]`
  abbrev pub command_of : List Bytes → Bytes
  command_of [] = []
  command_of (c ∷ cs) = c
