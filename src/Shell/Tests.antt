-- ===== src/Shell/Tests.antt =====
-- Runs of P3/src/parse.c, P3/src/exec.c and P3/src/shell.c, and their theorems at concrete lines.
use cs214_assignments.Base.{◌⊎◌, ◌↔◌, true, false, [], ◌∷◌, none, some, ◌≡◌, refl, arith, inr}
use cs214_assignments.Base.Bytes.{Bytes, codes, str_eq}
use cs214_assignments.Shell.Tokens.{
  word, or_token, Token, classify, skip_spaces, strip_comment, strtok, to_tokens, tokenize_from,
  tokenize,
}
use cs214_assignments.Shell.Tokens.Split.{AllReadable, tokenize-line_of}
use cs214_assignments.Shell.Parse.{Segment, always, job, parse_job}
use cs214_assignments.Shell.Parse.Grammar.{
  Commands, Fits, segment_tokens, pipe_token, job_tokens, parse_job-job_tokens, trailing_pipe,
}
use cs214_assignments.Shell.Parse.Sound.{Sound}
use cs214_assignments.Shell.Descriptors.{given, FdTable}
use cs214_assignments.Shell.Command.{Os, search_in, has_slash, find_program}
use cs214_assignments.Shell.Execute.{
  Shell, execute_job, check_exit, execute_line, shell_loop, settle,
}
use cs214_assignments.Shell.Command.Builtins.{candidates, FirstThatRuns, find_program-FirstThatRuns}
use cs214_assignments.Shell.Command.Loop.{
  execute_line-job_tokens, Lets, Forbids, execute_line-conditional, Session, shell_loop_ends,
}
use cs214_assignments.Shell.Process.{Ran, exit_code}
use cs214_assignments.Shell.Process.Outcome.{DoneJob}
use cs214_assignments.Shell.Execute.Ends.{Ending, job_ends_shell}
use cs214_assignments.Shell.Execute.Status.{execute_job-DoneJob, status_is_junk}

-- A system with a working directory and one program, `/bin/ls`; every job of processes succeeds.
abbrev system : Os
system = record {
  State = Bytes;
  chdir = λ w dir. some dir;
  getcwd = λ w. some w;
  can_run = λ w path. str_eq path (codes "/bin/ls");
  can_exec = λ w path. true;
  can_open = λ w path. true;
  can_create = λ w path. true;
  can_pipe = λ w i. true;
  can_fork = λ w i. true;
  waitpid = λ w cs i. some 0;
  junk = λ w. 77;
  behind = λ w cs. w;
}

-- the three descriptors that a program starts with
abbrev standard : FdTable
standard = some (given 0) ∷ some (given 1) ∷ some (given 2) ∷ []

abbrev shell : Shell system
shell = record {
  system = codes "/";
  fds = standard;
  is_interactive = false;
  exit_status = 0;
  should_exit = false;
  is_undefined = false;
  printed = [];
}

abbrev list_files : Segment
list_files = record {
  argv = codes "ls" ∷ codes "-l" ∷ [];
  input_file = none;
  output_file = some (codes "out");
}

abbrev count : Segment
count = record { argv = codes "wc" ∷ []; input_file = none; output_file = none }

-- a comment and runs of white space
split_line :
    tokenize (codes "  ls\t-l # files")
    ≡ record { type = word; value = codes "ls" } ∷ record { type = word; value = codes "-l" } ∷ []
unfolding tokenize tokenize_from skip_spaces strip_comment strtok to_tokens classify str_eq
split_line = refl

list_files-Readable : AllReadable (job_tokens (list_files ∷ count ∷ []))
unfolding classify str_eq
list_files-Readable = (
  record { not_empty = λ e. cc; plain = ground arith; type_is = refl },
  (
    record { not_empty = λ e. cc; plain = ground arith; type_is = refl },
    (
      record { not_empty = λ e. cc; plain = ground arith; type_is = refl },
      (
        record { not_empty = λ e. cc; plain = ground arith; type_is = refl },
        (
          record { not_empty = λ e. cc; plain = ground arith; type_is = refl },
          (record { not_empty = λ e. cc; plain = ground arith; type_is = refl }, tt),
        ),
      ),
    ),
  ),
)

both-Commands : Commands (list_files ∷ count ∷ [])
both-Commands = (λ e. cc, (λ e. cc, tt))

both-Fits : Fits (list_files ∷ count ∷ [])
both-Fits = ((omega arith, (omega arith, tt)), omega arith)

abbrev or_sign : Token
or_sign = record { type = or_token; value = codes "or" }

or_sign-Readable : AllReadable (or_sign ∷ job_tokens (list_files ∷ count ∷ []))
unfolding classify str_eq
or_sign-Readable =
    (record { not_empty = λ e. cc; plain = ground arith; type_is = refl }, list_files-Readable)

execute_line-job_tokens_example :
    execute_line system shell (codes "ls -l > out | wc ")
    ≡ check_exit system
        (execute_job system shell (list_files ∷ count ∷ []))
        (list_files ∷ count ∷ [])
execute_line-job_tokens_example =
    execute_line-job_tokens system shell list_files (count ∷ []) both-Commands both-Fits
      list_files-Readable

execute_line-conditional_example :
    (Lets system or_token 0
      × (execute_line system shell (codes "or ls -l > out | wc ")
          ≡ check_exit system
              (execute_job system shell (list_files ∷ count ∷ []))
              (list_files ∷ count ∷ [])))
    ⊎ (Forbids system or_token 0
        × (execute_line system shell (codes "or ls -l > out | wc ") ≡ shell))
execute_line-conditional_example =
    execute_line-conditional system shell or_sign list_files (count ∷ []) both-Commands both-Fits
      or_sign-Readable (inr refl)

shell_loop_ends_example :
    (t : Shell system) × (rest : Bytes) × (shell_loop system 14 shell (codes "cd /bin\nexit\n")
      ≡ some (t, rest))
    × Session system t rest shell (codes "cd /bin\nexit\n")
shell_loop_ends_example = shell_loop_ends system 14 shell (codes "cd /bin\nexit\n") (omega arith)

parse_job-job_tokens_example :
    parse_job (job_tokens (list_files ∷ count ∷ [])) ≡ (always, job (list_files ∷ count ∷ []))
parse_job-job_tokens_example = parse_job-job_tokens (count ∷ []) list_files both-Commands both-Fits

trailing_pipe_example :
    parse_job (segment_tokens count (pipe_token ∷ [])) ≡ (always, job (count ∷ []))
trailing_pipe_example = trailing_pipe count (λ e. cc) (omega arith)

tokenize-line_of_example :
    tokenize (codes "ls -l > out | wc ") ≡ job_tokens (list_files ∷ count ∷ [])
tokenize-line_of_example =
    tokenize-line_of (job_tokens (list_files ∷ count ∷ [])) list_files-Readable

ls_found : find_program system (codes "/") (codes "ls") ≡ some (codes "/bin/ls")
unfolding find_program search_in has_slash str_eq
ls_found = refl

find_program-FirstThatRuns_example :
    FirstThatRuns system
      (codes "/")
      (candidates (codes "ls"))
      (find_program system (codes "/") (codes "ls"))
find_program-FirstThatRuns_example = find_program-FirstThatRuns system (codes "/") (codes "ls")

abbrev leave : Segment
leave = record { argv = codes "exit" ∷ []; input_file = none; output_file = none }

job_ends_shell_example :
    (check_exit system (execute_job system shell (leave ∷ [])) (leave ∷ [])).should_exit ≡ true
    ↔ Ending system leave []
job_ends_shell_example = job_ends_shell system shell leave [] refl

execute_job-DoneJob_example :
    (ran : Ran system) × DoneJob system (codes "/") false standard (list_files ∷ count ∷ []) ran
    × (execute_job system shell (list_files ∷ count ∷ []) ≡ settle system shell ran)
execute_job-DoneJob_example =
    execute_job-DoneJob system shell (list_files ∷ count ∷ []) (given 0) (given 1) tt refl refl
      (λ i. refl) (λ i. refl)

-- The system for a program that ignores SIGCHLD.
abbrev reaping : Os
reaping = record system { waitpid = λ w cs i. none }

abbrev reaped_shell : Shell reaping
reaped_shell = record {
  system = codes "/";
  fds = standard;
  is_interactive = false;
  exit_status = 0;
  should_exit = false;
  is_undefined = false;
  printed = [];
}

status_is_junk_example :
    (execute_job reaping reaped_shell (list_files ∷ count ∷ [])).exit_status ≡ exit_code reaping 77
status_is_junk_example =
    status_is_junk reaping reaped_shell (list_files ∷ count ∷ []) (given 0) (given 1) tt refl refl
      (λ i. refl) (λ i. refl) (λ w cs i. refl)
