-- ===== src/Shell/Parse/Sound.antt =====
-- The jobs that `parse_job` of P3/src/parse.c gives can be run.
use cs214_assignments.Base.{◌≢◌, []}
use cs214_assignments.Shell.Parse.{Parsed, job, syntax_error, overrun}
use cs214_assignments.Shell.Parse.Grammar.{Commands, Fits}

-- What the parser leaves of an error or a job: a job has a segment, every segment a command, and the
-- arrays have room for them.
abbrev pub Sound : Parsed → Type 0
Sound (job j) = Commands j × (j ≢ []) × Fits j
Sound (syntax_error e) = Unit
Sound overrun = Unit
