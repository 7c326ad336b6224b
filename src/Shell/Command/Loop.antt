-- ===== src/Shell/Command/Loop.antt =====
-- The loop of P3/src/shell.c: whole sessions, and lines that are the text of a job.
use cs214_assignments.Base.{
  ◌>>=◌, ℕ, zero, suc, ◌+◌, ◌<◌, ◌⊎◌, Bool, true, false, not, ◌||◌, ◌≢◌, List, [], ◌∷◌, ◌++◌,
  Option, none, some, ◌≡◌, refl, sym, ap, ◌∙◌, arith, leb, ◌==◌, if◌then◌else◌, length,
  length-append, Bool-cases, Option-cases, inl, inr,
}
use cs214_assignments.Base.Bytes.{Bytes, codes}
use cs214_assignments.Shell.Tokens.{
  TokenType, Token, and_token, or_token, read_command, read_command_from,
}
use cs214_assignments.Shell.Tokens.Split.{AllReadable, line_of, tokenize-line_of}
use cs214_assignments.Shell.Parse.{
  Segment, Job, Parsed, job, Conditional, always, conditional_of, parse_job,
}
use cs214_assignments.Shell.Parse.Grammar.{
  Commands, Fits, job_tokens, job_tokens-cons, parse_job-job_tokens, parse_job-conditional,
}
use cs214_assignments.Shell.Descriptors.{FdTable, reads, install}
use cs214_assignments.Shell.Command.{Os}
use cs214_assignments.Shell.Execute.{
  Shell, goes_on, execute_job, check_exit, execute_parsed, execute_tokens, execute_line, shell_loop,
  prompted, print, run_input, main,
}

-- A line that is read takes input away.
read_command_from-shorter :
    (input buffer line rest : Bytes)
    → read_command_from buffer input ≡ (some line, rest)
    → length rest < length input + length buffer
unfolding read_command_from
read_command_from-shorter [] buffer line rest e =
    elim (Bool-cases (leb 4095 (length buffer) || length buffer == 0)) [
      | inl stop ↦ absurd (ground arith)
      | inr some_bytes ↦ ground arith
    ]
read_command_from-shorter (c ∷ cs) buffer line rest e = ground (
  arith,
  length-append buffer (c ∷ []),
  read_command_from-shorter cs (buffer ++ c ∷ []) line rest,
)

read_command-shorter :
    (input line rest : Bytes) → read_command input ≡ (some line, rest) → length rest < length input
unfolding read_command
read_command-shorter input line rest e =
    omega (arith, read_command_from-shorter input [] line rest e)

module _ (os : Os) where
  -- the loop behind the test of `should_exit`
  abbrev behind : ℕ → Shell os → Option Bytes × Bytes → Option (Shell os × Bytes)
  behind f s r = elim r.0 as (λ _. Option (Shell os × Bytes)) [
    | none ↦ some (prompted os s, r.1)
    | some l ↦ shell_loop os f (execute_line os (prompted os s) l) r.1
  ]

  loop_step :
      (f : ℕ) (s : Shell os) (input : Bytes) (b : Bool)
      → s.should_exit ≡ b
      → shell_loop os (suc f) s input
        ≡ (if b then some (s, input) else behind f s (read_command input))
  unfolding shell_loop
  loop_step f s input b e =
      ap (λ (x : Bool). if x then some (s, input) else behind f s (read_command input)) e

  -- A session that leaves the shell `t` and the text `left` unread, from a shell and its input: each
  -- line that `read_command` gives is run, in order, and the session goes on behind it until
  -- `should_exit` is set or `read_command` gives no line.
  pub data Session (t : Shell os) (left : Bytes) : Shell os → Bytes → Type 0 where
    stopped : t.should_exit ≡ true → Session t left t left
    ended :
        (s : Shell os) (input : Bytes)
        → s.should_exit ≡ false
        → read_command input ≡ (none, left)
        → t ≡ prompted os s
        → Session t left s input
    runs_line :
        (s : Shell os) (input line rest : Bytes)
        → s.should_exit ≡ false
        → read_command input ≡ (some line, rest)
        → Session t left (execute_line os (prompted os s) line) rest
        → Session t left s input

  -- `shell_loop` ends, where every child does, after a round for each byte of the input at most. Up
  -- to there it has run the lines that `read_command` gives, each in its turn and from the shell
  -- and the input that the one before left, until `should_exit` was set or `read_command` gave no
  -- line on the rest of the input.
  pub shell_loop_ends :
      (fuel : ℕ) (s : Shell os) (input : Bytes)
      → length input < fuel
      → (t : Shell os) × (rest : Bytes) × (shell_loop os fuel s input ≡ some (t, rest))
        × Session t rest s input
  shell_loop_ends zero s input h = absurd (omega arith)
  shell_loop_ends (suc f) s input h = elim (Bool-cases s.should_exit) [
    | inl stop ↦ (s, input, loop_step f s input true stop, stopped stop)
    | inr on ↦
        let rest = (read_command input).1 in
        elim (Option-cases (read_command input).0) [
          | inl e ↦
              let pair : read_command input ≡ (none, rest) =
                ap (λ (o : Option Bytes). (o, rest)) e in
              (
                prompted os s,
                rest,
                loop_step f s input false on ∙ ap (behind f s) pair,
                ended s input on pair refl,
              )
          | inr (line, e) ↦
              let pair : read_command input ≡ (some line, rest) =
                ap (λ (o : Option Bytes). (o, rest)) e in
              let (t, left, runs, session) =
                shell_loop_ends f (execute_line os (prompted os s) line) rest
                  (omega (arith, read_command-shorter input line rest pair)) in
              (
                t,
                left,
                loop_step f s input false on ∙ ap (behind f s) pair ∙ runs,
                runs_line s input line rest on pair session,
              )
        ]
  ]

  run_input_ends :
      (fuel : ℕ) (w : os.State) (fds : FdTable) (is_tty : Bool) (input : Bytes)
      → length input < fuel
      → (t : Shell os) × (run_input os fuel w fds is_tty input ≡ some t)
  unfolding run_input
  run_input_ends fuel w fds is_tty input h =
      let (t, rest, e, _) = shell_loop_ends fuel _ input h in
      (
        _,
        ap
            (λ (o : Option (Shell os × Bytes)).
              o >>= λ r. some (if is_tty then print os r.0 (codes "Exiting my shell.\n") else r.0))
            e,
      )

  -- The program ends on every input: with 1 where it has two arguments or cannot open its script, else
  -- with 0, whatever the status of the last job.
  pub main_ends :
      (fuel : ℕ) (w : os.State) (fds : FdTable) (fopen : Bytes → Option Bytes)
      (isatty : Option Bytes → Bool) (stdin : Bytes) (args : List Bytes)
      → length stdin < fuel
      → ((name script : Bytes) → fopen name ≡ some script → length script < fuel)
      → (main os fuel w fds fopen isatty stdin args ≡ some (1, none))
        ⊎ ((t : Shell os) × (main os fuel w fds fopen isatty stdin args ≡ some (0, some t)))
  unfolding main
  main_ends fuel w fds fopen isatty stdin [] h hs =
      let (t, e) = run_input_ends fuel w fds (isatty none) stdin h in inr (t, rw e refl)
  main_ends fuel w fds fopen isatty stdin (name ∷ []) h hs = elim (Option-cases (fopen name)) [
    | inl e ↦ inl (rw (e, main) refl)
    | inr (script, e) ↦
        let (t, r) =
          run_input_ends fuel w (install fds (reads name)) (isatty (some name)) script
            (hs name script e) in
        inr (t, rw (e, main) (rw r refl))
  ]
  main_ends fuel w fds fopen isatty stdin (name ∷ more ∷ rest) h hs = inl refl

  execute_tokens-cons :
      (s : Shell os) (t : Token) (ts us : List Token) (c : Conditional) (p : Parsed)
      → us ≡ t ∷ ts
      → parse_job us ≡ (c, p)
      → execute_tokens os s us ≡ execute_parsed os s c p
  unfolding execute_tokens
  execute_tokens-cons s t ts us c p e parses =
      ap (execute_tokens os s) e
      ∙ ap (λ (r : Conditional × Parsed). execute_parsed os s r.0 r.1)
          (ap parse_job (sym e) ∙ parses)

  -- A line that is the text of a job runs that job, and no other, whatever ran before: the job has
  -- at most 50 segments, each with a command and fewer than 100 words, and its words are no
  -- operators and have no white space and no `#`.
  pub execute_line-job_tokens :
      (s : Shell os) (g : Segment) (gs : Job)
      → Commands (g ∷ gs)
      → Fits (g ∷ gs)
      → AllReadable (job_tokens (g ∷ gs))
      → execute_line os s (line_of (job_tokens (g ∷ gs)))
        ≡ check_exit os (execute_job os s (g ∷ gs)) (g ∷ gs)
  unfolding execute_line execute_parsed
  execute_line-job_tokens s g gs c fit a =
      let (v, ts, e) = job_tokens-cons g gs c in
      ap (execute_tokens os s) (tokenize-line_of (job_tokens (g ∷ gs)) a)
      ∙ execute_tokens-cons s _ ts (job_tokens (g ∷ gs)) always (job (g ∷ gs)) e
          (parse_job-job_tokens gs g c fit)

  -- a line that starts with `and` or `or`, by the tests of `shell_loop`
  conditional_line :
      (s : Shell os) (t : Token) (g : Segment) (gs : Job)
      → Commands (g ∷ gs)
      → Fits (g ∷ gs)
      → AllReadable (t ∷ job_tokens (g ∷ gs))
      → (t.type ≡ and_token) ⊎ (t.type ≡ or_token)
      → execute_line os s (line_of (t ∷ job_tokens (g ∷ gs)))
        ≡ execute_parsed os s (conditional_of t.type) (job (g ∷ gs))
  unfolding execute_line
  conditional_line s t g gs c fit a k =
      ap (execute_tokens os s) (tokenize-line_of (t ∷ job_tokens (g ∷ gs)) a)
      ∙ execute_tokens-cons s t (job_tokens (g ∷ gs)) _ (conditional_of t.type) (job (g ∷ gs)) refl
          (parse_job-conditional t gs g k c fit)

  -- The word in front lets a job run: `and` where the last status is 0, `or` where it is not 0.
  abbrev pub Lets : TokenType → ℕ → Type 0
  Lets type status = ((type ≡ and_token) × (status ≡ 0)) ⊎ ((type ≡ or_token) × (status ≢ 0))

  abbrev pub Forbids : TokenType → ℕ → Type 0
  Forbids type status = ((type ≡ and_token) × (status ≢ 0)) ⊎ ((type ≡ or_token) × (status ≡ 0))

  goes_on-cases :
      (type : TokenType) (status : ℕ)
      → (type ≡ and_token) ⊎ (type ≡ or_token)
      → (Lets type status × (goes_on os (conditional_of type) status ≡ true))
        ⊎ (Forbids type status × (goes_on os (conditional_of type) status ≡ false))
  goes_on-cases type status (inl e) = elim (Bool-cases (status == 0)) [
    | inl z ↦ inl (inl (e, ground arith), rw e z)
    | inr z ↦ inr (inl (e, λ k. ground arith), rw e z)
  ]
  goes_on-cases type status (inr e) = elim (Bool-cases (status == 0)) [
    | inl z ↦ inr (inr (e, ground arith), rw e (ap not z))
    | inr z ↦ inl (inr (e, λ k. ground arith), rw e (ap not z))
  ]

  -- A line with `and` in front of a job runs the job where the last status is 0, and leaves the
  -- shell as it is, the status included, where it is not 0; with `or` it is the other way round.
  -- The job has at most 50 segments, each with a command and fewer than 100 words, and no word of
  -- the line but `and` or `or` in front is an operator or has white space or a `#`.
  pub execute_line-conditional :
      (s : Shell os) (t : Token) (g : Segment) (gs : Job)
      → Commands (g ∷ gs)
      → Fits (g ∷ gs)
      → AllReadable (t ∷ job_tokens (g ∷ gs))
      → (t.type ≡ and_token) ⊎ (t.type ≡ or_token)
      → (Lets t.type s.exit_status
          × (execute_line os s (line_of (t ∷ job_tokens (g ∷ gs)))
              ≡ check_exit os (execute_job os s (g ∷ gs)) (g ∷ gs)))
        ⊎ (Forbids t.type s.exit_status
            × (execute_line os s (line_of (t ∷ job_tokens (g ∷ gs))) ≡ s))
  unfolding execute_parsed
  execute_line-conditional s t g gs c fit a k =
      let e = conditional_line s t g gs c fit a k in
      let under =
        λ (b : Bool). if b then check_exit os (execute_job os s (g ∷ gs)) (g ∷ gs) else s in
      elim (goes_on-cases t.type s.exit_status k) [
        | inl (lets, on) ↦ inl (lets, e ∙ ap under on)
        | inr (forbids, off) ↦ inr (forbids, e ∙ ap under off)
      ]
