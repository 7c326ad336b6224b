-- ===== src/Shell/Parse/Grammar.antt =====
-- What `parse_job` of P3/src/parse.c accepts.
use cs214_assignments.Base.{
  ◌≢◌, ◌⊎◌, false, List, [], ◌∷◌, ◌++◌, Option, none, some, ◌≡◌, refl, sym, ap, ◌∙◌, arith, ◌==◌,
  length, length-append, true, ◌<◌, ◌≤◌, ◌+◌,
}
use mathlib.Core.List.{append_assoc, append-nil}
use cs214_assignments.Base.Bytes.{Bytes, codes}
use cs214_assignments.Shell.Tokens.{
  TokenType, word, pipe, redirect_in, redirect_out, and_token, or_token, Token,
}
use cs214_assignments.Shell.Parse.{
  Segment, Job, conditional_of, Parsed, job, no_segment, has_room, can_store, add_word,
  last_segment, parse_segments, parse_rest, always, parse_job,
}

-- A job has a segment, and each of its segments a command.
abbrev pub Commands : Job → Type 0
Commands [] = Unit
Commands (s ∷ ss) = (s.argv ≢ []) × Commands ss

-- The arrays of `parse_job` have room for every segment's words with the NULL behind them.
abbrev pub ShortCommands : Job → Type 0
ShortCommands [] = Unit
ShortCommands (s ∷ ss) = (length s.argv < 100) × ShortCommands ss

-- and for the segments
abbrev pub Fits : Job → Type 0
Fits j = ShortCommands j × (length j ≤ 50)

-- The tokens of a segment: its words, and then the redirections that it has.
abbrev pub word_token : Bytes → Token
word_token v = record { type = word; value = v }

abbrev pub word_tokens : List Bytes → List Token → List Token
word_tokens [] rest = rest
word_tokens (v ∷ vs) rest = word_token v ∷ word_tokens vs rest

abbrev pub redirection : TokenType → Bytes → Option Bytes → List Token → List Token
redirection type sign none rest = rest
redirection type sign (some name) rest =
    record { type = type; value = sign } ∷ word_token name ∷ rest

abbrev pub segment_tokens : Segment → List Token → List Token
segment_tokens s rest = word_tokens s.argv (
    redirection redirect_in (codes "<") s.input_file
      (redirection redirect_out (codes ">") s.output_file rest))

abbrev pub pipe_token : Token
pipe_token = record { type = pipe; value = codes "|" }

-- a pipeline, its segments joined by pipes
abbrev pub job_tokens : Job → List Token
job_tokens [] = []
job_tokens (s ∷ []) = segment_tokens s []
job_tokens (s ∷ s' ∷ ss) = segment_tokens s (pipe_token ∷ job_tokens (s' ∷ ss))

parse-word :
    (done : Job) (seg : Segment) (v : Bytes) (ts : List Token)
    → length seg.argv < 100
    → parse_segments done seg (word_token v ∷ ts) ≡ parse_segments done (add_word seg v) ts
unfolding parse_segments
parse-word done seg v [] h = let room : has_room seg ≡ true = ground arith in rw room refl
parse-word done seg v (t ∷ ts) h = let room : has_room seg ≡ true = ground arith in rw room refl

parse-words :
    (vs : List Bytes) (done : Job) (seg : Segment) (ts : List Token)
    → length seg.argv + length vs ≤ 100
    → parse_segments done seg (word_tokens vs ts)
      ≡ parse_segments done (record seg { argv = seg.argv ++ vs }) ts
parse-words [] done seg ts h = rw (append-nil seg.argv) refl
parse-words (v ∷ vs) done seg ts h =
    parse-word done seg v (word_tokens vs ts) (omega arith)
    ∙ parse-words vs done (add_word seg v) ts (omega (arith, length-append seg.argv (v ∷ [])))
    ∙ ap (λ (a : List Bytes). parse_segments done (record seg { argv = a }) ts)
        (append_assoc seg.argv (v ∷ []) vs)

parse-input :
    (done : Job) (seg : Segment) (f : Option Bytes) (ts : List Token)
    → seg.input_file ≡ none
    → parse_segments done seg (redirection redirect_in (codes "<") f ts)
      ≡ parse_segments done (record seg { input_file = f }) ts
unfolding parse_segments
parse-input done seg none ts e =
    ap (λ (f : Option Bytes). parse_segments done (record seg { input_file = f }) ts) e
parse-input done seg (some f) ts e = refl

parse-output :
    (done : Job) (seg : Segment) (f : Option Bytes) (ts : List Token)
    → seg.output_file ≡ none
    → parse_segments done seg (redirection redirect_out (codes ">") f ts)
      ≡ parse_segments done (record seg { output_file = f }) ts
unfolding parse_segments
parse-output done seg none ts e =
    ap (λ (f : Option Bytes). parse_segments done (record seg { output_file = f }) ts) e
parse-output done seg (some f) ts e = refl

parse-segment :
    (done : Job) (s : Segment) (ts : List Token)
    → length s.argv < 100
    → parse_segments done no_segment (segment_tokens s ts) ≡ parse_segments done s ts
parse-segment done s ts h =
    parse-words s.argv done no_segment _ (omega arith)
    ∙ parse-input done _ s.input_file _ refl
    ∙ parse-output done _ s.output_file ts refl

argv-ne : (s : Segment) → s.argv ≢ [] → (length s.argv == 0) ≡ false
argv-ne s ne = ground arith

can_store_lem :
    (done : Job) (s : Segment) → length s.argv < 100 → length done < 50 → can_store done s ≡ true
can_store_lem done s h k = ground arith

word_tokens-cons :
    (vs : List Bytes) (rest : List Token)
    → vs ≢ []
    → (v : Bytes) × (ts : List Token) × (word_tokens vs rest ≡ word_token v ∷ ts)
word_tokens-cons [] rest ne = absurd (ne refl)
word_tokens-cons (v ∷ vs) rest ne = (v, word_tokens vs rest, refl)

pub job_tokens-cons :
    (s : Segment) (ss : Job)
    → Commands (s ∷ ss)
    → (v : Bytes) × (ts : List Token) × (job_tokens (s ∷ ss) ≡ word_token v ∷ ts)
job_tokens-cons s [] c = word_tokens-cons s.argv _ c.0
job_tokens-cons s (s' ∷ ss) c = word_tokens-cons s.argv _ c.0

parse-pipe :
    (done : Job) (s s' : Segment) (ss : Job)
    → s.argv ≢ []
    → Commands (s' ∷ ss)
    → length s.argv < 100
    → length done < 50
    → parse_segments done s (pipe_token ∷ job_tokens (s' ∷ ss))
      ≡ parse_segments (done ++ s ∷ []) no_segment (job_tokens (s' ∷ ss))
unfolding parse_segments
parse-pipe done s s' ss ne c h k =
    let (v, ts, e) = job_tokens-cons s' ss c in
    rw e (rw (argv-ne s ne, can_store_lem done s h k) refl)

parse_segments-job_tokens :
    (ss : Job) (s : Segment) (done : Job)
    → Commands (s ∷ ss)
    → ShortCommands (s ∷ ss)
    → length done + length (s ∷ ss) ≤ 50
    → parse_segments done no_segment (job_tokens (s ∷ ss)) ≡ job (done ++ s ∷ ss)
unfolding parse_segments last_segment
parse_segments-job_tokens [] s done c h k =
    parse-segment done s [] h.0 ∙ rw (argv-ne s c.0, can_store_lem done s h.0 (omega arith)) refl
parse_segments-job_tokens (s' ∷ ss) s done c h k =
    parse-segment done s (pipe_token ∷ job_tokens (s' ∷ ss)) h.0
    ∙ parse-pipe done s s' ss c.0 c.1 h.0 (omega arith)
    ∙ parse_segments-job_tokens ss s' (done ++ s ∷ []) c.1 h.1
        (omega (arith, length-append done (s ∷ [])))
    ∙ ap job (append_assoc done (s ∷ []) (s' ∷ ss))

-- Every pipeline that the arrays have room for is read back: a job of at most 50 segments, each
-- with a command and fewer than 100 words, is what `parse_job` makes of its words, redirections and
-- pipes.
pub parse_job-job_tokens :
    (ss : Job) (s : Segment)
    → Commands (s ∷ ss)
    → Fits (s ∷ ss)
    → parse_job (job_tokens (s ∷ ss)) ≡ (always, job (s ∷ ss))
unfolding parse_job parse_rest
parse_job-job_tokens ss s c h =
    let (v, ts, e) = job_tokens-cons s ss c in
    rw (e, parse_job)
      (ap (λ (p : Parsed). (always, p))
        (ap (parse_segments [] no_segment) (sym e)
          ∙ parse_segments-job_tokens ss s [] c h.0 (omega (arith, h.1))))

parse_job-segment :
    (s : Segment) (rest : List Token)
    → s.argv ≢ []
    → length s.argv < 100
    → parse_job (segment_tokens s rest) ≡ (always, parse_segments [] s rest)
unfolding parse_job parse_rest
parse_job-segment s rest ne h =
    let (v, ts, e) =
      word_tokens-cons s.argv
        (redirection redirect_in (codes "<") s.input_file
          (redirection redirect_out (codes ">") s.output_file rest))
        ne in
    rw (e, parse_job)
      (ap (λ (p : Parsed). (always, p))
        (ap (parse_segments [] no_segment) (sym e) ∙ parse-segment [] s rest h))

-- A pipe behind a single command of fewer than 100 words, with its redirections, is accepted, and
-- gives the job of that command alone.
pub trailing_pipe :
    (s : Segment)
    → s.argv ≢ []
    → length s.argv < 100
    → parse_job (segment_tokens s (pipe_token ∷ [])) ≡ (always, job (s ∷ []))
unfolding parse_segments last_segment
trailing_pipe s ne h =
    parse_job-segment s (pipe_token ∷ []) ne h
    ∙ rw (argv-ne s ne, can_store_lem [] s h (omega arith)) refl

parse_rest-job_tokens :
    (ss : Job) (s : Segment)
    → Commands (s ∷ ss)
    → Fits (s ∷ ss)
    → parse_rest (job_tokens (s ∷ ss)) ≡ job (s ∷ ss)
unfolding parse_rest
parse_rest-job_tokens ss s c h =
    let (v, ts, e) = job_tokens-cons s ss c in
    rw (e, parse_rest)
      (ap (parse_segments [] no_segment) (sym e)
        ∙ parse_segments-job_tokens ss s [] c h.0 (omega (arith, h.1)))

-- `and` or `or` in front of a job makes it conditional.
pub parse_job-conditional :
    (t : Token) (ss : Job) (s : Segment)
    → (t.type ≡ and_token) ⊎ (t.type ≡ or_token)
    → Commands (s ∷ ss)
    → Fits (s ∷ ss)
    → parse_job (t ∷ job_tokens (s ∷ ss)) ≡ (conditional_of t.type, job (s ∷ ss))
unfolding parse_job
parse_job-conditional t ss s k c h =
    let rest = parse_rest-job_tokens ss s c h in ground (arith, rest)
