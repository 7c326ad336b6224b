-- ===== src/Shell/Parse.antt =====
-- `parse_job` of P3/src/parse.c. The arrays of 50 segments and 100 arguments that it allocates are
-- lists of at most that length here: where the program writes past the end of one, the result is
-- `overrun`.
pub mod Grammar
pub mod Sound
use cs214_assignments.Base.{
  ℕ, Bool, true, false, List, [], ◌∷◌, ◌++◌, Option, none, some, ltb, ◌&&◌, ◌==◌, if◌then◌else◌,
  length,
}
use cs214_assignments.Base.Bytes.{Bytes}
use cs214_assignments.Shell.Tokens.{
  TokenType, word, pipe, redirect_in, redirect_out, and_token, or_token, Token,
}

pub record Segment : Type 0 where
  pub argv : List Bytes
  pub input_file : Option Bytes
  pub output_file : Option Bytes

abbrev pub Job : Type 0
Job = List Segment

pub data SyntaxError : Type 0 where
  no_input_name no_output_name in_pipeline empty_command no_command : SyntaxError

pub data Parsed : Type 0 where
  job : Job → Parsed
  syntax_error : SyntaxError → Parsed
  -- a write past the end of `argv` or `segments`, behind which the program has no meaning
  overrun : Parsed

abbrev pub no_segment : Segment
no_segment = record { argv = []; input_file = none; output_file = none }

-- `segment.argv[segment.argc++] = t->value`
abbrev pub add_word : Segment → Bytes → Segment
add_word seg value = record seg { argv = seg.argv ++ value ∷ [] }

abbrev pub is_word : TokenType → Bool
is_word word = true
is_word _ = false

-- `argv` has room for one more pointer, a word or the NULL behind the words
abbrev pub has_room : Segment → Bool
has_room seg = ltb (length seg.argv) 100

-- `segment.argv[segment.argc] = NULL` and `job->segments[job->segment_count++] = segment`
abbrev pub can_store : Job → Segment → Bool
can_store done seg = has_room seg && ltb (length done) 50

-- the end of the inner loop where no token is left behind the segment
unfoldable pub last_segment : Job → Segment → Parsed
last_segment done seg =
    if length seg.argv == 0
    then syntax_error empty_command
    else if can_store done seg
    then job (done ++ seg ∷ [])
    else overrun

-- The two loops of `parse_job`: `done` are the segments behind, `seg` is the one being filled.
unfoldable pub parse_segments : Job → Segment → List Token → Parsed
parse_segments done seg [] = last_segment done seg
parse_segments done seg (t ∷ []) = elim t.type [
  | word ↦ if has_room seg then last_segment done (add_word seg t.value) else overrun
  | pipe ↦ last_segment done seg
  | redirect_in ↦ syntax_error no_input_name
  | redirect_out ↦ syntax_error no_output_name
  | and_token ↦ syntax_error in_pipeline
  | or_token ↦ syntax_error in_pipeline
]
parse_segments done seg (t ∷ u ∷ us) =
    let more = parse_segments done (add_word seg t.value) (u ∷ us) in
    let piped = parse_segments (done ++ seg ∷ []) no_segment (u ∷ us) in
    let read_from = parse_segments done (record seg { input_file = some u.value }) us in
    let write_to = parse_segments done (record seg { output_file = some u.value }) us in
    elim t.type [
      | word ↦ if has_room seg then more else overrun
      | pipe ↦
          if length seg.argv == 0
          then syntax_error empty_command
          else if can_store done seg
          then piped
          else overrun
      | redirect_in ↦ if is_word u.type then read_from else syntax_error no_input_name
      | redirect_out ↦ if is_word u.type then write_to else syntax_error no_output_name
      | and_token ↦ syntax_error in_pipeline
      | or_token ↦ syntax_error in_pipeline
    ]

-- `conditional_type`
pub data Conditional : Type 0 where
  always if_succeeded if_failed : Conditional

abbrev pub conditional_of : TokenType → Conditional
conditional_of and_token = if_succeeded
conditional_of or_token = if_failed
conditional_of _ = always

unfoldable pub parse_rest : List Token → Parsed
parse_rest [] = syntax_error no_command
parse_rest (t ∷ ts) = parse_segments [] no_segment (t ∷ ts)

unfoldable pub parse_job : List Token → Conditional × Parsed
unfolding parse_rest
parse_job [] = (always, parse_rest [])
parse_job (t ∷ ts) = elim (conditional_of t.type) [
  | always ↦ (always, parse_rest (t ∷ ts))
  | if_succeeded ↦ (if_succeeded, parse_rest ts)
  | if_failed ↦ (if_failed, parse_rest ts)
]
