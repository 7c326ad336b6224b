-- ===== src/Shell/Tokens.antt =====
-- `tokenize` of P3/src/parse.c and `read_command` of P3/src/shell.c.
pub mod Split
use cs214_assignments.Base.{
  ℕ, zero, suc, ◌+◌, ◌-◌, Bool, true, false, not, ◌&&◌, ◌||◌, List, [], ◌∷◌, ◌++◌, Option, none,
  some, ltb, leb, ◌==◌, if◌then◌else◌, length,
}
use cs214_assignments.Base.Bytes.{Bytes, codes, str_eq, is_space, c_str}

pub data TokenType : Type 0 where
  word pipe redirect_in redirect_out and_token or_token : TokenType

pub record Token : Type 0 where
  pub type : TokenType
  pub value : Bytes

-- the delimiters of `strtok_r`
abbrev pub is_delimiter : ℕ → Bool
is_delimiter c = c == b' ' || c == b'\t' || c == b'\n'

unfoldable pub classify : Bytes → TokenType
classify s =
    if str_eq s (codes "<")
    then redirect_in
    else if str_eq s (codes ">")
    then redirect_out
    else if str_eq s (codes "|")
    then pipe
    else if str_eq s (codes "and")
    then and_token
    else if str_eq s (codes "or")
    then or_token
    else word

-- what follows the leading white space
unfoldable pub skip_spaces : Bytes → Bytes
skip_spaces [] = []
skip_spaces (c ∷ cs) = let rest = skip_spaces cs in if is_space c then rest else c ∷ cs

-- the line up to its comment
unfoldable pub strip_comment : Bytes → Bytes
strip_comment [] = []
strip_comment (c ∷ cs) = let rest = c ∷ strip_comment cs in if c == b'#' then [] else rest

-- the calls of `strtok_r`, behind the bytes `read` of a token already passed
unfoldable pub strtok : Bytes → Bytes → List Bytes
strtok [] [] = []
strtok (w ∷ ws) [] = (w ∷ ws) ∷ []
strtok read (c ∷ cs) =
    let behind = strtok [] cs in
    let longer = strtok (read ++ c ∷ []) cs in
    if is_delimiter c then if length read == 0 then behind else read ∷ behind else longer

-- the loop that fills the token array, which grows as needed
unfoldable pub to_tokens : List Bytes → List Token
to_tokens [] = []
to_tokens (s ∷ ss) = record { type = classify s; value = s } ∷ to_tokens ss

unfoldable pub tokenize_from : Bytes → List Token
tokenize_from [] = to_tokens (strtok [] (strip_comment []))
tokenize_from (c ∷ cs) = if c == b'#' then [] else to_tokens (strtok [] (strip_comment (c ∷ cs)))

unfoldable pub tokenize : Bytes → List Token
unfolding tokenize_from
tokenize line = tokenize_from (skip_spaces line)

abbrev pub buffer_size : ℕ
buffer_size = 4096

-- `none` where `read_command` returns NULL; then what can still be read. The input is what `read`
-- gives, byte by byte, up to the end of the file.
unfoldable pub read_command_from : Bytes → Bytes → Option Bytes × Bytes
read_command_from buffer [] =
    if leb (buffer_size - 1) (length buffer) || length buffer == 0
    then (none, [])
    else (some (c_str buffer), [])
read_command_from buffer (c ∷ cs) =
    let next = read_command_from (buffer ++ c ∷ []) cs in
    if leb (buffer_size - 1) (length buffer)
    then (none, c ∷ cs)
    else if c == b'\n'
    then (some (c_str buffer), cs)
    else next

unfoldable pub read_command : Bytes → Option Bytes × Bytes
unfolding read_command_from
read_command = read_command_from []
