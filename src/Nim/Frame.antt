-- ===== src/Nim/Frame.antt =====
-- Messages of P4/clients/src/nimd.c: `send_msg`, `send_error`, `read_n` and `receive_msg`. A socket
-- is the list of the bytes that can still be read from it, behind which it is closed.
pub mod RoundTrip
use cs214_assignments.Base.{
  ℕ, zero, suc, ◌+◌, ◌-◌, ◌*◌, ◌/◌, ◌%◌, Bool, true, false, not, ◌&&◌, ◌||◌, List, [], ◌∷◌, ◌++◌,
  Option, none, some, ltb, leb, ◌==◌, if◌then◌else◌, length, get_or, take, drop,
}
use cs214_assignments.Base.Bytes.{Bytes, codes, is_digit, c_str}

abbrev pub max_msg_len : ℕ
max_msg_len = 104

abbrev pub name_limit : ℕ
name_limit = 72

-- `strchr(s, '|')`: the string in front of the first pipe and the string behind it
unfoldable pub split_pipe : Bytes → Option (Bytes × Bytes)
split_pipe [] = none
split_pipe (c ∷ cs) =
    let rest : Option (Bytes × Bytes) = elim (split_pipe cs) [
      | none ↦ none
      | some (a, b) ↦ some (c ∷ a, b)
    ] in
    if c == b'|' then some ([], cs) else rest

-- `%02d` of a number below 100
abbrev pub two_digits : ℕ → Bytes
two_digits n = (b'0' + n / 10) ∷ (b'0' + n % 10) ∷ []

-- What `send_msg` writes for a formatted payload, which `vsnprintf` cuts to its buffer; `none` where
-- it returns -1 and writes nothing.
unfoldable pub send_msg : Bytes → Option Bytes
send_msg formatted =
    let payload = take (max_msg_len - 1) formatted in
    let len = length payload in
    if ltb 99 (len + 1)
    then none
    else some (b'0' ∷ b'|' ∷ (two_digits (len + 1) ++ (b'|' ∷ (payload ++ b'|' ∷ []))))

-- what `receive_msg` returns: -1, an error code, or 0 with a type and a body
pub data Received : Type 0 where
  closed : Received
  invalid : ℕ → Received
  message : Bytes → Bytes → Received

-- `read_n`: `none` where the socket is closed in front of the last byte
unfoldable pub read_n : ℕ → Bytes → Option (Bytes × Bytes)
read_n count socket =
    if ltb (length socket) count then none else some (take count socket, drop count socket)

-- the test of the header `0|dd|`
unfoldable pub header_ok : Bytes → Bool
header_ok h =
    get_or h 0 0 == b'0'
    && get_or h 1 0 == b'|'
    && get_or h 4 0 == b'|'
    && is_digit (get_or h 2 0)
    && is_digit (get_or h 3 0)

-- `atoi(len_str)` of two digits
abbrev pub header_len : Bytes → ℕ
header_len h = (get_or h 2 0 - b'0') * 10 + (get_or h 3 0 - b'0')

-- the text behind the header, with its last byte
unfoldable pub read_fields : Bytes → ℕ → Received
read_fields buf len =
    if not (get_or buf (len - 1) 0 == b'|')
    then invalid 10
    else elim (split_pipe (c_str (take (len - 1) buf))) [
      | none ↦ invalid 10
      | some (type, body) ↦ message type body
    ]

unfoldable pub receive_body : ℕ → Bytes → Received × Bytes
receive_body len socket = elim (read_n len socket) [
  | none ↦ (closed, [])
  | some (buf, rest) ↦ (read_fields buf len, rest)
]

unfoldable pub receive_msg : Bytes → Received × Bytes
receive_msg socket = elim (read_n 5 socket) [
  | none ↦ (closed, [])
  | some (header, rest) ↦
      let len = header_len header in
      let body = receive_body len rest in
      if not (header_ok header)
      then (invalid 10, rest)
      else if ltb len 1 || ltb max_msg_len len
      then (invalid 10, rest)
      else body
]
