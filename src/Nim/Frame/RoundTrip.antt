-- ===== src/Nim/Frame/RoundTrip.antt =====
-- What `send_msg` of P4/clients/src/nimd.c writes, `receive_msg` reads back.
use cs214_assignments.Base.{
  ℕ, zero, suc, ◌+◌, ◌-◌, ◌/◌, ◌%◌, ◌≤◌, ◌<◌, ◌||◌, true, false, [], ◌∷◌, ◌++◌, some, ◌≡◌, refl,
  sym, ap, ◌∙◌, arith, ltb, ◌==◌, length, length-append, get_or, take, drop,
}
use mathlib.Core.List.{append_assoc}
use cs214_assignments.Base.Bytes.{Bytes, c_str}
use cs214_assignments.Nim.Frame.{
  split_pipe, send_msg, Received, message, read_n, header_ok, header_len, read_fields, receive_body,
  receive_msg,
}

-- the byte does not occur
abbrev pub Free : ℕ → Bytes → Type 0
Free b [] = Unit
Free b (c ∷ cs) = ((c == b) ≡ false) × Free b cs

split_pipe-append : (t b : Bytes) → Free b'|' t → split_pipe (t ++ b'|' ∷ b) ≡ some (t, b)
unfolding split_pipe
split_pipe-append [] b f = refl
split_pipe-append (c ∷ t) b f = rw (f.0, split_pipe-append t b f.1) refl

c_str-Free : (s : Bytes) → Free 0 s → c_str s ≡ s
c_str-Free [] f = refl
c_str-Free (c ∷ s) f = rw (f.0, c_str-Free s f.1) refl

take-append : (xs ys : Bytes) (n : ℕ) → n ≡ length xs → take n (xs ++ ys) ≡ xs
take-append [] ys n e = rw e refl
take-append (x ∷ xs) ys n e = rw e (ap (◌∷◌ x) (take-append xs ys (length xs) refl))

drop-append : (xs ys : Bytes) (n : ℕ) → n ≡ length xs → drop n (xs ++ ys) ≡ ys
drop-append [] ys n e = rw e refl
drop-append (x ∷ xs) ys n e = rw e (drop-append xs ys (length xs) refl)

take-short : (xs : Bytes) (n : ℕ) → length xs ≤ n → take n xs ≡ xs
take-short [] zero h = refl
take-short [] (suc n) h = refl
take-short (x ∷ xs) zero h = absurd (omega arith)
take-short (x ∷ xs) (suc n) h = ap (◌∷◌ x) (take-short xs n (omega arith))

get_or-append : (xs : Bytes) (y : ℕ) (n : ℕ) → n ≡ length xs → get_or (xs ++ y ∷ []) n 0 ≡ y
get_or-append [] y n e = rw e refl
get_or-append (x ∷ xs) y n e = rw e (get_or-append xs y (length xs) refl)

read_fields-append :
    (t b : Bytes) (n : ℕ)
    → Free b'|' t
    → Free 0 (t ++ b'|' ∷ b)
    → n ≡ length (t ++ b'|' ∷ b)
    → read_fields ((t ++ b'|' ∷ b) ++ b'|' ∷ []) (n + 1) ≡ message t b
unfolding read_fields
read_fields-append t b n ft fz e =
    let k : n + 1 - 1 ≡ n = omega arith in
    rw
      (
        k,
        get_or-append (t ++ b'|' ∷ b) b'|' n e,
        take-append (t ++ b'|' ∷ b) (b'|' ∷ []) n e,
        c_str-Free _ fz,
        split_pipe-append t b ft,
      )
      refl

read_n-append : (xs ys : Bytes) (n : ℕ) → n ≡ length xs → read_n n (xs ++ ys) ≡ some (xs, ys)
unfolding read_n
read_n-append xs ys n e =
    let enough : ltb (length (xs ++ ys)) n ≡ false = ground (arith, length-append xs ys) in
    rw (enough, take-append xs ys n e, drop-append xs ys n e) refl

abbrev header : ℕ → Bytes
header n = b'0' ∷ b'|' ∷ (b'0' + n / 10) ∷ (b'0' + n % 10) ∷ b'|' ∷ []

header-ok : (n : ℕ) → n < 100 → header_ok (header n) ≡ true
unfolding header_ok
header-ok n small = ground arith

header_len-header : (n : ℕ) → header_len (header n) ≡ n
header_len-header n = omega arith

receive_msg-header :
    (n : ℕ) (socket : Bytes)
    → 0 < n
    → n < 100
    → receive_msg (header n ++ socket) ≡ receive_body n socket
unfolding receive_msg
receive_msg-header n socket pos small =
    let in_range : (ltb n 1 || ltb 104 n) ≡ false = ground arith in
    rw (read_n-append (header n) socket 5 refl, receive_msg)
      (rw (header_len-header n, header-ok n small, in_range) refl)

-- A payload of at most 98 bytes with a type without a pipe, a pipe and a body, and without a NUL,
-- is sent, and whoever reads the message has the type and the body back, with what stands behind
-- the message unread.
pub receive_msg-send_msg :
    (t b rest : Bytes)
    → Free b'|' t
    → Free 0 (t ++ b'|' ∷ b)
    → length (t ++ b'|' ∷ b) ≤ 98
    → (m : Bytes) × (send_msg (t ++ b'|' ∷ b) ≡ some m)
      × (receive_msg (m ++ rest) ≡ (message t b, rest))
unfolding send_msg receive_body
receive_msg-send_msg t b rest ft fz short =
    let p = t ++ b'|' ∷ b in
    let n = length p + 1 in
    let buf = p ++ b'|' ∷ [] in
    let fit : ltb 99 n ≡ false = ground arith in
    let long : n ≡ length buf = sym (length-append p (b'|' ∷ [])) in
    (
      header n ++ buf,
      rw (take-short p 103 (omega arith), fit) refl,
      ap receive_msg (append_assoc (header n) buf rest)
          ∙ receive_msg-header n (buf ++ rest) (omega arith) (omega arith)
          ∙ rw (read_n-append buf rest n long, receive_body)
              (ap (λ (r : Received). (r, rest)) (read_fields-append t b (length p) ft fz refl)),
    )
