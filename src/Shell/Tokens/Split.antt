-- ===== src/Shell/Tokens/Split.antt =====
-- `tokenize` of P3/src/parse.c reads back a printed line.
use cs214_assignments.Base.{
  ◌≢◌, false, List, [], ◌∷◌, ◌++◌, ◌≡◌, refl, sym, ap, ◌∙◌, arith, ◌||◌, ◌==◌,
}
use mathlib.Core.List.{append_assoc, append-nil}
use cs214_assignments.Base.Bytes.{Bytes, is_space}
use cs214_assignments.Shell.Tokens.{
  Token, classify, skip_spaces, strip_comment, strtok, to_tokens, tokenize_from, tokenize,
}

-- neither white space nor the start of a comment
abbrev pub Plain : Bytes → Type 0
Plain [] = Unit
Plain (c ∷ cs) = (is_space c ≡ false) × ((c == b'#') ≡ false) × Plain cs

-- The text of a token can be read back as that token.
pub record IsReadable (t : Token) : Type 0 where
  pub not_empty : t.value ≢ []
  pub plain : Plain t.value
  pub type_is : classify t.value ≡ t.type

abbrev pub AllReadable : List Token → Type 0
AllReadable [] = Unit
AllReadable (t ∷ ts) = IsReadable t × AllReadable ts

-- the tokens, each with a space behind it
abbrev pub line_of : List Token → Bytes
line_of [] = []
line_of (t ∷ ts) = t.value ++ (b' ' ∷ line_of ts)

strtok-Plain :
    (read v rest : Bytes)
    → Plain v
    → read ++ v ≢ []
    → strtok read (v ++ b' ' ∷ rest) ≡ (read ++ v) ∷ strtok [] rest
unfolding strtok
strtok-Plain [] [] rest p ne = absurd (ne refl)
strtok-Plain (c ∷ cs) [] rest p ne = rw (append-nil cs) (ground arith)
strtok-Plain read (c ∷ v) rest p ne =
    let inside : ((c == b' ') || (c == b'\t') || (c == b'\n')) ≡ false = ground arith in
    let same = append_assoc read (c ∷ []) v in
    rw inside (
      strtok-Plain (read ++ c ∷ []) v rest p.2 (λ e. ne (sym same ∙ e))
      ∙ ap (λ (w : Bytes). w ∷ strtok [] rest) same)

strtok-line_of : (ts : List Token) → AllReadable ts → to_tokens (strtok [] (line_of ts)) ≡ ts
unfolding to_tokens
strtok-line_of [] a = unfold strtok in refl
strtok-line_of (t ∷ ts) (r, a) =
    rw (strtok-Plain [] t.value (line_of ts) r.plain r.not_empty, r.type_is, strtok-line_of ts a)
      refl

strip_comment-Plain :
    (v rest : Bytes) → Plain v → strip_comment (v ++ rest) ≡ v ++ strip_comment rest
unfolding strip_comment
strip_comment-Plain [] rest p = refl
strip_comment-Plain (c ∷ v) rest p = rw p.1 (ap (◌∷◌ c) (strip_comment-Plain v rest p.2))

strip_comment-line_of : (ts : List Token) → AllReadable ts → strip_comment (line_of ts) ≡ line_of ts
unfolding strip_comment
strip_comment-line_of [] a = refl
strip_comment-line_of (t ∷ ts) (r, a) =
    strip_comment-Plain t.value (b' ' ∷ line_of ts) r.plain
    ∙ ap (λ (l : Bytes). t.value ++ (b' ' ∷ l)) (strip_comment-line_of ts a)

-- A line that begins with a byte of a token is taken as it is.
tokenize-Plain :
    (v rest : Bytes)
    → Plain v
    → v ≢ []
    → tokenize (v ++ rest) ≡ to_tokens (strtok [] (strip_comment (v ++ rest)))
unfolding tokenize skip_spaces
tokenize-Plain [] rest p ne = absurd (ne refl)
tokenize-Plain (c ∷ v) rest p ne = rw (p.0, tokenize_from, p.1) refl

-- `tokenize` reads back every list of tokens that is printed with a space behind each: words with
-- no white space and no `#` that are no operators, and the operators.
pub tokenize-line_of : (ts : List Token) → AllReadable ts → tokenize (line_of ts) ≡ ts
tokenize-line_of [] a = unfold tokenize skip_spaces strip_comment strtok to_tokens in refl
tokenize-line_of (t ∷ ts) (r, a) =
    tokenize-Plain t.value (b' ' ∷ line_of ts) r.plain r.not_empty
    ∙ ap (λ (l : Bytes). to_tokens (strtok [] l)) (strip_comment-line_of (t ∷ ts) (r, a))
    ∙ strtok-line_of (t ∷ ts) (r, a)
