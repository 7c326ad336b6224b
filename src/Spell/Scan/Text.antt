-- ===== src/Spell/Scan/Text.antt =====
-- The words of a text, their lines and columns, and which of them `check_file` of P2/src/spell.c is
-- to report.
use cs214_assignments.Base.{
  ℕ, ◌+◌, false, List, [], ◌∷◌, ◌++◌, Option, none, some, ◌≡◌, refl, arith, ltb, ◌==◌,
  if◌then◌else◌, Bool-cases, inl, inr, lt→ltb, length, length-append, take,
}
use native.Mathlib.Nat.{add-zero}
use cs214_assignments.Base.Bytes.{Bytes, is_space, c_str}
use cs214_assignments.Spell.{Dict}
use cs214_assignments.Spell.Scan.{Report, check_word}

-- The line on which a byte stands, by the text in front of it.
abbrev pub newlines : Bytes → ℕ
newlines [] = 0
newlines (c ∷ cs) = (if c == b'\n' then 1 else 0) + newlines cs

abbrev pub line_of : Bytes → ℕ
line_of front = 1 + newlines front

-- what stands behind the last newline
abbrev pub last_line : Bytes → Bytes
last_line [] = []
last_line (c ∷ cs) =
    let rest = last_line cs in
    if ltb 0 (newlines cs) then rest else if c == b'\n' then cs else c ∷ cs

abbrev pub col_of : Bytes → ℕ
col_of front = 1 + length (last_line front)

-- The words of a text, each with all the text in front of it, where `front` and then the bytes
-- `word` of a word were read before.
abbrev pub words_of : Bytes → Bytes → Bytes → List (Bytes × Bytes)
words_of front [] [] = []
words_of front (w ∷ ws) [] = (front, w ∷ ws) ∷ []
words_of front word (c ∷ cs) =
    let behind = words_of (front ++ (word ++ c ∷ [])) [] cs in
    let longer = words_of front (word ++ c ∷ []) cs in
    if is_space c then if length word == 0 then behind else (front, word) ∷ behind else longer

-- What is to be reported of them: the first 255 bytes of a word count.
abbrev pub reports_of : Dict → Option Bytes → List (Bytes × Bytes) → List Report
reports_of d file [] = []
reports_of d file ((front, word) ∷ ws) =
    let rest = reports_of d file ws in
    elim (check_word d (c_str (take 255 word))) [
      | none ↦ rest
      | some w ↦ record { file = file; line = line_of front; col = col_of front; word = w } ∷ rest
    ]

newlines-concat :
    (xs : Bytes) (c : ℕ) → newlines (xs ++ c ∷ []) ≡ newlines xs + (if c == b'\n' then 1 else 0)
newlines-concat [] c = omega arith
newlines-concat (x ∷ xs) c = omega (arith, newlines-concat xs c)

last_line-concat :
    (xs : Bytes) (c : ℕ)
    → last_line (xs ++ c ∷ []) ≡ (if c == b'\n' then [] else last_line xs ++ c ∷ [])
last_line-concat [] c = ground arith
last_line-concat (x ∷ xs) c = elim (Bool-cases (c == b'\n')) [
  | inl nl ↦
      rw (last_line-concat xs c, newlines-concat xs c, nl, lt→ltb 0 (newlines xs + 1) (omega arith))
        refl
  | inr ch ↦
      rw (last_line-concat xs c, newlines-concat xs c, ch, add-zero)
        (elim (Bool-cases (ltb 0 (newlines xs))) [
          | inl more ↦ rw more refl
          | inr last ↦ elim (Bool-cases (x == b'\n')) [
            | inl e ↦ rw (last, e) refl
            | inr e ↦ rw (last, e) refl
          ]
        ])
]

-- a byte that is no space is no newline
pub not_newline : (c : ℕ) → is_space c ≡ false → (c == b'\n') ≡ false
not_newline c h = ground arith

pub line_of-concat :
    (xs : Bytes) (c : ℕ)
    → line_of (xs ++ c ∷ []) ≡ (if c == b'\n' then line_of xs + 1 else line_of xs)
line_of-concat xs c = rw (newlines-concat xs c) (ground arith)

pub col_of-concat :
    (xs : Bytes) (c : ℕ) → col_of (xs ++ c ∷ []) ≡ (if c == b'\n' then 1 else col_of xs + 1)
col_of-concat xs c = elim (Bool-cases (c == b'\n')) [
  | inl nl ↦ rw (last_line-concat xs c, nl) refl
  | inr ch ↦ rw (last_line-concat xs c, ch) (omega (arith, length-append (last_line xs) (c ∷ [])))
]
