-- ===== src/Spell/Scan.antt =====
-- `check_file` of P2/src/spell.c: the scan of a file for misspelt words. The file is what the calls
-- of `read` return, buffer by buffer; what is printed is the list of reports.
pub mod Text
pub mod Positions
use cs214_assignments.Base.{
  ℕ, ◌+◌, ◌-◌, Bool, true, false, not, ◌&&◌, ◌||◌, List, [], ◌∷◌, ◌++◌, Option, none, some, ltb,
  ◌==◌, if◌then◌else◌, length,
}
use cs214_assignments.Base.Bytes.{Bytes, is_space, c_str}
use cs214_assignments.Spell.{Dict, put_char, should_skip_word, normalize_word, dict_lookup}

-- `filename:line:col word`; the name only where `print_filename` is set
pub record Report : Type 0 where
  pub file : Option Bytes
  pub line : ℕ
  pub col : ℕ
  pub word : Bytes

-- the variables of `check_file`, with what it printed and the global `error_found`
pub record Scanner : Type 0 where
  pub word : Bytes
  pub line : ℕ
  pub col : ℕ
  pub word_col : ℕ
  pub reports : List Report
  pub error_found : Bool

-- `normalized[0] && !dict_lookup(dictionary, normalized)`
misspelt : Dict → Bytes → Bool
misspelt d [] = false
misspelt d (c ∷ cs) = not (dict_lookup d (c ∷ cs))

-- what is to be printed of a word, if anything
unfoldable pub check_word : Dict → Bytes → Option Bytes
unfolding misspelt
check_word d word =
    if should_skip_word word
    then none
    else if misspelt d (normalize_word word)
    then some (normalize_word word)
    else none

module _ (d : Dict) (file : Option Bytes) where
  -- the treatment of the word at a space and at the end of the file
  unfoldable pub end_word : Scanner → Scanner
  end_word s =
      if ltb 0 (length s.word)
      then elim (check_word d (c_str s.word)) [
        | none ↦ s
        | some w ↦ record s {
          reports =
              s.reports ++ record { file = file; line = s.line; col = s.word_col; word = w } ∷ [];
          error_found = true;
        }
      ]
      else s

  -- a space ends the word
  unfoldable pub scan_space : Scanner → ℕ → Scanner
  scan_space s c =
      if c == b'\n'
      then record s { word = []; line = s.line + 1; col = 1 }
      else record s { word = []; col = s.col + 1 }

  -- the body of the loop over a buffer
  unfoldable pub scan_byte : Scanner → ℕ → Scanner
  unfolding scan_space
  scan_byte s c = if is_space c then scan_space (end_word s) c else record s {
    word = put_char s.word c;
    word_col = if length s.word == 0 then s.col else s.word_col;
    col = s.col + 1;
  }

  unfoldable pub scan_buffer : Scanner → Bytes → Scanner
  scan_buffer s [] = s
  scan_buffer s (c ∷ cs) = scan_buffer (scan_byte s c) cs

  unfoldable pub scan_buffers : Scanner → List Bytes → Scanner
  scan_buffers s [] = s
  scan_buffers s (b ∷ bs) = scan_buffers (scan_buffer s b) bs

abbrev pub scanner : Bool → Scanner
scanner error_found = record {
  word = [];
  line = 1;
  col = 1;
  word_col = 1;
  reports = [];
  error_found = error_found;
}

-- what a call of `check_file` prints, and the value that it leaves in `error_found`
abbrev pub Checked : Type 0
Checked = List Report × Bool

-- `none` for a file that cannot be opened
unfoldable pub check_file : Dict → Option Bytes → Option (List Bytes) → Bool → Checked
check_file d file none error_found = ([], true)
check_file d file (some buffers) error_found =
    let s = end_word d file (scan_buffers d file (scanner error_found) buffers) in
    (s.reports, s.error_found)
