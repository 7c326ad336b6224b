-- ===== src/Spell/Scan/Positions.antt =====
-- What `check_file` of P2/src/spell.c reports: the misspelt words of the text with their positions.
use cs214_assignments.Base.{
  ℕ, suc, Bool, true, false, ◌||◌, List, [], ◌∷◌, ◌++◌, Option, some, ◌≡◌, refl, sym, ap, ap₂, ◌∙◌,
  arith, ltb, ◌==◌, if◌then◌else◌, Bool-cases, Option-cases, inl, inr, ◌≢◌, length, length-append,
  take,
}
use mathlib.Core.List.{append_assoc, append-nil}
use cs214_assignments.Base.Bytes.{Bytes, is_space, c_str}
use cs214_assignments.Spell.{Dict}
use cs214_assignments.Spell.Load.{joined, put_char-take}
use cs214_assignments.Spell.Scan.{
  Report, Scanner, scanner, check_word, end_word, scan_space, scan_byte, scan_buffer, scan_buffers,
  check_file,
}
use cs214_assignments.Spell.Scan.Text.{
  line_of, col_of, words_of, reports_of, line_of-concat, col_of-concat, not_newline,
}

-- The scanner has read `front` and then the bytes `word` of a word.
record Inside (front word : Bytes) (s : Scanner) : Type 0 where
  word_is : s.word ≡ take 255 word
  line_is : s.line ≡ line_of (front ++ word)
  one_line : line_of (front ++ word) ≡ line_of front
  col_is : s.col ≡ col_of (front ++ word)
  word_col_is : word ≢ [] → s.word_col ≡ col_of front

length-take_ne : (word : Bytes) → word ≢ [] → ltb 0 (length (take 255 word)) ≡ true
length-take_ne [] ne = absurd (ne refl)
length-take_ne (c ∷ cs) ne = ground arith

reports_of-cons :
    (d : Dict) (file : Option Bytes) (w : Bytes × Bytes) (ws : List (Bytes × Bytes))
    → reports_of d file (w ∷ ws) ≡ reports_of d file (w ∷ []) ++ reports_of d file ws
reports_of-cons d file (front, word) ws =
    elim (Option-cases (check_word d (c_str (take 255 word)))) [
      | inl e ↦ rw (e, reports_of) refl
      | inr (w, e) ↦ rw (e, reports_of) refl
    ]

-- where the next byte of a word stands, or the first
start_col :
    (front word : Bytes) (s : Scanner)
    → Inside front word s
    → (if length s.word == 0 then s.col else s.word_col) ≡ col_of front
start_col front [] s i =
    let k = i.col_is ∙ ap col_of (append-nil front) in let z = i.word_is in ground arith
start_col front (w ∷ ws) s i = let k = i.word_col_is (λ e. cc) in let z = i.word_is in ground arith

module _ (d : Dict) (file : Option Bytes) where
  end_word-nil : (s : Scanner) → s.word ≡ [] → end_word d file s ≡ s
  unfolding end_word
  end_word-nil s e = ground arith

  -- the end of a word adds its report
  end_word-cons :
      (front word : Bytes) (s : Scanner)
      → Inside front word s
      → word ≢ []
      → (end_word d file s).reports ≡ s.reports ++ reports_of d file ((front, word) ∷ [])
  unfolding end_word
  end_word-cons front word s i ne =
      let long = length-take_ne word ne in
      let line : s.line ≡ line_of front = i.line_is ∙ i.one_line in
      let col = i.word_col_is ne in
      elim (Option-cases (check_word d (c_str (take 255 word)))) [
        | inl e ↦ ground (arith, append-nil s.reports)
        | inr (w, e) ↦ ground arith
      ]

  end_word_keeps :
      (s : Scanner)
      → ((end_word d file s).word ≡ s.word)
        × ((end_word d file s).line ≡ s.line)
        × ((end_word d file s).col ≡ s.col)
        × ((end_word d file s).word_col ≡ s.word_col)
  unfolding end_word
  end_word_keeps s = ground arith

  space-Inside :
      (front word : Bytes) (s : Scanner) (c : ℕ)
      → Inside front word s
      → Inside (front ++ (word ++ c ∷ [])) [] (scan_space d file (end_word d file s) c)
  unfolding scan_space
  space-Inside front word s c i =
      let (_, l, k, _) = end_word_keeps s in
      let t = scan_space d file (end_word d file s) c in
      let same : (front ++ (word ++ c ∷ [])) ++ [] ≡ (front ++ word) ++ c ∷ [] =
        append-nil _ ∙ sym (append_assoc front word (c ∷ [])) in
      record {
        word_is = ground arith;
        line_is = rw same (ground (arith, line_of-concat (front ++ word) c, i.line_is));
        one_line = ap line_of (append-nil (front ++ (word ++ c ∷ [])));
        col_is = rw same (ground (arith, col_of-concat (front ++ word) c, i.col_is));
        word_col_is = λ ne. absurd (ne refl);
      }

  byte-Inside :
      (front word : Bytes) (s : Scanner) (c : ℕ)
      → Inside front word s
      → is_space c ≡ false
      → Inside front (word ++ c ∷ []) (scan_byte d file s c)
  unfolding scan_byte
  byte-Inside front word s c i ns =
      let nl = not_newline c ns in
      let same : front ++ (word ++ c ∷ []) ≡ (front ++ word) ++ c ∷ [] =
        sym (append_assoc front word (c ∷ [])) in
      rw ns (record {
        word_is = rw i.word_is (put_char-take word c);
        line_is = rw (same, line_of-concat, nl) i.line_is;
        one_line = rw (same, line_of-concat, nl) i.one_line;
        col_is = rw (same, col_of-concat, nl) (omega (arith, i.col_is));
        word_col_is = λ ne. start_col front word s i;
      })

  end_word-reports :
      (front word : Bytes) (s : Scanner) (ws : List (Bytes × Bytes))
      → Inside front word s
      → (end_word d file s).reports ++ reports_of d file ws
        ≡ s.reports ++ reports_of d file (if length word == 0 then ws else (front, word) ∷ ws)
  end_word-reports front [] s ws i =
      ap (λ (t : Scanner). t.reports ++ reports_of d file ws) (end_word-nil s i.word_is)
  end_word-reports front (w ∷ more) s ws i =
      let some_bytes : (suc (length more) == 0) ≡ false = ground arith in
      rw some_bytes (
        ap (λ (r : List Report). r ++ reports_of d file ws)
          (end_word-cons front (w ∷ more) s i (λ e. cc))
        ∙ append_assoc s.reports _ _
        ∙ ap (◌++◌ s.reports) (sym (reports_of-cons d file (front, w ∷ more) ws)))

  scan_space-reports : (s : Scanner) (c : ℕ) → (scan_space d file s c).reports ≡ s.reports
  unfolding scan_space
  scan_space-reports s c = ground arith

  scan_byte-reports :
      (s : Scanner) (c : ℕ) → is_space c ≡ false → (scan_byte d file s c).reports ≡ s.reports
  unfolding scan_byte
  scan_byte-reports s c ns = rw ns refl

  scan_byte-space :
      (s : Scanner) (c : ℕ)
      → is_space c ≡ true
      → scan_byte d file s c ≡ scan_space d file (end_word d file s) c
  unfolding scan_byte
  scan_byte-space s c sp = rw sp refl

  scan_buffer-reports :
      (cs front word : Bytes) (s : Scanner)
      → Inside front word s
      → (end_word d file (scan_buffer d file s cs)).reports
        ≡ s.reports ++ reports_of d file (words_of front word cs)
  unfolding scan_buffer
  scan_buffer-reports [] front [] s i =
      ap (λ (t : Scanner). t.reports) (end_word-nil s i.word_is) ∙ sym (append-nil s.reports)
  scan_buffer-reports [] front (w ∷ ws) s i = end_word-cons front (w ∷ ws) s i (λ e. cc)
  scan_buffer-reports (c ∷ cs) front word s i = elim (Bool-cases (is_space c)) [
    | inl sp ↦
        let t = scan_space d file (end_word d file s) c in
        let ih =
          scan_buffer-reports cs (front ++ (word ++ c ∷ [])) [] t (space-Inside front word s c i) in
        rw (sp, scan_byte-space s c sp)
          (ih
            ∙ ap
                (λ (r : List Report).
                  r ++ reports_of d file (words_of (front ++ (word ++ c ∷ [])) [] cs))
                (scan_space-reports (end_word d file s) c)
            ∙ end_word-reports front word s _ i)
    | inr ns ↦ rw ns (
        scan_buffer-reports cs front (word ++ c ∷ []) (scan_byte d file s c)
          (byte-Inside front word s c i ns)
        ∙ rw (scan_byte-reports s c ns) refl)
  ]

  scan_buffers-joined :
      (s : Scanner) (bs : List Bytes) → scan_buffers d file s bs ≡ scan_buffer d file s (joined bs)
  unfolding scan_buffers scan_buffer
  scan_buffers-joined s [] = refl
  scan_buffers-joined s (b ∷ bs) = scan_buffers-joined (scan_buffer d file s b) bs ∙ sym (two b s)
    where
      two :
          (b : Bytes) (s : Scanner)
          → scan_buffer d file s (b ++ joined bs)
            ≡ scan_buffer d file (scan_buffer d file s b) (joined bs)
      two [] s = refl
      two (c ∷ cs) s = two cs (scan_byte d file s c)

  module _ (before : Bool) where
    -- `error_found` is what it was, or tells that something was printed
    abbrev Flagged : Scanner → Type 0
    Flagged s = s.error_found ≡ (before || ltb 0 (length s.reports))

    end_word-Flagged : (s : Scanner) → Flagged s → Flagged (end_word d file s)
    unfolding end_word
    end_word-Flagged s h = elim (Option-cases (check_word d (c_str s.word))) [
      | inl e ↦ ground arith
      | inr (w, e) ↦
          let r : Report = record { file = file; line = s.line; col = s.word_col; word = w } in
          ground (arith, length-append s.reports (r ∷ []))
    ]

    scan_byte-Flagged : (s : Scanner) (c : ℕ) → Flagged s → Flagged (scan_byte d file s c)
    unfolding scan_byte
    scan_byte-Flagged s c h = ground (arith, end_word-Flagged s)

    scan_buffer-Flagged : (cs : Bytes) (s : Scanner) → Flagged s → Flagged (scan_buffer d file s cs)
    unfolding scan_buffer
    scan_buffer-Flagged [] s h = h
    scan_buffer-Flagged (c ∷ cs) s h =
        scan_buffer-Flagged cs (scan_byte d file s c) (scan_byte-Flagged s c h)

-- `check_file` reports the misspelt words of the text, in order, each at the line and the column of
-- its first byte, however `read` cuts the file; and it sets `error_found` where it reports one.
pub check_file_lem :
    (d : Dict) (file : Option Bytes) (buffers : List Bytes) (before : Bool)
    → check_file d file (some buffers) before ≡ (
      reports_of d file (words_of [] [] (joined buffers)),
      before || ltb 0 (length (reports_of d file (words_of [] [] (joined buffers)))),
    )
unfolding check_file
check_file_lem d file buffers before =
    let text = joined buffers in
    let start : Inside [] [] (scanner before) = record {
      word_is = refl;
      line_is = refl;
      one_line = refl;
      col_is = refl;
      word_col_is = λ ne. refl;
    } in
    let reports = scan_buffer-reports d file text [] [] (scanner before) start in
    let flag =
      end_word-Flagged d file before (scan_buffer d file (scanner before) text)
        (scan_buffer-Flagged d file before text (scanner before) (ground arith)) in
    rw (scan_buffers-joined d file (scanner before) buffers) (
      ap₂ (λ (r : List Report) (f : Bool). (r, f)) reports
        (flag ∙ ap (λ (r : List Report). before || ltb 0 (length r)) reports))
