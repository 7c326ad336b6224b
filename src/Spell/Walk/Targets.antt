-- ===== src/Spell/Walk/Targets.antt =====
-- Which files P2/src/spell.c checks, in what order, and what it returns.
use cs214_assignments.Base.{
  Bool, true, false, ◌||◌, List, [], ◌∷◌, ◌++◌, Option, none, some, ◌≡◌, refl, sym, ap, ap₂, ◌∙◌,
  arith, ltb, if◌then◌else◌, length, Bool-cases, inl, inr,
}
use mathlib.Core.List.{append_assoc, append-nil}
use cs214_assignments.Base.Bytes.{Bytes, codes, str_eq}
use cs214_assignments.Spell.{Dict, ends_with, load_dictionary}
use cs214_assignments.Spell.Scan.{Report, Checked, check_file}
use cs214_assignments.Spell.Scan.Text.{words_of, reports_of}
use cs214_assignments.Spell.Scan.Positions.{check_file_lem}
use cs214_assignments.Spell.Load.{joined}
use cs214_assignments.Spell.Walk.{
  File, Node, missing, regular, special, unreadable, directory, Entries, end, entry, is_hidden,
  join_path, check_path, process_entries, process_node, process_argument, process_arguments,
  check_all, main_with, main,
}

-- A file to check, `none` for what cannot be opened, with the path that its reports begin with.
abbrev pub Target : Type 0
Target = Option Bytes × File

-- The files of a directory whose names have the suffix, in order, with those of its subdirectories;
-- hidden entries are left out, subdirectories that cannot be opened are not.
unfoldable mutual
  pub targets_in : Bytes → Bytes → Entries → List Target
  targets_in suffix dirname end = []
  targets_in suffix dirname (entry name node es) =
      let here = targets_at suffix (join_path dirname name) name node in
      (if is_hidden name then [] else here) ++ targets_in suffix dirname es

  pub targets_at : Bytes → Bytes → Bytes → Node → List Target
  targets_at suffix path name missing = []
  targets_at suffix path name (regular f) =
      if ends_with name suffix then (some path, f) ∷ [] else []
  targets_at suffix path name (special f) = []
  targets_at suffix path name unreadable = (some path, none) ∷ []
  targets_at suffix path name (directory es) = targets_in suffix path es

-- What is to be reported of a file.
abbrev pub reports_at : Dict → Target → List Report
reports_at d (name, none) = []
reports_at d (name, some buffers) = reports_of d name (words_of [] [] (joined buffers))

abbrev pub all_reports : Dict → List Target → List Report
all_reports d [] = []
all_reports d (t ∷ ts) = reports_at d t ++ all_reports d ts

-- A file cannot be opened, or something is reported of it.
abbrev pub has_error : Dict → Target → Bool
has_error d (name, none) = true
has_error d (name, some buffers) = ltb 0 (length (reports_at d (name, some buffers)))

abbrev pub any_error : Dict → List Target → Bool
any_error d [] = false
any_error d (t ∷ ts) = has_error d t || any_error d ts

-- what the files add to what was printed before
abbrev pub checked : Dict → List Target → Checked → Checked
checked d ts (printed, found) = (printed ++ all_reports d ts, found || any_error d ts)

or_assoc : (a b c : Bool) → ((a || b) || c) ≡ (a || (b || c))
or_assoc a b c = ground arith

or_false : (a : Bool) → (a || false) ≡ a
or_false a = ground arith

or_true : (a : Bool) → true ≡ (a || true)
or_true a = ground arith

abbrev both : List Report → Bool → Checked
both r b = (r, b)

module _ (d : Dict) where
  checked-nil : (s : Checked) → s ≡ checked d [] s
  checked-nil (p, f) = ap₂ both (sym (append-nil p)) (sym (or_false f))

  all_reports-append :
      (ts us : List Target) → all_reports d (ts ++ us) ≡ all_reports d ts ++ all_reports d us
  all_reports-append [] us = refl
  all_reports-append (t ∷ ts) us =
      ap (◌++◌ (reports_at d t)) (all_reports-append ts us)
      ∙ sym (append_assoc (reports_at d t) _ _)

  any_error-append :
      (ts us : List Target) → any_error d (ts ++ us) ≡ (any_error d ts || any_error d us)
  any_error-append [] us = refl
  any_error-append (t ∷ ts) us =
      ap (λ (b : Bool). has_error d t || b) (any_error-append ts us)
      ∙ sym (or_assoc (has_error d t) _ _)

  -- one list of files behind another
  checked-append :
      (ts us : List Target) (s : Checked) → checked d us (checked d ts s) ≡ checked d (ts ++ us) s
  checked-append ts us (p, f) =
      ap₂ both (append_assoc p _ _ ∙ ap (◌++◌ p) (sym (all_reports-append ts us)))
        (or_assoc f _ _ ∙ ap (λ (b : Bool). f || b) (sym (any_error-append ts us)))

  -- `check_file` on a name that is printed or not
  check_path-checked :
      (path : Bytes) (named : Bool) (file : File) (s : Checked)
      → check_path d path named file s
        ≡ checked d ((if named then some path else none, file) ∷ []) s
  check_path-checked path named none (p, f) = unfold check_file in ap (both (p ++ [])) (or_true f)
  check_path-checked path named (some buffers) (p, f) =
      rw (check_file_lem d (if named then some path else none) buffers f)
        (ap₂ both (ap (◌++◌ p) (sym (append-nil _))) (ap (λ (b : Bool). f || b) (sym (or_false _))))

  unreadable-checked :
      (path : Bytes) (s : Checked) → both s.0 true ≡ checked d ((some path, none) ∷ []) s
  unreadable-checked path (p, f) = ap₂ both (sym (append-nil p)) (or_true f)

  module _ (suffix : Bytes) where
    mutual
      unfolding process_entries targets_in

      -- `process_directory` checks the files that `targets_in` lists.
      pub process_entries-checked :
          (dirname : Bytes) (es : Entries) (s : Checked)
          → process_entries d suffix dirname es s ≡ checked d (targets_in suffix dirname es) s
      process_entries-checked dirname end s = checked-nil s
      process_entries-checked dirname (entry name node es) s = elim (Bool-cases (is_hidden name)) [
        | inl h ↦ rw h (process_entries-checked dirname es s)
        | inr h ↦ rw h (
            ap (process_entries d suffix dirname es)
              (process_node-checked (join_path dirname name) name node s)
            ∙ process_entries-checked dirname es _
            ∙ checked-append (targets_at suffix (join_path dirname name) name node) _ s)
      ]

      process_node-checked :
          (path name : Bytes) (node : Node) (s : Checked)
          → process_node d suffix path name node s ≡ checked d (targets_at suffix path name node) s
      process_node-checked path name missing s = checked-nil s
      process_node-checked path name (regular f) s = elim (Bool-cases (ends_with name suffix)) [
        | inl e ↦ rw e (check_path-checked path true f s)
        | inr e ↦ rw e (checked-nil s)
      ]
      process_node-checked path name (special f) s = checked-nil s
      process_node-checked path name unreadable s = unreadable-checked path s
      process_node-checked path name (directory es) s = process_entries-checked path es s

    -- The files of an argument of `main`; a path at which nothing stands counts as unreadable.
    abbrev pub argument_targets : Bool → Bytes → Node → List Target
    argument_targets many path missing = (some path, none) ∷ []
    argument_targets many path (regular f) = (if many then some path else none, f) ∷ []
    argument_targets many path (special f) = (if many then some path else none, f) ∷ []
    argument_targets many path unreadable = (some path, none) ∷ []
    argument_targets many path (directory es) = targets_in suffix path es

    process_argument-checked :
        (many : Bool) (path : Bytes) (node : Node) (s : Checked)
        → process_argument d suffix many path node s ≡ checked d (argument_targets many path node) s
    unfolding process_argument
    process_argument-checked many path missing s = unreadable-checked path s
    process_argument-checked many path (regular f) s = check_path-checked path many f s
    process_argument-checked many path (special f) s = check_path-checked path many f s
    process_argument-checked many path unreadable s = unreadable-checked path s
    process_argument-checked many path (directory es) s = process_entries-checked path es s

    module _ (stat : Bytes → Node) (open_file : Bytes → File) where
      abbrev pub all_targets : Bool → List Bytes → List Target
      all_targets many [] = []
      all_targets many (a ∷ as') = argument_targets many a (stat a) ++ all_targets many as'

      pub process_arguments-checked :
          (many : Bool) (files : List Bytes) (s : Checked)
          → process_arguments stat open_file d suffix many files s
            ≡ checked d (all_targets many files) s
      unfolding process_arguments
      process_arguments-checked many [] s = checked-nil s
      process_arguments-checked many (a ∷ as') s =
          ap (process_arguments stat open_file d suffix many as')
            (process_argument-checked many a (stat a) s)
          ∙ process_arguments-checked many as' _
          ∙ checked-append (argument_targets many a (stat a)) _ s

main_with_lem :
    (stat : Bytes → Node) (open_file : Bytes → File) (suffix dict : Bytes) (buffers : List Bytes)
    → open_file dict ≡ some buffers
    → (file : Bytes) (files : List Bytes)
    → let d = load_dictionary buffers in
      main_with stat open_file suffix (dict ∷ file ∷ files)
      ≡ checked d
          (all_targets d suffix stat open_file (ltb 1 (length (file ∷ files))) (file ∷ files))
          ([], false)
unfolding main_with check_all
main_with_lem stat open_file suffix dict buffers e file files =
    ap
      (λ (o : Option (List Bytes)). elim o as (λ _. Checked) [
        | none ↦ ([], true)
        | some bs ↦ check_all stat open_file (load_dictionary bs) suffix (file ∷ files)
      ])
      e
    ∙ process_arguments-checked (load_dictionary buffers) suffix stat open_file
        (ltb 1 (length (file ∷ files))) (file ∷ files) ([], false)

-- With a suffix, a dictionary that can be opened and the paths of files and directories, the
-- program reports the misspelt words of the files, those of a directory being the ones below it
-- with the suffix and no hidden name on the way, all in order; and it fails exactly where something
-- is reported or a file, directory or path cannot be opened.
pub main_lem :
    (stat : Bytes → Node) (open_file : Bytes → File) (suffix dict : Bytes) (buffers : List Bytes)
    → (file : Bytes) (files : List Bytes) → open_file dict ≡ some buffers
    → let d = load_dictionary buffers in
      let ts = all_targets d suffix stat open_file (ltb 1 (length (file ∷ files))) (file ∷ files) in
      main stat open_file (codes "-s" ∷ suffix ∷ dict ∷ file ∷ files)
      ≡ (all_reports d ts, any_error d ts)
unfolding main str_eq
main_lem stat open_file suffix dict buffers file files e =
    main_with_lem stat open_file suffix dict buffers e file files
