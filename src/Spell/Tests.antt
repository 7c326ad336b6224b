-- ===== src/Spell/Tests.antt =====
-- Runs of P2/src/spell.c, and its theorems at concrete words and files.
use cs214_assignments.Base.{
  if◌then◌else◌, true, false, not, ◌&&◌, ◌||◌, List, [], ◌∷◌, ◌++◌, none, some, ◌≡◌, refl, ltb,
  length, ◌↔◌,
}
use cs214_assignments.Base.Bytes.{Bytes, codes, str_eq}
use cs214_assignments.Spell.{
  Dict, hash, hash_from, char_value, dict_create, to_lower, dict_lookup, load_dictionary,
  normalize_word, skip_opening, trim_end, is_opening, ends_with,
}
use cs214_assignments.Spell.Dictionary.{add_all, listed, listed_capital, dict_lookup_lem}
use cs214_assignments.Spell.Load.{joined, lines, line_words, load_dictionary_lem}
use cs214_assignments.Spell.Words.{Normalized, normalize_word-Normalized, ends_with_iff}
use mathlib.Core.List.{Memᴰ}
use cs214_assignments.Spell.Scan.{check_file}
use cs214_assignments.Spell.Walk.{
  File, Node, missing, regular, directory, Entries, end, entry, process_entries, main,
}
use cs214_assignments.Spell.Walk.Targets.{
  Target, targets_in, checked, all_reports, any_error, all_targets, main_lem,
}
use cs214_assignments.Spell.Walk.Selected.{Selected, process_entries_lem}
use cs214_assignments.Spell.Scan.Positions.{check_file_lem}
use cs214_assignments.Spell.Scan.Text.{words_of, reports_of}

abbrev vocabulary : List Bytes
vocabulary = codes "it" ∷ codes "foo" ∷ codes "Foo" ∷ []

-- the hash of `it`
hash_it : hash (codes "it") ≡ 13490
unfolding hash hash_from char_value
hash_it = refl

-- a lower-case word matches any capitalization
capital_accepted : dict_lookup (add_all dict_create vocabulary) (codes "It") ≡ true
unfolding listed listed_capital to_lower str_eq
capital_accepted = dict_lookup_lem vocabulary (codes "It")

-- but not where the word is listed with a capital as well
lower_rejected : dict_lookup (add_all dict_create vocabulary) (codes "foo") ≡ false
unfolding listed listed_capital to_lower str_eq
lower_rejected = dict_lookup_lem vocabulary (codes "foo")

-- the punctuation around a word
stripped : normalize_word (codes "(it's!)") ≡ codes "it's"
unfolding normalize_word skip_opening trim_end is_opening
stripped = refl

dict_lookup_lem_example :
    dict_lookup (add_all dict_create vocabulary) (codes "foo")
    ≡ (listed (codes "foo") vocabulary && (not (listed_capital (codes "foo") vocabulary) || false))
dict_lookup_lem_example = dict_lookup_lem vocabulary (codes "foo")

abbrev dictionary_file : List Bytes
dictionary_file = codes "it\nfo" ∷ codes "o\n\nFoo" ∷ []

load_dictionary_lem_example :
    load_dictionary dictionary_file
    ≡ add_all dict_create (line_words (lines [] (codes "it\nfoo\n\nFoo")))
load_dictionary_lem_example = load_dictionary_lem dictionary_file

-- the words of that file
words_read : line_words (lines [] (joined dictionary_file)) ≡ vocabulary
words_read = refl

normalize_word-Normalized_example : Normalized (codes "(it's!)") (normalize_word (codes "(it's!)"))
normalize_word-Normalized_example = normalize_word-Normalized (codes "(it's!)")

ends_with_iff_example :
    (ends_with (codes "essay.txt") (codes ".txt") ≡ true)
    ↔ ((front : Bytes) × (codes "essay.txt" ≡ front ++ codes ".txt"))
ends_with_iff_example = ends_with_iff (codes "essay.txt") (codes ".txt")

abbrev essay : List Bytes
essay = codes "it is\n(fo" ∷ codes "o) it" ∷ []

-- the words of the text, each with the text in front of it
essay_words :
    words_of [] [] (joined essay)
    ≡ (codes "", codes "it")
      ∷ (codes "it ", codes "is")
      ∷ (codes "it is\n", codes "(foo)")
      ∷ (codes "it is\n(foo) ", codes "it")
      ∷ []
essay_words = refl

check_file_lem_example : check_file (add_all dict_create vocabulary) none (some essay) false ≡ (
  reports_of (add_all dict_create vocabulary) none (words_of [] [] (joined essay)),
  false
      || ltb 0 (
          length
            (reports_of (add_all dict_create vocabulary) none (words_of [] [] (joined essay)))),
)
check_file_lem_example = check_file_lem (add_all dict_create vocabulary) none essay false

-- A directory with a text, a picture, a hidden text and a subdirectory with a text.
abbrev tree : Entries
tree = entry (codes "a.txt") (regular (some essay)) (
    entry (codes "b.png") (regular (some [])) (
      entry (codes ".c.txt") (regular (some []))
        (entry (codes "d") (directory (entry (codes "e.txt") (regular none) end)) end)))

tree_targets :
    targets_in (codes ".txt") (codes "t") tree
    ≡ (some (codes "t/a.txt"), some essay) ∷ (some (codes "t/d/e.txt"), none) ∷ []
unfolding targets_in ends_with str_eq
tree_targets = refl

abbrev no_words : Dict
no_words = add_all dict_create []

process_entries_lem_example :
    (ts : List Target) × (process_entries no_words (codes ".txt") (codes "t") tree ([], false)
      ≡ checked no_words ts ([], false))
    × ((path : Bytes) (buffers : List Bytes)
        → Memᴰ (some path, some buffers) ts ↔ Selected (codes ".txt") (codes "t") tree path buffers)
process_entries_lem_example =
    process_entries_lem (codes ".txt") no_words (codes "t") tree ([], false)

-- a file system with that directory, and a dictionary
abbrev stat : Bytes → Node
stat path = if str_eq path (codes "t") then directory tree else missing

abbrev open_file : Bytes → File
open_file path = some dictionary_file

main_lem_example :
    main stat open_file (codes "-s" ∷ codes ".txt" ∷ codes "words" ∷ codes "t" ∷ []) ≡ (
      all_reports (load_dictionary dictionary_file) (
          all_targets
            (load_dictionary dictionary_file)
            (codes ".txt")
            stat
            open_file
            false
            (codes "t" ∷ [])),
      any_error (load_dictionary dictionary_file) (
          all_targets
            (load_dictionary dictionary_file)
            (codes ".txt")
            stat
            open_file
            false
            (codes "t" ∷ [])),
    )
main_lem_example =
    main_lem stat open_file (codes ".txt") (codes "words") dictionary_file (codes "t") [] refl
