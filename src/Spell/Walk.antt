-- ===== src/Spell/Walk.antt =====
-- `process_directory` and `main` of P2/src/spell.c. The file system is a tree: what `stat` finds at a
-- path, and in a directory the entries in the order of `readdir`. Paths stay below the 1024 bytes
-- of their buffer, and links make no cycle.
pub mod Targets
pub mod Selected
use cs214_assignments.Base.{
  ℕ, ◌+◌, Bool, true, false, not, ◌&&◌, ◌||◌, List, [], ◌∷◌, ◌++◌, Option, none, some, ltb, ◌==◌,
  if◌then◌else◌, length,
}
use cs214_assignments.Base.Bytes.{Bytes, codes, str_eq}
use cs214_assignments.Spell.{Dict, ends_with, load_dictionary}
use cs214_assignments.Spell.Scan.{Report, Checked, check_file}

-- what `open` and `read` give: `none` where the file cannot be opened
abbrev pub File : Type 0
File = Option (List Bytes)

mutual
  -- what stands at a path
  pub data Node : Type 0 where
    missing : Node
    regular : File → Node
    special : File → Node
    unreadable : Node
    directory : Entries → Node

  pub data Entries : Type 0 where
    end : Entries
    entry : Bytes → Node → Entries → Entries

-- `d_name[0] == '.'`
abbrev pub is_hidden : Bytes → Bool
is_hidden [] = false
is_hidden (c ∷ cs) = c == b'.'

abbrev pub join_path : Bytes → Bytes → Bytes
join_path dirname name = dirname ++ (b'/' ∷ name)

-- a call of `check_file`, behind what was printed before
abbrev pub check_path : Dict → Bytes → Bool → File → Checked → Checked
check_path d path print_filename file (printed, error_found) =
    let (reports, found) =
      check_file d (if print_filename then some path else none) file error_found in
    (printed ++ reports, found)

module _ (d : Dict) (suffix : Bytes) where
  unfoldable mutual
    -- the loop of `process_directory`
    pub process_entries : Bytes → Entries → Checked → Checked
    process_entries dirname end s = s
    process_entries dirname (entry name node es) s =
        let behind = process_node (join_path dirname name) name node s in
        process_entries dirname es (if is_hidden name then s else behind)

    -- what the loop does with an entry, by its `stat`
    pub process_node : Bytes → Bytes → Node → Checked → Checked
    process_node path name missing s = s
    process_node path name (regular f) s =
        if ends_with name suffix then check_path d path true f s else s
    process_node path name (special f) s = s
    process_node path name unreadable (printed, error_found) = (printed, true)
    process_node path name (directory es) s = process_entries path es s

  -- the body of the loop of `main`
  unfoldable pub process_argument : Bool → Bytes → Node → Checked → Checked
  unfolding process_entries
  process_argument many path missing (printed, error_found) = (printed, true)
  process_argument many path (regular f) s = check_path d path many f s
  process_argument many path (special f) s = check_path d path many f s
  process_argument many path unreadable (printed, error_found) = (printed, true)
  process_argument many path (directory es) s = process_entries path es s

module _ (stat : Bytes → Node) (open_file : Bytes → File) where
  unfoldable pub process_arguments : Dict → Bytes → Bool → List Bytes → Checked → Checked
  process_arguments d suffix many [] s = s
  process_arguments d suffix many (a ∷ as') s =
      process_arguments d suffix many as' (process_argument d suffix many a (stat a) s)

  -- `main` behind `load_dictionary`, on the arguments that are left
  unfoldable pub check_all : Dict → Bytes → List Bytes → Checked
  check_all d suffix [] =
      check_path d (codes "/dev/stdin") false (open_file (codes "/dev/stdin")) ([], false)
  check_all d suffix (a ∷ as') =
      process_arguments d suffix (ltb 1 (length (a ∷ as'))) (a ∷ as') ([], false)

  -- `main` behind the option: what is printed to stdout, and whether it returns EXIT_FAILURE
  unfoldable pub main_with : Bytes → List Bytes → Checked
  main_with suffix [] = ([], true)
  main_with suffix (dict ∷ files) = elim (open_file dict) [
    | none ↦ ([], true)
    | some buffers ↦ check_all (load_dictionary buffers) suffix files
  ]

  -- the arguments behind the name of the program
  unfoldable pub main : List Bytes → Checked
  main [] = ([], true)
  main (a ∷ []) = if str_eq a (codes "-s") then ([], true) else main_with (codes ".txt") (a ∷ [])
  main (a ∷ b ∷ rest) =
      if str_eq a (codes "-s") then main_with b rest else main_with (codes ".txt") (a ∷ b ∷ rest)
