-- ===== src/Spell/Walk/Selected.antt =====
-- Which files of a directory `process_directory` of P2/src/spell.c selects.
use cs214_assignments.Base.{
  true, false, List, [], ◌∷◌, Option, none, some, ◌≡◌, sym, ap, subst, if◌then◌else◌, Bool-cases,
  inl, inr, ◌↔◌,
}
use mathlib.Core.List.{Memᴰ}
use mathlib.Core.List.Memᴰ
use cs214_assignments.Base.Bytes.{Bytes}
use cs214_assignments.Spell.{Dict, ends_with}
use cs214_assignments.Spell.Scan.{Checked}
use cs214_assignments.Spell.Walk.{
  Node, missing, regular, special, unreadable, directory, Entries, end, entry, is_hidden, join_path,
  process_entries,
}
use cs214_assignments.Spell.Walk.Targets.{
  Target, targets_in, targets_at, checked, process_entries-checked,
}

-- A readable file below a directory, at a path with no hidden name on the way from there and with
-- the suffix at the end of its own name.
pub data Selected (suffix : Bytes) : Bytes → Entries → Bytes → List Bytes → Type 0 where
  here :
      {dirname name path : Bytes} {es : Entries} {buffers : List Bytes}
      → is_hidden name ≡ false
      → ends_with name suffix ≡ true
      → path ≡ join_path dirname name
      → Selected suffix dirname (entry name (regular (some buffers)) es) path buffers
  below :
      {dirname name path : Bytes} {sub es : Entries} {buffers : List Bytes}
      → is_hidden name ≡ false
      → Selected suffix (join_path dirname name) sub path buffers
      → Selected suffix dirname (entry name (directory sub) es) path buffers
  next :
      {dirname name path : Bytes} {node : Node} {es : Entries} {buffers : List Bytes}
      → Selected suffix dirname es path buffers
      → Selected suffix dirname (entry name node es) path buffers

abbrev target : Bytes → List Bytes → Target
target path buffers = (some path, some buffers)

module _ (suffix : Bytes) where
  -- what is listed in front, where the entry is not hidden
  listed_first :
      (dirname name : Bytes) (node : Node) (es : Entries) (t : Target)
      → is_hidden name ≡ false
      → Memᴰ t (targets_at suffix (join_path dirname name) name node)
      → Memᴰ t (targets_in suffix dirname (entry name node es))
  unfolding targets_in
  listed_first dirname name node es t shown m =
      rw shown (Memᴰ.append_left (targets_in suffix dirname es) m)

  Selected-listed :
      {dirname path : Bytes} {es : Entries} {buffers : List Bytes}
      → Selected suffix dirname es path buffers
      → Memᴰ (target path buffers) (targets_in suffix dirname es)
  unfolding targets_in
  Selected-listed (here {dirname} {name} {path} {es} {buffers} shown ends p) =
      listed_first dirname name (regular (some buffers)) es _ shown
        (rw ends (Memᴰ.head (ap (λ (q : Bytes). target q buffers) p)))
  Selected-listed (below {dirname} {name} {path} {sub} {es} {buffers} shown s) =
      listed_first dirname name (directory sub) es _ shown (Selected-listed s)
  Selected-listed (next {dirname} {name} {path} {node} {es} {buffers} s) =
      Memᴰ.append_right
        (if is_hidden name then [] else targets_at suffix (join_path dirname name) name node)
        (Selected-listed s)

  -- the two parts of a target that is the only one
  same_target :
      (path path' : Bytes) (buffers : List Bytes) (f : Option (List Bytes))
      → Memᴰ (target path buffers) ((some path', f) ∷ [])
      → (path ≡ path') × (f ≡ some buffers)
  same_target path path' buffers f m = elim (Memᴰ.cases_cons m) [
    | inl e ↦ (cc, cc)
    | inr n ↦ absurd (Memᴰ.not-nil n)
  ]

  mutual
    unfolding targets_in

    listed-Selected :
        (es : Entries) (dirname path : Bytes) (buffers : List Bytes)
        → Memᴰ (target path buffers) (targets_in suffix dirname es)
        → Selected suffix dirname es path buffers
    listed-Selected end dirname path buffers m = absurd (Memᴰ.not-nil m)
    listed-Selected (entry name node es) dirname path buffers m =
        elim (Memᴰ.append_cases
          (if is_hidden name then [] else targets_at suffix (join_path dirname name) name node) m) [
            | inr later ↦ next (listed-Selected es dirname path buffers later)
            | inl now ↦ elim (Bool-cases (is_hidden name)) [
              | inl hidden ↦ absurd (Memᴰ.not-nil (rw hidden at now))
              | inr shown ↦
                  listed_node-Selected node es dirname name path buffers shown (rw shown at now)
            ]
          ]

    listed_node-Selected :
        (node : Node) (es : Entries) (dirname name path : Bytes) (buffers : List Bytes)
        → is_hidden name ≡ false
        → Memᴰ (target path buffers) (targets_at suffix (join_path dirname name) name node)
        → Selected suffix dirname (entry name node es) path buffers
    listed_node-Selected missing es dirname name path buffers shown m = absurd (Memᴰ.not-nil m)
    listed_node-Selected (regular f) es dirname name path buffers shown m =
        elim (Bool-cases (ends_with name suffix)) [
          | inr other ↦ absurd (Memᴰ.not-nil (rw other at m))
          | inl ends ↦
              let (p, e) = same_target path (join_path dirname name) buffers f (rw ends at m) in
              subst
                (λ (g : Option (List Bytes)).
                  Selected suffix dirname (entry name (regular g) es) path buffers)
                (sym e) (here shown ends p)
        ]
    listed_node-Selected (special f) es dirname name path buffers shown m = absurd (Memᴰ.not-nil m)
    listed_node-Selected unreadable es dirname name path buffers shown m =
        absurd (let (p, e) = same_target path (join_path dirname name) buffers none m in cc)
    listed_node-Selected (directory sub) es dirname name path buffers shown m =
        below shown (listed-Selected sub (join_path dirname name) path buffers m)

  -- `process_directory` checks a list of files, and a readable file is among them exactly where no
  -- name on the way to it from the directory is hidden and its own name ends with the suffix.
  pub process_entries_lem :
      (d : Dict) (dirname : Bytes) (es : Entries) (s : Checked)
      → (ts : List Target) × (process_entries d suffix dirname es s ≡ checked d ts s)
        × ((path : Bytes) (buffers : List Bytes)
            → Memᴰ (some path, some buffers) ts ↔ Selected suffix dirname es path buffers)
  process_entries_lem d dirname es s = (
    targets_in suffix dirname es,
    process_entries-checked d suffix dirname es s,
    λ path buffers. (listed-Selected es dirname path buffers, Selected-listed),
  )
