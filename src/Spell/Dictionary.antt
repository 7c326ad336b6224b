-- ===== src/Spell/Dictionary.antt =====
-- The hash table of P2/src/spell.c as a map from lower-case words to their capital flag.
use cs214_assignments.Base.{
  Bool, false, not, ◌&&◌, ◌||◌, List, [], ◌∷◌, Option, none, some, ◌≡◌, refl, sym, ap, ◌∙◌, arith,
  ◌==◌, if◌then◌else◌, Bool-cases, Option-cases, ==_iff, inl, inr,
}
use cs214_assignments.Base.Bytes.{Bytes, str_eq, str_eq_iff}
use mathlib.Core.Bool.{false≢true}
use cs214_assignments.Spell.{
  set_bucket, Entry, Dict, hash, dict_create, to_lower, starts_upper, update_entry, dict_add,
  lookup_entry, dict_lookup,
}

-- the flag of a lower-case word in a chain
abbrev flag_in : Bytes → List Entry → Option Bool
flag_in l [] = none
flag_in l (e ∷ es) = let rest = flag_in l es in if str_eq e.word l then some e.has_capital else rest

abbrev flag_of : Dict → Bytes → Option Bool
flag_of d l = flag_in l (d (hash l))

abbrev accepts_flag : Option Bool → Bool → Bool
accepts_flag none capital = false
accepts_flag (some needed) capital = not needed || capital

abbrev raised : Bool → Option Bool → Option Bool
raised capital none = some capital
raised capital (some old) = some (capital || old)

lookup_entry-flag_in :
    (l : Bytes) (capital : Bool) (es : List Entry)
    → lookup_entry l capital es ≡ accepts_flag (flag_in l es) capital
unfolding lookup_entry
lookup_entry-flag_in l capital [] = refl
lookup_entry-flag_in l capital (e ∷ es) = ground (arith, lookup_entry-flag_in l capital es)

update_entry-none :
    (l : Bytes) (capital : Bool) (es : List Entry)
    → update_entry l capital es ≡ none
    → flag_in l es ≡ none
unfolding update_entry
update_entry-none l capital [] h = refl
update_entry-none l capital (e ∷ es) h = elim (Bool-cases (str_eq e.word l)) [
  | inl same ↦ cc (rw same at h)
  | inr other ↦ elim (Option-cases (update_entry l capital es)) [
    | inl stop ↦ rw other (update_entry-none l capital es stop)
    | inr (fs, found) ↦ absurd (ground arith)
  ]
]

-- What the loop over a chain leaves, for every word `k`.
update_entry-some :
    (l k : Bytes) (capital : Bool) (es fs : List Entry)
    → update_entry l capital es ≡ some fs
    → flag_in k fs ≡ (if str_eq l k then raised capital (flag_in l es) else flag_in k es)
unfolding update_entry
update_entry-some l k capital [] fs h = cc
update_entry-some l k capital (e ∷ es) fs h = elim (Bool-cases (str_eq e.word l)) [
  | inl same ↦ ground (arith, str_eq_iff e.word l)
  | inr other ↦ elim (Option-cases (update_entry l capital es)) [
    | inl stop ↦ absurd (ground arith)
    | inr (gs, found) ↦ ground (
      arith,
      str_eq_iff e.word l,
      str_eq_iff l k,
      str_eq_iff e.word k,
      update_entry-some l k capital es gs found,
    )
  ]
]

-- Writing the chain of the word `l` is seen by every word with its hash.
flag_of-set_bucket :
    (d : Dict) (l k : Bytes) (es : List Entry) (f : Option Bool)
    → ((j : Bytes) → flag_in j es ≡ (if str_eq l j then f else flag_in j (d (hash l))))
    → flag_of (set_bucket d (hash l) es) k ≡ (if str_eq l k then f else flag_of d k)
flag_of-set_bucket d l k es f at_l = elim (Bool-cases (hash l == hash k)) [
  | inl same ↦ let e : hash l ≡ hash k = (==_iff _ _).0 same in rw same (at_l k ∙ rw e refl)
  | inr other ↦ elim (Bool-cases (str_eq l k)) [
    | inl eq ↦ absurd (false≢true (sym other ∙ (==_iff _ _).1 (ap hash ((str_eq_iff l k).0 eq))))
    | inr ne ↦ rw (other, ne) refl
  ]
]

-- `dict_add` changes the flag of one lower-case word: it is set once a word of that spelling
-- begins with a capital, and is never cleared.
pub flag_of-dict_add :
    (d : Dict) (w k : Bytes)
    → flag_of (dict_add d w) k ≡ (
        if str_eq (to_lower w) k
        then raised (starts_upper w) (flag_of d (to_lower w))
        else flag_of d k)
unfolding dict_add
flag_of-dict_add d w k =
    let l = to_lower w in
    let c = starts_upper w in
    elim (Option-cases (update_entry l c (d (hash l)))) [
      | inl stop ↦
          rw (stop, dict_add)
            (flag_of-set_bucket d l k _ _ (λ j. rw (update_entry-none l c _ stop) refl))
      | inr (fs, found) ↦
          rw (found, dict_add)
            (flag_of-set_bucket d l k fs _ (λ j. update_entry-some l j c _ fs found))
    ]

-- Some word of the list has the letters of `w`, whatever their case.
unfoldable pub listed : Bytes → List Bytes → Bool
listed w [] = false
listed w (v ∷ vs) = str_eq (to_lower v) (to_lower w) || listed w vs

-- Some word of the list has the letters of `w` and begins with a capital.
unfoldable pub listed_capital : Bytes → List Bytes → Bool
listed_capital w [] = false
listed_capital w (v ∷ vs) =
    str_eq (to_lower v) (to_lower w) && starts_upper v || listed_capital w vs

abbrev pub add_all : Dict → List Bytes → Dict
add_all d [] = d
add_all d (v ∷ vs) = add_all (dict_add d v) vs

abbrev flag_listed : Option Bool → Bool → Bool → Option Bool
flag_listed none l c = if l then some c else none
flag_listed (some old) l c = some (old || c)

flag_of-add_all :
    (d : Dict) (vs : List Bytes) (w : Bytes)
    → flag_of (add_all d vs) (to_lower w)
      ≡ flag_listed (flag_of d (to_lower w)) (listed w vs) (listed_capital w vs)
unfolding listed listed_capital
flag_of-add_all d [] w = ground arith
flag_of-add_all d (v ∷ vs) w =
    rw (flag_of-add_all (dict_add d v) vs w, flag_of-dict_add d v (to_lower w))
      (ground (arith, str_eq_iff (to_lower v) (to_lower w)))

-- After any list of words was added, `dict_lookup` accepts exactly the words whose letters are
-- listed, and where a listed spelling begins with a capital, only if they begin with one too.
pub dict_lookup_lem :
    (vs : List Bytes) (w : Bytes)
    → dict_lookup (add_all dict_create vs) w
      ≡ (listed w vs && (not (listed_capital w vs) || starts_upper w))
unfolding dict_lookup dict_create
dict_lookup_lem vs w =
    rw
      (
        lookup_entry-flag_in (to_lower w) (starts_upper w)
            (add_all dict_create vs (hash (to_lower w))),
        flag_of-add_all dict_create vs w,
      )
      (ground arith)
