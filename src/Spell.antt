-- ===== src/Spell.antt =====
-- P2/src/spell.c: the dictionary (a chained hash table), the treatment of words, and the scan of a
-- file. A `char*` is the list of its bytes in front of the terminating NUL; the character classes
-- are those of the C locale, where no byte from 128 on is a letter, a digit or a space.
pub mod Dictionary
pub mod Load
pub mod Words
pub mod Scan
pub mod Walk
mod Tests
use cs214_assignments.Base.{
  ℕ, zero, suc, ◌+◌, ◌-◌, ◌*◌, ◌%◌, ◌^◌, Bool, true, false, not, ◌&&◌, ◌||◌, List, [], ◌∷◌, ◌++◌,
  map, Option, none, some, ltb, leb, ◌==◌, if◌then◌else◌, length, get_or, take, drop,
}
use cs214_assignments.Base.Bytes.{
  Bytes, str_eq, is_upper, is_alpha, is_alnum, is_space, to_lower_char, c_str,
}

abbrev pub hash_size : ℕ
hash_size = 50000

abbrev pub max_word_len : ℕ
max_word_len = 256

pub record Entry : Type 0 where
  pub word : Bytes
  pub has_capital : Bool

-- the buckets, each a chain
abbrev pub Dict : Type 0
Dict = ℕ → List Entry

-- `*str++` as an int, added to an unsigned int: a byte from 128 on is negative
unfoldable pub char_value : ℕ → ℕ
char_value c = if ltb c 128 then c else c + 2 ^ 32 - 256

unfoldable pub hash_from : ℕ → Bytes → ℕ
unfolding char_value
hash_from h [] = h
hash_from h (c ∷ cs) = hash_from ((h * 32 + h + char_value c) % 2 ^ 32) cs

unfoldable pub hash : Bytes → ℕ
unfolding hash_from
hash s = hash_from 5381 s % hash_size

pub dict_create : Dict
dict_create h = []

unfoldable pub to_lower : Bytes → Bytes
to_lower [] = []
to_lower (c ∷ cs) = to_lower_char c ∷ to_lower cs

-- `isupper(word[0])`
abbrev pub starts_upper : Bytes → Bool
starts_upper [] = false
starts_upper (c ∷ cs) = is_upper c

-- the loop of `dict_add` over a chain; `none` where the word is not in it
pub update_entry : Bytes → Bool → List Entry → Option (List Entry)
update_entry lower capital [] = none
update_entry lower capital (e ∷ es) =
    let rest = update_entry lower capital es in
    if str_eq e.word lower
    then some ((if capital then record e { has_capital = true } else e) ∷ es)
    else elim rest [ none ↦ none | some es' ↦ some (e ∷ es') ]

abbrev set_bucket : Dict → ℕ → List Entry → Dict
set_bucket d h es k = if h == k then es else d k

pub dict_add : Dict → Bytes → Dict
dict_add d word =
    let lower = to_lower word in
    let h = hash lower in
    let entry : Entry = record { word = lower; has_capital = starts_upper word } in
    elim (update_entry lower (starts_upper word) (d h)) [
      | some es ↦ set_bucket d h es
      | none ↦ set_bucket d h (entry ∷ d h)
    ]

-- the loop of `dict_lookup` over a chain
pub lookup_entry : Bytes → Bool → List Entry → Bool
lookup_entry lower capital [] = false
lookup_entry lower capital (e ∷ es) =
    let rest = lookup_entry lower capital es in
    if str_eq e.word lower then if e.has_capital then capital else true else rest

pub dict_lookup : Dict → Bytes → Bool
dict_lookup d word =
    let lower = to_lower word in lookup_entry lower (starts_upper word) (d (hash lower))

-- The variables of `load_dictionary`: the word being read and the dictionary.
pub record Loader : Type 0 where
  pub word : Bytes
  pub dictionary : Dict

-- `word[word_len++] = c` while there is room for the NUL
abbrev pub put_char : Bytes → ℕ → Bytes
put_char word c = if ltb (length word) (max_word_len - 1) then word ++ c ∷ [] else word

-- what happens at a newline and at the end of the file
pub flush_word : Loader → Loader
flush_word s =
    if ltb 0 (length s.word)
    then record { word = []; dictionary = dict_add s.dictionary (c_str s.word) }
    else s

pub load_byte : Loader → ℕ → Loader
load_byte s c = if c == b'\n' then flush_word s else record s { word = put_char s.word c }

-- one filled buffer
pub load_buffer : Loader → Bytes → Loader
load_buffer s [] = s
load_buffer s (c ∷ cs) = load_buffer (load_byte s c) cs

load_buffers : Loader → List Bytes → Loader
load_buffers s [] = s
load_buffers s (b ∷ bs) = load_buffers (load_buffer s b) bs

-- `load_dictionary` on what the calls of `read` return
pub load_dictionary : List Bytes → Dict
unfolding load_buffers
load_dictionary buffers =
    (flush_word (load_buffers (record { word = []; dictionary = dict_create }) buffers)).dictionary

has_letter : Bytes → Bool
has_letter [] = false
has_letter (c ∷ cs) = is_alpha c || has_letter cs

pub should_skip_word : Bytes → Bool
unfolding has_letter
should_skip_word word = not (has_letter word)

-- ( [ { ' "
unfoldable pub is_opening : ℕ → Bool
is_opening c = c == b'(' || c == b'[' || c == b'{' || c == 39 || c == 34

-- the first loop of `normalize_word`: how far `start` goes
unfoldable pub skip_opening : Bytes → ℕ
skip_opening [] = 0
skip_opening (c ∷ cs) = let rest = suc (skip_opening cs) in if is_opening c then rest else 0

-- the second loop, by `end + 1`, so that it starts from the length
unfoldable pub trim_end : Bytes → ℕ → ℕ → ℕ
trim_end src start zero = 0
trim_end src start (suc end) =
    let rest = trim_end src start end in
    if leb start end && not (is_alnum (get_or src end 0)) then rest else suc end

unfoldable pub normalize_word : Bytes → Bytes
unfolding skip_opening trim_end is_opening
normalize_word src =
    let start = skip_opening src in take (trim_end src start (length src) - start) (drop start src)

unfoldable pub ends_with : Bytes → Bytes → Bool
ends_with str suffix =
    if ltb (length str) (length suffix)
    then false
    else str_eq (drop (length str - length suffix) str) suffix
