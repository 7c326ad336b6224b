-- ===== src/Spell/Load.antt =====
-- `load_dictionary` of P2/src/spell.c: what the buffers of the file add to the dictionary.
use cs214_assignments.Base.{
  ℕ, zero, suc, ◌<◌, List, [], ◌∷◌, ◌++◌, ◌≡◌, refl, sym, ◌∙◌, arith, ltb, ◌==◌, if◌then◌else◌,
  Bool-cases, inl, inr, length, take,
}
use cs214_assignments.Base.Bytes.{Bytes, c_str}
use cs214_assignments.Spell.{
  Loader, Dict, hash, hash_size, dict_create, dict_add, put_char, flush_word, load_byte,
  load_buffer, load_buffers, load_dictionary,
}
use cs214_assignments.Spell.Dictionary.{add_all}

-- Every word goes to one of the buckets that `dict_create` allocates.
pub hash-lt-hash_size : (s : Bytes) → hash s < hash_size
unfolding hash
hash-lt-hash_size s = omega arith

-- The file as one list of bytes.
abbrev pub joined : List Bytes → Bytes
joined [] = []
joined (b ∷ bs) = b ++ joined bs

-- The lines of a file, the last one too where no newline ends it, behind the bytes `acc` already
-- read of the first.
abbrev pub lines : Bytes → Bytes → List Bytes
lines acc [] = acc ∷ []
lines acc (c ∷ cs) =
    let next = acc ∷ lines [] cs in
    let more = lines (acc ++ c ∷ []) cs in if c == b'\n' then next else more

-- The word of a line: its first 255 bytes, up to a NUL; an empty line has none.
abbrev pub line_words : List Bytes → List Bytes
line_words [] = []
line_words ([] ∷ ls) = line_words ls
line_words ((c ∷ cs) ∷ ls) = c_str (take 255 (c ∷ cs)) ∷ line_words ls

take-concat :
    (n : ℕ) (xs : Bytes) (c : ℕ)
    → take n (xs ++ c ∷ [])
      ≡ (if ltb (length (take n xs)) n then take n xs ++ c ∷ [] else take n xs)
take-concat zero xs c = refl
take-concat (suc zero) [] c = ground arith
take-concat (suc (suc n)) [] c = ground arith
take-concat (suc n) (x ∷ xs) c = rw (take-concat n xs c) (ground arith)

load_buffers-joined : (s : Loader) (bs : List Bytes) → load_buffers s bs ≡ load_buffer s (joined bs)
unfolding load_buffers load_buffer
load_buffers-joined s [] = refl
load_buffers-joined s (b ∷ bs) = load_buffers-joined (load_buffer s b) bs ∙ sym (two b s)
  where
    two :
        (b : Bytes) (s : Loader)
        → load_buffer s (b ++ joined bs) ≡ load_buffer (load_buffer s b) (joined bs)
    two [] s = refl
    two (c ∷ cs) s = two cs (load_byte s c)

abbrev reading : Dict → Bytes → Loader
reading d acc = record { word = take 255 acc; dictionary = d }

-- the dictionary behind the line `acc`
flushed : Dict → Bytes → Dict
flushed d [] = d
flushed d (c ∷ cs) = dict_add d (c_str (take 255 (c ∷ cs)))

flush_word-reading :
    (d : Dict) (acc : Bytes) → flush_word (reading d acc) ≡ reading (flushed d acc) []
unfolding flush_word flushed
flush_word-reading d [] = refl
flush_word-reading d (c ∷ cs) = ground arith

add_all-flushed :
    (d : Dict) (acc : Bytes) (ls : List Bytes)
    → add_all (flushed d acc) (line_words ls) ≡ add_all d (line_words (acc ∷ ls))
unfolding flushed
add_all-flushed d [] ls = refl
add_all-flushed d (c ∷ cs) ls = refl

pub put_char-take : (acc : Bytes) (c : ℕ) → put_char (take 255 acc) c ≡ take 255 (acc ++ c ∷ [])
put_char-take acc c = sym (take-concat 255 acc c)

load_buffer-lines :
    (cs : Bytes) (d : Dict) (acc : Bytes)
    → (flush_word (load_buffer (reading d acc) cs)).dictionary
      ≡ add_all d (line_words (lines acc cs))
unfolding load_buffer load_byte
load_buffer-lines [] d acc = rw (flush_word-reading d acc) (add_all-flushed d acc [])
load_buffer-lines (c ∷ cs) d acc = elim (Bool-cases (c == b'\n')) [
  | inl e ↦
      rw (e, flush_word-reading d acc)
        (load_buffer-lines cs (flushed d acc) [] ∙ add_all-flushed d acc (lines [] cs))
  | inr e ↦ rw (e, put_char-take acc c) (load_buffer-lines cs d (acc ++ c ∷ []))
]

-- The dictionary is the same however `read` cuts the file: each non-empty line adds one word, its
-- first 255 bytes up to a NUL.
pub load_dictionary_lem :
    (bs : List Bytes) → load_dictionary bs ≡ add_all dict_create (line_words (lines [] (joined bs)))
unfolding load_dictionary
load_dictionary_lem bs =
    rw (load_dictionary, load_buffers-joined (reading dict_create []) bs)
      (load_buffer-lines (joined bs) dict_create [])
