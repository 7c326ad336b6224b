-- ===== src/Malloc.antt =====
-- P1/src/mymalloc.c: a first-fit allocator over a static heap of 4096 bytes.
-- An address inside the heap is its offset from `heap.bytes`; a pointer is a number, 0 for NULL,
-- and `base` is the address of `heap.bytes`. Headers stand at multiples of 8, so the memory is
-- read and written in 8-byte words, each at the offset of its first byte.
-- `w & ~1` is `w / 2 * 2`, `w & 1` is `w % 2`, and `|` of disjoint bits is a sum.
-- Sums and differences of `size_t` wrap at 2 ^ 64. `none` means that a loop ran out of fuel.
pub mod Chunks
pub mod Represent
pub mod Merge
pub mod Surgery
pub mod Allocate
pub mod Serve
pub mod Release
pub mod Layout
pub mod Overflow
pub mod Picks
pub mod History
pub mod Room
pub mod Payload
mod Tests
use cs214_assignments.Base.{
  ℕ, zero, suc, ◌+◌, ◌-◌, ◌*◌, ◌/◌, ◌%◌, ◌^◌, Bool, true, false, not, ◌&&◌, ◌||◌, List, [], ◌∷◌,
  Option, none, some, ltb, leb, ◌==◌, if◌then◌else◌, ◌>>=◌,
}
use cs214_assignments.Base.Bytes.{Bytes}

abbrev pub mem_length : ℕ
mem_length = 4096

abbrev pub header_size : ℕ
header_size = 8

abbrev pub min_chunk_size : ℕ
min_chunk_size = 16

-- A step of each loop passes a header, or removes one.
abbrev pub loop_fuel : ℕ
loop_fuel = 512

abbrev pub Mem : Type 0
Mem = ℕ → ℕ

pub store : Mem → ℕ → ℕ → Mem
store m a v b = if a == b then v else m b

abbrev pub add_size : ℕ → ℕ → ℕ
add_size a b = (a + b) % 2 ^ 64

abbrev pub sub_size : ℕ → ℕ → ℕ
sub_size a b = (a + 2 ^ 64 - b) % 2 ^ 64

-- `w & ~1`
abbrev pub size_bits : ℕ → ℕ
size_bits w = w / 2 * 2

-- `w & 1`
abbrev pub is_used : ℕ → Bool
is_used w = w % 2 == 1

pub record Heap : Type 0 where
  pub bytes : Mem
  pub initialized : Bool
  -- `check_leaks` is registered with atexit
  pub checked_at_exit : Bool

-- the caller's `__FILE__` and `__LINE__`
pub record Site : Type 0 where
  pub file : Bytes
  pub line : ℕ

-- what is printed to stderr
pub data Message : Type 0 where
  unable_to_allocate : ℕ → Site → Message
  inappropriate_pointer : Site → Message
  leaked : ℕ → ℕ → Message

unfoldable pub init_heap : Heap → Heap
init_heap h = record {
  bytes = store h.bytes 0 (size_bits (mem_length - header_size));
  initialized = true;
  checked_at_exit = true;
}

-- the loop of `find_free` from `curr` on
pub find_free_from : ℕ → Mem → ℕ → ℕ → Option (Option ℕ)
find_free_from zero m size curr = none
find_free_from (suc fuel) m size curr =
    let chunk_size = size_bits (m curr) in
    let next = curr + header_size + chunk_size in
    let rest = find_free_from fuel m size next in
    if ltb curr mem_length
    then if chunk_size == 0 || ltb mem_length next
      then some none
      else if not (is_used (m curr)) && leb size chunk_size
      then some (some curr)
      else rest
    else some none

pub find_free : Mem → ℕ → Option (Option ℕ)
find_free m size = find_free_from loop_fuel m size 0

pub split_chunk : Mem → ℕ → ℕ → Mem
split_chunk m chunk size =
    let chunk_size = size_bits (m chunk) in
    let new_chunk = chunk + header_size + size in
    let remaining = sub_size (sub_size chunk_size size) header_size in
    let m' = store m new_chunk (size_bits remaining) in
    if leb (add_size size min_chunk_size) chunk_size
    then store m' chunk (size_bits size + m' chunk % 2)
    else m

-- the loop of `coalesce` from `curr` on
pub coalesce_from : ℕ → Mem → ℕ → Option Mem
coalesce_from zero m curr = none
coalesce_from (suc fuel) m curr =
    let chunk_size = size_bits (m curr) in
    let next = curr + header_size + chunk_size in
    let next_size = size_bits (m next) in
    let merged = add_size (add_size chunk_size header_size) next_size in
    let again = coalesce_from fuel (store m curr (size_bits merged)) curr in
    let advance = coalesce_from fuel m next in
    if ltb curr mem_length
    then if chunk_size == 0
      then some m
      else if not (is_used (m curr))
          && ltb next mem_length
          && ltb 0 next_size
          && not (is_used (m next))
      then again
      else advance
    else some m

pub coalesce : Mem → Option Mem
coalesce m = coalesce_from loop_fuel m 0

pub valid_ptr : ℕ → ℕ → Bool
valid_ptr base p = not (ltb p base || leb (base + mem_length) p) && p % 8 == 0

-- the loop of `check_leaks`: the number of objects, and of their bytes
pub leaks_from : ℕ → Mem → ℕ → ℕ × ℕ → Option (ℕ × ℕ)
leaks_from zero m curr acc = none
leaks_from (suc fuel) m curr (count, bytes) =
    let chunk_size = size_bits (m curr) in
    let acc' =
      if is_used (m curr) then (count + 1, add_size bytes chunk_size) else (count, bytes) in
    let rest = leaks_from fuel m (curr + header_size + chunk_size) acc' in
    if ltb curr mem_length
    then if chunk_size == 0 then some (count, bytes) else rest
    else some (count, bytes)

pub report_leaks : ℕ × ℕ → List Message
report_leaks (count, bytes) = if ltb 0 count then leaked bytes count ∷ [] else []

pub check_leaks : Heap → Option (List Message)
check_leaks h = do counted ← leaks_from loop_fuel h.bytes 0 (0, 0); some (report_leaks counted)

-- what a call of `mymalloc` returns, leaves behind and prints
pub record Malloced : Type 0 where
  pub pointer : ℕ
  pub heap : Heap
  pub printed : List Message

-- `(size + 7) & ~7`
pub round_up : ℕ → ℕ
round_up size = add_size size 7 / 8 * 8

-- `chunk->size_and_flag |= 1`
pub mark_used : Mem → ℕ → Mem
mark_used m chunk = store m chunk (size_bits (m chunk) + 1)

-- the end of `mymalloc`, with the chunk that was found
pub place : ℕ → Heap → ℕ → ℕ → Malloced
place base h aligned chunk = record {
  pointer = base + chunk + header_size;
  heap = record h { bytes = mark_used (split_chunk h.bytes chunk aligned) chunk };
  printed = [];
}

-- `mymalloc` behind the first search: merge free chunks and search again
pub retry : ℕ → Heap → ℕ → Site → Option Malloced
retry base h size site = do
  m ← coalesce h.bytes
  found ← find_free m (round_up size)
  let h' = record h { bytes = m }
  some (elim found [
    | some chunk ↦ place base h' (round_up size) chunk
    | none ↦ record { pointer = 0; heap = h'; printed = unable_to_allocate size site ∷ [] }
  ])

pub malloc_in : ℕ → Heap → ℕ → Site → Option Malloced
malloc_in base h size site =
    if size == 0 then some (record { pointer = 0; heap = h; printed = [] }) else do
      found ← find_free h.bytes (round_up size)
      elim found [
        | some chunk ↦ some (place base h (round_up size) chunk)
        | none ↦ retry base h size site
      ]

-- the heap behind the test of `initialized`
unfoldable pub ready : Heap → Heap
ready h = if h.initialized then h else init_heap h

pub mymalloc : ℕ → Heap → ℕ → Site → Option Malloced
mymalloc base h = malloc_in base (ready h)

-- a call of `myfree` returns, or ends the process with an exit code
pub data Freed : Type 0 where
  returned : Heap → Freed
  exited : ℕ → Message → Freed

pub myfree : ℕ → Heap → ℕ → Site → Option Freed
myfree base h ptr site =
    let reject = some (exited 2 (inappropriate_pointer site)) in
    let chunk = ptr - header_size - base in
    let chunk_size = size_bits (h.bytes chunk) in
    let merged = coalesce (store h.bytes chunk chunk_size) in
    if ptr == 0
    then some (returned h)
    else if not (valid_ptr base ptr)
    then reject
    else if not (valid_ptr base (ptr - header_size))
    then reject
    else if not (is_used (h.bytes chunk))
    then reject
    else if chunk_size == 0 || ltb mem_length (chunk + header_size + chunk_size)
    then reject
    else do m ← merged; some (returned (record h { bytes = m }))
