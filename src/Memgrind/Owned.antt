-- ===== src/Memgrind/Owned.antt =====
-- What the calls of `malloc` and `free` in P1/memgrind.c do for a client that owns some pointers.
use cs214_assignments.Base.{
  ℕ, ◌+◌, ◌-◌, ◌*◌, ◌%◌, ◌^◌, ◌≤◌, ◌<◌, ◌≢◌, true, false, List, [], ◌∷◌, ◌++◌, ◌≡◌, refl, sym, ap,
  ◌∙◌, subst, arith, length,
}
use cs214_assignments.Malloc.{Heap, round_up, init_heap, ready, myfree}
use cs214_assignments.Malloc.Chunks.{Chunks, blocks}
use cs214_assignments.Malloc.Represent.{Represents, SameIn}
use cs214_assignments.Malloc.Serve.{Holds}
use cs214_assignments.Malloc.Release.{myfree_lem}
use cs214_assignments.Malloc.Layout.{init_heap-Holds}
use cs214_assignments.Malloc.Room.{mymalloc_room}
use cs214_assignments.Memgrind.{World, ok, site, malloc, free}
use cs214_assignments.Malloc.Picks.{
  Picks, done, Picks-remove, Picks-insert, length-Picks, Small, Small-insert, Small-remove,
  total-Small,
}

-- The heap holds chunks whose allocated blocks, of at most `b` bytes, are those of the pointers
-- `ps`; nothing was printed.
pub record Owns (base b : ℕ) (w : World) (ps : List ℕ) : Type 0 where
  pub chunks : Chunks
  pub represents : Represents (ready w.heap).bytes 0 chunks
  pub in_use : ps ≢ [] → w.heap.initialized ≡ true
  pub picks : Picks base ps (blocks 0 chunks)
  pub small : Small b (blocks 0 chunks)
  pub quiet : w.stderr ≡ []

-- the heap before the first call
pub unused-Owns :
    (base b : ℕ) (w : World) → w.heap.initialized ≡ false → w.stderr ≡ [] → Owns base b w []
unfolding ready init_heap
unused-Owns base b w new quiet = record {
  chunks = record { size = 4088; used = false } ∷ [];
  represents = rw new ((init_heap-Holds w.heap).0.represents);
  in_use = λ ne. absurd (ne refl);
  picks = done;
  small = tt;
  quiet = quiet;
}

pub ready_lem : (h : Heap) → h.initialized ≡ true → ready h ≡ h
unfolding ready
ready_lem h e = ground arith

-- A call of `malloc` that succeeds, with the pointer that it returns.
pub record Grew (base b : ℕ) (w : World) (xs ys : List ℕ) (line size : ℕ) : Type 0 where
  pub pointer : ℕ
  pub world : World
  pub returns : malloc base line size w ≡ ok pointer world
  pub nonzero : pointer ≢ 0
  pub owns : Owns base b world (xs ++ pointer ∷ ys)
  pub address : ℕ
  pub given : ℕ
  pub before : List (ℕ × ℕ)
  pub after : List (ℕ × ℕ)
  pub pointer_is : pointer ≡ base + address
  pub enough : size ≤ given
  pub placed : blocks 0 owns.chunks ≡ before ++ (address, given) ∷ after
  pub drawn_is : world.drawn ≡ w.drawn

-- The same, and what it does to the blocks that were there.
pub record GrewFrom (base b : ℕ) (w : World) (xs ys : List ℕ) (line size : ℕ)
    (o : Owns base b w (xs ++ ys)) : Type 0 where
  pub grew : Grew base b w xs ys line size
  pub old_blocks : blocks 0 o.chunks ≡ grew.before ++ grew.after
  pub kept : SameIn (ready w.heap).bytes grew.world.heap.bytes (blocks 0 o.chunks)

pub malloc-GrewFrom :
    (base b : ℕ) (w : World) (xs ys : List ℕ) (line size : ℕ)
    → 0 < base
    → 0 < size
    → size ≤ 2 ^ 64 - 8
    → round_up size + 8 ≤ b
    → (b + 8 + round_up size) * length (xs ++ ys) + round_up size < 4096
    → (o : Owns base b w (xs ++ ys)) → GrewFrom base b w xs ys line size o
unfolding malloc
malloc-GrewFrom base b w xs ys line size base_pos pos le fit room o =
    let n = length-Picks base (xs ++ ys) (blocks 0 o.chunks) o.picks in
    let t = total-Small b (blocks 0 o.chunks) o.small in
    let (r, runs, s) =
      mymalloc_room base size w.heap (site line) o.chunks pos le o.represents
        (grind (arith, n, t, room)) in
    let w' : World = record w { heap = r.heap; stderr = w.stderr ++ r.printed } in
    record {
      grew = record {
        pointer = r.pointer;
        world = w';
        returns = rw (runs, malloc) refl;
        nonzero = λ e. absurd (omega (arith, s.pointer_is, e));
        owns = record {
          chunks = s.chunks;
          represents =
              subst (λ (h : Heap). Represents h.bytes 0 s.chunks)
                (sym (ready_lem r.heap s.holds.is_initialized)) s.holds.represents;
          in_use = λ _. s.holds.is_initialized;
          picks = subst (Picks base (xs ++ r.pointer ∷ ys)) (sym s.new_blocks) (
              Picks-insert base xs ys r.pointer s.address s.given s.before s.after s.pointer_is
                (subst (Picks base (xs ++ ys)) s.old_blocks o.picks));
          small = subst (Small b) (sym s.new_blocks) (
              Small-insert b s.before s.after s.address s.given (omega (arith, s.not_wasteful))
                (subst (Small b) s.old_blocks o.small));
          quiet = rw (o.quiet, s.silent) refl;
        };
        address = s.address;
        given = s.given;
        before = s.before;
        after = s.after;
        pointer_is = s.pointer_is;
        enough = s.enough;
        placed = s.new_blocks;
        drawn_is = refl;
      };
      old_blocks = s.old_blocks;
      kept = s.kept;
    }

pub malloc-Grew :
    (base b : ℕ) (w : World) (xs ys : List ℕ) (line size : ℕ)
    → 0 < base
    → 0 < size
    → size ≤ 2 ^ 64 - 8
    → round_up size + 8 ≤ b
    → (b + 8 + round_up size) * length (xs ++ ys) + round_up size < 4096
    → Owns base b w (xs ++ ys)
    → Grew base b w xs ys line size
malloc-Grew base b w xs ys line size base_pos pos le fit room o =
    (malloc-GrewFrom base b w xs ys line size base_pos pos le fit room o).grew

pub cons_ne : (xs ys : List ℕ) (p : ℕ) → xs ++ p ∷ ys ≢ []
cons_ne [] ys p e = cc
cons_ne (x ∷ xs) ys p e = cc

-- A call of `free` that returns.
pub record Shrank (base b : ℕ) (w : World) (ps : List ℕ) (line p : ℕ) : Type 0 where
  pub world : World
  pub returns : free base line p w ≡ ok tt world
  pub owns : Owns base b world ps
  pub drawn_is : world.drawn ≡ w.drawn

-- The same, and what it does to the blocks that were there.
pub record ShrankFrom (base b : ℕ) (w : World) (xs ys : List ℕ) (line p : ℕ)
    (o : Owns base b w (xs ++ p ∷ ys)) : Type 0 where
  pub shrank : Shrank base b w (xs ++ ys) line p
  pub address : ℕ
  pub size : ℕ
  pub before : List (ℕ × ℕ)
  pub after : List (ℕ × ℕ)
  pub splits : blocks 0 o.chunks ≡ before ++ (address, size) ∷ after
  pub blocks_are : blocks 0 shrank.owns.chunks ≡ before ++ after
  pub kept : SameIn w.heap.bytes shrank.world.heap.bytes (before ++ after)

pub free-ShrankFrom :
    (base b : ℕ) (w : World) (xs ys : List ℕ) (line p : ℕ)
    → base % 8 ≡ 0
    → (o : Owns base b w (xs ++ p ∷ ys)) → ShrankFrom base b w xs ys line p o
unfolding free
free-ShrankFrom base b w xs ys line p align o =
    let init = o.in_use (cons_ne xs ys p) in
    let k = Picks-remove base xs ys p (blocks 0 o.chunks) o.picks in
    let held : Holds w.heap o.chunks = record {
      is_initialized = init;
      represents =
          subst (λ (h : Heap). Represents h.bytes 0 o.chunks) (ready_lem w.heap init) o.represents;
    } in
    let (h', runs, r) =
      myfree_lem base k.address k.size w.heap (site line) o.chunks k.before k.after align held
        k.splits in
    let runs' = ap (λ q. myfree base w.heap q (site line)) k.pointer_is ∙ runs in
    record {
      shrank = record {
        world = record w { heap = h' };
        returns = rw (runs', free) refl;
        owns = record {
          chunks = r.chunks;
          represents =
              subst (λ (h : Heap). Represents h.bytes 0 r.chunks)
                (sym (ready_lem h' r.holds.is_initialized)) r.holds.represents;
          in_use = λ _. r.holds.is_initialized;
          picks = subst (Picks base (xs ++ ys)) (sym r.blocks_are) k.others;
          small =
              subst (Small b) (sym r.blocks_are) (
                Small-remove b k.before k.after k.address k.size
                  (subst (Small b) k.splits o.small));
          quiet = o.quiet;
        };
        drawn_is = refl;
      };
      address = k.address;
      size = k.size;
      before = k.before;
      after = k.after;
      splits = k.splits;
      blocks_are = r.blocks_are;
      kept = r.kept;
    }

pub free-Shrank :
    (base b : ℕ) (w : World) (xs ys : List ℕ) (line p : ℕ)
    → base % 8 ≡ 0
    → Owns base b w (xs ++ p ∷ ys)
    → Shrank base b w (xs ++ ys) line p
free-Shrank base b w xs ys line p align o = (free-ShrankFrom base b w xs ys line p align o).shrank
