-- ===== src/Memgrind/Nodes.antt =====
-- The nodes of `task4` of P1/memgrind.c: what a new one, a write to one and its end do to the list.
use cs214_assignments.Base.{
  ℕ, ◌+◌, ◌-◌, ◌%◌, ◌≤◌, ◌<◌, ◌≢◌, List, [], ◌∷◌, ◌++◌, ◌≡◌, sym, subst, arith, length,
}
use cs214_assignments.Malloc.{Heap, Mem, store, ready, round_up}
use cs214_assignments.Malloc.Chunks.{blocks}
use cs214_assignments.Malloc.Represent.{Represents, SameIn}
use cs214_assignments.Malloc.Serve.{round_up_lem}
use cs214_assignments.Malloc.Payload.{Inside, Inside-middle, Represents-store, SameIn-store-others}
use cs214_assignments.Memgrind.{World, ok, malloc, free}
use cs214_assignments.Malloc.Picks.{Picks, Picks-remove}
use cs214_assignments.Memgrind.Owned.{Owns, malloc-GrewFrom, free-ShrankFrom, ready_lem, cons_ne}
use cs214_assignments.Memgrind.Linked.{Big, Big-insert, Big-remove, SameNext, SameNext-SameIn}

module _ (base : ℕ) where
  -- The nodes are those of the program, each with room for its fields.
  pub record Nodes (w : World) (ps : List ℕ) : Type 0 where
    pub owns : Owns base 24 w ps
    pub big : Big (blocks 0 owns.chunks)

  -- A write to a node.
  pub record Written (w : World) (xs ys : List ℕ) (p d v : ℕ) : Type 0 where
    pub nodes :
        Nodes
          (record w { heap = record w.heap { bytes = store w.heap.bytes (p - base + d) v } })
          (xs ++ p ∷ ys)
    pub others : SameNext base w.heap.bytes (store w.heap.bytes (p - base + d) v) (xs ++ ys)

  pub write_lem :
      (w : World) (xs ys : List ℕ) (p d v : ℕ)
      → d < 16
      → Nodes w (xs ++ p ∷ ys)
      → Written w xs ys p d v
  write_lem w xs ys p d v few n =
      let o = n.owns in
      let init = o.in_use (cons_ne xs ys p) in
      let k = Picks-remove base xs ys p (blocks 0 o.chunks) o.picks in
      let room = Big-remove k.before k.after k.address k.size (subst Big k.splits n.big) in
      let a = p - base + d in
      let new : Heap = record w.heap { bytes = store w.heap.bytes a v } in
      let low : k.address ≤ a = omega (arith, k.pointer_is) in
      let high : a < k.address + k.size = omega (arith, k.pointer_is, room.0) in
      let inside : Inside a (blocks 0 o.chunks) =
        subst (Inside a) (sym k.splits)
          (Inside-middle a k.address k.size k.before k.after low high) in
      let was : Represents w.heap.bytes 0 o.chunks =
        subst (λ (h : Heap). Represents h.bytes 0 o.chunks) (ready_lem w.heap init) o.represents in
      record {
        nodes = record {
          owns = record {
            chunks = o.chunks;
            represents =
                subst (λ (h : Heap). Represents h.bytes 0 o.chunks) (sym (ready_lem new init))
                  (Represents-store w.heap.bytes a v 0 o.chunks inside was);
            in_use = λ _. init;
            picks = o.picks;
            small = o.small;
            quiet = o.quiet;
          };
          big = n.big;
        };
        others =
            SameNext-SameIn base w.heap.bytes (store w.heap.bytes a v) (xs ++ ys)
              (k.before ++ k.after) k.others room.1
              (SameIn-store-others w.heap.bytes a v 0 o.chunks k.before k.after k.address k.size
                k.splits low high);
      }

  -- A node that is given back.
  pub record Dropped (w : World) (xs ys : List ℕ) (line p : ℕ) : Type 0 where
    pub world : World
    pub returns : free base line p w ≡ ok tt world
    pub nodes : Nodes world (xs ++ ys)
    pub others : SameNext base w.heap.bytes world.heap.bytes (xs ++ ys)

  pub drop_lem :
      base % 8 ≡ 0
      → (w : World) (xs ys : List ℕ) (line p : ℕ) → Nodes w (xs ++ p ∷ ys)
      → Dropped w xs ys line p
  drop_lem align w xs ys line p n =
      let s = free-ShrankFrom base 24 w xs ys line p align n.owns in
      let room = Big-remove s.before s.after s.address s.size (subst Big s.splits n.big) in
      record {
        world = s.shrank.world;
        returns = s.shrank.returns;
        nodes = record { owns = s.shrank.owns; big = subst Big (sym s.blocks_are) room.1 };
        others =
            SameNext-SameIn base w.heap.bytes s.shrank.world.heap.bytes (xs ++ ys)
              (s.before ++ s.after) (subst (Picks base (xs ++ ys)) s.blocks_are s.shrank.owns.picks)
              room.1 s.kept;
      }

  -- A node that is allocated, in front of the others.
  pub record Added (w : World) (ps : List ℕ) (line : ℕ) : Type 0 where
    pub pointer : ℕ
    pub world : World
    pub returns : malloc base line 16 w ≡ ok pointer world
    pub nonzero : pointer ≢ 0
    pub nodes : Nodes world (pointer ∷ ps)
    pub others : SameNext base w.heap.bytes world.heap.bytes ps

  same_memory :
      (w : World) (m : Mem) (ps : List ℕ) (bs : List (ℕ × ℕ))
      → Owns base 24 w ps
      → Picks base ps bs
      → Big bs
      → SameIn (ready w.heap).bytes m bs
      → SameNext base w.heap.bytes m ps
  same_memory w m [] bs o picks big same = tt
  same_memory w m (p ∷ ps) bs o picks big same =
      subst (λ (h : Heap). SameNext base h.bytes m (p ∷ ps)) (ready_lem w.heap (o.in_use (λ e. cc)))
        (SameNext-SameIn base (ready w.heap).bytes m (p ∷ ps) bs picks big same)

  pub add_lem :
      0 < base
      → (w : World) (ps : List ℕ) (line : ℕ) → length ps < 60
      → Nodes w ps
      → Added w ps line
  add_lem pos w ps line few n =
      let r = round_up_lem 16 (omega arith) (omega arith) in
      let sixteen : round_up 16 ≡ 16 = omega (arith, r) in
      let f =
        malloc-GrewFrom base 24 w [] ps line 16 pos (omega arith) (omega arith)
          (omega (arith, sixteen)) (rw sixteen (omega arith)) n.owns in
      record {
        pointer = f.grew.pointer;
        world = f.grew.world;
        returns = f.grew.returns;
        nonzero = f.grew.nonzero;
        nodes = record {
          owns = f.grew.owns;
          big = subst Big (sym f.grew.placed) (
              Big-insert f.grew.before f.grew.after f.grew.address f.grew.given f.grew.enough
                (subst Big f.old_blocks n.big));
        };
        others =
            same_memory w f.grew.world.heap.bytes ps (blocks 0 n.owns.chunks) n.owns n.owns.picks
              n.big f.kept;
      }
