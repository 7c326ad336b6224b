-- ===== src/Memgrind/Arrays.antt =====
-- The arrays of `task5` of P1/memgrind.c: what is written stays inside the block.
use cs214_assignments.Base.{
  ℕ, zero, suc, ◌+◌, ◌-◌, ◌*◌, ◌≤◌, List, ◌∷◌, ◌++◌, ◌≡◌, refl, sym, ◌∙◌, subst, arith,
}
use cs214_assignments.Malloc.{Heap, store}
use cs214_assignments.Malloc.Chunks.{blocks}
use cs214_assignments.Malloc.Represent.{Represents}
use cs214_assignments.Malloc.Payload.{Inside, Inside-middle, Represents-store}
use cs214_assignments.Memgrind.{World, ok, M}
use cs214_assignments.Memgrind.Stored.{write_int, read_int, fill_ints, copy_ints}
use cs214_assignments.Memgrind.Owned.{Owns, ready_lem, cons_ne}
use cs214_assignments.Memgrind.Tasks.{bind_ok}

-- The pointer `p` is owned, and its block has at least `size` bytes.
pub record Holding (base b : ℕ) (w : World) (xs ys : List ℕ) (p size : ℕ) : Type 0 where
  pub owns : Owns base b w (xs ++ p ∷ ys)
  pub address : ℕ
  pub given : ℕ
  pub before : List (ℕ × ℕ)
  pub after : List (ℕ × ℕ)
  pub pointer_is : p ≡ base + address
  pub enough : size ≤ given
  pub placed : blocks 0 owns.chunks ≡ before ++ (address, given) ∷ after

-- A part of the program that writes to that block.
pub record Wrote (base b : ℕ) (m : M (Unit {0})) (w : World) (xs ys : List ℕ) (p size : ℕ)
    : Type 0 where
  pub world : World
  pub returns : m w ≡ ok tt world
  pub holding : Holding base b world xs ys p size
  pub drawn_is : world.drawn ≡ w.drawn

module _ (base b : ℕ) (xs ys : List ℕ) (p size : ℕ) where
  write_int-Wrote :
      (i v : ℕ) (w : World)
      → 4 * i + 4 ≤ size
      → Holding base b w xs ys p size
      → Wrote base b (write_int base p i v) w xs ys p size
  unfolding write_int
  write_int-Wrote i v w fit h =
      let init = h.owns.in_use (cons_ne xs ys p) in
      let a = p - base + 4 * i in
      let stored : Heap = record w.heap { bytes = store w.heap.bytes a v } in
      let inside : Inside a (blocks 0 h.owns.chunks) = subst (Inside a) (sym h.placed) (
        Inside-middle a h.address h.given h.before h.after (omega (arith, h.pointer_is))
          (omega (arith, h.pointer_is, h.enough))) in
      let was : Represents w.heap.bytes 0 h.owns.chunks =
        subst (λ (k : Heap). Represents k.bytes 0 h.owns.chunks) (ready_lem w.heap init)
          h.owns.represents in
      record {
        world = record w { heap = stored };
        returns = refl;
        holding = record {
          owns = record {
            chunks = h.owns.chunks;
            represents =
                subst (λ (k : Heap). Represents k.bytes 0 h.owns.chunks)
                  (sym (ready_lem stored init))
                  (Represents-store w.heap.bytes a v 0 h.owns.chunks inside was);
            in_use = λ _. init;
            picks = h.owns.picks;
            small = h.owns.small;
            quiet = h.owns.quiet;
          };
          address = h.address;
          given = h.given;
          before = h.before;
          after = h.after;
          pointer_is = h.pointer_is;
          enough = h.enough;
          placed = h.placed;
        };
        drawn_is = refl;
      }

  pub fill_ints-Wrote :
      (n i : ℕ) (w : World)
      → 4 * (i + n) ≤ size
      → Holding base b w xs ys p size
      → Wrote base b (fill_ints base p i n) w xs ys p size
  unfolding fill_ints
  fill_ints-Wrote zero i w fit h = record {
    world = w;
    returns = refl;
    holding = h;
    drawn_is = refl;
  }
  fill_ints-Wrote (suc n) i w fit h =
      let one = write_int-Wrote i i w (omega arith) h in
      let rest = fill_ints-Wrote n (i + 1) one.world (omega arith) one.holding in
      record {
        world = rest.world;
        returns = bind_ok (write_int base p i i) _ w one.world tt one.returns ∙ rest.returns;
        holding = rest.holding;
        drawn_is = rest.drawn_is ∙ one.drawn_is;
      }

  pub copy_ints-Wrote :
      (old n i : ℕ) (w : World)
      → 4 * (i + n) ≤ size
      → Holding base b w xs ys p size
      → Wrote base b (copy_ints base p old i n) w xs ys p size
  unfolding copy_ints read_int
  copy_ints-Wrote old zero i w fit h = record {
    world = w;
    returns = refl;
    holding = h;
    drawn_is = refl;
  }
  copy_ints-Wrote old (suc n) i w fit h =
      let v = w.heap.bytes (old - base + 4 * i) in
      let one = write_int-Wrote i v w (omega arith) h in
      let rest = copy_ints-Wrote old n (i + 1) one.world (omega arith) one.holding in
      record {
        world = rest.world;
        returns = bind_ok (write_int base p i v) _ w one.world tt one.returns ∙ rest.returns;
        holding = rest.holding;
        drawn_is = rest.drawn_is ∙ one.drawn_is;
      }
