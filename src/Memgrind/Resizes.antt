-- ===== src/Memgrind/Resizes.antt =====
-- `task5` of P1/memgrind.c.
use cs214_assignments.Base.{
  ℕ, zero, suc, ◌+◌, ◌-◌, ◌*◌, ◌/◌, ◌%◌, ◌≤◌, ◌<◌, List, [], ◌∷◌, ◌≡◌, refl, sym, ◌∙◌, subst, arith,
  Bool-cases, inl, inr, ◌==◌, ◌&&◌, ltb, length, if◌then◌else◌,
}
use cs214_assignments.Malloc.{round_up}
use cs214_assignments.Malloc.Chunks.{blocks}
use cs214_assignments.Malloc.Serve.{round_up_lem}
use cs214_assignments.Memgrind.{World, ok, M, checked, malloc, free, pure, draw}
use cs214_assignments.Memgrind.Stored.{
  Array, fill_ints, copy_ints, shrink_array, grow_array, resize, task5_loop, task5,
}
use cs214_assignments.Memgrind.Owned.{Owns, Grew, malloc-Grew, free-Shrank}
use cs214_assignments.Malloc.Picks.{length-Picks, Small}
use cs214_assignments.Memgrind.Tasks.{bind_ok, checked_lem, Returns}
use cs214_assignments.Memgrind.Arrays.{Holding, fill_ints-Wrote, copy_ints-Wrote}

pub no_blocks : (bs : List (ℕ × ℕ)) → length bs ≡ 0 → bs ≡ []
no_blocks [] e = refl
no_blocks (b ∷ bs) e = absurd (omega arith)

-- With no pointer owned the bound on the blocks does not matter.
pub Owns-none : (base b c : ℕ) (w : World) → Owns base b w [] → Owns base c w []
Owns-none base b c w o = record {
  chunks = o.chunks;
  represents = o.represents;
  in_use = o.in_use;
  picks = o.picks;
  small =
      subst (Small c)
        (sym (no_blocks (blocks 0 o.chunks) (length-Picks base [] (blocks 0 o.chunks) o.picks))) tt;
  quiet = o.quiet;
}

Grew-Holding :
    (base b : ℕ) (w : World) (xs ys : List ℕ) (line size : ℕ) (g : Grew base b w xs ys line size)
    → Holding base b g.world xs ys g.pointer size
Grew-Holding base b w xs ys line size g = record {
  owns = g.owns;
  address = g.address;
  given = g.given;
  before = g.before;
  after = g.after;
  pointer_is = g.pointer_is;
  enough = g.enough;
  placed = g.placed;
}

module _ (base : ℕ) (pos : 0 < base) (align : base % 8 ≡ 0) where
  malloc_array :
      (w : World) (ys : List ℕ) (line size : ℕ)
      → 0 < size
      → size ≤ 632
      → length ys ≤ 1
      → Owns base 640 w ys
      → Grew base 640 w [] ys line size
  malloc_array w ys line size some_bytes few short o =
      let r = round_up_lem size some_bytes (omega (arith, few)) in
      let small : round_up size ≤ 632 = omega (arith, r, few) in
      malloc-Grew base 640 w [] ys line size pos some_bytes (omega (arith, few))
        (omega (arith, small)) (grind (arith, small, short)) o

  -- An array of 3 to 158 ints, the only block.
  record Resized (m : M Array) (w : World) : Type 0 where
    result : Array
    world : World
    returns : m w ≡ ok result world
    owns : Owns base 640 world (result.array ∷ [])
    low : 3 ≤ result.size
    high : result.size ≤ 158

  shrink_array-Resized :
      (a : Array) (w : World)
      → 5 < a.size
      → a.size ≤ 158
      → Owns base 640 w (a.array ∷ [])
      → Resized (shrink_array base a) w
  unfolding shrink_array
  shrink_array-Resized a w lo hi o =
      let n = a.size / 2 in
      let g =
        malloc_array w (a.array ∷ []) 178 (n * 4) (omega arith) (omega arith) (omega arith) o in
      let c =
        copy_ints-Wrote base 640 [] (a.array ∷ []) g.pointer (n * 4) a.array n 0 g.world
          (omega arith) (Grew-Holding base 640 w [] (a.array ∷ []) 178 (n * 4) g) in
      let s = free-Shrank base 640 c.world (g.pointer ∷ []) [] 188 a.array align c.holding.owns in
      record {
        result = record { array = g.pointer; size = n };
        world = s.world;
        returns =
            bind_ok (malloc base 178 (n * 4)) _ w g.world g.pointer g.returns
            ∙ bind_ok (checked base g.pointer) _ g.world g.world g.pointer
                (checked_lem base g.pointer g.world g.nonzero)
            ∙ bind_ok (copy_ints base g.pointer a.array 0 n) _ g.world c.world tt c.returns
            ∙ bind_ok (free base 188 a.array) _ c.world s.world tt s.returns;
        owns = s.owns;
        low = omega arith;
        high = omega arith;
      }

  grow_array-Resized :
      (a : Array) (w : World)
      → 3 ≤ a.size
      → a.size < 80
      → Owns base 640 w (a.array ∷ [])
      → Resized (grow_array base a) w
  unfolding grow_array
  grow_array-Resized a w lo hi o =
      let n = a.size * 2 in
      let g =
        malloc_array w (a.array ∷ []) 194 (n * 4) (omega arith) (omega arith) (omega arith) o in
      let c =
        copy_ints-Wrote base 640 [] (a.array ∷ []) g.pointer (n * 4) a.array a.size 0 g.world
          (omega arith) (Grew-Holding base 640 w [] (a.array ∷ []) 194 (n * 4) g) in
      let f =
        fill_ints-Wrote base 640 [] (a.array ∷ []) g.pointer (n * 4) (n - a.size) a.size c.world
          (omega arith) c.holding in
      let s = free-Shrank base 640 f.world (g.pointer ∷ []) [] 208 a.array align f.holding.owns in
      record {
        result = record { array = g.pointer; size = n };
        world = s.world;
        returns =
            bind_ok (malloc base 194 (n * 4)) _ w g.world g.pointer g.returns
            ∙ bind_ok (checked base g.pointer) _ g.world g.world g.pointer
                (checked_lem base g.pointer g.world g.nonzero)
            ∙ bind_ok (copy_ints base g.pointer a.array 0 a.size) _ g.world c.world tt c.returns
            ∙ bind_ok (fill_ints base g.pointer a.size (n - a.size)) _ c.world f.world tt f.returns
            ∙ bind_ok (free base 208 a.array) _ f.world s.world tt s.returns;
        owns = s.owns;
        low = omega arith;
        high = omega arith;
      }

  module _ (rand : ℕ → ℕ) where
    drawn_once : World → World
    drawn_once w = record w { drawn = w.drawn + 1 }

    -- what `resize` does with a number
    chosen : ℕ → Array → M Array
    chosen operation a =
        if operation % 3 == 0 && ltb 5 a.size
        then shrink_array base a
        else (if operation % 3 == 1 && ltb a.size 80 then grow_array base a else pure a)

    chosen-Resized :
        (operation : ℕ) (a : Array) (w : World)
        → 3 ≤ a.size
        → a.size ≤ 158
        → Owns base 640 w (a.array ∷ [])
        → Resized (chosen operation a) w
    unfolding chosen
    chosen-Resized operation a w lo hi o = elim (Bool-cases (operation % 3 == 0 && ltb 5 a.size)) [
      | inl shrinks ↦ rw shrinks (shrink_array-Resized a w (ground (arith, shrinks)) hi o)
      | inr other ↦ elim (Bool-cases (operation % 3 == 1 && ltb a.size 80)) [
        | inl grows ↦ rw (other, grows) (grow_array-Resized a w lo (ground (arith, grows)) o)
        | inr keeps ↦
            rw (other, keeps)
              (record { result = a; world = w; returns = refl; owns = o; low = lo; high = hi })
      ]
    ]

    Owns-drawn : (w : World) (ps : List ℕ) → Owns base 640 w ps → Owns base 640 (drawn_once w) ps
    unfolding drawn_once
    Owns-drawn w ps o = record {
      chunks = o.chunks;
      represents = o.represents;
      in_use = o.in_use;
      picks = o.picks;
      small = o.small;
      quiet = o.quiet;
    }

    resize-Resized :
        (a : Array) (w : World)
        → 3 ≤ a.size
        → a.size ≤ 158
        → Owns base 640 w (a.array ∷ [])
        → Resized (resize base rand a) w
    unfolding resize draw chosen drawn_once
    resize-Resized a w lo hi o =
        let r =
          chosen-Resized (rand w.drawn) a (drawn_once w) lo hi (Owns-drawn w (a.array ∷ []) o) in
        record {
          result = r.result;
          world = r.world;
          returns = r.returns;
          owns = r.owns;
          low = r.low;
          high = r.high;
        }

    task5_loop-Resized :
        (n : ℕ) (a : Array) (w : World)
        → 3 ≤ a.size
        → a.size ≤ 158
        → Owns base 640 w (a.array ∷ [])
        → Resized (task5_loop base rand n a) w
    unfolding task5_loop
    task5_loop-Resized zero a w lo hi o = record {
      result = a;
      world = w;
      returns = refl;
      owns = o;
      low = lo;
      high = hi;
    }
    task5_loop-Resized (suc n) a w lo hi o =
        let r = resize-Resized a w lo hi o in
        let l = task5_loop-Resized n r.result r.world r.low r.high r.owns in
        record {
          result = l.result;
          world = l.world;
          returns = bind_ok (resize base rand a) _ w r.world r.result r.returns ∙ l.returns;
          owns = l.owns;
          low = l.low;
          high = l.high;
        }

    pub task5-Returns : (w : World) → Owns base 16 w [] → Returns base (task5 base rand) w
    unfolding task5
    task5-Returns w o =
        let g =
          malloc_array w [] 158 40 (omega arith) (omega arith) (omega arith)
            (Owns-none base 16 640 w o) in
        let f =
          fill_ints-Wrote base 640 [] [] g.pointer 40 10 0 g.world (omega arith)
            (Grew-Holding base 640 w [] [] 158 40 g) in
        let l =
          task5_loop-Resized 100 (record { array = g.pointer; size = 10 }) f.world (omega arith)
            (omega arith) f.holding.owns in
        let s = free-Shrank base 640 l.world [] [] 214 l.result.array align l.owns in
        record {
          world = s.world;
          returns =
              bind_ok (malloc base 158 40) _ w g.world g.pointer g.returns
              ∙ bind_ok (checked base g.pointer) _ g.world g.world g.pointer
                  (checked_lem base g.pointer g.world g.nonzero)
              ∙ bind_ok (fill_ints base g.pointer 0 10) _ g.world f.world tt f.returns
              ∙ bind_ok (task5_loop base rand 100 _) _ f.world l.world l.result l.returns
              ∙ s.returns;
          owns = Owns-none base 640 16 s.world s.owns;
        }
