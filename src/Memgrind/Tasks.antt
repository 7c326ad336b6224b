-- ===== src/Memgrind/Tasks.antt =====
-- `task1` and `task2` of P1/memgrind.c.
use cs214_assignments.Base.{
  ℕ, zero, suc, ◌+◌, ◌%◌, ◌≤◌, ◌<◌, ◌≢◌, false, List, [], ◌∷◌, ◌++◌, ◌≡◌, refl, ◌∙◌, arith, ◌==◌,
  length, length-append,
}
use mathlib.Core.List.{append-nil}
use cs214_assignments.Malloc.{round_up}
use cs214_assignments.Malloc.Serve.{round_up_lem}
use cs214_assignments.Memgrind.{
  World, ok, M, ◌>>=◌, checked, malloc, free, task1_loop, fill, free_all, task1, task2,
}
use cs214_assignments.Memgrind.Owned.{Owns, Grew, malloc-Grew, free-Shrank}

-- the first part of a sequence returns
pub bind_ok :
    {A B : Type 0} (m : M A) (f : A → M B) (w w' : World) (a : A)
    → m w ≡ ok a w'
    → (m >>= f) w ≡ f a w'
bind_ok m f w w' a e = rw (e, ◌>>=◌) refl

pub checked_lem : (base p : ℕ) (w : World) → p ≢ 0 → checked base p w ≡ ok p w
checked_lem base p w ne = let e : (p == 0) ≡ false = ground arith in rw e refl

-- A part of the program that returns with no pointer owned.
pub record Returns (base : ℕ) (m : M (Unit {0})) (w : World) : Type 0 where
  pub world : World
  pub returns : m w ≡ ok tt world
  pub owns : Owns base 16 world []

module _ (base : ℕ) (pos : 0 < base) (align : base % 8 ≡ 0) where
  -- an object of one byte, while fewer than 120 are owned
  pub malloc_one :
      (w : World) (xs ys : List ℕ) (line : ℕ)
      → length (xs ++ ys) < 120
      → Owns base 16 w (xs ++ ys)
      → Grew base 16 w xs ys line 1
  malloc_one w xs ys line few o =
      let r = round_up_lem 1 (omega arith) (omega arith) in
      let eight : round_up 1 ≡ 8 = omega (arith, r) in
      malloc-Grew base 16 w xs ys line 1 pos (omega arith) (omega arith) (omega (arith, eight))
        (rw eight (omega arith)) o

  task1_loop-Returns : (n : ℕ) (w : World) → Owns base 16 w [] → Returns base (task1_loop base n) w
  unfolding task1_loop
  task1_loop-Returns zero w o = record { world = w; returns = refl; owns = o }
  task1_loop-Returns (suc n) w o =
      let g = malloc_one w [] [] 20 (omega arith) o in
      let s = free-Shrank base 16 g.world [] [] 25 g.pointer align g.owns in
      let r = task1_loop-Returns n s.world s.owns in
      record {
        world = r.world;
        returns =
            bind_ok (malloc base 20 1) _ w g.world g.pointer g.returns
            ∙ bind_ok (checked base g.pointer) _ g.world g.world g.pointer
                (checked_lem base g.pointer g.world g.nonzero)
            ∙ bind_ok (free base 25 g.pointer) _ g.world s.world tt s.returns
            ∙ r.returns;
        owns = r.owns;
      }

  pub task1-Returns : (w : World) → Owns base 16 w [] → Returns base (task1 base) w
  unfolding task1
  task1-Returns w o = task1_loop-Returns 120 w o

  -- the filled array
  record Filled (n : ℕ) (ps : List ℕ) (w : World) : Type 0 where
    ptrs : List ℕ
    world : World
    returns : fill base n ps w ≡ ok ptrs world
    owns : Owns base 16 world ptrs

  fill-Filled :
      (n : ℕ) (ps : List ℕ) (w : World) → length ps + n ≤ 120 → Owns base 16 w ps → Filled n ps w
  unfolding fill
  fill-Filled zero ps w few o = record { ptrs = ps; world = w; returns = refl; owns = o }
  fill-Filled (suc n) ps w few o =
      let g = malloc_one w ps [] 35 (omega (arith, length-append ps [])) (rw (append-nil ps) o) in
      let r =
        fill-Filled n (ps ++ g.pointer ∷ []) g.world
          (omega (arith, length-append ps (g.pointer ∷ []))) g.owns in
      record {
        ptrs = r.ptrs;
        world = r.world;
        returns =
            bind_ok (malloc base 35 1) _ w g.world g.pointer g.returns
            ∙ bind_ok (checked base g.pointer) _ g.world g.world g.pointer
                (checked_lem base g.pointer g.world g.nonzero)
            ∙ r.returns;
        owns = r.owns;
      }

  free_all-Returns :
      (ps : List ℕ) (w : World) → Owns base 16 w ps → Returns base (free_all base ps) w
  unfolding free_all
  free_all-Returns [] w o = record { world = w; returns = refl; owns = o }
  free_all-Returns (p ∷ ps) w o =
      let s = free-Shrank base 16 w [] ps 44 p align o in
      let r = free_all-Returns ps s.world s.owns in
      record {
        world = r.world;
        returns = bind_ok (free base 44 p) _ w s.world tt s.returns ∙ r.returns;
        owns = r.owns;
      }

  pub task2-Returns : (w : World) → Owns base 16 w [] → Returns base (task2 base) w
  unfolding task2
  task2-Returns w o =
      let f = fill-Filled 120 [] w (omega arith) o in
      let r = free_all-Returns f.ptrs f.world f.owns in
      record {
        world = r.world;
        returns = bind_ok (fill base 120 []) _ w f.world f.ptrs f.returns ∙ r.returns;
        owns = r.owns;
      }
