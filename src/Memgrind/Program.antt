-- ===== src/Memgrind/Program.antt =====
-- Whole runs of P1/memgrind.c.
use cs214_assignments.Base.{ℕ, zero, suc, ◌+◌, ◌*◌, ◌%◌, ◌<◌, false, [], ◌≡◌, refl, ◌∙◌}
use cs214_assignments.Memgrind.{World, ok, M, ◌>>◌, task3, task1, task2}
use cs214_assignments.Memgrind.Owned.{Owns, unused-Owns}
use cs214_assignments.Memgrind.Tasks.{bind_ok, Returns, task1-Returns, task2-Returns}
use mathlib.Core.Option.{some}
use cs214_assignments.Malloc.{ready, check_leaks}
use cs214_assignments.Malloc.Chunks.{blocks}
use cs214_assignments.Malloc.Picks.{length-Picks}
use cs214_assignments.Malloc.Layout.{check_leaks_lem}
use cs214_assignments.Memgrind.Stored.{task4, task5}
use cs214_assignments.Memgrind.Removal.{task4-Returns}
use cs214_assignments.Memgrind.Main.{repeat, main}
use cs214_assignments.Memgrind.Resizes.{no_blocks, task5-Returns}
use cs214_assignments.Memgrind.Rounds.{Fair, task3-Returns}

module _ (base : ℕ) (pos : 0 < base) (align : base % 8 ≡ 0) (rand : ℕ → ℕ) where
  then-Returns :
      (m m' : M (Unit {0})) (w : World)
      → Returns base m w
      → ((w' : World) → Owns base 16 w' [] → Returns base m' w')
      → Returns base (m >> m') w
  then-Returns m m' w r next =
      let r' = next r.world r.owns in
      record {
        world = r'.world;
        returns = bind_ok m _ w r.world tt r.returns ∙ r'.returns;
        owns = r'.owns;
      }

  repeat-Returns :
      (task : M (Unit {0}))
      → ((w : World) → Owns base 16 w [] → Returns base task w)
      → (n : ℕ) (w : World) → Owns base 16 w []
      → Returns base (repeat n task) w
  unfolding repeat
  repeat-Returns task h zero w o = record { world = w; returns = refl; owns = o }
  repeat-Returns task h (suc n) w o =
      then-Returns task (repeat n task) w (h w o) (repeat-Returns task h n)

  main-Returns :
      (d : ℕ) (fair : Fair rand d) (fuel : ℕ)
      → 121 * (d + 1) < fuel
      → (w : World) → Owns base 16 w []
      → Returns base (main base rand fuel) w
  unfolding main
  main-Returns d fair fuel enough w o =
      then-Returns _ _ w (repeat-Returns (task1 base) (task1-Returns base pos align) 50 w o)
        (λ w1 o1.
          then-Returns _ _ w1 (repeat-Returns (task2 base) (task2-Returns base pos align) 50 w1 o1)
            (λ w2 o2.
              then-Returns _ _ w2
                (repeat-Returns (task3 base rand fuel)
                  (task3-Returns base pos align rand d fair fuel enough) 50 w2 o2)
                (λ w3 o3.
                  then-Returns _ _ w3
                    (repeat-Returns (task4 base) (task4-Returns base pos align) 50 w3 o3)
                    (repeat-Returns (task5 base rand) (task5-Returns base pos align rand) 50))))

  -- The five tasks of memgrind, 50 runs of each on a heap that was not used before with an aligned
  -- base other than NULL, come to an end with every request granted, no message of the allocator
  -- and no block left, where `rand` gives two even numbers in a row once in every `d` calls and
  -- `task3` has more than 121 * (d + 1) rounds.
  pub memgrind_ends :
      (d : ℕ) (fair : Fair rand d) (fuel : ℕ) (w : World)
      → 121 * (d + 1) < fuel
      → w.heap.initialized ≡ false
      → w.stderr ≡ []
      → (w' : World) × (main base rand fuel w ≡ ok tt w')
        × (w'.stderr ≡ [])
        × (check_leaks (ready w'.heap) ≡ some [])
  memgrind_ends d fair fuel w enough new quiet =
      let r = main-Returns d fair fuel enough w (unused-Owns base 16 w new quiet) in
      let none_left =
        no_blocks (blocks 0 r.owns.chunks)
          (length-Picks base [] (blocks 0 r.owns.chunks) r.owns.picks) in
      (
        r.world,
        r.returns,
        r.owns.quiet,
        check_leaks_lem (ready r.world.heap) r.owns.chunks r.owns.represents ∙ rw none_left refl,
      )
