-- ===== src/Memgrind/Tests.antt =====
-- Runs of P1/memgrind.c, and its theorem for a sequence of numbers.
use cs214_assignments.Base.{ℕ, ◌+◌, ◌-◌, ◌%◌, ◌≡◌, refl, false, [], some, arith}
use cs214_assignments.Malloc.{ready, check_leaks}
use cs214_assignments.Memgrind.{World, ok}
use cs214_assignments.Memgrind.Main.{main}
use cs214_assignments.Memgrind.Rounds.{Fair}
use cs214_assignments.Memgrind.Program.{memgrind_ends}

-- 0, 1, 2, 0, 1, 2, ...: two even numbers in a row begin at every third place
abbrev thirds : ℕ → ℕ
thirds i = i % 3

thirds-Fair : Fair thirds 3
thirds-Fair i = (i + 2 - i % 3, omega arith, omega arith, omega arith, omega arith)

abbrev before_main : World
before_main = record {
  heap = record { bytes = λ a. 0; initialized = false; checked_at_exit = false };
  stderr = [];
  drawn = 0;
}

memgrind_ends_example :
    (w : World) × (main 65536 thirds 500 before_main ≡ ok tt w)
    × (w.stderr ≡ [])
    × (check_leaks (ready w.heap) ≡ some [])
memgrind_ends_example =
    memgrind_ends 65536 (omega arith) refl thirds 3 thirds-Fair 500 before_main (omega arith) refl
      refl
