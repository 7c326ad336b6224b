-- ===== src/Memgrind/Main.antt =====
-- `main` of P1/memgrind.c without its clock and its printing.
use cs214_assignments.Base.{ℕ, zero, suc}
use cs214_assignments.Memgrind.{M, pure, ◌>>◌, num_runs, task1, task2, task3}
use cs214_assignments.Memgrind.Stored.{task4, task5}

-- the loop over the runs
unfoldable pub repeat : ℕ → M (Unit {0}) → M (Unit {0})
repeat zero task = pure tt
repeat (suc n) task = do task; repeat n task

-- the tasks in turn; the fuel is that of `task3`
unfoldable pub main : ℕ → (ℕ → ℕ) → ℕ → M (Unit {0})
unfolding task1 task2 task3 task4 task5 repeat
main base rand fuel = do
  repeat num_runs (task1 base)
  repeat num_runs (task2 base)
  repeat num_runs (task3 base rand fuel)
  repeat num_runs (task4 base)
  repeat num_runs (task5 base rand)
