-- ===== src/Shell/Descriptors.antt =====
-- Tables of file descriptors, as the children of P3/src/exec.c handle them. A table is a list indexed
-- by the descriptor; a new one is the lowest that is free, as POSIX has it.
pub mod Lookup
use cs214_assignments.Base.{ℕ, zero, suc, List, [], ◌∷◌, Option, none, some, get_or}
use cs214_assignments.Base.Bytes.{Bytes}

-- What a descriptor stands for: something the shell had open, a file, or an end of pipe `i` of the job.
pub data Opened : Type 0 where
  given : ℕ → Opened
  null_device : Opened
  reads : Bytes → Opened
  writes : Bytes → Opened
  read_end : ℕ → Opened
  write_end : ℕ → Opened

abbrev pub FdTable : Type 0
FdTable = List (Option Opened)

-- What a child does behind its redirections: it exits with 1; it runs a built-in command and exits,
-- with the status and the output; or a program takes its place.
pub data Child : Type 0 where
  gives_up : Child
  built_in : ℕ → Bytes → FdTable → Child
  executes : Bytes → List Bytes → FdTable → Child

abbrev pub open_at : FdTable → ℕ → Option Opened
open_at fds fd = get_or fds fd none

unfoldable pub lowest : FdTable → ℕ
lowest [] = 0
lowest (none ∷ fds) = 0
lowest (some f ∷ fds) = suc (lowest fds)

-- the table with a file at the lowest free descriptor
unfoldable pub install : FdTable → Opened → FdTable
install [] f = some f ∷ []
install (none ∷ fds) f = some f ∷ fds
install (some g ∷ fds) f = some g ∷ install fds f

unfoldable pub put_at : FdTable → ℕ → Option Opened → FdTable
put_at [] zero f = f ∷ []
put_at [] (suc fd) f = none ∷ put_at [] fd f
put_at (g ∷ fds) zero f = f ∷ fds
put_at (g ∷ fds) (suc fd) f = g ∷ put_at fds fd f

abbrev pub close : FdTable → ℕ → FdTable
close fds fd = put_at fds fd none

-- `dup2` of a descriptor that is not open changes nothing
abbrev pub dup2 : FdTable → ℕ → ℕ → FdTable
dup2 fds from to = elim (open_at fds from) [ none ↦ fds | some f ↦ put_at fds to (some f) ]

-- `int fd = open(...); dup2(fd, to); close(fd);` where `open` succeeds
abbrev pub redirect : FdTable → ℕ → Opened → FdTable
redirect fds to f = close (dup2 (install fds f) (lowest fds) to) (lowest fds)

-- the loops that close both ends of every pipe
unfoldable pub close_all : List (ℕ × ℕ) → FdTable → FdTable
close_all [] fds = fds
close_all (p ∷ ps) fds = close_all ps (close (close fds p.0) p.1)
