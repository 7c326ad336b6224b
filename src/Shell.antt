-- ===== src/Shell.antt =====
-- P3/src/parse.c, P3/src/exec.c and P3/src/shell.c: the shell. A `char*` is the list of its bytes in
-- front of the terminating NUL. Memory is taken to suffice: no call of `malloc` fails.
pub mod Tokens
pub mod Parse
pub mod Descriptors
pub mod Command
pub mod Process
pub mod Execute
mod Tests
