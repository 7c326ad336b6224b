-- ===== src/Nim.antt =====
-- P4/clients/src/nimd.c, the Nim server: the register of names, the framing of messages, and the game.
-- A `char*` is the list of its bytes in front of the terminating NUL.
pub mod Names
pub mod Frame
pub mod Game
pub mod Lobby
mod Tests
