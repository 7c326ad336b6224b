-- ===== src/Lib.antt =====
-- The assignments of CS214, four programs in C that share no code: a memory allocator (P1), a
-- spelling checker (P2), a shell (P3) and a server for the game of Nim (P4). Each is a tree of
-- modules here, over the shared names of Base (tests on native numbers, lists and C strings).
--
-- Malloc: P1/src/mymalloc.c.
--   Malloc.antt has one function per C function, with the loops of find_free, coalesce and
--   check_leaks as functions on fuel (find_free_from, coalesce_from, leaks_from), and mymalloc in
--   the parts ready, malloc_in, retry and place. An address inside the heap is its offset from
--   heap.bytes; `base` is the address of heap.bytes, so a pointer is base plus an offset. The
--   memory is read and written in 8-byte words at the offsets of the headers; payloads are words
--   of the same memory. Sums and differences of size_t wrap at 2 ^ 64; sums of pointers are not
--   wrapped. `loop_fuel` is 512: each step of a loop passes or removes a header, every chunk
--   takes at least 9 of the 4096 bytes, and so a heap that holds a list of chunks has at most 455
--   of them. Chunks and Represent have the abstract view, a list of chunks with its allocated
--   blocks, and when a memory holds it; Merge, Surgery, Allocate, Serve, Release, Layout and
--   Overflow are named for what they prove; Room is about how much a heap can serve; History has
--   the heaps that a client can reach by calls.
--
-- Memgrind: P1/memgrind.c, a program over the allocator.
--   Memgrind.antt has the calls of the allocator and task1, task2 and task3, Memgrind/Stored.antt
--   task4 and task5, which store something in their objects, and Memgrind/Main.antt the loops of
--   main over the five, in a monad of the heap, the messages and the end of the process. What
--   rand returns is a parameter, a sequence of numbers; `>>=` and the rest of the monad are the
--   notation. A field of a node and an int are cells of the memory at their addresses, each read
--   as it was written. The `while` of task3 has fuel, and 121 * (d + 1) rounds are enough where
--   two even numbers in a row come once in every `d` calls; the loops of task4 have 61 rounds,
--   one more than the list has nodes. Printing and the clock are left out. Malloc/Picks and Owned
--   are about the pointers that a program holds, Tasks, Random, Rounds, Linked, Nodes, Making,
--   Removal, Arrays and Resizes about the tasks, and Program about main; that a program may write
--   inside its blocks is in Malloc/Payload.
--
-- Spell: P2/src/spell.c.
--   Spell.antt has the hash table (hash, dict_create, to_lower, dict_add, dict_lookup),
--   load_dictionary, should_skip_word, normalize_word and ends_with; Spell/Scan.antt has
--   check_file, and Spell/Walk.antt process_directory and main, over a file system that is a tree
--   with what stat and readdir give. Paths stay below 1024 bytes, and links make no cycle. A
--   table is a function from buckets to chains. The global dictionary is an argument, and a file
--   is the list of the buffers that read returns. Where open fails the file is `none`;
--   load_dictionary is modelled behind its open, which main_with tests. `int` counters of lines
--   and columns do not wrap. A char is signed, as on the platforms of the Makefiles; the
--   character classes are those of the C locale. Dictionary and Load prove what the dictionary
--   holds, Words is about normalize_word and ends_with, Scan/Text and Scan/Positions are about
--   the words of a text and the reports of check_file, Walk/Targets and Walk/Selected about the
--   files that are checked.
--
-- Shell: P3/src/parse.c, P3/src/exec.c, P3/src/shell.c and P3/src/main.c.
--   Shell/Tokens.antt has tokenize and read_command, Shell/Parse.antt parse_job,
--   Shell/Command.antt is_builtin, execute_builtin and find_program, Shell/Process.antt the part
--   of execute_job that makes pipes, forks and waits (make_pipes, fork_all, child, run_one,
--   run_pipeline), over the tables of descriptors of Shell/Descriptors.antt, and
--   Shell/Execute.antt the rest of execute_job, shell_loop and main. What the operating system
--   does is the record Os, an argument: chdir, getcwd, access, whether open, pipe, fork and execv
--   succeed, what waitpid gives, and the system behind the children. waitpid returns: a child
--   that never ends, and so blocks the shell, is not modelled. A child finds the system as it was
--   when the job began; what a program does that takes its place is in waitpid and the system
--   behind. strtok_r is written out, with its three delimiters. The input is a list of bytes;
--   read does not fail on it, and malloc and strdup return memory. The fixed arrays of parse_job
--   (50 segments, 100 arguments) are lists of at most that length; where the program writes past
--   the end of one, parse_job gives `overrun`, and the shell stops with is_undefined set, since
--   the program has no meaning from there on. Of the output, what the shell itself prints to
--   stdout is kept; the messages on stderr are not. The fuel of shell_loop is the number of
--   rounds, and one more than the number of input bytes is enough. Tokens/Split, Parse/Grammar
--   and Parse/Sound are about the parser, Command/Loop about the loop and main, Command/Builtins
--   about find_program and the built-in commands, Descriptors/Lookup, Process/Pipes,
--   Process/Wiring and Process/Outcome about the descriptors of the children, Execute/Status
--   about whole jobs, and Execute/Ends about the jobs that end the shell.
--
-- Nim: P4/clients/src/nimd.c.
--   Nim/Names.antt has register_name, remove_name and the opening of a connection in
--   handle_client, Nim/Frame.antt send_msg, read_n and receive_msg, and Nim/Game.antt
--   game_thread: the code in front of its loop (start_game), a round of the loop (round, with the
--   parts idle_part and active_part), the code behind it (end_game), and a run over a list of
--   inputs (run_game), each of them what poll and receive_msg find in a round. Messages sent and
--   sockets closed are lists; a socket goes by the number of its player. A C int is its bit
--   pattern below 2 ^ 32, and atoi is (int) strtol with 64-bit longs. Writing to a socket does
--   not fail. Behind the game the names are taken out of the register by remove_name.
--   Nim/Lobby.antt has the threads that admit and pair clients (the rest of handle_client) and
--   the ends of the games, as a step relation: what a thread does under the lock is one step, and
--   the steps of all threads come in any order. A Player goes by its address; which free address
--   malloc gives is a parameter, Choice. pthread_create does not fail for a game. What a client
--   is told that interrupts its waiting is left out. Lobby/Invariant, Holders, Clients, Ends and
--   Steps are about every reachable state, Lobby/Owner and Lobby/Race about the comparison of
--   addresses that tells a thread whether its client was paired. Frame/RoundTrip is about
--   messages, Game/Rules, Game/Shown, Game/Play and Game/Finish about rounds, the boards that are
--   sent, whole games and their end. The text board_str is the list of the piles that it shows.
--
-- Each Tests module runs its program at concrete inputs and applies the theorems there.
--
-- Not modelled: the clock of P1/memgrind.c, P1/memtest.c (a test), main of nimd.c (it accepts
-- connections and starts threads), the raw client, the test suite and network.c and pbuf.c of
-- P4/clients/src (input and output), and the test programs.
pub mod Base
pub mod Malloc
pub mod Memgrind
pub mod Spell
pub mod Nim
pub mod Shell
