-- ===== src/Lib.antt =====
-- The C programs of the COMP 304 assignments.
--
-- First the memory allocator of project-3-memory-allocator, with the framework that tests it. The
-- allocator (alloc.c) asks the framework for heap memory by `sbrk`; the framework
-- (test_framework/intercept.c) moves the break inside one mapped area, and keeps its own lists of
-- allocations (test_framework/memlist.c) by which the checked calls (test_framework/checked_alloc.c)
-- watch every buffer. `do_brk` in turn asks the list of allocations whether memory that goes back
-- is still in use. Then the shell of project-1-shell, a program of its own: its parser turns a line
-- into the commands that the shell runs; its kernel module lists a tree of processes. Last the metro
-- simulation of project-2-metro-simulation: four threads create trains, a control center lets one
-- train after the other through the tunnel, and two logs are written at the end.
--
-- Files and sources:
--   Machine, Machine/Memory: runs of C code over an explicit state. A run returns a result and a
--     state, faults (an access outside mapped memory), exits (a failed `assert`), or is out of
--     fuel. Memory is a function from addresses to bytes, with little-endian integers of 64 bits.
--   Memlist, Memlist/Objects: project-3-memory-allocator/test_framework/memlist.c. The objects
--     `struct mem_region` are a store by address, with their `next` and `prev` pointers; each
--     function is a command of the source's name less `memlist_`, or with it where the bare name
--     would mislead. Memlist/Chain says which sequence of cells a list stands for; Memlist/Links,
--     Insert, Remove, Add, Pool, Ordered, Tag and Sizes prove what the operations do to it.
--   System: the globals of all four files together with heap memory. System/Access has loads and
--     stores: an address is mapped from the heap's start to the end of the break's page, since
--     `do_brk` opens and closes whole pages by `mprotect`.
--   Runner: test_framework/main.c. The options are what `getopt_long` returns; the table of tests is
--     an argument.
--   Intercept: the refused calls, and `init_heap`, `do_brk`, `brk` and `sbrk` of
--     test_framework/intercept.c.
--   Alloc/Fields, Malloc, Free, Realloc: alloc.c, where `struct block` and `struct free_list` are
--     fields in heap memory. The long bodies of `kumalloc` and `kufree` are cut into one command for
--     each branch or loop, and composed as in the source. Alloc/Inv has the invariant of the frame
--     and the free list as a sequence of blocks; Alloc/Stack
--     the states that a program reaches; the other files have the theorems.
--   Checked: test_framework/checked_alloc.c, with `memlist_check_data` of memlist.c.
--   Shell: `parse_command` of project-1-shell/src/shell-skeleton.c. Strings are lists of characters
--     without their terminator; the pointer that `strtok` keeps is what is left of the string. A
--     pipe is the list of its commands. Shell/Prompt: `prompt`, with arrays as functions from indices.
--     Shell/Alias: `read_from_file` and `check_for_aliases`; Replace: `replace` and the loop of
--     `repl`; Dump: `print_xdd`; Clock: `display_time` and large_digits.h; Morning: `good_morning`;
--     Commands, Child and Loop: `process_command`, its child process, and `main`. Host has what these
--     see of the system, what `malloc` and the string of PATH have in them and behind them, and what
--     they do to the system as a list of effects. Chars, Editor, File, Expand, Aliases, Repl, Endless,
--     Groups, Rows, Search, Redirect, Cases, Results, Runs, Flag, Unload and Builtins have the theorems.
--   Psvis: project-1-shell/module/mymodule.c. Processes are a tree with their threads; the listing is
--     a list of rows with their text. Order and Listing have the theorems.
--   Metro: project-2-metro-simulation/main.cpp. Data has the shared variables and where each thread
--     stands, Control and Section the atomic steps of `controlCenter` and `sectionFunction`: a part
--     under `trainMutex`, or what stands between two. System has their interleavings as lists of
--     moves, with the clock as a thread of its own; a sleep ends at a time. Log has `controlLog` and
--     `trainLog`, Args `main`. Weight, Bound, Located, Tunnel, Spec, Front, Clear, Waiting, Records
--     and Options have the theorems.
--   Prelude/Text: texts, and decimal numbers as `to_string`, `atoi` and `%d` write and read them.
--   Tests: the theorems at concrete states.
--
-- Integers: `size_t` and pointers are natural numbers with their wrap-around written out; an `int`
-- is its 32-bit pattern. Fuel: every loop takes a bound `k` on its rounds, and a theorem about a
-- loop holds for each bound above the number of elements it walks. mmap is a parameter (`Os`).
--
-- Random draws are moves' arguments, floats with their operations a parameter (`Floats`), and
-- `localtime` a function. The numbers of trains and seconds have no bound.
--
-- Not modelled: the prints of `pr_debug`, `memlist_dump` and the simulation's debug mode, the usage
-- of test_framework/main.c and the test scripts of tests.c, kbhit, print_command and free_command of
-- the shell, and module/plot.py, a Python script.
pub mod Prelude
pub mod Machine
pub mod Memlist
pub mod System
pub mod Intercept
pub mod Alloc
pub mod Checked
pub mod Shell
pub mod Metro
pub mod Psvis
pub mod Runner
pub mod Tests
