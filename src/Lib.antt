-- ===== src/Lib.antt =====
-- TuringOS: the emulated 8080 machine, its file system, its BIOS and its kernel, from the C sources.
--
-- The program emulates an 8080 processor over a tape of 65536 bytes, runs a shell on it, and serves
-- the shell's system calls through a BIOS that works on a disk image. The kernel loop steps the
-- processor and calls the BIOS when an OUT to port 1 is pending.
--
-- Which file models which part:
-- - Base and its children: shared names, Boolean tests, machine words, laws of the bit operations,
--   and C arrays as lists or as functions from indices.
-- - Mem: src/emu/mem.c. The array `g_mem` is a function from addresses, passed and returned.
-- - Cpu and its children: src/emu/cpu.c and src/emu/cpu.h. Cpu.State has `cpu_t` and joins it to the
--   tape as a `Machine`; Cpu.Flags the flag byte; Cpu.Regs register codes; Cpu.Alu the arithmetic
--   helpers; Cpu.Stack words and the stack; Cpu.Ops and Cpu.Groups the longer cases of the switch in
--   `cpu_step`; Cpu.Decode its case labels; Cpu.Step the switch itself and the step.
-- - Fs and its children: src/fs/fs.c. Fs.Host stands for the C library's calls on the open image
--   with a list of faults; Fs.Geometry has sector numbers and offsets; Fs.Names file names; Fs.State
--   the static variables, the directory cache and sector transfers; Fs.Ops the entry points on names
--   and handles; Fs.Transfer `fs_read` and `fs_write`.
-- - Bios and its children: src/bios/bios.c. Bios.Queue is the ring of console output; Bios.State the
--   static variables and the world that the calls work on; Bios.Console the console, line, sector and
--   variable calls; Bios.Files and Bios.Compile the calls on whole files; Bios.Dispatch the switch.
-- - Kernel: src/kernel/kernel.c. `kernel_round` is one round of the loop of `kernel_run`, with the
--   file of the shell's program and the compiler as parameters; Kernel.Transitions relates
--   the kernel before a round to the one after it, Kernel.Reach has what holds in every state that it
--   reaches, Kernel.Halts a run that ends, Kernel.Snapshots the bytes of the files that it
--   writes for the visualizer.
-- - Compiler and its children: src/compiler/compiler.c and src/compiler/compiler.h. Compiler.Result
--   and Compiler.Action are the outcomes -1 and success, and functions on a state in sequence;
--   Compiler.Token and Compiler.Lexer `cc_lex`; Compiler.Ast the nodes and the parser's primitives;
--   Compiler.Parser its expressions, Compiler.Parser.Stmt its statements and `cc_parse`;
--   Compiler.Code the emitter, Compiler.Code.Symbols names and variables, Compiler.Code.Binop the
--   operators, Compiler.Code.Expr `cg_expr`, Compiler.Code.Stmt `cg_stmt`,
--   Compiler.Code.Whole `cc_codegen` and `cc_compile`. The other modules below them have the proofs.
-- - Mkdisk and its children: tools/mkdisk.c, the program that writes an empty image, and that the
--   file system accepts it.
-- - Examples: the theorems at concrete inputs.
--
-- Conventions. A machine integer is a native number with its wrap written out. A return value -1 is
-- `none` or `false`. `p ^ q`, masks and shifts are the library's operations on numbers. A pointer is
-- never null, since its target is an argument; negative `int` arguments, which the functions refuse
-- at once, have no counterpart. An access outside an array, which C leaves undefined, gives some
-- value of the function that models the array.
--
-- Fuel. The parity loop has 8 rounds, one for each bit of a byte. The loop of `fs_read` has a round
-- for each byte asked for, and that of `fs_write` one for each byte given: a round that goes on
-- moves at least one byte. Loading a program has 16384 rounds, more than the cells it can fill, and
-- reading a source for the compiler as many, more than its buffer holds. Printing a file has 65536
-- rounds, more than the bytes of a file on a disk whose reads work; on a disk that fails again and
-- again the code itself may go on for longer. Draining the console queue takes 1023 rounds at most.
-- The kernel's own loop need not end; its rounds are counted.
--
-- The lexer has a round for each character and one more; the parser's calls and loops have one for
-- each token and one more. For the code generator it is one for each node and one more, since it
-- walks down a tree; a fuel that runs out would give the outcome `starved`, which the program does
-- not have and which is kept apart from -1.
--
-- The compiler's sources are shorter than 2^32 characters, so that its counters do not wrap; a number
-- that overflows an `int`, which C leaves undefined, wraps. The nodes, tokens and bytes of its arrays
-- are lists. `cc_compile` maps the bytes of the source file to those of the output file.
-- In Bios.Compile and Kernel the compiler, with the files of the host that it is run on, is a
-- parameter; `staged_compiler` of Bios.Staging is the one of the program, for each outcome of the
-- host's calls on the files.
--
-- Not modelled: the program in src/shell, which is written in the compiler's language, the
-- visualizer and tests.
pub mod Base
pub mod Mem
pub mod Cpu
pub mod Fs
pub mod Bios
pub mod Kernel
pub mod Compiler
pub mod Mkdisk
pub mod Examples
