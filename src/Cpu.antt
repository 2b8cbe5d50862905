-- ===== src/Cpu.antt =====
-- src/emu/cpu.h and the accessors at the top of src/emu/cpu.c: the processor's state.
pub mod Flags
pub mod State
pub mod Regs
pub mod Alu
pub mod Stack
pub mod Ops
pub mod Groups
pub mod Decode
pub mod Step
