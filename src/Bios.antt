-- ===== src/Bios.antt =====
-- src/bios/bios.c: the console queue, the line and name buffers, and the system calls.
pub mod Queue
pub mod State
pub mod Console
pub mod Files
pub mod Compile
pub mod Staging
pub mod Dispatch
