-- ===== src/Fs.antt =====
-- src/fs/fs.c: the file system over a disk image.
pub mod Host
pub mod Geometry
pub mod Names
pub mod State
pub mod Ops
pub mod Transfer
