-- ===== src/Mem.antt =====
-- src/emu/mem.c: the tape, 65536 bytes behind an address of 16 bits. `g_mem` is a function from
-- addresses to bytes, passed to and returned by what reads and writes it.
use turning_machine_operatin.Base.{ℕ, ◌<◌, ◌≡◌, ◌≢◌, refl, arith, ◌==◌, if◌then◌else◌}

abbrev pub Tape : Type 0
Tape = ℕ → ℕ

unfoldable pub mem_init : Tape
mem_init = λ addr. 0

unfoldable pub mem_read : Tape → ℕ → ℕ
mem_read mem addr = mem addr

unfoldable pub mem_write : Tape → ℕ → ℕ → Tape
mem_write mem addr val = λ x. if x == addr then val else mem x

-- Every cell holds a byte.
abbrev pub IsTape : Tape → Type 0
IsTape mem = (x : ℕ) → mem_read mem x < 256

pub mem_read-mem_write :
    (mem : Tape) (addr val x : ℕ)
    → mem_read (mem_write mem addr val) x ≡ (if x == addr then val else mem_read mem x)
unfolding mem_read mem_write
mem_read-mem_write mem addr val x = refl

pub mem_read-mem_write_self :
    (mem : Tape) (addr val : ℕ) → mem_read (mem_write mem addr val) addr ≡ val
unfolding mem_read mem_write
mem_read-mem_write_self mem addr val = ground arith

pub mem_read-mem_write_ne :
    (mem : Tape) (addr val x : ℕ) → x ≢ addr → mem_read (mem_write mem addr val) x ≡ mem_read mem x
unfolding mem_read mem_write
mem_read-mem_write_ne mem addr val x h = ground arith

pub mem_write-IsTape :
    (mem : Tape) (addr val : ℕ) → IsTape mem → val < 256 → IsTape (mem_write mem addr val)
mem_write-IsTape mem addr val h fits = λ x. ground (arith, mem_read-mem_write mem addr val x, h x)
