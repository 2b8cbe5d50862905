-- ===== src/Cpu/Stack.antt =====
-- Words on the tape and the stack of src/emu/cpu.c.
pub mod Words
use turning_machine_operatin.Base.{
  ℕ, ◌+◌, ◌-◌, ◌*◌, ◌/◌, ◌%◌, ◌^◌, bit_and, bit_or, u8, u16, sub16, ◌<<◌, ◌>>>◌,
}
use turning_machine_operatin.Mem.{Tape, mem_read, mem_write}
use turning_machine_operatin.Cpu.State.{Cpu, Machine}

unfoldable pub read_u16 : Tape → ℕ → ℕ
read_u16 mem addr = u16 (bit_or (mem_read mem addr) (u16 (mem_read mem (u16 (addr + 1))) << 8))

unfoldable pub push_u16 : Machine → ℕ → Machine
push_u16 m value =
    let lo = u8 (bit_and value 0xff) in
    let hi = u8 (value >>> 8) in
    let mem₁ = mem_write m.mem (sub16 m.cpu.sp 1) hi in
    let mem₂ = mem_write mem₁ (sub16 m.cpu.sp 2) lo in
    record { cpu = record m.cpu { sp = sub16 m.cpu.sp 2 }; mem = mem₂ }

unfoldable pub pop_u16 : Machine → ℕ × Machine
pop_u16 m =
    let lo = mem_read m.mem m.cpu.sp in
    let hi = mem_read m.mem (u16 (m.cpu.sp + 1)) in
    (u16 (bit_or lo (u16 hi << 8)), record m { cpu = record m.cpu { sp = u16 (m.cpu.sp + 2) } })
