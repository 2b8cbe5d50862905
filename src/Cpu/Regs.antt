-- ===== src/Cpu/Regs.antt =====
-- Registers by code of src/emu/cpu.c: 0 to 7 for B, C, D, E, H, L, the byte at HL, and A, and 0 to
-- 3 for the pairs BC, DE, HL and SP.
pub mod Access
use turning_machine_operatin.Base.{
  ℕ, ◌+◌, ◌*◌, ◌/◌, ◌%◌, ◌^◌, bit_and, bit_or, ◌==◌, if◌then◌else◌, u8, u16, ◌<<◌, ◌>>>◌,
}
use turning_machine_operatin.Mem.{mem_read, mem_write}
use turning_machine_operatin.Cpu.State.{Cpu, Machine}

-- `(uint16_t)(((uint16_t)hi << 8u) | lo)`
unfoldable pub pair : ℕ → ℕ → ℕ
pair hi lo = u16 (bit_or (u16 hi << 8) lo)

unfoldable pub get_hl : Cpu → ℕ
unfolding pair
get_hl cpu = pair cpu.h cpu.l

unfoldable pub get_rp : Cpu → ℕ → ℕ
unfolding pair get_hl
get_rp cpu rp =
    let code = bit_and rp 3 in
    if code == 0
    then pair cpu.b cpu.c
    else if code == 1
    then pair cpu.d cpu.e
    else if code == 2
    then get_hl cpu
    else if code == 3
    then cpu.sp
    else 0

unfoldable pub set_rp : Cpu → ℕ → ℕ → Cpu
set_rp cpu rp value =
    let code = bit_and rp 3 in
    let hi = u8 (value >>> 8) in
    let lo = u8 (bit_and value 0xff) in
    if code == 0
    then record cpu { b = hi; c = lo }
    else if code == 1
    then record cpu { d = hi; e = lo }
    else if code == 2
    then record cpu { h = hi; l = lo }
    else if code == 3
    then record cpu { sp = value }
    else cpu

unfoldable pub read_reg_by_code : Machine → ℕ → ℕ
unfolding get_hl
read_reg_by_code m reg_code =
    let code = bit_and reg_code 7 in
    if code == 0
    then m.cpu.b
    else if code == 1
    then m.cpu.c
    else if code == 2
    then m.cpu.d
    else if code == 3
    then m.cpu.e
    else if code == 4
    then m.cpu.h
    else if code == 5
    then m.cpu.l
    else if code == 6
    then mem_read m.mem (get_hl m.cpu)
    else if code == 7
    then m.cpu.a
    else 0

unfoldable pub write_reg_by_code : Machine → ℕ → ℕ → Machine
unfolding get_hl
write_reg_by_code m reg_code value =
    let code = bit_and reg_code 7 in
    if code == 0
    then record m { cpu = record m.cpu { b = value } }
    else if code == 1
    then record m { cpu = record m.cpu { c = value } }
    else if code == 2
    then record m { cpu = record m.cpu { d = value } }
    else if code == 3
    then record m { cpu = record m.cpu { e = value } }
    else if code == 4
    then record m { cpu = record m.cpu { h = value } }
    else if code == 5
    then record m { cpu = record m.cpu { l = value } }
    else if code == 6
    then record m { mem = mem_write m.mem (get_hl m.cpu) value }
    else if code == 7
    then record m { cpu = record m.cpu { a = value } }
    else m
