-- ===== src/Cpu/Alu.antt =====
-- The arithmetic and logic of src/emu/cpu.c: what each helper writes to A and to the flags.
pub mod Sums
pub mod Decimal
pub mod Keeps
pub mod Counts
pub mod Inverses
use turning_machine_operatin.Base.{
  ℕ, ◌+◌, ◌-◌, ◌*◌, ◌/◌, ◌%◌, Bool, true, false, ◌||◌, bit_and, bit_or, ◌==◌, ltb, if◌then◌else◌,
  to_bit, u8, u16, sub8, sub16,
}
use turning_machine_operatin.Cpu.State.{Cpu, Machine}
use turning_machine_operatin.Cpu.Flags.{
  has, clear, raise_if, set_szp, carry_flags, flag_ac, flag_cy,
}
use turning_machine_operatin.Cpu.Regs.{read_reg_by_code, write_reg_by_code}

unfoldable pub add_to_a : Cpu → ℕ → ℕ → Cpu
add_to_a cpu value carry_in =
    let sum = u16 (cpu.a + value + carry_in) in
    let result = u8 (bit_and sum 0xff) in
    let ac = ltb 0x0F (bit_and cpu.a 0x0F + bit_and value 0x0F + carry_in) in
    record cpu { a = result; flags = carry_flags (set_szp cpu.flags result) (ltb 0xff sum) ac }

unfoldable pub sub_from_a : Cpu → ℕ → ℕ → Cpu
sub_from_a cpu value borrow_in =
    let sub = u16 (value + borrow_in) in
    let diff = sub16 cpu.a sub in
    let result = u8 (bit_and diff 0xff) in
    let cy = ltb cpu.a sub in
    let ac = ltb (bit_and cpu.a 0x0F) (bit_and value 0x0F + borrow_in) in
    record cpu { a = result; flags = carry_flags (set_szp cpu.flags result) cy ac }

unfoldable pub inr_reg : Machine → ℕ → Machine
unfolding clear raise_if
inr_reg m reg_code =
    let before = read_reg_by_code m reg_code in
    let result = u8 (before + 1) in
    let m₁ = write_reg_by_code m reg_code result in
    let flags = clear (set_szp m₁.cpu.flags result) flag_ac in
    let ac = ltb 0x0F (bit_and before 0x0F + 1) in
    record m₁ { cpu = record m₁.cpu { flags = raise_if ac flags flag_ac } }

unfoldable pub dcr_reg : Machine → ℕ → Machine
unfolding clear raise_if
dcr_reg m reg_code =
    let before = read_reg_by_code m reg_code in
    let result = sub8 before 1 in
    let m₁ = write_reg_by_code m reg_code result in
    let flags = clear (set_szp m₁.cpu.flags result) flag_ac in
    let ac = bit_and before 0x0F == 0 in
    record m₁ { cpu = record m₁.cpu { flags = raise_if ac flags flag_ac } }

unfoldable pub logic_flags : Cpu → ℕ → Cpu
unfolding clear
logic_flags cpu result = record cpu { a = result; flags = set_szp (clear cpu.flags 0x11) result }

unfoldable pub logic_flags_and : Cpu → ℕ → Cpu
unfolding clear
logic_flags_and cpu result = record cpu {
  a = result;
  flags = set_szp (bit_or (clear cpu.flags flag_cy) flag_ac) result;
}

unfoldable pub cmp_flags_only : Cpu → ℕ → Cpu
cmp_flags_only cpu value =
    let diff = sub16 cpu.a value in
    let result = u8 (bit_and diff 0xff) in
    let cy = ltb cpu.a value in
    let ac = ltb (bit_and cpu.a 0x0F) (bit_and value 0x0F) in
    record cpu { flags = carry_flags (set_szp cpu.flags result) cy ac }

-- What `daa` adds to A.
unfoldable pub daa_adjust : ℕ → Bool → Bool → ℕ
daa_adjust a ac cy =
    let low : ℕ = if ltb 9 (bit_and a 0x0F) || ac then bit_or 0 0x06 else 0 in
    if ltb 0x99 a || cy then bit_or low 0x60 else low

unfoldable pub daa : Cpu → Cpu
unfolding has daa_adjust
daa cpu =
    let adjust = daa_adjust cpu.a (has cpu.flags flag_ac) (has cpu.flags flag_cy) in
    let new_cy = if ltb 0x99 cpu.a || has cpu.flags flag_cy then true else has cpu.flags flag_cy in
    let sum = u16 (cpu.a + adjust) in
    let result = u8 (bit_and sum 0xff) in
    let ac = ltb 0x0F (bit_and cpu.a 0x0F + bit_and adjust 0x0F) in
    record cpu { a = result; flags = carry_flags (set_szp cpu.flags result) new_cy ac }

-- `(uint8_t)((cpu->flags & FLAG_CY) != 0u)`
unfoldable pub carry_bit : Cpu → ℕ
unfolding has
carry_bit cpu = to_bit (has cpu.flags flag_cy)
