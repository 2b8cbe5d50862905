-- ===== src/Cpu/Step.antt =====
-- `cpu_step` of src/emu/cpu.c: fetch, select a case, run it, count the cycle.
pub mod Valid
pub mod Cases
pub mod Effects
use turning_machine_operatin.Base.{
  ℕ, zero, suc, ◌+◌, ◌-◌, ◌%◌, ◌^◌, not, bit_and, bit_or, bit_xor, ◌==◌, if◌then◌else◌, u16, u64,
}
use turning_machine_operatin.Mem.{mem_read}
use turning_machine_operatin.Cpu.State.{Cpu, Machine, set_pc}
use turning_machine_operatin.Cpu.Flags.{flag_cy}
use turning_machine_operatin.Cpu.Regs.{get_hl, read_reg_by_code, write_reg_by_code}
use turning_machine_operatin.Cpu.Alu.{
  add_to_a, sub_from_a, inr_reg, dcr_reg, logic_flags, logic_flags_and, cmp_flags_only, daa,
  carry_bit,
}
use turning_machine_operatin.Cpu.Stack.{read_u16, pop_u16}
use turning_machine_operatin.Cpu.Ops
use turning_machine_operatin.Cpu.Groups
use turning_machine_operatin.Cpu.Groups.{middle_code, low_code}
use turning_machine_operatin.Cpu.Decode
use turning_machine_operatin.Cpu.Decode.{Case, decode}

-- A case that changes the processor alone and goes on at `pc`.
abbrev goes : ℕ → Cpu → Machine → Machine
goes pc cpu m = record m { cpu = record cpu { pc = pc } }

-- The body of each case of the switch.
unfoldable pub execute : Case → ℕ → ℕ → Machine → Machine
execute Case.nop opcode next m = set_pc next m
execute Case.hlt opcode next m = goes next (record m.cpu { halted = 1 }) m
execute Case.lxi_b opcode next m = Ops.lxi_b m next
execute Case.lxi_d opcode next m = Ops.lxi_d m next
execute Case.lxi_h opcode next m = Ops.lxi_h m next
execute Case.lxi_sp opcode next m = Ops.lxi_sp m next
execute Case.mvi opcode next m =
    set_pc (u16 (next + 1)) (write_reg_by_code m (middle_code opcode) (mem_read m.mem next))
execute Case.lda opcode next m = Ops.lda m next
execute Case.sta opcode next m = Ops.sta m next
execute Case.lhld opcode next m = Ops.lhld m next
execute Case.shld opcode next m = Ops.shld m next
execute Case.xchg opcode next m = Ops.xchg m next
execute Case.xthl opcode next m = Ops.xthl m next
execute Case.sphl opcode next m = goes next (record m.cpu { sp = get_hl m.cpu }) m
execute Case.pchl opcode next m = set_pc (get_hl m.cpu) m
execute Case.adi opcode next m = goes (u16 (next + 1)) (add_to_a m.cpu (mem_read m.mem next) 0) m
execute Case.aci opcode next m =
    goes (u16 (next + 1)) (add_to_a m.cpu (mem_read m.mem next) (carry_bit m.cpu)) m
execute Case.sui opcode next m = goes (u16 (next + 1)) (sub_from_a m.cpu (mem_read m.mem next) 0) m
execute Case.sbi opcode next m =
    goes (u16 (next + 1)) (sub_from_a m.cpu (mem_read m.mem next) (carry_bit m.cpu)) m
execute Case.daa opcode next m = goes next (daa m.cpu) m
execute Case.rlc opcode next m = Ops.rlc m next
execute Case.rrc opcode next m = Ops.rrc m next
execute Case.ral opcode next m = Ops.ral m next
execute Case.rar opcode next m = Ops.rar m next
execute Case.cma opcode next m = goes next (record m.cpu { a = 255 - m.cpu.a }) m
execute Case.stc opcode next m = goes next (record m.cpu { flags = bit_or m.cpu.flags flag_cy }) m
execute Case.cmc opcode next m = goes next (record m.cpu { flags = bit_xor m.cpu.flags flag_cy }) m
execute Case.ani opcode next m =
    goes (u16 (next + 1)) (logic_flags_and m.cpu (bit_and m.cpu.a (mem_read m.mem next))) m
execute Case.xri opcode next m =
    goes (u16 (next + 1)) (logic_flags m.cpu (bit_xor m.cpu.a (mem_read m.mem next))) m
execute Case.ori opcode next m =
    goes (u16 (next + 1)) (logic_flags m.cpu (bit_or m.cpu.a (mem_read m.mem next))) m
execute Case.cpi opcode next m =
    goes (u16 (next + 1)) (cmp_flags_only m.cpu (mem_read m.mem next)) m
execute Case.jmp opcode next m = set_pc (read_u16 m.mem next) m
execute Case.call opcode next m = Ops.call m next
execute Case.ret opcode next m = set_pc (pop_u16 m).0 (pop_u16 m).1
execute Case.inp opcode next m =
    goes (u16 (next + 1)) (record m.cpu { a = m.cpu.io_in_ports (mem_read m.mem next) }) m
execute Case.out opcode next m = Ops.out m next
execute Case.ei opcode next m = goes next (record m.cpu { interrupts_enabled = 1 }) m
execute Case.di opcode next m = goes next (record m.cpu { interrupts_enabled = 0 }) m
execute Case.rim opcode next m = goes next (record m.cpu { a = m.cpu.rim_value }) m
execute Case.sim opcode next m = goes next (record m.cpu { sim_value = m.cpu.a }) m
execute Case.add opcode next m =
    goes next (add_to_a m.cpu (read_reg_by_code m (low_code opcode)) 0) m
execute Case.adc opcode next m =
    goes next (add_to_a m.cpu (read_reg_by_code m (low_code opcode)) (carry_bit m.cpu)) m
execute Case.sub opcode next m =
    goes next (sub_from_a m.cpu (read_reg_by_code m (low_code opcode)) 0) m
execute Case.sbb opcode next m =
    goes next (sub_from_a m.cpu (read_reg_by_code m (low_code opcode)) (carry_bit m.cpu)) m
execute Case.inr opcode next m = set_pc next (inr_reg m (middle_code opcode))
execute Case.dcr opcode next m = set_pc next (dcr_reg m (middle_code opcode))
execute Case.inx opcode next m = Groups.inx opcode next m
execute Case.dcx opcode next m = Groups.dcx opcode next m
execute Case.dad opcode next m = Groups.dad opcode next m
execute Case.ana opcode next m =
    goes next (logic_flags_and m.cpu (bit_and m.cpu.a (read_reg_by_code m (low_code opcode)))) m
execute Case.xra opcode next m =
    goes next (logic_flags m.cpu (bit_xor m.cpu.a (read_reg_by_code m (low_code opcode)))) m
execute Case.ora opcode next m =
    goes next (logic_flags m.cpu (bit_or m.cpu.a (read_reg_by_code m (low_code opcode)))) m
execute Case.cmp opcode next m =
    goes next (cmp_flags_only m.cpu (read_reg_by_code m (low_code opcode))) m
execute Case.jccc opcode next m = Groups.jump_if opcode next m
execute Case.cccc opcode next m = Groups.call_if opcode next m
execute Case.rccc opcode next m = Groups.return_if opcode next m
execute Case.push opcode next m = Groups.push_pair opcode next m
execute Case.pop opcode next m = Groups.pop_pair opcode next m
execute Case.rst opcode next m = Groups.rst opcode next m
execute Case.mov opcode next m = Groups.mov opcode next m
execute Case.fallback opcode next m = set_pc next m

-- `cpu->cycles += 1u;`
abbrev pub tick : Machine → Machine
tick m = record m { cpu = record m.cpu { cycles = u64 (m.cpu.cycles + 1) } }

-- A machine always has a processor, so the test for a null pointer has no counterpart.
unfoldable pub cpu_step : Machine → Machine
cpu_step m =
    let opcode = mem_read m.mem m.cpu.pc in
    let next_pc = u16 (m.cpu.pc + 1) in
    if m.cpu.halted == 0 then tick (execute (decode opcode) opcode next_pc m) else m

-- `n` steps one after the other.
unfoldable pub steps : ℕ → Machine → Machine
steps zero m = m
steps (suc n) m = steps n (cpu_step m)
