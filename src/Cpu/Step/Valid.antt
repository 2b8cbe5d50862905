-- ===== src/Cpu/Step/Valid.antt =====
-- Every step keeps the machine's fields within their C types.
use turning_machine_operatin.Base.{
  ℕ, ◌+◌, ◌<◌, bit_and-lt, bit_or-lt, bit_xor-lt, ◌==◌, if_intro, arith, u16,
}
use turning_machine_operatin.Mem.{mem_read}
use turning_machine_operatin.Cpu.State.{Machine, IsValid}
use turning_machine_operatin.Cpu.Regs.Access.{
  get_hl-lt, read_reg_by_code-lt, write_reg_by_code-IsValid,
}
use turning_machine_operatin.Cpu.Alu.Keeps.{
  add_to_a-IsCpu, sub_from_a-IsCpu, cmp_flags_only-IsCpu, daa-IsCpu, logic_flags-IsCpu,
  logic_flags_and-IsCpu, inr_reg-IsValid, dcr_reg-IsValid, set_carry-IsFlags, flip_carry-IsFlags,
  result-IsCpu,
}
use turning_machine_operatin.Cpu.Stack.Words.{read_u16-lt, pop_u16-IsValid}
use turning_machine_operatin.Cpu.Ops.Keeps as OpsKeeps
use turning_machine_operatin.Cpu.Ops.Keeps.{set_pc-IsValid}
use turning_machine_operatin.Cpu.Groups.{low_code, middle_code}
use turning_machine_operatin.Cpu.Groups.Keeps as GroupsKeeps
use turning_machine_operatin.Cpu.Groups.Keeps.{goes-IsValid}
use turning_machine_operatin.Cpu.Decode.{Case, decode}
use turning_machine_operatin.Cpu.Step.{execute, cpu_step, tick}

tick-IsValid : {m : Machine} → IsValid m → IsValid (tick m)
tick-IsValid v = ground arith

-- `next` is the address after the opcode.
execute-IsValid :
    (c : Case) (opcode next : ℕ) {m : Machine}
    → next < 65536
    → IsValid m
    → IsValid (execute c opcode next m)
unfolding execute
execute-IsValid Case.nop opcode next h v = set_pc-IsValid next h v
execute-IsValid Case.hlt opcode next h v = ground arith
execute-IsValid Case.lxi_b opcode next {m} h v = OpsKeeps.lxi_b-IsValid m next h v
execute-IsValid Case.lxi_d opcode next {m} h v = OpsKeeps.lxi_d-IsValid m next h v
execute-IsValid Case.lxi_h opcode next {m} h v = OpsKeeps.lxi_h-IsValid m next h v
execute-IsValid Case.lxi_sp opcode next {m} h v = OpsKeeps.lxi_sp-IsValid m next h v
execute-IsValid Case.lda opcode next {m} h v = OpsKeeps.lda-IsValid m next h v
execute-IsValid Case.sta opcode next {m} h v = OpsKeeps.sta-IsValid m next h v
execute-IsValid Case.lhld opcode next {m} h v = OpsKeeps.lhld-IsValid m next h v
execute-IsValid Case.shld opcode next {m} h v = OpsKeeps.shld-IsValid m next h v
execute-IsValid Case.xchg opcode next {m} h v = OpsKeeps.xchg-IsValid m next h v
execute-IsValid Case.xthl opcode next {m} h v = OpsKeeps.xthl-IsValid m next h v
execute-IsValid Case.rlc opcode next {m} h v = OpsKeeps.rlc-IsValid m next h v
execute-IsValid Case.rrc opcode next {m} h v = OpsKeeps.rrc-IsValid m next h v
execute-IsValid Case.ral opcode next {m} h v = OpsKeeps.ral-IsValid m next h v
execute-IsValid Case.rar opcode next {m} h v = OpsKeeps.rar-IsValid m next h v
execute-IsValid Case.call opcode next {m} h v = OpsKeeps.call-IsValid m next h v
execute-IsValid Case.out opcode next {m} h v = OpsKeeps.out-IsValid m next h v
execute-IsValid Case.inx opcode next h v = GroupsKeeps.inx-IsValid opcode next h v
execute-IsValid Case.dcx opcode next h v = GroupsKeeps.dcx-IsValid opcode next h v
execute-IsValid Case.dad opcode next h v = GroupsKeeps.dad-IsValid opcode next h v
execute-IsValid Case.jccc opcode next h v = GroupsKeeps.jump_if-IsValid opcode next h v
execute-IsValid Case.cccc opcode next h v = GroupsKeeps.call_if-IsValid opcode next h v
execute-IsValid Case.rccc opcode next h v = GroupsKeeps.return_if-IsValid opcode next h v
execute-IsValid Case.push opcode next h v = GroupsKeeps.push_pair-IsValid opcode next h v
execute-IsValid Case.pop opcode next h v = GroupsKeeps.pop_pair-IsValid opcode next h v
execute-IsValid Case.rst opcode next h v = GroupsKeeps.rst-IsValid opcode next h v
execute-IsValid Case.mov opcode next h v = GroupsKeeps.mov-IsValid opcode next h v
execute-IsValid Case.mvi opcode next {m} h v =
    set_pc-IsValid _ (omega arith) (write_reg_by_code-IsValid _ _ (v.mem_ok next) v)
execute-IsValid Case.sphl opcode next {m} h v = let hl = get_hl-lt m.cpu in ground arith
execute-IsValid Case.pchl opcode next {m} h v = set_pc-IsValid _ (get_hl-lt m.cpu) v
execute-IsValid Case.ei opcode next h v = ground arith
execute-IsValid Case.di opcode next h v = ground arith
execute-IsValid Case.cma opcode next h v = ground arith
execute-IsValid Case.rim opcode next h v = ground arith
execute-IsValid Case.sim opcode next h v = ground arith
execute-IsValid Case.fallback opcode next h v = set_pc-IsValid next h v
execute-IsValid Case.jmp opcode next {m} h v = set_pc-IsValid _ (read_u16-lt m.mem next) v
execute-IsValid Case.ret opcode next h v =
    set_pc-IsValid _ (pop_u16-IsValid v).0 (pop_u16-IsValid v).1
execute-IsValid Case.inp opcode next {m} h v =
    let port = v.cpu_ok.in_ports_fit (mem_read m.mem next) in ground arith
execute-IsValid Case.stc opcode next {m} h v =
    goes-IsValid _ next h
      (result-IsCpu _ _ v.cpu_ok.a_fits (set_carry-IsFlags _ v.cpu_ok.flags_fit) v.cpu_ok) v
execute-IsValid Case.cmc opcode next {m} h v =
    goes-IsValid _ next h
      (result-IsCpu _ _ v.cpu_ok.a_fits (flip_carry-IsFlags _ v.cpu_ok.flags_fit) v.cpu_ok) v
execute-IsValid Case.daa opcode next h v = goes-IsValid _ next h (daa-IsCpu v.cpu_ok) v
execute-IsValid Case.adi opcode next h v =
    goes-IsValid _ _ (omega arith) (add_to_a-IsCpu v.cpu_ok _ _) v
execute-IsValid Case.aci opcode next h v =
    goes-IsValid _ _ (omega arith) (add_to_a-IsCpu v.cpu_ok _ _) v
execute-IsValid Case.sui opcode next h v =
    goes-IsValid _ _ (omega arith) (sub_from_a-IsCpu v.cpu_ok _ _) v
execute-IsValid Case.sbi opcode next h v =
    goes-IsValid _ _ (omega arith) (sub_from_a-IsCpu v.cpu_ok _ _) v
execute-IsValid Case.cpi opcode next h v =
    goes-IsValid _ _ (omega arith) (cmp_flags_only-IsCpu v.cpu_ok _) v
execute-IsValid Case.add opcode next h v = goes-IsValid _ next h (add_to_a-IsCpu v.cpu_ok _ _) v
execute-IsValid Case.adc opcode next h v = goes-IsValid _ next h (add_to_a-IsCpu v.cpu_ok _ _) v
execute-IsValid Case.sub opcode next h v = goes-IsValid _ next h (sub_from_a-IsCpu v.cpu_ok _ _) v
execute-IsValid Case.sbb opcode next h v = goes-IsValid _ next h (sub_from_a-IsCpu v.cpu_ok _ _) v
execute-IsValid Case.cmp opcode next h v = goes-IsValid _ next h (cmp_flags_only-IsCpu v.cpu_ok _) v
execute-IsValid Case.ani opcode next {m} h v =
    goes-IsValid _ _ (omega arith)
      (logic_flags_and-IsCpu v.cpu_ok _ (bit_and-lt 8 _ _ v.cpu_ok.a_fits)) v
execute-IsValid Case.xri opcode next {m} h v =
    goes-IsValid _ _ (omega arith)
      (logic_flags-IsCpu v.cpu_ok _ (bit_xor-lt 8 _ _ v.cpu_ok.a_fits (v.mem_ok next))) v
execute-IsValid Case.ori opcode next {m} h v =
    goes-IsValid _ _ (omega arith)
      (logic_flags-IsCpu v.cpu_ok _ (bit_or-lt 8 _ _ v.cpu_ok.a_fits (v.mem_ok next))) v
execute-IsValid Case.ana opcode next {m} h v =
    goes-IsValid _ next h (logic_flags_and-IsCpu v.cpu_ok _ (bit_and-lt 8 _ _ v.cpu_ok.a_fits)) v
execute-IsValid Case.xra opcode next {m} h v =
    goes-IsValid _ next h
      (logic_flags-IsCpu v.cpu_ok _
        (bit_xor-lt 8 _ _ v.cpu_ok.a_fits (read_reg_by_code-lt (low_code opcode) v)))
      v
execute-IsValid Case.ora opcode next {m} h v =
    goes-IsValid _ next h
      (logic_flags-IsCpu v.cpu_ok _
        (bit_or-lt 8 _ _ v.cpu_ok.a_fits (read_reg_by_code-lt (low_code opcode) v)))
      v
execute-IsValid Case.inr opcode next h v =
    set_pc-IsValid next h (inr_reg-IsValid (middle_code opcode) v)
execute-IsValid Case.dcr opcode next h v =
    set_pc-IsValid next h (dcr_reg-IsValid (middle_code opcode) v)

-- A step of a machine whose fields are within their C types, with no undefined flag bit set,
-- leaves it so, whatever the opcode.
pub cpu_step-IsValid : {m : Machine} → IsValid m → IsValid (cpu_step m)
unfolding cpu_step
cpu_step-IsValid {m} v =
    let opcode = mem_read m.mem m.cpu.pc in
    let after = execute-IsValid (decode opcode) opcode (u16 (m.cpu.pc + 1)) (omega arith) v in
    if_intro IsValid (m.cpu.halted == 0) (tick-IsValid after) v
