-- ===== src/Examples/OnCpu.antt =====
-- The processor at concrete states.
use turning_machine_operatin.Base.{not, ◌&&◌}
use turning_machine_operatin.Base.{
  ℕ, ◌+◌, ◌*◌, ◌≡◌, ◌≢◌, ◌↔◌, refl, true, ◌||◌, leb, ltb, to_bit, arith, u16, u64, sub16, ◌==◌, ◌%◌,
}
use turning_machine_operatin.Mem.{Tape, IsTape, mem_init, mem_read, mem_write, mem_write-IsTape}
use turning_machine_operatin.Cpu.State.{Cpu, Machine, IsValid}
use turning_machine_operatin.Cpu.Flags.{IsFlags, has, flag_cy, parity_even, parity_loop}
use turning_machine_operatin.Cpu.Flags.Parity.{ones, parity_even_lem}
use turning_machine_operatin.Cpu.Regs.{get_hl, get_rp, read_reg_by_code}
use turning_machine_operatin.Cpu.Alu.{
  add_to_a, sub_from_a, cmp_flags_only, daa, inr_reg, dcr_reg, carry_bit,
}
use turning_machine_operatin.Cpu.Alu.Sums.{
  result_flags, add_to_a_lem, sub_from_a_lem, cmp_flags_only_lem,
}
use turning_machine_operatin.Cpu.Alu.Decimal.{bcd, daa-add_to_a}
use turning_machine_operatin.Cpu.Alu.Counts.{inr_reg_lem, dcr_reg_lem}
use turning_machine_operatin.Cpu.Alu.Inverses.{dad_lem, inx-dcx_undo}
use turning_machine_operatin.Cpu.Ops.{rlc, rrc, ral, rar, call}
use turning_machine_operatin.Cpu.Ops.Rotations.{rotations_undo}
use turning_machine_operatin.Cpu.Stack.{read_u16, push_u16, pop_u16}
use turning_machine_operatin.Cpu.Stack.Words.{pop-push}
use turning_machine_operatin.Cpu.Groups.{
  inx, dcx, dad, pair_code, call_if, branch_condition_true, middle_code, push_pair, pop_pair,
}
use turning_machine_operatin.Cpu.Groups.Calls.{call_if-eq-call, call_if_overlap, pop-push_psw}
use turning_machine_operatin.Cpu.Decode.{Case, decode}
use turning_machine_operatin.Cpu.Step.{cpu_step, steps}
use turning_machine_operatin.Cpu.Step.Valid.{cpu_step-IsValid}
use turning_machine_operatin.Cpu.Step.Cases.{
  decode-fallback_iff, one_of, indirect_loads_and_stores, undefined_opcodes, interrupt_mask_opcodes,
}
use turning_machine_operatin.Cpu.Step.Effects.{mov_step, call-ret}

-- A is 0x85, CY is clear, HL is 0xC00D, BC is 0x5003, and the stack pointer is 0x0000.
abbrev busy_cpu : Cpu
busy_cpu = record {
  a = 0x85;
  b = 0x50;
  c = 0x03;
  d = 0;
  e = 0;
  h = 0xC0;
  l = 0x0D;
  sp = 0;
  pc = 0x0100;
  flags = 0x80;
  halted = 0;
  io_out_pending = 0;
  io_out_port = 0;
  io_out_value = 0;
  io_in_ports = λ port. 0;
  interrupts_enabled = 0;
  rim_value = 0;
  sim_value = 0;
  cycles = 7;
}

abbrev busy : Machine
busy = record { cpu = busy_cpu; mem = mem_init }

busy-IsValid : IsValid busy
unfolding mem_init mem_read
busy-IsValid = ground arith

busy-IsFlags : IsFlags 0x80
busy-IsFlags = (omega arith, refl)

cpu_step-IsValid_example : IsValid (cpu_step busy)
cpu_step-IsValid_example = cpu_step-IsValid busy-IsValid

add_to_a_lem_example :
    let cpu' = add_to_a busy_cpu 0x9B 1 in
    let sum : ℕ = 0x121 in
    let cy = leb 256 sum in
    (cpu'.a + 256 * to_bit cy ≡ sum) × (cpu'.flags ≡ result_flags cpu'.a (leb 16 (5 + 11 + 1)) cy)
add_to_a_lem_example =
    add_to_a_lem busy_cpu 0x9B 1 (omega arith) busy-IsFlags (omega arith) (omega arith)

sub_from_a_lem_example :
    let cpu' = sub_from_a busy_cpu 0x86 0 in
    let cy = ltb 0x85 0x86 in
    (cpu'.a + 0x86 + 0 ≡ 0x85 + 256 * to_bit cy)
    × (cpu'.flags ≡ result_flags cpu'.a (ltb (0x85 % 16) (0x86 % 16 + 0)) cy)
sub_from_a_lem_example =
    sub_from_a_lem busy_cpu 0x86 0 (omega arith) busy-IsFlags (omega arith) (omega arith)

cmp_flags_only_lem_example :
    cmp_flags_only busy_cpu 0x85 ≡ record (sub_from_a busy_cpu 0x85 0) { a = 0x85 }
cmp_flags_only_lem_example = cmp_flags_only_lem busy_cpu 0x85 (omega arith)

-- 85 + 37 + 1 is 123 in decimal.
daa-add_to_a_example :
    let cpu' = daa (add_to_a busy_cpu (bcd 37) 1) in
    (cpu'.a ≡ bcd ((85 + 37 + 1) % 100)) × (has cpu'.flags flag_cy ≡ leb 100 (85 + 37 + 1))
daa-add_to_a_example =
    daa-add_to_a busy_cpu 85 37 1 (omega arith) (omega arith) (omega arith) refl busy-IsFlags

parity_even_lem_example :
    (parity_loop 100 0x85 0 ≡ parity_loop 8 0x85 0) × (parity_even 0x85 ≡ (ones 8 0x85 % 2 == 0))
parity_even_lem_example = parity_even_lem 0x85 100 (omega arith) (omega arith)

inr_reg_lem_example :
    let before = read_reg_by_code busy 6 in
    let after = (before + 1) % 256 in
    (read_reg_by_code (inr_reg busy 6) 6 ≡ after)
    × ((inr_reg busy 6).cpu.flags
        ≡ result_flags after (leb 16 (before % 16 + 1)) (has 0x80 flag_cy))
inr_reg_lem_example = inr_reg_lem busy 6 busy-IsValid

dcr_reg_lem_example :
    let before = read_reg_by_code busy 6 in
    let after = (before + 255) % 256 in
    (read_reg_by_code (dcr_reg busy 6) 6 ≡ after)
    × ((dcr_reg busy 6).cpu.flags ≡ result_flags after (before % 16 == 0) (has 0x80 flag_cy))
dcr_reg_lem_example = dcr_reg_lem busy 6 busy-IsValid

dad_lem_example :
    let m' = dad 0x09 0x101 busy in
    get_hl m'.cpu + 65536 * to_bit (has m'.cpu.flags flag_cy)
    ≡ get_hl busy_cpu + get_rp busy_cpu (pair_code 0x09)
dad_lem_example = dad_lem 0x09 0x101 busy busy-IsValid

inx-dcx_undo_example :
    (get_rp (dcx 0x3B 0x102 (inx 0x3B 0x101 busy)).cpu (pair_code 0x3B)
      ≡ get_rp busy_cpu (pair_code 0x3B))
    × (get_rp (inx 0x3B 0x102 (dcx 0x3B 0x101 busy)).cpu (pair_code 0x3B)
        ≡ get_rp busy_cpu (pair_code 0x3B))
inx-dcx_undo_example = inx-dcx_undo 0x3B 0x101 0x102 busy busy-IsValid

rotations_undo_example :
    ((rrc (rlc busy 0x101) 0x102).cpu.a ≡ 0x85)
    × ((rlc (rrc busy 0x101) 0x102).cpu.a ≡ 0x85)
    × ((rar (ral busy 0x101) 0x102).cpu.a ≡ 0x85)
    × (carry_bit (rar (ral busy 0x101) 0x102).cpu ≡ carry_bit busy_cpu)
    × ((ral (rar busy 0x101) 0x102).cpu.a ≡ 0x85)
    × (carry_bit (ral (rar busy 0x101) 0x102).cpu ≡ carry_bit busy_cpu)
rotations_undo_example = rotations_undo busy 0x101 0x102 (omega arith) busy-IsValid

-- The stack pointer is 0, so the push wraps to the top of the tape.
pop-push_example :
    let r = pop_u16 (push_u16 busy 0xBEEF) in
    (r.0 ≡ 0xBEEF)
    × (r.1.cpu ≡ busy_cpu)
    × ((x : ℕ) → x ≢ sub16 0 2 → x ≢ sub16 0 1 → mem_read r.1.mem x ≡ mem_read mem_init x)
pop-push_example = pop-push busy 0xBEEF busy-IsValid (omega arith)

pop-push_psw_example :
    (pop_pair 0xF1 0x102 (push_pair 0xF5 0x101 busy)).cpu ≡ record busy_cpu { pc = 0x102 }
pop-push_psw_example = pop-push_psw busy 0x101 0x102 busy-IsValid

-- CNZ, with Z clear.
not_zero_holds : branch_condition_true busy_cpu (middle_code 0xC4) ≡ true
unfolding branch_condition_true
not_zero_holds = refl

call_if-eq-call_example : call_if 0xC4 0x101 busy ≡ call busy 0x101
call_if-eq-call_example =
    call_if-eq-call 0xC4 0x101 busy busy-IsValid.cpu_ok not_zero_holds (omega arith) (omega arith)
      (omega arith) (omega arith)

call_if_overlap_example :
    ((call_if 0xC4 0xFFFE busy).cpu.pc ≡ u16 (0xFFFE + 2))
    × ((call busy 0xFFFE).cpu.pc ≡ read_u16 mem_init 0xFFFE)
call_if_overlap_example = call_if_overlap 0xC4 0xFFFE busy busy-IsValid not_zero_holds refl

decode-fallback_iff_example : (decode 0x0A ≡ Case.fallback) ↔ (
    (one_of 0x0A indirect_loads_and_stores
      || (one_of 0x0A undefined_opcodes && not (one_of 0x0A interrupt_mask_opcodes)))
    ≡ true)
decode-fallback_iff_example = decode-fallback_iff 0x0A (omega arith)

-- MOV M,B at 0x0100.
abbrev at_mov : Machine
at_mov = record busy { mem = mem_write mem_init 0x0100 0x70 }

mov_step_example :
    (read_reg_by_code (cpu_step at_mov) 6 ≡ read_reg_by_code at_mov 0)
    × ((cpu_step at_mov).cpu.pc ≡ u16 (0x0100 + 1))
unfolding mem_read mem_write
mov_step_example = mov_step at_mov 6 0 refl (omega arith) (omega arith) (omega arith) refl

-- CALL 0x2000 at 0x0100, and RET at 0x2000.
abbrev call_tape : Tape
call_tape = mem_write (mem_write (mem_write mem_init 0x0100 0xCD) 0x0102 0x20) 0x2000 0xC9

abbrev at_call : Machine
at_call = record busy { mem = call_tape }

mem_init-IsTape : IsTape mem_init
unfolding mem_init mem_read
mem_init-IsTape x = omega arith

at_call-IsValid : IsValid at_call
at_call-IsValid = record {
  cpu_ok = busy-IsValid.cpu_ok;
  mem_ok =
      mem_write-IsTape _ 0x2000 0xC9
        (mem_write-IsTape _ 0x0102 0x20
          (mem_write-IsTape _ 0x0100 0xCD mem_init-IsTape (omega arith)) (omega arith))
        (omega arith);
}

call-ret_example :
    (steps 2 at_call).cpu ≡ record busy_cpu { pc = u16 (0x0100 + 3); cycles = u64 (7 + 2) }
unfolding mem_read mem_write mem_init read_u16
call-ret_example =
    call-ret at_call 0x2000 at_call-IsValid refl refl refl refl (omega arith) (omega arith)
