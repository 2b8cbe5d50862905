-- ===== src/Cpu/Step/Effects.antt =====
-- What whole steps do: a halted machine rests, MOV copies, CALL and RET pair up.
use turning_machine_operatin.Base.{
  ℕ, zero, suc, ◌+◌, ◌*◌, ◌<◌, ◌≡◌, ◌≢◌, refl, sym, ◌∙◌, arith, u16, u64, sub16,
}
use turning_machine_operatin.Mem.{mem_read}
use turning_machine_operatin.Cpu.State.{Machine, IsValid, set_pc}
use turning_machine_operatin.Cpu.Regs.{read_reg_by_code, write_reg_by_code}
use turning_machine_operatin.Cpu.Regs.Access.{read-write_reg_by_code}
use turning_machine_operatin.Cpu.Stack.{read_u16, push_u16, pop_u16}
use turning_machine_operatin.Cpu.Stack.Words.{pop-push, push_u16-mem}
use turning_machine_operatin.Cpu.Decode.{Case, decode, accumulator_case, control_case}
use turning_machine_operatin.Cpu.Ops
use turning_machine_operatin.Cpu.Groups
use turning_machine_operatin.Cpu.Step.{execute, cpu_step, tick, steps}
use turning_machine_operatin.Cpu.Step.Cases.{decode-mov}

cpu_step_halted : (m : Machine) → m.cpu.halted ≢ 0 → cpu_step m ≡ m
unfolding cpu_step
cpu_step_halted m h = ground arith

-- A halted machine stays as it is, for any number of steps.
steps_halted : (n : ℕ) (m : Machine) → m.cpu.halted ≢ 0 → steps n m ≡ m
unfolding steps
steps_halted zero m h = refl
steps_halted (suc n) m h = rw (cpu_step_halted m h) (steps_halted n m h)

-- A step of a running machine, given the opcode at the program counter.
pub cpu_step_running :
    (m : Machine) (opcode : ℕ)
    → m.cpu.halted ≡ 0
    → mem_read m.mem m.cpu.pc ≡ opcode
    → cpu_step m ≡ tick (execute (decode opcode) opcode (u16 (m.cpu.pc + 1)) m)
unfolding cpu_step
cpu_step_running m opcode h e = rw (h, e)

-- The program counter and the cycle count are no registers.
read_reg_by_code-tick :
    (m : Machine) (pc code : ℕ)
    → read_reg_by_code (tick (set_pc pc m)) code ≡ read_reg_by_code m code
unfolding read_reg_by_code
read_reg_by_code-tick m pc code = refl

execute-mov :
    (opcode dst src next : ℕ) (m : Machine)
    → Groups.middle_code opcode ≡ dst
    → Groups.low_code opcode ≡ src
    → execute Case.mov opcode next m
      ≡ set_pc next (write_reg_by_code m dst (read_reg_by_code m src))
unfolding execute Groups.mov
execute-mov opcode dst src next m p q = rw (p, q)

-- A step at MOV dst,src copies the source to the destination, for every pair of codes but M,M.
pub mov_step :
    (m : Machine) (dst src : ℕ)
    → m.cpu.halted ≡ 0
    → dst < 8
    → src < 8
    → dst * 8 + src ≢ 54
    → mem_read m.mem m.cpu.pc ≡ 0x40 + (dst * 8 + src)
    → (read_reg_by_code (cpu_step m) dst ≡ read_reg_by_code m src)
      × ((cpu_step m).cpu.pc ≡ u16 (m.cpu.pc + 1))
mov_step m dst src running hd hs ne at =
    let d = decode-mov dst src hd hs ne in
    let next = u16 (m.cpu.pc + 1) in
    let copied = write_reg_by_code m dst (read_reg_by_code m src) in
    rw (cpu_step_running m _ running at, d.0, execute-mov _ dst src next m d.1 d.2)
      (read_reg_by_code-tick copied next dst ∙ read-write_reg_by_code m dst _, refl)

-- What CALL does.
call_step :
    (m : Machine)
    → m.cpu.halted ≡ 0
    → mem_read m.mem m.cpu.pc ≡ 0xCD
    → cpu_step m ≡ tick (Ops.call m (u16 (m.cpu.pc + 1)))
unfolding execute decode accumulator_case control_case
call_step m running at = cpu_step_running m 0xCD running at

ret_step :
    (m : Machine)
    → m.cpu.halted ≡ 0
    → mem_read m.mem m.cpu.pc ≡ 0xC9
    → cpu_step m ≡ tick (set_pc (pop_u16 m).0 (pop_u16 m).1)
unfolding execute decode accumulator_case control_case
ret_step m running at = cpu_step_running m 0xC9 running at

-- CALL to a routine that is a single RET comes back to the instruction after the CALL, with every
-- register, the flags and the stack pointer as before.
pub call-ret :
    (m : Machine) (target : ℕ)
    → IsValid m
    → m.cpu.halted ≡ 0
    → mem_read m.mem m.cpu.pc ≡ 0xCD
    → read_u16 m.mem (u16 (m.cpu.pc + 1)) ≡ target
    → mem_read m.mem target ≡ 0xC9
    → target ≢ sub16 m.cpu.sp 1
    → target ≢ sub16 m.cpu.sp 2
    → (steps 2 m).cpu ≡ record m.cpu { pc = u16 (m.cpu.pc + 3); cycles = u64 (m.cpu.cycles + 2) }
unfolding steps pop_u16 push_u16 Ops.call
call-ret m target v running at to code p q =
    let back = u16 (u16 (m.cpu.pc + 1) + 2) in
    let pushed = push_u16 m back in
    let called = tick (Ops.call m (u16 (m.cpu.pc + 1))) in
    let low : sub16 m.cpu.sp 1 ≡ u16 (sub16 m.cpu.sp 2 + 1) = omega (arith, v.cpu_ok.sp_fits) in
    let kept : mem_read pushed.mem target ≡ 0xC9 =
      (push_u16-mem m back target v.cpu_ok (omega arith)).3 q (λ e. p (e ∙ sym low)) ∙ code in
    let popped = pop-push m back v (omega arith) in
    let at_ret : mem_read called.mem called.cpu.pc ≡ 0xC9 = rw to kept in
    let sp_back : u16 (sub16 m.cpu.sp 2 + 2) ≡ m.cpu.sp = omega (arith, v.cpu_ok.sp_fits) in
    let pc_after : (pop_u16 pushed).0 ≡ u16 (m.cpu.pc + 3) = popped.0 ∙ omega arith in
    let two_cycles : u64 (u64 (m.cpu.cycles + 1) + 1) ≡ u64 (m.cpu.cycles + 2) = omega arith in
    rw (call_step m running at, ret_step called running at_ret)
      λ i. record m.cpu { sp = sp_back i; pc = pc_after i; cycles = two_cycles i }
