-- ===== src/Cpu/Groups/Calls.antt =====
-- The conditional calls of src/emu/cpu.c beside the unconditional one, and the saved status word.
use turning_machine_operatin.Base.{
  ℕ, ◌+◌, ◌/◌, ◌<◌, ◌≡◌, ◌≢◌, refl, sym, ◌∙◌, ap, Bool, true, bit_and, bit_and_byte, arith, u8, u16,
  sub16,
}
use turning_machine_operatin.Cpu.State.{Machine, IsCpu, IsValid, set_pc}
use turning_machine_operatin.Cpu.Flags.{
  IsFlags, flag_byte, has, flag_s, flag_z, flag_ac, flag_p, flag_cy, pack_psw_flags,
  unpack_psw_flags,
}
use turning_machine_operatin.Cpu.Flags.Values.{flags-view, pack_psw_flags_lem}
use turning_machine_operatin.Cpu.Regs.{pair}
use turning_machine_operatin.Cpu.Regs.Access.{pair_lem}
use turning_machine_operatin.Cpu.Stack.{read_u16, push_u16, pop_u16}
use turning_machine_operatin.Cpu.Stack.Words.{
  push_u16-mem, pop-push, read_u16_lem, push_u16-IsValid,
}
use turning_machine_operatin.Cpu.Ops.{call}
use turning_machine_operatin.Cpu.Groups.{
  call_if, branch_condition_true, middle_code, push_pair, pop_pair,
}

-- A word whose two cells are not written reads the same after a push.
read_u16-push_u16 :
    (m : Machine) (value addr : ℕ)
    → IsCpu m.cpu
    → value < 65536
    → addr ≢ sub16 m.cpu.sp 1
    → addr ≢ sub16 m.cpu.sp 2
    → u16 (addr + 1) ≢ sub16 m.cpu.sp 1
    → u16 (addr + 1) ≢ sub16 m.cpu.sp 2
    → read_u16 (push_u16 m value).mem addr ≡ read_u16 m.mem addr
unfolding read_u16
read_u16-push_u16 m value addr v fits p q r s =
    let low : sub16 m.cpu.sp 1 ≡ u16 (sub16 m.cpu.sp 2 + 1) = omega (arith, v.sp_fits) in
    let first = (push_u16-mem m value addr v fits).3 q (λ e. p (e ∙ sym low)) in
    let second = (push_u16-mem m value (u16 (addr + 1)) v fits).3 s (λ e. r (e ∙ sym low)) in
    rw (first, second)

-- A conditional call whose condition holds does what CALL does, as long as its own two operand
-- bytes are not the cells that it pushes to.
pub call_if-eq-call :
    (opcode next : ℕ) (m : Machine)
    → IsCpu m.cpu
    → branch_condition_true m.cpu (middle_code opcode) ≡ true
    → next ≢ sub16 m.cpu.sp 1
    → next ≢ sub16 m.cpu.sp 2
    → u16 (next + 1) ≢ sub16 m.cpu.sp 1
    → u16 (next + 1) ≢ sub16 m.cpu.sp 2
    → call_if opcode next m ≡ call m next
unfolding call_if call
call_if-eq-call opcode next m v taken p q r s =
    let pushed = push_u16 m (u16 (next + 2)) in
    rw taken (
      ap (λ (pc : ℕ). set_pc pc pushed)
        (read_u16-push_u16 m (u16 (next + 2)) next v (omega arith) p q r s))

-- Where the operand bytes are those cells, a conditional call goes to the instruction after itself,
-- whatever its operand says, and CALL goes to its operand.
pub call_if_overlap :
    (opcode next : ℕ) (m : Machine)
    → IsValid m
    → branch_condition_true m.cpu (middle_code opcode) ≡ true
    → next ≡ sub16 m.cpu.sp 2
    → ((call_if opcode next m).cpu.pc ≡ u16 (next + 2))
      × ((call m next).cpu.pc ≡ read_u16 m.mem next)
unfolding call_if call
call_if_overlap opcode next m v taken at =
    let back = u16 (next + 2) in
    let cells = push_u16-mem m back 0 v.cpu_ok (omega arith) in
    let word =
      read_u16_lem (push_u16 m back).mem (sub16 m.cpu.sp 2) (push_u16-IsValid back v).mem_ok in
    (
      rw taken (ap (read_u16 (push_u16 m back).mem) at ∙ word ∙ omega (arith, cells.1, cells.2)),
      refl,
    )

unpack-pack :
    (f : ℕ) → IsFlags f → (pack_psw_flags f < 256) × (unpack_psw_flags (pack_psw_flags f) ≡ f)
unfolding unpack_psw_flags
unpack-pack f ok =
    rw
      (
        flags-view f ok,
        pack_psw_flags_lem (has f flag_s) (has f flag_z) (has f flag_ac) (has f flag_p)
            (has f flag_cy),
      )
      (generic (has f flag_s) (has f flag_z) (has f flag_ac) (has f flag_p) (has f flag_cy))
  where
    generic :
        (s z ac p cy : Bool)
        → (flag_byte s z ac p cy + 2 < 256)
          × (unpack_psw_flags (flag_byte s z ac p cy + 2) ≡ flag_byte s z ac p cy)
    generic s z ac p cy = ground arith

-- POP PSW after PUSH PSW leaves every register, the flags and the stack pointer as they were.
pub pop-push_psw :
    (m : Machine) (next next' : ℕ)
    → IsValid m
    → (pop_pair 0xF1 next' (push_pair 0xF5 next m)).cpu ≡ record m.cpu { pc = next' }
unfolding push_pair pop_pair pop_u16 push_u16
pop-push_psw m next next' v =
    let saved = unpack-pack m.cpu.flags v.cpu_ok.flags_fit in
    let word = pair_lem m.cpu.a (pack_psw_flags m.cpu.flags) v.cpu_ok.a_fits saved.0 in
    let value = pair m.cpu.a (pack_psw_flags m.cpu.flags) in
    let popped = (pop-push m value v (omega (arith, word, saved.0, v.cpu_ok.a_fits))).0 in
    let high : u8 ((pop_u16 (push_u16 m value)).0 / 256) ≡ m.cpu.a =
      omega (arith, popped, word, saved.0, v.cpu_ok.a_fits) in
    let low : u8 (bit_and (pop_u16 (push_u16 m value)).0 0xff) ≡ pack_psw_flags m.cpu.flags =
      omega (
        arith,
        bit_and_byte (pop_u16 (push_u16 m value)).0,
        popped,
        word,
        saved.0,
        v.cpu_ok.a_fits,
      ) in
    let flags : unpack_psw_flags (u8 (bit_and (pop_u16 (push_u16 m value)).0 0xff)) ≡ m.cpu.flags =
      rw low saved.1 in
    let sp : u16 (sub16 m.cpu.sp 2 + 2) ≡ m.cpu.sp = omega (arith, v.cpu_ok.sp_fits) in
    λ i. record m.cpu { a = high i; flags = flags i; sp = sp i; pc = next' }
