-- ===== src/Cpu/Groups.antt =====
-- The bodies of the longer branches of the `default` case of `cpu_step`'s switch, which cover
-- ranges and lists of opcodes and take their operand codes out of `opcode`.
pub mod Keeps
pub mod Calls
use turning_machine_operatin.Base.{
  ℕ, ◌+◌, ◌-◌, ◌*◌, ◌/◌, ◌%◌, ◌^◌, Bool, true, false, not, bit_and, bit_or, ◌==◌, if◌then◌else◌, u8,
  u16, sub16, ◌<<◌, ◌>>>◌,
}
use turning_machine_operatin.Cpu.State.{Cpu, Machine, set_pc}
use turning_machine_operatin.Cpu.Flags.{
  has, clear, raise_if, pack_psw_flags, unpack_psw_flags, flag_s, flag_z, flag_p, flag_cy,
}
use turning_machine_operatin.Cpu.Regs.{
  pair, get_hl, get_rp, set_rp, read_reg_by_code, write_reg_by_code,
}
use turning_machine_operatin.Cpu.Stack.{read_u16, push_u16, pop_u16}

unfoldable pub branch_condition_true : Cpu → ℕ → Bool
unfolding has
branch_condition_true cpu cond_code =
    let code = bit_and cond_code 7 in
    if code == 0
    then not (has cpu.flags flag_z)
    else if code == 1
    then has cpu.flags flag_z
    else if code == 2
    then not (has cpu.flags flag_cy)
    else if code == 3
    then has cpu.flags flag_cy
    else if code == 4
    then not (has cpu.flags flag_p)
    else if code == 5
    then has cpu.flags flag_p
    else if code == 6
    then not (has cpu.flags flag_s)
    else if code == 7
    then has cpu.flags flag_s
    else false

-- The codes that the opcode holds.
abbrev pub middle_code : ℕ → ℕ
middle_code opcode = bit_and (opcode >>> 3) 7

abbrev pub low_code : ℕ → ℕ
low_code opcode = bit_and opcode 7

abbrev pub pair_code : ℕ → ℕ
pair_code opcode = bit_and (opcode >>> 4) 3

module _ (opcode next_pc : ℕ) (m : Machine) where
  unfoldable pub inx : Machine
  inx =
      let rp = pair_code opcode in
      let cpu = set_rp m.cpu rp (u16 (get_rp m.cpu rp + 1)) in
      record m { cpu = record cpu { pc = next_pc } }

  unfoldable pub dcx : Machine
  dcx =
      let rp = pair_code opcode in
      let cpu = set_rp m.cpu rp (sub16 (get_rp m.cpu rp) 1) in
      record m { cpu = record cpu { pc = next_pc } }

  unfoldable pub dad : Machine
  unfolding has clear raise_if
  dad =
      let sum = get_hl m.cpu + get_rp m.cpu (pair_code opcode) in
      record m {
        cpu = record m.cpu {
          h = u8 (bit_and (sum >>> 8) 0xff);
          l = u8 (bit_and sum 0xff);
          flags = raise_if (has sum 0x10000) (clear m.cpu.flags flag_cy) flag_cy;
          pc = next_pc;
        };
      }

  unfoldable pub jump_if : Machine
  jump_if =
      if branch_condition_true m.cpu (middle_code opcode)
      then set_pc (read_u16 m.mem next_pc) m
      else set_pc (u16 (next_pc + 2)) m

  -- The target is read after the push, from the tape that the push has written.
  unfoldable pub call_if : Machine
  call_if =
      let pushed = push_u16 m (u16 (next_pc + 2)) in
      if branch_condition_true m.cpu (middle_code opcode)
      then set_pc (read_u16 pushed.mem next_pc) pushed
      else set_pc (u16 (next_pc + 2)) m

  unfoldable pub return_if : Machine
  return_if =
      let popped = pop_u16 m in
      if branch_condition_true m.cpu (middle_code opcode)
      then set_pc popped.0 popped.1
      else set_pc next_pc m

  unfoldable pub push_pair : Machine
  push_pair =
      let pushed : Machine =
        if opcode == 0xC5
        then push_u16 m (pair m.cpu.b m.cpu.c)
        else if opcode == 0xD5
        then push_u16 m (pair m.cpu.d m.cpu.e)
        else if opcode == 0xE5
        then push_u16 m (pair m.cpu.h m.cpu.l)
        else if opcode == 0xF5
        then push_u16 m (pair m.cpu.a (pack_psw_flags m.cpu.flags))
        else m in
      set_pc next_pc pushed

  unfoldable pub pop_pair : Machine
  pop_pair =
      let value = (pop_u16 m).0 in
      let popped = (pop_u16 m).1 in
      let hi = u8 (value >>> 8) in
      let lo = u8 (bit_and value 0xff) in
      let cpu : Cpu =
        if opcode == 0xC1
        then record popped.cpu { b = hi; c = lo }
        else if opcode == 0xD1
        then record popped.cpu { d = hi; e = lo }
        else if opcode == 0xE1
        then record popped.cpu { h = hi; l = lo }
        else if opcode == 0xF1
        then record popped.cpu { a = hi; flags = unpack_psw_flags lo }
        else popped.cpu in
      record popped { cpu = record cpu { pc = next_pc } }

  unfoldable pub rst : Machine
  rst = set_pc (u16 (middle_code opcode * 8)) (push_u16 m next_pc)

  unfoldable pub mov : Machine
  mov =
      set_pc next_pc
        (write_reg_by_code m (middle_code opcode) (read_reg_by_code m (low_code opcode)))
