-- ===== src/Cpu/Groups/Keeps.antt =====
-- The cases of the `default` ladder keep every field within its type.
use turning_machine_operatin.Base.{
  ℕ, ◌+◌, ◌/◌, ◌<◌, Bool-cases, if_intro, inl, inr, bit_and, ◌==◌, arith, u8,
}
use turning_machine_operatin.Cpu.State.{Cpu, Machine, IsCpu, IsValid}
use turning_machine_operatin.Cpu.Flags.{
  IsFlags, has, unpack_psw_flags, flag_cy, flag_s, flag_z, flag_ac, flag_p,
}
use turning_machine_operatin.Cpu.Flags.Values.{flag_byte-IsFlags, unpack_psw_flags_lem}
use turning_machine_operatin.Cpu.Regs.{get_hl, get_rp}
use turning_machine_operatin.Cpu.Regs.Access.{
  set_rp-IsCpu, read_reg_by_code-lt, write_reg_by_code-IsValid,
}
use turning_machine_operatin.Cpu.Alu.Keeps.{raise_carry-IsFlags, result-IsCpu}
use turning_machine_operatin.Cpu.Stack.{pop_u16}
use turning_machine_operatin.Cpu.Stack.Words.{read_u16-lt, push_u16-IsValid, pop_u16-IsValid}
use turning_machine_operatin.Cpu.Ops.Keeps.{set_pc-IsValid}
use turning_machine_operatin.Cpu.Groups.{
  inx, dcx, dad, jump_if, call_if, return_if, push_pair, pop_pair, rst, mov, middle_code, low_code,
  pair_code, branch_condition_true,
}

-- A case that changes the processor alone and goes on at `pc`.
pub goes-IsValid :
    {m : Machine} (cpu : Cpu) (pc : ℕ)
    → pc < 65536
    → IsCpu cpu
    → IsValid m
    → IsValid (record m { cpu = record cpu { pc = pc } })
goes-IsValid cpu pc h w v = ground arith

unpack-IsFlags : (psw : ℕ) → IsFlags (unpack_psw_flags psw)
unpack-IsFlags psw = rw (unpack_psw_flags_lem psw) (
    flag_byte-IsFlags (has psw flag_s) (has psw flag_z) (has psw flag_ac) (has psw flag_p)
      (has psw flag_cy))

module _ (opcode next : ℕ) {m : Machine} (fits : next < 65536) (v : IsValid m) where
  pub inx-IsValid : IsValid (inx opcode next m)
  unfolding inx
  inx-IsValid = goes-IsValid _ next fits (set_rp-IsCpu _ _ (omega arith) v.cpu_ok) v

  pub dcx-IsValid : IsValid (dcx opcode next m)
  unfolding dcx
  dcx-IsValid = goes-IsValid _ next fits (set_rp-IsCpu _ _ (omega arith) v.cpu_ok) v

  pub dad-IsValid : IsValid (dad opcode next m)
  unfolding dad
  dad-IsValid =
      let carry = has (get_hl m.cpu + get_rp m.cpu (pair_code opcode)) 0x10000 in
      let flags = raise_carry-IsFlags m.cpu.flags carry v.cpu_ok.flags_fit in ground arith

  pub jump_if-IsValid : IsValid (jump_if opcode next m)
  unfolding jump_if
  jump_if-IsValid = elim (Bool-cases (branch_condition_true m.cpu (middle_code opcode))) [
    | inl taken ↦ rw taken (set_pc-IsValid _ (read_u16-lt m.mem next) v)
    | inr passed ↦ rw passed (set_pc-IsValid _ (omega arith) v)
  ]

  pub call_if-IsValid : IsValid (call_if opcode next m)
  unfolding call_if
  call_if-IsValid = elim (Bool-cases (branch_condition_true m.cpu (middle_code opcode))) [
    | inl taken ↦ rw taken (set_pc-IsValid _ (read_u16-lt _ next) (push_u16-IsValid _ v))
    | inr passed ↦ rw passed (set_pc-IsValid _ (omega arith) v)
  ]

  pub return_if-IsValid : IsValid (return_if opcode next m)
  unfolding return_if
  return_if-IsValid = elim (Bool-cases (branch_condition_true m.cpu (middle_code opcode))) [
    | inl taken ↦ rw taken (set_pc-IsValid _ (pop_u16-IsValid v).0 (pop_u16-IsValid v).1)
    | inr passed ↦ rw passed (set_pc-IsValid _ fits v)
  ]

  pub push_pair-IsValid : IsValid (push_pair opcode next m)
  unfolding push_pair
  push_pair-IsValid = set_pc-IsValid next fits (
      if_intro IsValid (opcode == 0xC5) (push_u16-IsValid _ v) (
        if_intro IsValid (opcode == 0xD5) (push_u16-IsValid _ v) (
          if_intro IsValid (opcode == 0xE5) (push_u16-IsValid _ v)
            (if_intro IsValid (opcode == 0xF5) (push_u16-IsValid _ v) v))))

  pub pop_pair-IsValid : IsValid (pop_pair opcode next m)
  unfolding pop_pair
  pop_pair-IsValid =
      let popped = (pop_u16-IsValid v).1 in
      let value = (pop_u16 m).0 in
      let hi = u8 (value / 256) in
      let lo = u8 (bit_and value 0xff) in
      let cpu = popped.cpu_ok in
      goes-IsValid _ next fits
        (if_intro IsCpu (opcode == 0xC1) (ground arith) (
          if_intro IsCpu (opcode == 0xD1) (ground arith) (
            if_intro IsCpu (opcode == 0xE1) (ground arith) (
              if_intro IsCpu (opcode == 0xF1)
                (result-IsCpu hi _ (omega arith) (unpack-IsFlags lo) cpu) cpu))))
        popped

  pub rst-IsValid : IsValid (rst opcode next m)
  unfolding rst
  rst-IsValid = set_pc-IsValid _ (omega arith) (push_u16-IsValid _ v)

  pub mov-IsValid : IsValid (mov opcode next m)
  unfolding mov
  mov-IsValid =
      set_pc-IsValid next fits
        (write_reg_by_code-IsValid _ _ (read_reg_by_code-lt (low_code opcode) v) v)
