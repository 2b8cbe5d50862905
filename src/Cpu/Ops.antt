-- ===== src/Cpu/Ops.antt =====
-- The bodies of the longer cases of `cpu_step`'s switch in src/emu/cpu.c. Each takes the address
-- after the opcode, `next_pc`, and leaves the program counter where the case does.
pub mod Keeps
pub mod Rotations
use turning_machine_operatin.Base.{
  ℕ, ◌+◌, ◌-◌, ◌*◌, ◌/◌, ◌%◌, ◌^◌, Bool, true, false, not, bit_and, bit_or, bit_xor, ◌==◌,
  if◌then◌else◌, to_bit, u8, u16, sub16, ◌<<◌, ◌>>>◌,
}
use turning_machine_operatin.Mem.{mem_read, mem_write}
use turning_machine_operatin.Cpu.State.{Cpu, Machine, set_pc}
use turning_machine_operatin.Cpu.Flags.{
  has, clear, raise_if, pack_psw_flags, unpack_psw_flags, flag_s, flag_z, flag_p, flag_cy,
}
use turning_machine_operatin.Cpu.Regs.{pair, get_hl, get_rp}
use turning_machine_operatin.Cpu.Alu.{carry_bit}
use turning_machine_operatin.Cpu.Stack.{read_u16, push_u16, pop_u16}

module _ (m : Machine) (next_pc : ℕ) where
  -- The two bytes after the opcode, as a word.
  abbrev operand : ℕ
  operand = read_u16 m.mem next_pc

  unfoldable pub lxi_b : Machine
  lxi_b = record m {
    cpu = record m.cpu {
      c = mem_read m.mem next_pc;
      b = mem_read m.mem (u16 (next_pc + 1));
      pc = u16 (next_pc + 2);
    };
  }

  unfoldable pub lxi_d : Machine
  lxi_d = record m {
    cpu = record m.cpu {
      e = mem_read m.mem next_pc;
      d = mem_read m.mem (u16 (next_pc + 1));
      pc = u16 (next_pc + 2);
    };
  }

  unfoldable pub lxi_h : Machine
  lxi_h = record m {
    cpu = record m.cpu {
      l = mem_read m.mem next_pc;
      h = mem_read m.mem (u16 (next_pc + 1));
      pc = u16 (next_pc + 2);
    };
  }

  unfoldable pub lxi_sp : Machine
  lxi_sp = record m { cpu = record m.cpu { sp = operand; pc = u16 (next_pc + 2) } }

  unfoldable pub lda : Machine
  lda = record m { cpu = record m.cpu { a = mem_read m.mem operand; pc = u16 (next_pc + 2) } }

  unfoldable pub sta : Machine
  sta = record {
    cpu = record m.cpu { pc = u16 (next_pc + 2) };
    mem = mem_write m.mem operand m.cpu.a;
  }

  unfoldable pub lhld : Machine
  lhld = record m {
    cpu = record m.cpu {
      l = mem_read m.mem operand;
      h = mem_read m.mem (u16 (operand + 1));
      pc = u16 (next_pc + 2);
    };
  }

  unfoldable pub shld : Machine
  shld = record {
    cpu = record m.cpu { pc = u16 (next_pc + 2) };
    mem = mem_write (mem_write m.mem operand m.cpu.l) (u16 (operand + 1)) m.cpu.h;
  }

  unfoldable pub xchg : Machine
  xchg = record m {
    cpu = record m.cpu { d = m.cpu.h; e = m.cpu.l; h = m.cpu.d; l = m.cpu.e; pc = next_pc };
  }

  unfoldable pub xthl : Machine
  xthl =
      let low = mem_read m.mem m.cpu.sp in
      let high = mem_read m.mem (u16 (m.cpu.sp + 1)) in
      record {
        cpu = record m.cpu { l = low; h = high; pc = next_pc };
        mem = mem_write (mem_write m.mem m.cpu.sp m.cpu.l) (u16 (m.cpu.sp + 1)) m.cpu.h;
      }

  -- A new A and CY, as the rotations leave them.
  abbrev rotated : ℕ → Bool → Machine
  rotated a cy = record m {
    cpu = record m.cpu {
      a = a;
      flags = raise_if cy (clear m.cpu.flags flag_cy) flag_cy;
      pc = next_pc;
    };
  }

  unfoldable pub rlc : Machine
  unfolding has clear raise_if
  rlc =
      let cy = bit_and (m.cpu.a >>> 7) 1 in rotated (u8 (bit_or (m.cpu.a << 1) cy)) (not (cy == 0))

  unfoldable pub rrc : Machine
  unfolding has clear raise_if
  rrc =
      let cy = bit_and m.cpu.a 1 in
      rotated (u8 (bit_or (m.cpu.a >>> 1) (u8 (cy << 7)))) (not (cy == 0))

  unfoldable pub ral : Machine
  unfolding has clear raise_if
  ral =
      let new_cy = bit_and (m.cpu.a >>> 7) 1 in
      rotated (u8 (bit_or (m.cpu.a << 1) (carry_bit m.cpu))) (not (new_cy == 0))

  unfoldable pub rar : Machine
  unfolding has clear raise_if
  rar =
      let new_cy = bit_and m.cpu.a 1 in
      rotated (u8 (bit_or (m.cpu.a >>> 1) (u8 (carry_bit m.cpu << 7)))) (not (new_cy == 0))

  -- `target` is read before the push.
  unfoldable pub call : Machine
  call = let target = operand in set_pc target (push_u16 m (u16 (next_pc + 2)))

  unfoldable pub out : Machine
  out = record m {
    cpu = record m.cpu {
      io_out_pending = 1;
      io_out_port = mem_read m.mem next_pc;
      io_out_value = m.cpu.a;
      pc = u16 (next_pc + 1);
    };
  }
