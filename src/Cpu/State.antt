-- ===== src/Cpu/State.antt =====
-- `cpu_t` of src/emu/cpu.h, and the processor joined to the tape that its steps read and write.
use turning_machine_operatin.Base.{ℕ, ◌≤◌, ◌<◌, ◌^◌, Option, none, some}
use turning_machine_operatin.Mem.{Tape, IsTape}
use turning_machine_operatin.Cpu.Flags.{IsFlags}

pub record Cpu : Type 0 where
  pub a : ℕ
  pub b : ℕ
  pub c : ℕ
  pub d : ℕ
  pub e : ℕ
  pub h : ℕ
  pub l : ℕ
  pub sp : ℕ
  pub pc : ℕ
  pub flags : ℕ
  pub halted : ℕ
  pub io_out_pending : ℕ
  pub io_out_port : ℕ
  pub io_out_value : ℕ
  pub io_in_ports : ℕ → ℕ
  pub interrupts_enabled : ℕ
  pub rim_value : ℕ
  pub sim_value : ℕ
  pub cycles : ℕ

pub record Machine : Type 0 where
  pub cpu : Cpu
  pub mem : Tape

-- `memset` to 0, and the initial stack pointer.
unfoldable pub cpu_init : Cpu
cpu_init = record {
  a = 0;
  b = 0;
  c = 0;
  d = 0;
  e = 0;
  h = 0;
  l = 0;
  sp = 0xFDFF;
  pc = 0;
  flags = 0;
  halted = 0;
  io_out_pending = 0;
  io_out_port = 0;
  io_out_value = 0;
  io_in_ports = λ port. 0;
  interrupts_enabled = 0;
  rim_value = 0;
  sim_value = 0;
  cycles = 0;
}

unfoldable pub cpu_reset : Cpu
unfolding cpu_init
cpu_reset = cpu_init

-- `none` is the null pointer.
unfoldable pub cpu_halted : Option Cpu → ℕ
cpu_halted none = 1
cpu_halted (some cpu) = cpu.halted

-- Every field is within its C type, and no undefined flag bit is set.
pub record IsCpu (cpu : Cpu) : Type 0 where
  pub a_fits : cpu.a < 256
  pub b_fits : cpu.b < 256
  pub c_fits : cpu.c < 256
  pub d_fits : cpu.d < 256
  pub e_fits : cpu.e < 256
  pub h_fits : cpu.h < 256
  pub l_fits : cpu.l < 256
  pub sp_fits : cpu.sp < 65536
  pub pc_fits : cpu.pc < 65536
  pub flags_fit : IsFlags cpu.flags
  pub halted_fits : cpu.halted ≤ 1
  pub out_pending_fits : cpu.io_out_pending < 256
  pub out_port_fits : cpu.io_out_port < 256
  pub out_value_fits : cpu.io_out_value < 256
  pub in_ports_fit : (port : ℕ) → cpu.io_in_ports port < 256
  pub interrupts_fit : cpu.interrupts_enabled < 256
  pub rim_fits : cpu.rim_value < 256
  pub sim_fits : cpu.sim_value < 256
  pub cycles_fit : cpu.cycles < 2 ^ 64

pub record IsValid (m : Machine) : Type 0 where
  pub cpu_ok : IsCpu m.cpu
  pub mem_ok : IsTape m.mem

abbrev pub set_pc : ℕ → Machine → Machine
set_pc pc m = record m { cpu = record m.cpu { pc = pc } }
