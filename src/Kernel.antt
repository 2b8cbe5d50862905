-- ===== src/Kernel.antt =====
-- src/kernel/kernel.c: the loop of states over the processor and the BIOS. The snapshots that it
-- writes to files of the host change none of its state; Kernel.Snapshots has their bytes.
pub mod Transitions
pub mod Halts
pub mod Reach
pub mod Snapshots
use turning_machine_operatin.Base.{
  ℕ, zero, suc, ◌+◌, ◌%◌, ◌^◌, Bool, true, false, ◌&&◌, ◌||◌, not, Option, none, some, List, [],
  ◌∷◌, ◌++◌, ◌==◌, if◌then◌else◌, fill, bit_and, ◌>>>◌, u8, u64,
}
use turning_machine_operatin.Mem.{Tape, mem_init, mem_write}
use turning_machine_operatin.Cpu.State.{Cpu, Machine, cpu_init, cpu_reset, cpu_halted}
use turning_machine_operatin.Cpu.Step.{cpu_step}
use turning_machine_operatin.Fs.Host.{File}
use turning_machine_operatin.Fs.Ops.{fs_init}
use turning_machine_operatin.Bios.Queue.{drain}
use turning_machine_operatin.Bios.State.{Bios, World, bios_init, with_cpu, with_bios}
use turning_machine_operatin.Bios.Files.{load_bytes}
use turning_machine_operatin.Bios.Dispatch.{bios_dispatch}

pub data KernelState : Type 0 where
  boot : KernelState
  idle : KernelState
  shell : KernelState
  running : KernelState
  syscall : KernelState
  halt : KernelState

unfoldable pub state_code : KernelState → ℕ
state_code boot = 0
state_code idle = 1
state_code shell = 2
state_code running = 3
state_code syscall = 4
state_code halt = 5

-- `kernel_t`, whose processor is in the world, the variable `resume_state` of `kernel_run`, and
-- what was printed.
pub record Kernel : Type 0 where
  pub state : KernelState
  pub steps : ℕ
  pub tick : ℕ
  pub resume_state : KernelState
  pub world : World
  pub printed : List ℕ

abbrev pub kernel_shell_load_addr : ℕ
kernel_shell_load_addr = 0x0100

-- The stream that `fopen` gives for the disk image is the argument.
unfoldable pub kernel_init : Kernel → Option File → Kernel
kernel_init k disk = record k {
  state = boot;
  steps = 0;
  tick = 0;
  resume_state = shell;
  world = record k.world {
    machine = record { cpu = cpu_init; mem = mem_init };
    bios = bios_init k.world.bios;
    fs = (fs_init k.world.fs disk).1;
  };
}

abbrev pub with_mem : Kernel → Tape → Kernel
with_mem k mem = record k {
  world = record k.world { machine = record k.world.machine { mem = mem } };
}

-- The state, the steps and the dirty map, from 0xFF00 on.
unfoldable pub kernel_write_meta : Kernel → Kernel
unfolding state_code
kernel_write_meta k =
    let steps32 = bit_and k.steps 0xFFFFFFFF in
    let mem₁ = mem_write k.world.machine.mem 0xFF00 (state_code k.state) in
    let mem₂ = mem_write mem₁ 0xFF01 (u8 (bit_and steps32 0xFF)) in
    let mem₃ = mem_write mem₂ 0xFF02 (u8 (bit_and (steps32 >>> 8) 0xFF)) in
    let mem₄ = mem_write mem₃ 0xFF03 (u8 (bit_and (steps32 >>> 16) 0xFF)) in
    let mem₅ = mem_write mem₄ 0xFF04 (u8 (bit_and (steps32 >>> 24) 0xFF)) in
    with_mem k (fill mem₅ 0xFF10 32 0)

unfoldable pub kernel_load_bios_vectors : Tape → Tape
kernel_load_bios_vectors mem = fill mem 0 256 0

-- The ring holds at most 1023 characters.
unfoldable pub kernel_drain_bios_output : Kernel → Kernel
kernel_drain_bios_output k =
    let (text, queue) = drain 1023 k.world.bios.queue in
    record k {
      world = with_bios k.world (record k.world.bios { queue = queue });
      printed = k.printed ++ text;
    }

-- `io_out_pending != 0 && io_out_port == 1`
unfoldable pub calls_bios : Kernel → Bool
calls_bios k = not (k.world.machine.cpu.io_out_pending == 0) && k.world.machine.cpu.io_out_port == 1

abbrev pub is_halted : Kernel → Bool
is_halted k = not (cpu_halted (some k.world.machine.cpu) == 0)

-- `cpu_step(&k->cpu); k->steps++;`
unfoldable pub step_cpu : Kernel → Kernel
step_cpu k = record k {
  world = record k.world { machine = cpu_step k.world.machine };
  steps = u64 (k.steps + 1);
}

-- The file of the shell's program: its bytes, and whether `fclose` works on it.
pub record ShellFile : Type 0 where
  pub bytes : List ℕ
  pub closes : Bool

-- The two parameters are the file of the shell's program, `none` where it does not open, and the
-- compiler.
module _ (shell_com : Option ShellFile) (compile : List ℕ → Option (List ℕ)) where
  -- `false` is -1. The bytes before an error stay.
  unfoldable pub kernel_load_shell_com : Tape → Bool × Tape
  unfolding load_bytes
  kernel_load_shell_com mem = elim shell_com [
    | none ↦ (false, mem)
    | some file ↦
        let (too_long, addr, mem₁) = load_bytes file.bytes kernel_shell_load_addr mem in
        (not too_long && file.closes, mem₁)
  ]

  -- The shell is loaded, or a HLT in its place, and started.
  unfoldable pub start_shell : Kernel → Kernel
  unfolding kernel_load_shell_com
  start_shell k =
      let (loaded, mem₁) = kernel_load_shell_com k.world.machine.mem in
      let mem₂ = if loaded then mem₁ else mem_write mem₁ kernel_shell_load_addr 0x76 in
      let cpu = record k.world.machine.cpu { pc = kernel_shell_load_addr } in
      record (with_mem k mem₂) {
        state = shell;
        world = record k.world { machine = record { cpu = cpu; mem = mem₂ } };
      }

  unfoldable pub boot_round : Kernel → Kernel
  unfolding start_shell
  boot_round k = start_shell (with_mem k (kernel_load_bios_vectors k.world.machine.mem))

  unfoldable pub shell_round : Kernel → Kernel
  unfolding step_cpu calls_bios
  shell_round k =
      let k₁ = step_cpu k in
      if calls_bios k₁
      then record k₁ { resume_state = shell; state = syscall }
      else if is_halted k₁
      then kernel_drain_bios_output (record k₁ { state = halt })
      else kernel_drain_bios_output k₁

  unfoldable pub running_round : Kernel → Kernel
  unfolding step_cpu calls_bios start_shell
  running_round k =
      let k₁ = step_cpu k in
      let reset = record k₁ { world = with_cpu k₁.world cpu_reset } in
      if calls_bios k₁
      then record k₁ { resume_state = running; state = syscall }
      else if is_halted k₁
      then kernel_drain_bios_output (start_shell reset)
      else kernel_drain_bios_output k₁

  unfoldable pub syscall_round : Kernel → Kernel
  syscall_round k =
      let served = bios_dispatch compile k.world in
      let resume = if served.bios.run_loaded == 0 then k.resume_state else running in
      kernel_drain_bios_output (record k { world = served; resume_state = resume; state = resume })

  -- The switch.
  unfoldable pub state_case : KernelState → Kernel → Kernel
  unfolding boot_round shell_round running_round syscall_round
  state_case boot k = boot_round k
  state_case idle k = record (kernel_drain_bios_output k) { state = shell }
  state_case shell k = shell_round k
  state_case running k = running_round k
  state_case syscall k = syscall_round k
  state_case halt k = k

  -- One round of the loop of `kernel_run`, which ends in the halt state.
  unfoldable pub kernel_round : Kernel → Kernel
  unfolding state_case state_code
  kernel_round k =
      let k₁ = kernel_write_meta (record k { tick = (k.tick + 1) % 2 ^ 32 }) in
      if state_code k.state == 5 then k else state_case k.state k₁

  -- The state after at most `n` rounds: the loop stops in the halt state.
  unfoldable pub kernel_rounds : ℕ → Kernel → Kernel
  kernel_rounds zero k = k
  kernel_rounds (suc n) k = kernel_rounds n (kernel_round k)
