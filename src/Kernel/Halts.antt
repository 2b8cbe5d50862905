-- ===== src/Kernel/Halts.antt =====
-- When the loop of src/kernel/kernel.c ends.
use turning_machine_operatin.Base.{
  ℕ, ◌≡◌, refl, false, Option, List, fill, ap, sym, u16, u64, ◌+◌, ◌%◌, ◌^◌, ◌==◌, if◌then◌else◌,
}
use mathlib.Core.Path.{subst}
use turning_machine_operatin.Mem.{Tape, mem_read, mem_write}
use turning_machine_operatin.Fs.Host.{File}
use turning_machine_operatin.Cpu.State.{cpu_init, cpu_halted}
use turning_machine_operatin.Cpu.Step.{execute}
use turning_machine_operatin.Cpu.Decode.{decode, accumulator_case, control_case}
use turning_machine_operatin.Cpu.Step.Effects.{cpu_step_running}
use turning_machine_operatin.Kernel.{
  ShellFile, Kernel, shell, halt, kernel_init, kernel_load_shell_com, kernel_load_bios_vectors,
  kernel_write_meta, kernel_drain_bios_output, kernel_round, kernel_rounds, state_case, state_code,
  boot_round, shell_round, start_shell, step_cpu, calls_bios, with_mem,
}

-- A running shell that stands at a HLT at the start of its program, with no call pending.
abbrev AtHalt : Kernel → Type 0
AtHalt k =
    (k.state ≡ shell)
    × (k.world.machine.cpu.halted ≡ 0)
    × (k.world.machine.cpu.io_out_pending ≡ 0)
    × (k.world.machine.cpu.pc ≡ 0x100)
    × (mem_read k.world.machine.mem 0x100 ≡ 0x76)

-- That instruction has been run, and nothing after it.
abbrev HasHalted : Kernel → Kernel → Type 0
HasHalted k k' =
    (k'.state ≡ halt)
    × (k'.world.machine.cpu.halted ≡ 1)
    × (k'.world.machine.cpu.pc ≡ 0x101)
    × (k'.steps ≡ u64 (k.steps + 1))

module _ (shell_com : Option ShellFile) (compile : List ℕ → Option (List ℕ)) where
  -- Where the program does not load, a HLT is started in its place.
  start_shell-AtHalt :
      (k : Kernel)
      → (kernel_load_shell_com shell_com compile k.world.machine.mem).0 ≡ false
      → k.world.machine.cpu.halted ≡ 0
      → k.world.machine.cpu.io_out_pending ≡ 0
      → AtHalt (start_shell shell_com compile k)
  unfolding start_shell mem_read mem_write
  start_shell-AtHalt k fails h p = (refl, h, p, refl, rw fails refl)

  shell_round-halt : (k : Kernel) → AtHalt k → HasHalted k (shell_round shell_com compile k)
  unfolding shell_round step_cpu calls_bios kernel_drain_bios_output execute decode control_case
      accumulator_case cpu_halted
  shell_round-halt k h =
      let at : mem_read k.world.machine.mem k.world.machine.cpu.pc ≡ 0x76 = rw h.3 h.4 in
      rw (cpu_step_running k.world.machine 0x76 h.1 at, h.2)
        (refl, refl, ap (λ pc. u16 (pc + 1)) h.3, refl)

  kernel_round-halt : (k : Kernel) → AtHalt k → HasHalted k (kernel_round shell_com compile k)
  unfolding kernel_round state_case state_code kernel_write_meta mem_read mem_write fill
  kernel_round-halt k h =
      let k₁ = kernel_write_meta (record k { tick = (k.tick + 1) % 2 ^ 32 }) in
      let in_shell : kernel_round shell_com compile k ≡ shell_round shell_com compile k₁ =
        ap (λ s. if state_code s == 5 then k else state_case shell_com compile s k₁) h.0 in
      subst (HasHalted k) (sym in_shell) (shell_round-halt k₁ h)

-- Where the shell's program does not open, is too long or does not close, the kernel stands at a HLT
-- at the start of the program's area after its first round, with the processor running and no call
-- waiting; its second round runs this one instruction and halts.
pub kernel_rounds-halt :
    (shell_com : Option ShellFile) (compile : List ℕ → Option (List ℕ)) (k : Kernel)
    (disk : Option File)
    → ((mem : Tape) → (kernel_load_shell_com shell_com compile mem).0 ≡ false)
    → let k₁ = kernel_rounds shell_com compile 1 (kernel_init k disk) in
      let k₂ = kernel_rounds shell_com compile 2 (kernel_init k disk) in
      (k₁.state ≡ shell)
      × (k₁.world.machine.cpu.halted ≡ 0)
      × (k₁.world.machine.cpu.io_out_pending ≡ 0)
      × (k₁.world.machine.cpu.pc ≡ 0x100)
      × (mem_read k₁.world.machine.mem 0x100 ≡ 0x76)
      × (k₂.state ≡ halt)
      × (k₂.world.machine.cpu.halted ≡ 1)
      × (k₂.world.machine.cpu.pc ≡ 0x101)
      × (k₂.steps ≡ 1)
unfolding kernel_init kernel_rounds kernel_round state_case state_code boot_round kernel_write_meta
    cpu_init start_shell
kernel_rounds-halt shell_com compile k disk fails =
    let k₀ = kernel_init k disk in
    let k₁ = kernel_write_meta (record k₀ { tick = (k₀.tick + 1) % 2 ^ 32 }) in
    let k₂ = with_mem k₁ (kernel_load_bios_vectors k₁.world.machine.mem) in
    let at = start_shell-AtHalt shell_com compile k₂ (fails k₂.world.machine.mem) refl refl in
    let end = kernel_round-halt shell_com compile (start_shell shell_com compile k₂) at in
    (at.0, at.1, at.2, at.3, at.4, end.0, end.1, end.2, end.3)
