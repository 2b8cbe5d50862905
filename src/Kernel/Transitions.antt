-- ===== src/Kernel/Transitions.antt =====
-- Which states of src/kernel/kernel.c follow each other and when, as a relation between the kernel
-- before a round and after it, and what can be reached.
use turning_machine_operatin.Base.{
  ℕ, ◌+◌, ◌%◌, ◌^◌, ◌≡◌, ◌≢◌, inl, inr, refl, true, false, Option, List, ◌==◌, Bool-cases, arith,
  if_either,
}
use turning_machine_operatin.Cpu.State.{Machine, cpu_reset, cpu_halted}
use turning_machine_operatin.Cpu.Step.{cpu_step}
use turning_machine_operatin.Bios.Dispatch.{bios_dispatch}
use turning_machine_operatin.Kernel.{
  ShellFile, KernelState, boot, idle, shell, running, syscall, halt, Kernel, kernel_write_meta,
  kernel_drain_bios_output, calls_bios, is_halted, step_cpu, start_shell, boot_round, shell_round,
  running_round, syscall_round, kernel_round, state_case, state_code, kernel_shell_load_addr,
}

-- The processor has put out a byte on port 1, which nothing has served yet.
abbrev pub IsCalling : Machine → Type 0
IsCalling m = (m.cpu.io_out_pending ≢ 0) × (m.cpu.io_out_port ≡ 1)

-- The machine after one more instruction, the meta bytes written before it.
abbrev pub stepped : Kernel → Machine
stepped k = cpu_step (kernel_write_meta k).world.machine

-- The kernel after an instruction that the processor has run in one of the two states.
abbrev pub HasStepped : Kernel → KernelState → Kernel → KernelState → Type 0
HasStepped k from k' to = (k.state ≡ from) × (k'.state ≡ to) × (k'.world.machine ≡ stepped k)

-- The shell or a HLT in its place is about to run.
abbrev pub StartsShell : Kernel → Type 0
StartsShell k = (k.state ≡ shell) × (k.world.machine.cpu.pc ≡ kernel_shell_load_addr)

-- A round leads from the first kernel to the second.
pub data Moves (k k' : Kernel) : Type 0 where
  loads :
      k.state ≡ boot
      → StartsShell k'
      → k'.world.machine.cpu ≡ record k.world.machine.cpu { pc = kernel_shell_load_addr }
      → k'.resume_state ≡ k.resume_state
      → Moves k k'
  wakes : k.state ≡ idle → k'.state ≡ shell → k'.resume_state ≡ k.resume_state → Moves k k'
  calls :
      HasStepped k shell k' syscall → IsCalling (stepped k) → k'.resume_state ≡ shell → Moves k k'
  stops :
      HasStepped k shell k' halt
      → ¬ IsCalling (stepped k)
      → (stepped k).cpu.halted ≢ 0
      → k'.resume_state ≡ k.resume_state
      → Moves k k'
  stays :
      HasStepped k shell k' shell
      → ¬ IsCalling (stepped k)
      → (stepped k).cpu.halted ≡ 0
      → k'.resume_state ≡ k.resume_state
      → Moves k k'
  asks :
      HasStepped k running k' syscall
      → IsCalling (stepped k)
      → k'.resume_state ≡ running
      → Moves k k'
  ends :
      k.state ≡ running
      → ¬ IsCalling (stepped k)
      → (stepped k).cpu.halted ≢ 0
      → StartsShell k'
      → k'.world.machine.cpu ≡ record cpu_reset { pc = kernel_shell_load_addr }
      → k'.resume_state ≡ k.resume_state
      → Moves k k'
  runs :
      HasStepped k running k' running
      → ¬ IsCalling (stepped k)
      → (stepped k).cpu.halted ≡ 0
      → k'.resume_state ≡ k.resume_state
      → Moves k k'
  returns :
      k.state ≡ syscall
      → k'.world.machine.cpu.io_out_pending ≡ 0
      → k'.world.bios.run_loaded ≡ 0
      → k'.state ≡ k.resume_state
      → k'.resume_state ≡ k.resume_state
      → Moves k k'
  enters :
      k.state ≡ syscall
      → k'.world.machine.cpu.io_out_pending ≡ 0
      → k'.world.bios.run_loaded ≢ 0
      → k'.state ≡ running
      → k'.resume_state ≡ running
      → Moves k k'
  rests : k.state ≡ halt → k' ≡ k → Moves k k'

calls_bios-IsCalling : (k : Kernel) → calls_bios k ≡ true → IsCalling k.world.machine
unfolding calls_bios
calls_bios-IsCalling k e = ground arith

not-calls_bios : (k : Kernel) → calls_bios k ≡ false → ¬ IsCalling k.world.machine
unfolding calls_bios
not-calls_bios k e h = ground arith

is_halted_ne : (k : Kernel) → is_halted k ≡ true → k.world.machine.cpu.halted ≢ 0
unfolding cpu_halted
is_halted_ne k e = ground arith

not-is_halted : (k : Kernel) → is_halted k ≡ false → k.world.machine.cpu.halted ≡ 0
unfolding cpu_halted
not-is_halted k e = ground arith

-- The kernel in the body of the loop: the ticks counted, the meta bytes written.
abbrev entered : Kernel → Kernel
entered k = kernel_write_meta (record k { tick = (k.tick + 1) % 2 ^ 32 })

module _ (shell_com : Option ShellFile) (compile : List ℕ → Option (List ℕ)) where
  shell_round-Moves :
      (k : Kernel) → k.state ≡ shell → Moves k (shell_round shell_com compile (entered k))
  unfolding shell_round kernel_drain_bios_output step_cpu kernel_write_meta
  shell_round-Moves k e =
      let k₂ = step_cpu (entered k) in
      if_either (Moves k) (calls_bios k₂)
        (λ c. calls (e, refl, refl) (calls_bios-IsCalling k₂ c) refl)
        (λ c.
          if_either (Moves k) (is_halted k₂)
            (λ h. stops (e, refl, refl) (not-calls_bios k₂ c) (is_halted_ne k₂ h) refl)
            (λ h. stays (e, e, refl) (not-calls_bios k₂ c) (not-is_halted k₂ h) refl))

  running_round-Moves :
      (k : Kernel) → k.state ≡ running → Moves k (running_round shell_com compile (entered k))
  unfolding running_round kernel_drain_bios_output step_cpu kernel_write_meta start_shell
  running_round-Moves k e =
      let k₂ = step_cpu (entered k) in
      if_either (Moves k) (calls_bios k₂)
        (λ c. asks (e, refl, refl) (calls_bios-IsCalling k₂ c) refl)
        (λ c.
          if_either (Moves k) (is_halted k₂)
            (λ h. ends e (not-calls_bios k₂ c) (is_halted_ne k₂ h) (refl, refl) refl refl)
            (λ h. runs (e, e, refl) (not-calls_bios k₂ c) (not-is_halted k₂ h) refl))

  syscall_round-Moves :
      (k : Kernel) → k.state ≡ syscall → Moves k (syscall_round shell_com compile (entered k))
  unfolding syscall_round bios_dispatch kernel_drain_bios_output kernel_write_meta
  syscall_round-Moves k e =
      let run_loaded = (bios_dispatch compile (entered k).world).bios.run_loaded in
      elim (Bool-cases (run_loaded == 0)) [
        | inl z ↦ returns e refl (ground arith) (rw z refl) (rw z refl)
        | inr z ↦ enters e refl (ground arith) (rw z refl) (rw z refl)
      ]

  -- The body of the loop, from each of the states that it handles.
  state_case-Moves :
      (s : KernelState) (k : Kernel)
      → k.state ≡ s
      → (state_code s == 5) ≡ false
      → Moves k (state_case shell_com compile s (entered k))
  unfolding state_case kernel_drain_bios_output kernel_write_meta boot_round start_shell state_code
  state_case-Moves boot k e h = loads e (refl, refl) refl refl
  state_case-Moves idle k e h = wakes e refl refl
  state_case-Moves shell k e h = shell_round-Moves k e
  state_case-Moves running k e h = running_round-Moves k e
  state_case-Moves syscall k e h = syscall_round-Moves k e
  state_case-Moves halt k e h = absurd (ground arith)

  at_halt : (s : KernelState) → (state_code s == 5) ≡ true → s ≡ halt
  unfolding state_code
  at_halt s h = ground arith

  -- A round of the loop, from any state and whatever the disk, the shell, the input and the compiler
  -- give. Booting starts the shell at its address. In the shell or in a program one instruction is
  -- run: a call that it puts out leads to the call state, else a HLT leads from the shell to the halt
  -- state and from a program to the shell, on a processor that is reset, else the state stays. A call
  -- is taken back when it is served, and leads to a program that it has loaded, else to where it came
  -- from. In the halt state nothing changes.
  pub kernel_round-Moves : (k : Kernel) → Moves k (kernel_round shell_com compile k)
  unfolding kernel_round
  kernel_round-Moves k = elim (Bool-cases (state_code k.state == 5)) [
    | inl stop ↦ rests (at_halt k.state stop) (rw stop refl)
    | inr goes ↦ rw goes (state_case-Moves k.state k refl goes)
  ]
