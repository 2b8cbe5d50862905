-- ===== src/Examples/OnKernel.antt =====
-- The kernel at a concrete state: a shell that only halts, and no disk.
use turning_machine_operatin.Base.{
  ℕ, take, drop, length, ◌≡◌, refl, Option, true, false, none, some, List, [], ◌∷◌,
}
use turning_machine_operatin.Kernel.{
  ShellFile, shell, syscall, halt, kernel_load_shell_com, Kernel, kernel_init, kernel_round,
  kernel_rounds,
}
use turning_machine_operatin.Mem.{mem_read}
use turning_machine_operatin.Kernel.Transitions.{Moves, kernel_round-Moves}
use turning_machine_operatin.Kernel.Reach.{IsSound, kernel_rounds-IsSound}
use turning_machine_operatin.Kernel.Snapshots.{kernel_finish, kernel_finish_lem}
use turning_machine_operatin.Kernel.Halts.{kernel_rounds-halt}
use turning_machine_operatin.Examples.OnBios.{world}

abbrev halting_shell : Option ShellFile
halting_shell = some (record { bytes = 0x76 ∷ []; closes = true })

abbrev no_compiler : List ℕ → Option (List ℕ)
no_compiler source = none

abbrev calling : Kernel
calling = record {
  state = syscall;
  steps = 12;
  tick = 30;
  resume_state = shell;
  world = world;
  printed = [];
}

kernel_round-Moves_example : Moves calling (kernel_round halting_shell no_compiler calling)
kernel_round-Moves_example = kernel_round-Moves halting_shell no_compiler calling

kernel_rounds-IsSound_example :
    IsSound (kernel_rounds halting_shell no_compiler 3 (kernel_init calling none))
kernel_rounds-IsSound_example = kernel_rounds-IsSound halting_shell no_compiler 3 calling none

-- A shell whose file does not close.
abbrev broken_shell : Option ShellFile
broken_shell = some (record { bytes = 0x76 ∷ []; closes = false })

kernel_rounds-halt_example :
    let k₁ = kernel_rounds broken_shell no_compiler 1 (kernel_init calling none) in
    let k₂ = kernel_rounds broken_shell no_compiler 2 (kernel_init calling none) in
    (k₁.state ≡ shell)
    × (k₁.world.machine.cpu.halted ≡ 0)
    × (k₁.world.machine.cpu.io_out_pending ≡ 0)
    × (k₁.world.machine.cpu.pc ≡ 0x100)
    × (mem_read k₁.world.machine.mem 0x100 ≡ 0x76)
    × (k₂.state ≡ halt)
    × (k₂.world.machine.cpu.halted ≡ 1)
    × (k₂.world.machine.cpu.pc ≡ 0x101)
    × (k₂.steps ≡ 1)
unfolding kernel_load_shell_com
kernel_rounds-halt_example = kernel_rounds-halt broken_shell no_compiler calling none (λ mem. refl)

kernel_finish_lem_example :
    let tape = (kernel_finish calling).1.0 in
    let meta = (kernel_finish calling).1.1 in
    (take 5 meta ≡ take 5 (drop 0xFF00 tape))
    × (take 32 (drop 5 meta) ≡ take 32 (drop 0xFF10 tape))
    × (length meta ≡ 64)
kernel_finish_lem_example = kernel_finish_lem calling
