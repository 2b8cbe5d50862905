-- ===== src/Kernel/Reach.antt =====
-- What holds in every state that the loop of src/kernel/kernel.c reaches.
use turning_machine_operatin.Base.{
  ℕ, zero, suc, ◌≡◌, ◌≢◌, ◌⊎◌, inl, inr, refl, sym, ap, ◌∙◌, Option, List,
}
use mathlib.Core.Path.{subst}
use turning_machine_operatin.Fs.Host.{File}
use turning_machine_operatin.Cpu.State.{Machine, cpu_init, cpu_reset}
use turning_machine_operatin.Kernel.{
  ShellFile, KernelState, boot, idle, shell, running, syscall, halt, Kernel, kernel_init,
  kernel_round, kernel_rounds,
}
use turning_machine_operatin.Kernel.Transitions.{
  Moves, loads, wakes, calls, stops, stays, asks, ends, runs, returns, enters, rests, IsCalling,
  stepped, kernel_round-Moves,
}

-- A call returns to the shell or to a program.
abbrev pub IsResumable : Kernel → Type 0
IsResumable k = (k.resume_state ≡ shell) ⊎ (k.resume_state ≡ running)

kept : {s t : KernelState} → t ≡ s → (s ≡ shell) ⊎ (s ≡ running) → (t ≡ shell) ⊎ (t ≡ running)
kept e (inl h) = inl (e ∙ h)
kept e (inr h) = inr (e ∙ h)

-- What holds of the machine in each state: the idle state is not reached, a call waits exactly in the
-- call state, and the kernel halts on a processor that has halted.
abbrev pub Holds : KernelState → Machine → Type 0
Holds boot m = m.cpu.io_out_pending ≡ 0
Holds idle m = ⊥
Holds shell m = ¬ IsCalling m
Holds running m = ¬ IsCalling m
Holds syscall m = IsCalling m
Holds halt m = (m.cpu.halted ≢ 0) × (¬ IsCalling m)

abbrev pub IsSound : Kernel → Type 0
IsSound k = Holds k.state k.world.machine × IsResumable k

Holds-at : (m : Machine) {s t : KernelState} → s ≡ t → Holds t m → Holds s m
Holds-at m e h = subst (λ s. Holds s m) (sym e) h

-- The machine after the round is the one that the instruction left.
Holds-stepped :
    (k k' : Kernel) (s : KernelState)
    → k'.state ≡ s
    → k'.world.machine ≡ stepped k
    → Holds s (stepped k)
    → Holds k'.state k'.world.machine
Holds-stepped k k' s e same h = Holds-at k'.world.machine e (subst (λ m. Holds s m) (sym same) h)

served : (m : Machine) → m.cpu.io_out_pending ≡ 0 → ¬ IsCalling m
served m e h = h.0 e

resumed :
    (k' : Kernel) (s : KernelState)
    → (s ≡ shell) ⊎ (s ≡ running)
    → k'.state ≡ s
    → ¬ IsCalling k'.world.machine
    → Holds k'.state k'.world.machine
resumed k' s (inl e) at h = Holds-at k'.world.machine (at ∙ e) h
resumed k' s (inr e) at h = Holds-at k'.world.machine (at ∙ e) h

Moves-IsSound : {k k' : Kernel} → Moves k k' → IsSound k → IsSound k'
unfolding cpu_reset cpu_init
Moves-IsSound {k} {k'} (loads e to same r) v =
    let before : k.world.machine.cpu.io_out_pending ≡ 0 = Holds-at k.world.machine (sym e) v.0 in
    let quiet : k'.world.machine.cpu.io_out_pending ≡ 0 =
      ap (λ c. c.io_out_pending) same ∙ before in
    (Holds-at k'.world.machine to.0 (served k'.world.machine quiet), kept r v.1)
Moves-IsSound {k} {k'} (wakes e to r) v = absurd (Holds-at k.world.machine (sym e) v.0)
Moves-IsSound {k} {k'} (calls h c r) v = (Holds-stepped k k' syscall h.1 h.2 c, inl r)
Moves-IsSound {k} {k'} (stops h c f r) v = (Holds-stepped k k' halt h.1 h.2 (f, c), kept r v.1)
Moves-IsSound {k} {k'} (stays h c f r) v = (Holds-stepped k k' shell h.1 h.2 c, kept r v.1)
Moves-IsSound {k} {k'} (asks h c r) v = (Holds-stepped k k' syscall h.1 h.2 c, inr r)
Moves-IsSound {k} {k'} (ends e c f to same r) v =
    let quiet : k'.world.machine.cpu.io_out_pending ≡ 0 = ap (λ c. c.io_out_pending) same in
    (Holds-at k'.world.machine to.0 (served k'.world.machine quiet), kept r v.1)
Moves-IsSound {k} {k'} (runs h c f r) v = (Holds-stepped k k' running h.1 h.2 c, kept r v.1)
Moves-IsSound {k} {k'} (returns e quiet z to r) v =
    (resumed k' k.resume_state v.1 to (served k'.world.machine quiet), kept r v.1)
Moves-IsSound {k} {k'} (enters e quiet z to r) v =
    (Holds-at k'.world.machine to (served k'.world.machine quiet), inr r)
Moves-IsSound {k} {k'} (rests e same) v = subst IsSound (sym same) v

module _ (shell_com : Option ShellFile) (compile : List ℕ → Option (List ℕ)) where
  rounds-IsSound : (n : ℕ) (k : Kernel) → IsSound k → IsSound (kernel_rounds shell_com compile n k)
  unfolding kernel_rounds
  rounds-IsSound zero k v = v
  rounds-IsSound (suc n) k v =
      rounds-IsSound n (kernel_round shell_com compile k)
        (Moves-IsSound (kernel_round-Moves shell_com compile k) v)

  -- However long the kernel runs from its start, whatever the disk, the shell, the input and the
  -- compiler give: a BIOS call waits in the call state and in no other, the halt state is reached
  -- only on a processor that has halted, a call always returns to the shell or to a program, and the
  -- idle state is never reached.
  pub kernel_rounds-IsSound :
      (n : ℕ) (k : Kernel) (disk : Option File)
      → IsSound (kernel_rounds shell_com compile n (kernel_init k disk))
  unfolding kernel_init cpu_init
  kernel_rounds-IsSound n k disk = rounds-IsSound n (kernel_init k disk) (refl, inl refl)
