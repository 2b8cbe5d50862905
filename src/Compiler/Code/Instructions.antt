-- ===== src/Compiler/Code/Instructions.antt =====
-- The instructions of the operators' code of src/compiler/compiler.c, as steps of src/emu/cpu.c.
use turning_machine_operatin.Base.{
  ℕ, zero, suc, ◌+◌, ◌%◌, ◌<◌, ◌≡◌, refl, List, [], ◌∷◌, ◌++◌, length, arith, bit_and_byte, sub8,
  u16, sub16,
}
use turning_machine_operatin.Mem.{Tape, mem_read}
use turning_machine_operatin.Cpu.State.{Machine}
use turning_machine_operatin.Cpu.Regs.{read_reg_by_code, write_reg_by_code}
use turning_machine_operatin.Cpu.Alu.{add_to_a, sub_from_a}
use turning_machine_operatin.Cpu.Decode.{decode, accumulator_case, control_case, default_case}
use turning_machine_operatin.Cpu.Groups
use turning_machine_operatin.Cpu.Step.{execute, cpu_step, steps}
use turning_machine_operatin.Cpu.Step.Effects.{cpu_step_running}

-- The registers that the operators use.
pub record Regs : Type 0 where
  pub a : ℕ
  pub b : ℕ
  pub c : ℕ

-- The machine runs, with the next instruction at `p` and these registers, over this tape.
abbrev pub At : Tape → ℕ → Regs → Machine → Type 0
At mem p r m =
    (m.cpu.halted ≡ 0)
    × (m.mem ≡ mem)
    × (m.cpu.pc ≡ p)
    × (m.cpu.a ≡ r.a)
    × (m.cpu.b ≡ r.b)
    × (m.cpu.c ≡ r.c)

-- The bytes stand on the tape from `p` on.
abbrev pub Loaded : Tape → ℕ → List ℕ → Type 0
Loaded mem p [] = Unit {0}
Loaded mem p (b ∷ bs) = (mem_read mem p ≡ b) × Loaded mem (p + 1) bs

pub Loaded-append :
    (mem : Tape) (xs ys : List ℕ) (p : ℕ)
    → Loaded mem p (xs ++ ys)
    → Loaded mem p xs × Loaded mem (p + length xs) ys
Loaded-append mem [] ys p l = let same : p + 0 ≡ p = omega arith in (tt, rw same l)
Loaded-append mem (x ∷ xs) ys p l =
    let rest = Loaded-append mem xs ys (p + 1) l.1 in
    let same : p + suc (length xs) ≡ p + 1 + length xs = omega arith in
    ((l.0, rest.0), rw same rest.1)

pub steps-add : (n k : ℕ) (m : Machine) → steps (n + k) m ≡ steps k (steps n m)
unfolding steps
steps-add zero k m = let same : 0 + k ≡ k = omega arith in rw same refl
steps-add (suc n) k m =
    let same : suc n + k ≡ suc (n + k) = omega arith in rw same (steps-add n k (cpu_step m))

module _ (mem : Tape) (p : ℕ) (r : Regs) (m : Machine) (here : At mem p r m) where
  fetched : (opcode : ℕ) → mem_read mem p ≡ opcode → mem_read m.mem m.cpu.pc ≡ opcode
  fetched opcode l = rw (here.1, here.2) l

  next_at : p + 1 < 65536 → u16 (m.cpu.pc + 1) ≡ p + 1
  next_at fits = omega (arith, here.2)

  -- MVI A,v
  pub mvi_a :
      (v : ℕ)
      → Loaded mem p (0x3E ∷ v ∷ [])
      → p + 2 < 65536
      → At mem (p + 2) (record r { a = v }) (cpu_step m)
  unfolding execute decode accumulator_case control_case default_case write_reg_by_code
  mvi_a v l fits =
      let moved : u16 (u16 (m.cpu.pc + 1) + 1) ≡ p + 2 = omega (arith, here.2) in
      let operand : mem_read m.mem (u16 (m.cpu.pc + 1)) ≡ v =
        rw (next_at (omega arith), here.1) l.1.0 in
      rw (cpu_step_running m 0x3E here.0 (fetched 0x3E l.0))
        (here.0, here.1, moved, operand, here.4, here.5)

  -- MOV B,A
  pub mov_b_a :
      Loaded mem p (0x47 ∷ []) → p + 1 < 65536 → At mem (p + 1) (record r { b = r.a }) (cpu_step m)
  unfolding execute decode accumulator_case control_case default_case write_reg_by_code
      read_reg_by_code Groups.mov
  mov_b_a l fits =
      rw (cpu_step_running m 0x47 here.0 (fetched 0x47 l.0))
        (here.0, here.1, next_at fits, here.3, here.3, here.5)

  -- MOV C,A
  pub mov_c_a :
      Loaded mem p (0x4F ∷ []) → p + 1 < 65536 → At mem (p + 1) (record r { c = r.a }) (cpu_step m)
  unfolding execute decode accumulator_case control_case default_case write_reg_by_code
      read_reg_by_code Groups.mov
  mov_c_a l fits =
      rw (cpu_step_running m 0x4F here.0 (fetched 0x4F l.0))
        (here.0, here.1, next_at fits, here.3, here.4, here.3)

  -- MOV A,B
  pub mov_a_b :
      Loaded mem p (0x78 ∷ []) → p + 1 < 65536 → At mem (p + 1) (record r { a = r.b }) (cpu_step m)
  unfolding execute decode accumulator_case control_case default_case write_reg_by_code
      read_reg_by_code Groups.mov
  mov_a_b l fits =
      rw (cpu_step_running m 0x78 here.0 (fetched 0x78 l.0))
        (here.0, here.1, next_at fits, here.4, here.4, here.5)

  -- ADD B
  pub add_b :
      Loaded mem p (0x80 ∷ [])
      → p + 1 < 65536
      → r.a < 256
      → r.b < 256
      → At mem (p + 1) (record r { a = (r.a + r.b) % 256 }) (cpu_step m)
  unfolding execute decode accumulator_case control_case default_case read_reg_by_code add_to_a
  add_b l fits fits_a fits_b = rw (cpu_step_running m 0x80 here.0 (fetched 0x80 l.0)) (
    here.0,
    here.1,
    next_at fits,
    omega (arith, here.3, here.4, bit_and_byte (u16 (m.cpu.a + m.cpu.b + 0))),
    here.4,
    here.5,
  )

  -- SUB C
  pub sub_c :
      Loaded mem p (0x91 ∷ [])
      → p + 1 < 65536
      → r.a < 256
      → r.c < 256
      → At mem (p + 1) (record r { a = sub8 r.a r.c }) (cpu_step m)
  unfolding execute decode accumulator_case control_case default_case read_reg_by_code sub_from_a
  sub_c l fits fits_a fits_c = rw (cpu_step_running m 0x91 here.0 (fetched 0x91 l.0)) (
    here.0,
    here.1,
    next_at fits,
    omega (arith, here.3, here.5, bit_and_byte (sub16 m.cpu.a (u16 (m.cpu.c + 0)))),
    here.4,
    here.5,
  )
