-- ===== src/Cpu/Stack/Words.antt =====
-- Words on the stack: what is pushed is popped, and nothing else of the tape changes.
use turning_machine_operatin.Base.{
  ℕ, ◌+◌, ◌*◌, ◌/◌, ◌%◌, ◌^◌, ◌<◌, ◌≡◌, ◌∙◌, refl, ap, ◌≢◌, bit_and, bit_or, bit_or_disjoint,
  bit_or_comm, bit_and_byte, arith, u16, sub16,
}
use turning_machine_operatin.Mem.{
  Tape, IsTape, mem_read, mem_write, mem_read-mem_write_self, mem_read-mem_write_ne,
  mem_write-IsTape,
}
use turning_machine_operatin.Cpu.State.{Machine, IsCpu, IsValid}
use turning_machine_operatin.Cpu.Stack.{read_u16, push_u16, pop_u16}

pub join_bytes :
    (lo hi : ℕ) → lo < 256 → hi < 256 → u16 (bit_or lo (u16 hi * 2 ^ 8)) ≡ lo + 256 * hi
join_bytes lo hi h g =
    omega (arith, bit_or_comm lo (hi % 65536 * 2 ^ 8), bit_or_disjoint 8 (hi % 65536) lo h)

-- A word is its low byte first.
pub read_u16_lem :
    (mem : Tape) (addr : ℕ)
    → IsTape mem
    → read_u16 mem addr ≡ mem_read mem addr + 256 * mem_read mem (u16 (addr + 1))
unfolding read_u16
read_u16_lem mem addr h = join_bytes (mem_read mem addr) (mem_read mem (u16 (addr + 1))) (h _) (h _)

pub read_u16-lt : (mem : Tape) (addr : ℕ) → read_u16 mem addr < 65536
unfolding read_u16
read_u16-lt mem addr = omega arith

pub push_u16-IsValid : {m : Machine} (value : ℕ) → IsValid m → IsValid (push_u16 m value)
unfolding push_u16
push_u16-IsValid {m} value v = record {
  cpu_ok = ground arith;
  mem_ok = mem_write-IsTape _ _ _ (mem_write-IsTape _ _ _ v.mem_ok (omega arith)) (omega arith);
}

pub pop_u16-IsValid : {m : Machine} → IsValid m → ((pop_u16 m).0 < 65536) × IsValid (pop_u16 m).1
unfolding pop_u16
pop_u16-IsValid v = ground arith

-- The two cells that a push writes.
pub push_u16-mem :
    (m : Machine) (value x : ℕ)
    → IsCpu m.cpu
    → value < 65536
    → let sp' = sub16 m.cpu.sp 2 in
      ((push_u16 m value).cpu.sp ≡ sp')
      × (mem_read (push_u16 m value).mem sp' ≡ value % 256)
      × (mem_read (push_u16 m value).mem (u16 (sp' + 1)) ≡ value / 256)
      × (x ≢ sp' → x ≢ u16 (sp' + 1) → mem_read (push_u16 m value).mem x ≡ mem_read m.mem x)
unfolding push_u16
push_u16-mem m value x v fits =
    let mem₁ = mem_write m.mem (sub16 m.cpu.sp 1) (value / 256 % 256) in
    let lo = bit_and value 0xff % 256 in
    let up : u16 (sub16 m.cpu.sp 2 + 1) ≡ sub16 m.cpu.sp 1 = omega (arith, v.sp_fits) in
    let apart : sub16 m.cpu.sp 1 ≢ sub16 m.cpu.sp 2 = omega (arith, v.sp_fits) in
    (
      refl,
      mem_read-mem_write_self mem₁ (sub16 m.cpu.sp 2) lo ∙ omega (arith, bit_and_byte value),
      rw up (
          mem_read-mem_write_ne mem₁ (sub16 m.cpu.sp 2) lo (sub16 m.cpu.sp 1) apart
          ∙ mem_read-mem_write_self m.mem (sub16 m.cpu.sp 1) (value / 256 % 256)
          ∙ omega arith),
      λ p q.
          mem_read-mem_write_ne mem₁ (sub16 m.cpu.sp 2) lo x p
          ∙ mem_read-mem_write_ne m.mem (sub16 m.cpu.sp 1) (value / 256 % 256) x (rw (← up) q),
    )

-- The cells are below the stack pointer: a return address or a saved pair is popped as it was
-- pushed, also where the stack pointer wraps round the address space.
pub pop-push :
    (m : Machine) (value : ℕ)
    → IsValid m
    → value < 65536
    → let r = pop_u16 (push_u16 m value) in
      (r.0 ≡ value)
      × (r.1.cpu ≡ m.cpu)
      × ((x : ℕ)
          → x ≢ sub16 m.cpu.sp 2
          → x ≢ sub16 m.cpu.sp 1
          → mem_read r.1.mem x ≡ mem_read m.mem x)
unfolding pop_u16 read_u16 push_u16
pop-push m value v fits =
    let at_sp = push_u16-mem m value 0 v.cpu_ok fits in
    (
      read_u16_lem (push_u16 m value).mem (sub16 m.cpu.sp 2) (push_u16-IsValid value v).mem_ok
          ∙ omega (arith, at_sp.1, at_sp.2),
      ap (λ (s : ℕ). record m.cpu { sp = s }) (omega (arith, v.cpu_ok.sp_fits)),
      λ x p q.
          (push_u16-mem m value x v.cpu_ok fits).3 p (λ e. q (e ∙ omega (arith, v.cpu_ok.sp_fits))),
    )
