-- ===== src/Cpu/Alu/Counts.antt =====
-- INR, DCR and the logical operations: the register that they change and all five flags.
use turning_machine_operatin.Base.{
  ℕ, ◌+◌, ◌%◌, ◌<◌, ◌≡◌, refl, ap, ap₂, ◌∙◌, Bool, true, false, bit_and, bit_or, bit_and_low, ◌==◌,
  ltb, leb, arith, u8, sub8,
}
use turning_machine_operatin.Cpu.State.{Cpu, Machine, IsValid}
use turning_machine_operatin.Cpu.Flags.{
  IsFlags, flag_byte, has, clear, raise_if, set_szp, parity_even, flag_s, flag_z, flag_ac, flag_p,
  flag_cy,
}
use turning_machine_operatin.Cpu.Flags.Values.{
  flags-view, set_szp_lem, raise_half_carry, clear_carries, and_carries,
}
use turning_machine_operatin.Cpu.Regs.{read_reg_by_code, write_reg_by_code}
use turning_machine_operatin.Cpu.Regs.Access.{read_reg_by_code-lt, read-write_reg_by_code}
use turning_machine_operatin.Cpu.Alu.{inr_reg, dcr_reg, logic_flags, logic_flags_and}
use turning_machine_operatin.Cpu.Alu.Sums.{result_flags}

set_szp-view :
    (f result : ℕ)
    → IsFlags f
    → result < 256
    → set_szp f result
      ≡ flag_byte
          (leb 128 result)
          (result == 0)
          (has f flag_ac)
          (parity_even result)
          (has f flag_cy)
set_szp-view f result ok h =
    ap (λ (g : ℕ). set_szp g result) (flags-view f ok)
    ∙ set_szp_lem (has f flag_s) (has f flag_z) (has f flag_ac) (has f flag_p) (has f flag_cy)
        result h

-- The flags of a result with the half carry set anew and CY kept.
count_flags :
    (f result : ℕ) (ac : Bool)
    → IsFlags f
    → result < 256
    → raise_if ac (clear (set_szp f result) flag_ac) flag_ac
      ≡ result_flags result ac (has f flag_cy)
unfolding result_flags
count_flags f result ac ok h = rw (set_szp-view f result ok h) (
    raise_half_carry (leb 128 result) (result == 0) (has f flag_ac) (parity_even result)
      (has f flag_cy) ac)

flags-write_reg_by_code :
    (m : Machine) (code value : ℕ) → (write_reg_by_code m code value).cpu.flags ≡ m.cpu.flags
unfolding write_reg_by_code
flags-write_reg_by_code m code value = ground arith

-- The flags are no register.
read_reg_by_code-flags :
    (m : Machine) (flags code : ℕ)
    → read_reg_by_code (record m { cpu = record m.cpu { flags = flags } }) code
      ≡ read_reg_by_code m code
unfolding read_reg_by_code
read_reg_by_code-flags m flags code = refl

half_carry : (before : ℕ) → ltb 0x0F (bit_and before 0x0F + 1) ≡ leb 16 (before % 16 + 1)
half_carry before = ground (arith, bit_and_low 4 before)

-- INR adds one to a register or to the byte at HL, within a byte; it sets the flags of the
-- result, AC on a carry out of the low digit, and keeps CY.
pub inr_reg_lem :
    (m : Machine) (code : ℕ)
    → IsValid m
    → let before = read_reg_by_code m code in
      let after = (before + 1) % 256 in
      (read_reg_by_code (inr_reg m code) code ≡ after)
      × ((inr_reg m code).cpu.flags
          ≡ result_flags after (leb 16 (before % 16 + 1)) (has m.cpu.flags flag_cy))
unfolding inr_reg
inr_reg_lem m code v =
    let before = read_reg_by_code m code in
    let after = u8 (before + 1) in
    let written = write_reg_by_code m code after in
    let kept = flags-write_reg_by_code m code after in
    (
      read_reg_by_code-flags written _ code ∙ read-write_reg_by_code m code after,
      rw kept (
          count_flags m.cpu.flags after _ v.cpu_ok.flags_fit (omega arith)
          ∙ ap (λ (ac : Bool). result_flags after ac (has m.cpu.flags flag_cy))
              (half_carry before)),
    )

-- DCR takes one from a register or from the byte at HL, within a byte; it sets the flags of the
-- result, AC on a borrow into the low digit, and keeps CY.
pub dcr_reg_lem :
    (m : Machine) (code : ℕ)
    → IsValid m
    → let before = read_reg_by_code m code in
      let after = (before + 255) % 256 in
      (read_reg_by_code (dcr_reg m code) code ≡ after)
      × ((dcr_reg m code).cpu.flags
          ≡ result_flags after (before % 16 == 0) (has m.cpu.flags flag_cy))
unfolding dcr_reg
dcr_reg_lem m code v =
    let before = read_reg_by_code m code in
    let after = sub8 before 1 in
    let written = write_reg_by_code m code after in
    let kept = flags-write_reg_by_code m code after in
    let value : after ≡ (before + 255) % 256 = omega (arith, read_reg_by_code-lt code v) in
    (
      read_reg_by_code-flags written _ code ∙ read-write_reg_by_code m code after ∙ value,
      rw kept (
          count_flags m.cpu.flags after _ v.cpu_ok.flags_fit (omega arith)
          ∙ ap₂ (λ (r : ℕ) (low : ℕ). result_flags r (low == 0) (has m.cpu.flags flag_cy)) value
              (bit_and_low 4 before)),
    )

-- The logical operations leave their result in A and describe it in S, Z and P. CY is cleared;
-- AC is cleared by OR and XOR and set by AND.
logic_flags_lem :
    (cpu : Cpu) (result : ℕ)
    → IsFlags cpu.flags
    → result < 256
    → (logic_flags cpu result ≡ record cpu { a = result; flags = result_flags result false false })
      × (logic_flags_and cpu result
          ≡ record cpu { a = result; flags = result_flags result true false })
unfolding logic_flags logic_flags_and result_flags
logic_flags_lem cpu result ok h =
    let s = has cpu.flags flag_s in
    let z = has cpu.flags flag_z in
    let ac = has cpu.flags flag_ac in
    let p = has cpu.flags flag_p in
    let cy = has cpu.flags flag_cy in
    let whole = flags-view cpu.flags ok in
    let or_flags = ap (λ (f : ℕ). clear f 0x11) whole ∙ clear_carries s z ac p cy in
    let and_flags =
      ap (λ (f : ℕ). bit_or (clear f flag_cy) flag_ac) whole ∙ and_carries s z ac p cy in
    (
      ap (λ (f : ℕ). record cpu { a = result; flags = f })
          (ap (λ (f : ℕ). set_szp f result) or_flags ∙ set_szp_lem s z false p false result h),
      ap (λ (f : ℕ). record cpu { a = result; flags = f })
          (ap (λ (f : ℕ). set_szp f result) and_flags ∙ set_szp_lem s z true p false result h),
    )
