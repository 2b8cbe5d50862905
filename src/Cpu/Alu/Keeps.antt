-- ===== src/Cpu/Alu/Keeps.antt =====
-- The arithmetic helpers keep every field of the processor within its type.
use turning_machine_operatin.Base.{
  ℕ, ◌+◌, ◌<◌, ◌≤◌, Bool, true, false, bit_or, bit_xor, arith, u8, sub8, to_bit-le,
}
use turning_machine_operatin.Cpu.State.{Cpu, Machine, IsCpu, IsValid}
use turning_machine_operatin.Cpu.Flags.{
  IsFlags, flag_byte, set_szp, carry_flags, clear, raise_if, has, flag_ac, flag_cy,
}
use turning_machine_operatin.Cpu.Flags.Values.{
  flags-view, flag_byte-IsFlags, set_szp_lem, raise_half_carry, raise_carry, clear_carries,
  and_carries, set_carry, flip_carry,
}
use turning_machine_operatin.Cpu.Regs.{read_reg_by_code}
use turning_machine_operatin.Cpu.Regs.Access.{write_reg_by_code-IsValid}
use turning_machine_operatin.Cpu.Alu.{
  add_to_a, sub_from_a, inr_reg, dcr_reg, logic_flags, logic_flags_and, cmp_flags_only, daa,
  carry_bit,
}
use turning_machine_operatin.Cpu.Alu.Decimal.{carry_flags-cy}

-- A law of flag bytes, at any valid byte.
at_view :
    (P : ℕ → Type 0)
    → ((s z ac p cy : Bool) → P (flag_byte s z ac p cy))
    → (f : ℕ) → IsFlags f
    → P f
at_view P h f ok = rw (flags-view f ok) (h _ _ _ _ _)

pub set_szp-IsFlags : (f r : ℕ) → IsFlags f → r < 256 → IsFlags (set_szp f r)
set_szp-IsFlags f r ok fits =
    at_view (λ g. IsFlags (set_szp g r))
      (λ s z ac p cy. rw (set_szp_lem s z ac p cy r fits) (flag_byte-IsFlags _ _ _ _ _)) f ok

pub raise_carry-IsFlags :
    (f : ℕ) (new : Bool) → IsFlags f → IsFlags (raise_if new (clear f flag_cy) flag_cy)
raise_carry-IsFlags f new ok =
    at_view (λ g. IsFlags (raise_if new (clear g flag_cy) flag_cy))
      (λ s z ac p cy. rw (raise_carry s z ac p cy new) (flag_byte-IsFlags _ _ _ _ _)) f ok

raise_half_carry-IsFlags :
    (f : ℕ) (new : Bool) → IsFlags f → IsFlags (raise_if new (clear f flag_ac) flag_ac)
raise_half_carry-IsFlags f new ok =
    at_view (λ g. IsFlags (raise_if new (clear g flag_ac) flag_ac))
      (λ s z ac p cy. rw (raise_half_carry s z ac p cy new) (flag_byte-IsFlags _ _ _ _ _)) f ok

clear_carries-IsFlags : (f : ℕ) → IsFlags f → IsFlags (clear f 0x11)
clear_carries-IsFlags f ok =
    at_view (λ g. IsFlags (clear g 0x11))
      (λ s z ac p cy. rw (clear_carries s z ac p cy) (flag_byte-IsFlags s z false p false)) f ok

and_carries-IsFlags : (f : ℕ) → IsFlags f → IsFlags (bit_or (clear f flag_cy) flag_ac)
and_carries-IsFlags f ok =
    at_view (λ g. IsFlags (bit_or (clear g flag_cy) flag_ac))
      (λ s z ac p cy. rw (and_carries s z ac p cy) (flag_byte-IsFlags s z true p false)) f ok

pub set_carry-IsFlags : (f : ℕ) → IsFlags f → IsFlags (bit_or f flag_cy)
set_carry-IsFlags f ok =
    at_view (λ g. IsFlags (bit_or g flag_cy))
      (λ s z ac p cy. rw (set_carry s z ac p cy) (flag_byte-IsFlags s z ac p true)) f ok

pub flip_carry-IsFlags : (f : ℕ) → IsFlags f → IsFlags (bit_xor f flag_cy)
flip_carry-IsFlags f ok =
    at_view (λ g. IsFlags (bit_xor g flag_cy))
      (λ s z ac p cy. rw (flip_carry s z ac p cy) (flag_byte-IsFlags _ _ _ _ _)) f ok

carry_flags-IsFlags :
    (f result : ℕ) (cy ac : Bool)
    → IsFlags f
    → result < 256
    → IsFlags (carry_flags (set_szp f result) cy ac)
carry_flags-IsFlags f result cy ac ok fits = (carry_flags-cy f result cy ac ok fits).0

pub carry_bit-le : (cpu : Cpu) → carry_bit cpu ≤ 1
unfolding carry_bit
carry_bit-le cpu = to_bit-le (has cpu.flags flag_cy)

-- A new byte in A and new flags.
pub result-IsCpu :
    {cpu : Cpu} (a flags : ℕ)
    → a < 256
    → IsFlags flags
    → IsCpu cpu
    → IsCpu (record cpu { a = a; flags = flags })
result-IsCpu a flags h g v = ground arith

module _ {cpu : Cpu} (v : IsCpu cpu) where
  pub add_to_a-IsCpu : (value carry_in : ℕ) → IsCpu (add_to_a cpu value carry_in)
  unfolding add_to_a
  add_to_a-IsCpu value carry_in =
      result-IsCpu _ _ (omega arith) (carry_flags-IsFlags cpu.flags _ _ _ v.flags_fit (omega arith))
        v

  pub sub_from_a-IsCpu : (value borrow_in : ℕ) → IsCpu (sub_from_a cpu value borrow_in)
  unfolding sub_from_a
  sub_from_a-IsCpu value borrow_in =
      result-IsCpu _ _ (omega arith) (carry_flags-IsFlags cpu.flags _ _ _ v.flags_fit (omega arith))
        v

  pub cmp_flags_only-IsCpu : (value : ℕ) → IsCpu (cmp_flags_only cpu value)
  unfolding cmp_flags_only
  cmp_flags_only-IsCpu value =
      result-IsCpu _ _ v.a_fits (carry_flags-IsFlags cpu.flags _ _ _ v.flags_fit (omega arith)) v

  pub daa-IsCpu : IsCpu (daa cpu)
  unfolding daa
  daa-IsCpu =
      result-IsCpu _ _ (omega arith) (carry_flags-IsFlags cpu.flags _ _ _ v.flags_fit (omega arith))
        v

  pub logic_flags-IsCpu : (result : ℕ) → result < 256 → IsCpu (logic_flags cpu result)
  unfolding logic_flags
  logic_flags-IsCpu result fits =
      result-IsCpu _ _ fits (set_szp-IsFlags _ _ (clear_carries-IsFlags cpu.flags v.flags_fit) fits)
        v

  pub logic_flags_and-IsCpu : (result : ℕ) → result < 256 → IsCpu (logic_flags_and cpu result)
  unfolding logic_flags_and
  logic_flags_and-IsCpu result fits =
      result-IsCpu _ _ fits (set_szp-IsFlags _ _ (and_carries-IsFlags cpu.flags v.flags_fit) fits) v

-- A machine with new flags.
flags-IsValid :
    {m : Machine} (flags : ℕ)
    → IsFlags flags
    → IsValid m
    → IsValid (record m { cpu = record m.cpu { flags = flags } })
flags-IsValid flags h v = ground arith

pub inr_reg-IsValid : {m : Machine} (code : ℕ) → IsValid m → IsValid (inr_reg m code)
unfolding inr_reg
inr_reg-IsValid {m} code v =
    let result = u8 (read_reg_by_code m code + 1) in
    let w = write_reg_by_code-IsValid {m = m} code result (omega arith) v in
    flags-IsValid _
      (raise_half_carry-IsFlags _ _ (set_szp-IsFlags _ result w.cpu_ok.flags_fit (omega arith))) w

pub dcr_reg-IsValid : {m : Machine} (code : ℕ) → IsValid m → IsValid (dcr_reg m code)
unfolding dcr_reg
dcr_reg-IsValid {m} code v =
    let result = sub8 (read_reg_by_code m code) 1 in
    let w = write_reg_by_code-IsValid {m = m} code result (omega arith) v in
    flags-IsValid _
      (raise_half_carry-IsFlags _ _ (set_szp-IsFlags _ result w.cpu_ok.flags_fit (omega arith))) w
