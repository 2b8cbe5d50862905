-- ===== src/Cpu/Alu/Decimal.antt =====
-- `daa` after an addition of two-digit decimal numbers.
use turning_machine_operatin.Base.{
  ℕ, ◌+◌, ◌*◌, ◌/◌, ◌%◌, ◌<◌, ◌≤◌, ◌≡◌, ◌∙◌, Bool, true, ◌||◌, bit_and, bit_and_byte, bit_and_low,
  ltb, leb, ◌==◌, if◌then◌else◌, arith,
}
use turning_machine_operatin.Cpu.State.{Cpu}
use turning_machine_operatin.Cpu.Flags.{
  IsFlags, set_szp, carry_flags, has, flag_ac, flag_cy, parity_even,
}
use turning_machine_operatin.Cpu.Flags.Values.{has-flag_byte, flag_byte-IsFlags}
use turning_machine_operatin.Cpu.Alu.{add_to_a, daa, daa_adjust}
use turning_machine_operatin.Cpu.Alu.Sums.{result_flags, set_szp-carry_flags, add_to_a_lem}

-- Two decimal digits in a byte.
abbrev pub bcd : ℕ → ℕ
bcd x = x / 10 * 16 + x % 10

pub result_flags-IsFlags : (result : ℕ) (ac cy : Bool) → IsFlags (result_flags result ac cy)
unfolding result_flags
result_flags-IsFlags result ac cy =
    flag_byte-IsFlags (leb 128 result) (result == 0) ac (parity_even result) cy

pub has-result_flags :
    (result : ℕ) (ac cy : Bool)
    → (has (result_flags result ac cy) flag_ac ≡ ac)
      × (has (result_flags result ac cy) flag_cy ≡ cy)
unfolding result_flags
has-result_flags result ac cy =
    let h = has-flag_byte (leb 128 result) (result == 0) ac (parity_even result) cy in (h.2, h.4)

-- Each flag update of an arithmetic step gives a flag byte with the carry that it was given.
pub carry_flags-cy :
    (f result : ℕ) (cy ac : Bool)
    → IsFlags f
    → result < 256
    → let f' = carry_flags (set_szp f result) cy ac in IsFlags f' × (has f' flag_cy ≡ cy)
carry_flags-cy f result cy ac h fits =
    rw (set_szp-carry_flags f result cy ac h fits)
      (result_flags-IsFlags result ac cy, (has-result_flags result ac cy).1)

daa_adjust_lem :
    (a : ℕ) (ac cy : Bool)
    → daa_adjust a ac cy
      ≡ (if ltb 9 (a % 16) || ac then 6 else 0) + (if ltb 0x99 a || cy then 0x60 else 0)
unfolding daa_adjust
daa_adjust_lem a ac cy = ground (arith, bit_and_low 4 a)

-- What `daa` does to A and CY.
pub daa_lem :
    (cpu : Cpu)
    → cpu.a < 256
    → IsFlags cpu.flags
    → let ac = has cpu.flags flag_ac in
      let cy = has cpu.flags flag_cy in
      let low : ℕ = if ltb 9 (cpu.a % 16) || ac then 6 else 0 in
      let high : ℕ = if ltb 0x99 cpu.a || cy then 0x60 else 0 in
      ((daa cpu).a ≡ (cpu.a + low + high) % 256)
      × (has (daa cpu).flags flag_cy ≡ (ltb 0x99 cpu.a || cy))
      × IsFlags (daa cpu).flags
unfolding daa daa_adjust
daa_lem cpu a_fits ok =
    let ac = has cpu.flags flag_ac in
    let cy = has cpu.flags flag_cy in
    let adjust = daa_adjust cpu.a ac cy in
    let sum = (cpu.a + adjust) % 65536 in
    let new_cy = if ltb 0x99 cpu.a || cy then true else cy in
    let new_ac = ltb 0x0F (bit_and cpu.a 0x0F + bit_and adjust 0x0F) in
    let result = bit_and sum 0xff % 256 in
    let flags = carry_flags-cy cpu.flags result new_cy new_ac ok (omega arith) in
    (
      ground (arith, bit_and_byte sum, daa_adjust_lem cpu.a ac cy),
      flags.1 ∙ or_lem (ltb 0x99 cpu.a) cy,
      flags.0,
    )
  where
    or_lem : (p cy : Bool) → (if p || cy then true else cy) ≡ (p || cy)
    or_lem p cy = ground arith

-- Decimal addition.
pub daa-add_to_a :
    (cpu : Cpu) (x y carry_in : ℕ)
    → x < 100
    → y < 100
    → carry_in ≤ 1
    → cpu.a ≡ bcd x
    → IsFlags cpu.flags
    → let cpu' = daa (add_to_a cpu (bcd y) carry_in) in
      (cpu'.a ≡ bcd ((x + y + carry_in) % 100))
      × (has cpu'.flags flag_cy ≡ leb 100 (x + y + carry_in))
daa-add_to_a cpu x y carry_in hx hy hc e ok =
    let sum = add_to_a_lem cpu (bcd y) carry_in (omega arith) ok (omega arith) hc in
    let cpu' = add_to_a cpu (bcd y) carry_in in
    let cy = leb 256 (cpu.a + bcd y + carry_in) in
    let ac = leb 16 (cpu.a % 16 + bcd y % 16 + carry_in) in
    let flags = has-result_flags cpu'.a ac cy in
    let fits : cpu'.a < 256 = ground (arith, sum.0) in
    ground (arith, sum, flags, daa_lem cpu' fits (rw sum.1 (result_flags-IsFlags cpu'.a ac cy)))
