-- ===== src/Cpu/Ops/Rotations.antt =====
-- The rotations of A against arithmetic, and what undoes what.
use turning_machine_operatin.Base.{
  ℕ, ◌+◌, ◌*◌, ◌/◌, ◌%◌, ◌^◌, ◌<◌, ◌≡◌, ◌∙◌, not, bit_and, bit_or, bit_and_low, bit_or_disjoint,
  bit_or_comm, ◌==◌, to_bit, arith, u8, ◌>>>◌, ◌<<◌,
}
use turning_machine_operatin.Cpu.State.{Cpu, Machine, IsValid}
use turning_machine_operatin.Cpu.Flags.{IsFlags, clear, raise_if, flag_cy}
use turning_machine_operatin.Cpu.Alu.Keeps.{carry_bit-le}
use turning_machine_operatin.Cpu.Alu.{carry_bit}
use turning_machine_operatin.Cpu.Ops.{rlc, rrc, ral, rar}
use turning_machine_operatin.Cpu.Alu.Inverses.{has_carry}
use turning_machine_operatin.Cpu.Ops.Keeps.{rlc-IsValid, rrc-IsValid, ral-IsValid, rar-IsValid}

-- A byte shifted left with a bit put in, and shifted right with a bit put in.
shift_left : (a bit : ℕ) → bit < 2 → u8 (bit_or (a << 1) bit) ≡ (a * 2 + bit) % 256
shift_left a bit h = omega (arith, bit_or_disjoint 1 a bit h)

shift_right :
    (a bit : ℕ) → a < 256 → bit < 2 → u8 (bit_or (a >>> 1) (u8 (bit << 7))) ≡ bit * 128 + a / 2
shift_right a bit h g =
    let kept : u8 (bit << 7) ≡ bit * 2 ^ 7 = omega arith in
    rw kept (
      omega (arith, bit_or_comm (a / 2) (bit * 2 ^ 7), bit_or_disjoint 7 bit (a / 2) (omega arith)))

-- The bit that leaves A.
top_bit : (a : ℕ) → a < 256 → bit_and (a >>> 7) 1 ≡ a / 128
top_bit a h = omega (arith, bit_and_low 1 (a / 128))

carry_of : (bit : ℕ) → bit < 2 → to_bit (not (bit == 0)) ≡ bit
carry_of bit h = ground arith

carry_bit_after :
    (cpu : Cpu) (a pc : ℕ) (bit : ℕ)
    → IsFlags cpu.flags
    → bit < 2
    → carry_bit (record cpu {
      a = a;
      pc = pc;
      flags = raise_if (not (bit == 0)) (clear cpu.flags flag_cy) flag_cy;
    })
      ≡ bit
unfolding carry_bit
carry_bit_after cpu a pc bit ok h = rw (has_carry cpu.flags (not (bit == 0)) ok) (carry_of bit h)

module _ (m : Machine) (next : ℕ) (v : IsValid m) where
  rlc_lem : (rlc m next).cpu.a ≡ (m.cpu.a * 2 + m.cpu.a / 128) % 256
  unfolding rlc
  rlc_lem =
      rw (top_bit m.cpu.a v.cpu_ok.a_fits)
        (shift_left m.cpu.a (m.cpu.a / 128) (omega (arith, v.cpu_ok.a_fits)))

  rrc_lem : (rrc m next).cpu.a ≡ m.cpu.a % 2 * 128 + m.cpu.a / 2
  unfolding rrc
  rrc_lem =
      rw (bit_and_low 1 m.cpu.a) (shift_right m.cpu.a (m.cpu.a % 2) v.cpu_ok.a_fits (omega arith))

  ral_lem :
      ((ral m next).cpu.a ≡ (m.cpu.a * 2 + carry_bit m.cpu) % 256)
      × (carry_bit (ral m next).cpu ≡ m.cpu.a / 128)
  unfolding ral
  ral_lem =
      let top = top_bit m.cpu.a v.cpu_ok.a_fits in
      (
        shift_left m.cpu.a (carry_bit m.cpu) (omega (arith, carry_bit-le m.cpu)),
        carry_bit_after m.cpu _ next _ v.cpu_ok.flags_fit (omega (arith, top)) ∙ top,
      )

  rar_lem :
      ((rar m next).cpu.a ≡ carry_bit m.cpu * 128 + m.cpu.a / 2)
      × (carry_bit (rar m next).cpu ≡ m.cpu.a % 2)
  unfolding rar
  rar_lem =
      let low = bit_and_low 1 m.cpu.a in
      (
        shift_right m.cpu.a (carry_bit m.cpu) v.cpu_ok.a_fits (omega (arith, carry_bit-le m.cpu)),
        carry_bit_after m.cpu _ next _ v.cpu_ok.flags_fit (omega (arith, low)) ∙ low,
      )

-- RRC after RLC gives A back, and RAR after RAL gives A and CY back; so does each pair in the
-- other order.
pub rotations_undo :
    (m : Machine) (next next' : ℕ)
    → next < 65536
    → IsValid m
    → ((rrc (rlc m next) next').cpu.a ≡ m.cpu.a)
      × ((rlc (rrc m next) next').cpu.a ≡ m.cpu.a)
      × ((rar (ral m next) next').cpu.a ≡ m.cpu.a)
      × (carry_bit (rar (ral m next) next').cpu ≡ carry_bit m.cpu)
      × ((ral (rar m next) next').cpu.a ≡ m.cpu.a)
      × (carry_bit (ral (rar m next) next').cpu ≡ carry_bit m.cpu)
rotations_undo m next next' h v =
    let fits : m.cpu.a < 256 = v.cpu_ok.a_fits in
    let carry = carry_bit-le m.cpu in
    let after_rlc = rlc-IsValid m next h v in
    let after_rrc = rrc-IsValid m next h v in
    let after_ral = ral-IsValid m next h v in
    let after_rar = rar-IsValid m next h v in
    (
      omega (arith, rlc_lem m next v, rrc_lem (rlc m next) next' after_rlc),
      omega (arith, rrc_lem m next v, rlc_lem (rrc m next) next' after_rrc),
      omega (arith, ral_lem m next v, (rar_lem (ral m next) next' after_ral).0),
      omega (arith, ral_lem m next v, (rar_lem (ral m next) next' after_ral).1),
      omega (arith, rar_lem m next v, (ral_lem (rar m next) next' after_rar).0),
      omega (arith, rar_lem m next v, (ral_lem (rar m next) next' after_rar).1),
    )
