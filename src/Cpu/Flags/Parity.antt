-- ===== src/Cpu/Flags/Parity.antt =====
-- `parity_even` of src/emu/cpu.c: its loop against a count of the bits of a byte.
use turning_machine_operatin.Base.{
  ℕ, zero, suc, ◌+◌, ◌/◌, ◌%◌, ◌^◌, ◌<◌, ◌≤◌, ◌≡◌, refl, bit_and, bit_xor, bit_and_low, ◌==◌, arith,
}
use native.Mathlib.Nat.{pow-suc, pow-le-pow_right}
use turning_machine_operatin.Cpu.Flags.{parity_loop, parity_even}

-- The ones among the lowest `n` bits.
abbrev pub ones : ℕ → ℕ → ℕ
ones zero value = 0
ones (suc n) value = value % 2 + ones n (value / 2)

ones-zero : (n : ℕ) → ones n 0 ≡ 0
ones-zero zero = refl
ones-zero (suc n) = omega (arith, ones-zero n)

ones_enough : (n m value : ℕ) → value < 2 ^ n → value < 2 ^ m → ones n value ≡ ones m value
ones_enough zero m value p q = let e : value ≡ 0 = omega arith in rw e (omega (arith, ones-zero m))
ones_enough (suc n) zero value p q =
    let e : value ≡ 0 = omega arith in rw e (omega (arith, ones-zero n))
ones_enough (suc n) (suc m) value p q = omega (
  arith,
  pow-suc 2 n,
  pow-suc 2 m,
  ones_enough n m (value / 2) (omega (arith, pow-suc 2 n)) (omega (arith, pow-suc 2 m)),
)

xor_bits : (p b : ℕ) → p < 2 → b < 2 → bit_xor p b ≡ (p + b) % 2
xor_bits zero zero h g = refl
xor_bits zero (suc zero) h g = refl
xor_bits zero (suc (suc b)) h g = absurd (omega arith)
xor_bits (suc zero) zero h g = refl
xor_bits (suc zero) (suc zero) h g = refl
xor_bits (suc zero) (suc (suc b)) h g = absurd (omega arith)
xor_bits (suc (suc p)) b h g = absurd (omega arith)

pub parity_loop-ones :
    (fuel value p : ℕ)
    → value < 2 ^ fuel
    → p < 2
    → parity_loop fuel value p ≡ (p + ones fuel value) % 2
unfolding parity_loop
parity_loop-ones zero value p h g = omega arith
parity_loop-ones (suc fuel) value p h g = ground (
  arith,
  pow-suc 2 fuel,
  bit_and_low 1 value,
  xor_bits p (value % 2),
  ones-zero fuel,
  parity_loop-ones fuel (value / 2) (bit_xor p (bit_and value 1)),
)

-- For a byte the loop ends within eight rounds, whatever more it is given, and the result says
-- whether the number of ones is even.
pub parity_even_lem :
    (value fuel : ℕ)
    → value < 256
    → 8 ≤ fuel
    → (parity_loop fuel value 0 ≡ parity_loop 8 value 0)
      × (parity_even value ≡ (ones 8 value % 2 == 0))
unfolding parity_even
parity_even_lem value fuel h enough =
    let fits : value < 2 ^ fuel = omega (arith, pow-le-pow_right {n = 2} (omega arith) enough) in
    let eight : parity_loop 8 value 0 ≡ ones 8 value % 2 =
      omega (arith, parity_loop-ones 8 value 0 h (omega arith)) in
    (
      omega (
        arith,
        eight,
        parity_loop-ones fuel value 0 fits (omega arith),
        ones_enough fuel 8 value fits h,
      ),
      rw eight,
    )
