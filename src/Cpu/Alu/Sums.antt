-- ===== src/Cpu/Alu/Sums.antt =====
-- Addition, subtraction and comparison against arithmetic on numbers, with all five flags.
use turning_machine_operatin.Base.{
  ℕ, ◌+◌, ◌-◌, ◌*◌, ◌%◌, ◌<◌, ◌≤◌, ◌≡◌, Bool, bit_and_byte, bit_and_low, ◌==◌, ltb, leb, to_bit,
  arith,
}
use turning_machine_operatin.Cpu.State.{Cpu}
use turning_machine_operatin.Cpu.Flags.{
  IsFlags, flag_byte, set_szp, carry_flags, has, parity_even, flag_s, flag_z, flag_ac, flag_p,
  flag_cy,
}
use turning_machine_operatin.Cpu.Flags.Values.{flags-view, set_szp_lem, carry_flags_lem}
use turning_machine_operatin.Cpu.Alu.{add_to_a, sub_from_a, cmp_flags_only}

-- The byte whose sign, zero and parity flags describe `result`.
unfoldable pub result_flags : ℕ → Bool → Bool → ℕ
result_flags result ac cy = flag_byte (leb 128 result) (result == 0) ac (parity_even result) cy

pub set_szp-carry_flags :
    (f result : ℕ) (cy ac : Bool)
    → IsFlags f
    → result < 256
    → carry_flags (set_szp f result) cy ac ≡ result_flags result ac cy
unfolding result_flags
set_szp-carry_flags f result cy ac h fits =
    rw
      (
        flags-view f h,
        set_szp_lem (has f flag_s) (has f flag_z) (has f flag_ac) (has f flag_p) (has f flag_cy)
            result fits,
      )
      (carry_flags_lem _ _ _ _ _ cy ac)

-- `add_to_a` computes the sum with carry: A with CY as its ninth bit is the sum, AC is the carry
-- out of the low digit, and the other flags describe the new A.
pub add_to_a_lem :
    (cpu : Cpu) (value carry_in : ℕ)
    → cpu.a < 256
    → IsFlags cpu.flags
    → value < 256
    → carry_in ≤ 1
    → let cpu' = add_to_a cpu value carry_in in
      let sum = cpu.a + value + carry_in in
      let cy = leb 256 sum in
      (cpu'.a + 256 * to_bit cy ≡ sum)
      × (cpu'.flags ≡ result_flags cpu'.a (leb 16 (cpu.a % 16 + value % 16 + carry_in)) cy)
unfolding add_to_a
add_to_a_lem cpu value carry_in a_fits ok v_fits c_fits = ground (
  arith,
  bit_and_byte (cpu.a + value + carry_in),
  bit_and_low 4 cpu.a,
  bit_and_low 4 value,
  set_szp-carry_flags cpu.flags ((cpu.a + value + carry_in) % 256)
      (leb 256 (cpu.a + value + carry_in)) (leb 16 (cpu.a % 16 + value % 16 + carry_in)) ok,
)

-- `sub_from_a` computes the difference with borrow: CY is the borrow out of A, AC the borrow out
-- of the low digit, and the other flags describe the new A.
pub sub_from_a_lem :
    (cpu : Cpu) (value borrow_in : ℕ)
    → cpu.a < 256
    → IsFlags cpu.flags
    → value < 256
    → borrow_in ≤ 1
    → let cpu' = sub_from_a cpu value borrow_in in
      let cy = ltb cpu.a (value + borrow_in) in
      (cpu'.a + value + borrow_in ≡ cpu.a + 256 * to_bit cy)
      × (cpu'.flags ≡ result_flags cpu'.a (ltb (cpu.a % 16) (value % 16 + borrow_in)) cy)
unfolding sub_from_a
sub_from_a_lem cpu value borrow_in a_fits ok v_fits b_fits = ground (
  arith,
  bit_and_byte ((cpu.a + 65536 - (value + borrow_in)) % 65536),
  bit_and_low 4 cpu.a,
  bit_and_low 4 value,
  set_szp-carry_flags cpu.flags ((cpu.a + 256 - (value + borrow_in)) % 256)
      (ltb cpu.a (value + borrow_in)) (ltb (cpu.a % 16) (value % 16 + borrow_in)) ok,
)

-- A comparison leaves A and every register alone and sets the flags of the subtraction.
pub cmp_flags_only_lem :
    (cpu : Cpu) (value : ℕ)
    → value < 256
    → cmp_flags_only cpu value ≡ record (sub_from_a cpu value 0) { a = cpu.a }
unfolding cmp_flags_only sub_from_a
cmp_flags_only_lem cpu value fits = ground arith
