-- ===== src/Cpu/Flags/Values.antt =====
-- What the flag updates make of a flag byte that is given by its five flags.
use turning_machine_operatin.Base.{
  ℕ, ◌+◌, ◌≡◌, ◌<◌, refl, sym, Bool, true, false, not, ◌||◌, bit_and, bit_or, bit_xor, ◌==◌, ==_iff,
  leb, to_bit, all_below, all_below_sound, arith,
}
use turning_machine_operatin.Cpu.Flags.{
  has, clear, raise_if, parity_even, set_szp, carry_flags, IsFlags, flag_byte, flag_s, flag_z,
  flag_ac, flag_p, flag_cy, pack_psw_flags, unpack_psw_flags,
}

is_flags : ℕ → Bool
is_flags flags = bit_and flags 0xD5 == flags

-- The flags of a byte, put together.
abbrev pub view : ℕ → ℕ
view f = flag_byte (has f flag_s) (has f flag_z) (has f flag_ac) (has f flag_p) (has f flag_cy)

view_table : all_below (λ f. not (is_flags f) || view f == f) 256 ≡ true
unfolding all_below is_flags has
view_table = refl

-- The premise of a table's row.
row : {f : ℕ} {b : Bool} → IsFlags f → (not (is_flags f) || b) ≡ true → b ≡ true
unfolding is_flags
row h e = ground arith

-- A flag byte is made of its five flags.
pub flags-view : (f : ℕ) → IsFlags f → f ≡ view f
flags-view f h =
    sym ((==_iff _ _).0 (row {b = view f == f} h (all_below_sound _ 256 view_table f h.0)))

-- Bit 7 of a byte is its sign.
sign_table : all_below (λ x. to_bit (has x 0x80) == to_bit (leb 128 x)) 256 ≡ true
unfolding all_below has
sign_table = refl

pub has_sign : (x : ℕ) → x < 256 → has x 0x80 ≡ leb 128 x
has_sign x h = to_bit_injective _ _ ((==_iff _ _).0 (all_below_sound _ 256 sign_table x h))
  where
    to_bit_injective : (a b : Bool) → to_bit a ≡ to_bit b → a ≡ b
    to_bit_injective a b e = ground arith

module _ (s z ac p cy : Bool) where
  pub flag_byte-IsFlags : IsFlags (flag_byte s z ac p cy)
  flag_byte-IsFlags = ground arith

  pub has-flag_byte :
      (has (flag_byte s z ac p cy) flag_s ≡ s)
      × (has (flag_byte s z ac p cy) flag_z ≡ z)
      × (has (flag_byte s z ac p cy) flag_ac ≡ ac)
      × (has (flag_byte s z ac p cy) flag_p ≡ p)
      × (has (flag_byte s z ac p cy) flag_cy ≡ cy)
  unfolding has
  has-flag_byte = ground arith

  pub set_szp_lem :
      (r : ℕ)
      → r < 256
      → set_szp (flag_byte s z ac p cy) r ≡ flag_byte (leb 128 r) (r == 0) ac (parity_even r) cy
  unfolding set_szp
  set_szp_lem r h = ground (arith, has_sign r)

  pub carry_flags_lem :
      (new_cy new_ac : Bool)
      → carry_flags (flag_byte s z ac p cy) new_cy new_ac ≡ flag_byte s z new_ac p new_cy
  unfolding carry_flags
  carry_flags_lem new_cy new_ac = ground arith

  pub raise_carry :
      (new : Bool)
      → raise_if new (clear (flag_byte s z ac p cy) flag_cy) flag_cy ≡ flag_byte s z ac p new
  unfolding raise_if clear
  raise_carry new = ground arith

  pub raise_half_carry :
      (new : Bool)
      → raise_if new (clear (flag_byte s z ac p cy) flag_ac) flag_ac ≡ flag_byte s z new p cy
  unfolding raise_if clear
  raise_half_carry new = ground arith

  pub clear_carries : clear (flag_byte s z ac p cy) 0x11 ≡ flag_byte s z false p false
  unfolding clear
  clear_carries = ground arith

  pub and_carries :
      bit_or (clear (flag_byte s z ac p cy) flag_cy) flag_ac ≡ flag_byte s z true p false
  unfolding clear
  and_carries = ground arith

  pub set_carry : bit_or (flag_byte s z ac p cy) flag_cy ≡ flag_byte s z ac p true
  set_carry = ground arith

  pub flip_carry : bit_xor (flag_byte s z ac p cy) flag_cy ≡ flag_byte s z ac p (not cy)
  flip_carry = ground arith

  pub pack_psw_flags_lem : pack_psw_flags (flag_byte s z ac p cy) ≡ flag_byte s z ac p cy + 2
  unfolding pack_psw_flags
  pack_psw_flags_lem = ground arith

-- A byte from the stack becomes its five flags.
pub unpack_psw_flags_lem : (psw : ℕ) → unpack_psw_flags psw ≡ view psw
unfolding unpack_psw_flags
unpack_psw_flags_lem psw = ground arith
