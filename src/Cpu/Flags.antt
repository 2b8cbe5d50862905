-- ===== src/Cpu/Flags.antt =====
-- The flag byte of src/emu/cpu.c: its masks, the parity loop, and the flag updates.
pub mod Values
pub mod Parity
use turning_machine_operatin.Base.{
  ℕ, zero, suc, ◌+◌, ◌-◌, ◌*◌, ◌/◌, ◌%◌, ◌^◌, ◌<◌, ◌≡◌, Bool, true, false, not, bit_and, bit_or,
  bit_xor, ◌==◌, if◌then◌else◌, to_bit, ◌>>>◌,
}

abbrev pub flag_s : ℕ
flag_s = 0x80

abbrev pub flag_z : ℕ
flag_z = 0x40

abbrev pub flag_ac : ℕ
flag_ac = 0x10

abbrev pub flag_p : ℕ
flag_p = 0x04

abbrev pub flag_cy : ℕ
flag_cy = 0x01

-- `(flags & mask) != 0u`
unfoldable pub has : ℕ → ℕ → Bool
has flags mask = not (bit_and flags mask == 0)

-- `flags & (uint8_t)~mask`
unfoldable pub clear : ℕ → ℕ → ℕ
clear flags mask = bit_and flags (255 - mask)

-- `if (test) flags |= mask;`
unfoldable pub raise_if : Bool → ℕ → ℕ → ℕ
raise_if test flags mask = if test then bit_or flags mask else flags

-- The loop of `parity_even`, on fuel.
unfoldable pub parity_loop : ℕ → ℕ → ℕ → ℕ
parity_loop zero value p = p
parity_loop (suc fuel) value p =
    let rest = parity_loop fuel (value >>> 1) (bit_xor p (bit_and value 1)) in
    if value == 0 then p else rest

unfoldable pub parity_even : ℕ → Bool
parity_even value = parity_loop 8 value 0 == 0

-- `set_szp`, on the flag byte.
unfoldable pub set_szp : ℕ → ℕ → ℕ
unfolding has clear raise_if
set_szp flags result =
    let flags₀ = clear flags 0xC4 in
    let flags₁ = raise_if (has result 0x80) flags₀ flag_s in
    let flags₂ = raise_if (result == 0) flags₁ flag_z in raise_if (parity_even result) flags₂ flag_p

unfoldable pub pack_psw_flags : ℕ → ℕ
unfolding has raise_if
pack_psw_flags flags =
    let psw₀ : ℕ = 0x02 in
    let psw₁ = raise_if (has flags flag_s) psw₀ flag_s in
    let psw₂ = raise_if (has flags flag_z) psw₁ flag_z in
    let psw₃ = raise_if (has flags flag_ac) psw₂ flag_ac in
    let psw₄ = raise_if (has flags flag_p) psw₃ flag_p in raise_if (has flags flag_cy) psw₄ flag_cy

unfoldable pub unpack_psw_flags : ℕ → ℕ
unfolding has raise_if
unpack_psw_flags psw =
    let flags₀ : ℕ = 0 in
    let flags₁ = raise_if (has psw flag_s) flags₀ flag_s in
    let flags₂ = raise_if (has psw flag_z) flags₁ flag_z in
    let flags₃ = raise_if (has psw flag_ac) flags₂ flag_ac in
    let flags₄ = raise_if (has psw flag_p) flags₃ flag_p in
    raise_if (has psw flag_cy) flags₄ flag_cy

-- The flag updates after `set_szp` in `add_to_a`, `sub_from_a`, `cmp_flags_only` and `daa`.
unfoldable pub carry_flags : ℕ → Bool → Bool → ℕ
unfolding clear raise_if
carry_flags flags cy ac =
    let flags₀ = clear flags 0x11 in
    let flags₁ = raise_if cy flags₀ flag_cy in raise_if ac flags₁ flag_ac

-- No bit but the five flags is set.
abbrev pub IsFlags : ℕ → Type 0
IsFlags flags = (flags < 256) × (bit_and flags 0xD5 ≡ flags)

-- The flag byte with the given flags.
abbrev pub flag_byte : Bool → Bool → Bool → Bool → Bool → ℕ
flag_byte s z ac p cy = 128 * to_bit s + 64 * to_bit z + 16 * to_bit ac + 4 * to_bit p + to_bit cy
