-- ===== src/Cpu/Regs/Access.antt =====
-- Reading a register after writing one.
use turning_machine_operatin.Base.{
  ℕ, ◌+◌, ◌*◌, ◌/◌, ◌%◌, ◌<◌, ◌≡◌, bit_and, bit_or_disjoint, bit_and_low, bit_and_byte, arith,
}
use turning_machine_operatin.Mem.{mem_read-mem_write_self, mem_write-IsTape}
use turning_machine_operatin.Cpu.State.{Cpu, Machine, IsCpu, IsValid}
use turning_machine_operatin.Cpu.Regs.{
  pair, get_hl, get_rp, set_rp, read_reg_by_code, write_reg_by_code,
}

pub pair_lem : (hi lo : ℕ) → hi < 256 → lo < 256 → pair hi lo ≡ hi * 256 + lo
unfolding pair
pair_lem hi lo h g = omega (arith, bit_or_disjoint 8 (hi % 65536) lo g)

pub get_hl_lem : {cpu : Cpu} → IsCpu cpu → get_hl cpu ≡ cpu.h * 256 + cpu.l
unfolding get_hl
get_hl_lem v = pair_lem _ _ v.h_fits v.l_fits

pub get_hl-lt : (cpu : Cpu) → get_hl cpu < 65536
unfolding get_hl pair
get_hl-lt cpu = omega arith

pub get_rp-lt : {cpu : Cpu} (rp : ℕ) → IsCpu cpu → get_rp cpu rp < 65536
unfolding get_rp
get_rp-lt {cpu} rp v = ground (arith, pair_lem cpu.b cpu.c, pair_lem cpu.d cpu.e, get_hl_lem v)

pub set_rp-IsCpu :
    {cpu : Cpu} (rp value : ℕ) → value < 65536 → IsCpu cpu → IsCpu (set_rp cpu rp value)
unfolding set_rp
set_rp-IsCpu {cpu} rp value h v = ground (arith, bit_and_byte value)

-- A pair of registers holds what was put into it.
pub get_rp-set_rp :
    (cpu : Cpu) (rp value : ℕ) → value < 65536 → get_rp (set_rp cpu rp value) rp ≡ value
unfolding get_rp set_rp
get_rp-set_rp cpu rp value h = ground (
  arith,
  bit_and_byte value,
  bit_and_low 2 rp,
  pair_lem (value / 256 % 256) (bit_and value 0xff % 256),
)

pub read_reg_by_code-lt : {m : Machine} (code : ℕ) → IsValid m → read_reg_by_code m code < 256
unfolding read_reg_by_code
read_reg_by_code-lt {m} code v = ground (arith, v.mem_ok (get_hl m.cpu))

pub write_reg_by_code-IsValid :
    {m : Machine} (code value : ℕ)
    → value < 256
    → IsValid m
    → IsValid (write_reg_by_code m code value)
unfolding write_reg_by_code
write_reg_by_code-IsValid {m} code value h v =
    ground (arith, mem_write-IsTape m.mem (get_hl m.cpu) value v.mem_ok)

-- A register reads back what was written to it, the byte at HL included.
pub read-write_reg_by_code :
    (m : Machine) (code value : ℕ) → read_reg_by_code (write_reg_by_code m code value) code ≡ value
unfolding read_reg_by_code write_reg_by_code
read-write_reg_by_code m code value =
    ground (arith, bit_and_low 3 code, mem_read-mem_write_self m.mem (get_hl m.cpu) value)
