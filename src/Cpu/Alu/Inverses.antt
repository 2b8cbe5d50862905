-- ===== src/Cpu/Alu/Inverses.antt =====
-- Increments, decrements of register pairs, and their addition.
use turning_machine_operatin.Base.{
  ℕ, ◌+◌, ◌*◌, ◌/◌, ◌%◌, ◌<◌, ◌≡◌, refl, ◌∙◌, Bool, bit_and, bit_and_byte, bit_and_single, leb,
  to_bit, arith, u16, sub16,
}
use turning_machine_operatin.Cpu.State.{Cpu, Machine, IsValid}
use turning_machine_operatin.Cpu.Flags.{
  IsFlags, has, clear, raise_if, flag_s, flag_z, flag_ac, flag_p, flag_cy,
}
use turning_machine_operatin.Cpu.Flags.Values.{flags-view, raise_carry, has-flag_byte}
use turning_machine_operatin.Cpu.Regs.{pair, get_hl, get_rp, set_rp}
use turning_machine_operatin.Cpu.Regs.Access.{get_hl-lt, pair_lem, get_rp-lt, get_rp-set_rp}
use turning_machine_operatin.Cpu.Groups.{inx, dcx, dad, pair_code}

-- CY after an update of CY.
pub has_carry :
    (f : ℕ) (new : Bool) → IsFlags f → has (raise_if new (clear f flag_cy) flag_cy) flag_cy ≡ new
has_carry f new ok =
    rw
      (
        flags-view f ok,
        raise_carry (has f flag_s) (has f flag_z) (has f flag_ac) (has f flag_p) (has f flag_cy)
            new,
      )
      (has-flag_byte (has f flag_s) (has f flag_z) (has f flag_ac) (has f flag_p) new).4

-- Bit 16 of a sum of two words is its carry.
has_bit_16 : (n : ℕ) → n < 131072 → has n 0x10000 ≡ leb 65536 n
unfolding has
has_bit_16 n h = ground (arith, bit_and_single 16 n)

pair_sum :
    (sum : ℕ)
    → sum < 131072
    → bit_and (sum / 256) 0xff ≡ sum / 256 % 256
    → bit_and sum 0xff ≡ sum % 256
    → pair (bit_and (sum / 256) 0xff % 256) (bit_and sum 0xff % 256)
        + 65536 * to_bit (leb 65536 sum)
      ≡ sum
pair_sum sum fits high low =
    ground (arith, pair_lem (bit_and (sum / 256) 0xff % 256) (bit_and sum 0xff % 256))

-- DAD adds a pair to HL: HL with CY as its seventeenth bit is the sum.
pub dad_lem :
    (opcode next : ℕ) (m : Machine)
    → IsValid m
    → let m' = dad opcode next m in
      get_hl m'.cpu + 65536 * to_bit (has m'.cpu.flags flag_cy)
      ≡ get_hl m.cpu + get_rp m.cpu (pair_code opcode)
unfolding dad get_hl pair
dad_lem opcode next m v =
    let sum = get_hl m.cpu + get_rp m.cpu (pair_code opcode) in
    let fits : sum < 131072 =
      omega (arith, get_hl-lt m.cpu, get_rp-lt (pair_code opcode) v.cpu_ok) in
    let carry = has_carry m.cpu.flags (has sum 0x10000) v.cpu_ok.flags_fit ∙ has_bit_16 sum fits in
    let high = bit_and_byte (sum / 256) in
    let low = bit_and_byte sum in rw carry (pair_sum sum fits high low)

get_rp_pc : (cpu : Cpu) (pc rp : ℕ) → get_rp (record cpu { pc = pc }) rp ≡ get_rp cpu rp
unfolding get_rp
get_rp_pc cpu pc rp = refl

-- INX and DCX count a pair up and down within 16 bits.
inx_lem :
    (opcode next : ℕ) (m : Machine)
    → get_rp (inx opcode next m).cpu (pair_code opcode) ≡ u16 (get_rp m.cpu (pair_code opcode) + 1)
unfolding inx
inx_lem opcode next m =
    let rp = pair_code opcode in
    let value = u16 (get_rp m.cpu rp + 1) in
    get_rp_pc (set_rp m.cpu rp value) next rp ∙ get_rp-set_rp m.cpu rp value (omega arith)

dcx_lem :
    (opcode next : ℕ) (m : Machine)
    → get_rp (dcx opcode next m).cpu (pair_code opcode) ≡ sub16 (get_rp m.cpu (pair_code opcode)) 1
unfolding dcx
dcx_lem opcode next m =
    let rp = pair_code opcode in
    let value = sub16 (get_rp m.cpu rp) 1 in
    get_rp_pc (set_rp m.cpu rp value) next rp ∙ get_rp-set_rp m.cpu rp value (omega arith)

-- DCX after INX gives a pair its value back, and INX after DCX too, across the wrap at 16 bits.
pub inx-dcx_undo :
    (opcode next next' : ℕ) (m : Machine)
    → IsValid m
    → let rp = pair_code opcode in
      (get_rp (dcx opcode next' (inx opcode next m)).cpu rp ≡ get_rp m.cpu rp)
      × (get_rp (inx opcode next' (dcx opcode next m)).cpu rp ≡ get_rp m.cpu rp)
inx-dcx_undo opcode next next' m v = omega (
  arith,
  get_rp-lt (pair_code opcode) v.cpu_ok,
  inx_lem opcode next m,
  dcx_lem opcode next m,
  dcx_lem opcode next' (inx opcode next m),
  inx_lem opcode next' (dcx opcode next m),
)
