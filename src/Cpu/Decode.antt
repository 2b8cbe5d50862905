-- ===== src/Cpu/Decode.antt =====
-- The case labels of `cpu_step`'s switch in src/emu/cpu.c: which case an opcode selects. The
-- labels are tried in the order of the source, the `default` ladder last.
use turning_machine_operatin.Base.{ℕ, Bool, ◌&&◌, ◌||◌, ◌==◌, leb, if◌then◌else◌}

-- A case of the switch. `fallback` is the last `else` of the ladder.
pub data Case : Type 0 where
  nop hlt lxi_b lxi_d lxi_h lxi_sp mvi lda sta lhld shld xchg xthl sphl pchl : Case
  adi aci sui sbi daa rlc rrc ral rar cma stc cmc ani xri ori cpi : Case
  jmp call ret inp out ei di rim sim : Case
  add adc sub sbb inr dcr inx dcx dad ana xra ora cmp : Case
  jccc cccc rccc push pop rst mov fallback : Case

-- `((opcode >= lo) && (opcode <= hi))`
abbrev within : ℕ → ℕ → ℕ → Bool
within opcode lo hi = leb lo opcode && leb opcode hi

-- The opcodes of one column of eight rows or four rows: `opcode` is `base + k * step`.
abbrev four : ℕ → ℕ → ℕ → ℕ → ℕ → Bool
four opcode a b c d = opcode == a || opcode == b || opcode == c || opcode == d

unfoldable pub default_case : ℕ → Case
default_case opcode =
    if within opcode 0x80 0x87
    then add
    else if within opcode 0x88 0x8F
    then adc
    else if within opcode 0x90 0x97
    then sub
    else if within opcode 0x98 0x9F
    then sbb
    else if four opcode 0x04 0x0C 0x14 0x1C || four opcode 0x24 0x2C 0x34 0x3C
    then inr
    else if four opcode 0x05 0x0D 0x15 0x1D || four opcode 0x25 0x2D 0x35 0x3D
    then dcr
    else if four opcode 0x03 0x13 0x23 0x33
    then inx
    else if four opcode 0x0B 0x1B 0x2B 0x3B
    then dcx
    else if four opcode 0x09 0x19 0x29 0x39
    then dad
    else if within opcode 0xA0 0xA7
    then ana
    else if within opcode 0xA8 0xAF
    then xra
    else if within opcode 0xB0 0xB7
    then ora
    else if within opcode 0xB8 0xBF
    then cmp
    else if four opcode 0xC2 0xCA 0xD2 0xDA || four opcode 0xE2 0xEA 0xF2 0xFA
    then jccc
    else if four opcode 0xC4 0xCC 0xD4 0xDC || four opcode 0xE4 0xEC 0xF4 0xFC
    then cccc
    else if four opcode 0xC0 0xC8 0xD0 0xD8 || four opcode 0xE0 0xE8 0xF0 0xF8
    then rccc
    else if four opcode 0xC5 0xD5 0xE5 0xF5
    then push
    else if four opcode 0xC1 0xD1 0xE1 0xF1
    then pop
    else if four opcode 0xC7 0xCF 0xD7 0xDF || four opcode 0xE7 0xEF 0xF7 0xFF
    then rst
    else if within opcode 0x40 0x7F
    then mov
    else fallback

unfoldable pub control_case : ℕ → Case
control_case opcode =
    if opcode == 0xE6
    then ani
    else if opcode == 0xEE
    then xri
    else if opcode == 0xF6
    then ori
    else if opcode == 0xFE
    then cpi
    else if opcode == 0xC3
    then jmp
    else if opcode == 0xCD
    then call
    else if opcode == 0xC9
    then ret
    else if opcode == 0xDB
    then inp
    else if opcode == 0xD3
    then out
    else if opcode == 0xFB
    then ei
    else if opcode == 0xF3
    then di
    else if opcode == 0x20
    then rim
    else if opcode == 0x30
    then sim
    else default_case opcode

unfoldable pub accumulator_case : ℕ → Case
accumulator_case opcode =
    if opcode == 0xC6
    then adi
    else if opcode == 0xCE
    then aci
    else if opcode == 0xD6
    then sui
    else if opcode == 0xDE
    then sbi
    else if opcode == 0x27
    then daa
    else if opcode == 0x07
    then rlc
    else if opcode == 0x0F
    then rrc
    else if opcode == 0x17
    then ral
    else if opcode == 0x1F
    then rar
    else if opcode == 0x2F
    then cma
    else if opcode == 0x37
    then stc
    else if opcode == 0x3F
    then cmc
    else control_case opcode

unfoldable pub decode : ℕ → Case
decode opcode =
    if opcode == 0x00
    then nop
    else if opcode == 0x76
    then hlt
    else if opcode == 0x01
    then lxi_b
    else if opcode == 0x11
    then lxi_d
    else if opcode == 0x21
    then lxi_h
    else if opcode == 0x31
    then lxi_sp
    else if four opcode 0x06 0x0E 0x16 0x1E || four opcode 0x26 0x2E 0x36 0x3E
    then mvi
    else if opcode == 0x3A
    then lda
    else if opcode == 0x32
    then sta
    else if opcode == 0x2A
    then lhld
    else if opcode == 0x22
    then shld
    else if opcode == 0xEB
    then xchg
    else if opcode == 0xE3
    then xthl
    else if opcode == 0xF9
    then sphl
    else if opcode == 0xE9
    then pchl
    else accumulator_case opcode
