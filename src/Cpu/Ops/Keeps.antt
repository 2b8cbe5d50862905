-- ===== src/Cpu/Ops/Keeps.antt =====
-- The loads, stores, exchanges, rotations, CALL and OUT keep every field within its type.
use turning_machine_operatin.Base.{ℕ, ◌+◌, ◌<◌, Bool, arith, u16}
use turning_machine_operatin.Mem.{mem_read, mem_write-IsTape}
use turning_machine_operatin.Cpu.State.{Machine, IsValid, set_pc}
use turning_machine_operatin.Cpu.Flags.{clear, raise_if, flag_cy}
use turning_machine_operatin.Cpu.Alu.Keeps.{raise_carry-IsFlags}
use turning_machine_operatin.Cpu.Stack.{read_u16}
use turning_machine_operatin.Cpu.Stack.Words.{read_u16-lt, push_u16-IsValid}
use turning_machine_operatin.Cpu.Ops.{
  lxi_b, lxi_d, lxi_h, lxi_sp, lda, sta, lhld, shld, xchg, xthl, rlc, rrc, ral, rar, call, out,
}

pub set_pc-IsValid : {m : Machine} (pc : ℕ) → pc < 65536 → IsValid m → IsValid (set_pc pc m)
set_pc-IsValid pc h v = ground arith

module _ (m : Machine) (next : ℕ) (fits : next < 65536) (v : IsValid m) where
  byte : mem_read m.mem next < 256
  byte = v.mem_ok next

  byte₁ : mem_read m.mem (u16 (next + 1)) < 256
  byte₁ = v.mem_ok (u16 (next + 1))

  pub lxi_b-IsValid : IsValid (lxi_b m next)
  unfolding lxi_b
  lxi_b-IsValid = ground (arith, byte, byte₁)

  pub lxi_d-IsValid : IsValid (lxi_d m next)
  unfolding lxi_d
  lxi_d-IsValid = ground (arith, byte, byte₁)

  pub lxi_h-IsValid : IsValid (lxi_h m next)
  unfolding lxi_h
  lxi_h-IsValid = ground (arith, byte, byte₁)

  pub lxi_sp-IsValid : IsValid (lxi_sp m next)
  unfolding lxi_sp
  lxi_sp-IsValid = ground (arith, read_u16-lt m.mem next)

  pub lda-IsValid : IsValid (lda m next)
  unfolding lda
  lda-IsValid = ground (arith, v.mem_ok (read_u16 m.mem next))

  pub sta-IsValid : IsValid (sta m next)
  unfolding sta
  sta-IsValid = ground (arith, mem_write-IsTape m.mem (read_u16 m.mem next) m.cpu.a v.mem_ok)

  pub lhld-IsValid : IsValid (lhld m next)
  unfolding lhld
  lhld-IsValid =
      ground (arith, v.mem_ok (read_u16 m.mem next), v.mem_ok (u16 (read_u16 m.mem next + 1)))

  pub shld-IsValid : IsValid (shld m next)
  unfolding shld
  shld-IsValid = record {
    cpu_ok = ground arith;
    mem_ok =
        mem_write-IsTape _ _ _ (mem_write-IsTape _ _ _ v.mem_ok v.cpu_ok.l_fits) v.cpu_ok.h_fits;
  }

  pub xchg-IsValid : IsValid (xchg m next)
  unfolding xchg
  xchg-IsValid = ground arith

  pub xthl-IsValid : IsValid (xthl m next)
  unfolding xthl
  xthl-IsValid = record {
    cpu_ok = ground (arith, v.mem_ok m.cpu.sp, v.mem_ok (u16 (m.cpu.sp + 1)));
    mem_ok =
        mem_write-IsTape _ _ _ (mem_write-IsTape _ _ _ v.mem_ok v.cpu_ok.l_fits) v.cpu_ok.h_fits;
  }

  -- A rotation.
  rotated-IsValid :
      (a : ℕ) (cy : Bool)
      → a < 256
      → IsValid (record m {
        cpu = record m.cpu {
          a = a;
          flags = raise_if cy (clear m.cpu.flags flag_cy) flag_cy;
          pc = next;
        };
      })
  rotated-IsValid a cy h =
      let flags = raise_carry-IsFlags m.cpu.flags cy v.cpu_ok.flags_fit in ground arith

  pub rlc-IsValid : IsValid (rlc m next)
  unfolding rlc
  rlc-IsValid = rotated-IsValid _ _ (omega arith)

  pub rrc-IsValid : IsValid (rrc m next)
  unfolding rrc
  rrc-IsValid = rotated-IsValid _ _ (omega arith)

  pub ral-IsValid : IsValid (ral m next)
  unfolding ral
  ral-IsValid = rotated-IsValid _ _ (omega arith)

  pub rar-IsValid : IsValid (rar m next)
  unfolding rar
  rar-IsValid = rotated-IsValid _ _ (omega arith)

  pub call-IsValid : IsValid (call m next)
  unfolding call
  call-IsValid = set_pc-IsValid _ (read_u16-lt m.mem next) (push_u16-IsValid _ v)

  pub out-IsValid : IsValid (out m next)
  unfolding out
  out-IsValid = ground (arith, byte)
