-- ===== src/Compiler/Code.antt =====
-- The state of the code generator of src/compiler/compiler.c, and how it emits and patches code.
-- The output buffer is the list of the bytes emitted.
pub mod Instructions
pub mod Sums
pub mod Computes
pub mod Symbols
pub mod Binop
pub mod Expr
pub mod Stmt
pub mod Whole
use turning_machine_operatin.Base.{
  ℕ, zero, suc, ◌+◌, ◌-◌, ◌/◌, ◌%◌, Bool, true, false, ◌&&◌, ◌||◌, Option, none, some, List, [],
  ◌∷◌, ◌++◌, leb, ltb, ◌==◌, if◌then◌else◌, length, bit_and, ◌>>>◌, u8, u16,
}
use turning_machine_operatin.Compiler.Result.{Result, ok, err, starved}
use turning_machine_operatin.Compiler.Action.{Action, ◌>>=◌, ◌>>◌, pure, fail, when_else}
use turning_machine_operatin.Compiler.Token.{Token}
use turning_machine_operatin.Compiler.Ast.{AstNode, modify}

-- An entry of the function table: `addr` is `none` for -1.
pub record Function : Type 0 where
  pub name : List ℕ
  pub body_node : Option ℕ
  pub addr : Option ℕ

-- What `cc_codegen_t` holds that does not change.
pub record Program : Type 0 where
  pub nodes : List AstNode
  pub src : List ℕ
  pub tokens : List Token
  pub cap : ℕ

-- What changes. Each table is a list of names with their values.
pub record Codegen : Type 0 where
  pub buf : List ℕ
  pub next_global_addr : ℕ
  pub globals : List (List ℕ × ℕ)
  pub locals : List (List ℕ × ℕ)
  pub functions : List Function
  pub pending_calls : List (List ℕ × ℕ)

abbrev pub Generate {ℓ} : Type ℓ → Type ℓ
Generate A = Action Codegen A

abbrev pub cc_code_base : ℕ
cc_code_base = 0x0100

abbrev pub cc_logical_scratch : ℕ
cc_logical_scratch = 0x20FC

unfoldable pub cg_pos : Generate ℕ
cg_pos g = ok (length g.buf, g)

module _ (c : Program) where
  unfoldable pub cg_emit1 : ℕ → Generate (Unit {0})
  cg_emit1 b g =
      if leb c.cap (length g.buf) then err else ok (tt, record g { buf = g.buf ++ (b ∷ []) })

  -- Several bytes, one after the other.
  unfoldable pub emit_all : List ℕ → Generate (Unit {0})
  unfolding cg_emit1
  emit_all [] = pure tt
  emit_all (b ∷ bs) = do cg_emit1 b; emit_all bs

  unfoldable pub cg_emit_addr16 : ℕ → Generate (Unit {0})
  unfolding emit_all
  cg_emit_addr16 addr = emit_all (u8 (bit_and addr 0xFF) ∷ u8 (bit_and (addr >>> 8) 0xFF) ∷ [])

  -- The place of the two bytes to be patched.
  unfoldable pub cg_emit_jump_placeholder : ℕ → Generate ℕ
  unfolding cg_emit1 emit_all cg_pos
  cg_emit_jump_placeholder opcode = do
    cg_emit1 opcode
    patch_at ← cg_pos
    emit_all (0 ∷ 0 ∷ [])
    pure patch_at

  unfoldable pub cg_patch_jump : ℕ → ℕ → Generate (Unit {0})
  cg_patch_jump patch_at target g =
      let abs_target = u16 (target + cc_code_base) in
      let low = u8 (bit_and abs_target 0xFF) in
      let high = u8 (bit_and (abs_target >>> 8) 0xFF) in
      let patched = modify (modify g.buf patch_at (λ b. low)) (patch_at + 1) (λ b. high) in
      if leb c.cap (patch_at + 1) || ltb 0xFFFF (target + cc_code_base)
      then err
      else ok (tt, record g { buf = patched })

  -- Where a jump goes to that closes a loop: `JMP loop`.
  unfoldable pub emit_jump_back : ℕ → Generate (Unit {0})
  unfolding cg_emit1 cg_emit_addr16
  emit_jump_back loop_pos = do cg_emit1 0xC3; cg_emit_addr16 (u16 (loop_pos + cc_code_base))

  -- MOV C,A; MVI A,2; OUT 1; MOV A,C
  unfoldable pub cg_emit_bios_conout_a : Generate (Unit {0})
  unfolding emit_all
  cg_emit_bios_conout_a = emit_all (0x4F ∷ 0x3E ∷ 0x02 ∷ 0xD3 ∷ 0x01 ∷ 0x79 ∷ [])

  -- ORA A; MVI A,0; JZ end; MVI A,1
  unfoldable pub cg_emit_boolify_a : Generate (Unit {0})
  unfolding emit_all cg_emit_jump_placeholder cg_pos cg_patch_jump
  cg_emit_boolify_a = do
    emit_all (0xB7 ∷ 0x3E ∷ 0x00 ∷ [])
    jz_patch ← cg_emit_jump_placeholder 0xCA
    emit_all (0x3E ∷ 0x01 ∷ [])
    end_pos ← cg_pos
    cg_patch_jump jz_patch end_pos
