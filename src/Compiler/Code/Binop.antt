-- ===== src/Compiler/Code/Binop.antt =====
-- `cg_binop` of src/compiler/compiler.c: the code for an operator, with the left value in B and the
-- right one in A.
use turning_machine_operatin.Base.{ℕ, Option, List, [], ◌∷◌}
use turning_machine_operatin.Compiler.Action.{◌>>=◌, ◌>>◌, pure, fail, when_else}
use turning_machine_operatin.Compiler.Token.{TokenKind, is_kind}
use turning_machine_operatin.Compiler.Code.{
  Program, Generate, cc_logical_scratch, cg_pos, emit_all, cg_emit_addr16, cg_emit_jump_placeholder,
  cg_patch_jump, emit_jump_back, cg_emit_boolify_a,
}

module _ (c : Program) where
  -- MOV C,A; MVI D,0; loop: MOV A,C; ORA A; JZ end; MOV A,D; ADD B; MOV D,A; DCR C; JMP loop;
  -- end: MOV A,D
  unfoldable pub multiply : Generate (Unit {0})
  unfolding emit_all cg_pos cg_emit_jump_placeholder cg_patch_jump emit_jump_back
  multiply = do
    emit_all c (0x4F ∷ 0x16 ∷ 0x00 ∷ [])
    loop_pos ← cg_pos
    emit_all c (0x79 ∷ 0xB7 ∷ [])
    jz_patch ← cg_emit_jump_placeholder c 0xCA
    emit_all c (0x7A ∷ 0x80 ∷ 0x57 ∷ 0x0D ∷ [])
    emit_jump_back c loop_pos
    end_pos ← cg_pos
    cg_patch_jump c jz_patch end_pos
    emit_all c (0x7A ∷ [])

  -- MOV C,A; MOV D,B; MVI B,0; MOV A,C; ORA A; JZ div0; loop: MOV A,D; CMP C; JC quot; SUB C;
  -- MOV D,A; INR B; JMP loop; quot: MOV A,B; JMP done; div0: MVI A,0; done:
  unfoldable pub divide : Generate (Unit {0})
  unfolding emit_all cg_pos cg_emit_jump_placeholder cg_patch_jump emit_jump_back
  divide = do
    emit_all c (0x4F ∷ 0x50 ∷ 0x06 ∷ 0x00 ∷ 0x79 ∷ 0xB7 ∷ [])
    jz_div0_patch ← cg_emit_jump_placeholder c 0xCA
    loop_pos ← cg_pos
    emit_all c (0x7A ∷ 0xB9 ∷ [])
    jc_done_patch ← cg_emit_jump_placeholder c 0xDA
    emit_all c (0x91 ∷ 0x57 ∷ 0x04 ∷ [])
    emit_jump_back c loop_pos
    quot_pos ← cg_pos
    emit_all c (0x78 ∷ [])
    jmp_done_patch ← cg_emit_jump_placeholder c 0xC3
    div0_pos ← cg_pos
    emit_all c (0x3E ∷ 0x00 ∷ [])
    done_pos ← cg_pos
    cg_patch_jump c jz_div0_patch div0_pos
    cg_patch_jump c jc_done_patch quot_pos
    cg_patch_jump c jmp_done_patch done_pos

  -- The jumps that a comparison takes where it holds; for `>` those that it takes where it fails.
  unfoldable pub comparison_jumps : TokenKind → List ℕ
  comparison_jumps TokenKind.eq = 0xCA ∷ []
  comparison_jumps TokenKind.ne = 0xC2 ∷ []
  comparison_jumps TokenKind.lt = 0xDA ∷ []
  comparison_jumps TokenKind.le = 0xDA ∷ 0xCA ∷ []
  comparison_jumps TokenKind.gt = 0xDA ∷ 0xCA ∷ []
  comparison_jumps TokenKind.ge = 0xD2 ∷ []
  comparison_jumps _ = []

  unfoldable pub emit_jumps : List ℕ → Generate (List ℕ)
  unfolding cg_emit_jump_placeholder
  emit_jumps [] = pure []
  emit_jumps (opcode ∷ rest) = do
    patch ← cg_emit_jump_placeholder c opcode
    patches ← emit_jumps rest
    pure (patch ∷ patches)

  unfoldable pub patch_jumps : List ℕ → ℕ → Generate (Unit {0})
  unfolding cg_patch_jump
  patch_jumps [] target = pure tt
  patch_jumps (patch ∷ rest) target = do cg_patch_jump c patch target; patch_jumps rest target

  -- MOV C,A; MOV A,B; CMP C; MVI A,0; the jumps; JMP end but for `>`; true: MVI A,1; end:
  unfoldable pub compare_code : TokenKind → Generate (Unit {0})
  unfolding comparison_jumps emit_jumps patch_jumps emit_all cg_pos
  compare_code op = do
    emit_all c (0x4F ∷ 0x78 ∷ 0xB9 ∷ 0x3E ∷ 0x00 ∷ [])
    patches ← emit_jumps (comparison_jumps op)
    when_else (is_kind op TokenKind.gt)
        (do emit_all c (0x3E ∷ 0x01 ∷ []); end_pos ← cg_pos; patch_jumps patches end_pos)
        (do
          jmp_end_patch ← cg_emit_jump_placeholder c 0xC3
          true_pos ← cg_pos
          emit_all c (0x3E ∷ 0x01 ∷ [])
          end_pos ← cg_pos
          patch_jumps patches true_pos
          cg_patch_jump c jmp_end_patch end_pos)

  -- The right value and the left one from its scratch byte are made 0 or 1 and joined.
  unfoldable pub logical_code : ℕ → Generate (Unit {0})
  unfolding cg_emit_boolify_a emit_all cg_emit_addr16
  logical_code joins = do
    cg_emit_boolify_a c
    emit_all c (0x4F ∷ 0x3A ∷ [])
    cg_emit_addr16 c cc_logical_scratch
    cg_emit_boolify_a c
    emit_all c (joins ∷ [])

  -- The switch over the operator.
  unfoldable pub operator_code : TokenKind → Generate (Unit {0})
  unfolding emit_all multiply divide compare_code logical_code
  operator_code TokenKind.plus = emit_all c (0x80 ∷ [])
  operator_code TokenKind.minus = emit_all c (0x4F ∷ 0x78 ∷ 0x91 ∷ [])
  operator_code TokenKind.star = multiply
  operator_code TokenKind.slash = divide
  operator_code TokenKind.eq = compare_code TokenKind.eq
  operator_code TokenKind.ne = compare_code TokenKind.ne
  operator_code TokenKind.lt = compare_code TokenKind.lt
  operator_code TokenKind.le = compare_code TokenKind.le
  operator_code TokenKind.gt = compare_code TokenKind.gt
  operator_code TokenKind.ge = compare_code TokenKind.ge
  operator_code TokenKind.and_and = logical_code 0xA1
  operator_code TokenKind.or_or = logical_code 0xB1
  operator_code _ = fail

  -- For `&&` and `||` the left value is also stored: STA scratch.
  unfoldable pub keep_left : TokenKind → Generate (Unit {0})
  unfolding emit_all cg_emit_addr16
  keep_left TokenKind.and_and = do emit_all c (0x32 ∷ []); cg_emit_addr16 c cc_logical_scratch
  keep_left TokenKind.or_or = do emit_all c (0x32 ∷ []); cg_emit_addr16 c cc_logical_scratch
  keep_left _ = pure tt

  -- `expr` generates the code of an operand. MOV B,A stands between the two.
  unfoldable pub cg_binop :
      (Option ℕ → Generate (Unit {0})) → Option ℕ → TokenKind → Option ℕ → Generate (Unit {0})
  unfolding keep_left emit_all operator_code
  cg_binop expr left op right = do
    expr left
    keep_left op
    emit_all c (0x47 ∷ [])
    expr right
    operator_code op
