-- ===== src/Compiler/Code/Stmt.antt =====
-- `cg_stmt` of src/compiler/compiler.c. A call of `cg_stmt` by itself
-- and a step along a list of statements takes a unit of fuel; each walks to a node of its own.
use turning_machine_operatin.Base.{
  ℕ, zero, suc, Bool, true, false, ◌&&◌, Option, none, some, [], ◌∷◌,
}
use turning_machine_operatin.Compiler.Action.{◌>>=◌, ◌>>◌, pure, fail, hungry, when_else}
use turning_machine_operatin.Compiler.Ast.{AstKind, AstNode, get_elem?}
use turning_machine_operatin.Compiler.Code.{
  Program, Generate, cg_pos, emit_all, cg_emit_jump_placeholder, cg_patch_jump, emit_jump_back,
}
use turning_machine_operatin.Compiler.Code.Symbols.{cg_symbol_resolve, cg_emit_store_ref}
use turning_machine_operatin.Compiler.Code.Expr.{next_of, ident_at, clear_a, cg_expr}

module _ (c : Program) where
  -- The place of the jump that leaves where the expression is zero.
  unfoldable pub cg_jump_if_zero_expr : (Option ℕ → Generate (Unit {0})) → Option ℕ → Generate ℕ
  unfolding emit_all cg_emit_jump_placeholder
  cg_jump_if_zero_expr expr idx = do
    expr idx
    emit_all c (0xB7 ∷ [])
    cg_emit_jump_placeholder c 0xCA

  -- Where there is a condition.
  unfoldable pub exit_jump : (Option ℕ → Generate (Unit {0})) → Option ℕ → Generate (Option ℕ)
  unfolding cg_jump_if_zero_expr
  exit_jump expr none = pure none
  exit_jump expr (some i) = do patch ← cg_jump_if_zero_expr expr (some i); pure (some patch)

  -- The end of a loop: the jump back, and the exit's target behind it.
  unfoldable pub close_loop : ℕ → Option ℕ → Generate (Unit {0})
  unfolding emit_jump_back cg_pos cg_patch_jump
  close_loop loop_pos none = emit_jump_back c loop_pos
  close_loop loop_pos (some exit_patch) = do
    emit_jump_back c loop_pos
    end_pos ← cg_pos
    cg_patch_jump c exit_patch end_pos

  -- The value of an optional expression, 0 where there is none.
  unfoldable pub value_or_zero : (Option ℕ → Generate (Unit {0})) → Option ℕ → Generate (Unit {0})
  unfolding clear_a
  value_or_zero expr none = clear_a c
  value_or_zero expr (some i) = expr (some i)

  module _ (expr : Option ℕ → Generate (Unit {0})) (stmt : ℕ → Generate Bool) where
    -- A statement that may be left out. The result says whether it returns.
    unfoldable pub optional_stmt : Option ℕ → Generate Bool
    optional_stmt none = pure false
    optional_stmt (some i) = stmt i

    unfoldable pub return_code : AstNode → Generate Bool
    unfolding value_or_zero emit_all
    return_code n = do value_or_zero expr n.left; emit_all c (0xC9 ∷ []); pure true

    -- The statements from a node on, up to one that returns.
    unfoldable pub stmt_list : ℕ → Option ℕ → Generate Bool
    unfolding next_of
    stmt_list fuel none = pure false
    stmt_list zero (some it) = hungry
    stmt_list (suc fuel) (some it) = do
      returned ← stmt it
      when_else returned (pure true) (stmt_list fuel (next_of c it))

    unfoldable pub declare : AstNode → Generate Bool
    unfolding ident_at cg_symbol_resolve value_or_zero cg_emit_store_ref
    declare n =
        when_else (ident_at c n.left)
          (do
            ref ← cg_symbol_resolve c n.left true true
            value_or_zero expr n.right
            cg_emit_store_ref c ref
            pure false)
          fail

    -- Where the body returns, the exit's jump keeps the address 0.
    unfoldable pub while_code : AstNode → Generate Bool
    unfolding cg_pos exit_jump optional_stmt close_loop
    while_code n = do
      loop_pos ← cg_pos
      exit_patch ← exit_jump expr n.left
      returned ← optional_stmt n.right
      when_else returned (pure true) (do close_loop loop_pos exit_patch; pure false)

    unfoldable pub step_code : Option ℕ → Generate (Unit {0})
    step_code none = pure tt
    step_code (some i) = expr (some i)

    unfoldable pub for_code : AstNode → Generate Bool
    unfolding cg_pos exit_jump optional_stmt close_loop step_code
    for_code n = do
      init_returned ← optional_stmt n.left
      when_else init_returned (pure true) (do
        loop_pos ← cg_pos
        exit_patch ← exit_jump expr n.right
        returned ← optional_stmt n.next
        when_else returned (pure true)
            (do step_code n.third; close_loop loop_pos exit_patch; pure false))

    -- After the `then` part: the jump over the `else` part, and the two targets.
    unfoldable pub else_code : ℕ → Bool → Option ℕ → Generate Bool
    unfolding cg_pos cg_patch_jump cg_emit_jump_placeholder
    else_code else_patch then_return none = do
      end_pos ← cg_pos
      cg_patch_jump c else_patch end_pos
      pure false
    else_code else_patch then_return (some else_node) = do
      end_patch ← cg_emit_jump_placeholder c 0xC3
      else_pos ← cg_pos
      cg_patch_jump c else_patch else_pos
      else_return ← stmt else_node
      end_pos ← cg_pos
      cg_patch_jump c end_patch end_pos
      pure (then_return && else_return)

    unfoldable pub if_code : Option ℕ → Option ℕ → Option ℕ → Generate Bool
    unfolding cg_jump_if_zero_expr else_code
    if_code none then_part else_part = fail
    if_code (some cond) none else_part = fail
    if_code (some cond) (some then_node) else_part = do
      else_patch ← cg_jump_if_zero_expr expr (some cond)
      then_return ← stmt then_node
      else_code else_patch then_return else_part

    -- The switch over the kind of a node.
    unfoldable pub stmt_case : ℕ → ℕ → AstNode → AstKind → Generate Bool
    unfolding return_code stmt_list declare while_code for_code if_code
    stmt_case fuel i n AstKind.return_node = return_code n
    stmt_case fuel i n AstKind.program = stmt_list fuel n.left
    stmt_case fuel i n AstKind.var_decl = declare n
    stmt_case fuel i n AstKind.while_node = while_code n
    stmt_case fuel i n AstKind.for_node = for_code n
    stmt_case fuel i n AstKind.if_node = if_code n.left n.right n.third
    stmt_case fuel i n AstKind.unknown = fail
    stmt_case fuel i n AstKind.func_decl = fail
    stmt_case fuel i n _ = do expr (some i); pure false

  -- The result says whether the statement returns, which the source notes in `*saw_return`.
  unfoldable pub cg_stmt : ℕ → ℕ → Generate Bool
  unfolding stmt_case cg_expr
  cg_stmt zero idx = hungry
  cg_stmt (suc fuel) idx = elim (get_elem? c.nodes idx) [
    | none ↦ fail
    | some n ↦ stmt_case (cg_expr c fuel) (cg_stmt fuel) fuel idx n n.kind
  ]
