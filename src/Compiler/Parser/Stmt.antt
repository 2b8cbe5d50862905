-- ===== src/Compiler/Parser/Stmt.antt =====
-- Statements and declarations of the parser of src/compiler/compiler.c.
use turning_machine_operatin.Base.{
  ℕ, zero, suc, ◌-◌, ◌||◌, Option, none, some, List, [], ◌==◌, if◌then◌else◌, length,
}
use turning_machine_operatin.Compiler.Result.{Result, ok, err, bind}
use turning_machine_operatin.Compiler.Token.{TokenKind, Token, is_kind}
use turning_machine_operatin.Compiler.Action.{◌>>=◌, ◌>>◌, pure, fail, hungry, when_else}
use turning_machine_operatin.Compiler.Ast.{
  AstKind, AstNode, Source, Parse, get_pos, advance, set_left, set_right, set_third, set_next,
  set_op, link_after, or_default, p_peek_kind, p_match, p_expect, p_new_node,
}
use turning_machine_operatin.Compiler.Parser.{is_type, p_parse_expr}

module _ (c : Source) (fuel : ℕ) where
  -- `= init`, if it is there.
  unfoldable pub parse_init : ℕ → Parse (Unit {0})
  parse_init node = do
    assigns ← p_match c TokenKind.assign
    when_else assigns (do init ← p_parse_expr c fuel; set_right node (some init)) (pure tt)

  unfoldable pub p_parse_var_decl_stmt : TokenKind → Parse ℕ
  unfolding parse_init
  p_parse_var_decl_stmt type_tok = do
    p_expect c TokenKind.ident
    pos ← get_pos
    ident_node ← p_new_node c AstKind.ident (pos - 1)
    node ← p_new_node c AstKind.var_decl (pos - 1)
    set_op node type_tok
    set_left node (some ident_node)
    parse_init node
    p_expect c TokenKind.semi
    pure node

  -- An expression and the token behind it.
  unfoldable pub expr_then : TokenKind → Parse ℕ
  expr_then kind = do e ← p_parse_expr c fuel; p_expect c kind; pure e

  -- A part of `for`: nothing where the token is there at once.
  unfoldable pub optional_expr : TokenKind → Parse (Option ℕ)
  unfolding expr_then
  optional_expr kind = do
    empty ← p_match c kind
    when_else empty (pure none) (do e ← expr_then kind; pure (some e))

  unfoldable pub for_init : Parse (Option ℕ)
  unfolding p_parse_var_decl_stmt optional_expr
  for_init = do
    t ← p_peek_kind c
    when_else (is_type t) (do advance; decl ← p_parse_var_decl_stmt t; pure (some decl))
        (optional_expr TokenKind.semi)

  unfoldable pub p_parse_for : Parse ℕ → Parse ℕ
  unfolding for_init optional_expr
  p_parse_for stmt = do
    pos ← get_pos
    node ← p_new_node c AstKind.for_node pos
    p_expect c TokenKind.kw_for
    p_expect c TokenKind.lparen
    init ← for_init
    cond ← optional_expr TokenKind.semi
    step ← optional_expr TokenKind.rparen
    body ← stmt
    set_left node init
    set_right node cond
    set_third node step
    set_next node (some body)
    pure node

  unfoldable pub parse_if : Parse ℕ → Parse ℕ
  unfolding expr_then
  parse_if stmt = do
    pos ← get_pos
    node ← p_new_node c AstKind.if_node pos
    advance
    p_expect c TokenKind.lparen
    cond ← expr_then TokenKind.rparen
    then_node ← stmt
    set_left node (some cond)
    set_right node (some then_node)
    has_else ← p_match c TokenKind.kw_else
    when_else has_else (do else_node ← stmt; set_third node (some else_node); pure node) (pure node)

  unfoldable pub parse_while : Parse ℕ → Parse ℕ
  unfolding expr_then
  parse_while stmt = do
    pos ← get_pos
    node ← p_new_node c AstKind.while_node pos
    advance
    p_expect c TokenKind.lparen
    cond ← expr_then TokenKind.rparen
    body ← stmt
    set_left node (some cond)
    set_right node (some body)
    pure node

  unfoldable pub parse_return : Parse ℕ
  unfolding expr_then
  parse_return = do
    pos ← get_pos
    node ← p_new_node c AstKind.return_node pos
    advance
    empty ← p_match c TokenKind.semi
    when_else empty (pure node)
        (do expr ← expr_then TokenKind.semi; set_left node (some expr); pure node)

module _ (c : Source) where
  -- The loop over the statements of a block, up to its closing brace: the first statement.
  unfoldable pub block_loop : Parse ℕ → ℕ → Option ℕ → Option ℕ → Parse (Option ℕ)
  unfolding link_after
  block_loop stmt zero first last = hungry
  block_loop stmt (suc fuel) first last = do
    t ← p_peek_kind c
    when_else (is_kind t TokenKind.rbrace || is_kind t TokenKind.eof) (pure first) (do
      st ← stmt
      link_after last st
      block_loop stmt fuel (some (or_default first st)) (some st))

  unfoldable pub p_parse_block : Parse ℕ → ℕ → Parse ℕ
  unfolding block_loop
  p_parse_block stmt fuel = do
    pos ← get_pos
    block ← p_new_node c AstKind.program pos
    p_expect c TokenKind.lbrace
    first ← block_loop stmt fuel none none
    p_expect c TokenKind.rbrace
    set_left block first
    pure block

  -- A statement that no keyword or brace starts.
  unfoldable pub parse_plain : ℕ → Parse ℕ
  unfolding expr_then
  parse_plain fuel = do
    empty ← p_match c TokenKind.semi
    pos ← get_pos
    when_else empty (p_new_node c AstKind.unknown (pos - 1)) (expr_then c fuel TokenKind.semi)

  -- The first token selects the form.
  unfoldable pub stmt_case : Parse ℕ → ℕ → TokenKind → Parse ℕ
  unfolding p_parse_block parse_if parse_while p_parse_for parse_return parse_plain
  stmt_case stmt fuel t = when_else (is_kind t TokenKind.lbrace) (p_parse_block stmt fuel) (
      when_else (is_kind t TokenKind.kw_if) (parse_if c fuel stmt) (
        when_else (is_kind t TokenKind.kw_while) (parse_while c fuel stmt) (
          when_else (is_kind t TokenKind.kw_for) (p_parse_for c fuel stmt) (
            when_else (is_kind t TokenKind.kw_return) (parse_return c fuel) (
              when_else (is_type t) (do advance; p_parse_var_decl_stmt c fuel t)
                (parse_plain fuel))))))

  unfoldable pub p_parse_stmt : ℕ → Parse ℕ
  unfolding stmt_case
  p_parse_stmt zero = hungry
  p_parse_stmt (suc fuel) = do t ← p_peek_kind c; stmt_case (p_parse_stmt fuel) (suc fuel) t

  -- The loop over a function's parameters, up to the closing parenthesis: the first one.
  unfoldable pub param_loop : ℕ → Option ℕ → Option ℕ → Parse (Option ℕ)
  unfolding link_after
  param_loop zero first last = hungry
  param_loop (suc fuel) first last = do
    ptype ← p_peek_kind c
    when_else (is_type ptype) (pure tt) fail
    advance
    p_expect c TokenKind.ident
    pos ← get_pos
    param_ident ← p_new_node c AstKind.ident (pos - 1)
    param_decl ← p_new_node c AstKind.var_decl (pos - 1)
    set_op param_decl ptype
    set_left param_decl (some param_ident)
    link_after last param_decl
    more ← p_match c TokenKind.comma
    when_else more (param_loop fuel (some (or_default first param_decl)) (some param_decl))
        (do p_expect c TokenKind.rparen; pure (some (or_default first param_decl)))

  -- A function, with its opening parenthesis read.
  unfoldable pub parse_function : ℕ → TokenKind → ℕ → Parse ℕ
  unfolding param_loop p_parse_block p_parse_stmt
  parse_function fuel type_tok ident = do
    pos ← get_pos
    func ← p_new_node c AstKind.func_decl (pos - 2)
    set_op func type_tok
    set_left func (some ident)
    empty ← p_match c TokenKind.rparen
    params ← when_else empty (pure none) (param_loop fuel none none)
    body ← p_parse_block (p_parse_stmt fuel) fuel
    set_right func params
    set_third func (some body)
    pure func

  -- A variable outside functions, with its name read.
  unfoldable pub parse_variable : ℕ → TokenKind → ℕ → ℕ → Parse ℕ
  unfolding parse_init
  parse_variable fuel type_tok ident marker = do
    var ← p_new_node c AstKind.var_decl (marker - 1)
    set_op var type_tok
    set_left var (some ident)
    parse_init c fuel var
    p_expect c TokenKind.semi
    pure var

  unfoldable pub parse_decl : ℕ → TokenKind → Parse ℕ
  unfolding parse_function parse_variable
  parse_decl fuel type_tok = do
    advance
    p_expect c TokenKind.ident
    marker ← get_pos
    ident ← p_new_node c AstKind.ident (marker - 1)
    opened ← p_match c TokenKind.lparen
    when_else opened (parse_function fuel type_tok ident)
        (parse_variable fuel type_tok ident marker)

  -- The loop of `cc_parse`: the first declaration.
  unfoldable pub decl_loop : ℕ → ℕ → Option ℕ → Option ℕ → Parse (Option ℕ)
  unfolding parse_decl link_after
  decl_loop inner zero first last = hungry
  decl_loop inner (suc fuel) first last = do
    t ← p_peek_kind c
    when_else (is_kind t TokenKind.eof) (pure first) (do
      when_else (is_type t) (pure tt) fail
      decl ← parse_decl inner t
      link_after last decl
      decl_loop inner fuel (some (or_default first decl)) (some decl))

  unfoldable pub parse_program : Parse (Unit {0})
  unfolding decl_loop
  parse_program = do
    root ← p_new_node c AstKind.program 0
    first ← decl_loop (suc (length c.tokens)) (suc (length c.tokens)) none none
    set_left root first

-- The nodes; their number is the return value.
unfoldable pub cc_parse : List ℕ → List Token → ℕ → Result (List AstNode)
unfolding parse_program
cc_parse src tokens max_nodes =
    let c : Source = record { src = src; tokens = tokens; max_nodes = max_nodes } in
    if length tokens == 0 || max_nodes == 0
    then err
    else bind (parse_program c (record { pos = 0; nodes = [] })) (λ r. ok r.1.nodes)
