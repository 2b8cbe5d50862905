-- ===== src/Compiler/Parser.antt =====
-- The parser of src/compiler/compiler.c: expressions, statements and declarations. A call that the
-- source makes of itself, through others or in a loop, takes a unit of fuel.
pub mod Stmt
pub mod Links
pub mod Steps
pub mod Exprs
pub mod Stmts
pub mod Decls
use turning_machine_operatin.Base.{
  ℕ, zero, suc, ◌+◌, ◌-◌, ◌*◌, ◌%◌, ◌^◌, Bool, true, false, ◌||◌, Option, none, some, List, [], ◌∷◌,
  ◌==◌, if◌then◌else◌, length, take, drop,
}
use turning_machine_operatin.Compiler.Result.{Result, ok, err, starved, bind}
use turning_machine_operatin.Compiler.Token
use turning_machine_operatin.Compiler.Token.{TokenKind, Token, is_kind}
use turning_machine_operatin.Compiler.Action.{◌>>=◌, ◌>>◌, pure, fail, hungry, when_else}
use turning_machine_operatin.Compiler.Ast.{
  AstKind, AstNode, Source, Parser, Parse, get_pos, advance, set_node, set_left, set_right,
  set_third, set_next, set_op, set_value, link_after, or_default, get_elem?, p_peek_kind, p_match,
  p_expect, p_new_node,
}

-- The digits of a number, in 32 bits.
unfoldable pub p_parse_number : List ℕ → ℕ → ℕ
p_parse_number [] value = value
p_parse_number (ch ∷ rest) value = p_parse_number rest ((value * 10 + (ch - 48)) % 2 ^ 32)

-- Is the kind one of these?
unfoldable pub one_of : List TokenKind → TokenKind → Bool
one_of [] kind = false
one_of (k ∷ ks) kind = is_kind kind k || one_of ks kind

-- `p->tokens[i]`, and the characters of a token.
unfoldable pub token_text : List ℕ → Option Token → List ℕ
token_text src none = []
token_text src (some t) = take t.length (drop t.offset src)

abbrev pub is_type : TokenKind → Bool
is_type kind = is_kind kind TokenKind.kw_int || is_kind kind TokenKind.kw_char

module _ (c : Source) where
  -- The loop over the arguments of a call, up to the closing parenthesis: the first argument.
  unfoldable pub parse_args : Parse ℕ → ℕ → Option ℕ → Option ℕ → Parse (Option ℕ)
  unfolding p_match p_expect link_after
  parse_args expr zero first last = hungry
  parse_args expr (suc fuel) first last = do
    arg ← expr
    link_after last arg
    more ← p_match c TokenKind.comma
    when_else more (parse_args expr fuel (some (or_default first arg)) (some arg))
        (do p_expect c TokenKind.rparen; pure (some (or_default first arg)))

  -- A call with its opening parenthesis read.
  unfoldable pub parse_call : Parse ℕ → ℕ → ℕ → ℕ → Parse ℕ
  unfolding parse_args
  parse_call expr fuel tok_i ident_node = do
    call_node ← p_new_node c AstKind.call tok_i
    set_left call_node (some ident_node)
    empty ← p_match c TokenKind.rparen
    first_arg ← when_else empty (pure none) (parse_args expr fuel none none)
    set_right call_node first_arg
    pure call_node

  unfoldable pub parse_ident : Parse ℕ → ℕ → ℕ → Parse ℕ
  unfolding parse_call
  parse_ident expr fuel tok_i = do
    ident_node ← p_new_node c AstKind.ident tok_i
    opened ← p_match c TokenKind.lparen
    when_else opened (parse_call expr fuel tok_i ident_node) (pure ident_node)

  unfoldable pub parse_paren : Parse ℕ → Parse ℕ
  parse_paren expr = do inner ← expr; p_expect c TokenKind.rparen; pure inner

  unfoldable pub parse_literal : ℕ → Parse ℕ
  unfolding token_text p_parse_number
  parse_literal tok_i = do
    node ← p_new_node c AstKind.literal tok_i
    set_value node (p_parse_number (token_text c.src (get_elem? c.tokens tok_i)) 0)
    pure node

  unfoldable pub p_parse_primary : Parse ℕ → ℕ → Parse ℕ
  unfolding parse_ident parse_paren parse_literal
  p_parse_primary expr fuel = do
    tok_i ← get_pos
    is_number ← p_match c TokenKind.number
    when_else is_number (parse_literal tok_i) (do
      is_char ← p_match c TokenKind.char
      is_string ← when_else is_char (pure true) (p_match c TokenKind.string)
      when_else is_string (p_new_node c AstKind.literal tok_i) (do
        is_ident ← p_match c TokenKind.ident
        when_else is_ident (parse_ident expr fuel tok_i)
            (do is_paren ← p_match c TokenKind.lparen; when_else is_paren (parse_paren expr) fail)))

  unfoldable pub p_parse_unary : Parse ℕ → ℕ → Parse ℕ
  unfolding p_parse_primary one_of
  p_parse_unary expr zero = hungry
  p_parse_unary expr (suc fuel) = do
    tok_i ← get_pos
    op ← p_peek_kind c
    when_else (one_of (TokenKind.not ∷ TokenKind.minus ∷ TokenKind.plus ∷ []) op)
        (do
          advance
          rhs ← p_parse_unary expr fuel
          node ← p_new_node c AstKind.unop tok_i
          set_op node op
          set_left node (some rhs)
          pure node)
        (p_parse_primary expr fuel)

  -- The loop of `p_parse_bin_ltr`, with the left operand read.
  unfoldable pub bin_loop : Parse ℕ → List TokenKind → ℕ → ℕ → Parse ℕ
  unfolding one_of
  bin_loop sub ops zero lhs = hungry
  bin_loop sub ops (suc fuel) lhs = do
    op ← p_peek_kind c
    when_else (one_of ops op)
        (do
          advance
          rhs ← sub
          pos ← get_pos
          node ← p_new_node c AstKind.binop (pos - 1)
          set_op node op
          set_left node (some lhs)
          set_right node (some rhs)
          bin_loop sub ops fuel node)
        (pure lhs)

  unfoldable pub p_parse_bin_ltr : Parse ℕ → List TokenKind → ℕ → Parse ℕ
  unfolding bin_loop
  p_parse_bin_ltr sub ops fuel = do lhs ← sub; bin_loop sub ops fuel lhs

  module _ (expr : Parse ℕ) (fuel : ℕ) where
    unfoldable pub p_parse_mul : Parse ℕ
    unfolding p_parse_bin_ltr p_parse_unary
    p_parse_mul =
        p_parse_bin_ltr (p_parse_unary expr fuel)
          (TokenKind.star ∷ TokenKind.slash ∷ TokenKind.percent ∷ []) fuel

    unfoldable pub p_parse_add : Parse ℕ
    unfolding p_parse_bin_ltr p_parse_mul
    p_parse_add = p_parse_bin_ltr p_parse_mul (TokenKind.plus ∷ TokenKind.minus ∷ []) fuel

    unfoldable pub p_parse_rel : Parse ℕ
    unfolding p_parse_bin_ltr p_parse_add
    p_parse_rel =
        p_parse_bin_ltr p_parse_add (TokenKind.lt ∷ TokenKind.le ∷ TokenKind.gt ∷ TokenKind.ge ∷ [])
          fuel

    unfoldable pub p_parse_eq : Parse ℕ
    unfolding p_parse_bin_ltr p_parse_rel
    p_parse_eq = p_parse_bin_ltr p_parse_rel (TokenKind.eq ∷ TokenKind.ne ∷ []) fuel

    unfoldable pub p_parse_and : Parse ℕ
    unfolding p_parse_bin_ltr p_parse_eq
    p_parse_and = p_parse_bin_ltr p_parse_eq (TokenKind.and_and ∷ []) fuel

    unfoldable pub p_parse_or : Parse ℕ
    unfolding p_parse_bin_ltr p_parse_and
    p_parse_or = p_parse_bin_ltr p_parse_and (TokenKind.or_or ∷ []) fuel

  -- The source makes the node before it looks whether the right side failed, and fails then.
  unfoldable pub p_parse_assign : Parse ℕ → ℕ → Parse ℕ
  unfolding p_parse_or
  p_parse_assign expr zero = hungry
  p_parse_assign expr (suc fuel) = do
    lhs ← p_parse_or expr (suc fuel)
    assigns ← p_match c TokenKind.assign
    when_else assigns
        (do
          rhs ← p_parse_assign expr fuel
          pos ← get_pos
          node ← p_new_node c AstKind.assign (pos - 1)
          set_left node (some lhs)
          set_right node (some rhs)
          pure node)
        (pure lhs)

  unfoldable pub p_parse_expr : ℕ → Parse ℕ
  unfolding p_parse_assign
  p_parse_expr zero = hungry
  p_parse_expr (suc fuel) = p_parse_assign (p_parse_expr fuel) (suc fuel)
