-- ===== src/Compiler/Code/Expr.antt =====
-- `cg_expr` of src/compiler/compiler.c, with the calls that it knows by name. A call of itself, and
-- a step along a list of arguments, takes a unit of fuel.
use turning_machine_operatin.Base.{
  ℕ, zero, suc, ◌+◌, ◌-◌, Bool, true, false, ◌&&◌, ◌||◌, Option, none, some, List, [], ◌∷◌, leb,
  ◌==◌, if◌then◌else◌, take, drop, same_bytes, codes, u8,
}
use turning_machine_operatin.Compiler.Result.{err}
use turning_machine_operatin.Compiler.Action.{◌>>=◌, ◌>>◌, pure, fail, hungry, when_else}
use turning_machine_operatin.Compiler.Token.{TokenKind, Token, is_kind}
use turning_machine_operatin.Compiler.Ast.{AstKind, AstNode, get_elem?}
use turning_machine_operatin.Compiler.Code.{
  Function, Program, Generate, emit_all, cg_emit_jump_placeholder, cg_patch_jump,
  cg_emit_bios_conout_a, cg_emit_boolify_a,
}
use turning_machine_operatin.Compiler.Code.Symbols.{
  is_ident, node_token, cg_ident_name, cg_symbol_resolve, cg_emit_load_ref, cg_emit_store_ref,
  cg_find_function, cg_add_pending_call,
}
use turning_machine_operatin.Compiler.Code.Binop.{cg_binop}

-- The character that an escape stands for: one that is not known stands for its backslash.
unfoldable pub escaped : ℕ → ℕ
escaped esc =
    if esc == b'n'
    then 10
    else if esc == b'r'
    then 13
    else if esc == b't'
    then 9
    else if esc == 92 || (esc == 34 || esc == 39)
    then esc
    else 92

-- The characters of a string between its quotes, with the escapes read.
unfoldable pub unescape : List ℕ → List ℕ
unfolding escaped
unescape [] = []
unescape (ch ∷ []) = ch ∷ []
unescape (ch ∷ (esc ∷ rest)) =
    let after_escape = unescape rest in
    let after_one = unescape (esc ∷ rest) in
    if ch == 92 then escaped esc ∷ after_escape else ch ∷ after_one

-- Is the node a literal with a string token of two characters or more?
unfoldable pub is_string_literal : AstNode → Token → Bool
is_string_literal n t = elim n.kind [
  | AstKind.literal ↦ is_kind t.kind TokenKind.string && leb 2 t.length
  | _ ↦ false
]

-- The address of the slot, where the function has been generated.
unfoldable pub function_addr : List Function → ℕ → Option ℕ
function_addr functions i = elim (get_elem? functions i) [ none ↦ none | some f ↦ f.addr ]

module _ (c : Program) where
  -- MVI A,ch; and the call that prints it, for each character.
  unfoldable pub print_all : List ℕ → Generate (Unit {0})
  unfolding emit_all cg_emit_bios_conout_a
  print_all [] = pure tt
  print_all (ch ∷ rest) = do emit_all c (0x3E ∷ ch ∷ []); cg_emit_bios_conout_a c; print_all rest

  unfoldable pub cg_emit_puts_string_literal : ℕ → Generate (Unit {0})
  unfolding node_token is_string_literal unescape print_all emit_all
  cg_emit_puts_string_literal lit_idx = elim (node_token c lit_idx) [
    | none ↦ fail
    | some (n, t) ↦
        when_else (is_string_literal n t)
          (do
            print_all (unescape (take (t.length - 2) (drop (t.offset + 1) c.src)))
            print_all (10 ∷ [])
            emit_all c (0x3E ∷ 0x00 ∷ []))
          fail
  ]

  -- `cg->nodes[i].next`
  unfoldable pub next_of : ℕ → Option ℕ
  next_of i = elim (get_elem? c.nodes i) [ none ↦ none | some n ↦ n.next ]

  -- The kind of a call's callee and of an assignment's target.
  unfoldable pub ident_at : Option ℕ → Bool
  unfolding is_ident
  ident_at none = false
  ident_at (some i) = elim (get_elem? c.nodes i) [ none ↦ false | some n ↦ is_ident n ]

  -- MVI A,number; OUT 1
  unfoldable pub bios_call : ℕ → Generate (Unit {0})
  unfolding emit_all
  bios_call number = emit_all c (0x3E ∷ number ∷ 0xD3 ∷ 0x01 ∷ [])

  -- MVI A,0
  unfoldable pub clear_a : Generate (Unit {0})
  unfolding emit_all
  clear_a = emit_all c (0x3E ∷ 0x00 ∷ [])

  -- A call that takes no argument, and gives 0.
  unfoldable pub call_without : Option ℕ → ℕ → Generate (Unit {0})
  unfolding bios_call clear_a
  call_without none number = do bios_call number; clear_a
  call_without (some arg) number = fail

  -- The one argument of a call, and what follows it.
  unfoldable pub call_with :
      (Option ℕ → Generate (Unit {0})) → Option ℕ → Generate (Unit {0}) → Generate (Unit {0})
  unfolding next_of
  call_with expr none rest = fail
  call_with expr (some arg) rest = do
    expr (some arg)
    elim (next_of arg) [ none ↦ rest | some more ↦ fail ]

  unfoldable pub puts_call : Option ℕ → Generate (Unit {0})
  unfolding cg_emit_puts_string_literal next_of
  puts_call none = fail
  puts_call (some arg) = elim (next_of arg) [
    | none ↦ cg_emit_puts_string_literal arg
    | some more ↦ fail
  ]

  -- Each argument is generated; none is passed.
  unfoldable pub arg_loop : (Option ℕ → Generate (Unit {0})) → ℕ → Option ℕ → Generate (Unit {0})
  unfolding next_of
  arg_loop expr fuel none = pure tt
  arg_loop expr zero (some arg) = hungry
  arg_loop expr (suc fuel) (some arg) = do expr (some arg); arg_loop expr fuel (next_of arg)

  -- CALL to a function of the program: at its address, or to be patched at the end.
  unfoldable pub emit_call : List ℕ → Generate (Unit {0})
  unfolding cg_emit_jump_placeholder cg_find_function function_addr cg_patch_jump
      cg_add_pending_call
  emit_call callee = do
    call_patch ← cg_emit_jump_placeholder c 0xCD
    λ g. elim (cg_find_function callee g) [
      | none ↦ err
      | some fidx ↦ elim (function_addr g.functions fidx) [
        | some addr ↦ cg_patch_jump c call_patch addr g
        | none ↦ cg_add_pending_call callee call_patch g
      ]
    ]

  unfoldable pub cg_call :
      (Option ℕ → Generate (Unit {0})) → ℕ → List ℕ → Option ℕ → Generate (Unit {0})
  unfolding bios_call clear_a call_without call_with puts_call arg_loop emit_call emit_all
      cg_emit_bios_conout_a
  cg_call expr fuel callee arg =
      if same_bytes callee (codes "getchar")
      then bios_call 0x01
      else if same_bytes callee (codes "putchar")
      then call_with expr arg (cg_emit_bios_conout_a c)
      else if same_bytes callee (codes "puts")
      then puts_call arg
      else if same_bytes callee (codes "listdir")
      then call_without arg 0x0F
      else if same_bytes callee (codes "namech")
      then call_with expr arg (do emit_all c (0x4F ∷ []); bios_call 0x12; clear_a)
      else if same_bytes callee (codes "namend")
      then call_without arg 0x13
      else if same_bytes callee (codes "runend")
      then call_without arg 0x14
      else if same_bytes callee (codes "delend")
      then call_without arg 0x15
      else if same_bytes callee (codes "ccend")
      then call_without arg 0x16
      else if same_bytes callee (codes "readline")
      then call_without arg 0x17
      else if same_bytes callee (codes "lineget")
      then call_with expr arg (do emit_all c (0x4F ∷ []); bios_call 0x18)
      else if same_bytes callee (codes "linelen")
      then elim arg [ none ↦ bios_call 0x19 | some extra ↦ fail ]
      else (do arg_loop expr fuel arg; emit_call callee)

  -- The switch of the unary operators, after the operand.
  unfoldable pub unop_code : TokenKind → Generate (Unit {0})
  unfolding emit_all cg_emit_boolify_a
  unop_code TokenKind.plus = pure tt
  unop_code TokenKind.minus = emit_all c (0x4F ∷ 0x3E ∷ 0x00 ∷ 0x91 ∷ [])
  unop_code TokenKind.not = do cg_emit_boolify_a c; emit_all c (0xEE ∷ 0x01 ∷ [])
  unop_code _ = fail

  unfoldable pub cg_assign :
      (Option ℕ → Generate (Unit {0})) → Option ℕ → Option ℕ → Generate (Unit {0})
  unfolding ident_at cg_symbol_resolve cg_emit_store_ref
  cg_assign expr left right =
      when_else (ident_at left)
        (do expr right; ref ← cg_symbol_resolve c left false true; cg_emit_store_ref c ref) fail

  -- The switch over the kind of a node.
  unfoldable pub expr_case :
      (Option ℕ → Generate (Unit {0})) → ℕ → ℕ → AstNode → AstKind → Generate (Unit {0})
  unfolding emit_all cg_binop cg_symbol_resolve cg_emit_load_ref cg_assign ident_at cg_ident_name
      cg_call unop_code
  expr_case expr fuel i n AstKind.literal = emit_all c (0x3E ∷ u8 n.value ∷ [])
  expr_case expr fuel i n AstKind.binop = cg_binop c expr n.left n.op n.right
  expr_case expr fuel i n AstKind.ident = do
    ref ← cg_symbol_resolve c (some i) false false
    cg_emit_load_ref c ref
  expr_case expr fuel i n AstKind.assign = cg_assign expr n.left n.right
  expr_case expr fuel i n AstKind.call =
      when_else (ident_at n.left)
        (do callee ← cg_ident_name c n.left; cg_call expr fuel callee n.right) fail
  expr_case expr fuel i n AstKind.unop = do expr n.left; unop_code n.op
  expr_case expr fuel i n _ = fail

  unfoldable pub cg_expr : ℕ → Option ℕ → Generate (Unit {0})
  unfolding expr_case
  cg_expr zero idx = hungry
  cg_expr (suc fuel) none = fail
  cg_expr (suc fuel) (some i) = elim (get_elem? c.nodes i) [
    | none ↦ fail
    | some n ↦ expr_case (cg_expr fuel) fuel i n n.kind
  ]
