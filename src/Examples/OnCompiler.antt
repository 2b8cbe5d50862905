-- ===== src/Examples/OnCompiler.antt =====
-- The compiler on small programs.
use turning_machine_operatin.Base.{
  ℕ, List, [], ◌∷◌, length, ◌≤◌, codes, ◌≡◌, refl, none, some, arith, u8, same_bytes,
}
use turning_machine_operatin.Compiler.Result.{ok, Yields}
use turning_machine_operatin.Compiler.Token.{TokenKind, Token}
use turning_machine_operatin.Compiler.Ast.{
  AstKind, AstNode, blank_node, get_elem?, p_new_node, p_peek_kind, p_expect, set_node,
}
use turning_machine_operatin.Mem.{mem_read}
use turning_machine_operatin.Cpu.Step.{steps}
use turning_machine_operatin.Cpu.State.{Machine, cpu_init}
use turning_machine_operatin.Compiler.Code.{Program, Codegen}
use turning_machine_operatin.Compiler.Code.Expr.{cg_expr}
use turning_machine_operatin.Compiler.Code.Instructions.{Regs}
use turning_machine_operatin.Compiler.Code.Sums.{
  Sum, lit, plus, minus, sum_code, sum_steps, Stands, IsOperator, IsLiteral, sum_depth, stands_lit,
  stands_plus, stands_minus, appended,
}
use turning_machine_operatin.Compiler.Code.Computes.{
  cg_expr-value, cg_expr-nested, nested, sum_value, IsSum, IsFlat, IsLeaf,
}
use turning_machine_operatin.Compiler.Lexer.{cc_lex}
use turning_machine_operatin.Compiler.Lexer.Spans.{Spans, cc_lex-Spans}
use turning_machine_operatin.Compiler.Parser.{p_parse_expr}
use turning_machine_operatin.Compiler.Parser.Links.{IsLinked}
use turning_machine_operatin.Compiler.Parser.Decls.{cc_parse-IsLinked}
use turning_machine_operatin.Compiler.Parser.Stmt.{cc_parse}

abbrev program : List ℕ
program =
    105 ∷ 110 ∷ 116 ∷ 32 ∷ 109 ∷ 97 ∷ 105 ∷ 110 ∷ 40 ∷ 41 ∷ 32 ∷ 123 ∷ 32 ∷ 105 ∷ 110 ∷ 116 ∷ 32
    ∷ 120 ∷ 32 ∷ 61 ∷ 32 ∷ 51 ∷ 59 ∷ 32 ∷ 114 ∷ 101 ∷ 116 ∷ 117 ∷ 114 ∷ 110 ∷ 32 ∷ 120 ∷ 32 ∷ 43
    ∷ 32 ∷ 50 ∷ 32 ∷ 42 ∷ 32 ∷ 40 ∷ 52 ∷ 32 ∷ 45 ∷ 32 ∷ 120 ∷ 41 ∷ 59 ∷ 32 ∷ 125 ∷ []

-- Its tokens.
abbrev tokens : List Token
tokens = elim (cc_lex program 4096) [ ok ts ↦ ts | _ ↦ [] ]

cc_parse-IsLinked_example :
    Yields (λ ns. IsLinked ns × (1 ≤ length ns) × (length ns ≤ 8192)) (cc_parse program tokens 8192)
cc_parse-IsLinked_example = cc_parse-IsLinked program tokens 8192

cc_lex-Spans_example :
    Yields (λ ts. Spans 0 ts (length program) × (length ts ≤ 4096)) (cc_lex program 4096)
cc_lex-Spans_example = cc_lex-Spans program 4096

-- `int main() { return 9 - 2 + 3; }` and `int main() { return 1 + (2 + 3); }`
abbrev flat_program : List ℕ
flat_program = codes "int main() { return 9 - 2 + 3; }"

abbrev nested_program : List ℕ
nested_program = codes "int main() { return 1 + (2 + 3); }"

abbrev tokens_of : List ℕ → List Token
tokens_of src = elim (cc_lex src 4096) [ ok ts ↦ ts | _ ↦ [] ]

abbrev whole : List ℕ → Program
whole src = record {
  nodes = elim (cc_parse src (tokens_of src) 8192) [ ok ns ↦ ns | _ ↦ [] ];
  src = src;
  tokens = tokens_of src;
  cap = 16384;
}

abbrev flat_nodes : List AstNode
flat_nodes = (whole flat_program).nodes

abbrev nested_nodes : List AstNode
nested_nodes = (whole nested_program).nodes

abbrev empty : Codegen
empty = record {
  buf = [];
  next_global_addr = 0x2000;
  globals = [];
  locals = [];
  functions = [];
  pending_calls = [];
}

-- The bytes at the start of the tape, before a machine that has just been reset.
abbrev loaded : List ℕ → Machine
loaded bs = record { cpu = cpu_init; mem = λ x. elim (get_elem? bs x) [ none ↦ 0 | some b ↦ b ] }

abbrev zeros : Regs
zeros = record { a = 0; b = 0; c = 0 }

-- 9 - 2 + 3
abbrev flat : Sum
flat = plus (minus (lit 9) (lit 2)) (lit 3)

-- A node of a program that is there.
abbrev node_of : List ℕ → ℕ → AstNode
node_of src i = elim (get_elem? (whole src).nodes i) [
  | some n ↦ n
  | none ↦ blank_node AstKind.unknown 0
]

abbrev operator :
    (src : List ℕ) (i l r : ℕ) (op : TokenKind)
    → get_elem? (whole src).nodes i ≡ some (node_of src i)
    → (node_of src i).kind ≡ AstKind.binop
    → (node_of src i).op ≡ op
    → (node_of src i).left ≡ some l
    → (node_of src i).right ≡ some r
    → IsOperator (whole src) i l r op
operator src i l r op f k o x y = record {
  node = node_of src i;
  found = f;
  is_binop = k;
  is_op = o;
  is_left = x;
  is_right = y;
}

abbrev literal :
    (src : List ℕ) (i v : ℕ)
    → get_elem? (whole src).nodes i ≡ some (node_of src i)
    → (node_of src i).kind ≡ AstKind.literal
    → u8 (node_of src i).value ≡ v
    → IsLiteral (whole src) i v
literal src i v f k e = record { node = node_of src i; found = f; is_literal = k; is_value = e }

flat-Stands : Stands (whole flat_program) 9 flat
unfolding cc_parse cc_lex p_new_node p_peek_kind same_bytes p_expect set_node p_parse_expr
    blank_node
flat-Stands =
    stands_plus (operator flat_program 9 7 8 TokenKind.plus refl refl refl refl refl)
      (stands_minus (operator flat_program 7 5 6 TokenKind.minus refl refl refl refl refl)
        (stands_lit (literal flat_program 5 9 refl refl refl))
        (stands_lit (literal flat_program 6 2 refl refl refl)))
      (stands_lit (literal flat_program 8 3 refl refl refl))

nested-Stands : Stands (whole nested_program) 9 (nested (lit 1) 2 3)
unfolding cc_parse cc_lex p_new_node p_peek_kind same_bytes p_expect set_node p_parse_expr
    blank_node
nested-Stands =
    stands_plus (operator nested_program 9 5 8 TokenKind.plus refl refl refl refl refl)
      (stands_lit (literal nested_program 5 1 refl refl refl))
      (stands_plus (operator nested_program 8 6 7 TokenKind.plus refl refl refl refl refl)
        (stands_lit (literal nested_program 6 2 refl refl refl))
        (stands_lit (literal nested_program 7 3 refl refl refl)))

cg_expr-value_example :
    (cg_expr (whole flat_program) 20 (some 9) empty ≡ ok (tt, appended empty (sum_code flat)))
    × ((steps (sum_steps flat) (loaded (sum_code flat))).cpu.a ≡ sum_value flat)
unfolding sum_code sum_depth IsSum IsFlat IsLeaf cpu_init mem_read
cg_expr-value_example =
    cg_expr-value (whole flat_program) flat 9 20 empty 0 zeros (loaded (sum_code flat)) flat-Stands
      ((tt, tt), tt) ((omega arith, omega arith), omega arith) (omega arith) (omega arith)
      (omega arith, omega arith, omega arith) (omega arith)
      (
        refl,
        (refl, (refl, (refl, (refl, (refl, (refl, (refl, (refl, (refl, (refl, (refl, tt))))))))))),
      )
      (refl, refl, refl, refl, refl, refl)

cg_expr-nested_example :
    (cg_expr (whole nested_program) 20 (some 9) empty
      ≡ ok (tt, appended empty (sum_code (nested (lit 1) 2 3))))
    × ((steps (sum_steps (nested (lit 1) 2 3)) (loaded (sum_code (nested (lit 1) 2 3)))).cpu.a ≡ 7)
unfolding sum_code sum_depth IsSum cpu_init mem_read
cg_expr-nested_example =
    cg_expr-nested (whole nested_program) (lit 1) 2 3 9 20 empty 0 zeros
      (loaded (sum_code (nested (lit 1) 2 3))) nested-Stands
      (omega arith, (omega arith, omega arith)) (omega arith) (omega arith)
      (omega arith, omega arith, omega arith) (omega arith)
      (refl, (refl, (refl, (refl, (refl, (refl, (refl, (refl, (refl, (refl, tt))))))))))
      (refl, refl, refl, refl, refl, refl)
