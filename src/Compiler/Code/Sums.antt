-- ===== src/Compiler/Code/Sums.antt =====
-- The code of sums and differences of literals from `cg_expr` of src/compiler/compiler.c: what is
-- emitted, and what the processor of src/emu/cpu.c makes of it.
use turning_machine_operatin.Base.{
  ℕ, zero, suc, ◌+◌, ◌%◌, ◌≤◌, ◌≡◌, refl, ◌∙◌, ap, false, Option, none, some, List, [], ◌∷◌, ◌++◌,
  length, length-append, leb, arith, sub8, u8,
}
use turning_machine_operatin.Compiler.Result.{ok}
use turning_machine_operatin.Compiler.Action.{fail}
use turning_machine_operatin.Compiler.Token.{TokenKind}
use turning_machine_operatin.Compiler.Ast.{AstKind, AstNode, get_elem?}
use turning_machine_operatin.Compiler.Code.{Program, Codegen, Generate, cg_emit1, emit_all}
use turning_machine_operatin.Compiler.Code.Instructions.{Regs}
use turning_machine_operatin.Compiler.Code.Binop.{keep_left, operator_code, cg_binop}
use turning_machine_operatin.Compiler.Code.Expr.{expr_case, unop_code, cg_expr}

-- An expression of literals, `+` and `-`, also before one operand, as it is written.
pub data Sum : Type 0 where
  lit : ℕ → Sum
  neg : Sum → Sum
  plus minus : Sum → Sum → Sum

-- The code between the operands is MOV B,A, and that behind them ADD B or MOV C,A; MOV A,B; SUB C;
-- that of a negation is MOV C,A; MVI A,0; SUB C.
unfoldable pub sum_code : Sum → List ℕ
sum_code (lit v) = 0x3E ∷ v ∷ []
sum_code (neg x) = sum_code x ++ (0x4F ∷ 0x3E ∷ 0x00 ∷ 0x91 ∷ [])
sum_code (plus x y) = sum_code x ++ ((0x47 ∷ []) ++ (sum_code y ++ (0x80 ∷ [])))
sum_code (minus x y) = sum_code x ++ ((0x47 ∷ []) ++ (sum_code y ++ (0x4F ∷ 0x78 ∷ 0x91 ∷ [])))

-- The number of instructions.
unfoldable pub sum_steps : Sum → ℕ
sum_steps (lit v) = 1
sum_steps (neg x) = sum_steps x + 3
sum_steps (plus x y) = sum_steps x + (1 + (sum_steps y + 1))
sum_steps (minus x y) = sum_steps x + (1 + (sum_steps y + 3))

-- What the code makes of the registers: the left value waits in B, which the right operand's own
-- code may change.
unfoldable pub sum_regs : Sum → Regs → Regs
sum_regs (lit v) r = record r { a = v }
sum_regs (neg x) r = let right = sum_regs x r in record right { a = sub8 0 right.a; c = right.a }
sum_regs (plus x y) r =
    let left = sum_regs x r in
    let right = sum_regs y (record left { b = left.a }) in
    record right { a = (right.a + right.b) % 256 }
sum_regs (minus x y) r =
    let left = sum_regs x r in
    let right = sum_regs y (record left { b = left.a }) in
    record right { a = sub8 right.b right.a; c = right.a }

-- How deep the calls of `cg_expr` nest.
unfoldable pub sum_depth : Sum → ℕ
sum_depth (lit v) = 1
sum_depth (neg x) = suc (sum_depth x)
sum_depth (plus x y) = suc (sum_depth x + sum_depth y)
sum_depth (minus x y) = suc (sum_depth x + sum_depth y)

sum_depth_pos : (s : Sum) → 1 ≤ sum_depth s
unfolding sum_depth
sum_depth_pos (lit v) = omega arith
sum_depth_pos (neg x) = omega arith
sum_depth_pos (plus x y) = omega arith
sum_depth_pos (minus x y) = omega arith

-- A node of the program's tree, by its kind and operator, with its two operands.
pub record IsOperator (c : Program) (i l r : ℕ) (op : TokenKind) : Type 0 where
  pub node : AstNode
  pub found : get_elem? c.nodes i ≡ some node
  pub is_binop : node.kind ≡ AstKind.binop
  pub is_op : node.op ≡ op
  pub is_left : node.left ≡ some l
  pub is_right : node.right ≡ some r

pub record IsNegation (c : Program) (i l : ℕ) : Type 0 where
  pub node : AstNode
  pub found : get_elem? c.nodes i ≡ some node
  pub is_unop : node.kind ≡ AstKind.unop
  pub is_op : node.op ≡ TokenKind.minus
  pub is_left : node.left ≡ some l

pub record IsLiteral (c : Program) (i v : ℕ) : Type 0 where
  pub node : AstNode
  pub found : get_elem? c.nodes i ≡ some node
  pub is_literal : node.kind ≡ AstKind.literal
  pub is_value : u8 node.value ≡ v

-- The tree from node `i` on is the expression.
pub data Stands (c : Program) : ℕ → Sum → Type 0 where
  stands_lit : {i v : ℕ} → IsLiteral c i v → Stands c i (lit v)
  stands_neg : {i l : ℕ} {x : Sum} → IsNegation c i l → Stands c l x → Stands c i (neg x)
  stands_plus :
      {i l r : ℕ} {x y : Sum}
      → IsOperator c i l r TokenKind.plus
      → Stands c l x
      → Stands c r y
      → Stands c i (plus x y)
  stands_minus :
      {i l r : ℕ} {x y : Sum}
      → IsOperator c i l r TokenKind.minus
      → Stands c l x
      → Stands c r y
      → Stands c i (minus x y)

abbrev pub appended : Codegen → List ℕ → Codegen
appended g bs = record g { buf = g.buf ++ bs }

append_assoc : (xs ys zs : List ℕ) → (xs ++ ys) ++ zs ≡ xs ++ (ys ++ zs)
append_assoc [] ys zs = refl
append_assoc (x ∷ xs) ys zs = ap (λ t. x ∷ t) (append_assoc xs ys zs)

append-nil : (xs : List ℕ) → xs ++ [] ≡ xs
append-nil [] = refl
append-nil (x ∷ xs) = ap (λ t. x ∷ t) (append-nil xs)

-- With room in the buffer, bytes are emitted behind what is there.
pub emit_all_lem :
    (c : Program) (bs : List ℕ) (g : Codegen)
    → length g.buf + length bs ≤ c.cap
    → emit_all c bs g ≡ ok (tt, appended g bs)
unfolding emit_all cg_emit1
emit_all_lem c [] g room = rw (append-nil g.buf) refl
emit_all_lem c (b ∷ bs) g room =
    let one : leb c.cap (length g.buf) ≡ false = ground arith in
    let longer = length-append g.buf (b ∷ []) in
    rw (one, emit_all_lem c bs (appended g (b ∷ [])) (omega arith), append_assoc g.buf (b ∷ []) bs)
      refl

cg_expr_found :
    (c : Program) (fuel i : ℕ) (n : AstNode) (g : Codegen)
    → get_elem? c.nodes i ≡ some n
    → cg_expr c (suc fuel) (some i) g ≡ expr_case c (cg_expr c fuel) fuel i n n.kind g
unfolding cg_expr
cg_expr_found c fuel i n g e =
    let at : Option AstNode → Generate (Unit {0}) =
      λ o. elim o [ none ↦ fail | some k ↦ expr_case c (cg_expr c fuel) fuel i k k.kind ] in
    ap (λ o. at o g) e

-- The code of an operator: that of the left operand, MOV B,A, that of the right one, and what
-- `operator_code` emits.
binop_code :
    (c : Program) (fuel i l r : ℕ) (op : TokenKind) (xs ys zs : List ℕ) (g : Codegen)
    → IsOperator c i l r op
    → ((k : Codegen) → keep_left c op k ≡ ok (tt, k))
    → ((k : Codegen) → operator_code c op k ≡ emit_all c zs k)
    → cg_expr c fuel (some l) g ≡ ok (tt, appended g xs)
    → ((k : Codegen)
        → length k.buf + length ys ≤ c.cap
        → cg_expr c fuel (some r) k ≡ ok (tt, appended k ys))
    → length g.buf + length (xs ++ ((0x47 ∷ []) ++ (ys ++ zs))) ≤ c.cap
    → cg_expr c (suc fuel) (some i) g ≡ ok (tt, appended g (xs ++ ((0x47 ∷ []) ++ (ys ++ zs))))
unfolding cg_expr expr_case cg_binop
binop_code c fuel i l r op xs ys zs g o keeps emits left right room =
    let n = o.node in
    let g₁ = appended g xs in
    let g₂ = appended g₁ (0x47 ∷ []) in
    let g₃ = appended g₂ ys in
    let whole = length-append xs ((0x47 ∷ []) ++ (ys ++ zs)) in
    let inner = length-append ys zs in
    let l₁ = length-append g.buf xs in
    let l₂ = length-append g₁.buf (0x47 ∷ []) in
    let l₃ = length-append g₂.buf ys in
    let moved = emit_all_lem c (0x47 ∷ []) g₁ (omega arith) in
    let last = emit_all_lem c zs g₃ (omega arith) in
    cg_expr_found c fuel i n g o.found
    ∙ rw
        (
          o.is_binop,
          o.is_left,
          o.is_op,
          o.is_right,
          left,
          keeps g₁,
          moved,
          right g₂ (omega arith),
          emits g₃,
          last,
        )
        (ap (λ t. ok (tt, record g { buf = t }))
          (append_assoc g₂.buf ys zs
            ∙ append_assoc g₁.buf (0x47 ∷ []) (ys ++ zs)
            ∙ append_assoc g.buf xs ((0x47 ∷ []) ++ (ys ++ zs))))

-- What `cg_expr` emits for the expression.
pub cg_expr-code :
    (c : Program) (s : Sum) (i fuel : ℕ) (g : Codegen)
    → Stands c i s
    → sum_depth s ≤ fuel
    → length g.buf + length (sum_code s) ≤ c.cap
    → cg_expr c fuel (some i) g ≡ ok (tt, appended g (sum_code s))
unfolding sum_code sum_depth expr_case unop_code keep_left operator_code
cg_expr-code c s i zero g st deep room = absurd (omega (arith, sum_depth_pos s))
cg_expr-code c (lit v) i (suc fuel) g (stands_lit h) deep room =
    cg_expr_found c fuel i h.node g h.found
    ∙ rw (h.is_literal, h.is_value) (emit_all_lem c (0x3E ∷ v ∷ []) g room)
cg_expr-code c (neg x) i (suc fuel) g (stands_neg {l = l} o sx) deep room =
    let zs : List ℕ = 0x4F ∷ 0x3E ∷ 0x00 ∷ 0x91 ∷ [] in
    let whole = length-append (sum_code x) zs in
    let l₁ = length-append g.buf (sum_code x) in
    let operand = cg_expr-code c x l fuel g sx (omega arith) (omega arith) in
    let last = emit_all_lem c zs (appended g (sum_code x)) (omega arith) in
    cg_expr_found c fuel i o.node g o.found
    ∙ rw (o.is_unop, o.is_left, o.is_op, operand, last)
        (ap (λ t. ok (tt, record g { buf = t })) (append_assoc g.buf (sum_code x) zs))
cg_expr-code c (plus x y) i (suc fuel) g (stands_plus {l = l} {r = r} o sx sy) deep room =
    let whole = length-append (sum_code x) ((0x47 ∷ []) ++ (sum_code y ++ (0x80 ∷ []))) in
    binop_code c fuel i l r TokenKind.plus (sum_code x) (sum_code y) (0x80 ∷ []) g o (λ k. refl)
      (λ k. refl) (cg_expr-code c x l fuel g sx (omega arith) (omega arith))
      (λ k fits. cg_expr-code c y r fuel k sy (omega arith) fits) room
cg_expr-code c (minus x y) i (suc fuel) g (stands_minus {l = l} {r = r} o sx sy) deep room =
    let zs : List ℕ = 0x4F ∷ 0x78 ∷ 0x91 ∷ [] in
    let whole = length-append (sum_code x) ((0x47 ∷ []) ++ (sum_code y ++ zs)) in
    binop_code c fuel i l r TokenKind.minus (sum_code x) (sum_code y) zs g o (λ k. refl) (λ k. refl)
      (cg_expr-code c x l fuel g sx (omega arith) (omega arith))
      (λ k fits. cg_expr-code c y r fuel k sy (omega arith) fits) room
