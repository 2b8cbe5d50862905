-- ===== src/Compiler/Code/Computes.antt =====
-- The code of sums and differences from `cg_expr` of src/compiler/compiler.c, run by the processor
-- of src/emu/cpu.c.
use turning_machine_operatin.Base.{
  ℕ, ◌+◌, ◌%◌, ◌<◌, ◌≤◌, ◌≡◌, refl, ap, ◌∙◌, some, List, [], ◌∷◌, ◌++◌, length, length-append,
  arith, sub8,
}
use turning_machine_operatin.Mem.{Tape}
use turning_machine_operatin.Cpu.State.{Machine}
use turning_machine_operatin.Cpu.Step.{steps}
use turning_machine_operatin.Compiler.Result.{ok}
use turning_machine_operatin.Compiler.Code.{Program, Codegen}
use turning_machine_operatin.Compiler.Code.Instructions.{
  Regs, At, Loaded, Loaded-append, steps-add, mvi_a, mov_b_a, mov_c_a, mov_a_b, add_b, sub_c,
}
use turning_machine_operatin.Compiler.Code.Sums.{
  Sum, lit, neg, plus, minus, sum_code, sum_steps, sum_regs, sum_depth, Stands, appended,
  cg_expr-code,
}
use turning_machine_operatin.Compiler.Code.Expr.{cg_expr}

abbrev AreBytes : Regs → Type 0
AreBytes r = (r.a < 256) × (r.b < 256) × (r.c < 256)

-- Every literal is a byte.
unfoldable pub IsSum : Sum → Type 0
IsSum (lit v) = v < 256
IsSum (neg x) = IsSum x
IsSum (plus x y) = IsSum x × IsSum y
IsSum (minus x y) = IsSum x × IsSum y

sum_regs-bytes : (s : Sum) (r : Regs) → IsSum s → AreBytes r → AreBytes (sum_regs s r)
unfolding sum_regs IsSum
sum_regs-bytes (lit v) r h f = (h, f.1, f.2)
sum_regs-bytes (neg x) r h f = let fx = sum_regs-bytes x r h f in (omega arith, fx.1, fx.0)
sum_regs-bytes (plus x y) r h f =
    let fx = sum_regs-bytes x r h.0 f in
    let fy =
      sum_regs-bytes y (record (sum_regs x r) { b = (sum_regs x r).a }) h.1 (fx.0, fx.0, fx.2) in
    (omega arith, fy.1, fy.2)
sum_regs-bytes (minus x y) r h f =
    let fx = sum_regs-bytes x r h.0 f in
    let fy =
      sum_regs-bytes y (record (sum_regs x r) { b = (sum_regs x r).a }) h.1 (fx.0, fx.0, fx.2) in
    (omega arith, fy.1, fy.0)

-- From `p` with `r`, `n` steps lead behind the bytes, with `s`.
abbrev Does : Tape → List ℕ → ℕ → Regs → Regs → Type 0
Does mem bs n r s =
    (p : ℕ) (m : Machine)
    → Loaded mem p bs
    → p + length bs < 65536
    → At mem p r m
    → At mem (p + length bs) s (steps n m)

Does-then :
    (mem : Tape) (xs ys : List ℕ) (n k : ℕ) (r s t : Regs)
    → Does mem xs n r s
    → Does mem ys k s t
    → Does mem (xs ++ ys) (n + k) r t
Does-then mem xs ys n k r s t f g p m l fits here =
    let parts = Loaded-append mem xs ys p l in
    let long = length-append xs ys in
    let same : p + length (xs ++ ys) ≡ p + length xs + length ys = omega arith in
    rw (steps-add n k m, same)
      (g (p + length xs) (steps n m) parts.1 (omega arith) (f p m parts.0 (omega arith) here))

sum_code-Does :
    (mem : Tape) (s : Sum) (r : Regs)
    → IsSum s
    → AreBytes r
    → Does mem (sum_code s) (sum_steps s) r (sum_regs s r)
unfolding sum_code sum_steps sum_regs IsSum steps
sum_code-Does mem (lit v) r h f = λ p m l fits here. mvi_a mem p r m here v l fits
sum_code-Does mem (neg x) r h f =
    let r₁ = sum_regs x r in
    let r₂ : Regs = record r₁ { c = r₁.a } in
    let r₃ : Regs = record r₂ { a = 0 } in
    let r₄ : Regs = record r₁ { a = sub8 0 r₁.a; c = r₁.a } in
    let f₁ = sum_regs-bytes x r h f in
    Does-then mem (sum_code x) (0x4F ∷ 0x3E ∷ 0x00 ∷ 0x91 ∷ []) (sum_steps x) 3 r r₁ r₄
      (sum_code-Does mem x r h f)
      (Does-then mem (0x4F ∷ []) (0x3E ∷ 0x00 ∷ 0x91 ∷ []) 1 2 r₁ r₂ r₄
        (λ p m l fits here. mov_c_a mem p r₁ m here l fits)
        (Does-then mem (0x3E ∷ 0x00 ∷ []) (0x91 ∷ []) 1 1 r₂ r₃ r₄
          (λ p m l fits here. mvi_a mem p r₂ m here 0 l fits)
          (λ p m l fits here. sub_c mem p r₃ m here l fits (omega arith) f₁.0)))
sum_code-Does mem (plus x y) r h f =
    let r₁ = sum_regs x r in
    let r₂ : Regs = record r₁ { b = r₁.a } in
    let r₃ = sum_regs y r₂ in
    let r₄ : Regs = record r₃ { a = (r₃.a + r₃.b) % 256 } in
    let f₁ = sum_regs-bytes x r h.0 f in
    let f₃ = sum_regs-bytes y r₂ h.1 (f₁.0, f₁.0, f₁.2) in
    Does-then mem (sum_code x) ((0x47 ∷ []) ++ (sum_code y ++ (0x80 ∷ []))) (sum_steps x)
      (1 + (sum_steps y + 1)) r r₁ r₄ (sum_code-Does mem x r h.0 f)
      (Does-then mem (0x47 ∷ []) (sum_code y ++ (0x80 ∷ [])) 1 (sum_steps y + 1) r₁ r₂ r₄
        (λ p m l fits here. mov_b_a mem p r₁ m here l fits)
        (Does-then mem (sum_code y) (0x80 ∷ []) (sum_steps y) 1 r₂ r₃ r₄
          (sum_code-Does mem y r₂ h.1 (f₁.0, f₁.0, f₁.2))
          (λ p m l fits here. add_b mem p r₃ m here l fits f₃.0 f₃.1)))
sum_code-Does mem (minus x y) r h f =
    let r₁ = sum_regs x r in
    let r₂ : Regs = record r₁ { b = r₁.a } in
    let r₃ = sum_regs y r₂ in
    let r₄ : Regs = record r₃ { c = r₃.a } in
    let r₅ : Regs = record r₄ { a = r₃.b } in
    let r₆ : Regs = record r₃ { a = sub8 r₃.b r₃.a; c = r₃.a } in
    let f₁ = sum_regs-bytes x r h.0 f in
    let f₃ = sum_regs-bytes y r₂ h.1 (f₁.0, f₁.0, f₁.2) in
    Does-then mem (sum_code x) ((0x47 ∷ []) ++ (sum_code y ++ (0x4F ∷ 0x78 ∷ 0x91 ∷ [])))
      (sum_steps x) (1 + (sum_steps y + 3)) r r₁ r₆ (sum_code-Does mem x r h.0 f)
      (Does-then mem (0x47 ∷ []) (sum_code y ++ (0x4F ∷ 0x78 ∷ 0x91 ∷ [])) 1 (sum_steps y + 3) r₁ r₂
        r₆ (λ p m l fits here. mov_b_a mem p r₁ m here l fits)
        (Does-then mem (sum_code y) (0x4F ∷ 0x78 ∷ 0x91 ∷ []) (sum_steps y) 3 r₂ r₃ r₆
          (sum_code-Does mem y r₂ h.1 (f₁.0, f₁.0, f₁.2))
          (Does-then mem (0x4F ∷ []) (0x78 ∷ 0x91 ∷ []) 1 2 r₃ r₄ r₆
            (λ p m l fits here. mov_c_a mem p r₃ m here l fits)
            (Does-then mem (0x78 ∷ []) (0x91 ∷ []) 1 1 r₄ r₅ r₆
              (λ p m l fits here. mov_a_b mem p r₄ m here l fits)
              (λ p m l fits here. sub_c mem p r₅ m here l fits f₃.1 f₃.0)))))

-- What `cg_expr` emits for an expression of literals, `+` and `-` is loaded and run by the
-- processor: after as many steps as it has instructions the machine stands behind the code, and the
-- registers are those of the expression, the left value of each operator waiting in B while the
-- right operand runs. The tape is unchanged.
pub cg_expr-Computes :
    (c : Program) (s : Sum) (i fuel : ℕ) (g : Codegen) (p : ℕ) (r : Regs) (m : Machine)
    → Stands c i s
    → IsSum s
    → sum_depth s ≤ fuel
    → length g.buf + length (sum_code s) ≤ c.cap
    → (r.a < 256) × (r.b < 256) × (r.c < 256)
    → p + length (sum_code s) < 65536
    → Loaded m.mem p (sum_code s)
    → At m.mem p r m
    → (cg_expr c fuel (some i) g ≡ ok (tt, appended g (sum_code s)))
      × At m.mem (p + length (sum_code s)) (sum_regs s r) (steps (sum_steps s) m)
cg_expr-Computes c s i fuel g p r m st h deep room f fits l here =
    (cg_expr-code c s i fuel g st deep room, sum_code-Does m.mem s r h f p m l fits here)

-- The value of the expression, in eight bits.
unfoldable pub sum_value : Sum → ℕ
sum_value (lit v) = v
sum_value (neg x) = sub8 0 (sum_value x)
sum_value (plus x y) = (sum_value x + sum_value y) % 256
sum_value (minus x y) = sub8 (sum_value x) (sum_value y)

-- A literal, or the negation of one, and so on: its code leaves B alone.
unfoldable pub IsLeaf : Sum → Type 0
IsLeaf (lit v) = Unit {0}
IsLeaf (neg x) = IsLeaf x
IsLeaf (plus x y) = ⊥
IsLeaf (minus x y) = ⊥

-- Is every right operand of this kind?
unfoldable pub IsFlat : Sum → Type 0
unfolding IsLeaf
IsFlat (lit v) = Unit {0}
IsFlat (neg x) = IsFlat x
IsFlat (plus x y) = IsFlat x × IsLeaf y
IsFlat (minus x y) = IsFlat x × IsLeaf y

sum_regs-leaf :
    (s : Sum) (r : Regs) → IsLeaf s → ((sum_regs s r).a ≡ sum_value s) × ((sum_regs s r).b ≡ r.b)
unfolding sum_regs sum_value IsLeaf
sum_regs-leaf (lit v) r h = (refl, refl)
sum_regs-leaf (neg x) r h = let inner = sum_regs-leaf x r h in (ap (λ v. sub8 0 v) inner.0, inner.1)
sum_regs-leaf (plus x y) r h = absurd h
sum_regs-leaf (minus x y) r h = absurd h

sum_regs-value : (s : Sum) (r : Regs) → IsFlat s → (sum_regs s r).a ≡ sum_value s
unfolding sum_regs sum_value IsFlat
sum_regs-value (lit v) r h = refl
sum_regs-value (neg x) r h = ap (λ v. sub8 0 v) (sum_regs-value x r h)
sum_regs-value (plus x y) r h =
    let left = sum_regs-value x r h.0 in
    let right = sum_regs-leaf y (record (sum_regs x r) { b = (sum_regs x r).a }) h.1 in
    omega (arith, left, right.0, right.1)
sum_regs-value (minus x y) r h =
    let left = sum_regs-value x r h.0 in
    let right = sum_regs-leaf y (record (sum_regs x r) { b = (sum_regs x r).a }) h.1 in
    omega (arith, left, right.0, right.1)

-- x + (y + z)
abbrev pub nested : Sum → ℕ → ℕ → Sum
nested x y z = plus x (plus (lit y) (lit z))

sum_regs-nested :
    (x : Sum) (y z : ℕ) (r : Regs) → (sum_regs (nested x y z) r).a ≡ (y + (y + z)) % 256
unfolding sum_regs
sum_regs-nested x y z r = omega arith

-- Where the tree at a node is an expression of byte literals, `+` and `-`, also before one
-- operand, with no two-sided operator in a right operand, and the fuel and the buffer are large enough, `cg_expr` emits code that leaves the
-- value of the expression in A, when a running machine with bytes in A, B and C has it on its tape
-- at the program counter, with no wrap of addresses.
pub cg_expr-value :
    (c : Program) (s : Sum) (i fuel : ℕ) (g : Codegen) (p : ℕ) (r : Regs) (m : Machine)
    → Stands c i s
    → IsFlat s
    → IsSum s
    → sum_depth s ≤ fuel
    → length g.buf + length (sum_code s) ≤ c.cap
    → (r.a < 256) × (r.b < 256) × (r.c < 256)
    → p + length (sum_code s) < 65536
    → Loaded m.mem p (sum_code s)
    → At m.mem p r m
    → (cg_expr c fuel (some i) g ≡ ok (tt, appended g (sum_code s)))
      × ((steps (sum_steps s) m).cpu.a ≡ sum_value s)
cg_expr-value c s i fuel g p r m st flat h deep room f fits l here =
    let run = cg_expr-Computes c s i fuel g p r m st h deep room f fits l here in
    (run.0, run.1.3 ∙ sum_regs-value s r flat)

-- Where the tree at a node is `x + (y + z)` with byte literals `y` and `z`, `x` an expression of byte
-- literals, `+` and `-`, and the fuel and the buffer are large enough, `cg_expr` emits code that
-- leaves `y + (y + z)` in A whatever `x` is, when a running machine with bytes in A, B and C has it
-- on its tape at the program counter, with no wrap of addresses.
pub cg_expr-nested :
    (c : Program) (x : Sum) (y z i fuel : ℕ) (g : Codegen) (p : ℕ) (r : Regs) (m : Machine)
    → Stands c i (nested x y z)
    → IsSum (nested x y z)
    → sum_depth (nested x y z) ≤ fuel
    → length g.buf + length (sum_code (nested x y z)) ≤ c.cap
    → (r.a < 256) × (r.b < 256) × (r.c < 256)
    → p + length (sum_code (nested x y z)) < 65536
    → Loaded m.mem p (sum_code (nested x y z))
    → At m.mem p r m
    → (cg_expr c fuel (some i) g ≡ ok (tt, appended g (sum_code (nested x y z))))
      × ((steps (sum_steps (nested x y z)) m).cpu.a ≡ (y + (y + z)) % 256)
cg_expr-nested c x y z i fuel g p r m st h deep room f fits l here =
    let run = cg_expr-Computes c (nested x y z) i fuel g p r m st h deep room f fits l here in
    (run.0, run.1.3 ∙ sum_regs-nested x y z r)
