-- ===== src/Compiler/Parser/Decls.antt =====
-- Declarations and whole programs: what `cc_parse` of src/compiler/compiler.c gives.
use turning_machine_operatin.Base.{
  ℕ, zero, suc, ◌+◌, ◌-◌, ◌≤◌, ◌<◌, refl, ◌||◌, Option, none, some, List, [], ◌==◌, to_bit, length,
  arith,
}
use turning_machine_operatin.Compiler.Result.{
  Yields, gives, refused, Yields-then, Yields-split, Yields-when, Yields-weaken, Yields-guard,
}
use turning_machine_operatin.Compiler.Token.{TokenKind, Token, is_kind}
use turning_machine_operatin.Compiler.Ast.{
  AstKind, Source, Parser, or_default, kind_at, p_peek_kind,
}
use turning_machine_operatin.Compiler.Parser.{is_type}
use turning_machine_operatin.Compiler.Parser.Stmt.{
  p_parse_stmt, param_loop, parse_function, parse_variable, parse_decl, decl_loop, parse_program,
  cc_parse,
}
use turning_machine_operatin.Compiler.Parser.Links.{IsLink, IsLinked}
use turning_machine_operatin.Compiler.Parser.Steps.{
  at_token, left, IsParser, Goes, Makes, Links, set_left-Keeps, set_right-Keeps, set_third-Keeps,
  set_op-Keeps, link_after-Keeps, p_new_node-Makes, p_match-Keeps, p_expect-Keeps,
}
use turning_machine_operatin.Compiler.Parser.Exprs.{IsLink-later, or_default-lt}
use turning_machine_operatin.Compiler.Parser.Stmts.{
  parse_init-Keeps, p_parse_block-Makes, p_parse_stmt-Reads,
}

module _ (c : Source) where
  param_loop-Links :
      (fuel : ℕ) (first last : Option ℕ) (p : Parser)
      → IsParser c p
      → left c p < fuel
      → IsLink (length p.nodes) first
      → Yields (Links c 0 p) (param_loop c fuel first last p)
  unfolding param_loop p_peek_kind
  param_loop-Links zero first last p v short l = absurd (omega arith)
  param_loop-Links (suc fuel) first last p v short l =
      Yields-guard (is_type (kind_at c.tokens p.pos)) _ _ (λ e.
        let inside = at_token is_type c.tokens p.pos refl e in
        let q : Parser = record p { pos = p.pos + 1 } in
        Yields-then (p_expect-Keeps c TokenKind.ident q refl v) (λ i hi.
          Yields-then (p_new_node-Makes c AstKind.ident (i.1.pos - 1) i.1 hi.0) (λ a ha.
            Yields-then (p_new_node-Makes c AstKind.var_decl (i.1.pos - 1) a.1 ha.0) (λ b hb.
              Yields-then (set_op-Keeps c b.0 (kind_at c.tokens p.pos) b.1 hb.0) (λ o ho.
                Yields-then (set_left-Keeps c b.0 (some a.0) o.1 ho.0 (omega arith)) (λ s hs.
                  Yields-then (link_after-Keeps c last b.0 s.1 hs.0 (omega arith)) (λ k hk.
                    Yields-then (p_match-Keeps c TokenKind.comma k.1 refl hk.0) (λ m hm.
                      let l' = IsLink-later first l (omega arith) in
                      let l₁ = or_default-lt first b.0 (length m.1.nodes) l' (omega arith) in
                      Yields-when (λ t. IsParser c m.1 × Goes c (to_bit t) k.1 m.1) m.0 hm
                        (λ t.
                          Yields-weaken
                            (param_loop-Links fuel (some (or_default first b.0)) (some b.0) m.1 t.0
                              (omega arith) l₁)
                            (λ w hw. (hw.0, (omega arith, hw.1.1))))
                        (λ t.
                          Yields-then (p_expect-Keeps c TokenKind.rparen m.1 refl t.0)
                            (λ e he. gives (he.0, (omega arith, omega arith))))))))))))

  parse_variable-Makes :
      (fuel : ℕ) (type_tok : TokenKind) (ident marker : ℕ) (p : Parser)
      → IsParser c p
      → left c p < fuel
      → ident < length p.nodes
      → Yields (Makes c 1 p) (parse_variable c fuel type_tok ident marker p)
  unfolding parse_variable
  parse_variable-Makes fuel type_tok ident marker p v short h =
      Yields-then (p_new_node-Makes c AstKind.var_decl (marker - 1) p v) (λ a ha.
        Yields-then (set_op-Keeps c a.0 type_tok a.1 ha.0) (λ o ho.
          Yields-then (set_left-Keeps c a.0 (some ident) o.1 ho.0 (omega arith)) (λ l hl.
            Yields-then (parse_init-Keeps c fuel l.1 hl.0 (omega arith) a.0) (λ n hn.
              Yields-then (p_expect-Keeps c TokenKind.semi n.1 refl hn.0)
                (λ e he. gives (he.0, omega arith))))))

  parse_function-Makes :
      (fuel : ℕ) (type_tok : TokenKind) (ident : ℕ) (p : Parser)
      → IsParser c p
      → left c p < fuel
      → ident < length p.nodes
      → Yields (Makes c 1 p) (parse_function c fuel type_tok ident p)
  unfolding parse_function
  parse_function-Makes fuel type_tok ident p v short h =
      Yields-then (p_new_node-Makes c AstKind.func_decl (p.pos - 2) p v) (λ a ha.
        Yields-then (set_op-Keeps c a.0 type_tok a.1 ha.0) (λ o ho.
          Yields-then (set_left-Keeps c a.0 (some ident) o.1 ho.0 (omega arith)) (λ l hl.
            Yields-then (p_match-Keeps c TokenKind.rparen l.1 refl hl.0) (λ m hm.
              Yields-then
                (Yields-when {Good = Links c 0 m.1}
                  (λ t. IsParser c m.1 × Goes c (to_bit t) l.1 m.1) m.0 hm
                  (λ t. gives {a = (none, m.1)} (t.0, (omega arith, tt)))
                  (λ t. param_loop-Links fuel none none m.1 t.0 (omega arith) tt))
                (λ f hf.
                  Yields-then
                    (p_parse_block-Makes c (p_parse_stmt c fuel) fuel fuel f.1
                      (p_parse_stmt-Reads c fuel) hf.0 (omega arith) (omega arith))
                    (λ y hy.
                      let params = IsLink-later f.0 hf.1.1 (omega arith) in
                      Yields-then (set_right-Keeps c a.0 f.0 y.1 hy.0 params) (λ r hr.
                        Yields-then (set_third-Keeps c a.0 (some y.0) r.1 hr.0 (omega arith))
                          (λ w hw. gives (hw.0, omega arith)))))))))

  parse_decl-Makes :
      (fuel : ℕ) (type_tok : TokenKind) (p : Parser)
      → IsParser c p
      → left c p < fuel
      → Yields (Makes c 1 p) (parse_decl c fuel type_tok p)
  unfolding parse_decl
  parse_decl-Makes fuel type_tok p v short =
      let q : Parser = record p { pos = p.pos + 1 } in
      Yields-then (p_expect-Keeps c TokenKind.ident q refl v) (λ i hi.
        Yields-then (p_new_node-Makes c AstKind.ident (i.1.pos - 1) i.1 hi.0) (λ a ha.
          Yields-then (p_match-Keeps c TokenKind.lparen a.1 refl ha.0) (λ m hm.
            Yields-when (λ t. IsParser c m.1 × Goes c (to_bit t) a.1 m.1) m.0 hm
              (λ t.
                Yields-weaken
                  (parse_function-Makes fuel type_tok a.0 m.1 t.0 (omega arith) (omega arith))
                  (λ w hw. (hw.0, omega arith)))
              (λ t.
                Yields-weaken
                  (parse_variable-Makes fuel type_tok a.0 i.1.pos m.1 t.0 (omega arith)
                    (omega arith))
                  (λ w hw. (hw.0, omega arith))))))

  decl_loop-Links :
      (inner fuel : ℕ) (first last : Option ℕ) (p : Parser)
      → IsParser c p
      → left c p < inner
      → left c p < fuel
      → IsLink (length p.nodes) first
      → Yields (Links c 0 p) (decl_loop c inner fuel first last p)
  unfolding decl_loop p_peek_kind
  decl_loop-Links inner zero first last p v few short l = absurd (omega arith)
  decl_loop-Links inner (suc fuel) first last p v few short l =
      let t = kind_at c.tokens p.pos in
      Yields-split (is_kind t TokenKind.eof) (λ e. gives (v, (omega arith, l)))
        (λ e. Yields-guard (is_type t) _ _ (λ e.
          Yields-then (parse_decl-Makes inner t p v few) (λ a ha.
            Yields-then (link_after-Keeps c last a.0 a.1 ha.0 ha.1.1) (λ b hb.
              let l' = IsLink-later first l (omega arith) in
              let l₁ = or_default-lt first a.0 (length b.1.nodes) l' (omega arith) in
              Yields-weaken
                (decl_loop-Links inner fuel (some (or_default first a.0)) (some a.0) b.1 hb.0
                  (omega arith) (omega arith) l₁)
                (λ w hw. (hw.0, (omega arith, hw.1.1)))))))

-- The parser returns -1, or nodes whose links all lead to nodes among them, no more than the array
-- takes. Its recursion ends: the fuel of one round for each token and one more is never used up.
pub cc_parse-IsLinked :
    (src : List ℕ) (tokens : List Token) (max_nodes : ℕ)
    → Yields
        (λ nodes. IsLinked nodes × (1 ≤ length nodes) × (length nodes ≤ max_nodes))
        (cc_parse src tokens max_nodes)
unfolding cc_parse parse_program
cc_parse-IsLinked src tokens max_nodes =
    let c : Source = record { src = src; tokens = tokens; max_nodes = max_nodes } in
    let start : Parser = record { pos = 0; nodes = [] } in
    Yields-split (length tokens == 0 || max_nodes == 0) (λ e. refused)
      (λ e.
        Yields-then {Good = λ (r : Unit {0} × Parser). IsParser c r.1 × (1 ≤ length r.1.nodes)}
          (Yields-then (p_new_node-Makes c AstKind.program 0 start (tt, omega arith)) (λ a ha.
            Yields-then
              (decl_loop-Links c (suc (length tokens)) (suc (length tokens)) none none a.1 ha.0
                (omega arith) (omega arith) tt)
              (λ f hf.
                Yields-weaken (set_left-Keeps c a.0 f.0 f.1 hf.0 hf.1.1)
                  (λ w hw. (hw.0, omega arith)))))
          (λ r h. gives (h.0.0, h.1, h.0.1)))
