-- ===== src/Compiler/Parser/Stmts.antt =====
-- Statements: the parser's functions for them keep within their fuel, and make linked nodes.
use turning_machine_operatin.Base.{
  ℕ, zero, suc, ◌+◌, ◌-◌, ◌≤◌, ◌<◌, ◌≡◌, refl, true, false, ◌||◌, Option, none, some, to_bit,
  length, arith,
}
use turning_machine_operatin.Compiler.Result.{
  Yields, gives, Yields-then, Yields-split, Yields-when, Yields-weaken,
}
use turning_machine_operatin.Compiler.Action.{◌>>◌, pure}
use turning_machine_operatin.Compiler.Token.{TokenKind, is_kind}
use turning_machine_operatin.Compiler.Ast.{
  AstKind, Source, Parser, Parse, set_left, set_right, set_third, set_next, or_default, kind_at,
  p_peek_kind,
}
use turning_machine_operatin.Compiler.Parser.{is_type}
use turning_machine_operatin.Compiler.Parser.Stmt.{
  parse_init, p_parse_var_decl_stmt, expr_then, optional_expr, for_init, p_parse_for, parse_if,
  parse_while, parse_return, block_loop, p_parse_block, parse_plain, stmt_case, p_parse_stmt,
}
use turning_machine_operatin.Compiler.Parser.Links.{IsLink}
use turning_machine_operatin.Compiler.Parser.Steps.{
  at_token, left, IsParser, Goes, Keeps, Makes, Links, set_left-Keeps, set_right-Keeps,
  set_third-Keeps, set_next-Keeps, set_op-Keeps, link_after-Keeps, p_new_node-Makes, p_match-Keeps,
  p_expect-Keeps,
}
use turning_machine_operatin.Compiler.Parser.Exprs.{
  Reads, p_parse_expr-Reads, IsLink-later, or_default-lt,
}

module _ (c : Source) (fuel : ℕ) (p : Parser) (v : IsParser c p) (few : left c p < fuel) where
  pub parse_init-Keeps : (node : ℕ) → Yields (Keeps c 0 p) (parse_init c fuel node p)
  unfolding parse_init
  parse_init-Keeps node = Yields-then (p_match-Keeps c TokenKind.assign p refl v) (λ m hm.
      Yields-when (λ k. IsParser c m.1 × Goes c (to_bit k) p m.1) m.0 hm
        (λ k. Yields-then (p_parse_expr-Reads c fuel m.1 k.0 (omega arith)) (λ a ha.
          Yields-weaken (set_right-Keeps c node (some a.0) a.1 ha.0 (omega arith))
            (λ w hw. (hw.0, omega arith))))
        (λ k. gives k))

  expr_then-Makes :
      (kind : TokenKind)
      → is_kind TokenKind.eof kind ≡ false
      → Yields (Makes c 2 p) (expr_then c fuel kind p)
  unfolding expr_then
  expr_then-Makes kind no_end = Yields-then (p_parse_expr-Reads c fuel p v few) (λ a ha.
      Yields-then (p_expect-Keeps c kind a.1 no_end ha.0) (λ e he. gives (he.0, omega arith)))

module _ (c : Source) (fuel : ℕ) (p : Parser) (v : IsParser c p) where
  pub p_parse_var_decl_stmt-Makes :
      (type_tok : TokenKind)
      → left c p < fuel
      → Yields (Makes c 2 p) (p_parse_var_decl_stmt c fuel type_tok p)
  unfolding p_parse_var_decl_stmt
  p_parse_var_decl_stmt-Makes type_tok few =
      Yields-then (p_expect-Keeps c TokenKind.ident p refl v) (λ i hi.
        Yields-then (p_new_node-Makes c AstKind.ident (i.1.pos - 1) i.1 hi.0) (λ a ha.
          Yields-then (p_new_node-Makes c AstKind.var_decl (i.1.pos - 1) a.1 ha.0) (λ b hb.
            Yields-then (set_op-Keeps c b.0 type_tok b.1 hb.0) (λ o ho.
              Yields-then (set_left-Keeps c b.0 (some a.0) o.1 ho.0 (omega arith)) (λ l hl.
                Yields-then (parse_init-Keeps c fuel l.1 hl.0 (omega arith) b.0) (λ n hn.
                  Yields-then (p_expect-Keeps c TokenKind.semi n.1 refl hn.0)
                    (λ e he. gives (he.0, omega arith))))))))

  optional_expr-Links :
      (kind : TokenKind)
      → left c p < fuel
      → is_kind TokenKind.eof kind ≡ false
      → Yields (Links c 1 p) (optional_expr c fuel kind p)
  unfolding optional_expr
  optional_expr-Links kind few no_end = Yields-then (p_match-Keeps c kind p no_end v) (λ m hm.
      Yields-when (λ k. IsParser c m.1 × Goes c (to_bit k) p m.1) m.0 hm
        (λ k. gives (k.0, (omega arith, tt)))
        (λ k.
          Yields-then (expr_then-Makes c fuel m.1 k.0 (omega arith) kind no_end)
            (λ a ha. gives (ha.0, (omega arith, omega arith)))))

module _ (c : Source) (fuel : ℕ) where
  for_init-Links :
      (p : Parser) → IsParser c p → left c p < fuel → Yields (Links c 1 p) (for_init c fuel p)
  unfolding for_init p_peek_kind
  for_init-Links p v few =
      Yields-split (is_type (kind_at c.tokens p.pos))
        (λ e.
          let inside = at_token is_type c.tokens p.pos refl e in
          Yields-then
            (p_parse_var_decl_stmt-Makes c fuel (record p { pos = p.pos + 1 }) v
              (kind_at c.tokens p.pos) (omega arith))
            (λ a ha. gives (ha.0, (omega arith, omega arith))))
        (λ e. optional_expr-Links c fuel p v TokenKind.semi few refl)

  -- A function that reads a statement wherever fewer than `n` tokens are left.
  p_parse_for-Makes :
      (stmt : Parse ℕ) (n : ℕ) (p : Parser)
      → Reads c n stmt
      → IsParser c p
      → left c p ≤ n
      → left c p < fuel
      → Yields (Makes c 1 p) (p_parse_for c fuel stmt p)
  unfolding p_parse_for
  p_parse_for-Makes stmt n p reads v few short =
      Yields-then (p_new_node-Makes c AstKind.for_node p.pos p v) (λ a ha.
        Yields-then (p_expect-Keeps c TokenKind.kw_for a.1 refl ha.0) (λ b hb.
          Yields-then (p_expect-Keeps c TokenKind.lparen b.1 refl hb.0) (λ d hd.
            Yields-then (for_init-Links d.1 hd.0 (omega arith)) (λ i hi.
              Yields-then (optional_expr-Links c fuel i.1 hi.0 TokenKind.semi (omega arith) refl)
                (λ k hk.
                  Yields-then
                    (optional_expr-Links c fuel k.1 hk.0 TokenKind.rparen (omega arith) refl)
                    (λ s hs. Yields-then (reads s.1 hs.0 (omega arith)) (λ y hy.
                      close_for p a.0 i.0 k.0 s.0 y.0 y.1 hy.0 (omega arith)
                        (IsLink-later i.0 hi.1.1 (omega arith))
                        (IsLink-later k.0 hk.1.1 (omega arith))
                        (IsLink-later s.0 hs.1.1 (omega arith)) (omega arith) (omega arith))))))))
    where
      close_for :
          (p : Parser) (node : ℕ) (init cond step : Option ℕ) (body : ℕ) (q : Parser)
          → IsParser c q
          → Goes c 1 p q
          → IsLink (length q.nodes) init
          → IsLink (length q.nodes) cond
          → IsLink (length q.nodes) step
          → body < length q.nodes
          → node < length q.nodes
          → Yields (Makes c 1 p) (
              (set_left node init
                  >> (set_right node cond
                      >> (set_third node step >> (set_next node (some body) >> pure node))))
                q)
      close_for p node init cond step body q w goes li lc ls below own =
          Yields-then (set_left-Keeps c node init q w li) (λ a ha.
            Yields-then (set_right-Keeps c node cond a.1 ha.0 (IsLink-later cond lc (omega arith)))
              (λ b hb.
                Yields-then
                  (set_third-Keeps c node step b.1 hb.0 (IsLink-later step ls (omega arith)))
                  (λ d hd.
                    Yields-then (set_next-Keeps c node (some body) d.1 hd.0 (omega arith))
                      (λ e he. gives (he.0, omega arith)))))

  parse_if-Makes :
      (stmt : Parse ℕ) (n : ℕ) (p : Parser)
      → Reads c n stmt
      → IsParser c p
      → p.pos < length c.tokens
      → left c p ≤ n
      → left c p < fuel
      → Yields (Makes c 1 p) (parse_if c fuel stmt p)
  unfolding parse_if
  parse_if-Makes stmt n p reads v inside few short =
      Yields-then (p_new_node-Makes c AstKind.if_node p.pos p v) (λ a ha.
        let q : Parser = record a.1 { pos = a.1.pos + 1 } in
        Yields-then (p_expect-Keeps c TokenKind.lparen q refl ha.0) (λ b hb.
          Yields-then (expr_then-Makes c fuel b.1 hb.0 (omega arith) TokenKind.rparen refl) (λ d hd.
            Yields-then (reads d.1 hd.0 (omega arith)) (λ t ht.
              Yields-then (set_left-Keeps c a.0 (some d.0) t.1 ht.0 (omega arith)) (λ l hl.
                Yields-then (set_right-Keeps c a.0 (some t.0) l.1 hl.0 (omega arith)) (λ r hr.
                  Yields-then (p_match-Keeps c TokenKind.kw_else r.1 refl hr.0) (λ m hm.
                    Yields-when (λ k. IsParser c m.1 × Goes c (to_bit k) r.1 m.1) m.0 hm
                      (λ k. Yields-then (reads m.1 k.0 (omega arith)) (λ e he.
                        Yields-then (set_third-Keeps c a.0 (some e.0) e.1 he.0 (omega arith))
                          (λ w hw. gives (hw.0, omega arith))))
                      (λ k. gives (k.0, omega arith)))))))))

  parse_while-Makes :
      (stmt : Parse ℕ) (n : ℕ) (p : Parser)
      → Reads c n stmt
      → IsParser c p
      → p.pos < length c.tokens
      → left c p ≤ n
      → left c p < fuel
      → Yields (Makes c 1 p) (parse_while c fuel stmt p)
  unfolding parse_while
  parse_while-Makes stmt n p reads v inside few short =
      Yields-then (p_new_node-Makes c AstKind.while_node p.pos p v) (λ a ha.
        let q : Parser = record a.1 { pos = a.1.pos + 1 } in
        Yields-then (p_expect-Keeps c TokenKind.lparen q refl ha.0) (λ b hb.
          Yields-then (expr_then-Makes c fuel b.1 hb.0 (omega arith) TokenKind.rparen refl) (λ d hd.
            Yields-then (reads d.1 hd.0 (omega arith)) (λ t ht.
              Yields-then (set_left-Keeps c a.0 (some d.0) t.1 ht.0 (omega arith)) (λ l hl.
                Yields-then (set_right-Keeps c a.0 (some t.0) l.1 hl.0 (omega arith))
                  (λ r hr. gives (hr.0, omega arith)))))))

  parse_return-Makes :
      (p : Parser)
      → IsParser c p
      → p.pos < length c.tokens
      → left c p < fuel
      → Yields (Makes c 1 p) (parse_return c fuel p)
  unfolding parse_return
  parse_return-Makes p v inside short =
      Yields-then (p_new_node-Makes c AstKind.return_node p.pos p v) (λ a ha.
        let q : Parser = record a.1 { pos = a.1.pos + 1 } in
        Yields-then (p_match-Keeps c TokenKind.semi q refl ha.0) (λ m hm.
          Yields-when (λ k. IsParser c m.1 × Goes c (to_bit k) q m.1) m.0 hm
            (λ k. gives (k.0, omega arith))
            (λ k.
              Yields-then (expr_then-Makes c fuel m.1 k.0 (omega arith) TokenKind.semi refl)
                (λ e he.
                  Yields-then (set_left-Keeps c a.0 (some e.0) e.1 he.0 (omega arith))
                    (λ l hl. gives (hl.0, omega arith))))))

  parse_plain-Makes :
      (p : Parser) → IsParser c p → left c p < fuel → Yields (Makes c 1 p) (parse_plain c fuel p)
  unfolding parse_plain
  parse_plain-Makes p v short = Yields-then (p_match-Keeps c TokenKind.semi p refl v) (λ m hm.
      Yields-when (λ k. IsParser c m.1 × Goes c (to_bit k) p m.1) m.0 hm
        (λ k.
          Yields-weaken (p_new_node-Makes c AstKind.unknown (m.1.pos - 1) m.1 k.0)
            (λ w hw. (hw.0, omega arith)))
        (λ k.
          Yields-weaken (expr_then-Makes c fuel m.1 k.0 (omega arith) TokenKind.semi refl)
            (λ w hw. (hw.0, omega arith))))

module _ (c : Source) where
  block_loop-Links :
      (stmt : Parse ℕ) (n fuel : ℕ) (first last : Option ℕ) (p : Parser)
      → Reads c n stmt
      → IsParser c p
      → left c p < n
      → left c p < fuel
      → IsLink (length p.nodes) first
      → Yields (Links c 0 p) (block_loop c stmt fuel first last p)
  unfolding block_loop p_peek_kind
  block_loop-Links stmt n zero first last p reads v few short l = absurd (omega arith)
  block_loop-Links stmt n (suc fuel) first last p reads v few short l =
      let kind = kind_at c.tokens p.pos in
      Yields-split (is_kind kind TokenKind.rbrace || is_kind kind TokenKind.eof)
        (λ e. gives (v, (omega arith, l)))
        (λ e. Yields-then (reads p v few) (λ a ha.
          Yields-then (link_after-Keeps c last a.0 a.1 ha.0 ha.1.1) (λ b hb.
            let l' = IsLink-later first l (omega arith) in
            let l₁ = or_default-lt first a.0 (length b.1.nodes) l' (omega arith) in
            Yields-weaken
              (block_loop-Links stmt n fuel (some (or_default first a.0)) (some a.0) b.1 reads hb.0
                (omega arith) (omega arith) l₁)
              (λ w hw. (hw.0, (omega arith, hw.1.1))))))

  pub p_parse_block-Makes :
      (stmt : Parse ℕ) (n fuel : ℕ) (p : Parser)
      → Reads c n stmt
      → IsParser c p
      → left c p ≤ n
      → left c p < fuel
      → Yields (Makes c 1 p) (p_parse_block c stmt fuel p)
  unfolding p_parse_block
  p_parse_block-Makes stmt n fuel p reads v few short =
      Yields-then (p_new_node-Makes c AstKind.program p.pos p v) (λ a ha.
        Yields-then (p_expect-Keeps c TokenKind.lbrace a.1 refl ha.0) (λ b hb.
          Yields-then
            (block_loop-Links stmt n fuel none none b.1 reads hb.0 (omega arith) (omega arith) tt)
            (λ f hf. Yields-then (p_expect-Keeps c TokenKind.rbrace f.1 refl hf.0) (λ e he.
              Yields-then
                (set_left-Keeps c a.0 f.0 e.1 he.0 (IsLink-later f.0 hf.1.1 (omega arith)))
                (λ l hl. gives (hl.0, omega arith))))))

  -- The token that selects a form with a keyword is there.
  stmt_case-Makes :
      (stmt : Parse ℕ) (n fuel : ℕ) (p : Parser)
      → Reads c n stmt
      → IsParser c p
      → left c p ≤ n
      → left c p < fuel
      → Yields (Makes c 1 p) (stmt_case c stmt fuel (kind_at c.tokens p.pos) p)
  unfolding stmt_case
  stmt_case-Makes stmt n fuel p reads v few short =
      let t = kind_at c.tokens p.pos in
      let at =
        λ (k : TokenKind) (no_end : is_kind TokenKind.eof k ≡ false) (e : is_kind t k ≡ true).
          at_token (λ j. is_kind j k) c.tokens p.pos no_end e in
      Yields-split (is_kind t TokenKind.lbrace)
        (λ e. p_parse_block-Makes stmt n fuel p reads v few short)
        (λ e.
          Yields-split (is_kind t TokenKind.kw_if)
            (λ e. parse_if-Makes c fuel stmt n p reads v (at TokenKind.kw_if refl e) few short)
            (λ e.
              Yields-split (is_kind t TokenKind.kw_while)
                (λ e.
                  parse_while-Makes c fuel stmt n p reads v (at TokenKind.kw_while refl e) few
                    short)
                (λ e.
                  Yields-split (is_kind t TokenKind.kw_for)
                    (λ e. p_parse_for-Makes c fuel stmt n p reads v few short)
                    (λ e.
                      Yields-split (is_kind t TokenKind.kw_return)
                        (λ e. parse_return-Makes c fuel p v (at TokenKind.kw_return refl e) short)
                        (λ e.
                          Yields-split (is_type t)
                            (λ e.
                              Yields-weaken
                                (p_parse_var_decl_stmt-Makes c fuel (record p { pos = p.pos + 1 }) v
                                  t (omega arith))
                                (λ w hw. (hw.0, omega arith)))
                            (λ e. parse_plain-Makes c fuel p v short))))))

  pub p_parse_stmt-Reads : (n : ℕ) → Reads c n (p_parse_stmt c n)
  unfolding p_parse_stmt p_peek_kind
  p_parse_stmt-Reads zero p v few = absurd (omega arith)
  p_parse_stmt-Reads (suc n) p v few =
      stmt_case-Makes (p_parse_stmt c n) n (suc n) p (p_parse_stmt-Reads n) v (omega arith) few
