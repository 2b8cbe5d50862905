-- ===== src/Compiler/Parser/Exprs.antt =====
-- Expressions: the parser's functions for them keep within their fuel, and make linked nodes.
use turning_machine_operatin.Base.{
  ℕ, zero, suc, ◌+◌, ◌-◌, ◌≤◌, ◌<◌, ◌≡◌, refl, Bool, true, false, Option, none, some, List, [], ◌∷◌,
  to_bit, length, arith,
}
use turning_machine_operatin.Compiler.Result.{
  Yields, gives, refused, Yields-then, Yields-split, Yields-when, Yields-weaken,
}
use turning_machine_operatin.Compiler.Action.{pure, when_else}
use turning_machine_operatin.Compiler.Token.{TokenKind}
use turning_machine_operatin.Compiler.Ast.{
  AstKind, Source, Parser, Parse, or_default, get_elem?, kind_at, p_peek_kind, p_match,
}
use turning_machine_operatin.Compiler.Parser.{
  one_of, p_parse_number, token_text, parse_args, parse_call, parse_ident, parse_paren,
  parse_literal, p_parse_primary, p_parse_unary, bin_loop, p_parse_bin_ltr, p_parse_mul,
  p_parse_add, p_parse_rel, p_parse_eq, p_parse_and, p_parse_or, p_parse_assign, p_parse_expr,
}
use turning_machine_operatin.Compiler.Parser.Links.{IsLink}
use turning_machine_operatin.Compiler.Parser.Steps.{
  at_token, left, IsParser, Goes, Makes, Links, set_left-Keeps, set_right-Keeps, set_op-Keeps,
  set_value-Keeps, link_after-Keeps, p_new_node-Makes, p_match-Keeps, p_expect-Keeps,
}

pub or_default-lt :
    (first : Option ℕ) (entry n : ℕ) → IsLink n first → entry < n → or_default first entry < n
or_default-lt none entry n l h = h
or_default-lt (some first) entry n l h = l

pub IsLink-later : {n m : ℕ} (link : Option ℕ) → IsLink n link → n ≤ m → IsLink m link
IsLink-later none l h = tt
IsLink-later (some i) l h = omega arith

module _ (c : Source) where
  -- A function that reads an expression wherever fewer than `n` tokens are left.
  abbrev pub Reads : ℕ → Parse ℕ → Type 0
  Reads n expr = (p : Parser) → IsParser c p → left c p < n → Yields (Makes c 1 p) (expr p)

  parse_args-Links :
      (expr : Parse ℕ) (n fuel : ℕ) (first last : Option ℕ) (p : Parser)
      → Reads n expr
      → IsParser c p
      → left c p < n
      → left c p < fuel
      → IsLink (length p.nodes) first
      → Yields (Links c 0 p) (parse_args c expr fuel first last p)
  unfolding parse_args
  parse_args-Links expr n zero first last p reads v few short l = absurd (omega arith)
  parse_args-Links expr n (suc fuel) first last p reads v few short l =
      Yields-then (reads p v few) (λ a ha.
        Yields-then (link_after-Keeps c last a.0 a.1 ha.0 ha.1.1) (λ b hb.
          Yields-then (p_match-Keeps c TokenKind.comma b.1 refl hb.0) (λ m hm.
            let l' = IsLink-later first l (omega arith) in
            let l₁ = or_default-lt first a.0 (length m.1.nodes) l' (omega arith) in
            Yields-when (λ k. IsParser c m.1 × Goes c (to_bit k) b.1 m.1) m.0 hm
              (λ k.
                Yields-weaken
                  (parse_args-Links expr n fuel (some (or_default first a.0)) (some a.0) m.1 reads
                    k.0 (omega arith) (omega arith) l₁)
                  (λ r hr. (hr.0, (omega arith, hr.1.1))))
              (λ k.
                Yields-then (p_expect-Keeps c TokenKind.rparen m.1 refl k.0)
                  (λ e he. gives (he.0, (omega arith, omega arith)))))))

  parse_call-Makes :
      (expr : Parse ℕ) (n fuel tok_i ident_node : ℕ) (p : Parser)
      → Reads n expr
      → IsParser c p
      → left c p < n
      → left c p < fuel
      → ident_node < length p.nodes
      → Yields (Makes c 0 p) (parse_call c expr fuel tok_i ident_node p)
  unfolding parse_call
  parse_call-Makes expr n fuel tok_i ident_node p reads v few short h =
      Yields-then (p_new_node-Makes c AstKind.call tok_i p v) (λ a ha.
        Yields-then (set_left-Keeps c a.0 (some ident_node) a.1 ha.0 (omega arith)) (λ b hb.
          Yields-then (p_match-Keeps c TokenKind.rparen b.1 refl hb.0) (λ m hm.
            Yields-then
              (Yields-when {Good = Links c 0 m.1} (λ k. IsParser c m.1 × Goes c (to_bit k) b.1 m.1)
                m.0 hm (λ k. gives (k.0, (omega arith, tt)))
                (λ k.
                  parse_args-Links expr n fuel none none m.1 reads k.0 (omega arith) (omega arith)
                    tt))
              (λ f hf.
                Yields-then (set_right-Keeps c a.0 f.0 f.1 hf.0 hf.1.1)
                  (λ g hg. gives (hg.0, (omega arith, omega arith)))))))

  parse_ident-Makes :
      (expr : Parse ℕ) (n fuel tok_i : ℕ) (p : Parser)
      → Reads n expr
      → IsParser c p
      → left c p < n
      → left c p < fuel
      → Yields (Makes c 0 p) (parse_ident c expr fuel tok_i p)
  unfolding parse_ident
  parse_ident-Makes expr n fuel tok_i p reads v few short =
      Yields-then (p_new_node-Makes c AstKind.ident tok_i p v) (λ a ha.
        Yields-then (p_match-Keeps c TokenKind.lparen a.1 refl ha.0) (λ m hm.
          Yields-when (λ k. IsParser c m.1 × Goes c (to_bit k) a.1 m.1) m.0 hm
            (λ k.
              Yields-weaken
                (parse_call-Makes expr n fuel tok_i a.0 m.1 reads k.0 (omega arith) (omega arith)
                  (omega arith))
                (λ r hr. (hr.0, omega arith)))
            (λ k. gives (k.0, omega arith))))

  parse_paren-Makes :
      (expr : Parse ℕ) (n : ℕ) (p : Parser)
      → Reads n expr
      → IsParser c p
      → left c p < n
      → Yields (Makes c 0 p) (parse_paren c expr p)
  unfolding parse_paren
  parse_paren-Makes expr n p reads v few = Yields-then (reads p v few) (λ a ha.
      Yields-then (p_expect-Keeps c TokenKind.rparen a.1 refl ha.0)
        (λ e he. gives (he.0, omega arith)))

  parse_literal-Makes :
      (tok_i : ℕ) (p : Parser) → IsParser c p → Yields (Makes c 0 p) (parse_literal c tok_i p)
  unfolding parse_literal
  parse_literal-Makes tok_i p v =
      Yields-then (p_new_node-Makes c AstKind.literal tok_i p v) (λ a ha.
        Yields-then
          (set_value-Keeps c a.0 (p_parse_number (token_text c.src (get_elem? c.tokens tok_i)) 0)
            a.1 ha.0)
          (λ b hb. gives (hb.0, omega arith)))

  p_parse_primary-Makes :
      (expr : Parse ℕ) (n fuel : ℕ) (p : Parser)
      → Reads n expr
      → IsParser c p
      → left c p ≤ n
      → left c p ≤ fuel
      → Yields (Makes c 1 p) (p_parse_primary c expr fuel p)
  unfolding p_parse_primary
  p_parse_primary-Makes expr n fuel p reads v few short =
      Yields-then (p_match-Keeps c TokenKind.number p refl v) (λ m hm.
        Yields-when (λ k. IsParser c m.1 × Goes c (to_bit k) p m.1) m.0 hm
          (λ k. Yields-weaken (parse_literal-Makes p.pos m.1 k.0) (λ r hr. (hr.0, omega arith)))
          (λ k. Yields-then (p_match-Keeps c TokenKind.char m.1 refl k.0) (λ ch hch.
            Yields-then (is_text m.1 ch hch) (λ t ht.
              Yields-when (λ b. IsParser c t.1 × Goes c (to_bit b) m.1 t.1) t.0 ht
                (λ b.
                  Yields-weaken (p_new_node-Makes c AstKind.literal p.pos t.1 b.0)
                    (λ r hr. (hr.0, omega arith)))
                (λ b. Yields-then (p_match-Keeps c TokenKind.ident t.1 refl b.0) (λ i hi.
                  Yields-when (λ b. IsParser c i.1 × Goes c (to_bit b) t.1 i.1) i.0 hi
                    (λ b.
                      Yields-weaken
                        (parse_ident-Makes expr n fuel p.pos i.1 reads b.0 (omega arith)
                          (omega arith))
                        (λ r hr. (hr.0, omega arith)))
                    (λ b. Yields-then (p_match-Keeps c TokenKind.lparen i.1 refl b.0) (λ o ho.
                      Yields-when (λ b. IsParser c o.1 × Goes c (to_bit b) i.1 o.1) o.0 ho
                        (λ b.
                          Yields-weaken (parse_paren-Makes expr n o.1 reads b.0 (omega arith))
                            (λ r hr. (hr.0, omega arith)))
                        (λ b. refused)))))))))
    where
      is_text :
          (q : Parser) (ch : Bool × Parser)
          → IsParser c ch.1 × Goes c (to_bit ch.0) q ch.1
          → Yields
              (λ (t : Bool × Parser). IsParser c t.1 × Goes c (to_bit t.0) q t.1)
              (when_else ch.0 (pure true) (p_match c TokenKind.string) ch.1)
      is_text q (true, p') h = gives h
      is_text q (false, p') h =
          Yields-weaken (p_match-Keeps c TokenKind.string p' refl h.0) (λ r hr. (hr.0, omega arith))

  p_parse_unary-Reads :
      (expr : Parse ℕ) (n fuel : ℕ) (p : Parser)
      → Reads n expr
      → IsParser c p
      → left c p ≤ n
      → left c p < fuel
      → Yields (Makes c 1 p) (p_parse_unary c expr fuel p)
  unfolding p_parse_unary p_peek_kind one_of
  p_parse_unary-Reads expr n zero p reads v few short = absurd (omega arith)
  p_parse_unary-Reads expr n (suc fuel) p reads v few short =
      Yields-split (one_of signs (kind_at c.tokens p.pos))
        (λ e.
          let inside = at_token (one_of signs) c.tokens p.pos refl e in
          Yields-then
            (p_parse_unary-Reads expr n fuel (record p { pos = p.pos + 1 }) reads v (omega arith)
              (omega arith))
            (λ a ha. Yields-then (p_new_node-Makes c AstKind.unop p.pos a.1 ha.0) (λ b hb.
              Yields-then (set_op-Keeps c b.0 (kind_at c.tokens p.pos) b.1 hb.0) (λ o ho.
                Yields-then (set_left-Keeps c b.0 (some a.0) o.1 ho.0 (omega arith))
                  (λ l hl. gives (hl.0, omega arith))))))
        (λ e. p_parse_primary-Makes expr n fuel p reads v few (omega arith))
    where
      signs : List TokenKind
      signs = TokenKind.not ∷ TokenKind.minus ∷ TokenKind.plus ∷ []

  -- The loop over the operators of one level, and the levels.
  bin_loop-Makes :
      (sub : Parse ℕ) (ops : List TokenKind) (n fuel lhs : ℕ) (p : Parser)
      → Reads n sub
      → one_of ops TokenKind.eof ≡ false
      → IsParser c p
      → left c p < n
      → left c p < fuel
      → lhs < length p.nodes
      → Yields (Makes c 0 p) (bin_loop c sub ops fuel lhs p)
  unfolding bin_loop p_peek_kind
  bin_loop-Makes sub ops n zero lhs p reads no_end v few short h = absurd (omega arith)
  bin_loop-Makes sub ops n (suc fuel) lhs p reads no_end v few short h =
      Yields-split (one_of ops (kind_at c.tokens p.pos))
        (λ e.
          let inside = at_token (one_of ops) c.tokens p.pos no_end e in
          Yields-then (reads (record p { pos = p.pos + 1 }) v (omega arith)) (λ a ha.
            Yields-then (p_new_node-Makes c AstKind.binop (a.1.pos - 1) a.1 ha.0) (λ b hb.
              Yields-then (set_op-Keeps c b.0 (kind_at c.tokens p.pos) b.1 hb.0) (λ o ho.
                Yields-then (set_left-Keeps c b.0 (some lhs) o.1 ho.0 (omega arith)) (λ l hl.
                  Yields-then (set_right-Keeps c b.0 (some a.0) l.1 hl.0 (omega arith)) (λ r hr.
                    Yields-weaken
                      (bin_loop-Makes sub ops n fuel b.0 r.1 reads no_end hr.0 (omega arith)
                        (omega arith) (omega arith))
                      (λ w hw. (hw.0, omega arith))))))))
        (λ e. gives (v, omega arith))

  p_parse_bin_ltr-Reads :
      (sub : Parse ℕ) (ops : List TokenKind) (n fuel : ℕ)
      → Reads n sub
      → one_of ops TokenKind.eof ≡ false
      → n ≤ fuel
      → Reads n (p_parse_bin_ltr c sub ops fuel)
  unfolding p_parse_bin_ltr
  p_parse_bin_ltr-Reads sub ops n fuel reads no_end h p v few = Yields-then (reads p v few) (λ a ha.
      Yields-weaken
        (bin_loop-Makes sub ops n fuel a.0 a.1 reads no_end ha.0 (omega arith) (omega arith)
          (omega arith))
        (λ r hr. (hr.0, omega arith)))

  module _ (expr : Parse ℕ) (n : ℕ) (reads : Reads n expr) where
    level :
        (sub : Parse ℕ) (ops : List TokenKind)
        → Reads (suc n) sub
        → one_of ops TokenKind.eof ≡ false
        → Reads (suc n) (p_parse_bin_ltr c sub ops (suc n))
    level sub ops r no_end = p_parse_bin_ltr-Reads sub ops (suc n) (suc n) r no_end (omega arith)

    p_parse_mul-Reads : Reads (suc n) (p_parse_mul c expr (suc n))
    unfolding p_parse_mul one_of
    p_parse_mul-Reads =
        level (p_parse_unary c expr (suc n))
          (TokenKind.star ∷ TokenKind.slash ∷ TokenKind.percent ∷ [])
          (λ p v few. p_parse_unary-Reads expr n (suc n) p reads v (omega arith) few) refl

    p_parse_add-Reads : Reads (suc n) (p_parse_add c expr (suc n))
    unfolding p_parse_add one_of
    p_parse_add-Reads =
        level (p_parse_mul c expr (suc n)) (TokenKind.plus ∷ TokenKind.minus ∷ []) p_parse_mul-Reads
          refl

    p_parse_rel-Reads : Reads (suc n) (p_parse_rel c expr (suc n))
    unfolding p_parse_rel one_of
    p_parse_rel-Reads =
        level (p_parse_add c expr (suc n))
          (TokenKind.lt ∷ TokenKind.le ∷ TokenKind.gt ∷ TokenKind.ge ∷ []) p_parse_add-Reads refl

    p_parse_eq-Reads : Reads (suc n) (p_parse_eq c expr (suc n))
    unfolding p_parse_eq one_of
    p_parse_eq-Reads =
        level (p_parse_rel c expr (suc n)) (TokenKind.eq ∷ TokenKind.ne ∷ []) p_parse_rel-Reads refl

    p_parse_and-Reads : Reads (suc n) (p_parse_and c expr (suc n))
    unfolding p_parse_and one_of
    p_parse_and-Reads =
        level (p_parse_eq c expr (suc n)) (TokenKind.and_and ∷ []) p_parse_eq-Reads refl

    p_parse_or-Reads : Reads (suc n) (p_parse_or c expr (suc n))
    unfolding p_parse_or one_of
    p_parse_or-Reads =
        level (p_parse_and c expr (suc n)) (TokenKind.or_or ∷ []) p_parse_and-Reads refl

  p_parse_assign-Makes :
      (expr : Parse ℕ) (n fuel : ℕ) (p : Parser)
      → Reads n expr
      → IsParser c p
      → left c p ≤ n
      → left c p < fuel
      → fuel ≤ suc n
      → Yields (Makes c 1 p) (p_parse_assign c expr fuel p)
  unfolding p_parse_assign
  p_parse_assign-Makes expr n zero p reads v few short low = absurd (omega arith)
  p_parse_assign-Makes expr n (suc fuel) p reads v few short low =
      Yields-then (p_parse_or-Reads expr fuel (λ q w h. reads q w (omega arith)) p v short) (λ a ha.
        Yields-then (p_match-Keeps c TokenKind.assign a.1 refl ha.0) (λ m hm.
          Yields-when (λ k. IsParser c m.1 × Goes c (to_bit k) a.1 m.1) m.0 hm
            (λ k.
              Yields-then
                (p_parse_assign-Makes expr n fuel m.1 reads k.0 (omega arith) (omega arith)
                  (omega arith))
                (λ r hr.
                  Yields-then (p_new_node-Makes c AstKind.assign (r.1.pos - 1) r.1 hr.0) (λ b hb.
                    Yields-then (set_left-Keeps c b.0 (some a.0) b.1 hb.0 (omega arith)) (λ l hl.
                      Yields-then (set_right-Keeps c b.0 (some r.0) l.1 hl.0 (omega arith))
                        (λ s hs. gives (hs.0, omega arith))))))
            (λ k. gives (k.0, omega arith))))

  -- With more fuel than tokens, an expression is read to its end.
  pub p_parse_expr-Reads : (n : ℕ) → Reads n (p_parse_expr c n)
  unfolding p_parse_expr
  p_parse_expr-Reads zero p v few = absurd (omega arith)
  p_parse_expr-Reads (suc n) p v few =
      p_parse_assign-Makes (p_parse_expr c n) n (suc n) p (p_parse_expr-Reads n) v (omega arith) few
        (omega arith)
