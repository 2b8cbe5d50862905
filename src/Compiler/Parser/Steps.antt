-- ===== src/Compiler/Parser/Steps.antt =====
-- What the primitives of the parser do: the nodes stay linked and within their array, no node is
-- lost, and tokens are consumed.
use native.Mathlib.Decide.{dec_lt}
use turning_machine_operatin.Base.{
  ℕ, zero, suc, ◌+◌, ◌-◌, ◌≤◌, ◌<◌, ◌≡◌, refl, sym, ap, ◌∙◌, Bool, true, false, Option, none, some,
  List, [], ◌∷◌, leb, to_bit, length, length-append, arith,
}
use turning_machine_operatin.Compiler.Result.{
  Yields, gives, refused, Yields-then, Yields-split, Yields-when,
}
use turning_machine_operatin.Compiler.Token.{TokenKind, Token, is_kind}
use turning_machine_operatin.Compiler.Ast.{
  AstKind, AstNode, Source, Parser, blank_node, set_node, set_left, set_right, set_third, set_next,
  set_op, set_value, link_after, kind_at, p_match, p_expect, p_new_node,
}
use turning_machine_operatin.Compiler.Parser.Links.{
  IsLink, IsNode, IsLinked, IsLinked-append_blank, IsLinked-modify, length-modify,
}

kind_at-eof : (ts : List Token) (i : ℕ) → length ts ≤ i → kind_at ts i ≡ TokenKind.eof
unfolding kind_at
kind_at-eof [] i h = refl
kind_at-eof (t ∷ ts) zero h = absurd (omega arith)
kind_at-eof (t ∷ ts) (suc i) h = kind_at-eof ts i (omega arith)

-- A test that the end fails holds only at a token.
pub at_token :
    (test : TokenKind → Bool) (ts : List Token) (i : ℕ)
    → test TokenKind.eof ≡ false
    → test (kind_at ts i) ≡ true
    → i < length ts
at_token test ts i at_end holds = elim (dec_lt i (length ts)) [
  | yes h ↦ h
  | no h ↦
      let same : kind_at ts i ≡ TokenKind.eof = kind_at-eof ts i (omega arith) in
      absurd (differ (sym (ap test same ∙ at_end) ∙ holds))
]
  where
    differ : ¬ (false ≡ true)
    differ h = ground arith

module _ (c : Source) where
  -- How many tokens are left.
  abbrev pub left : Parser → ℕ
  left p = length c.tokens - p.pos

  abbrev pub IsParser : Parser → Type 0
  IsParser p = IsLinked p.nodes × (length p.nodes ≤ c.max_nodes)

  -- At least `k` tokens were consumed.
  abbrev pub Goes : ℕ → Parser → Parser → Type 0
  Goes k p p' = (length p.nodes ≤ length p'.nodes) × (left p' + k ≤ left p)

  abbrev pub Keeps {ℓ} : {A : Type ℓ} → ℕ → Parser → A × Parser → Type 0
  Keeps k p r = IsParser r.1 × Goes k p r.1

  -- The result is a node.
  abbrev pub Makes : ℕ → Parser → ℕ × Parser → Type 0
  Makes k p r = IsParser r.1 × (Goes k p r.1 × (r.0 < length r.1.nodes))

  -- The result is a link.
  abbrev pub Links : ℕ → Parser → Option ℕ × Parser → Type 0
  Links k p r = IsParser r.1 × (Goes k p r.1 × IsLink (length r.1.nodes) r.0)

  pub set_node-Keeps :
      (i : ℕ) (f : AstNode → AstNode) (p : Parser)
      → IsParser p
      → ((n : AstNode) → IsNode (length p.nodes) n → IsNode (length p.nodes) (f n))
      → Yields (Keeps 0 p) (set_node i f p)
  unfolding set_node
  set_node-Keeps i f p v keeps =
      let same = length-modify p.nodes i f in
      gives ((IsLinked-modify p.nodes i f keeps v.0, omega arith), omega arith)

  module _ (i : ℕ) (link : Option ℕ) (p : Parser) (v : IsParser p)
      (l : IsLink (length p.nodes) link) where
    pub set_left-Keeps : Yields (Keeps 0 p) (set_left i link p)
    set_left-Keeps = set_node-Keeps i _ p v (λ n h. (l, h.1, h.2, h.3))

    pub set_right-Keeps : Yields (Keeps 0 p) (set_right i link p)
    set_right-Keeps = set_node-Keeps i _ p v (λ n h. (h.0, l, h.2, h.3))

    pub set_third-Keeps : Yields (Keeps 0 p) (set_third i link p)
    set_third-Keeps = set_node-Keeps i _ p v (λ n h. (h.0, h.1, l, h.3))

    pub set_next-Keeps : Yields (Keeps 0 p) (set_next i link p)
    set_next-Keeps = set_node-Keeps i _ p v (λ n h. (h.0, h.1, h.2, l))

  pub set_op-Keeps :
      (i : ℕ) (kind : TokenKind) (p : Parser) → IsParser p → Yields (Keeps 0 p) (set_op i kind p)
  set_op-Keeps i kind p v = set_node-Keeps i _ p v (λ n h. h)

  pub set_value-Keeps : (i x : ℕ) (p : Parser) → IsParser p → Yields (Keeps 0 p) (set_value i x p)
  set_value-Keeps i x p v = set_node-Keeps i _ p v (λ n h. h)

  pub link_after-Keeps :
      (last : Option ℕ) (entry : ℕ) (p : Parser)
      → IsParser p
      → entry < length p.nodes
      → Yields (Keeps 0 p) (link_after last entry p)
  unfolding link_after
  link_after-Keeps none entry p v h = gives (v, omega arith)
  link_after-Keeps (some last) entry p v h = set_next-Keeps last (some entry) p v h

  pub p_new_node-Makes :
      (kind : AstKind) (token_index : ℕ) (p : Parser)
      → IsParser p
      → Yields (Makes 0 p) (p_new_node c kind token_index p)
  unfolding p_new_node
  p_new_node-Makes kind token_index p v =
      let more = length-append {0} p.nodes (blank_node kind token_index ∷ []) in
      Yields-split (leb c.max_nodes (length p.nodes)) (λ full. refused)
        (λ room. gives (
          (IsLinked-append_blank p.nodes kind token_index v.0, ground (arith, more)),
          omega (arith, more),
        ))

  -- A match consumes the token.
  pub p_match-Keeps :
      (kind : TokenKind) (p : Parser)
      → is_kind TokenKind.eof kind ≡ false
      → IsParser p
      → Yields (λ r. IsParser r.1 × Goes (to_bit r.0) p r.1) (p_match c kind p)
  unfolding p_match
  p_match-Keeps kind p no_end v =
      Yields-split (is_kind (kind_at c.tokens p.pos) kind)
        (λ e.
          let inside = at_token (λ k. is_kind k kind) c.tokens p.pos no_end e in
          gives (v, omega arith))
        (λ e. gives (v, omega arith))

  pub p_expect-Keeps :
      (kind : TokenKind) (p : Parser)
      → is_kind TokenKind.eof kind ≡ false
      → IsParser p
      → Yields (Keeps 1 p) (p_expect c kind p)
  unfolding p_expect
  p_expect-Keeps kind p no_end v = Yields-then (p_match-Keeps kind p no_end v) (λ r h.
      Yields-when (λ b. IsParser r.1 × Goes (to_bit b) p r.1) r.0 h (λ k. gives k) (λ k. refused))
