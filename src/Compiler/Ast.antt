-- ===== src/Compiler/Ast.antt =====
-- `cc_ast_node_t` of src/compiler/compiler.h, and the parser's state and primitives of
-- src/compiler/compiler.c. A link to a node is `none` for -1. The array of nodes is a list, so that
-- `node_count` is its length.
use turning_machine_operatin.Base.{
  ℕ, zero, suc, ◌+◌, Bool, true, false, Option, none, some, List, [], ◌∷◌, ◌++◌, leb, if◌then◌else◌,
  length,
}
use turning_machine_operatin.Compiler.Result.{ok, err}
use turning_machine_operatin.Compiler.Action.{Action, ◌>>=◌, pure, fail, when_else}
use turning_machine_operatin.Compiler.Token.{TokenKind, Token, is_kind}

pub data AstKind : Type 0 where
  unknown program func_decl var_decl assign binop unop if_node while_node : AstKind
  for_node call return_node literal ident : AstKind

pub record AstNode : Type 0 where
  pub kind : AstKind
  pub value : ℕ
  pub left : Option ℕ
  pub right : Option ℕ
  pub third : Option ℕ
  pub next : Option ℕ
  pub op : TokenKind
  pub token_index : ℕ

-- What `p_new_node` writes.
unfoldable pub blank_node : AstKind → ℕ → AstNode
blank_node kind token_index = record {
  kind = kind;
  value = 0;
  left = none;
  right = none;
  third = none;
  next = none;
  op = TokenKind.eof;
  token_index = token_index;
}

-- The entry of a list, if there is one.
abbrev pub get_elem? {ℓ} : {A : Type ℓ} → List A → ℕ → Option A
get_elem? [] i = none
get_elem? (x ∷ xs) zero = some x
get_elem? (x ∷ xs) (suc i) = get_elem? xs i

-- `f` applied to one entry.
abbrev pub modify {ℓ} : {A : Type ℓ} → List A → ℕ → (A → A) → List A
modify [] i f = []
modify (x ∷ xs) zero f = f x ∷ xs
modify (x ∷ xs) (suc i) f = x ∷ modify xs i f

-- What `cc_parser_t` holds that does not change.
pub record Source : Type 0 where
  pub src : List ℕ
  pub tokens : List Token
  pub max_nodes : ℕ

-- What changes.
pub record Parser : Type 0 where
  pub pos : ℕ
  pub nodes : List AstNode

-- A function of the parser. Every -1 is passed on to the caller of `cc_parse`, so that the state
-- after it is not read.
abbrev pub Parse {ℓ} : Type ℓ → Type ℓ
Parse A = Action Parser A

abbrev pub get_pos : Parse ℕ
get_pos p = ok (p.pos, p)

-- `p->pos++`
abbrev pub advance : Parse (Unit {0})
advance p = ok (tt, record p { pos = p.pos + 1 })

-- Writes to one node.
unfoldable pub set_node : ℕ → (AstNode → AstNode) → Parse (Unit {0})
set_node i f p = ok (tt, record p { nodes = modify p.nodes i f })

abbrev pub set_left : ℕ → Option ℕ → Parse (Unit {0})
set_left i link = set_node i (λ n. record n { left = link })

abbrev pub set_right : ℕ → Option ℕ → Parse (Unit {0})
set_right i link = set_node i (λ n. record n { right = link })

abbrev pub set_third : ℕ → Option ℕ → Parse (Unit {0})
set_third i link = set_node i (λ n. record n { third = link })

abbrev pub set_next : ℕ → Option ℕ → Parse (Unit {0})
set_next i link = set_node i (λ n. record n { next = link })

abbrev pub set_op : ℕ → TokenKind → Parse (Unit {0})
set_op i kind = set_node i (λ n. record n { op = kind })

abbrev pub set_value : ℕ → ℕ → Parse (Unit {0})
set_value i v = set_node i (λ n. record n { value = v })

-- `first` and `last` of a list that is being linked: the new entry goes behind the last one.
unfoldable pub link_after : Option ℕ → ℕ → Parse (Unit {0})
link_after none entry = pure tt
link_after (some last) entry = set_next last (some entry)

abbrev pub or_default : Option ℕ → ℕ → ℕ
or_default none entry = entry
or_default (some first) entry = first

-- The token at a position, the end of the source beyond the last one.
unfoldable pub kind_at : List Token → ℕ → TokenKind
kind_at [] i = TokenKind.eof
kind_at (t ∷ ts) zero = t.kind
kind_at (t ∷ ts) (suc i) = kind_at ts i

module _ (c : Source) where
  unfoldable pub p_peek_kind : Parse TokenKind
  unfolding kind_at
  p_peek_kind p = ok (kind_at c.tokens p.pos, p)

  unfoldable pub p_match : TokenKind → Parse Bool
  unfolding kind_at
  p_match kind p =
      if is_kind (kind_at c.tokens p.pos) kind
      then ok (true, record p { pos = p.pos + 1 })
      else ok (false, p)

  -- `if (!p_expect(p, kind)) return -1;`
  unfoldable pub p_expect : TokenKind → Parse (Unit {0})
  unfolding p_match
  p_expect kind = do seen ← p_match kind; when_else seen (pure tt) fail

  unfoldable pub p_new_node : AstKind → ℕ → Parse ℕ
  p_new_node kind token_index p =
      if leb c.max_nodes (length p.nodes)
      then err
      else ok (length p.nodes, record p { nodes = p.nodes ++ (blank_node kind token_index ∷ []) })
