-- ===== src/Compiler/Token.antt =====
-- `cc_token_kind_t` and `cc_token_t` of src/compiler/compiler.h.
use turning_machine_operatin.Base.{ℕ, Bool, ◌==◌}

pub data TokenKind : Type 0 where
  eof ident number string char kw_char kw_int kw_if kw_else kw_while kw_for kw_return : TokenKind
  lparen rparen lbrace rbrace lbracket rbracket comma semi plus minus star slash : TokenKind
  percent assign eq ne lt le gt ge and_and or_or not : TokenKind

-- The enumeration's values.
abbrev pub kind_code : TokenKind → ℕ
kind_code eof = 0
kind_code ident = 1
kind_code number = 2
kind_code string = 3
kind_code char = 4
kind_code kw_char = 5
kind_code kw_int = 6
kind_code kw_if = 7
kind_code kw_else = 8
kind_code kw_while = 9
kind_code kw_for = 10
kind_code kw_return = 11
kind_code lparen = 12
kind_code rparen = 13
kind_code lbrace = 14
kind_code rbrace = 15
kind_code lbracket = 16
kind_code rbracket = 17
kind_code comma = 18
kind_code semi = 19
kind_code plus = 20
kind_code minus = 21
kind_code star = 22
kind_code slash = 23
kind_code percent = 24
kind_code assign = 25
kind_code eq = 26
kind_code ne = 27
kind_code lt = 28
kind_code le = 29
kind_code gt = 30
kind_code ge = 31
kind_code and_and = 32
kind_code or_or = 33
kind_code not = 34

-- `a == b` on kinds.
abbrev pub is_kind : TokenKind → TokenKind → Bool
is_kind a b = kind_code a == kind_code b

pub record Token : Type 0 where
  pub kind : TokenKind
  pub line : ℕ
  pub col : ℕ
  pub offset : ℕ
  pub length : ℕ
