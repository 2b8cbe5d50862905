-- ===== src/Compiler/Lexer.antt =====
-- `cc_lex` of src/compiler/compiler.c. A source is the list of its characters before the closing
-- NUL, read by `i`; `rest` is what stands from `i` on. A source is shorter than 2^32 characters, so
-- that no counter of the lexer wraps.
pub mod Spans
use turning_machine_operatin.Base.{
  ℕ, zero, suc, ◌+◌, ◌-◌, Bool, true, false, ◌&&◌, ◌||◌, List, [], ◌∷◌, ◌++◌, leb, ltb, ◌==◌,
  if◌then◌else◌, length, take, drop, same_bytes, codes,
}
use turning_machine_operatin.Compiler.Result.{Result, ok, err, starved, bind}
use turning_machine_operatin.Compiler.Token
use turning_machine_operatin.Compiler.Token.{TokenKind, Token}

-- `isalpha`, `isdigit` and `isalnum` in the C locale.
unfoldable pub isalpha : ℕ → Bool
isalpha ch = leb 65 ch && leb ch 90 || leb 97 ch && leb ch 122

unfoldable pub isdigit : ℕ → Bool
isdigit ch = leb 48 ch && leb ch 57

-- A character of a name after the first.
unfoldable pub is_word : ℕ → Bool
unfolding isalpha isdigit
is_word ch = isalpha ch || isdigit ch || ch == b'_'

-- The kind of a word: a keyword's or `CC_TOK_IDENT`.
unfoldable pub keyword_kind : List ℕ → TokenKind
keyword_kind s =
    if same_bytes s (codes "char")
    then TokenKind.kw_char
    else if same_bytes s (codes "int")
    then TokenKind.kw_int
    else if same_bytes s (codes "if")
    then TokenKind.kw_if
    else if same_bytes s (codes "else")
    then TokenKind.kw_else
    else if same_bytes s (codes "while")
    then TokenKind.kw_while
    else if same_bytes s (codes "for")
    then TokenKind.kw_for
    else if same_bytes s (codes "return")
    then TokenKind.kw_return
    else TokenKind.ident

-- How many characters from the start pass the test: the loops over a word and over a number.
unfoldable pub run_length : (ℕ → Bool) → List ℕ → ℕ
run_length test [] = 0
run_length test (ch ∷ rest) = let more = run_length test rest in if test ch then suc more else 0

-- Where a text of characters from `i` on leaves the lexer: characters read, line and column.
pub record Place : Type 0 where
  pub i : ℕ
  pub line : ℕ
  pub col : ℕ

-- The loop over a string or a character, after its opening quote. `err` is a missing closing quote.
unfoldable pub quoted_loop : ℕ → List ℕ → Place → Result Place
quoted_loop quote [] p = err
quoted_loop quote (ch ∷ []) p = if ch == quote then ok p else err
quoted_loop quote (ch ∷ (next ∷ rest)) p =
    let escaped = quoted_loop quote rest (record p { i = p.i + 2; col = p.col + 2 }) in
    let p₁ : Place =
      if ch == 10
      then record p { i = p.i + 1; line = p.line + 1; col = 1 }
      else record p { i = p.i + 1; col = p.col + 1 } in
    let later = quoted_loop quote (next ∷ rest) p₁ in
    if ch == quote then ok p else if ch == 92 then escaped else later

-- The character after the current one; the end gives the NUL.
abbrev pub head_or_nul : List ℕ → ℕ
head_or_nul [] = 0
head_or_nul (ch ∷ rest) = ch

-- One or two characters: the second kind where the next character is `second`.
abbrev one_or_two : ℕ → List ℕ → TokenKind → TokenKind → TokenKind × ℕ
one_or_two second rest double single =
    if head_or_nul rest == second then (double, 2) else (single, 1)

-- The switch over the other characters: a kind and a length. `err` is -1.
unfoldable pub punctuation : ℕ → List ℕ → Result (TokenKind × ℕ)
punctuation ch rest =
    if ch == b'('
    then ok (TokenKind.lparen, 1)
    else if ch == b')'
    then ok (TokenKind.rparen, 1)
    else if ch == b'{'
    then ok (TokenKind.lbrace, 1)
    else if ch == b'}'
    then ok (TokenKind.rbrace, 1)
    else if ch == b'['
    then ok (TokenKind.lbracket, 1)
    else if ch == b']'
    then ok (TokenKind.rbracket, 1)
    else if ch == b','
    then ok (TokenKind.comma, 1)
    else if ch == b';'
    then ok (TokenKind.semi, 1)
    else if ch == b'+'
    then ok (TokenKind.plus, 1)
    else if ch == b'-'
    then ok (TokenKind.minus, 1)
    else if ch == b'*'
    then ok (TokenKind.star, 1)
    else if ch == b'/'
    then ok (TokenKind.slash, 1)
    else if ch == b'%'
    then ok (TokenKind.percent, 1)
    else if ch == b'!'
    then ok (one_or_two b'=' rest TokenKind.ne TokenKind.not)
    else if ch == b'='
    then ok (one_or_two b'=' rest TokenKind.eq TokenKind.assign)
    else if ch == b'<'
    then ok (one_or_two b'=' rest TokenKind.le TokenKind.lt)
    else if ch == b'>'
    then ok (one_or_two b'=' rest TokenKind.ge TokenKind.gt)
    else if ch == b'&'
    then (if head_or_nul rest == b'&' then ok (TokenKind.and_and, 2) else err)
    else if ch == b'|'
    then (if head_or_nul rest == b'|' then ok (TokenKind.or_or, 2) else err)
    else err

-- A token that starts at `p`, and the place after it.
abbrev spanned : Place → TokenKind → ℕ → Token × Place
spanned p kind n = (
  record { kind = kind; line = p.line; col = p.col; offset = p.i; length = n },
  record p { i = p.i + n; col = p.col + n },
)

-- The token at the first of the characters `ch ∷ rest`, which is no white space.
unfoldable pub lex_token : ℕ → List ℕ → Place → Result (Token × Place)
unfolding is_word isalpha isdigit keyword_kind run_length quoted_loop punctuation
lex_token ch rest p =
    let word = suc (run_length is_word rest) in
    let digits = suc (run_length isdigit rest) in
    let kind = if ch == 34 then TokenKind.string else TokenKind.char in
    let opened : Place = record p { i = p.i + 1; col = p.col + 1 } in
    if isalpha ch || ch == b'_'
    then ok (spanned p (keyword_kind (take word (ch ∷ rest))) word)
    else if isdigit ch
    then ok (spanned p TokenKind.number digits)
    else if ch == 34 || ch == 39
    then bind (quoted_loop ch rest opened) (λ q. ok (
      record { kind = kind; line = p.line; col = p.col; offset = p.i; length = q.i + 1 - p.i },
      record q { i = q.i + 1; col = q.col + 1 },
    ))
    else bind (punctuation ch rest) (λ t. ok (spanned p t.0 t.1))

-- The closing token.
abbrev end_token : Place → Token
end_token p = record { kind = TokenKind.eof; line = p.line; col = p.col; offset = p.i; length = 0 }

-- The main loop; `room` is how many tokens the array still takes. A round reads at least one
-- character.
unfoldable pub lex_loop : ℕ → List ℕ → Place → ℕ → Result (List Token)
unfolding lex_token
lex_loop zero rest p room = starved
lex_loop (suc fuel) [] p room = if room == 0 then err else ok (end_token p ∷ [])
lex_loop (suc fuel) (ch ∷ rest) p room =
    let blank = lex_loop fuel rest (record p { i = p.i + 1; col = p.col + 1 }) room in
    let line_end = lex_loop fuel rest (record p { i = p.i + 1; line = p.line + 1; col = 1 }) room in
    let token = bind (lex_token ch rest p) (λ t.
      let later =
        bind (lex_loop fuel (drop (t.1.i - p.i) (ch ∷ rest)) t.1 (room - 1))
          (λ tokens. ok (t.0 ∷ tokens)) in
      if room == 0 then err else later) in
    if ch == 32 || (ch == 9 || ch == 13) then blank else if ch == 10 then line_end else token

-- The tokens, with the one for the end of the source; their number is the return value.
unfoldable pub cc_lex : List ℕ → ℕ → Result (List Token)
unfolding lex_loop
cc_lex src max_tokens =
    if max_tokens == 0
    then err
    else lex_loop (suc (length src)) src (record { i = 0; line = 1; col = 1 }) max_tokens
