-- ===== src/Compiler/Lexer/Spans.antt =====
-- Where the tokens of `cc_lex` of src/compiler/compiler.c lie in the source.
use turning_machine_operatin.Base.{
  ℕ, zero, suc, ◌+◌, ◌-◌, ◌≤◌, ◌<◌, ◌≡◌, refl, Bool, false, ◌||◌, List, [], ◌∷◌, ◌==◌,
  if◌then◌else◌, length, take, drop, same_bytes, codes, arith, if_intro,
}
use turning_machine_operatin.Compiler.Result.{
  Result, ok, err, Yields, gives, refused, Yields-then, Yields-split, Yields-weaken,
}
use turning_machine_operatin.Compiler.Token.{TokenKind, Token, kind_code}
use turning_machine_operatin.Compiler.Lexer.{
  Place, is_word, isdigit, isalpha, keyword_kind, run_length, quoted_loop, head_or_nul, one_or_two,
  punctuation, lex_token, lex_loop, cc_lex,
}

-- The tokens stand one behind the other from `i` on, each of a character or more, and the last one
-- is for the end of the source, at `n`.
abbrev pub Spans : ℕ → List Token → ℕ → Type 0
Spans i [] n = ⊥
Spans i (t ∷ []) n = (t.kind ≡ TokenKind.eof) × (t.offset ≡ n) × (t.length ≡ 0) × (i ≤ n)
Spans i (t ∷ (u ∷ us)) n =
    (1 ≤ kind_code t.kind)
    × (i ≤ t.offset)
    × (1 ≤ t.length)
    × Spans (t.offset + t.length) (u ∷ us) n

Spans-earlier : (i j : ℕ) (ts : List Token) (n : ℕ) → i ≤ j → Spans j ts n → Spans i ts n
Spans-earlier i j [] n h s = s
Spans-earlier i j (t ∷ []) n h s = (s.0, s.1, s.2, omega arith)
Spans-earlier i j (t ∷ (u ∷ us)) n h s = (s.0, omega arith, s.2, s.3)

Spans-cons :
    (t : Token) (ts : List Token) (n : ℕ)
    → 1 ≤ kind_code t.kind
    → 1 ≤ t.length
    → Spans (t.offset + t.length) ts n
    → Spans t.offset (t ∷ ts) n
Spans-cons t [] n k l s = absurd s
Spans-cons t (u ∷ us) n k l s = (k, omega arith, l, s)

run_length-le : (test : ℕ → Bool) (rest : List ℕ) → run_length test rest ≤ length rest
unfolding run_length
run_length-le test [] = omega arith
run_length-le test (ch ∷ rest) = ground (arith, run_length-le test rest)

keyword_kind_pos : (s : List ℕ) → 1 ≤ kind_code (keyword_kind s)
unfolding keyword_kind
keyword_kind_pos s =
    let Fine = λ (k : TokenKind). 1 ≤ kind_code k in
    if_intro Fine (same_bytes s (codes "char")) (omega arith) (
      if_intro Fine (same_bytes s (codes "int")) (omega arith) (
        if_intro Fine (same_bytes s (codes "if")) (omega arith) (
          if_intro Fine (same_bytes s (codes "else")) (omega arith) (
            if_intro Fine (same_bytes s (codes "while")) (omega arith) (
              if_intro Fine (same_bytes s (codes "for")) (omega arith)
                (if_intro Fine (same_bytes s (codes "return")) (omega arith) (omega arith)))))))

-- The closing quote lies in the text.
quoted_loop_lem :
    (quote : ℕ) (rest : List ℕ) (p : Place)
    → Yields (λ q. (p.i ≤ q.i) × (q.i + 1 ≤ p.i + length rest)) (quoted_loop quote rest p)
unfolding quoted_loop
quoted_loop_lem quote [] p = refused
quoted_loop_lem quote (ch ∷ []) p =
    Yields-split (ch == quote) (λ e. gives (omega arith)) (λ e. refused)
quoted_loop_lem quote (ch ∷ (next ∷ rest)) p =
    Yields-split (ch == quote) (λ e. gives (omega arith))
      (λ e.
        Yields-split (ch == 92)
          (λ e.
            Yields-weaken (quoted_loop_lem quote rest (record p { i = p.i + 2; col = p.col + 2 }))
              (λ q h. omega arith))
          (λ e.
            let p₁ : Place =
              if ch == 10
              then record p { i = p.i + 1; line = p.line + 1; col = 1 }
              else record p { i = p.i + 1; col = p.col + 1 } in
            let moved : p₁.i ≡ p.i + 1 =
              if_intro (λ (q : Place). q.i ≡ p.i + 1) (ch == 10) refl refl in
            Yields-weaken (quoted_loop_lem quote (next ∷ rest) p₁) (λ q h. omega arith)))

-- A kind that is not the end's, and a length within the source.
abbrev Fits : List ℕ → TokenKind × ℕ → Type 0
Fits rest t = (1 ≤ kind_code t.0) × (1 ≤ t.1) × (t.1 ≤ 1 + length rest)

one_or_two-Fits :
    (second : ℕ) (rest : List ℕ) (double single : TokenKind)
    → 1 ≤ second
    → 1 ≤ kind_code double
    → 1 ≤ kind_code single
    → Fits rest (one_or_two second rest double single)
one_or_two-Fits second [] double single h d s =
    let differ : (0 == second) ≡ false = ground arith in rw differ (omega arith)
one_or_two-Fits second (ch ∷ rest) double single h d s =
    if_intro (Fits (ch ∷ rest)) (ch == second) (omega arith) (omega arith)

doubled-Fits :
    (second : ℕ) (rest : List ℕ) (double : TokenKind)
    → 1 ≤ second
    → 1 ≤ kind_code double
    → Yields (Fits rest) (if head_or_nul rest == second then ok (double, 2) else err)
doubled-Fits second [] double h d =
    let differ : (0 == second) ≡ false = ground arith in rw differ refused
doubled-Fits second (ch ∷ rest) double h d =
    Yields-split (ch == second) (λ e. gives (omega arith)) (λ e. refused)

punctuation-Fits : (ch : ℕ) (rest : List ℕ) → Yields (Fits rest) (punctuation ch rest)
unfolding punctuation
punctuation-Fits ch rest =
    let Fine = Yields (Fits rest) in
    if_intro Fine (ch == b'(') (gives (omega arith)) (
      if_intro Fine (ch == b')') (gives (omega arith)) (
        if_intro Fine (ch == b'{') (gives (omega arith)) (
          if_intro Fine (ch == b'}') (gives (omega arith)) (
            if_intro Fine (ch == b'[') (gives (omega arith)) (
              if_intro Fine (ch == b']') (gives (omega arith)) (
                if_intro Fine (ch == b',') (gives (omega arith)) (
                  if_intro Fine (ch == b';') (gives (omega arith)) (
                    if_intro Fine (ch == b'+') (gives (omega arith)) (
                      if_intro Fine (ch == b'-') (gives (omega arith)) (
                        if_intro Fine (ch == b'*') (gives (omega arith)) (
                          if_intro Fine (ch == b'/') (gives (omega arith)) (
                            if_intro Fine (ch == b'%') (gives (omega arith)) (
                              if_intro Fine (ch == b'!')
                                (gives (
                                  one_or_two-Fits b'=' rest TokenKind.ne TokenKind.not (omega arith)
                                    (omega arith) (omega arith)))
                                (if_intro Fine (ch == b'=')
                                  (gives (
                                    one_or_two-Fits b'=' rest TokenKind.eq TokenKind.assign
                                      (omega arith) (omega arith) (omega arith)))
                                  (if_intro Fine (ch == b'<')
                                    (gives (
                                      one_or_two-Fits b'=' rest TokenKind.le TokenKind.lt
                                        (omega arith) (omega arith) (omega arith)))
                                    (if_intro Fine (ch == b'>')
                                      (gives (
                                        one_or_two-Fits b'=' rest TokenKind.ge TokenKind.gt
                                          (omega arith) (omega arith) (omega arith)))
                                      (if_intro Fine (ch == b'&')
                                        (doubled-Fits b'&' rest TokenKind.and_and (omega arith)
                                          (omega arith))
                                        (if_intro Fine (ch == b'|')
                                          (doubled-Fits b'|' rest TokenKind.or_or (omega arith)
                                            (omega arith))
                                          (refused)))))))))))))))))))

-- A token starts where it is looked for, and the lexer goes on behind it.
abbrev Starts : ℕ → Place → Token × Place → Type 0
Starts left p r =
    (r.0.offset ≡ p.i)
    × (1 ≤ kind_code r.0.kind)
    × (1 ≤ r.0.length)
    × (r.0.length ≤ left)
    × (r.1.i ≡ p.i + r.0.length)

lex_token-Starts :
    (ch : ℕ) (rest : List ℕ) (p : Place)
    → Yields (Starts (suc (length rest)) p) (lex_token ch rest p)
unfolding lex_token
lex_token-Starts ch rest p =
    let word = run_length-le is_word rest in
    let digits = run_length-le isdigit rest in
    let kind = keyword_kind_pos (take (suc (run_length is_word rest)) (ch ∷ rest)) in
    Yields-split (isalpha ch || ch == b'_')
      (λ e. gives (refl, kind, omega arith, omega arith, refl))
      (λ e.
        Yields-split (isdigit ch) (λ e. gives (refl, omega arith, omega arith, omega arith, refl))
          (λ e.
            Yields-split (ch == 34 || ch == 39)
              (λ e.
                Yields-then (quoted_loop_lem ch rest (record p { i = p.i + 1; col = p.col + 1 }))
                  (λ q h. gives (
                    refl,
                    if_intro (λ (k : TokenKind). 1 ≤ kind_code k) (ch == 34) (omega arith)
                        (omega arith),
                    omega arith,
                    omega arith,
                    omega arith,
                  )))
              (λ e.
                Yields-then (punctuation-Fits ch rest)
                  (λ t h. gives (refl, h.0, h.1, omega arith, refl)))))

length-drop : (n : ℕ) (xs : List ℕ) → length (drop n xs) ≡ length xs - n
length-drop zero xs = omega arith
length-drop (suc n) [] = omega arith
length-drop (suc n) (x ∷ xs) = omega (arith, length-drop n xs)

-- The tokens from a place on, in the room that is left.
abbrev Tokens : ℕ → ℕ → ℕ → List Token → Type 0
Tokens i n room ts = Spans i ts n × (length ts ≤ room)

lex_loop-Spans :
    (fuel : ℕ) (rest : List ℕ) (p : Place) (room n : ℕ)
    → length rest < fuel
    → p.i + length rest ≡ n
    → Yields (Tokens p.i n room) (lex_loop fuel rest p room)
unfolding lex_loop
lex_loop-Spans zero rest p room n few at = absurd (omega arith)
lex_loop-Spans (suc fuel) [] p room n few at =
    Yields-split (room == 0) (λ e. refused)
      (λ e. gives ((refl, omega arith, refl, omega arith), ground arith))
lex_loop-Spans (suc fuel) (ch ∷ rest) p room n few at =
    Yields-split (ch == 32 || (ch == 9 || ch == 13))
      (λ e.
        later (record p { i = p.i + 1; col = p.col + 1 }) refl
          (lex_loop-Spans fuel rest (record p { i = p.i + 1; col = p.col + 1 }) room n (omega arith)
            (omega arith)))
      (λ e.
        Yields-split (ch == 10)
          (λ e.
            later (record p { i = p.i + 1; line = p.line + 1; col = 1 }) refl
              (lex_loop-Spans fuel rest (record p { i = p.i + 1; line = p.line + 1; col = 1 }) room
                n (omega arith) (omega arith)))
          (λ e. Yields-then (lex_token-Starts ch rest p) (λ t h.
            Yields-split (room == 0) (λ e. refused)
              (λ e.
                let shorter = length-drop (t.1.i - p.i) (ch ∷ rest) in
                let has_room : 1 ≤ room = ground arith in
                Yields-then
                  (lex_loop-Spans fuel (drop (t.1.i - p.i) (ch ∷ rest)) t.1 (room - 1) n
                    (omega (arith, shorter, h)) (omega (arith, shorter, h)))
                  (λ ts s.
                    let here =
                      Spans-cons t.0 ts n h.1 h.2 (
                        Spans-earlier (t.0.offset + t.0.length) t.1.i ts n (omega (arith, h))
                          s.0) in
                    gives (
                      Spans-earlier p.i t.0.offset (t.0 ∷ ts) n (omega (arith, h)) here,
                      omega (arith, s.1),
                    ))))))
  where
    later :
        {r : Result (List Token)} (q : Place)
        → q.i ≡ p.i + 1
        → Yields (Tokens q.i n room) r
        → Yields (Tokens p.i n room) r
    later q e y = Yields-weaken y (λ ts s. (Spans-earlier p.i q.i ts n (omega (arith, e)) s.0, s.1))

-- The lexer returns -1, or tokens that stand in the source one behind the other, each of a character
-- or more, but for the last one, which is for the end of the source; there are no more than the
-- array takes. Its loops always end.
pub cc_lex-Spans :
    (src : List ℕ) (max_tokens : ℕ)
    → Yields (λ ts. Spans 0 ts (length src) × (length ts ≤ max_tokens)) (cc_lex src max_tokens)
unfolding cc_lex
cc_lex-Spans src max_tokens =
    Yields-split (max_tokens == 0) (λ e. refused)
      (λ e.
        lex_loop-Spans (suc (length src)) src (record { i = 0; line = 1; col = 1 }) max_tokens
          (length src) (omega arith) (omega arith))
