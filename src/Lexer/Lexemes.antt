-- ===== src/Lexer/Lexemes.antt =====
-- Tokens as texts, and a text of such tokens with a space before each as the lexer of lexer/lexer.cpp reads
-- it.
use dtime_db.Prelude.{
  ℕ, ◌≡◌, refl, ap, sym, ◌∙◌, true, false, List, [], ◌∷◌, ◌++◌, append_assoc, All, arith,
}
use dtime_db.Token.{
  Text, codes, TokenType, Token, look_up, find_keyword, token_integer, token_float, token_string,
  token_plus, token_minus, token_asterisk, token_slash, token_modulo, token_and, token_or, token_lt,
  token_gt, token_le, token_ge, token_eq, token_lparen, token_rparen, token_null,
}
use dtime_db.Lexer.{Lexer, is_digit, is_space, symbol, pair_symbol, word_token, next_token}
use dtime_db.Lexer.Scan.{take_while, drop_while, scan_number, scan_pair, scan_other, scan_at, scan}
use dtime_db.Lexer.Loops.{left}
use dtime_db.Lexer.Words.{
  escape, NotNul, yields_scan, scan_quote, double_quoted-escape, take_while-All,
}

abbrev pub IsDigit : ℕ → Type 0
IsDigit c = is_digit c ≡ true

-- A string stands between double quotes.
unfoldable pub lexeme_text : TokenType → Text → Text
lexeme_text token_string literal = 34 ∷ (escape literal ++ (34 ∷ []))
lexeme_text _ literal = literal

-- Digits on both sides of a point.
pub record IsFloat (literal : Text) : Type 0 where
  pub first : ℕ
  pub whole : Text
  pub tenths : ℕ
  pub fraction : Text
  pub joined : literal ≡ (first ∷ whole) ++ (46 ∷ tenths ∷ fraction)
  pub whole_digits : All IsDigit (first ∷ whole)
  pub fraction_digits : All IsDigit (tenths ∷ fraction)

-- The literals that a token of each type can have, for the types that expressions use.
unfoldable pub FitsType : TokenType → Text → Type 0
FitsType token_string literal = All NotNul literal
FitsType token_integer [] = ⊥
FitsType token_integer (c ∷ w) = All IsDigit (c ∷ w)
FitsType token_float literal = IsFloat literal
FitsType token_plus literal = literal ≡ codes "+"
FitsType token_minus literal = literal ≡ codes "-"
FitsType token_asterisk literal = literal ≡ codes "*"
FitsType token_slash literal = literal ≡ codes "/"
FitsType token_modulo literal = literal ≡ codes "%"
FitsType token_lparen literal = literal ≡ codes "("
FitsType token_rparen literal = literal ≡ codes ")"
FitsType token_eq literal = literal ≡ codes "="
FitsType token_lt literal = literal ≡ codes "<"
FitsType token_gt literal = literal ≡ codes ">"
FitsType token_le literal = literal ≡ codes "<="
FitsType token_ge literal = literal ≡ codes ">="
FitsType token_and literal = literal ≡ codes "and"
FitsType token_or literal = literal ≡ codes "or"
FitsType token_null literal = literal ≡ codes "null"
FitsType _ literal = ⊥

abbrev pub IsLexeme : Token → Type 0
IsLexeme t = FitsType t.type t.literal

scan_space : (cs : Text) → scan (32 ∷ cs) ≡ scan cs
unfolding scan drop_while
scan_space cs = refl

digit_no_space : (c : ℕ) → is_digit c ≡ true → is_space c ≡ false
digit_no_space c h = ground arith

scan_at_digit : (c : ℕ) (r : Text) → is_digit c ≡ true → scan_at c r ≡ scan_number (c ∷ r)
unfolding scan_at scan_other symbol pair_symbol
scan_at_digit c r h = ground arith

scan_integer :
    (c : ℕ) (w rest : Text)
    → All IsDigit (c ∷ w)
    → scan ((c ∷ w) ++ (32 ∷ rest)) ≡ (record { type = token_integer; literal = c ∷ w }, 32 ∷ rest)
unfolding scan scan_number drop_while
scan_integer c w rest h =
    let start : is_space c ≡ false = digit_no_space c h.0 in
    let (word, behind) = take_while-All is_digit (c ∷ w) (32 ∷ rest) h refl in
    rw (start, scan_at_digit c (w ++ (32 ∷ rest)) h.0, word, behind)

scan_digits_point :
    (c : ℕ) (w : Text) (d : ℕ) (v rest : Text)
    → All IsDigit (c ∷ w)
    → All IsDigit (d ∷ v)
    → scan ((c ∷ w) ++ (46 ∷ ((d ∷ v) ++ (32 ∷ rest))))
      ≡ (record { type = token_float; literal = (c ∷ w) ++ (46 ∷ d ∷ v) }, 32 ∷ rest)
unfolding scan scan_number drop_while
scan_digits_point c w d v rest h k =
    let start : is_space c ≡ false = digit_no_space c h.0 in
    let behind_point = 46 ∷ ((d ∷ v) ++ (32 ∷ rest)) in
    let (word, behind) = take_while-All is_digit (c ∷ w) behind_point h refl in
    let (word', behind') = take_while-All is_digit (d ∷ v) (32 ∷ rest) k refl in
    rw (start, scan_at_digit c (w ++ behind_point) h.0, word, behind)
      (rw (word', behind') (rw k.0 refl))

scan_float :
    (literal rest : Text)
    → IsFloat literal
    → scan (literal ++ (32 ∷ rest)) ≡ (record { type = token_float; literal = literal }, 32 ∷ rest)
scan_float literal rest f =
    let point = 46 ∷ f.tenths ∷ f.fraction in
    ap (λ l. scan (l ++ (32 ∷ rest))) f.joined
    ∙ ap scan (append_assoc (f.first ∷ f.whole) point (32 ∷ rest))
    ∙ scan_digits_point f.first f.whole f.tenths f.fraction rest f.whole_digits f.fraction_digits
    ∙ ap (λ l. (record { type = token_float; literal = l }, 32 ∷ rest)) (sym f.joined)

scan_string :
    (literal rest : Text)
    → All NotNul literal
    → scan ((34 ∷ (escape literal ++ (34 ∷ []))) ++ (32 ∷ rest))
      ≡ (record { type = token_string; literal = literal }, 32 ∷ rest)
scan_string literal rest h =
    ap (λ ts. scan (34 ∷ ts)) (append_assoc (escape literal) (34 ∷ []) (32 ∷ rest))
    ∙ scan_quote (escape literal ++ (34 ∷ (32 ∷ rest)))
    ∙ ap (λ (q : Text × Text). (record { type = token_string; literal = q.0 }, q.1))
        (double_quoted-escape literal (32 ∷ rest) h)

-- A fixed literal is read as the token that it stands for.
scan_fixed :
    (type : TokenType) (literal fixed rest : Text)
    → literal ≡ fixed
    → scan (fixed ++ (32 ∷ rest)) ≡ (record { type = type; literal = fixed }, 32 ∷ rest)
    → scan (literal ++ (32 ∷ rest)) ≡ (record { type = type; literal = literal }, 32 ∷ rest)
scan_fixed type literal fixed rest e h = rw e h

scan-lexeme :
    (type : TokenType) (literal rest : Text)
    → FitsType type literal
    → scan (lexeme_text type literal ++ (32 ∷ rest))
      ≡ (record { type = type; literal = literal }, 32 ∷ rest)
unfolding scan scan_at scan_other scan_pair symbol pair_symbol drop_while take_while word_token
    look_up find_keyword lexeme_text FitsType
scan-lexeme token_string literal rest h = scan_string literal rest h
scan-lexeme token_integer [] rest h = absurd h
scan-lexeme token_integer (c ∷ w) rest h = scan_integer c w rest h
scan-lexeme token_float literal rest h = scan_float literal rest h
scan-lexeme token_plus literal rest h = scan_fixed token_plus literal (codes "+") rest h refl
scan-lexeme token_minus literal rest h = scan_fixed token_minus literal (codes "-") rest h refl
scan-lexeme token_asterisk literal rest h =
    scan_fixed token_asterisk literal (codes "*") rest h refl
scan-lexeme token_slash literal rest h = scan_fixed token_slash literal (codes "/") rest h refl
scan-lexeme token_modulo literal rest h = scan_fixed token_modulo literal (codes "%") rest h refl
scan-lexeme token_lparen literal rest h = scan_fixed token_lparen literal (codes "(") rest h refl
scan-lexeme token_rparen literal rest h = scan_fixed token_rparen literal (codes ")") rest h refl
scan-lexeme token_eq literal rest h = scan_fixed token_eq literal (codes "=") rest h refl
scan-lexeme token_lt literal rest h = scan_fixed token_lt literal (codes "<") rest h refl
scan-lexeme token_gt literal rest h = scan_fixed token_gt literal (codes ">") rest h refl
scan-lexeme token_le literal rest h = scan_fixed token_le literal (codes "<=") rest h refl
scan-lexeme token_ge literal rest h = scan_fixed token_ge literal (codes ">=") rest h refl
scan-lexeme token_and literal rest h = scan_fixed token_and literal (codes "and") rest h refl
scan-lexeme token_or literal rest h = scan_fixed token_or literal (codes "or") rest h refl
scan-lexeme token_null literal rest h = scan_fixed token_null literal (codes "null") rest h refl
scan-lexeme _ literal rest h = absurd h

-- Each token with a space before it.
unfoldable pub spaced : List Token → Text
spaced [] = 32 ∷ []
spaced (t ∷ ts) = 32 ∷ (lexeme_text t.type t.literal ++ spaced ts)

-- The text behind the first space.
spaced_head : (ts : List Token) → (rest : Text) × (spaced ts ≡ 32 ∷ rest)
unfolding spaced
spaced_head [] = ([], refl)
spaced_head (t ∷ ts) = (lexeme_text t.type t.literal ++ spaced ts, refl)

pub next_token-spaced :
    (s : Lexer) (t : Token) (ts : List Token)
    → IsLexeme t
    → left s ≡ spaced (t ∷ ts)
    → ((next_token s).0 ≡ t) × (left (next_token s).1 ≡ spaced ts)
unfolding spaced
next_token-spaced s t ts h e =
    let (rest, head) = spaced_head ts in
    yields_scan s (32 ∷ (lexeme_text t.type t.literal ++ spaced ts)) t (spaced ts) e (
      scan_space (lexeme_text t.type t.literal ++ spaced ts)
      ∙ ap (λ r. scan (lexeme_text t.type t.literal ++ r)) head
      ∙ scan-lexeme t.type t.literal rest h
      ∙ ap (λ r. (t, r)) (sym head))
