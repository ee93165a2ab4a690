-- ===== src/Lexer/Scan.antt =====
-- The lexer of lexer/lexer.cpp as a function of the text that is left: no positions and no fuel.
use dtime_db.Prelude.{ℕ, Bool, ◌&&◌, ◌||◌, none, some, [], ◌∷◌, ◌++◌, ◌==◌, if◌then◌else◌}
use dtime_db.Token.{
  Text, codes, TokenType, Token, token_illegal, token_eof, token_integer, token_float, token_string,
}
use dtime_db.Lexer.{
  is_digit, is_letter, is_word, is_space, is_escape, escape_value, symbol, pair_symbol, word_token,
}

abbrev pub head_or_end : Text → ℕ
head_or_end [] = 0
head_or_end (c ∷ r) = c

abbrev pub tail : Text → Text
tail [] = []
tail (c ∷ r) = r

unfoldable pub take_while : (ℕ → Bool) → Text → Text
take_while p [] = []
take_while p (c ∷ r) = let rest = take_while p r in if p c then c ∷ rest else []

unfoldable pub drop_while : (ℕ → Bool) → Text → Text
drop_while p [] = []
drop_while p (c ∷ r) = let rest = drop_while p r in if p c then rest else c ∷ r

-- The text up to a quote, and what stands behind it.
unfoldable pub single_quoted : Text → Text × Text
single_quoted [] = ([], [])
single_quoted (c ∷ []) = if (c == 39) || (c == 0) then ([], []) else (c ∷ [], [])
single_quoted (c ∷ d ∷ r) =
    let skipped = single_quoted r in
    let plain = single_quoted (d ∷ r) in
    if (c == 39) || (c == 0)
    then ([], d ∷ r)
    else if (c == 92) && (d == 39)
    then (d ∷ skipped.0, skipped.1)
    else (c ∷ plain.0, plain.1)

unfoldable pub double_quoted : Text → Text × Text
double_quoted [] = ([], [])
double_quoted (c ∷ []) = if (c == 34) || (c == 0) then ([], []) else (c ∷ [], [])
double_quoted (c ∷ d ∷ r) =
    let skipped = double_quoted r in
    let plain = double_quoted (d ∷ r) in
    if (c == 34) || (c == 0)
    then ([], d ∷ r)
    else if (c == 92) && is_escape d
    then (escape_value d ∷ skipped.0, skipped.1)
    else (c ∷ plain.0, plain.1)

abbrev token_of : TokenType → Text → Token
token_of type literal = record { type = type; literal = literal }

-- A number, and what follows it: a fraction needs a digit behind the point.
unfoldable pub scan_number : Text → Token × Text
scan_number cs =
    let integer = take_while is_digit cs in
    let rest = drop_while is_digit cs in
    if (head_or_end rest == b'.') && is_digit (head_or_end (tail rest))
    then (
      token_of token_float (integer ++ (b'.' ∷ take_while is_digit (tail rest))),
      drop_while is_digit (tail rest),
    )
    else (token_of token_integer integer, rest)

unfoldable pub scan_pair : ℕ → Text → ℕ × TokenType × TokenType → Token × Text
scan_pair c r (second, long, short) =
    if head_or_end r == second
    then (token_of long (c ∷ second ∷ []), tail r)
    else (token_of short (c ∷ []), r)

unfoldable pub scan_other : ℕ → Text → Token × Text
scan_other c r =
    if c == 39
    then (token_of token_string (single_quoted r).0, (single_quoted r).1)
    else if c == 34
    then (token_of token_string (double_quoted r).0, (double_quoted r).1)
    else if c == 0
    then (token_of token_eof (codes "EOF"), r)
    else if is_digit c
    then scan_number (c ∷ r)
    else if is_letter c
    then (word_token (take_while is_word (c ∷ r)), drop_while is_word (c ∷ r))
    else (token_of token_illegal (c ∷ []), r)

-- The token at the head of a text, and the text behind it.
unfoldable pub scan_at : ℕ → Text → Token × Text
scan_at c r = elim (symbol c) [
  | some type ↦ (token_of type (c ∷ []), r)
  | none ↦ elim (pair_symbol c) [ some p ↦ scan_pair c r p | none ↦ scan_other c r ]
]

unfoldable pub scan : Text → Token × Text
scan text = let cs = drop_while is_space text in scan_at (head_or_end cs) (tail cs)
