-- ===== src/Lexer.antt =====
-- The lexer: lexer/lexer.h and lexer/lexer.cpp. A character is its byte. The positions stay far below
-- the limit of `int`, and `m_pos` is never decremented at 0. The proofs are in the modules below.
pub mod Scan
pub mod Loops
pub mod Quotes
pub mod Refinement
pub mod Progress
pub mod Words
pub mod Lexemes
use dtime_db.Prelude.{
  ℕ, zero, suc, ◌+◌, ◌-◌, Bool, true, false, ◌&&◌, ◌||◌, List, [], ◌∷◌, ◌++◌, map, length, take,
  drop, get_or, Option, none, some, leb, ◌==◌, if◌then◌else◌,
}
use dtime_db.Token.{
  Text, codes, TokenType, Token, look_up, token_illegal, token_eof, token_integer, token_float,
  token_string, token_plus, token_minus, token_asterisk, token_slash, token_modulo, token_decrease,
  token_lt, token_gt, token_le, token_ge, token_eq, token_lparen, token_rparen, token_dot,
  token_comma, token_identifier,
}

pub record Lexer : Type 0 where
  pub input : Text
  pub ch : ℕ
  pub pos : ℕ
  pub next_pos : ℕ

-- `Lexer(buf, len)`.
abbrev pub lexer_of : Text → Lexer
lexer_of buf = record { input = buf; ch = 0; pos = 0; next_pos = 0 }

abbrev new_token : TokenType → Text → Token
new_token type literal = record { type = type; literal = literal }

abbrev pub is_digit : ℕ → Bool
is_digit c = leb b'0' c && leb c b'9'

abbrev pub is_letter : ℕ → Bool
is_letter c = (leb b'a' c && leb c b'z') || (leb b'A' c && leb c b'Z') || (c == b'_')

abbrev pub is_word : ℕ → Bool
is_word c = is_letter c || is_digit c

abbrev pub is_space : ℕ → Bool
is_space c = (c == b' ') || (c == 9) || (c == 10) || (c == 13)

-- `std::tolower` in the C locale.
abbrev pub to_lower : ℕ → ℕ
to_lower c = if leb b'A' c && leb c b'Z' then c + 32 else c

unfoldable pub peek_char : Lexer → ℕ
peek_char s = if leb (length s.input) s.next_pos then 0 else get_or s.input s.next_pos 0

unfoldable pub read_char : Lexer → Lexer
unfolding peek_char
read_char s = record s { ch = peek_char s; pos = s.next_pos; next_pos = suc s.next_pos }

unfoldable pub unread_char : Lexer → Lexer
unread_char s = record s { next_pos = s.pos; pos = s.pos - 1 }

-- `while (p(m_ch)) read_char();`, the loop of `skip_white_space`, `read_number` and `read_identifier`.
unfoldable pub read_while : (ℕ → Bool) → ℕ → Lexer → Lexer
read_while p zero s = s
read_while p (suc fuel) s = elim (p s.ch) [ true ↦ read_while p fuel (read_char s) | false ↦ s ]

-- The loop reads a character in each round, and stops at the end of the input at the latest.
abbrev pub rounds : Lexer → ℕ
rounds s = suc (suc (length s.input))

unfoldable pub skip_white_space : Lexer → Lexer
skip_white_space s = read_while is_space (rounds s) s

-- `m_input.substr(pos, m_pos - pos)`.
abbrev substr : Text → ℕ → ℕ → Text
substr s pos n = take n (drop pos s)

unfoldable pub read_number : Lexer → Text × Lexer
read_number s =
    let s' = read_while is_digit (rounds s) s in (substr s'.input s.pos (s'.pos - s.pos), s')

unfoldable pub read_identifier : Lexer → Text × Lexer
read_identifier s =
    let s' = read_while is_word (rounds s) s in (substr s'.input s.pos (s'.pos - s.pos), s')

unfoldable pub single_quote_loop : ℕ → Lexer → Text → Text × Lexer
single_quote_loop zero s str = (str, s)
single_quote_loop (suc fuel) s str =
    let s1 = read_char s in
    let escaped = (s1.ch == b'\\') && (peek_char s1 == 39) in
    let s2 = if escaped then read_char s1 else s1 in
    let rest = single_quote_loop fuel s2 (str ++ (s2.ch ∷ [])) in
    if (s1.ch == 39) || (s1.ch == 0) then (str, s1) else rest

unfoldable pub read_single_quote_string : Lexer → Text × Lexer
unfolding single_quote_loop
read_single_quote_string s = single_quote_loop (rounds s) s []

-- What a backslash and the character behind it stand for, if they are one of the five escapes.
abbrev pub is_escape : ℕ → Bool
is_escape c = (c == b'n') || (c == b'r') || (c == b't') || (c == 34) || (c == 92)

abbrev pub escape_value : ℕ → ℕ
escape_value c = if c == b'n' then 10 else if c == b'r' then 13 else if c == b't' then 9 else c

unfoldable pub double_quote_loop : ℕ → Lexer → Text → Text × Lexer
double_quote_loop zero s str = (str, s)
double_quote_loop (suc fuel) s str =
    let s1 = read_char s in
    let next = peek_char s1 in
    let escaped = (s1.ch == 92) && is_escape next in
    let s2 = if escaped then record (read_char s1) { ch = escape_value next } else s1 in
    let rest = double_quote_loop fuel s2 (str ++ (s2.ch ∷ [])) in
    if (s1.ch == 34) || (s1.ch == 0) then (str, s1) else rest

unfoldable pub read_double_quote_string : Lexer → Text × Lexer
unfolding double_quote_loop
read_double_quote_string s = double_quote_loop (rounds s) s []

-- The cases of the switch that make a token of one character.
unfoldable pub symbol : ℕ → Option TokenType
symbol c =
    if c == b'+'
    then some token_plus
    else if c == b'*'
    then some token_asterisk
    else if c == b'/'
    then some token_slash
    else if c == b'%'
    then some token_modulo
    else if c == b'.'
    then some token_dot
    else if c == b','
    then some token_comma
    else if c == b'='
    then some token_eq
    else if c == b'('
    then some token_lparen
    else if c == b')'
    then some token_rparen
    else none

-- The cases of the switch that look at the next character: it, and the types with and without it.
unfoldable pub pair_symbol : ℕ → Option (ℕ × TokenType × TokenType)
pair_symbol c =
    if c == b'-'
    then some (b'-', token_decrease, token_minus)
    else if c == b'<'
    then some (b'=', token_le, token_lt)
    else if c == b'>'
    then some (b'=', token_ge, token_gt)
    else none

abbrev pub is_identifier : TokenType → Bool
is_identifier token_identifier = true
is_identifier _ = false

-- A keyword in small letters, or a string as it was written.
unfoldable pub word_token : Text → Token
word_token literal =
    let lower = map to_lower literal in
    let type = look_up lower in
    if is_identifier type then new_token token_string literal else new_token type lower

unfoldable pub next_number : Lexer → Token × Lexer
next_number s =
    let (integer, s1) = read_number s in
    let (fraction, s2) = read_number (read_char s1) in
    if (s1.ch == b'.') && is_digit (peek_char s1)
    then (new_token token_float (integer ++ (b'.' ∷ fraction)), unread_char s2)
    else (new_token token_integer integer, unread_char s1)

unfoldable pub next_word : Lexer → Token × Lexer
next_word s = let (literal, s1) = read_identifier s in (word_token literal, unread_char s1)

unfoldable pub next_pair : Lexer → ℕ × TokenType × TokenType → Token × Lexer
next_pair s (second, long, short) =
    if peek_char s == second
    then (new_token long (s.ch ∷ second ∷ []), read_char s)
    else (new_token short (s.ch ∷ []), s)

unfoldable pub next_other : Lexer → Token × Lexer
next_other s =
    if s.ch == 39
    then (let (str, s1) = read_single_quote_string s in (new_token token_string str, s1))
    else if s.ch == 34
    then (let (str, s1) = read_double_quote_string s in (new_token token_string str, s1))
    else if s.ch == 0
    then (new_token token_eof (codes "EOF"), s)
    else if is_digit s.ch
    then next_number s
    else if is_letter s.ch
    then next_word s
    else (new_token token_illegal (s.ch ∷ []), s)

-- The switch of `next_token`, at its current character.
unfoldable pub dispatch : Lexer → Token × Lexer
dispatch s = elim (symbol s.ch) [
  | some type ↦ (new_token type (s.ch ∷ []), s)
  | none ↦ elim (pair_symbol s.ch) [ some p ↦ next_pair s p | none ↦ next_other s ]
]

unfoldable pub next_token : Lexer → Token × Lexer
next_token s = dispatch (skip_white_space (read_char s))
