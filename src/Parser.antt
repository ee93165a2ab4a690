-- ===== src/Parser.antt =====
-- The parser of parser/parser.h and parser/*.cpp over the lexer: its state here, the statements without
-- expressions in Clauses, and the precedence parser in Expressions.
pub mod Clauses
pub mod Expressions
pub mod Print
pub mod Ahead
pub mod Steps
pub mod RoundTrip
pub mod Source
pub mod Select
pub mod Assignments
pub mod Insertion
use dtime_db.Prelude.{ℕ, Bool, true, false, Option, none, some, List, [], ◌∷◌, ◌++◌, if◌then◌else◌}
use dtime_db.Token.{
  Text, TokenType, Token, same_type, token_illegal, token_eof, token_integer, token_float,
  token_string, token_plus, token_minus, token_asterisk, token_slash, token_modulo, token_and,
  token_or, token_lt, token_gt, token_le, token_ge, token_eq, token_ne, token_lparen,
  token_identifier, token_null, token_show, token_use, token_create, token_insert, token_select,
  token_system,
}
use dtime_db.Lexer.{Lexer, next_token}

-- What the parser asks of the C++ library: `atol` and `atof` as 64-bit patterns; `get_time` with the
-- format of a day and `mktime` behind it, in seconds, or its failure; the clock in nanoseconds; and the
-- decimal digits of a number.
pub record CLibrary : Type 0 where
  pub atol : Text → ℕ
  pub atof : Text → ℕ
  pub get_time : Text → Option ℕ
  pub now : ℕ
  pub to_string : ℕ → Text

-- What a call returns: a value; nothing, where a function ends without a `return`; or, in the model alone,
-- the fuel of a loop or of a recursion is used up.
pub data Parsed {ℓ} (A : Type ℓ) : Type ℓ where
  ok : A → Parsed A
  undefined out_of_fuel : Parsed A

infixl 5 ◌>>=◌
abbrev pub ◌>>=◌ {ℓ κ} : {A : Type ℓ} {B : Type κ} → Parsed A → (A → Parsed B) → Parsed B
ok a >>= f = f a
undefined >>= f = undefined
out_of_fuel >>= f = out_of_fuel

-- The messages of `m_errors`.
pub data ParseError : Type 0 where
  peek_error : (expected got : TokenType) → ParseError
  no_prefix_parse_fn : TokenType → ParseError

pub record Parser : Type 0 where
  pub lexer : Lexer
  pub curr : Token
  pub peek : Token
  pub errors : List ParseError

unfoldable pub advance : Parser → Parser
advance p = let (t, s) = next_token p.lexer in record p { lexer = s; curr = p.peek; peek = t }

-- A token that has not been read is illegal.
abbrev no_token : Token
no_token = record { type = token_illegal; literal = [] }

unfoldable pub parser_of : Lexer → Parser
unfolding advance
parser_of s =
    advance (advance (record { lexer = s; curr = no_token; peek = no_token; errors = [] }))

abbrev pub curr_token_is : TokenType → Parser → Bool
curr_token_is type p = same_type p.curr.type type

abbrev pub peek_token_is : TokenType → Parser → Bool
peek_token_is type p = same_type p.peek.type type

abbrev pub add_error : ParseError → Parser → Parser
add_error e p = record p { errors = p.errors ++ (e ∷ []) }

unfoldable pub expect_peer_token : TokenType → Parser → Bool × Parser
expect_peer_token type p =
    if peek_token_is type p
    then (true, advance p)
    else (false, add_error (peek_error type p.peek.type) p)

-- `m_precedence`, with `LOWEST` for what it lacks.
unfoldable pub precedence_of : TokenType → ℕ
precedence_of token_plus = 3
precedence_of token_minus = 3
precedence_of token_asterisk = 4
precedence_of token_slash = 4
precedence_of token_modulo = 4
precedence_of token_and = 1
precedence_of token_or = 1
precedence_of token_lt = 2
precedence_of token_gt = 2
precedence_of token_le = 2
precedence_of token_ge = 2
precedence_of token_eq = 2
precedence_of token_ne = 2
precedence_of _ = 0

abbrev pub lowest : ℕ
lowest = 0

abbrev pub prefix_precedence : ℕ
prefix_precedence = 5

unfoldable pub curr_token_precedence : Parser → ℕ
curr_token_precedence p = precedence_of p.curr.type

unfoldable pub peek_token_precedence : Parser → ℕ
peek_token_precedence p = precedence_of p.peek.type

-- `m_prefix_parse_fns`.
pub data PrefixParseFn : Type 0 where
  fn_integer fn_float fn_group fn_prefix fn_string fn_null fn_identifier fn_show fn_use fn_create
        fn_select fn_insert fn_system :
      PrefixParseFn

unfoldable pub prefix_parse_fn : TokenType → Option PrefixParseFn
prefix_parse_fn token_integer = some fn_integer
prefix_parse_fn token_float = some fn_float
prefix_parse_fn token_lparen = some fn_group
prefix_parse_fn token_minus = some fn_prefix
prefix_parse_fn token_string = some fn_string
prefix_parse_fn token_null = some fn_null
prefix_parse_fn token_identifier = some fn_identifier
prefix_parse_fn token_show = some fn_show
prefix_parse_fn token_use = some fn_use
prefix_parse_fn token_create = some fn_create
prefix_parse_fn token_select = some fn_select
prefix_parse_fn token_insert = some fn_insert
prefix_parse_fn token_system = some fn_system
prefix_parse_fn _ = none

-- `m_infix_parse_fns`, which has `parse_infix` for each of its tokens.
unfoldable pub infix_parse_fn : TokenType → Bool
infix_parse_fn token_plus = true
infix_parse_fn token_minus = true
infix_parse_fn token_asterisk = true
infix_parse_fn token_slash = true
infix_parse_fn token_modulo = true
infix_parse_fn token_lt = true
infix_parse_fn token_gt = true
infix_parse_fn token_le = true
infix_parse_fn token_ge = true
infix_parse_fn token_eq = true
infix_parse_fn token_ne = true
infix_parse_fn token_and = true
infix_parse_fn token_or = true
infix_parse_fn _ = false
