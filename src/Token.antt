-- ===== src/Token.antt =====
-- The tokens of the query language: token/token.h and token/token.cpp. A literal is the list of its
-- bytes.
pub mod Keywords
use Prim.Native.Char.{code}
use Prim.Native.String.{String}
use dtime_db.Prelude.{ℕ, Bool, true, false, ◌&&◌, List, [], ◌∷◌, ◌==◌, if◌then◌else◌}

abbrev pub Text : Type 0
Text = List ℕ

-- The bytes of an ASCII literal.
abbrev pub codes : String → Text
codes String.[] = []
codes (String.◌∷◌ c s) = code c ∷ codes s

pub data TokenType : Type 0 where
  token_illegal token_eof token_integer token_float token_string token_plus token_minus
        token_asterisk token_slash token_modulo token_decrease token_and token_or token_lt token_gt
        token_le token_ge token_eq token_ne token_lparen token_rparen token_dot token_comma
        token_semicolon token_timestamp token_identifier token_null token_database token_databases
        token_table token_tables token_engine token_show token_use token_create token_insert
        token_into token_update token_select token_ttl token_from token_where token_tsm token_clt
        token_reduce token_system :
      TokenType

pub record Token : Type 0 where
  pub type : TokenType
  pub literal : Text

-- Equality of texts.
abbrev pub same_text : Text → Text → Bool
same_text [] [] = true
same_text (a ∷ s) (b ∷ t) = (a == b) && same_text s t
same_text _ _ = false

-- The numbers of the enumerators.
unfoldable pub type_number : TokenType → ℕ
type_number token_illegal = 0
type_number token_eof = 1
type_number token_integer = 2
type_number token_float = 3
type_number token_string = 4
type_number token_plus = 5
type_number token_minus = 6
type_number token_asterisk = 7
type_number token_slash = 8
type_number token_modulo = 9
type_number token_decrease = 10
type_number token_and = 11
type_number token_or = 12
type_number token_lt = 13
type_number token_gt = 14
type_number token_le = 15
type_number token_ge = 16
type_number token_eq = 17
type_number token_ne = 18
type_number token_lparen = 19
type_number token_rparen = 20
type_number token_dot = 21
type_number token_comma = 22
type_number token_semicolon = 23
type_number token_timestamp = 24
type_number token_identifier = 25
type_number token_null = 26
type_number token_database = 27
type_number token_databases = 28
type_number token_table = 29
type_number token_tables = 30
type_number token_engine = 31
type_number token_show = 32
type_number token_use = 33
type_number token_create = 34
type_number token_insert = 35
type_number token_into = 36
type_number token_update = 37
type_number token_select = 38
type_number token_ttl = 39
type_number token_from = 40
type_number token_where = 41
type_number token_tsm = 42
type_number token_clt = 43
type_number token_reduce = 44
type_number token_system = 45

unfoldable pub same_type : TokenType → TokenType → Bool
unfolding type_number
same_type a b = type_number a == type_number b

-- `m_names`, which has a name for every type.
unfoldable pub name : TokenType → Text
name token_illegal = codes "illegal"
name token_eof = codes "eof"
name token_integer = codes "integer"
name token_float = codes "float"
name token_string = codes "string"
name token_plus = codes "+"
name token_minus = codes "-"
name token_asterisk = codes "*"
name token_slash = codes "/"
name token_modulo = codes "%"
name token_decrease = codes "--"
name token_and = codes "AND"
name token_or = codes "OR"
name token_lt = codes "<"
name token_gt = codes ">"
name token_le = codes "<="
name token_ge = codes ">="
name token_eq = codes "="
name token_ne = codes "!="
name token_lparen = codes "("
name token_rparen = codes ")"
name token_dot = codes "."
name token_comma = codes ","
name token_semicolon = codes ";"
name token_timestamp = codes "timestamp"
name token_identifier = codes "identifier"
name token_null = codes "null"
name token_database = codes "database"
name token_databases = codes "databases"
name token_table = codes "table"
name token_tables = codes "tables"
name token_engine = codes "engine"
name token_show = codes "show"
name token_use = codes "use"
name token_create = codes "create"
name token_insert = codes "insert.cpp"
name token_into = codes "into"
name token_update = codes "update"
name token_select = codes "select"
name token_ttl = codes "ttl"
name token_from = codes "m_from"
name token_where = codes "m_where"
name token_tsm = codes "tsm"
name token_clt = codes "clt"
name token_reduce = codes "reduce"
name token_system = codes "system"

-- `m_keywords`.
abbrev pub keywords : List (Text × TokenType)
keywords =
    (codes "null", token_null)
    ∷ (codes "database", token_database)
    ∷ (codes "databases", token_databases)
    ∷ (codes "table", token_table)
    ∷ (codes "tables", token_tables)
    ∷ (codes "show", token_show)
    ∷ (codes "use", token_use)
    ∷ (codes "engine", token_engine)
    ∷ (codes "create", token_create)
    ∷ (codes "insert", token_insert)
    ∷ (codes "into", token_into)
    ∷ (codes "update", token_update)
    ∷ (codes "select", token_select)
    ∷ (codes "from", token_from)
    ∷ (codes "where", token_where)
    ∷ (codes "ttl", token_ttl)
    ∷ (codes "and", token_and)
    ∷ (codes "or", token_or)
    ∷ (codes "tsm", token_tsm)
    ∷ (codes "clt", token_clt)
    ∷ (codes "sum", token_reduce)
    ∷ (codes "count", token_reduce)
    ∷ (codes "mean", token_reduce)
    ∷ (codes "median", token_reduce)
    ∷ (codes "min", token_reduce)
    ∷ (codes "max", token_reduce)
    ∷ (codes "mode", token_reduce)
    ∷ (codes "stddev", token_reduce)
    ∷ (codes "percentile", token_reduce)
    ∷ (codes "first", token_reduce)
    ∷ (codes "last", token_reduce)
    ∷ (codes "system", token_system)
    ∷ []

unfoldable pub find_keyword : Text → List (Text × TokenType) → TokenType
find_keyword literal [] = token_identifier
find_keyword literal ((word, type) ∷ rest) =
    if same_text word literal then type else find_keyword literal rest

-- A text that is no keyword is an identifier.
unfoldable pub look_up : Text → TokenType
unfolding find_keyword
look_up literal = find_keyword literal keywords
