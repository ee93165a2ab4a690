-- ===== src/Parser/Print.antt =====
-- Expressions as lists of tokens, with brackets where the precedences of parser/parser.cpp ask for them, and
-- the nodes that stand for them. A specification of `parse_expression`.
use dtime_db.Prelude.{ℕ, ◌+◌, ◌-◌, ◌≡◌, Bool, true, false, List, [], ◌∷◌, ◌++◌, ltb, if◌then◌else◌}
use dtime_db.Token.{
  codes, TokenType, Token, token_integer, token_float, token_string, token_minus, token_lparen,
  token_rparen, token_identifier, token_null,
}
use dtime_db.Ast.{
  Expression, nullptr, node_integer, node_float, node_string, node_null, node_identifier,
  node_prefix, node_infix,
}
use dtime_db.Parser.{CLibrary, precedence_of, infix_parse_fn, prefix_precedence}

-- An expression: a literal or a name, a negation, or an operator between two.
pub data Formula : Type 0 where
  atom : Token → Formula
  negation : Token → Formula → Formula
  operation : Token → Formula → Formula → Formula

unfoldable pub is_atom : TokenType → Bool
is_atom token_integer = true
is_atom token_float = true
is_atom token_string = true
is_atom token_null = true
is_atom token_identifier = true
is_atom _ = false

-- Each token has a type that fits its place.
abbrev pub IsFormula : Formula → Type 0
IsFormula (atom t) = is_atom t.type ≡ true
IsFormula (negation t e) = (t.type ≡ token_minus) × IsFormula e
IsFormula (operation t l r) = (infix_parse_fn t.type ≡ true) × IsFormula l × IsFormula r

unfoldable pub atom_node : CLibrary → TokenType → Token → Expression
atom_node lib token_integer t = node_integer t (lib.atol t.literal)
atom_node lib token_float t = node_float t (lib.atof t.literal)
atom_node lib token_string t = node_string t t.literal
atom_node lib token_null t = node_null t
atom_node lib token_identifier t = node_identifier t t.literal
atom_node lib _ t = nullptr

unfoldable pub node_of : CLibrary → Formula → Expression
node_of lib (atom t) = atom_node lib t.type t
node_of lib (negation t e) = node_prefix t t.literal (node_of lib e)
node_of lib (operation t l r) = node_infix t t.literal (node_of lib l) (node_of lib r)

abbrev pub lparen : Token
lparen = record { type = token_lparen; literal = codes "(" }

abbrev pub rparen : Token
rparen = record { type = token_rparen; literal = codes ")" }

abbrev pub precedence : Token → ℕ
precedence t = precedence_of t.type

-- The tokens of an expression where only operators above the precedence `k` may stand without brackets.
-- Operators of one precedence group to the left.
unfoldable pub emit : ℕ → Formula → List Token
emit k (atom t) = t ∷ []
emit k (negation t e) = t ∷ emit prefix_precedence e
emit k (operation t l r) =
    let body = emit (precedence t - 1) l ++ (t ∷ emit (precedence t) r) in
    if ltb k (precedence t) then body else lparen ∷ (body ++ (rparen ∷ []))

-- Calls and rounds that the parser needs for an expression.
unfoldable pub weight : Formula → ℕ
weight (atom t) = 3
weight (negation t e) = 3 + weight e
weight (operation t l r) = 6 + weight l + weight r
