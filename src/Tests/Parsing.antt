-- ===== src/Tests/Parsing.antt =====
-- Runs and instances of the parser (parser/*.cpp).
use dtime_db.Prelude.{◌≡◌, refl, none, [], ◌∷◌, ◌++◌, length, All, arith}
use dtime_db.Token.{
  Text, codes, Token, TokenType, look_up, same_type, token_integer, token_float, token_string,
  token_plus, token_minus, token_asterisk, token_eq, token_insert, token_into, token_and, token_lt,
}
use dtime_db.Lexer.{
  lexer_of, peek_char, read_char, unread_char, read_while, skip_white_space, read_number,
  read_identifier, single_quote_loop, read_single_quote_string, double_quote_loop,
  read_double_quote_string, symbol, pair_symbol, word_token, next_number, next_word, next_pair,
  next_other, dispatch, next_token,
}
use dtime_db.Ast.{node_insert}
use dtime_db.Parser.{
  CLibrary, infix_parse_fn, precedence_of, ok, out_of_fuel, Parser, parser_of, advance,
}
use dtime_db.Parser.Expressions.{parse_expression, parse_program, parse_select}
use dtime_db.Parser.Clauses.{parse_insert}
use dtime_db.Parser.Print.{
  weight, is_atom, IsFormula, Formula, atom, negation, operation, emit, node_of,
}
use dtime_db.Parser.Ahead.{Ahead, Here}
use dtime_db.Parser.RoundTrip.{parse_expression-emit}
use dtime_db.Parser.Source.{single_statement, parse_program-spaced}
use dtime_db.Parser.Select.{starts_field, parse_select_endless}
use dtime_db.Parser.Assignments.{Assignment, is_value}
use dtime_db.Parser.Insertion.{
  Insertion, insertion_tokens, insert_of, parse_insert-insertion_tokens,
}
use dtime_db.Lexer.Lexemes.{IsLexeme, FitsType, spaced}
use dtime_db.Lexer.Progress.{end_token}

abbrev digits : CLibrary
digits = record {
  atol = λ s. length s;
  atof = λ s. length s;
  get_time = λ s. none;
  now = 0;
  to_string = λ n. n ∷ [];
}

abbrev token : TokenType → Text → Token
token type text = record { type = type; literal = text }

abbrev one : Formula
one = atom (token token_integer (codes "1"))

abbrev x : Formula
x = atom (token token_string (codes "x"))

-- (1 + x) * -1 < 1 and x
abbrev formula : Formula
formula =
    operation (token token_and (codes "and"))
      (operation (token token_lt (codes "<"))
        (operation (token token_asterisk (codes "*"))
          (operation (token token_plus (codes "+")) one x)
          (negation (token token_minus (codes "-")) one))
        one)
      x

abbrev at_formula : Parser
at_formula = parser_of (lexer_of (codes "(1 + \"x\") * -1 < 1 and \"x\""))

formula_typed : IsFormula formula
unfolding infix_parse_fn is_atom
formula_typed = (refl, (refl, (refl, (refl, refl, refl), (refl, refl)), refl), refl)

at_formula-Here : Here at_formula (emit 0 formula ++ (end_token ∷ []))
unfolding peek_char read_char unread_char read_while skip_white_space read_number read_identifier
    single_quote_loop read_single_quote_string double_quote_loop read_double_quote_string symbol
    pair_symbol word_token next_number next_word next_pair next_other dispatch next_token parser_of
    advance emit precedence_of look_up
at_formula-Here = (
  refl,
  (
    refl,
    (refl, (refl, (refl, (refl, (refl, (refl, (refl, (refl, (refl, (refl, (refl, tt))))))))))),
  ),
)

parse_expression-emit_example :
    (p' : Parser) × (parse_expression digits 60 0 at_formula ≡ ok (node_of digits formula, p'))
    × Ahead p' (end_token ∷ [])
    × (p'.errors ≡ at_formula.errors)
unfolding weight same_type precedence_of
parse_expression-emit_example =
    parse_expression-emit digits formula 0 60 at_formula end_token [] formula_typed (omega arith)
      (omega arith) refl at_formula-Here

formula_lexemes : All IsLexeme (emit 0 formula)
unfolding emit precedence_of FitsType
formula_lexemes = (
  refl,
  (
    (refl, tt),
    (
      refl,
      (
        (omega arith, tt),
        (refl, (refl, (refl, ((refl, tt), (refl, ((refl, tt), (refl, ((omega arith, tt), tt)))))))),
      ),
    ),
  ),
)

parse_program-spaced_example :
    (p : Parser) × (parse_program digits 60 (parser_of (lexer_of (spaced (emit 0 formula))))
      ≡ ok (single_statement digits formula, p))
    × (p.errors ≡ [])
unfolding weight
parse_program-spaced_example =
    parse_program-spaced digits formula 60 formula_typed formula_lexemes (omega arith)

abbrev no_fields : Parser
no_fields = parser_of (lexer_of (codes "select"))

parse_select_endless_example : parse_select digits 1000 no_fields ≡ out_of_fuel
unfolding starts_field parser_of advance peek_char read_char unread_char read_while skip_white_space
    read_number read_identifier single_quote_loop read_single_quote_string double_quote_loop
    read_double_quote_string symbol pair_symbol word_token next_number next_word next_pair
    next_other dispatch next_token
parse_select_endless_example = parse_select_endless digits 1000 no_fields refl

abbrev assign : Text → TokenType → Text → Assignment
assign name type value = record {
  name = token token_string name;
  sign = token token_eq (b'=' ∷ []);
  value = token type value;
}

abbrev insertion : Insertion
insertion = record {
  table = token token_string (codes "school");
  tags = assign (codes "class") token_string (codes "a") ∷ [];
  field = assign (codes "t") token_integer (codes "21");
  fields = assign (codes "h") token_float (codes "72.1") ∷ [];
  time = token token_integer (codes "1702880186879347823");
}

abbrev at_insertion : Parser
at_insertion =
    parser_of (lexer_of (codes "insert into school, class='a' t=21, h=72.1 1702880186879347823"))

at_insertion-Here : Here at_insertion (
    insertion_tokens
      (token token_insert (codes "insert"))
      (token token_into (codes "into"))
      insertion)
unfolding peek_char read_char unread_char read_while skip_white_space read_number read_identifier
    single_quote_loop read_single_quote_string double_quote_loop read_double_quote_string symbol
    pair_symbol word_token next_number next_word next_pair next_other dispatch next_token parser_of
    advance emit precedence_of look_up
at_insertion-Here = (
  refl,
  (
    refl,
    (
      refl,
      (
        refl,
        (refl, (refl, (refl, (refl, (refl, (refl, (refl, (refl, (refl, (refl, (refl, tt))))))))))),
      ),
    ),
  ),
)

parse_insert-insertion_tokens_example :
    (p' : Parser) × (parse_insert digits 3 at_insertion
      ≡ ok (node_insert (token token_insert (codes "insert")) (insert_of insertion), p'))
    × (p'.curr ≡ insertion.time)
    × (p'.errors ≡ at_insertion.errors)
unfolding is_value
parse_insert-insertion_tokens_example =
    parse_insert-insertion_tokens digits insertion 3 (token token_insert (codes "insert"))
      (token token_into (codes "into")) at_insertion
      (record {
        table_type = refl;
        tags_types = (refl, tt);
        fields_types = ((refl, refl), ((refl, refl), tt));
        name_type = refl;
        time_type = refl;
        no_day = refl;
        nineteen = refl;
      })
      refl (omega arith) at_insertion-Here
