-- ===== src/Parser/Expressions.antt =====
-- The precedence parser of parser/expression.cpp with the prefix and infix functions that call it, and
-- the loop of parser/program.cpp. Each call and each round takes a unit of fuel.
use dtime_db.Prelude.{
  ℕ, zero, suc, ◌&&◌, not, Option, none, some, List, [], ◌∷◌, ◌++◌, ltb, if◌then◌else◌,
}
use dtime_db.Token.{Text, Token, token_eof, token_string, token_rparen, token_dot, token_semicolon}
use dtime_db.Ast.{
  Expression, nullptr, is_null, node_integer, node_float, node_string, node_null, node_identifier,
  node_prefix, node_infix, node_select, node_sys, ExpressionStatement, Program,
}
use dtime_db.Parser.{
  CLibrary, Parsed, ok, out_of_fuel, ◌>>=◌, no_prefix_parse_fn, Parser, advance, curr_token_is,
  peek_token_is, add_error, expect_peer_token, lowest, prefix_precedence, curr_token_precedence,
  peek_token_precedence, PrefixParseFn, fn_integer, fn_float, fn_group, fn_prefix, fn_string,
  fn_null, fn_identifier, fn_show, fn_use, fn_create, fn_select, fn_insert, fn_system,
  prefix_parse_fn, infix_parse_fn,
}
use dtime_db.Parser.Clauses.{parse_use, parse_show, parse_create, parse_insert, select_fields}

-- `while (peek_token_is(TOKEN_SEMICOLON)) next_token();`
unfoldable pub skip_semicolons : ℕ → Parser → Parsed Parser
skip_semicolons zero p = out_of_fuel
skip_semicolons (suc fuel) p =
    let rest = skip_semicolons fuel (advance p) in
    if peek_token_is token_semicolon p then rest else ok p

unfoldable pub parse_null : ℕ → Parser → Parsed (Expression × Parser)
unfolding skip_semicolons
parse_null fuel p = skip_semicolons fuel p >>= λ p1. ok (node_null p.curr, p1)

abbrev pub parse_string : Parser → Expression
parse_string p = node_string p.curr p.curr.literal

module _ (lib : CLibrary) where
  unfoldable mutual
    pub parse_expression : ℕ → ℕ → Parser → Parsed (Expression × Parser)
    parse_expression zero precedence p = out_of_fuel
    parse_expression (suc fuel) precedence p = elim (prefix_parse_fn p.curr.type) [
      | none ↦ ok (nullptr, add_error (no_prefix_parse_fn p.curr.type) p)
      | some fn ↦ do (e, p1) ← parse_with fuel fn p; infix_loop fuel precedence e p1
    ]

    -- The loop of `parse_expression`.
    pub infix_loop : ℕ → ℕ → Expression → Parser → Parsed (Expression × Parser)
    infix_loop zero precedence e p = out_of_fuel
    infix_loop (suc fuel) precedence e p =
        let again : Parsed (Expression × Parser) = do
          (e1, p1) ← parse_infix fuel e (advance p)
          infix_loop fuel precedence e1 p1
        in if not (peek_token_is token_semicolon p) && ltb precedence (peek_token_precedence p)
          then (if infix_parse_fn p.peek.type then again else ok (e, p))
          else ok (e, p)

    pub parse_infix : ℕ → Expression → Parser → Parsed (Expression × Parser)
    parse_infix zero left p = out_of_fuel
    parse_infix (suc fuel) left p = do
      (right, p1) ← parse_expression fuel (curr_token_precedence p) (advance p)
      ok (node_infix p.curr p.curr.literal left right, p1)

    -- The functions of `m_prefix_parse_fns`.
    pub parse_with : ℕ → PrefixParseFn → Parser → Parsed (Expression × Parser)
    parse_with zero fn p = out_of_fuel
    parse_with (suc fuel) fn_integer p = ok (node_integer p.curr (lib.atol p.curr.literal), p)
    parse_with (suc fuel) fn_float p = ok (node_float p.curr (lib.atof p.curr.literal), p)
    parse_with (suc fuel) fn_group p = parse_group fuel p
    parse_with (suc fuel) fn_prefix p = do
      (right, p1) ← parse_expression fuel prefix_precedence (advance p)
      ok (node_prefix p.curr p.curr.literal right, p1)
    parse_with (suc fuel) fn_string p = ok (parse_string p, p)
    parse_with (suc fuel) fn_null p = parse_null fuel p
    parse_with (suc fuel) fn_identifier p = ok (node_identifier p.curr p.curr.literal, p)
    parse_with (suc fuel) fn_show p = parse_show fuel p
    parse_with (suc fuel) fn_use p = ok (parse_use p)
    parse_with (suc fuel) fn_create p = parse_create fuel p
    parse_with (suc fuel) fn_select p = parse_select fuel p
    parse_with (suc fuel) fn_insert p = parse_insert lib fuel p
    parse_with (suc fuel) fn_system p = parse_system fuel p

    pub parse_group : ℕ → Parser → Parsed (Expression × Parser)
    parse_group zero p = out_of_fuel
    parse_group (suc fuel) p = do
      (e, p1) ← parse_expression fuel lowest (advance p)
      let (closed, p2) = expect_peer_token token_rparen p1
      ok (if closed then e else nullptr, p2)

    -- The clause behind a table's name: `where` is skipped unseen.
    pub parse_where : ℕ → Parser → Parsed (Expression × Parser)
    parse_where zero p = out_of_fuel
    parse_where (suc fuel) p =
        let clause = parse_expression fuel lowest (advance (advance p)) in
        if peek_token_is token_eof p then ok (nullptr, p) else clause

    pub parse_select : ℕ → Parser → Parsed (Expression × Parser)
    parse_select zero p = out_of_fuel
    parse_select (suc fuel) p = do
      (fields, p1) ← select_fields fuel [] (advance p)
      let p2 = advance p1
      let p3 = advance p2
      (if not (peek_token_is token_dot p2)
          then select_from fuel p.curr [] fields p2
          else if peek_token_is token_string p3
          then select_from fuel p.curr p2.curr.literal fields (advance p3)
          else ok (nullptr, p3))

    -- From the table's name on.
    pub select_from : ℕ → Token → Text → List (Text × Text) → Parser → Parsed (Expression × Parser)
    select_from zero token db_name fields p = out_of_fuel
    select_from (suc fuel) token db_name fields p = do
      (clause, p1) ← parse_where fuel p
      ok (node_select token db_name fields (parse_string p) clause, p1)

    pub parse_system : ℕ → Parser → Parsed (Expression × Parser)
    parse_system zero p = out_of_fuel
    parse_system (suc fuel) p =
        let p1 = advance p in
        let p2 = advance (advance p1) in
        parse_where fuel p2 >>= λ r. ok (node_sys p.curr p1.curr.literal p2.curr.literal r.0, r.1)

  -- No statement for an expression that is `nullptr`.
  unfoldable pub parse_expression_statement :
      ℕ → Parser → Parsed (Option ExpressionStatement × Parser)
  parse_expression_statement fuel p = do
    (e, p1) ← parse_expression fuel lowest p
    (if is_null e
        then ok (none, p1)
        else (skip_semicolons fuel p1 >>= λ p2.
            ok (some (record { token = p.curr; expression = e }), p2)))

  -- The loop of `parse_program`, a round for each statement.
  unfoldable pub statements_loop :
      ℕ → ℕ → List ExpressionStatement → Parser → Parsed (List ExpressionStatement × Parser)
  statements_loop zero fuel statements p = out_of_fuel
  statements_loop (suc rounds) fuel statements p =
      let next : Parsed (List ExpressionStatement × Parser) = do
        (stmt, p1) ← parse_expression_statement fuel p
        statements_loop rounds fuel (statements ++ elim stmt [ none ↦ [] | some s ↦ s ∷ [] ])
            (advance p1)
      in if curr_token_is token_eof p then ok (statements, p) else next

  unfoldable pub parse_program : ℕ → Parser → Parsed (Program × Parser)
  unfolding statements_loop
  parse_program fuel p = do
    (statements, p1) ← statements_loop fuel fuel [] p
    ok (record { statements = statements }, p1)
