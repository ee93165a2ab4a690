-- ===== src/Parser/Clauses.antt =====
-- The statements of parser/show.cpp, use.cpp, create.cpp and insert.cpp, and the fields of parser/select.cpp.
use dtime_db.Prelude.{
  ℕ, zero, suc, ◌+◌, ◌*◌, ◌||◌, not, Option, none, some, List, [], ◌∷◌, ◌++◌, length, ◌==◌,
  if◌then◌else◌,
}
use dtime_db.Token.{
  Text, codes, Token, token_eof, token_integer, token_float, token_string, token_asterisk,
  token_decrease, token_eq, token_lparen, token_rparen, token_dot, token_comma, token_database,
  token_databases, token_table, token_tables, token_engine, token_into, token_from, token_tsm,
  token_clt, token_reduce,
}
use dtime_db.Ast.{
  Expression, nullptr, node_show, node_use, node_create, node_insert, Create, create_unset,
  create_database, create_table, Show,
}
use dtime_db.Parser.{
  CLibrary, Parsed, ok, undefined, out_of_fuel, ◌>>=◌, Parser, advance, curr_token_is,
  peek_token_is,
}

-- `while (m_curr.type() != TOKEN_EOF) next_token();`
unfoldable pub skip_to_end : ℕ → Parser → Parsed Parser
skip_to_end zero p = out_of_fuel
skip_to_end (suc fuel) p =
    let rest = skip_to_end fuel (advance p) in if curr_token_is token_eof p then ok p else rest

unfoldable pub parse_use : Parser → Expression × Parser
parse_use p = let p1 = advance p in (node_use p1.curr.literal, p1)

abbrev pub empty_show : Show
empty_show = record { curr_db_name = []; show_option = []; tb_name = []; type = [] }

-- What stands behind the name of a table.
unfoldable pub show_option_of : Show → Parser → Expression × Parser
show_option_of show p =
    let p1 = advance (advance p) in
    if peek_token_is token_decrease p
    then (node_show (record show { tb_name = p.curr.literal; show_option = p1.curr.literal }), p1)
    else (nullptr, p)

unfoldable pub show_table : Parser → Expression × Parser
unfolding show_option_of
show_table p =
    let p1 = advance p in
    if peek_token_is token_dot p
    then (if peek_token_is token_string p1
        then show_option_of (record empty_show { curr_db_name = p.curr.literal }) (advance p1)
        else (nullptr, p1))
    else show_option_of empty_show p

unfoldable pub parse_show : ℕ → Parser → Parsed (Expression × Parser)
unfolding show_table skip_to_end
parse_show fuel p =
    if peek_token_is token_databases p
    then ok (node_show (record empty_show { type = codes "database" }), advance p)
    else if peek_token_is token_tables p
    then ok (node_show (record empty_show { type = codes "table" }), advance p)
    else if peek_token_is token_string p
    then ok (show_table (advance p))
    else (skip_to_end fuel p >>= λ p1. ok (nullptr, p1))

-- The fields in the brackets of `create table`.
unfoldable pub create_fields :
    ℕ → List (Text × Text) → Parser → Parsed (List (Text × Text) × Parser)
create_fields zero fields p = out_of_fuel
create_fields (suc fuel) fields p =
    let p1 = advance p in
    let p2 = advance p1 in
    let p3 = if curr_token_is token_comma p2 then advance p2 else p2 in
    let rest = create_fields fuel (fields ++ ((p.curr.literal, p1.curr.literal) ∷ [])) p3 in
    if curr_token_is token_rparen p || curr_token_is token_eof p then ok (fields, p) else rest

unfoldable pub create_engine : Create → Parser → Expression × Parser
create_engine create p =
    let p1 = advance (advance (advance p)) in
    if not (peek_token_is token_engine p)
    then (node_create (record create { engine = codes "tsm" }), p)
    else if curr_token_is token_tsm p1 || curr_token_is token_clt p1
    then (node_create (record create { engine = p1.curr.literal }), p1)
    else (nullptr, p1)

unfoldable pub parse_create : ℕ → Parser → Parsed (Expression × Parser)
unfolding create_fields create_engine skip_to_end
parse_create fuel p =
    let p1 = advance p in
    let empty : Create = record { type = create_unset; name = []; fields = []; engine = [] } in
    let table : Create = record empty { type = create_table; name = p1.peek.literal } in
    let p2 = advance (advance p1) in
    if curr_token_is token_database p1
    then ok
        (node_create (record empty { type = create_database; name = p1.peek.literal }), advance p1)
    else if not (curr_token_is token_table p1)
    then ok (nullptr, p1)
    else if not (curr_token_is token_lparen p2)
    then (skip_to_end fuel p2 >>= λ p3. ok (nullptr, p3))
    else do
      (fields, p3) ← create_fields fuel [] (advance p2)
      let p4 = if peek_token_is token_rparen p3 then advance p3 else p3
      ok (
          if curr_token_is token_eof p4
          then (nullptr, p4)
          else create_engine (record table { fields = fields }) p4)

unfoldable pub insert_tags : ℕ → List Text → Parser → Parsed (List Text × Parser)
insert_tags zero tags p = out_of_fuel
insert_tags (suc fuel) tags p =
    let p1 = advance (advance p) in
    let p2 = advance p1 in
    let tags' = tags ++ ((p.curr.literal ++ (b'=' ∷ p1.curr.literal)) ∷ []) in
    let rest = insert_tags fuel tags' (advance p2) in
    if peek_token_is token_eq p
    then (if curr_token_is token_comma p2 then rest else ok (tags', p2))
    else ok (tags, p)

-- A value of another type than these three is not stored, while its field is.
unfoldable pub insert_fields :
    ℕ → List Text → List Text → Parser → Parsed (List Text × List Text × Parser)
insert_fields zero fields values p = out_of_fuel
insert_fields (suc fuel) fields values p =
    let p1 = advance (advance p) in
    let p2 = advance p1 in
    let fields' = fields ++ (p.curr.literal ∷ []) in
    let known =
      curr_token_is token_string p1
      || curr_token_is token_integer p1
      || curr_token_is token_float p1 in
    let values' = if known then values ++ (p1.curr.literal ∷ []) else values in
    let rest = insert_fields fuel fields' values' (advance p2) in
    if peek_token_is token_eq p
    then (if curr_token_is token_comma p2 then rest else ok (fields', values', p2))
    else ok (fields, values, p)

-- A day, as nanoseconds of UTC; a text of nineteen bytes as it is; or the time of the clock.
unfoldable pub insert_timestamp : CLibrary → Parser → Option Text
insert_timestamp lib p =
    if curr_token_is token_eof p
    then some (lib.to_string lib.now)
    else elim (lib.get_time p.curr.literal) [
      | some t ↦ some (lib.to_string ((t + 8 * 3600) * 1_000_000_000))
      | none ↦ if length p.curr.literal == 19 then some p.curr.literal else none
    ]

-- From the name of the table on.
unfoldable pub insert_body : CLibrary → ℕ → Token → Text → Parser → Parsed (Expression × Parser)
unfolding insert_tags insert_fields insert_timestamp
insert_body lib fuel token db_name p = do
  let p1 = advance p
  (tags, p2) ←
      (if curr_token_is token_comma p1 then insert_tags fuel [] (advance p1) else ok ([], p1))
  (fields, values, p3) ← insert_fields fuel [] [] p2
  elim (insert_timestamp lib p3) [
    | none ↦ ok (nullptr, p3)
    | some timestamp ↦ ok (
      node_insert token (record {
        curr_db_name = db_name;
        from = p.curr.literal;
        tags = tags;
        fields = fields;
        values = values;
        timestamp = timestamp;
      }),
      p3,
    )
  ]

-- The branch of the syntax error has no `return`.
unfoldable pub parse_insert : CLibrary → ℕ → Parser → Parsed (Expression × Parser)
unfolding insert_body
parse_insert lib fuel p =
    let p1 = advance p in
    let p2 = advance p1 in
    let p3 = advance p2 in
    if not (curr_token_is token_into p1) || not (peek_token_is token_string p1)
    then undefined
    else if not (peek_token_is token_dot p2)
    then insert_body lib fuel p.curr [] p2
    else if peek_token_is token_string p3
    then insert_body lib fuel p.curr p2.curr.literal (advance p3)
    else ok (nullptr, p3)

-- The fields of `select`, each with its aggregate function. A token that is none of the four is not
-- skipped.
unfoldable pub select_fields :
    ℕ → List (Text × Text) → Parser → Parsed (List (Text × Text) × Parser)
select_fields zero fields p = out_of_fuel
select_fields (suc fuel) fields p =
    let reduced = advance (advance p) in
    let behind = advance (advance reduced) in
    let comma = λ (q : Parser). if curr_token_is token_comma q then advance q else q in
    let after_reduce =
      select_fields fuel (fields ++ ((reduced.curr.literal, p.curr.literal) ∷ [])) (comma behind) in
    let after_field =
      select_fields fuel (fields ++ ((p.curr.literal, []) ∷ [])) (comma (advance p)) in
    let same_place = select_fields fuel fields p in
    if curr_token_is token_from p
    then ok (fields, p)
    else if curr_token_is token_asterisk p
    then ok (fields ++ ((b'*' ∷ [], []) ∷ []), advance p)
    else if curr_token_is token_reduce p
    then after_reduce
    else if curr_token_is token_string p
    then after_field
    else same_place
