-- ===== src/Parser/Insertion.antt =====
-- Insertions as lists of tokens, and what `parse_insert` of parser/insert.cpp makes of them.
use dtime_db.Prelude.{
  ℕ, suc, ◌+◌, ◌≤◌, ◌≡◌, refl, sym, subst, ap, ◌∙◌, true, false, none, some, List, [], ◌∷◌, ◌++◌,
  map, length, All, arith, if◌then◌else◌,
}
use dtime_db.Token.{
  Text, TokenType, Token, same_type, token_eof, token_integer, token_string, token_comma, token_dot,
  token_into,
}
use dtime_db.Ast.{nullptr, node_insert, Insert, Expression}
use dtime_db.Parser.{CLibrary, Parsed, ok, Parser, advance, curr_token_is}
use dtime_db.Parser.Clauses.{
  insert_tags, insert_fields, insert_timestamp, insert_body, parse_insert,
}
use dtime_db.Parser.Ahead.{Ahead, Here, advance-Here, errors-advance}
use dtime_db.Parser.Assignments.{
  Assignment, IsTag, IsField, Ends, comma, assignments, name_text, value_text, tag_text, is,
  insert_tags-assignments, insert_fields-assignments,
}

-- What an insertion names: the table, tags, one field at least, and a time.
pub record Insertion : Type 0 where
  pub table : Token
  pub tags : List Assignment
  pub field : Assignment
  pub fields : List Assignment
  pub time : Token

-- Tags stand behind a comma; none stands between them and the fields.
abbrev pub tag_tokens : List Assignment → List Token
tag_tokens [] = []
tag_tokens (a ∷ l) = comma ∷ assignments (a ∷ l)

abbrev pub from_table : Insertion → List Token
from_table i = i.table ∷ (tag_tokens i.tags ++ (assignments (i.field ∷ i.fields) ++ (i.time ∷ [])))

pub record IsInsertion (lib : CLibrary) (i : Insertion) : Type 0 where
  pub table_type : i.table.type ≡ token_string
  pub tags_types : All IsTag i.tags
  pub fields_types : All IsField (i.field ∷ i.fields)
  pub name_type : i.field.name.type ≡ token_string
  pub time_type : i.time.type ≡ token_integer
  pub no_day : lib.get_time i.time.literal ≡ none
  pub nineteen : length i.time.literal ≡ 19

-- The content of the node.
abbrev pub insert_of : Insertion → Insert
insert_of i = record {
  curr_db_name = [];
  from = i.table.literal;
  tags = map tag_text i.tags;
  fields = map name_text (i.field ∷ i.fields);
  values = map value_text (i.field ∷ i.fields);
  timestamp = i.time.literal;
}

read_tags : ℕ → Parser → Parsed (List Text × Parser)
read_tags fuel p =
    if curr_token_is token_comma p then insert_tags fuel [] (advance p) else ok ([], p)

tags_read :
    (l : List Assignment) (fuel : ℕ) (p : Parser) (t : Token) (ts : List Token)
    → All IsTag l
    → Ends t
    → length l ≤ fuel
    → Here p (tag_tokens l ++ (t ∷ ts))
    → (p' : Parser) × (read_tags fuel p ≡ ok (map tag_text l, p'))
      × Here p' (t ∷ ts)
      × (p'.errors ≡ p.errors)
unfolding read_tags same_type
tags_read [] fuel p t ts h e w x =
    let stop : same_type p.curr.type token_comma ≡ false = is token_comma false x.0 e in
    (p, (rw stop), x, refl)
tags_read (a ∷ l) fuel p t ts h e w x =
    let more : same_type p.curr.type token_comma ≡ true =
      ap (λ (u : Token). same_type u.type token_comma) x.0 in
    let (p', r, after, errors) =
      insert_tags-assignments a l fuel [] (advance p) t ts h e w
        (advance-Here p (assignments (a ∷ l) ++ (t ∷ ts)) x.1) in
    (p', (rw more r), after, errors ∙ errors-advance p)

time_read :
    (lib : CLibrary) (t : Token) (p : Parser)
    → t.type ≡ token_integer
    → lib.get_time t.literal ≡ none
    → length t.literal ≡ 19
    → p.curr ≡ t
    → insert_timestamp lib p ≡ some t.literal
unfolding insert_timestamp same_type
time_read lib t p type no_day n x =
    let more : same_type p.curr.type token_eof ≡ false =
      is token_eof false x (ap (λ u. same_type u token_eof) type) in
    let day : lib.get_time p.curr.literal ≡ none =
      ap (λ (u : Token). lib.get_time u.literal) x ∙ no_day in
    let l : length p.curr.literal ≡ 19 = ap (λ (u : Token). length u.literal) x ∙ n in
    rw (more, day, l) (ap (λ (u : Token). some u.literal) x)

-- The first token of assignments.
assignments_start :
    (a : Assignment) (l : List Assignment) → (ts : List Token) × (assignments (a ∷ l) ≡ a.name ∷ ts)
assignments_start a [] = (a.sign ∷ a.value ∷ [], refl)
assignments_start a (b ∷ l) = (a.sign ∷ a.value ∷ comma ∷ assignments (b ∷ l), refl)

no_comma :
    (t : Token) (type : TokenType) → same_type type token_comma ≡ false → t.type ≡ type → Ends t
no_comma t type n e = ap (λ u. same_type u token_comma) e ∙ n

parts_read :
    (lib : CLibrary) (i : Insertion) (fuel : ℕ) (p : Parser)
    → IsInsertion lib i
    → length i.tags + suc (length i.fields) ≤ fuel
    → Here p (tag_tokens i.tags ++ (assignments (i.field ∷ i.fields) ++ (i.time ∷ [])))
    → (p1 : Parser) × (p2 : Parser) × (read_tags fuel p ≡ ok (map tag_text i.tags, p1))
      × (insert_fields fuel [] [] p1
          ≡ ok (map name_text (i.field ∷ i.fields), map value_text (i.field ∷ i.fields), p2))
      × (p2.curr ≡ i.time)
      × (p2.errors ≡ p.errors)
unfolding same_type
parts_read lib i fuel p good w x =
    let (ts, start) = assignments_start i.field i.fields in
    let behind_tags = λ (us : List Token). tag_tokens i.tags ++ (us ++ (i.time ∷ [])) in
    let (p1, tags, here, errors) =
      tags_read i.tags fuel p i.field.name (ts ++ (i.time ∷ [])) good.tags_types
        (no_comma i.field.name token_string refl good.name_type) (omega arith)
        (subst (λ us. Here p (behind_tags us)) start x) in
    let (p2, fields, last, errors') =
      insert_fields-assignments i.field i.fields fuel [] [] p1 i.time [] good.fields_types
        (no_comma i.time token_integer refl good.time_type) (omega arith)
        (subst (λ us. Here p1 (us ++ (i.time ∷ []))) (sym start) here) in
    (p1, p2, tags, fields, last.0, errors' ∙ errors)

behind_table :
    (lib : CLibrary) (i : Insertion)
    → IsInsertion lib i
    → (p : Parser) → Here p (from_table i)
    → same_type p.peek.type token_dot ≡ false
unfolding same_type
behind_table lib i good p x = go i.tags x.1
  where
    go :
        (l : List Assignment)
        → Ahead p (tag_tokens l ++ (assignments (i.field ∷ i.fields) ++ (i.time ∷ [])))
        → same_type p.peek.type token_dot ≡ false
    go [] h =
        let (ts, start) = assignments_start i.field i.fields in
        let name = (subst (λ us. Ahead p (us ++ (i.time ∷ []))) start h).0 in
        is token_dot false name (ap (λ u. same_type u token_dot) good.name_type)
    go (a ∷ l) h = is token_dot false h.0 refl

insert_body-from_table :
    (lib : CLibrary) (i : Insertion) (fuel : ℕ) (token : Token) (p : Parser)
    → IsInsertion lib i
    → length i.tags + suc (length i.fields) ≤ fuel
    → Here p (from_table i)
    → (p' : Parser) × (insert_body lib fuel token [] p ≡ ok (node_insert token (insert_of i), p'))
      × (p'.curr ≡ i.time)
      × (p'.errors ≡ p.errors)
unfolding insert_body read_tags
insert_body-from_table lib i fuel token p good w x =
    let (p1, p2, tags, fields, last, errors) =
      parts_read lib i fuel (advance p) good w (advance-Here p _ x.1) in
    let time = time_read lib i.time p2 good.time_type good.no_day good.nineteen last in
    let node = λ (table : Text) (timestamp : Text).
      node_insert token (record (insert_of i) { from = table; timestamp = timestamp }) in
    let step : Parsed (Expression × Parser) = elim (insert_timestamp lib p2) [
      | none ↦ ok (nullptr, p2)
      | some timestamp ↦ ok (node p.curr.literal timestamp, p2)
    ] in
    let ends : step ≡ ok (node i.table.literal i.time.literal, p2) =
      rw time (ap (λ (t : Token). ok (node t.literal i.time.literal, p2)) x.0) in
    (p2, (rw (tags, fields) ends), last, errors ∙ errors-advance p)

-- Behind the keyword `insert`.
abbrev pub insertion_tokens : Token → Token → Insertion → List Token
insertion_tokens insert into i = insert ∷ into ∷ from_table i

-- An insertion without the name of a database, of any tags, one field at least with values of known
-- types, and a time of nineteen digits that is no day, is parsed as the node of that table with these
-- tags, fields, values and that time, each in its order, given a unit of fuel for each tag and field
-- and one more; no error is added, and the parser then stands at the time.
pub parse_insert-insertion_tokens :
    (lib : CLibrary) (i : Insertion) (fuel : ℕ) (insert into : Token) (p : Parser)
    → IsInsertion lib i
    → into.type ≡ token_into
    → length i.tags + suc (length i.fields) ≤ fuel
    → Here p (insertion_tokens insert into i)
    → (p' : Parser) × (parse_insert lib fuel p ≡ ok (node_insert insert (insert_of i), p'))
      × (p'.curr ≡ i.time)
      × (p'.errors ≡ p.errors)
unfolding parse_insert same_type
parse_insert-insertion_tokens lib i fuel insert into p good word w x =
    let at_into = advance-Here p (into ∷ from_table i) x.1 in
    let at_table = advance-Here (advance p) (from_table i) at_into.1 in
    let is_into : same_type (advance p).curr.type token_into ≡ true =
      is token_into true at_into.0 (ap (λ u. same_type u token_into) word) in
    let is_table : same_type (advance p).peek.type token_string ≡ true =
      is token_string true at_into.1.0 (ap (λ u. same_type u token_string) good.table_type) in
    let (p', body, last, errors) =
      insert_body-from_table lib i fuel p.curr (advance (advance p)) good w at_table in
    let no_dot : same_type (advance (advance p)).peek.type token_dot ≡ false =
      behind_table lib i good (advance (advance p)) at_table in
    (
      p',
      (rw (is_into, is_table, no_dot) (body ∙ ap (λ t. ok (node_insert t (insert_of i), p')) x.0)),
      last,
      errors ∙ errors-advance (advance p) ∙ errors-advance p,
    )
