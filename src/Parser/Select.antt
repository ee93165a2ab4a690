-- ===== src/Parser/Select.antt =====
-- Lists of fields that `parse_select` of parser/select.cpp never leaves.
use dtime_db.Prelude.{ℕ, zero, suc, ◌≡◌, refl, Bool, true, false, List, [], arith}
use dtime_db.Token.{
  Text, TokenType, same_type, token_string, token_asterisk, token_from, token_reduce,
}
use dtime_db.Parser.{CLibrary, out_of_fuel, Parser, advance}
use dtime_db.Parser.Clauses.{select_fields}
use dtime_db.Parser.Expressions.{parse_select}

-- The tokens on which the loop over the fields of `select` ends or goes on.
unfoldable pub starts_field : TokenType → Bool
starts_field token_from = true
starts_field token_asterisk = true
starts_field token_reduce = true
starts_field token_string = true
starts_field _ = false

no_field :
    (type : TokenType)
    → starts_field type ≡ false
    → (same_type type token_from ≡ false)
      × (same_type type token_asterisk ≡ false)
      × (same_type type token_reduce ≡ false)
      × (same_type type token_string ≡ false)
unfolding starts_field same_type
no_field type h = (ground arith, ground arith, ground arith, ground arith)

select_fields_stuck :
    (fuel : ℕ) (fields : List (Text × Text)) (p : Parser)
    → starts_field p.curr.type ≡ false
    → select_fields fuel fields p ≡ out_of_fuel
unfolding select_fields
select_fields_stuck zero fields p h = refl
select_fields_stuck (suc fuel) fields p h =
    let (from, all, reduce, name) = no_field p.curr.type h in
    rw (from, all, reduce, name) (select_fields_stuck fuel fields p h)

-- When the token behind `select` is none of `from`, `*`, an aggregate function and a name, the end of the text
-- among them, `parse_select` uses up any amount of fuel: the loop over the fields never ends.
pub parse_select_endless :
    (lib : CLibrary) (fuel : ℕ) (p : Parser)
    → starts_field (advance p).curr.type ≡ false
    → parse_select lib fuel p ≡ out_of_fuel
unfolding parse_select
parse_select_endless lib zero p h = refl
parse_select_endless lib (suc fuel) p h = rw (select_fields_stuck fuel [] (advance p) h)
