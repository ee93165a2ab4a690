-- ===== src/Parser/Steps.antt =====
-- Single steps of `parse_expression` and of its loop (parser/expression.cpp).
use dtime_db.Prelude.{ℕ, suc, ◌≤◌, ◌<◌, ◌≡◌, ap, ◌∙◌, true, false, some, arith, ltb, lt→ltb, le→ltb}
use dtime_db.Token.{
  TokenType, Token, same_type, token_integer, token_float, token_string, token_identifier,
  token_null, token_semicolon,
}
use dtime_db.Ast.{Expression, node_null}
use dtime_db.Parser.{
  CLibrary, Parsed, ok, ◌>>=◌, Parser, advance, precedence_of, peek_token_precedence, PrefixParseFn,
  fn_null, prefix_parse_fn, infix_parse_fn,
}
use dtime_db.Parser.Expressions.{
  parse_expression, infix_loop, parse_infix, parse_with, parse_null, skip_semicolons,
}
use dtime_db.Parser.Print.{is_atom, atom_node, precedence}

-- A token that may follow an expression printed for the precedence `k`.
pub record IsStop (k : ℕ) (t : Token) : Type 0 where
  pub low : precedence t ≤ suc k
  pub no_semicolon : same_type t.type token_semicolon ≡ false

pub op_precedence : (type : TokenType) → infix_parse_fn type ≡ true → 1 ≤ precedence_of type
unfolding infix_parse_fn precedence_of
op_precedence type h = ground arith

pub precedence_most : (type : TokenType) → precedence_of type ≤ 4
unfolding precedence_of
precedence_most type = ground arith

pub op_no_semicolon :
    (type : TokenType) → infix_parse_fn type ≡ true → same_type type token_semicolon ≡ false
unfolding infix_parse_fn same_type
op_no_semicolon type h = ground arith

module _ (lib : CLibrary) where
  pub loop_stops :
      (fuel q : ℕ) (e : Expression) (p : Parser) (stop : Token)
      → p.peek ≡ stop
      → precedence stop ≤ q
      → infix_loop lib (suc fuel) q e p ≡ ok (e, p)
  unfolding infix_loop peek_token_precedence
  loop_stops fuel q e p stop h l =
      let low : ltb q (precedence_of p.peek.type) ≡ false =
        ap (λ (t : Token). ltb q (precedence t)) h ∙ le→ltb q (precedence stop) l in
      rw low (ground arith)

  pub loop_steps :
      (fuel q : ℕ) (e : Expression) (p : Parser) (op : Token)
      → p.peek ≡ op
      → infix_parse_fn op.type ≡ true
      → q < precedence op
      → infix_loop lib (suc fuel) q e p
        ≡ (parse_infix lib fuel e (advance p) >>= λ r. infix_loop lib fuel q r.0 r.1)
  unfolding infix_loop peek_token_precedence
  loop_steps fuel q e p op h i l =
      let high : ltb q (precedence_of p.peek.type) ≡ true =
        ap (λ (t : Token). ltb q (precedence t)) h ∙ lt→ltb q (precedence op) l in
      let semi : same_type p.peek.type token_semicolon ≡ false =
        ap (λ (t : Token). same_type t.type token_semicolon) h ∙ op_no_semicolon op.type i in
      let infix' : infix_parse_fn p.peek.type ≡ true =
        ap (λ (t : Token). infix_parse_fn t.type) h ∙ i in
      rw (high, semi, infix')

  pub prefix_step :
      (fuel q : ℕ) (p : Parser) (fn : PrefixParseFn)
      → prefix_parse_fn p.curr.type ≡ some fn
      → parse_expression lib (suc fuel) q p
        ≡ (parse_with lib fuel fn p >>= λ r. infix_loop lib fuel q r.0 r.1)
  unfolding parse_expression
  prefix_step fuel q p fn e = rw (parse_expression, e)

  null_step :
      (fuel : ℕ) (p : Parser)
      → same_type p.peek.type token_semicolon ≡ false
      → parse_null (suc fuel) p ≡ ok (node_null p.curr, p)
  unfolding parse_null skip_semicolons
  null_step fuel p s = rw s

  pub atom_step :
      (fuel q : ℕ) (p : Parser) (type : TokenType)
      → p.curr.type ≡ type
      → is_atom type ≡ true
      → same_type p.peek.type token_semicolon ≡ false
      → parse_expression lib (suc (suc (suc fuel))) q p
        ≡ infix_loop lib (suc (suc fuel)) q (atom_node lib type p.curr) p
  unfolding parse_with is_atom prefix_parse_fn atom_node
  atom_step fuel q p token_integer e a s = prefix_step (suc (suc fuel)) q p _ (ap prefix_parse_fn e)
  atom_step fuel q p token_float e a s = prefix_step (suc (suc fuel)) q p _ (ap prefix_parse_fn e)
  atom_step fuel q p token_string e a s = prefix_step (suc (suc fuel)) q p _ (ap prefix_parse_fn e)
  atom_step fuel q p token_null e a s =
      prefix_step (suc (suc fuel)) q p fn_null (ap prefix_parse_fn e)
      ∙ ap
          (λ (r : Parsed (Expression × Parser)).
            r >>= λ x. infix_loop lib (suc (suc fuel)) q x.0 x.1)
          (null_step fuel p s)
  atom_step fuel q p token_identifier e a s =
      prefix_step (suc (suc fuel)) q p _ (ap prefix_parse_fn e)
  atom_step fuel q p _ e a s = cc
