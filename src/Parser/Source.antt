-- ===== src/Parser/Source.antt =====
-- From text to tree: the tokens of an expression, each with a space before it, through the lexer of
-- lexer/lexer.cpp and `parse_program` of parser/program.cpp.
use dtime_db.Prelude.{
  ℕ, zero, suc, ◌-◌, ◌<◌, ◌≡◌, refl, inl, inr, Bool-cases, ltb, sym, ap, subst, ◌∙◌, true, false,
  some, List, [], ◌∷◌, ◌++◌, All, arith, if◌then◌else◌,
}
use dtime_db.Token.{TokenType, Token, same_type, token_eof, token_semicolon}
use dtime_db.Lexer.{Lexer, next_token, lexer_of, symbol, pair_symbol}
use dtime_db.Lexer.Loops.{left}
use dtime_db.Lexer.Progress.{end_token, next_token_progress}
use dtime_db.Lexer.Lexemes.{IsLexeme, spaced, next_token-spaced}
use dtime_db.Lexer.Scan.{scan, scan_at, scan_other, drop_while}
use dtime_db.Lexer.Words.{yields_scan}
use dtime_db.Ast.{is_null, ExpressionStatement, Program}
use dtime_db.Parser.{
  CLibrary, ok, Parser, advance, parser_of, prefix_precedence, precedence_of, lowest,
}
use dtime_db.Parser.Expressions.{
  parse_expression, parse_expression_statement, skip_semicolons, statements_loop, parse_program,
}
use dtime_db.Parser.Print.{
  atom, negation, operation, is_atom, atom_node, lparen, rparen, precedence, Formula, IsFormula,
  node_of, emit, weight,
}
use dtime_db.Parser.Ahead.{Feeds, Here, advance-Here, errors-advance}
use dtime_db.Parser.RoundTrip.{parse_expression-emit}

-- After the last token the lexer returns end tokens.
abbrev ends : List Token
ends = end_token ∷ (end_token ∷ [])

last_space : (s : Lexer) → left s ≡ 32 ∷ [] → Feeds s ends
unfolding scan drop_while scan_at scan_other symbol pair_symbol
last_space s e =
    let y = yields_scan s (32 ∷ []) end_token [] e refl in
    let second = y.1 in (y.0, (((next_token_progress (next_token s).1).0 second).0, tt))

spaced-Feeds :
    (ts : List Token) (s : Lexer) → All IsLexeme ts → left s ≡ spaced ts → Feeds s (ts ++ ends)
unfolding spaced
spaced-Feeds [] s h e = last_space s e
spaced-Feeds (t ∷ ts) s h e =
    let r = next_token-spaced s t ts h.0 e in (r.0, spaced-Feeds ts (next_token s).1 h.1 r.1)

parser_of-Here :
    (s : Lexer) (t : Token) (ts : List Token) → Feeds s (t ∷ ts) → Here (parser_of s) (t ∷ ts)
unfolding parser_of advance
parser_of-Here s t [] h = (h.0, tt)
parser_of-Here s t (u ∷ ts) h = (h.0, (h.1.0, h.1.1))

errors-parser_of : (s : Lexer) → (parser_of s).errors ≡ []
unfolding parser_of advance
errors-parser_of s = refl

-- The first token of an expression.
unfoldable pub first_token : ℕ → Formula → Token
first_token k (atom t) = t
first_token k (negation t e) = t
first_token k (operation t l r) =
    let inner = first_token (precedence t - 1) l in if ltb k (precedence t) then inner else lparen

starts_with :
    (k : ℕ) (f : Formula)
    → IsFormula f
    → (ts : List Token) × (emit k f ≡ first_token k f ∷ ts)
      × (same_type (first_token k f).type token_eof ≡ false)
unfolding emit first_token is_atom same_type
starts_with k (atom t) h = ([], refl, not_end t.type h)
  where
    not_end : (type : TokenType) → is_atom type ≡ true → same_type type token_eof ≡ false
    not_end type h = ground arith
starts_with k (negation t e) h =
    (emit prefix_precedence e, refl, ap (λ type. same_type type token_eof) h.0)
starts_with k (operation t l r) h = elim (Bool-cases (ltb k (precedence t))) [
  | inl bare ↦
      let (ts, e, n) = starts_with (precedence t - 1) l h.1 in
      (ts ++ (t ∷ emit (precedence t) r), (rw (bare, e)), (rw bare n))
  | inr bracketed ↦ (
    (emit (precedence t - 1) l ++ (t ∷ emit (precedence t) r)) ++ (rparen ∷ []),
    (rw bracketed),
    (rw bracketed),
  )
]

node_of_not_null : (lib : CLibrary) (f : Formula) → IsFormula f → is_null (node_of lib f) ≡ false
unfolding node_of atom_node is_atom
node_of_not_null lib (atom t) h = go t.type h
  where
    go : (type : TokenType) → is_atom type ≡ true → is_null (atom_node lib type t) ≡ false
    go type h = ground arith
node_of_not_null lib (negation t e) h = refl
node_of_not_null lib (operation t l r) h = refl

no_semicolons : (fuel : ℕ) (p : Parser) → p.peek ≡ end_token → skip_semicolons (suc fuel) p ≡ ok p
unfolding skip_semicolons same_type
no_semicolons fuel p h =
    let e : same_type p.peek.type token_semicolon ≡ false =
      ap (λ (t : Token). same_type t.type token_semicolon) h in
    rw e

module _ (lib : CLibrary) where
  -- What `parse_program` returns for an expression that stands alone.
  abbrev pub single_statement : Formula → Program
  single_statement f = record {
    statements = record { token = first_token 0 f; expression = node_of lib f } ∷ [];
  }

  statement_of :
      (f : Formula) (fuel : ℕ) (p p' : Parser)
      → IsFormula f
      → p.curr ≡ first_token 0 f
      → parse_expression lib (suc fuel) lowest p ≡ ok (node_of lib f, p')
      → p'.peek ≡ end_token
      → parse_expression_statement lib (suc fuel) p
        ≡ ok (some (record { token = first_token 0 f; expression = node_of lib f }), p')
  unfolding parse_expression_statement
  statement_of f fuel p p' good first parsed end =
      rw (parsed, node_of_not_null lib f good, no_semicolons fuel p' end)
        (ap (λ t. ok (some (record { token = t; expression = node_of lib f }), p')) first)

  loop_ends :
      (rounds fuel : ℕ) (statements : List ExpressionStatement) (p : Parser)
      → p.curr ≡ end_token
      → statements_loop lib (suc rounds) fuel statements p ≡ ok (statements, p)
  unfolding statements_loop same_type
  loop_ends rounds fuel statements p h =
      let e : same_type p.curr.type token_eof ≡ true =
        ap (λ (t : Token). same_type t.type token_eof) h in
      rw e

  program_of :
      (f : Formula) (fuel : ℕ) (p p' : Parser)
      → p.curr ≡ first_token 0 f
      → same_type (first_token 0 f).type token_eof ≡ false
      → parse_expression_statement lib (suc (suc fuel)) p
        ≡ ok (some (record { token = first_token 0 f; expression = node_of lib f }), p')
      → (advance p').curr ≡ end_token
      → parse_program lib (suc (suc fuel)) p ≡ ok (single_statement f, advance p')
  unfolding parse_program statements_loop
  program_of f fuel p p' first more parsed end =
      let e : same_type p.curr.type token_eof ≡ false =
        ap (λ (t : Token). same_type t.type token_eof) first ∙ more in
      let last =
        loop_ends fuel (suc (suc fuel))
          (record { token = first_token 0 f; expression = node_of lib f } ∷ []) (advance p') end in
      rw (e, parsed, last)

  -- The text of an expression of integers, floats with a digit on each side of the point, texts without
  -- a zero byte between double quotes and `null`, with the operators other than `!=` and without
  -- identifiers, its tokens printed with a space before each and with brackets only where the
  -- precedences and the grouping to the left ask for them, is parsed as one statement with the nodes of
  -- that expression and without an error, given fuel above a bound on the expression.
  pub parse_program-spaced :
      (f : Formula) (fuel : ℕ)
      → IsFormula f
      → All IsLexeme (emit 0 f)
      → suc (weight f) < fuel
      → (p : Parser) × (parse_program lib fuel (parser_of (lexer_of (spaced (emit 0 f))))
          ≡ ok (single_statement f, p))
        × (p.errors ≡ [])
  unfolding precedence_of same_type
  parse_program-spaced f zero good lexemes w = absurd (omega arith)
  parse_program-spaced f (suc zero) good lexemes w = absurd (omega arith)
  parse_program-spaced f (suc (suc fuel)) good lexemes w =
      let s = lexer_of (spaced (emit 0 f)) in
      let p = parser_of s in
      let (ts, head, more) = starts_with 0 f good in
      let fed : Feeds s (emit 0 f ++ ends) = spaced-Feeds (emit 0 f) s lexemes refl in
      let here : Here p (emit 0 f ++ ends) =
        subst (λ us. Here p (us ++ ends)) (sym head)
          (parser_of-Here s (first_token 0 f) (ts ++ ends)
            (subst (λ us. Feeds s (us ++ ends)) head fed)) in
      let first : p.curr ≡ first_token 0 f = (subst (λ us. Here p (us ++ ends)) head here).0 in
      let (p', parsed, ahead, errors) =
        parse_expression-emit lib f lowest (suc (suc fuel)) p end_token (end_token ∷ []) good
          (omega arith) (omega arith) refl here in
      let statement = statement_of f (suc fuel) p p' good first parsed ahead.0 in
      (
        advance p',
        program_of f fuel p p' first more statement (advance-Here p' ends ahead).0,
        errors-advance p' ∙ errors ∙ errors-parser_of s,
      )
