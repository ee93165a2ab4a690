-- ===== src/Parser/RoundTrip.antt =====
-- The tokens of an expression are parsed as that expression: `parse_expression` of parser/expression.cpp, with
-- infix.cpp, prefix.cpp, group.cpp and the literals, against the printed form of Print.
use dtime_db.Prelude.{
  ℕ, zero, suc, ◌+◌, ◌-◌, ◌≤◌, ◌<◌, ◌≡◌, refl, ap, subst, ◌∙◌, inl, inr, true, false, some, List,
  [], ◌∷◌, ◌++◌, append_assoc, arith, ltb, Bool-cases, ltb→lt,
}
use dtime_db.Token.{Token, same_type, token_minus, token_rparen, token_semicolon}
use dtime_db.Ast.{Expression, node_prefix, node_infix}
use dtime_db.Parser.{
  CLibrary, ok, Parser, advance, expect_peer_token, precedence_of, lowest, prefix_precedence,
  curr_token_precedence, fn_group, fn_prefix, prefix_parse_fn, infix_parse_fn,
}
use dtime_db.Parser.Expressions.{parse_expression, infix_loop, parse_infix, parse_with, parse_group}
use dtime_db.Parser.Print.{
  Formula, atom, negation, operation, IsFormula, atom_node, node_of, lparen, rparen, precedence,
  emit, weight,
}
use dtime_db.Parser.Ahead.{Ahead, Here, advance-Here, errors-advance}
use dtime_db.Parser.Steps.{
  IsStop, op_precedence, precedence_most, op_no_semicolon, loop_stops, loop_steps, prefix_step,
  atom_step,
}

module _ (lib : CLibrary) where
  -- The parser has read `f` in front of `rest`, and goes on behind it with at most `n` units of fuel less.
  pub record Reads (f : Formula) (n fuel q : ℕ) (p : Parser) (rest : List Token) : Type 0 where
    pub after : Parser
    pub fuel_left : ℕ
    pub spent : fuel ≤ suc fuel_left + n
    pub ahead : Ahead after rest
    pub errors : after.errors ≡ p.errors
    pub goes_on :
        parse_expression lib fuel q p ≡ infix_loop lib (suc fuel_left) q (node_of lib f) after

  -- Printed for `k`, read at any precedence up to that.
  abbrev Readable : Formula → Type 0
  Readable f =
      (k q fuel : ℕ) (p : Parser) (stop : Token) (more : List Token)
      → q ≤ k
      → weight f < fuel
      → IsStop k stop
      → Here p (emit k f ++ (stop ∷ more))
      → Reads f (weight f) fuel q p (stop ∷ more)

  atom-Readable : (t : Token) → IsFormula (atom t) → Readable (atom t)
  unfolding emit weight node_of
  atom-Readable t a k q zero p stop more l w s h = absurd (omega arith)
  atom-Readable t a k q (suc zero) p stop more l w s h = absurd (omega arith)
  atom-Readable t a k q (suc (suc zero)) p stop more l w s h = absurd (omega arith)
  atom-Readable t a k q (suc (suc (suc fuel))) p stop more l w s h = record {
    after = p;
    fuel_left = suc fuel;
    spent = omega arith;
    ahead = h.1;
    errors = refl;
    goes_on =
        atom_step lib fuel q p t.type (ap (λ (t : Token). t.type) h.0) a
          (ap (λ (t : Token). same_type t.type token_semicolon) h.1.0 ∙ s.no_semicolon)
        ∙ ap (λ u. infix_loop lib (suc (suc fuel)) q (atom_node lib t.type u) p) h.0;
  }

  -- Nothing binds stronger than a prefix.
  prefix-IsStop : (k : ℕ) (t : Token) → IsStop k t → IsStop prefix_precedence t
  prefix-IsStop k t s = record {
    low = omega (arith, precedence_most t.type);
    no_semicolon = s.no_semicolon;
  }

  negation-Readable :
      (t : Token) (e : Formula) → t.type ≡ token_minus → Readable e → Readable (negation t e)
  unfolding emit weight node_of parse_with prefix_parse_fn
  negation-Readable t e minus ih k q zero p stop more l w s h = absurd (omega arith)
  negation-Readable t e minus ih k q (suc zero) p stop more l w s h = absurd (omega arith)
  negation-Readable t e minus ih k q (suc (suc fuel)) p stop more l w s h =
      let r =
        ih prefix_precedence prefix_precedence fuel (advance p) stop more (omega arith)
          (omega arith) (prefix-IsStop k stop s)
          (advance-Here p (emit prefix_precedence e ++ (stop ∷ more)) h.1) in
      let operand : parse_expression lib fuel prefix_precedence (advance p)
          ≡ ok (node_of lib e, r.after) =
        r.goes_on
        ∙ loop_stops lib r.fuel_left prefix_precedence (node_of lib e) r.after stop r.ahead.0
            (omega (arith, precedence_most stop.type)) in
      let is_prefix : prefix_parse_fn p.curr.type ≡ some fn_prefix =
        ap (λ (u : Token). prefix_parse_fn u.type) h.0 ∙ ap prefix_parse_fn minus in
      record {
        after = r.after;
        fuel_left = fuel;
        spent = omega arith;
        ahead = r.ahead;
        errors = r.errors ∙ errors-advance p;
        goes_on =
            prefix_step lib (suc fuel) q p fn_prefix is_prefix
            ∙ (rw operand (
                ap
                  (λ (u : Token).
                    infix_loop lib (suc fuel) q (node_prefix u u.literal (node_of lib e)) r.after)
                  h.0));
      }

  -- The operator and its right operand.
  pub record RightRead (t : Token) (left : Expression) (r : Formula) (fuel : ℕ) (p : Parser)
      (rest : List Token) : Type 0 where
    pub after : Parser
    pub ahead : Ahead after rest
    pub errors : after.errors ≡ p.errors
    pub parsed :
        parse_infix lib fuel left p ≡ ok (node_infix t t.literal left (node_of lib r), after)

  right-RightRead :
      (t : Token) (left : Expression) (r : Formula) (fuel : ℕ) (p : Parser) (stop : Token)
      (more : List Token)
      → Readable r
      → suc (weight r) < fuel
      → precedence stop ≤ precedence t
      → same_type stop.type token_semicolon ≡ false
      → Here p (t ∷ (emit (precedence t) r ++ (stop ∷ more)))
      → RightRead t left r fuel p (stop ∷ more)
  unfolding parse_infix curr_token_precedence
  right-RightRead t left r zero p stop more ih w l s h = absurd (omega arith)
  right-RightRead t left r (suc fuel) p stop more ih w l s h =
      let k = precedence t in
      let x =
        ih k k fuel (advance p) stop more (omega arith) (omega arith)
          (record { low = omega arith; no_semicolon = s })
          (advance-Here p (emit k r ++ (stop ∷ more)) h.1) in
      let operand : parse_expression lib fuel (precedence_of p.curr.type) (advance p)
          ≡ ok (node_of lib r, x.after) =
        ap (λ (u : Token). parse_expression lib fuel (precedence u) (advance p)) h.0
        ∙ x.goes_on
        ∙ loop_stops lib x.fuel_left k (node_of lib r) x.after stop x.ahead.0 l in
      record {
        after = x.after;
        ahead = x.ahead;
        errors = x.errors ∙ errors-advance p;
        parsed =
            rw operand
              (ap (λ (u : Token). ok (node_infix u u.literal left (node_of lib r), x.after)) h.0);
      }

  body : Token → Formula → Formula → List Token
  body t l r = emit (precedence t - 1) l ++ (t ∷ emit (precedence t) r)

  -- An operation without brackets.
  body-Reads :
      (t : Token) (l r : Formula) (q fuel : ℕ) (p : Parser) (stop : Token) (more : List Token)
      → infix_parse_fn t.type ≡ true
      → Readable l
      → Readable r
      → q < precedence t
      → 3 + weight l + weight r < fuel
      → precedence stop ≤ precedence t
      → same_type stop.type token_semicolon ≡ false
      → Here p (body t l r ++ (stop ∷ more))
      → Reads (operation t l r) (3 + weight l + weight r) fuel q p (stop ∷ more)
  unfolding body node_of
  body-Reads t l r q fuel p stop more op ihl ihr ql w low s h =
      let k = precedence t in
      let behind = emit k r ++ (stop ∷ more) in
      let x =
        ihl (k - 1) q fuel p t behind (omega arith) (omega arith)
          (record { low = omega arith; no_semicolon = op_no_semicolon t.type op })
          (subst (Here p) (append_assoc (emit (k - 1) l) (t ∷ emit k r) (stop ∷ more)) h) in
      let y =
        right-RightRead t (node_of lib l) r x.fuel_left (advance x.after) stop more ihr
          (omega (arith, x.spent)) low s (advance-Here x.after (t ∷ behind) x.ahead) in
      let left : x.fuel_left ≡ suc (x.fuel_left - 1) = omega (arith, x.spent) in
      record {
        after = y.after;
        fuel_left = x.fuel_left - 1;
        spent = omega (arith, x.spent);
        ahead = y.ahead;
        errors = y.errors ∙ errors-advance x.after ∙ x.errors;
        goes_on =
            x.goes_on
            ∙ loop_steps lib x.fuel_left q (node_of lib l) x.after t x.ahead.0 op ql
            ∙ (rw y.parsed (
                ap
                  (λ n.
                    infix_loop lib n q (node_infix t t.literal (node_of lib l) (node_of lib r))
                      y.after)
                  left));
      }

  closed : (p : Parser) → p.peek ≡ rparen → expect_peer_token token_rparen p ≡ (true, advance p)
  unfolding expect_peer_token same_type
  closed p h =
      let e : same_type p.peek.type token_rparen ≡ true =
        ap (λ (t : Token). same_type t.type token_rparen) h in
      rw e

  group-Reads :
      (t : Token) (l r : Formula) (q fuel : ℕ) (p : Parser) (stop : Token) (more : List Token)
      → infix_parse_fn t.type ≡ true
      → Readable l
      → Readable r
      → 6 + weight l + weight r < fuel
      → Here p (lparen ∷ (body t l r ++ (rparen ∷ (stop ∷ more))))
      → Reads (operation t l r) (6 + weight l + weight r) fuel q p (stop ∷ more)
  unfolding parse_with parse_group prefix_parse_fn precedence_of same_type
  group-Reads t l r q zero p stop more op ihl ihr w h = absurd (omega arith)
  group-Reads t l r q (suc zero) p stop more op ihl ihr w h = absurd (omega arith)
  group-Reads t l r q (suc (suc zero)) p stop more op ihl ihr w h = absurd (omega arith)
  group-Reads t l r q (suc (suc (suc fuel))) p stop more op ihl ihr w h =
      let behind = stop ∷ more in
      let x =
        body-Reads t l r lowest fuel (advance p) rparen behind op ihl ihr
          (omega (arith, op_precedence t.type op)) (omega arith) (omega arith) refl
          (advance-Here p (body t l r ++ (rparen ∷ behind)) h.1) in
      let inner : parse_expression lib fuel lowest (advance p)
          ≡ ok (node_of lib (operation t l r), x.after) =
        x.goes_on
        ∙ loop_stops lib x.fuel_left lowest (node_of lib (operation t l r)) x.after rparen x.ahead.0
            (omega arith) in
      let is_group : prefix_parse_fn p.curr.type ≡ some fn_group =
        ap (λ (u : Token). prefix_parse_fn u.type) h.0 in
      record {
        after = advance x.after;
        fuel_left = suc fuel;
        spent = omega arith;
        ahead = (advance-Here x.after (rparen ∷ behind) x.ahead).1;
        errors = errors-advance x.after ∙ x.errors ∙ errors-advance p;
        goes_on =
            prefix_step lib (suc (suc fuel)) q p fn_group is_group
            ∙ (rw (inner, closed x.after x.ahead.0));
      }

  operation-Readable :
      (t : Token) (l r : Formula)
      → infix_parse_fn t.type ≡ true
      → Readable l
      → Readable r
      → Readable (operation t l r)
  unfolding emit weight body
  operation-Readable t l r op ihl ihr k q fuel p stop more ql w s h =
      elim (Bool-cases (ltb k (precedence t))) [
        | inl bare ↦
            let plain : emit k (operation t l r) ≡ body t l r = rw bare in
            let above : k < precedence t = ltb→lt k (precedence t) bare in
            let x =
              body-Reads t l r q fuel p stop more op ihl ihr (omega arith) (omega arith)
                (omega (arith, s.low)) s.no_semicolon
                (subst (λ ts. Here p (ts ++ (stop ∷ more))) plain h) in
            record {
              after = x.after;
              fuel_left = x.fuel_left;
              spent = omega (arith, x.spent);
              ahead = x.ahead;
              errors = x.errors;
              goes_on = x.goes_on;
            }
        | inr bracketed ↦
            let plain : emit k (operation t l r) ++ (stop ∷ more)
                ≡ lparen ∷ (body t l r ++ (rparen ∷ (stop ∷ more))) =
              rw bracketed
                (ap (λ ts. lparen ∷ ts) (append_assoc (body t l r) (rparen ∷ []) (stop ∷ more))) in
            group-Reads t l r q fuel p stop more op ihl ihr w (subst (Here p) plain h)
      ]

  formula-Readable : (f : Formula) → IsFormula f → Readable f
  formula-Readable (atom t) h = atom-Readable t h
  formula-Readable (negation t e) h = negation-Readable t e h.0 (formula-Readable e h.1)
  formula-Readable (operation t l r) h =
      operation-Readable t l r h.0 (formula-Readable l h.1) (formula-Readable r h.2)

  -- When the parser stands before the tokens of an expression, printed with brackets only where the
  -- precedences and the grouping to the left ask for them, and behind them a token that is no semicolon
  -- and that does not bind more strongly than `q`, then with enough fuel `parse_expression` returns the
  -- nodes of that expression, stands before that token, and reports no error.
  pub parse_expression-emit :
      (f : Formula) (q fuel : ℕ) (p : Parser) (stop : Token) (more : List Token)
      → IsFormula f
      → weight f < fuel
      → precedence stop ≤ q
      → same_type stop.type token_semicolon ≡ false
      → Here p (emit q f ++ (stop ∷ more))
      → (p' : Parser) × (parse_expression lib fuel q p ≡ ok (node_of lib f, p'))
        × Ahead p' (stop ∷ more)
        × (p'.errors ≡ p.errors)
  parse_expression-emit f q fuel p stop more good w low s h =
      let x =
        formula-Readable f good q q fuel p stop more (omega arith) w
          (record { low = omega arith; no_semicolon = s }) h in
      (
        x.after,
        x.goes_on ∙ loop_stops lib x.fuel_left q (node_of lib f) x.after stop x.ahead.0 low,
        x.ahead,
        x.errors,
      )
