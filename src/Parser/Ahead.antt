-- ===== src/Parser/Ahead.antt =====
-- The tokens that the lexer gives next, and those that stand before the parser (parser/parser.cpp).
use dtime_db.Prelude.{◌≡◌, refl, List, [], ◌∷◌}
use dtime_db.Token.{Token}
use dtime_db.Lexer.{Lexer, next_token}
use dtime_db.Parser.{Parser, advance}

-- The next calls of the lexer return these tokens.
abbrev pub Feeds : Lexer → List Token → Type 0
Feeds s [] = Unit
Feeds s (t ∷ ts) = ((next_token s).0 ≡ t) × Feeds (next_token s).1 ts

-- The tokens behind the current one.
abbrev pub Ahead : Parser → List Token → Type 0
Ahead p [] = Unit
Ahead p (t ∷ ts) = (p.peek ≡ t) × Feeds p.lexer ts

-- The tokens from the current one on.
abbrev pub Here : Parser → List Token → Type 0
Here p [] = Unit
Here p (t ∷ ts) = (p.curr ≡ t) × Ahead p ts

pub advance-Here : (p : Parser) (ts : List Token) → Ahead p ts → Here (advance p) ts
unfolding advance
advance-Here p [] h = tt
advance-Here p (t ∷ []) h = (h.0, tt)
advance-Here p (t ∷ t' ∷ ts) h = (h.0, (h.1.0, h.1.1))

pub errors-advance : (p : Parser) → (advance p).errors ≡ p.errors
unfolding advance
errors-advance p = refl
