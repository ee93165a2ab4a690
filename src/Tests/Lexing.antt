-- ===== src/Tests/Lexing.antt =====
-- Instances for the lexer (lexer/lexer.cpp).
use dtime_db.Prelude.{◌≡◌, ◌≢◌, refl, [], ◌∷◌, ◌++◌, arith, map, length, ◌<◌}
use dtime_db.Token.{Text, codes, token_string, token_identifier, look_up}
use dtime_db.Lexer.{lexer_of, next_token, to_lower}
use dtime_db.Lexer.Scan.{scan}
use dtime_db.Lexer.Loops.{left}
use dtime_db.Lexer.Refinement.{Yields, next_token-Yields}
use dtime_db.Lexer.Progress.{end_token, after_calls, lexer_ends, next_token_progress}
use dtime_db.Lexer.Words.{escape, next_token-escape, next_token-word}

abbrev query : Text
query = codes "SeLect a from t"

next_token-Yields_example :
    Yields (lexer_of query) (next_token (lexer_of query)) (scan (left (lexer_of query)))
next_token-Yields_example = next_token-Yields (lexer_of query)

next_token_progress_example :
    (left (lexer_of query) ≡ []
      → ((next_token (lexer_of query)).0 ≡ end_token) × (left (next_token (lexer_of query)).1 ≡ []))
    × (left (lexer_of query) ≢ []
        → length (left (next_token (lexer_of query)).1) < length (left (lexer_of query)))
next_token_progress_example = next_token_progress (lexer_of query)

lexer_ends_example : (next_token (after_calls 15 (lexer_of query))).0 ≡ end_token
lexer_ends_example = lexer_ends query 15 (omega arith)

abbrev quoted : Text
quoted = 34 ∷ (escape (10 ∷ 92 ∷ 34 ∷ 65 ∷ []) ++ (34 ∷ 59 ∷ []))

next_token-escape_example :
    ((next_token (lexer_of quoted)).0
      ≡ record { type = token_string; literal = 10 ∷ 92 ∷ 34 ∷ 65 ∷ [] })
    × (left (next_token (lexer_of quoted)).1 ≡ 59 ∷ [])
next_token-escape_example =
    next_token-escape (lexer_of quoted) (10 ∷ 92 ∷ 34 ∷ 65 ∷ []) (59 ∷ []) (omega arith) refl

next_token-word_example :
    let lower = map to_lower (codes "SeLect") in
    (look_up lower ≢ token_identifier
      → (next_token (lexer_of query)).0 ≡ record { type = look_up lower; literal = lower })
    × (look_up lower ≡ token_identifier
        → (next_token (lexer_of query)).0
          ≡ record { type = token_string; literal = codes "SeLect" })
    × (left (next_token (lexer_of query)).1 ≡ codes " a from t")
next_token-word_example =
    next_token-word (lexer_of query) 83 (codes "eLect") (codes " a from t") refl
      (refl, (refl, (refl, (refl, (refl, tt))))) refl refl
