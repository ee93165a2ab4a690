-- ===== src/Lexer/Words.antt =====
-- Words, numbers and quoted strings as `next_token` (lexer/lexer.cpp) returns them.
use dtime_db.Prelude.{
  ℕ, ◌≡◌, ◌≢◌, refl, ap, sym, ◌∙◌, inl, inr, Bool, true, false, [], ◌∷◌, ◌++◌, arith, All, map,
  ◌==◌, Bool-cases, if◌then◌else◌, ==_iff, ne→beq,
}
use dtime_db.Token.{Text, Token, TokenType, token_string, token_identifier, look_up}
use dtime_db.Lexer.{
  Lexer, is_identifier, is_letter, is_word, is_space, to_lower, symbol, pair_symbol, word_token,
  next_token,
}
use dtime_db.Lexer.Scan.{
  head_or_end, take_while, drop_while, double_quoted, scan_other, scan_at, scan,
}
use dtime_db.Lexer.Loops.{left}
use dtime_db.Lexer.Quotes.{double_quoted-step}
use dtime_db.Lexer.Refinement.{next_token-Yields}

-- A string as it is written between double quotes.
unfoldable pub escape : Text → Text
escape [] = []
escape (c ∷ s) =
    let rest = escape s in
    if c == 10
    then 92 ∷ b'n' ∷ rest
    else if c == 13
    then 92 ∷ b'r' ∷ rest
    else if c == 9
    then 92 ∷ b't' ∷ rest
    else if c == 34
    then 92 ∷ 34 ∷ rest
    else if c == 92
    then 92 ∷ 92 ∷ rest
    else c ∷ rest

abbrev pub NotNul : ℕ → Type 0
NotNul c = c ≢ 0

pub double_quoted-escape :
    (s rest : Text) → All NotNul s → double_quoted (escape s ++ (34 ∷ rest)) ≡ (s, rest)
unfolding double_quoted escape
double_quoted-escape [] rest h = double_quoted-step 34 rest
double_quoted-escape (c ∷ s) rest h =
    let text = escape s ++ (34 ∷ rest) in
    let ih = double_quoted-escape s rest h.1 in
    let known : (k : ℕ)
        → (c == k) ≡ true
        → ◌≡◌ {A = Text × Text} (k ∷ (double_quoted text).0, (double_quoted text).1) (c ∷ s, rest) =
      λ k e i. (sym ((==_iff c k).0 e) i ∷ (ih i).0, (ih i).1) in
    elim (Bool-cases (c == 10)) [
      | inl e ↦ rw e (known 10 e)
      | inr n1 ↦ elim (Bool-cases (c == 13)) [
        | inl e ↦ rw (n1, e) (known 13 e)
        | inr n2 ↦ elim (Bool-cases (c == 9)) [
          | inl e ↦ rw (n1, n2, e) (known 9 e)
          | inr n3 ↦ elim (Bool-cases (c == 34)) [
            | inl e ↦ rw (n1, n2, n3, e) (known 34 e)
            | inr n4 ↦ elim (Bool-cases (c == 92)) [
              | inl e ↦ rw (n1, n2, n3, n4, e) (known 92 e)
              | inr n5 ↦
                  let n6 : (c == 0) ≡ false = ne→beq c 0 h.0 in
                  rw (n1, n2, n3, n4, n5, double_quoted-step c text, n4, n6, n5)
                    (λ i. (c ∷ (ih i).0, (ih i).1))
            ]
          ]
        ]
      ]
    ]

-- The head of a text that is no space is the current character.
scan_word_start : (c : ℕ) (r : Text) → is_space c ≡ false → scan (c ∷ r) ≡ scan_at c r
unfolding scan drop_while
scan_word_start c r h = rw h

pub scan_quote :
    (r : Text)
    → scan (34 ∷ r)
      ≡ (record { type = token_string; literal = (double_quoted r).0 }, (double_quoted r).1)
unfolding scan_at scan_other symbol pair_symbol
scan_quote r = scan_word_start 34 r refl

-- What a state of the lexer yields, given the scan of the text that is left.
pub yields_scan :
    (s : Lexer) (text : Text) (t : Token) (rest : Text)
    → left s ≡ text
    → scan text ≡ (t, rest)
    → ((next_token s).0 ≡ t) × (left (next_token s).1 ≡ rest)
yields_scan s text t rest e h =
    let y = next_token-Yields s in
    let found : scan (left s) ≡ (t, rest) = ap scan e ∙ h in
    (y.token ∙ ap (λ (r : Token × Text). r.0) found, y.rest ∙ ap (λ (r : Token × Text). r.1) found)

-- Any text without a zero byte, escaped and put between double quotes, is read back as a string token
-- with exactly that text, and what follows the closing quote is left.
pub next_token-escape :
    (s : Lexer) (str rest : Text)
    → All NotNul str
    → left s ≡ 34 ∷ (escape str ++ (34 ∷ rest))
    → ((next_token s).0 ≡ record { type = token_string; literal = str })
      × (left (next_token s).1 ≡ rest)
next_token-escape s str rest h e =
    yields_scan s (34 ∷ (escape str ++ (34 ∷ rest))) (record { type = token_string; literal = str })
      rest e
      (scan_quote (escape str ++ (34 ∷ rest))
        ∙ ap (λ (q : Text × Text). (record { type = token_string; literal = q.0 }, q.1))
            (double_quoted-escape str rest h))

abbrev pub IsWordChar : ℕ → Type 0
IsWordChar c = is_word c ≡ true

pub take_while-All :
    (p : ℕ → Bool) (w rest : Text)
    → All (λ c. p c ≡ true) w
    → p (head_or_end rest) ≡ false
    → (take_while p (w ++ rest) ≡ w) × (drop_while p (w ++ rest) ≡ rest)
unfolding take_while drop_while
take_while-All p [] [] h k = (refl, refl)
take_while-All p [] (c ∷ r) h k = (rw k, rw k)
take_while-All p (c ∷ w) rest h k =
    let ih = take_while-All p w rest h.1 k in (rw h.0 (ap (◌∷◌ c) ih.0), rw h.0 ih.1)

scan_at_letter :
    (c : ℕ) (r : Text)
    → is_letter c ≡ true
    → scan_at c r ≡ (word_token (take_while is_word (c ∷ r)), drop_while is_word (c ∷ r))
unfolding scan_at scan_other symbol pair_symbol
scan_at_letter c r h = ground arith

is_identifier_iff : (t : TokenType) → t ≢ token_identifier → is_identifier t ≡ false
is_identifier_iff token_identifier h = absurd (h refl)
is_identifier_iff _ h = refl

-- A word of letters, digits and underscores that does not begin with a digit is read whole, whatever
-- follows it: as the keyword that it spells in any mixture of small and capital letters, with the
-- keyword in small letters for its literal; or, if it spells none, as a string as it was written.
pub next_token-word :
    (s : Lexer) (c : ℕ) (w rest : Text)
    → is_letter c ≡ true
    → All IsWordChar w
    → is_word (head_or_end rest) ≡ false
    → left s ≡ c ∷ (w ++ rest)
    → let lower = map to_lower (c ∷ w) in
      (look_up lower ≢ token_identifier
        → (next_token s).0 ≡ record { type = look_up lower; literal = lower })
      × (look_up lower ≡ token_identifier
          → (next_token s).0 ≡ record { type = token_string; literal = c ∷ w })
      × (left (next_token s).1 ≡ rest)
unfolding word_token
next_token-word s c w rest l h k e = (
  λ n. word.0 ∙ (rw (is_identifier_iff (look_up (map to_lower (c ∷ w))) n)),
  λ n. word.0 ∙ (rw (ap is_identifier n)),
  word.1,
)
  where
    not_space : (c : ℕ) → is_letter c ≡ true → is_space c ≡ false
    not_space c h = ground arith

    first : is_word c ≡ true
    first = rw l

    whole :
        (take_while is_word (c ∷ (w ++ rest)) ≡ c ∷ w)
        × (drop_while is_word (c ∷ (w ++ rest)) ≡ rest)
    whole = take_while-All is_word (c ∷ w) rest (first, h) k

    word : ((next_token s).0 ≡ word_token (c ∷ w)) × (left (next_token s).1 ≡ rest)
    word = yields_scan s (c ∷ (w ++ rest)) (word_token (c ∷ w)) rest e (
        scan_word_start c (w ++ rest) (not_space c l)
        ∙ scan_at_letter c (w ++ rest) l
        ∙ (λ i. (word_token (whole.0 i), whole.1 i)))
