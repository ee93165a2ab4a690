-- ===== src/Lexer/Refinement.antt =====
-- `next_token` of lexer/lexer.cpp is `scan` of the text that is left.
use dtime_db.Prelude.{
  ℕ, ◌≡◌, refl, ap, sym, subst, ◌∙◌, inl, inr, Bool, true, false, ◌&&◌, [], ◌∷◌, ◌++◌, ◌==◌,
  Bool-cases, Option-cases,
}
use dtime_db.Token.{Text, Token, TokenType, token_integer, token_float, token_string}
use dtime_db.Lexer.{
  Lexer, is_digit, is_letter, is_word, is_space, peek_char, read_char, unread_char, rounds, symbol,
  pair_symbol, word_token, read_number, skip_white_space, next_number, next_word, next_pair,
  next_other, dispatch, next_token,
}
use dtime_db.Lexer.Scan.{
  head_or_end, tail, take_while, drop_while, scan_number, scan_pair, scan_other, scan_at, scan,
}
use dtime_db.Lexer.Loops.{
  left, IsHere, left-IsHere, peek_char-left, read_char-IsHere, input-read_char, left-read_char,
  read_while-Reads, read_number-IsRead, read_identifier-IsRead, length-here,
}
use dtime_db.Lexer.Quotes.{read_single-IsQuoted, read_double-IsQuoted}

-- A token, and the text left behind it, read from a lexer whose input stays the same.
pub record Yields (s : Lexer) (r : Token × Lexer) (t : Token × Text) : Type 0 where
  pub token : r.0 ≡ t.0
  pub rest : left r.1 ≡ t.1
  pub input : r.1.input ≡ s.input

next_number-Yields :
    (s : Lexer) (cs : Text) → IsHere s cs → Yields s (next_number s) (scan_number cs)
unfolding next_number scan_number unread_char
next_number-Yields s cs h =
    let w1 = read_number-IsRead s cs h in
    let s1 = (read_number s).1 in
    let rest = drop_while is_digit cs in
    let left1 : left s1 ≡ tail rest = left-IsHere s1 rest w1.here in
    let w2 =
      read_number-IsRead (read_char s1) (tail rest)
        (subst (IsHere (read_char s1)) left1 (read_char-IsHere s1)) in
    let test : ((s1.ch == b'.') && is_digit (peek_char s1))
        ≡ ((head_or_end rest == b'.') && is_digit (head_or_end (tail rest))) =
      λ i. (w1.here.current i == b'.') && is_digit ((peek_char-left s1 ∙ ap head_or_end left1) i) in
    elim (Bool-cases ((head_or_end rest == b'.') && is_digit (head_or_end (tail rest)))) [
      | inl float ↦
          rw (test ∙ float, float)
            (record {
              token =
                  λ i. record { type = token_float; literal = w1.value i ++ (b'.' ∷ w2.value i) };
              rest = w2.given_back;
              input = w2.input ∙ input-read_char s1 ∙ w1.input;
            })
      | inr integer ↦
          rw (test ∙ integer, integer)
            (record {
              token = λ i. record { type = token_integer; literal = w1.value i };
              rest = w1.given_back;
              input = w1.input;
            })
    ]

-- A current character that the loops accept is not the end of the input.
not_at_end :
    (p : ℕ → Bool) (s : Lexer) (cs : Text)
    → p 0 ≡ false
    → p s.ch ≡ true
    → IsHere s cs
    → IsHere s (s.ch ∷ left s)
not_at_end p s [] z t h = cc (ap p h.current)
not_at_end p s (c ∷ r) z t h =
    subst (IsHere s) (λ i. sym h.current i ∷ sym (left-IsHere s (c ∷ r) h) i) h

next_word-Yields :
    (s : Lexer) (cs : Text)
    → IsHere s cs
    → Yields s (next_word s) (word_token (take_while is_word cs), drop_while is_word cs)
unfolding next_word unread_char
next_word-Yields s cs h =
    let w = read_identifier-IsRead s cs h in
    record { token = ap word_token w.value; rest = w.given_back; input = w.input }

next_pair-Yields :
    (s : Lexer) (p : ℕ × TokenType × TokenType)
    → Yields s (next_pair s p) (scan_pair s.ch (left s) p)
unfolding next_pair scan_pair
next_pair-Yields s (second, long, short) =
    let test = ap (λ k. k == second) (peek_char-left s) in
    elim (Bool-cases (head_or_end (left s) == second)) [
      | inl two ↦
          rw (test ∙ two, two)
            (record { token = refl; rest = left-read_char s; input = input-read_char s })
      | inr one ↦ rw (test ∙ one, one) (record { token = refl; rest = refl; input = refl })
    ]

next_other-Yields :
    (s : Lexer) (cs : Text) → IsHere s cs → Yields s (next_other s) (scan_other s.ch (left s))
unfolding next_other scan_other
next_other-Yields s cs h = elim (Bool-cases (s.ch == 39)) [
  | inl single ↦
      let q = read_single-IsQuoted s in
      rw single (record {
        token = λ i. record { type = token_string; literal = q.value i };
        rest = q.rest;
        input = q.input;
      })
  | inr n1 ↦ elim (Bool-cases (s.ch == 34)) [
    | inl double ↦
        let q = read_double-IsQuoted s in
        rw (n1, double)
          (record {
            token = λ i. record { type = token_string; literal = q.value i };
            rest = q.rest;
            input = q.input;
          })
    | inr n2 ↦ elim (Bool-cases (s.ch == 0)) [
      | inl end ↦ rw (n1, n2, end) (record { token = refl; rest = refl; input = refl })
      | inr n3 ↦ elim (Bool-cases (is_digit s.ch)) [
        | inl digit ↦
            rw (n1, n2, n3, digit)
              (next_number-Yields s (s.ch ∷ left s) (not_at_end is_digit s cs refl digit h))
        | inr n4 ↦ elim (Bool-cases (is_letter s.ch)) [
          | inl letter ↦
              rw (n1, n2, n3, n4, letter)
                (next_word-Yields s (s.ch ∷ left s) (not_at_end is_letter s cs refl letter h))
          | inr n5 ↦ rw (n1, n2, n3, n4, n5) (record { token = refl; rest = refl; input = refl })
        ]
      ]
    ]
  ]
]

dispatch-Yields :
    (s : Lexer) (cs : Text) → IsHere s cs → Yields s (dispatch s) (scan_at s.ch (left s))
unfolding dispatch scan_at
dispatch-Yields s cs h = elim (Option-cases (symbol s.ch)) [
  | inr (type, e) ↦ rw (e, dispatch, scan_at) (record { token = refl; rest = refl; input = refl })
  | inl e ↦ elim (Option-cases (pair_symbol s.ch)) [
    | inr (p, e') ↦ rw (e, e', dispatch, scan_at) (next_pair-Yields s p)
    | inl e' ↦ rw (e, e', dispatch, scan_at) (next_other-Yields s cs h)
  ]
]

-- From any state of the lexer, `next_token` returns the token at the head of the text that is left,
-- leaves the text behind that token, and keeps the input.
pub next_token-Yields : (s : Lexer) → Yields s (next_token s) (scan (left s))
unfolding next_token scan skip_white_space
next_token-Yields s =
    let s0 = read_char s in
    let here0 = read_char-IsHere s in
    let r =
      read_while-Reads is_space (rounds s0) s0 (left s) refl (length-here s0 (left s) here0)
        here0 in
    let cs = drop_while is_space (left s) in
    let s1 = skip_white_space s0 in
    let y = dispatch-Yields s1 cs r.ends in
    let same : scan_at s1.ch (left s1) ≡ scan_at (head_or_end cs) (tail cs) =
      λ i. scan_at (r.ends.current i) (left-IsHere s1 cs r.ends i) in
    record {
      token = y.token ∙ ap (λ (t : Token × Text). t.0) same;
      rest = y.rest ∙ ap (λ (t : Token × Text). t.1) same;
      input = y.input ∙ r.input ∙ input-read_char s;
    }
