-- ===== src/Lexer/Quotes.antt =====
-- The quoted strings of lexer/lexer.cpp against the text that is left.
use dtime_db.Prelude.{
  ℕ, zero, suc, ◌<◌, ◌≡◌, refl, ap, sym, ◌∙◌, inl, inr, ◌&&◌, ◌||◌, [], ◌∷◌, ◌++◌, arith,
  append-nil, append_assoc, length, length-drop, ◌==◌, Bool-cases, if◌then◌else◌,
}
use dtime_db.Token.{Text}
use dtime_db.Lexer.{
  Lexer, is_escape, escape_value, peek_char, read_char, rounds, single_quote_loop,
  double_quote_loop, read_single_quote_string, read_double_quote_string,
}
use dtime_db.Lexer.Scan.{head_or_end, tail, single_quoted, double_quoted}
use dtime_db.Lexer.Loops.{
  left, peek_char-left, read_char-IsHere, input-read_char, left-read_char, length-tail,
}

-- A quoted string read on from `str`, and the text behind it.
pub record IsQuoted (s : Lexer) (str : Text) (q : Text × Text) (r : Text × Lexer) : Type 0 where
  pub value : r.0 ≡ str ++ q.0
  pub rest : left r.1 ≡ q.1
  pub input : r.1.input ≡ s.input

single_quoted-step :
    (c : ℕ) (r : Text)
    → single_quoted (c ∷ r) ≡ (
        if (c == 39) || (c == 0)
        then ([], r)
        else if (c == 92) && (head_or_end r == 39)
        then (head_or_end r ∷ (single_quoted (tail r)).0, (single_quoted (tail r)).1)
        else (c ∷ (single_quoted r).0, (single_quoted r).1))
unfolding single_quoted
single_quoted-step c [] = ground arith
single_quoted-step c (d ∷ r) = refl

pub double_quoted-step :
    (c : ℕ) (r : Text)
    → double_quoted (c ∷ r) ≡ (
        if (c == 34) || (c == 0)
        then ([], r)
        else if (c == 92) && is_escape (head_or_end r)
        then (escape_value (head_or_end r) ∷ (double_quoted (tail r)).0, (double_quoted (tail r)).1)
        else (c ∷ (double_quoted r).0, (double_quoted r).1))
unfolding double_quoted
double_quoted-step c [] = ground arith
double_quoted-step c (d ∷ r) = refl

single_quote_loop-IsQuoted :
    (fuel : ℕ) (s : Lexer) (str text : Text)
    → left s ≡ text
    → length text < fuel
    → IsQuoted s str (single_quoted text) (single_quote_loop fuel s str)
unfolding single_quote_loop
single_quote_loop-IsQuoted zero s str text e l = absurd (omega arith)
single_quote_loop-IsQuoted (suc fuel) s str [] e l =
    let ch : (read_char s).ch ≡ 0 = (read_char-IsHere s).current ∙ ap head_or_end e in
    let stop = ap (λ k. (k == 39) || (k == 0)) ch in
    rw stop (
      unfold single_quoted in
      record {
        value = sym (append-nil str);
        rest = left-read_char s ∙ ap tail e;
        input = input-read_char s;
      })
single_quote_loop-IsQuoted (suc fuel) s str (c ∷ r) e l =
    let s1 = read_char s in
    let ch : s1.ch ≡ c = (read_char-IsHere s).current ∙ ap head_or_end e in
    let left1 : left s1 ≡ r = left-read_char s ∙ ap tail e in
    let peek : peek_char s1 ≡ head_or_end r = peek_char-left s1 ∙ ap head_or_end left1 in
    let tests = ap (λ k. (k == 39) || (k == 0)) ch in
    let escape : ((s1.ch == 92) && (peek_char s1 == 39)) ≡ ((c == 92) && (head_or_end r == 39)) =
      λ i. (ch i == 92) && (peek i == 39) in
    elim (Bool-cases ((c == 39) || (c == 0))) [
      | inl stop ↦
          rw (tests ∙ stop, single_quoted-step c r, stop)
            (record { value = sym (append-nil str); rest = left1; input = input-read_char s })
      | inr more ↦ elim (Bool-cases ((c == 92) && (head_or_end r == 39))) [
        | inr plain ↦
            let ih =
              single_quote_loop-IsQuoted fuel s1 (str ++ (s1.ch ∷ [])) r left1 (omega arith) in
            rw (tests ∙ more, escape ∙ plain, single_quoted-step c r, more, plain)
              (record {
                value =
                    ih.value
                    ∙ append_assoc str (s1.ch ∷ []) (single_quoted r).0
                    ∙ ap (λ k. str ++ (k ∷ (single_quoted r).0)) ch;
                rest = ih.rest;
                input = ih.input ∙ input-read_char s;
              })
        | inl escaped ↦
            let s2 = read_char s1 in
            let ch2 : s2.ch ≡ head_or_end r =
              (read_char-IsHere s1).current ∙ ap head_or_end left1 in
            let left2 : left s2 ≡ tail r = left-read_char s1 ∙ ap tail left1 in
            let ih =
              single_quote_loop-IsQuoted fuel s2 (str ++ (s2.ch ∷ [])) (tail r) left2
                (omega (arith, length-tail r)) in
            rw (tests ∙ more, escape ∙ escaped, single_quoted-step c r, more, escaped)
              (record {
                value =
                    ih.value
                    ∙ append_assoc str (s2.ch ∷ []) (single_quoted (tail r)).0
                    ∙ ap (λ k. str ++ (k ∷ (single_quoted (tail r)).0)) ch2;
                rest = ih.rest;
                input = ih.input ∙ input-read_char s1 ∙ input-read_char s;
              })
      ]
    ]

double_quote_loop-IsQuoted :
    (fuel : ℕ) (s : Lexer) (str text : Text)
    → left s ≡ text
    → length text < fuel
    → IsQuoted s str (double_quoted text) (double_quote_loop fuel s str)
unfolding double_quote_loop
double_quote_loop-IsQuoted zero s str text e l = absurd (omega arith)
double_quote_loop-IsQuoted (suc fuel) s str [] e l =
    let ch : (read_char s).ch ≡ 0 = (read_char-IsHere s).current ∙ ap head_or_end e in
    let stop = ap (λ k. (k == 34) || (k == 0)) ch in
    rw stop (
      unfold double_quoted in
      record {
        value = sym (append-nil str);
        rest = left-read_char s ∙ ap tail e;
        input = input-read_char s;
      })
double_quote_loop-IsQuoted (suc fuel) s str (c ∷ r) e l =
    let s1 = read_char s in
    let ch : s1.ch ≡ c = (read_char-IsHere s).current ∙ ap head_or_end e in
    let left1 : left s1 ≡ r = left-read_char s ∙ ap tail e in
    let peek : peek_char s1 ≡ head_or_end r = peek_char-left s1 ∙ ap head_or_end left1 in
    let tests = ap (λ k. (k == 34) || (k == 0)) ch in
    let escape : ((s1.ch == 92) && is_escape (peek_char s1))
        ≡ ((c == 92) && is_escape (head_or_end r)) =
      λ i. (ch i == 92) && is_escape (peek i) in
    elim (Bool-cases ((c == 34) || (c == 0))) [
      | inl stop ↦
          rw (tests ∙ stop, double_quoted-step c r, stop)
            (record { value = sym (append-nil str); rest = left1; input = input-read_char s })
      | inr more ↦ elim (Bool-cases ((c == 92) && is_escape (head_or_end r))) [
        | inr plain ↦
            let ih =
              double_quote_loop-IsQuoted fuel s1 (str ++ (s1.ch ∷ [])) r left1 (omega arith) in
            rw (tests ∙ more, escape ∙ plain, double_quoted-step c r, more, plain)
              (record {
                value =
                    ih.value
                    ∙ append_assoc str (s1.ch ∷ []) (double_quoted r).0
                    ∙ ap (λ k. str ++ (k ∷ (double_quoted r).0)) ch;
                rest = ih.rest;
                input = ih.input ∙ input-read_char s;
              })
        | inl escaped ↦
            let s2 = record (read_char s1) { ch = escape_value (peek_char s1) } in
            let ch2 : escape_value (peek_char s1) ≡ escape_value (head_or_end r) =
              ap escape_value peek in
            let left2 : left s2 ≡ tail r = left-read_char s1 ∙ ap tail left1 in
            let ih =
              double_quote_loop-IsQuoted fuel s2 (str ++ (escape_value (peek_char s1) ∷ []))
                (tail r) left2 (omega (arith, length-tail r)) in
            rw (tests ∙ more, escape ∙ escaped, double_quoted-step c r, more, escaped)
              (record {
                value =
                    ih.value
                    ∙ append_assoc str (escape_value (peek_char s1) ∷ []) (double_quoted (tail r)).0
                    ∙ ap (λ k. str ++ (k ∷ (double_quoted (tail r)).0)) ch2;
                rest = ih.rest;
                input = ih.input ∙ input-read_char s1 ∙ input-read_char s;
              })
      ]
    ]

pub read_single-IsQuoted :
    (s : Lexer) → IsQuoted s [] (single_quoted (left s)) (read_single_quote_string s)
unfolding read_single_quote_string
read_single-IsQuoted s =
    single_quote_loop-IsQuoted (rounds s) s [] (left s) refl
      (omega (arith, length-drop s.next_pos s.input))

pub read_double-IsQuoted :
    (s : Lexer) → IsQuoted s [] (double_quoted (left s)) (read_double_quote_string s)
unfolding read_double_quote_string
read_double-IsQuoted s =
    double_quote_loop-IsQuoted (rounds s) s [] (left s) refl
      (omega (arith, length-drop s.next_pos s.input))
