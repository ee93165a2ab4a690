-- ===== src/Lexer/Progress.antt =====
-- Each call of `next_token` (lexer/lexer.cpp) shortens the text that is left, until the end token.
use dtime_db.Prelude.{
  ℕ, zero, suc, ◌≤◌, ◌<◌, ◌≡◌, ◌≢◌, refl, ap, ◌∙◌, ◌⊎◌, inl, inr, Bool, true, ◌&&◌, [], ◌∷◌, arith,
  length, ◌==◌, Bool-cases, Option-cases,
}
use dtime_db.Token.{Text, Token, token_eof, codes}
use dtime_db.Lexer.{
  Lexer, is_digit, is_letter, is_word, is_space, symbol, pair_symbol, next_token, lexer_of,
}
use dtime_db.Lexer.Scan.{
  head_or_end, tail, drop_while, single_quoted, double_quoted, scan_number, scan_pair, scan_other,
  scan_at, scan,
}
use dtime_db.Lexer.Loops.{left, length-tail}
use dtime_db.Lexer.Refinement.{next_token-Yields}

length-drop_while-le : (p : ℕ → Bool) (cs : Text) → length (drop_while p cs) ≤ length cs
unfolding drop_while
length-drop_while-le p [] = omega arith
length-drop_while-le p (c ∷ cs) = ground (arith, length-drop_while-le p cs)

length-drop_while_first :
    (p : ℕ → Bool) (c : ℕ) (r : Text) → p c ≡ true → length (drop_while p (c ∷ r)) ≤ length r
unfolding drop_while
length-drop_while_first p c r h = rw h (length-drop_while-le p r)

length-single_quoted-le : (r : Text) → length (single_quoted r).1 ≤ length r
unfolding single_quoted
length-single_quoted-le [] = omega arith
length-single_quoted-le (c ∷ []) = ground arith
length-single_quoted-le (c ∷ d ∷ r) =
    ground (arith, length-single_quoted-le r, length-single_quoted-le (d ∷ r))

length-double_quoted-le : (r : Text) → length (double_quoted r).1 ≤ length r
unfolding double_quoted
length-double_quoted-le [] = omega arith
length-double_quoted-le (c ∷ []) = ground arith
length-double_quoted-le (c ∷ d ∷ r) =
    ground (arith, length-double_quoted-le r, length-double_quoted-le (d ∷ r))

length-scan_number-le :
    (c : ℕ) (r : Text) → is_digit c ≡ true → length (scan_number (c ∷ r)).1 ≤ length r
unfolding scan_number
length-scan_number-le c r h =
    let rest = drop_while is_digit (c ∷ r) in
    elim (Bool-cases ((head_or_end rest == b'.') && is_digit (head_or_end (tail rest)))) [
      | inl float ↦ rw float (
          omega (
            arith,
            length-drop_while-le is_digit (tail rest),
            length-tail rest,
            length-drop_while_first is_digit c r h,
          ))
      | inr integer ↦ rw integer (length-drop_while_first is_digit c r h)
    ]

length-scan_other-le : (c : ℕ) (r : Text) → length (scan_other c r).1 ≤ length r
unfolding scan_other
length-scan_other-le c r = elim (Bool-cases (is_digit c)) [
  | inl digit ↦ rw digit (
      ground (
        arith,
        length-single_quoted-le r,
        length-double_quoted-le r,
        length-scan_number-le c r digit,
      ))
  | inr n ↦ elim (Bool-cases (is_letter c)) [
    | inl letter ↦
        let word : is_word c ≡ true = rw letter in
        rw (n, letter)
          (ground (
            arith,
            length-single_quoted-le r,
            length-double_quoted-le r,
            length-drop_while_first is_word c r word,
          ))
    | inr n' ↦ rw (n, n') (ground (arith, length-single_quoted-le r, length-double_quoted-le r))
  ]
]

length-scan_at-le : (c : ℕ) (r : Text) → length (scan_at c r).1 ≤ length r
unfolding scan_at
length-scan_at-le c r = elim (Option-cases (symbol c)) [
  | inr (type, e) ↦ rw (e, scan_at) (omega arith)
  | inl e ↦ elim (Option-cases (pair_symbol c)) [
    | inr (p, e') ↦ rw (e, e', scan_at) (unfold scan_pair in ground (arith, length-tail r))
    | inl e' ↦ rw (e, e', scan_at) (length-scan_other-le c r)
  ]
]

length-scan-lt : (text : Text) → text ≢ [] → length (scan text).1 < length text
unfolding scan
length-scan-lt [] h = absurd (h refl)
length-scan-lt (c ∷ r) h =
    let cs = drop_while is_space (c ∷ r) in
    omega (
      arith,
      length-scan_at-le (head_or_end cs) (tail cs),
      length-tail cs,
      length-drop_while-le is_space (c ∷ r),
    )

pub scan_nil : scan [] ≡ (record { type = token_eof; literal = codes "EOF" }, [])
unfolding scan scan_at scan_other symbol pair_symbol drop_while
scan_nil = refl

-- The token at the end of the input.
abbrev pub end_token : Token
end_token = record { type = token_eof; literal = codes "EOF" }

-- Every call either finds no text left, and then returns the end token and leaves none, or leaves less
-- text than it found.
pub next_token_progress :
    (s : Lexer)
    → (left s ≡ [] → ((next_token s).0 ≡ end_token) × (left (next_token s).1 ≡ []))
      × (left s ≢ [] → length (left (next_token s).1) < length (left s))
next_token_progress s =
    let y = next_token-Yields s in
    (
      λ e.
          let at_end : scan (left s) ≡ (end_token, []) = ap scan e ∙ scan_nil in
          (
            y.token ∙ ap (λ (t : Token × Text). t.0) at_end,
            y.rest ∙ ap (λ (t : Token × Text). t.1) at_end,
          ),
      λ h. omega (arith, ap length y.rest, length-scan-lt (left s) h),
    )

-- The lexer after a number of calls.
unfoldable pub after_calls : ℕ → Lexer → Lexer
after_calls zero s = s
after_calls (suc n) s = after_calls n (next_token s).1

after_calls-left : (n : ℕ) (s : Lexer) → length (left s) ≤ n → left (after_calls n s) ≡ []
unfolding after_calls
after_calls-left zero s h = length_nil (left s) h
  where
    length_nil : (cs : Text) → length cs ≤ 0 → cs ≡ []
    length_nil [] h = refl
    length_nil (c ∷ cs) h = absurd (omega arith)
after_calls-left (suc n) s h = elim (nil_cases (left s)) [
  | inl e ↦
      after_calls-left n (next_token s).1 (omega (arith, ap length ((next_token_progress s).0 e).1))
  | inr e ↦ after_calls-left n (next_token s).1 (omega (arith, (next_token_progress s).1 e))
]
  where
    nil_cases : (cs : Text) → (cs ≡ []) ⊎ (cs ≢ [])
    nil_cases [] = inl refl
    nil_cases (c ∷ cs) = inr (λ e. cc)

-- A caller that reads until the end token stops: after as many calls as the input has bytes, every
-- further call returns the end token.
pub lexer_ends :
    (input : Text) (n : ℕ)
    → length input ≤ n
    → (next_token (after_calls n (lexer_of input))).0 ≡ end_token
lexer_ends input n h =
    let s = after_calls n (lexer_of input) in
    ((next_token_progress s).0 (after_calls-left n (lexer_of input) h)).0
