-- ===== src/Lexer/Loops.antt =====
-- The positions of lexer/lexer.cpp against the text that is left, and its loops: each has rounds enough
-- and ends by its own test.
use dtime_db.Prelude.{
  ℕ, zero, suc, ◌+◌, ◌-◌, ◌<◌, ◌≡◌, refl, ap, subst, ◌∙◌, inl, inr, Bool, false, [], ◌∷◌, arith,
  length, take, drop, get_or, length-drop, leb, Bool-cases, if◌then◌else◌,
}
use dtime_db.Token.{Text}
use dtime_db.Lexer.{
  Lexer, is_digit, is_word, peek_char, read_char, unread_char, read_while, rounds, read_number,
  read_identifier,
}
use dtime_db.Lexer.Scan.{head_or_end, tail, take_while, drop_while}

-- What `next_token` has not read yet.
abbrev pub left : Lexer → Text
left s = drop s.next_pos s.input

-- The text from the current character on.
pub record IsHere (s : Lexer) (cs : Text) : Type 0 where
  pub here : drop s.pos s.input ≡ cs
  pub current : s.ch ≡ head_or_end cs
  pub next : s.next_pos ≡ suc s.pos

drop-suc : (n : ℕ) (xs : Text) → drop (suc n) xs ≡ tail (drop n xs)
drop-suc zero [] = refl
drop-suc zero (x ∷ xs) = refl
drop-suc (suc n) [] = refl
drop-suc (suc n) (x ∷ xs) = drop-suc n xs

char_at :
    (n : ℕ) (xs : Text) → (if leb (length xs) n then 0 else get_or xs n 0) ≡ head_or_end (drop n xs)
char_at zero [] = ground arith
char_at (suc n) [] = ground arith
char_at zero (x ∷ xs) = ground arith
char_at (suc n) (x ∷ xs) = ground (arith, char_at n xs)

pub peek_char-left : (s : Lexer) → peek_char s ≡ head_or_end (left s)
unfolding peek_char
peek_char-left s = char_at s.next_pos s.input

pub left-IsHere : (s : Lexer) (cs : Text) → IsHere s cs → left s ≡ tail cs
left-IsHere s cs h = ap (λ n. drop n s.input) h.next ∙ drop-suc s.pos s.input ∙ ap tail h.here

pub read_char-IsHere : (s : Lexer) → IsHere (read_char s) (left s)
unfolding read_char
read_char-IsHere s = record { here = refl; current = peek_char-left s; next = refl }

pub input-read_char : (s : Lexer) → (read_char s).input ≡ s.input
unfolding read_char
input-read_char s = refl

pos-read_char : (s : Lexer) → (read_char s).pos ≡ s.next_pos
unfolding read_char
pos-read_char s = refl

pub left-read_char : (s : Lexer) → left (read_char s) ≡ tail (left s)
left-read_char s = left-IsHere (read_char s) (left s) (read_char-IsHere s)

pub length-tail : (cs : Text) → length (tail cs) ≡ length cs - 1
length-tail [] = omega arith
length-tail (c ∷ cs) = omega arith

pub record Reads (p : ℕ → Bool) (s : Lexer) (cs : Text) (s' : Lexer) : Type 0 where
  pub ends : IsHere s' (drop_while p cs)
  pub input : s'.input ≡ s.input
  pub moved : s'.pos ≡ s.pos + length (take_while p cs)

pub read_while-Reads :
    (p : ℕ → Bool) (fuel : ℕ) (s : Lexer) (cs : Text)
    → p 0 ≡ false
    → length cs < fuel
    → IsHere s cs
    → Reads p s cs (read_while p fuel s)
unfolding read_while take_while drop_while
read_while-Reads p zero s cs z l h = absurd (omega arith)
read_while-Reads p (suc fuel) s [] z l h =
    let stop : p s.ch ≡ false = ap p h.current ∙ z in
    rw (stop, read_while) (record { ends = h; input = refl; moved = omega arith })
read_while-Reads p (suc fuel) s (c ∷ cs) z l h =
    let e : p s.ch ≡ p c = ap p h.current in
    elim (Bool-cases (p c)) [
      | inr stop ↦
          rw (e, stop, read_while)
            (record { ends = rw stop h; input = refl; moved = rw stop (omega arith) })
      | inl go ↦
          let here' : IsHere (read_char s) cs =
            subst (IsHere (read_char s)) (left-IsHere s (c ∷ cs) h) (read_char-IsHere s) in
          let ih = read_while-Reads p fuel (read_char s) cs z (omega arith) here' in
          rw (e, go, read_while)
            (record {
              ends = rw go ih.ends;
              input = ih.input ∙ input-read_char s;
              moved = rw go (omega (arith, ih.moved, pos-read_char s, h.next));
            })
    ]

take-take_while : (p : ℕ → Bool) (cs : Text) → take (length (take_while p cs)) cs ≡ take_while p cs
unfolding take_while
take-take_while p [] = refl
take-take_while p (c ∷ cs) = elim (Bool-cases (p c)) [
  | inl go ↦ rw go (ap (◌∷◌ c) (take-take_while p cs))
  | inr stop ↦ rw stop
]

-- The current character is one of the input, or the end.
pub length-here : (s : Lexer) (cs : Text) → IsHere s cs → length cs < rounds s
length-here s cs h = omega (arith, length-drop s.pos s.input, ap length h.here)

-- A word read by a loop from the current character, and the text left once the last character is
-- given back.
pub record IsRead (s : Lexer) (r : Text × Lexer) (word rest : Text) : Type 0 where
  pub value : r.0 ≡ word
  pub here : IsHere r.1 rest
  pub input : r.1.input ≡ s.input
  pub given_back : left (unread_char r.1) ≡ rest

read_while-IsRead :
    (p : ℕ → Bool) (s : Lexer) (cs : Text)
    → p 0 ≡ false
    → IsHere s cs
    → let s' = read_while p (rounds s) s in
      IsRead s (take (s'.pos - s.pos) (drop s.pos s'.input), s') (take_while p cs) (drop_while p cs)
unfolding unread_char
read_while-IsRead p s cs z h =
    let s' = read_while p (rounds s) s in
    let r = read_while-Reads p (rounds s) s cs z (length-here s cs h) h in
    let n : s'.pos - s.pos ≡ length (take_while p cs) = omega (arith, r.moved) in
    record {
      value = rw (n, r.input, h.here) (take-take_while p cs);
      here = r.ends;
      input = r.input;
      given_back = r.ends.here;
    }

pub read_number-IsRead :
    (s : Lexer) (cs : Text)
    → IsHere s cs
    → IsRead s (read_number s) (take_while is_digit cs) (drop_while is_digit cs)
unfolding read_number
read_number-IsRead s cs h = read_while-IsRead is_digit s cs refl h

pub read_identifier-IsRead :
    (s : Lexer) (cs : Text)
    → IsHere s cs
    → IsRead s (read_identifier s) (take_while is_word cs) (drop_while is_word cs)
unfolding read_identifier
read_identifier-IsRead s cs h = read_while-IsRead is_word s cs refl h
