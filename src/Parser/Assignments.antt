-- ===== src/Parser/Assignments.antt =====
-- Lists of assignments as tokens, and what the loops over tags and fields of parser/insert.cpp make of them.
use dtime_db.Prelude.{
  ℕ, zero, suc, ◌≤◌, ◌≡◌, ap, ◌∙◌, Bool, true, false, ◌||◌, List, [], ◌∷◌, ◌++◌, map, length, All,
  arith, append_assoc,
}
use dtime_db.Token.{
  Text, TokenType, Token, same_type, token_integer, token_float, token_string, token_eq,
  token_comma,
}
use dtime_db.Parser.{ok, Parser, advance}
use dtime_db.Parser.Clauses.{insert_tags, insert_fields}
use dtime_db.Parser.Ahead.{errors-advance, Here, advance-Here}

-- A name, the equality sign behind it, and a value.
pub record Assignment : Type 0 where
  pub name : Token
  pub sign : Token
  pub value : Token

abbrev pub IsTag : Assignment → Type 0
IsTag a = a.sign.type ≡ token_eq

unfoldable pub is_value : TokenType → Bool
is_value token_string = true
is_value token_integer = true
is_value token_float = true
is_value _ = false

abbrev pub IsField : Assignment → Type 0
IsField a = (a.sign.type ≡ token_eq) × (is_value a.value.type ≡ true)

abbrev pub comma : Token
comma = record { type = token_comma; literal = b',' ∷ [] }

-- The tokens of assignments, which commas separate.
abbrev pub assignments : List Assignment → List Token
assignments [] = []
assignments (a ∷ []) = a.name ∷ a.sign ∷ a.value ∷ []
assignments (a ∷ b ∷ as') = a.name ∷ a.sign ∷ a.value ∷ comma ∷ assignments (b ∷ as')

abbrev pub tag_text : Assignment → Text
tag_text a = a.name.literal ++ (b'=' ∷ a.value.literal)

abbrev pub name_text : Assignment → Text
name_text a = a.name.literal

abbrev pub value_text : Assignment → Text
value_text a = a.value.literal

-- Three tokens further.
abbrev pub behind : Parser → Parser
behind p = advance (advance (advance p))

pub is :
    {t t' : Token} (type : TokenType) (b : Bool)
    → t ≡ t'
    → same_type t'.type type ≡ b
    → same_type t.type type ≡ b
is {t} {t'} type b e h = ap (λ (u : Token). same_type u.type type) e ∙ h

eq_sign : (t : Token) → t.type ≡ token_eq → same_type t.type token_eq ≡ true
unfolding same_type
eq_sign t h = ap (λ u. same_type u token_eq) h

-- A token behind a list of assignments.
abbrev pub Ends : Token → Type 0
Ends t = same_type t.type token_comma ≡ false

-- What stands before the parser at an assignment, and behind it.
abbrev AtAssignment : Assignment → List Token → Parser → Type 0
AtAssignment a ts p =
    (p.curr ≡ a.name)
    × (same_type p.peek.type token_eq ≡ true)
    × ((advance (advance p)).curr ≡ a.value)
    × Here (behind p) ts

at_assignment :
    (a : Assignment) (ts : List Token) (p : Parser)
    → a.sign.type ≡ token_eq
    → Here p (a.name ∷ a.sign ∷ a.value ∷ ts)
    → AtAssignment a ts p
at_assignment a ts p e h =
    let sign = advance-Here p (a.sign ∷ a.value ∷ ts) h.1 in
    let value = advance-Here (advance p) (a.value ∷ ts) sign.1 in
    (
      h.0,
      is token_eq true h.1.0 (eq_sign a.sign e),
      value.0,
      advance-Here (advance (advance p)) ts value.1,
    )

-- The text that the loop over the tags puts together.
abbrev read_tag : Parser → Text
read_tag p = p.curr.literal ++ (b'=' ∷ (advance (advance p)).curr.literal)

read_tag-eq :
    (a : Assignment) (p : Parser)
    → p.curr ≡ a.name
    → (advance (advance p)).curr ≡ a.value
    → read_tag p ≡ tag_text a
read_tag-eq a p n v =
    ap (λ (t : Token). t.literal ++ (b'=' ∷ (advance (advance p)).curr.literal)) n
    ∙ ap (λ (t : Token). a.name.literal ++ (b'=' ∷ t.literal)) v

comma_sign : (p : Parser) → p.curr ≡ comma → same_type p.curr.type token_comma ≡ true
unfolding same_type
comma_sign p h = ap (λ (u : Token). same_type u.type token_comma) h

errors-behind : (p : Parser) → (behind p).errors ≡ p.errors
errors-behind p =
    errors-advance (advance (advance p)) ∙ errors-advance (advance p) ∙ errors-advance p

pub insert_tags-assignments :
    (a : Assignment) (l : List Assignment) (fuel : ℕ) (tags : List Text) (p : Parser) (t : Token)
    (ts : List Token)
    → All IsTag (a ∷ l)
    → Ends t
    → length (a ∷ l) ≤ fuel
    → Here p (assignments (a ∷ l) ++ (t ∷ ts))
    → (p' : Parser) × (insert_tags fuel tags p ≡ ok (tags ++ map tag_text (a ∷ l), p'))
      × Here p' (t ∷ ts)
      × (p'.errors ≡ p.errors)
unfolding insert_tags
insert_tags-assignments a l zero tags p t ts h e w x = absurd (omega arith)
insert_tags-assignments a [] (suc fuel) tags p t ts h e w x =
    let (name, sign, value, after) = at_assignment a (t ∷ ts) p h.0 x in
    let stop : same_type (behind p).curr.type token_comma ≡ false =
      is token_comma false after.0 e in
    (
      behind p,
      (rw (sign, stop) (ap (λ s. ok (tags ++ (s ∷ []), behind p)) (read_tag-eq a p name value))),
      after,
      errors-behind p,
    )
insert_tags-assignments a (b ∷ l) (suc fuel) tags p t ts h e w x =
    let (name, sign, value, after) =
      at_assignment a (comma ∷ (assignments (b ∷ l) ++ (t ∷ ts))) p h.0 x in
    let more = comma_sign (behind p) after.0 in
    let (p', r, rest, errors) =
      insert_tags-assignments b l fuel (tags ++ (read_tag p ∷ [])) (advance (behind p)) t ts h.1 e
        (omega arith) (advance-Here (behind p) (assignments (b ∷ l) ++ (t ∷ ts)) after.1) in
    let tail = map tag_text (b ∷ l) in
    (
      p',
      (rw (sign, more)
          (r
            ∙ ap (λ l. ok (l, p'))
                (append_assoc tags (read_tag p ∷ []) tail
                  ∙ ap (λ s. tags ++ (s ∷ tail)) (read_tag-eq a p name value)))),
      rest,
      errors ∙ errors-advance (behind p) ∙ errors-behind p,
    )

value_known :
    (t : Token)
    → is_value t.type ≡ true
    → (same_type t.type token_string
        || same_type t.type token_integer
        || same_type t.type token_float)
      ≡ true
unfolding is_value same_type
value_known t h = go t.type h
  where
    go :
        (type : TokenType)
        → is_value type ≡ true
        → (same_type type token_string
            || same_type type token_integer
            || same_type type token_float)
          ≡ true
    go type h = ground arith

value_is :
    (a : Assignment) (p : Parser)
    → (advance (advance p)).curr ≡ a.value
    → is_value a.value.type ≡ true
    → (same_type (advance (advance p)).curr.type token_string
        || same_type (advance (advance p)).curr.type token_integer
        || same_type (advance (advance p)).curr.type token_float)
      ≡ true
value_is a p e h =
    ap
      (λ (t : Token).
        same_type t.type token_string
        || same_type t.type token_integer
        || same_type t.type token_float)
      e
    ∙ value_known a.value h

pub insert_fields-assignments :
    (a : Assignment) (l : List Assignment) (fuel : ℕ) (fields values : List Text) (p : Parser)
    (t : Token) (ts : List Token)
    → All IsField (a ∷ l)
    → Ends t
    → length (a ∷ l) ≤ fuel
    → Here p (assignments (a ∷ l) ++ (t ∷ ts))
    → (p' : Parser) × (insert_fields fuel fields values p
        ≡ ok (fields ++ map name_text (a ∷ l), values ++ map value_text (a ∷ l), p'))
      × Here p' (t ∷ ts)
      × (p'.errors ≡ p.errors)
unfolding insert_fields
insert_fields-assignments a l zero fields values p t ts h e w x = absurd (omega arith)
insert_fields-assignments a [] (suc fuel) fields values p t ts h e w x =
    let (name, sign, value, after) = at_assignment a (t ∷ ts) p h.0.0 x in
    let stop : same_type (behind p).curr.type token_comma ≡ false =
      is token_comma false after.0 e in
    let known = value_is a p value h.0.1 in
    (
      behind p,
      (rw (sign, stop, known)
          (ap
              (λ (t : Token). ok (
                fields ++ (t.literal ∷ []),
                values ++ ((advance (advance p)).curr.literal ∷ []),
                behind p,
              ))
              name
            ∙ ap
                (λ (t : Token).
                  ok (fields ++ (a.name.literal ∷ []), values ++ (t.literal ∷ []), behind p))
                value)),
      after,
      errors-behind p,
    )
insert_fields-assignments a (b ∷ l) (suc fuel) fields values p t ts h e w x =
    let (name, sign, value, after) =
      at_assignment a (comma ∷ (assignments (b ∷ l) ++ (t ∷ ts))) p h.0.0 x in
    let more = comma_sign (behind p) after.0 in
    let known = value_is a p value h.0.1 in
    let n = p.curr.literal in
    let v = (advance (advance p)).curr.literal in
    let (p', r, rest, errors) =
      insert_fields-assignments b l fuel (fields ++ (n ∷ [])) (values ++ (v ∷ []))
        (advance (behind p)) t ts h.1 e (omega arith)
        (advance-Here (behind p) (assignments (b ∷ l) ++ (t ∷ ts)) after.1) in
    let names = map name_text (b ∷ l) in
    let texts = map value_text (b ∷ l) in
    (
      p',
      (rw (sign, more, known)
          (r
            ∙ ap (λ l. ok (l, (values ++ (v ∷ [])) ++ texts, p'))
                (append_assoc fields (n ∷ []) names)
            ∙ ap (λ l. ok (fields ++ (n ∷ names), l, p')) (append_assoc values (v ∷ []) texts)
            ∙ ap (λ (t : Token). ok (fields ++ (t.literal ∷ names), values ++ (v ∷ texts), p')) name
            ∙ ap
                (λ (t : Token).
                  ok (fields ++ (a.name.literal ∷ names), values ++ (t.literal ∷ texts), p'))
                value)),
      rest,
      errors ∙ errors-advance (behind p) ∙ errors-behind p,
    )
