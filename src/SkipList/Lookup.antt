-- ===== src/SkipList/Lookup.antt =====
-- `get` on a skip list in shape.
use dtime_db.Prelude.{
  ℕ, ◌≡◌, refl, sym, ap, ◌∙◌, true, Option, none, some, List, ◌++◌, All, All-append, All-weaken,
}
use dtime_db.Token.{Text}
use dtime_db.SkipList.{Pointer, Node, SkipList, ok, before, locate, match_key, get_key}
use dtime_db.SkipList.Cells.{Entry}
use dtime_db.SkipList.Points.{
  points, lookup_point, IsNot, before-IsNot, lookup_point-none, lookup_point-some,
}
use dtime_db.SkipList.Shape.{found_none, found_some, IsCutAt, vacant, held}

abbrev value_in : Option (ℕ × Node) → Option Text
value_in none = none
value_in (some q) = some (q.1).value

get_key-step :
    (key : ℕ) (l : SkipList) (p : Pointer) (update : List ℕ) (found : Option (ℕ × Node))
    → locate key l ≡ ok (p, update)
    → match_key key l p ≡ ok found
    → get_key key l ≡ ok (value_in found)
unfolding get_key
get_key-step key l p update none h k = rw h (rw k refl)
get_key-step key l p update (some q) h k = rw h (rw k refl)

-- No entry before the cut has the key.
pub lows-IsNot :
    (key : ℕ) (lows : List Entry) → All (λ e. before e.key key ≡ true) lows → All (IsNot key) lows
lows-IsNot key lows low =
    All-weaken (λ e. before e.key key ≡ true) (IsNot key) (before-IsNot key) lows low

pub lookup_point-vacant :
    (key : ℕ) (lows highs : List Entry)
    → All (λ e. before e.key key ≡ true) lows
    → All (IsNot key) highs
    → lookup_point key (points (lows ++ highs)) ≡ none
lookup_point-vacant key lows highs low other =
    lookup_point-none key (lows ++ highs)
      (All-append (IsNot key) lows highs (lows-IsNot key lows low) other)

pub get_key-cut :
    (key : ℕ) (l : SkipList) (b : Entry) (es : List Entry)
    → IsCutAt key l b es
    → get_key key l ≡ ok (lookup_point key (points es))
get_key-cut key l b es (vacant lows highs w low high other) =
    let f = found_none key l b lows highs w low high other in
    get_key-step key l f.pointer f.update none f.result f.matched
    ∙ ap ok (sym (lookup_point-vacant key lows highs low other))
get_key-cut key l b es (held lows e back w low high same) =
    let f = found_some key l b lows e back w low high same in
    get_key-step key l f.at.pointer f.at.update
      (some (e.addr, record { key = e.key; value = e.value; nexts = f.nexts })) f.at.result
      f.at.matched
    ∙ ap ok (sym (lookup_point-some key e same back lows (lows-IsNot key lows low)))
