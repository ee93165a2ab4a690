-- ===== src/SkipList/Shape.antt =====
-- The shape of a skip list: sorted entries behind the head, linked on every level, and what its operations find.
use dtime_db.Prelude.{
  ℕ, ◌<◌, ◌≤◌, ◌^◌, ◌≡◌, refl, sym, ap, subst, ◌∙◌, true, false, Option, none, some, List, [], ◌∷◌,
  ◌++◌, ◌==◌, ==_iff, lt→ltb, length, All, All-back, Pairwise-back, inl, inr,
}
use dtime_db.SkipList.{Pointer, Node, SkipList, ok, before, max_level, locate, match_key}
use dtime_db.SkipList.Cells.{Entry, IsCell, lead, IsChain, IsChain-split, IsDistinct}
use dtime_db.SkipList.Search.{IsTargets, IsLocated, located}
use dtime_db.SkipList.Points.{Before, IsSorted, cut, IsNot, IsHit-cases}

-- An entry of a list whose next fresh address is `next`.
pub record IsSound (next : ℕ) (e : Entry) : Type 0 where
  pub fits : e.key < 2 ^ 64
  pub some_level : 0 < e.level
  pub top_level : e.level ≤ max_level
  pub old : e.addr < next

pub record IsSkipList (l : SkipList) (b : Entry) (es : List Entry) : Type 0 where
  pub chain : IsChain l.cells (b ∷ es) (λ i. none)
  pub head : b.addr ≡ l.head
  pub top : b.level ≡ max_level
  pub old : b.addr < l.next_address
  pub count : l.bottom_level_node_count ≡ length es
  pub sorted : IsSorted es
  pub sound : All (IsSound l.next_address) es
  pub distinct : IsDistinct (b ∷ es)

-- The lowest level leads to the first entry.
pub lead-first :
    (next : ℕ) (e : Entry) (es : List Entry) (p : Pointer)
    → IsSound next e
    → lead 0 (e ∷ es) p ≡ some e.addr
unfolding lead
lead-first next e es p s = rw (lt→ltb 0 e.level s.some_level) refl

abbrev pub node_of : (l : SkipList) (e : Entry) (f : ℕ → Pointer) → IsCell l.cells e f → Node
node_of l e f c = record { key = e.key; value = e.value; nexts = c.nexts }

match_key-other :
    (key : ℕ) (l : SkipList) (e : Entry) (n : Node)
    → l.cells e.addr ≡ some n
    → (n.key == key) ≡ false
    → match_key key l (some e.addr) ≡ ok none
unfolding match_key
match_key-other key l e n h k = rw h (rw k refl)

match_key-same :
    (key : ℕ) (l : SkipList) (e : Entry) (n : Node)
    → l.cells e.addr ≡ some n
    → (n.key == key) ≡ true
    → match_key key l (some e.addr) ≡ ok (some (e.addr, n))
unfolding match_key
match_key-same key l e n h k = rw h (rw k refl)

match_key-none :
    (key : ℕ) (l : SkipList) (highs : List Entry)
    → IsChain l.cells highs (λ i. none)
    → All (IsSound l.next_address) highs
    → All (IsNot key) highs
    → match_key key l (lead 0 highs none) ≡ ok none
unfolding match_key lead
match_key-none key l [] h s k = refl
match_key-none key l (e ∷ highs) h s k =
    ap (match_key key l) (lead-first l.next_address e highs none s.0)
    ∙ match_key-other key l e (node_of l e (λ i. lead i highs none) h.0) h.0.found k.0

match_key-some :
    (key : ℕ) (l : SkipList) (e : Entry) (back : List Entry)
    → (h : IsChain l.cells (e ∷ back) (λ i. none)) → IsSound l.next_address e
    → e.key ≡ key
    → match_key key l (lead 0 (e ∷ back) none)
      ≡ ok (some (e.addr, node_of l e (λ i. lead i back none) h.0))
match_key-some key l e back h s k =
    ap (match_key key l) (lead-first l.next_address e back none s)
    ∙ match_key-same key l e (node_of l e (λ i. lead i back none) h.0) h.0.found
        ((==_iff e.key key).1 k)

-- What the search and the comparison give together.
pub record IsFoundAt (key : ℕ) (l : SkipList) (b : Entry) (lows highs : List Entry)
    (w : IsSkipList l b (lows ++ highs)) (found : Option (ℕ × Node)) : Type 0 where
  pub pointer : Pointer
  pub update : List ℕ
  pub result : locate key l ≡ ok (pointer, update)
  pub matched : match_key key l pointer ≡ ok found
  pub targets : IsTargets (b ∷ lows) 0 update
  pub size : length update ≡ max_level

module _ (key : ℕ) (l : SkipList) (b : Entry) (lows highs : List Entry)
    (w : IsSkipList l b (lows ++ highs)) (low : All (λ e. before e.key key ≡ true) lows)
    (high : All (λ e. before e.key key ≡ false) highs) where
  place : IsLocated l.cells key (b ∷ lows) highs w.chain high l
  place = located key l b lows highs w.chain high low w.head w.top w.count

  abbrev back_chain : IsChain l.cells highs (λ i. none)
  back_chain = (IsChain-split l.cells (b ∷ lows) highs (λ i. none) w.chain).1

  pub found_at :
      (found : Option (ℕ × Node))
      → match_key key l (lead 0 highs none) ≡ ok found
      → IsFoundAt key l b lows highs w found
  found_at found m = record {
    pointer = lead 0 highs none;
    update = place.update;
    result = place.result;
    matched = m;
    targets = place.targets;
    size = place.count;
  }

  pub found_none : All (IsNot key) highs → IsFoundAt key l b lows highs w none
  found_none h = found_at none (
      match_key-none key l highs back_chain (All-back (IsSound l.next_address) lows highs w.sound)
        h)

-- The node that has the key.
pub record IsHeld (key : ℕ) (l : SkipList) (b : Entry) (lows : List Entry) (e : Entry)
    (back : List Entry) (w : IsSkipList l b (lows ++ e ∷ back)) : Type 0 where
  pub nexts : List Pointer
  pub at :
      IsFoundAt key l b lows
        (e ∷ back)
        w
        (some (e.addr, record { key = e.key; value = e.value; nexts = nexts }))

pub found_some :
    (key : ℕ) (l : SkipList) (b : Entry) (lows : List Entry) (e : Entry) (back : List Entry)
    (w : IsSkipList l b (lows ++ e ∷ back))
    → All (λ x. before x.key key ≡ true) lows
    → All (λ x. before x.key key ≡ false) (e ∷ back)
    → e.key ≡ key
    → IsHeld key l b lows e back w
found_some key l b lows e back w low high same =
    let chain = (IsChain-split l.cells (b ∷ lows) (e ∷ back) (λ i. none) w.chain).1 in
    let sound = All-back (IsSound l.next_address) lows (e ∷ back) w.sound in
    record {
      nexts = chain.0.nexts;
      at =
          found_at key l b lows (e ∷ back) w low high
            (some (e.addr, record { key = e.key; value = e.value; nexts = chain.0.nexts }))
            (match_key-some key l e back chain sound.0 same);
    }

-- A skip list cut at a key, which the first entry behind the cut has or none has.
pub data IsCutAt (key : ℕ) (l : SkipList) (b : Entry) : List Entry → Type 0 where
  vacant :
      (lows highs : List Entry) (w : IsSkipList l b (lows ++ highs))
      → All (λ x. before x.key key ≡ true) lows
      → All (λ x. before x.key key ≡ false) highs
      → All (IsNot key) highs
      → IsCutAt key l b (lows ++ highs)
  held :
      (lows : List Entry) (e : Entry) (back : List Entry) (w : IsSkipList l b (lows ++ e ∷ back))
      → All (λ x. before x.key key ≡ true) lows
      → All (λ x. before x.key key ≡ false) (e ∷ back)
      → e.key ≡ key
      → IsCutAt key l b (lows ++ e ∷ back)

pub cut_at :
    (key : ℕ) (l : SkipList) (b : Entry) (es : List Entry) → IsSkipList l b es → IsCutAt key l b es
cut_at key l b es w =
    let c = cut key es w.sorted in
    subst (IsCutAt key l b) (sym c.whole)
      (cut_lists c.lows c.highs (subst (IsSkipList l b) c.whole w) c.low c.high)
  where
    cut_lists :
        (lows highs : List Entry)
        → IsSkipList l b (lows ++ highs)
        → All (λ x. before x.key key ≡ true) lows
        → All (λ x. before x.key key ≡ false) highs
        → IsCutAt key l b (lows ++ highs)
    cut_lists lows highs w low high =
        elim (IsHit-cases key highs (Pairwise-back Before lows highs w.sorted) high) [
          | inl other ↦ vacant lows highs w low high other
          | inr h ↦
              subst (λ xs. IsCutAt key l b (lows ++ xs)) (sym h.whole)
                (held lows h.entry h.back (subst (λ xs. IsSkipList l b (lows ++ xs)) h.whole w) low
                  (subst (All (λ x. before x.key key ≡ false)) h.whole high) h.same)
        ]
