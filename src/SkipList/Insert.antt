-- ===== src/SkipList/Insert.antt =====
-- `put` on a skip list in shape.
use dtime_db.Prelude.{
  ℕ, zero, suc, ◌<◌, ◌^◌, ◌≡◌, refl, sym, ap, ◌∙◌, true, false, Option, none, some, List, [], ◌∷◌,
  ◌++◌, ne→beq, ltb, if◌then◌else◌, get_elem?, length-append, length-replicate, replicate, All,
  All-front, All-back, All-weaken, All-insert, Pairwise-insert, arith,
}
use dtime_db.Token.{Text}
use dtime_db.SkipList.{
  Pointer, Node, Heap, SkipList, ok, before, max_level, store, locate, match_key, put_key, put_new,
  link_levels,
}
use dtime_db.SkipList.Cells.{
  Entry, lead, IsChain-split, IsChain-store, IsOther, IsAbsent, IsDistinct,
}
use dtime_db.SkipList.Link.{IsLinked, IsLinked-IsChain, linked_new}
use dtime_db.SkipList.Points.{
  Point, points, lookup_point, value_or, add_point, put_point, Before, IsSorted, IsNot,
  before_total, lookup_point-some, add_point-append,
}
use dtime_db.SkipList.Shape.{
  IsSound, IsSkipList, IsFoundAt, found_none, found_some, IsCutAt, vacant, held,
}
use dtime_db.SkipList.Lookup.{lows-IsNot, lookup_point-vacant}

put_key-held :
    (level key : ℕ) (value : Text) (l : SkipList) (p : Pointer) (update : List ℕ) (q : ℕ) (n : Node)
    → locate key l ≡ ok (p, update)
    → match_key key l p ≡ ok (some (q, n))
    → put_key level key value l ≡ ok (l, n.value)
unfolding put_key
put_key-held level key value l p update q n h k = rw h (rw k refl)

-- The level that a new node gets.
abbrev pub capped : ℕ → ℕ
capped level = if ltb max_level level then max_level else level

abbrev new_node : ℕ → ℕ → Text → Node
new_node level key value = record { key = key; value = value; nexts = replicate level none }

abbrev with_node : Heap → SkipList → SkipList
with_node cells l = record {
  cells = cells;
  next_address = suc l.next_address;
  head = l.head;
  bottom_level_node_count = suc l.bottom_level_node_count;
}

put_key-vacant :
    (level key : ℕ) (value : Text) (l : SkipList) (p : Pointer) (update : List ℕ) (cells : Heap)
    → locate key l ≡ ok (p, update)
    → match_key key l p ≡ ok none
    → link_levels
        (capped level)
        0
        update
        l.next_address
        (store l.cells l.next_address (some (new_node (capped level) key value)))
      ≡ ok cells
    → ltb 0 (capped level) ≡ true
    → put_key level key value l ≡ ok (with_node cells l, value)
unfolding put_key put_new
put_key-vacant level key value l p update cells h k m n = rw h (rw k (rw m (rw n refl)))

-- The list after a call of `put`, and the value that the argument has then.
pub record IsPut (level key : ℕ) (value : Text) (l : SkipList) (b : Entry) (es : List Entry)
    : Type 0 where
  pub after : SkipList
  pub left : Text
  pub entries : List Entry
  pub result : put_key level key value l ≡ ok (after, left)
  pub shape : IsSkipList after b entries
  pub whole : points entries ≡ put_point key value (points es)
  pub kept : left ≡ value_or value (lookup_point key (points es))

pub get-replicate : (n i : ℕ) (p : Pointer) → i < n → get_elem? (replicate n p) i ≡ some p
get-replicate zero i p h = absurd (omega arith)
get-replicate (suc n) zero p h = refl
get-replicate (suc n) (suc i) p h = get-replicate n i p (omega arith)

-- An address that is not given out yet.
fresh : (next : ℕ) (es : List Entry) → All (IsSound next) es → IsAbsent next es
fresh next es h =
    All-weaken (IsSound next) (IsOther next)
      (λ e s. ne→beq e.addr next (λ p. let o = s.old in omega (arith, p, o))) es h

IsSound-next : (next : ℕ) (es : List Entry) → All (IsSound next) es → All (IsSound (suc next)) es
IsSound-next next es h =
    All-weaken (IsSound next) (IsSound (suc next))
      (λ e s. record {
        fits = s.fits;
        some_level = s.some_level;
        top_level = s.top_level;
        old = let o = s.old in omega (arith, o);
      })
      es h

put_point-vacant :
    (key : ℕ) (value : Text) (ps : List Point)
    → lookup_point key ps ≡ none
    → put_point key value ps ≡ add_point key value ps
put_point-vacant key value ps h = rw (put_point, h) refl

put_point-held :
    (key : ℕ) (value v : Text) (ps : List Point)
    → lookup_point key ps ≡ some v
    → put_point key value ps ≡ ps
put_point-held key value v ps h = rw (put_point, h) refl

module _ (level key : ℕ) (value : Text) (l : SkipList) (b : Entry) (lows highs : List Entry)
    (w : IsSkipList l b (lows ++ highs)) (fits : key < 2 ^ 64) (some_level : 0 < level)
    (low : All (λ x. before x.key key ≡ true) lows)
    (high : All (λ x. before x.key key ≡ false) highs) (other : All (IsNot key) highs) where
  abbrev added : Entry
  added = record { addr = l.next_address; key = key; value = value; level = capped level }

  abbrev cells0 : Heap
  cells0 = store l.cells l.next_address (some (new_node (capped level) key value))

  abbrev found : IsFoundAt key l b lows highs w none
  found = found_none key l b lows highs w low high other

  absent_head : IsOther l.next_address b
  absent_head = ne→beq b.addr l.next_address (λ p. let o = w.old in omega (arith, p, o))

  absent : IsAbsent l.next_address (lows ++ highs)
  absent = fresh l.next_address (lows ++ highs) w.sound

  linked :
      IsLinked added
        (b ∷ lows)
        highs
        w.distinct
        (absent_head, All-front (IsOther l.next_address) lows highs absent)
        (All-back (IsOther l.next_address) lows highs absent)
        (capped level)
        0
        found.update
        cells0
  linked =
      let (front, back) = IsChain-split l.cells (b ∷ lows) highs (λ i. none) w.chain in
      let absent_lows = All-front (IsOther l.next_address) lows highs absent in
      let absent_highs = All-back (IsOther l.next_address) lows highs absent in
      let n : Option Node = some (new_node (capped level) key value) in
      linked_new added (b ∷ lows) highs w.distinct (absent_head, absent_lows) absent_highs cells0
        found.update
        (IsChain-store l.cells l.next_address n (b ∷ lows) (λ i. lead i highs none)
          (absent_head, absent_lows) front)
        (IsChain-store l.cells l.next_address n highs (λ i. none) absent_highs back)
        (record {
          nexts = replicate (capped level) none;
          found = ground arith;
          levels = length-replicate (capped level) none;
          leads = λ i h. get-replicate (capped level) i none h;
        })
        found.targets (let s = found.size in ground arith)

  abbrev list_after : SkipList
  list_after = with_node linked.linked l

  IsSound-added : IsSound (suc l.next_address) added
  IsSound-added = record {
    fits = fits;
    some_level = ground arith;
    top_level = ground arith;
    old = omega arith;
  }

  IsSorted-after : IsSorted (lows ++ added ∷ highs)
  IsSorted-after =
      Pairwise-insert Before lows highs added low
        (behind highs (All-back (IsSound l.next_address) lows highs w.sound) high other) w.sorted
    where
      behind :
          (es : List Entry)
          → All (IsSound l.next_address) es
          → All (λ x. before x.key key ≡ false) es
          → All (IsNot key) es
          → All (Before added) es
      behind [] s h o = tt
      behind (e ∷ es) s h o =
          (before_total e.key key (s.0).fits fits o.0 h.0, behind es s.1 h.1 o.1)

  IsDistinct-after : IsDistinct (b ∷ lows ++ added ∷ highs)
  IsDistinct-after =
      Pairwise-insert (λ x y. IsOther x.addr y) (b ∷ lows) highs added
        (turn (b ∷ lows) (absent_head, All-front (IsOther l.next_address) lows highs absent))
        (All-back (IsOther l.next_address) lows highs absent) w.distinct
    where
      turn : (es : List Entry) → IsAbsent l.next_address es → All (λ x. IsOther x.addr added) es
      turn es h =
          All-weaken (IsOther l.next_address) (λ x. IsOther x.addr added) (λ x o. ground arith) es h

  shape_after : IsSkipList list_after b (lows ++ added ∷ highs)
  shape_after = record {
    chain =
        IsLinked-IsChain added (b ∷ lows) highs w.distinct
          (absent_head, All-front (IsOther l.next_address) lows highs absent)
          (All-back (IsOther l.next_address) lows highs absent) (capped level) 0 found.update cells0
          linked;
    head = w.head;
    top = w.top;
    old = let o = w.old in omega (arith, o);
    count =
        let c = w.count in
        let m = length-append lows highs in
        let n = length-append lows (added ∷ highs) in omega (arith, c, m, n);
    sorted = IsSorted-after;
    sound =
        All-insert (IsSound (suc l.next_address)) lows highs added IsSound-added
          (IsSound-next l.next_address (lows ++ highs) w.sound);
    distinct = IsDistinct-after;
  }

  pub IsPut-vacant : IsPut level key value l b (lows ++ highs)
  IsPut-vacant = record {
    after = list_after;
    left = value;
    entries = lows ++ added ∷ highs;
    result =
        put_key-vacant level key value l found.pointer found.update linked.linked found.result
          found.matched linked.result (ground arith);
    shape = shape_after;
    whole = sym (
        put_point-vacant key value (points (lows ++ highs))
          (lookup_point-vacant key lows highs low other)
        ∙ add_point-append added lows highs low high);
    kept = ap (value_or value) (sym (lookup_point-vacant key lows highs low other));
  }

pub IsPut-cut :
    (level key : ℕ) (value : Text) (l : SkipList) (b : Entry) (es : List Entry)
    → key < 2 ^ 64
    → 0 < level
    → IsCutAt key l b es
    → IsPut level key value l b es
IsPut-cut level key value l b es fits some_level (vacant lows highs w low high other) =
    IsPut-vacant level key value l b lows highs w fits some_level low high other
IsPut-cut level key value l b es fits some_level (held lows e back w low high same) =
    let f = found_some key l b lows e back w low high same in
    let there = lookup_point-some key e same back lows (lows-IsNot key lows low) in
    record {
      after = l;
      left = e.value;
      entries = lows ++ e ∷ back;
      result =
          put_key-held level key value l f.at.pointer f.at.update e.addr
            (record { key = e.key; value = e.value; nexts = f.nexts }) f.at.result f.at.matched;
      shape = w;
      whole = sym (put_point-held key value e.value (points (lows ++ e ∷ back)) there);
      kept = ap (value_or value) (sym there);
    }
