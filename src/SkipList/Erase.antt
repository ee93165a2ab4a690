-- ===== src/SkipList/Erase.antt =====
-- `del` on a skip list in shape.
use dtime_db.Prelude.{
  ℕ, ◌-◌, ◌≡◌, refl, sym, subst, true, false, none, some, List, [], ◌∷◌, ◌++◌, ◌==◌, ne→beq,
  length-append, All, All-remove, Pairwise-remove, Pairwise-back, All-back, All-weaken, All-append,
  arith,
}
use dtime_db.SkipList.{
  Pointer, Node, Heap, SkipList, ok, before, store, locate, match_key, del_key, unlink_levels,
}
use dtime_db.SkipList.Cells.{Entry, IsChain-store, IsOther, IsAbsent, IsDistinct}
use dtime_db.SkipList.Unlink.{IsUnlinked, unlinked}
use dtime_db.SkipList.Points.{
  points, remove_point, Before, IsNot, irreflexive, remove_point-none, remove_point-some,
}
use dtime_db.SkipList.Shape.{
  IsSound, IsSkipList, found_none, found_some, IsHeld, IsCutAt, vacant, held,
}
use dtime_db.SkipList.Lookup.{lows-IsNot}

del_key-vacant :
    (key : ℕ) (l : SkipList) (p : Pointer) (update : List ℕ)
    → locate key l ≡ ok (p, update)
    → match_key key l p ≡ ok none
    → del_key key l ≡ ok l
unfolding del_key
del_key-vacant key l p update h k = rw h (rw k refl)

abbrev without_node : Heap → ℕ → SkipList → SkipList
without_node cells q l = record l {
  cells = store cells q none;
  bottom_level_node_count = l.bottom_level_node_count - 1;
}

del_key-held :
    (key : ℕ) (l : SkipList) (p : Pointer) (update : List ℕ) (q : ℕ) (n : Node) (cells : Heap)
    → locate key l ≡ ok (p, update)
    → match_key key l p ≡ ok (some (q, n))
    → unlink_levels 0 update q l.cells ≡ ok cells
    → del_key key l ≡ ok (without_node cells q l)
unfolding del_key
del_key-held key l p update q n cells h k m = rw h (rw k (rw m refl))

-- The list after a call of `del`.
pub record IsDel (key : ℕ) (l : SkipList) (b : Entry) (es : List Entry) : Type 0 where
  pub after : SkipList
  pub entries : List Entry
  pub result : del_key key l ≡ ok after
  pub shape : IsSkipList after b entries
  pub whole : points entries ≡ remove_point key (points es)

module _ (key : ℕ) (l : SkipList) (b : Entry) (lows : List Entry) (e : Entry) (back : List Entry)
    (w : IsSkipList l b (lows ++ e ∷ back)) (low : All (λ x. before x.key key ≡ true) lows)
    (high : All (λ x. before x.key key ≡ false) (e ∷ back)) (same : e.key ≡ key) where
  abbrev found : IsHeld key l b lows e back w
  found = found_some key l b lows e back w low high same

  out : IsUnlinked e (b ∷ lows) back w.distinct 0 found.at.update l.cells
  out = unlinked e (b ∷ lows) back w.distinct l.cells found.at.update w.chain found.at.targets (
      let s = found.at.size in
      let t = (All-back (IsSound l.next_address) lows (e ∷ back) w.sound).0.top_level in
      omega (arith, s, t))

  -- No other entry has the address of the node.
  absent : IsAbsent e.addr ((b ∷ lows) ++ back)
  absent =
      All-append (IsOther e.addr) (b ∷ lows) back (turn (b ∷ lows) w.distinct)
        (Pairwise-back (λ x y. IsOther x.addr y) (b ∷ lows) (e ∷ back) w.distinct).0
    where
      turn : (xs : List Entry) → IsDistinct (xs ++ e ∷ back) → IsAbsent e.addr xs
      turn [] d = tt
      turn (x ∷ xs) d =
          (let o = (All-back (IsOther x.addr) xs (e ∷ back) d.0).0 in ground arith, turn xs d.1)

  -- Behind the node no entry has its key.
  back_IsNot : All (IsNot key) back
  back_IsNot =
      let sorted = (Pairwise-back Before lows (e ∷ back) w.sorted).0 in
      All-weaken (Before e) (IsNot key) (λ x h. other x.key h) back sorted
    where
      other : (k : ℕ) → before e.key k ≡ true → (k == key) ≡ false
      other k h = ne→beq k key (λ p.
          irreflexive key
            (subst (λ z. before z key ≡ true) same (subst (λ z. before e.key z ≡ true) p h)))

  pub IsDel-held : IsDel key l b (lows ++ e ∷ back)
  IsDel-held = record {
    after = without_node out.unlinked e.addr l;
    entries = lows ++ back;
    result =
        del_key-held key l found.at.pointer found.at.update e.addr
          (record { key = e.key; value = e.value; nexts = found.nexts }) out.unlinked
          found.at.result found.at.matched out.result;
    shape = record {
      chain =
          IsChain-store out.unlinked e.addr none ((b ∷ lows) ++ back) (λ i. none) absent out.chain;
      head = w.head;
      top = w.top;
      old = w.old;
      count =
          let c = w.count in
          let m = length-append lows back in
          let n = length-append lows (e ∷ back) in omega (arith, c, m, n);
      sorted = Pairwise-remove Before lows back e w.sorted;
      sound = All-remove (IsSound l.next_address) lows back e w.sound;
      distinct = Pairwise-remove (λ x y. IsOther x.addr y) (b ∷ lows) back e w.distinct;
    };
    whole = sym (remove_point-some key e same back lows (lows-IsNot key lows low) back_IsNot);
  }

pub IsDel-cut :
    (key : ℕ) (l : SkipList) (b : Entry) (es : List Entry) → IsCutAt key l b es → IsDel key l b es
IsDel-cut key l b es (vacant lows highs w low high other) =
    let f = found_none key l b lows highs w low high other in
    record {
      after = l;
      entries = lows ++ highs;
      result = del_key-vacant key l f.pointer f.update f.result f.matched;
      shape = w;
      whole = sym (
          remove_point-none key (lows ++ highs)
            (All-append (IsNot key) lows highs (lows-IsNot key lows low) other));
    }
IsDel-cut key l b es (held lows e back w low high same) =
    IsDel-held key l b lows e back w low high same
