-- ===== src/SkipList/Search.antt =====
-- The search for a key down the levels: the last node of every level before the key, and the node behind them.
use dtime_db.Prelude.{
  ℕ, zero, suc, ◌+◌, ◌<◌, ◌≡◌, refl, sym, ap, subst, ◌∙◌, true, false, none, List, [], ◌∷◌, ◌++◌,
  ltb, ltb→lt, lt→ltb, length, length-append, All, arith,
}
use dtime_db.SkipList.{
  before, Pointer, Heap, SkipList, ok, next_of, walk, search, max_level, rounds, locate,
}
use dtime_db.SkipList.Cells.{Entry, lead, IsChain, next_of-cell}
use dtime_db.SkipList.Walk.{
  IsBelow, IsLast, here, IsLast-append, lead-IsBelow, IsAt, IsAt-IsCell, IsStop-at,
}

-- An address of `update`: the last entry of its level.
pub record IsTarget (i a : ℕ) (es : List Entry) : Type 0 where
  pub entry : Entry
  pub addr : entry.addr ≡ a
  pub last : IsLast i entry es

abbrev pub IsTargets : List Entry → ℕ → List ℕ → Type 0
IsTargets es i [] = Unit
IsTargets es i (a ∷ update) = IsTarget i a es × IsTargets es (suc i) update

search-step :
    (fuel i : ℕ) (cells : Heap) (key c u : ℕ) (update : List ℕ)
    → walk fuel cells i key c ≡ ok u
    → search fuel (suc i) cells key c update ≡ search fuel i cells key u (u ∷ update)
unfolding search
search-step fuel i cells key c u update h = rw h

module _ (cells : Heap) (key : ℕ) (all highs : List Entry)
    (chain : IsChain cells (all ++ highs) (λ i. none))
    (high : All (λ e. before e.key key ≡ false) highs) where
  abbrev Stands : Entry → List Entry → Type 0
  Stands c es = IsAt cells key all highs chain high c es

  record IsSearch (fuel n c : ℕ) (update : List ℕ) : Type 0 where
    last : Entry
    back : List Entry
    found : List ℕ
    result : search fuel n cells key c update ≡ ok (last.addr, found)
    at : Stands last back
    below : IsBelow 0 back
    has : ltb 0 last.level ≡ true
    targets : IsTargets all 0 found
    count : length found ≡ n + length update

  target :
      (i : ℕ) (c : Entry) (es : List Entry)
      → Stands c es
      → ltb i c.level ≡ true
      → IsBelow i es
      → IsTarget i c.addr all
  target i c es at has below = record {
    entry = c;
    addr = refl;
    last = subst (IsLast i c) (sym at.whole) (IsLast-append i c at.front (c ∷ es) (here has below));
  }

  IsSearch-down :
      (fuel i : ℕ) (c : Entry) (es : List Entry) (update : List ℕ)
      → Stands c es
      → ltb i c.level ≡ true
      → IsBelow i es
      → length es < fuel
      → IsTargets all i update
      → IsSearch fuel i c.addr update
  unfolding search
  IsSearch-down fuel zero c es update at has below enough targets = record {
    last = c;
    back = es;
    found = update;
    result = refl;
    at = at;
    below = below;
    has = has;
    targets = targets;
    count = omega arith;
  }
  IsSearch-down fuel (suc i) c es update at has below enough targets =
      let s =
        IsStop-at cells key all highs chain high fuel i c es at
          (lt→ltb i c.level (let l = ltb→lt (suc i) c.level has in omega (arith, l))) enough in
      let l = s.shorter in
      let r =
        IsSearch-down fuel i s.last s.back (s.last.addr ∷ update) s.at s.has s.below
          (omega (arith, l, enough)) (target i s.last s.back s.at s.has s.below, targets) in
      let count = r.count in
      record {
        last = r.last;
        back = r.back;
        found = r.found;
        result = search-step fuel i cells key c.addr s.last.addr update s.result ∙ r.result;
        at = r.at;
        below = r.below;
        has = r.has;
        targets = r.targets;
        count = omega (arith, count);
      }

  IsSearch-all :
      (fuel n : ℕ) (c : Entry) (es : List Entry)
      → Stands c es
      → n < c.level
      → length es < fuel
      → IsSearch fuel (suc n) c.addr []
  IsSearch-all fuel n c es at level enough =
      let s =
        IsStop-at cells key all highs chain high fuel n c es at (lt→ltb n c.level level) enough in
      let l = s.shorter in
      let r =
        IsSearch-down fuel n s.last s.back (s.last.addr ∷ []) s.at s.has s.below
          (omega (arith, l, enough)) (target n s.last s.back s.at s.has s.below, tt) in
      let count = r.count in
      record {
        last = r.last;
        back = r.back;
        found = r.found;
        result = search-step fuel n cells key c.addr s.last.addr [] s.result ∙ r.result;
        at = r.at;
        below = r.below;
        has = r.has;
        targets = r.targets;
        count = omega (arith, count);
      }

  -- What `locate` finds.
  pub record IsLocated (l : SkipList) : Type 0 where
    pub update : List ℕ
    pub result : locate key l ≡ ok (lead 0 highs none, update)
    pub targets : IsTargets all 0 update
    pub count : length update ≡ max_level

locate-step :
    (key c : ℕ) (l : SkipList) (p : Pointer) (update : List ℕ)
    → search (rounds l) max_level l.cells key l.head [] ≡ ok (c, update)
    → next_of l.cells c 0 ≡ ok p
    → locate key l ≡ ok (p, update)
unfolding locate
locate-step key c l p update h k = rw h (rw k)

pub located :
    (key : ℕ) (l : SkipList) (b : Entry) (lows highs : List Entry)
    (chain : IsChain l.cells ((b ∷ lows) ++ highs) (λ i. none))
    (high : All (λ e. before e.key key ≡ false) highs)
    → All (λ e. before e.key key ≡ true) lows
    → b.addr ≡ l.head
    → b.level ≡ max_level
    → l.bottom_level_node_count ≡ length (lows ++ highs)
    → IsLocated l.cells key (b ∷ lows) highs chain high l
located key l b lows highs chain high low head level size =
    let more = length-append lows highs in
    let s =
      IsSearch-all l.cells key (b ∷ lows) highs chain high (rounds l) 31 b lows
        (record { front = []; whole = refl; lows = low }) (omega (arith, level))
        (omega (arith, size, more)) in
    let cell = IsAt-IsCell l.cells key (b ∷ lows) highs chain high s.last s.back s.at in
    let next : next_of l.cells s.last.addr 0 ≡ ok (lead 0 highs none) =
      next_of-cell l.cells s.last (λ j. lead j s.back (lead j highs none)) cell 0
        (ltb→lt 0 s.last.level s.has)
      ∙ ap ok (lead-IsBelow 0 s.back (lead 0 highs none) s.below) in
    record {
      update = s.found;
      result =
          locate-step key s.last.addr l (lead 0 highs none) s.found
            (ap (λ a. search (rounds l) max_level l.cells key a []) (sym head) ∙ s.result) next;
      targets = s.targets;
      count = s.count;
    }
