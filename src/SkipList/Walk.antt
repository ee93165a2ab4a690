-- ===== src/SkipList/Walk.antt =====
-- The walk along one level and the search down the levels: where they end.
use dtime_db.Prelude.{
  ℕ, zero, suc, ◌+◌, ◌<◌, ◌≤◌, ◌≡◌, refl, sym, ap, subst, ◌∙◌, true, false, none, some, List, [],
  ◌∷◌, ◌++◌, append_assoc, ltb, ltb→lt, length, length-append, All, All-back, Bool-cases, inl, inr,
  ◌⊎◌, arith,
}
use dtime_db.SkipList.{before, Pointer, Node, Heap, ok, next_of, walk}
use dtime_db.SkipList.Cells.{Entry, IsCell, lead, IsChain, IsChain-split, lead-append, next_of-cell}

-- No entry has level `i`.
abbrev pub IsBelow : ℕ → List Entry → Type 0
IsBelow i es = All (λ e. ltb i e.level ≡ false) es

-- `u` is the last entry with level `i`.
pub data IsLast (i : ℕ) (u : Entry) : List Entry → Type 0 where
  here : {es : List Entry} → ltb i u.level ≡ true → IsBelow i es → IsLast i u (u ∷ es)
  there : {e : Entry} {es : List Entry} → IsLast i u es → IsLast i u (e ∷ es)

pub lead-IsBelow : (i : ℕ) (es : List Entry) (p : Pointer) → IsBelow i es → lead i es p ≡ p
unfolding lead
lead-IsBelow i [] p h = refl
lead-IsBelow i (e ∷ es) p h = rw h.0 (lead-IsBelow i es p h.1)

pub IsLast-append : (i : ℕ) (u : Entry) (xs es : List Entry) → IsLast i u es → IsLast i u (xs ++ es)
IsLast-append i u [] es h = h
IsLast-append i u (x ∷ xs) es h = there (IsLast-append i u xs es h)

-- The next entry with level `i`, and the entries that are passed over.
record IsNext (i : ℕ) (es : List Entry) : Type 0 where
  passed : List Entry
  entry : Entry
  back : List Entry
  whole : es ≡ passed ++ entry ∷ back
  below : IsBelow i passed
  has : ltb i entry.level ≡ true

IsNext-cases : (i : ℕ) (es : List Entry) → IsBelow i es ⊎ IsNext i es
IsNext-cases i [] = inl tt
IsNext-cases i (e ∷ es) = elim (Bool-cases (ltb i e.level)) [
  | inl has ↦
      inr (record { passed = []; entry = e; back = es; whole = refl; below = tt; has = has })
  | inr low ↦ elim (IsNext-cases i es) [
    | inl below ↦ inl (low, below)
    | inr n ↦ inr (record {
      passed = e ∷ n.passed;
      entry = n.entry;
      back = n.back;
      whole = ap (◌∷◌ e) n.whole;
      below = (low, n.below);
      has = n.has;
    })
  ]
]

lead-IsNext :
    (i : ℕ) (es : List Entry) (p : Pointer) (n : IsNext i es) → lead i es p ≡ some n.entry.addr
unfolding lead
lead-IsNext i es p n =
    ap (λ es. lead i es p) n.whole
    ∙ lead-append i n.passed (n.entry ∷ n.back) p
    ∙ lead-IsBelow i n.passed (lead i (n.entry ∷ n.back) p) n.below
    ∙ rw n.has

-- What the pointer of a level finds behind the last entry of the level.
record IsFound (cells : Heap) (P : Entry → Type 0) (p : Pointer) : Type 0 where
  entry : Entry
  node : Node
  points : p ≡ some entry.addr
  found : cells entry.addr ≡ some node
  key : node.key ≡ entry.key
  holds : P entry

IsFound-cases :
    (cells : Heap) (P : Entry → Type 0) (i : ℕ) (es : List Entry) (t : ℕ → Pointer)
    → IsChain cells es t
    → All P es
    → (lead i es none ≡ none) ⊎ IsFound cells P (lead i es none)
unfolding lead
IsFound-cases cells P i [] t h k = inl refl
IsFound-cases cells P i (e ∷ es) t h k = elim (Bool-cases (ltb i e.level)) [
  | inl has ↦ inr (record {
    entry = e;
    node = record { key = e.key; value = e.value; nexts = h.0.nexts };
    points = rw has;
    found = h.0.found;
    key = refl;
    holds = k.0;
  })
  | inr low ↦ rw low (IsFound-cases cells P i es t h.1 k.1)
]

module _ (fuel : ℕ) (cells : Heap) (i key : ℕ) where
  walk-end : (a : ℕ) → next_of cells a i ≡ ok none → walk (suc fuel) cells i key a ≡ ok a
  unfolding walk
  walk-end a h = rw h

  walk-stay :
      (a q : ℕ) (n : Node)
      → next_of cells a i ≡ ok (some q)
      → cells q ≡ some n
      → before n.key key ≡ false
      → walk (suc fuel) cells i key a ≡ ok a
  unfolding walk
  walk-stay a q n h f k = rw h (rw f (rw k))

  walk-go :
      (a q : ℕ) (n : Node)
      → next_of cells a i ≡ ok (some q)
      → cells q ≡ some n
      → before n.key key ≡ true
      → walk (suc fuel) cells i key a ≡ walk fuel cells i key q
  unfolding walk
  walk-go a q n h f k = rw h (rw f (rw k))

-- The entries before a key, behind a head, and those that are not before it.
module _ (cells : Heap) (key : ℕ) (all highs : List Entry)
    (chain : IsChain cells (all ++ highs) (λ i. none))
    (high : All (λ e. before e.key key ≡ false) highs) where
  -- `c` is in front of the entries `es`, all before the key.
  pub record IsAt (c : Entry) (es : List Entry) : Type 0 where
    pub front : List Entry
    pub whole : all ≡ front ++ c ∷ es
    pub lows : All (λ e. before e.key key ≡ true) es

  pub IsAt-IsCell :
      (c : Entry) (es : List Entry)
      → IsAt c es
      → IsCell cells c (λ i. lead i es (lead i highs none))
  IsAt-IsCell c es at =
      let split = IsChain-split cells all highs (λ i. none) chain in
      let part = subst (λ xs. IsChain cells xs (λ i. lead i highs none)) at.whole split.0 in
      (IsChain-split cells at.front (c ∷ es) (λ i. lead i highs none) part).1.0

  pub record IsStop (fuel i : ℕ) (c : Entry) (es : List Entry) : Type 0 where
    pub last : Entry
    pub back : List Entry
    pub result : walk fuel cells i key c.addr ≡ ok last.addr
    pub at : IsAt last back
    pub below : IsBelow i back
    pub has : ltb i last.level ≡ true
    pub shorter : length back ≤ length es

  IsAt-next :
      (i : ℕ) (c : Entry) (es : List Entry) → IsAt c es → (n : IsNext i es) → IsAt n.entry n.back
  IsAt-next i c es at n =
      let lows = subst (All (λ e. before e.key key ≡ true)) n.whole at.lows in
      record {
        front = at.front ++ c ∷ n.passed;
        whole =
            at.whole
            ∙ ap (λ xs. at.front ++ c ∷ xs) n.whole
            ∙ sym (append_assoc at.front (c ∷ n.passed) (n.entry ∷ n.back));
        lows = (All-back (λ e. before e.key key ≡ true) n.passed (n.entry ∷ n.back) lows).1;
      }

  IsStop-here :
      (fuel i : ℕ) (c : Entry) (es : List Entry)
      → IsAt c es
      → ltb i c.level ≡ true
      → IsBelow i es
      → IsStop (suc fuel) i c es
  IsStop-here fuel i c es at has below =
      let cell = IsAt-IsCell c es at in
      let next : next_of cells c.addr i ≡ ok (lead i highs none) =
        next_of-cell cells c (λ j. lead j es (lead j highs none)) cell i (ltb→lt i c.level has)
        ∙ ap ok (lead-IsBelow i es (lead i highs none) below) in
      let split = IsChain-split cells all highs (λ i. none) chain in
      record {
        last = c;
        back = es;
        result =
            elim (IsFound-cases cells (λ e. before e.key key ≡ false) i highs (λ i. none) split.1
              high) [
                | inl bottom ↦ walk-end fuel cells i key c.addr (next ∙ ap ok bottom)
                | inr f ↦
                    walk-stay fuel cells i key c.addr f.entry.addr f.node (next ∙ ap ok f.points)
                      f.found (ap (λ k. before k key) f.key ∙ f.holds)
              ];
        at = at;
        below = below;
        has = has;
        shorter = omega arith;
      }

  pub IsStop-at :
      (fuel i : ℕ) (c : Entry) (es : List Entry)
      → IsAt c es
      → ltb i c.level ≡ true
      → length es < fuel
      → IsStop fuel i c es
  IsStop-at zero i c es at has enough = absurd (omega arith)
  IsStop-at (suc fuel) i c es at has enough = elim (IsNext-cases i es) [
    | inl below ↦ IsStop-here fuel i c es at has below
    | inr n ↦
        let at1 = IsAt-next i c es at n in
        let size : length es ≡ length n.passed + suc (length n.back) =
          ap length n.whole ∙ length-append n.passed (n.entry ∷ n.back) in
        let s = IsStop-at fuel i n.entry n.back at1 n.has (omega (arith, size, enough)) in
        let lows = subst (All (λ e. before e.key key ≡ true)) n.whole at.lows in
        let cell = IsAt-IsCell n.entry n.back at1 in
        let next : next_of cells c.addr i ≡ ok (some n.entry.addr) =
          next_of-cell cells c (λ j. lead j es (lead j highs none)) (IsAt-IsCell c es at) i
            (ltb→lt i c.level has)
          ∙ ap ok (lead-IsNext i es (lead i highs none) n) in
        record {
          last = s.last;
          back = s.back;
          result =
              walk-go fuel cells i key c.addr n.entry.addr
                (record { key = n.entry.key; value = n.entry.value; nexts = cell.nexts }) next
                cell.found
                (All-back (λ e. before e.key key ≡ true) n.passed (n.entry ∷ n.back) lows).0
              ∙ s.result;
          at = s.at;
          below = s.below;
          has = s.has;
          shorter = let l = s.shorter in omega (arith, size, l);
        }
  ]
