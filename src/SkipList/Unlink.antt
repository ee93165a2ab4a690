-- ===== src/SkipList/Unlink.antt =====
-- The loop of `del` that takes a node out of its levels, from the lowest on until a level does not lead to it.
use dtime_db.Prelude.{
  ℕ, suc, ◌+◌, ◌≤◌, ◌≡◌, refl, ap, subst, ◌∙◌, true, false, none, some, List, [], ◌∷◌, ◌++◌, ◌==◌,
  ltb, ltb→lt, if◌then◌else◌, length, Pairwise-front, Pairwise-back, Bool-cases, inl, inr, arith,
}
use dtime_db.SkipList.{Pointer, Heap, ok, next_of, set_next, same_pointer, unlink_levels}
use dtime_db.SkipList.Cells.{
  Entry, IsCell, IsCell-frame, lead, IsChain, IsChain-split, IsChain-join, IsChain-agree, IsOther,
  IsAbsent, IsDistinct, next_of-cell,
}
use dtime_db.SkipList.Walk.{IsLast}
use dtime_db.SkipList.Search.{IsTargets}
use dtime_db.SkipList.Links.{IsChain-frame, next_of-IsLast, relink}
use dtime_db.SkipList.Link.{IsAbsent-IsLast}

-- What stands behind the levels of the entries before the node, with the node out of those below `i`.
abbrev unlink_tail : Entry → List Entry → ℕ → ℕ → Pointer
unlink_tail e highs i j = if ltb j i then lead j highs none else lead j (e ∷ highs) none

lead-other_address :
    (i a : ℕ) (es : List Entry) → IsAbsent a es → same_pointer (lead i es none) a ≡ false
unfolding lead
lead-other_address i a [] h = refl
lead-other_address i a (e ∷ es) h = elim (Bool-cases (ltb i e.level)) [
  | inl has ↦ rw has h.0
  | inr low ↦ rw low (lead-other_address i a es h.1)
]

module _ (i u current : ℕ) (update : List ℕ) (cells : Heap) where
  unlink-stop :
      (p : Pointer)
      → next_of cells u i ≡ ok p
      → same_pointer p current ≡ false
      → unlink_levels i (u ∷ update) current cells ≡ ok cells
  unfolding unlink_levels
  unlink-stop p h k = rw h (rw k refl)

  unlink-step :
      (p : Pointer) (cells1 : Heap)
      → next_of cells u i ≡ ok (some current)
      → next_of cells current i ≡ ok p
      → set_next cells u i p ≡ ok cells1
      → unlink_levels i (u ∷ update) current cells ≡ unlink_levels (suc i) update current cells1
  unfolding unlink_levels
  unlink-step p cells1 h k m =
      let same : (current == current) ≡ true = ground arith in rw h (rw same (rw k (rw m refl)))

module _ (e : Entry) (xs highs : List Entry) (distinct : IsDistinct (xs ++ e ∷ highs)) where
  record IsUnlinking (cells : Heap) (i : ℕ) : Type 0 where
    before_it : IsChain cells xs (unlink_tail e highs i)
    behind_it : IsChain cells highs (λ j. none)
    node : IsCell cells e (λ j. lead j highs none)

  abbrev behind_absent : (i : ℕ) (u : Entry) → IsLast i u xs → IsAbsent u.addr (e ∷ highs)
  behind_absent i u last = IsAbsent-IsLast i u xs (e ∷ highs) distinct last

  record IsUnlinkedOnce (cells : Heap) (i u : ℕ) : Type 0 where
    unlinked : Heap
    next : next_of cells u i ≡ ok (some e.addr)
    node_next : next_of cells e.addr i ≡ ok (lead i highs none)
    target_set : set_next cells u i (lead i highs none) ≡ ok unlinked
    unlinking : IsUnlinking unlinked (suc i)

  unlink_once :
      (cells : Heap) (i : ℕ) (u : Entry)
      → IsUnlinking cells i
      → IsLast i u xs
      → ltb i e.level ≡ true
      → IsUnlinkedOnce cells i u.addr
  unfolding lead
  unlink_once cells i u w last has =
      let r =
        relink cells i u (lead i highs none) (unlink_tail e highs i) (unlink_tail e highs (suc i))
          (ground arith) (λ j n. ground arith) xs
          (Pairwise-front (λ x y. IsOther x.addr y) xs (e ∷ highs) distinct) last w.before_it in
      let absent = behind_absent i u last in
      record {
        unlinked = r.relinked;
        next =
            next_of-IsLast cells i u xs (unlink_tail e highs i) last w.before_it
            ∙ ap ok (ground arith);
        node_next = next_of-cell cells e (λ j. lead j highs none) w.node i (ltb→lt i e.level has);
        target_set = r.result;
        unlinking = record {
          before_it = r.chain;
          behind_it =
              IsChain-frame cells r.relinked u.addr highs (λ j. none) r.frame absent.1 w.behind_it;
          node =
              IsCell-frame cells r.relinked e (λ j. lead j highs none) (r.frame e.addr absent.0)
                w.node;
        };
      }

  -- The heap after the loop: the chains before and behind the node, joined.
  pub record IsUnlinked (i : ℕ) (update : List ℕ) (cells : Heap) : Type 0 where
    pub unlinked : Heap
    pub result : unlink_levels i update e.addr cells ≡ ok unlinked
    pub chain : IsChain unlinked (xs ++ highs) (λ j. none)

  -- From level `i` on, the node has no level.
  joined :
      (cells : Heap) (i : ℕ)
      → IsUnlinking cells i
      → e.level ≤ i
      → IsChain cells (xs ++ highs) (λ j. none)
  unfolding lead
  joined cells i w level =
      IsChain-join cells xs highs (λ j. none)
        (IsChain-agree cells xs (unlink_tail e highs i) (λ j. lead j highs none) (λ j. ground arith)
          w.before_it)
        w.behind_it

  unlinked_stop :
      (i : ℕ) (update : List ℕ) (cells : Heap) (u : Entry)
      → IsUnlinking cells i
      → IsLast i u xs
      → ltb i e.level ≡ false
      → IsUnlinked i (u.addr ∷ update) cells
  unfolding lead
  unlinked_stop i update cells u w last low =
      let next : next_of cells u.addr i ≡ ok (lead i highs none) =
        next_of-IsLast cells i u xs (unlink_tail e highs i) last w.before_it
        ∙ ap ok (ground arith) in
      record {
        unlinked = cells;
        result = unlink-stop i u.addr e.addr update cells (lead i highs none) next (
            lead-other_address i e.addr highs
              (Pairwise-back (λ x y. IsOther x.addr y) xs (e ∷ highs) distinct).0);
        chain = joined cells i w (ground arith);
      }

  unlinked_levels :
      (i : ℕ) (update : List ℕ) (cells : Heap)
      → IsUnlinking cells i
      → IsTargets xs i update
      → e.level ≤ i + length update
      → IsUnlinked i update cells
  unfolding unlink_levels
  unlinked_levels i [] cells w targets level = record {
    unlinked = cells;
    result = refl;
    chain = joined cells i w (omega (arith, level));
  }
  unlinked_levels i (u ∷ update) cells w targets level = elim (Bool-cases (ltb i e.level)) [
    | inl has ↦
        let once : IsUnlinkedOnce cells i u =
          subst (IsUnlinkedOnce cells i) targets.0.addr
            (unlink_once cells i targets.0.entry w targets.0.last has) in
        let r =
          unlinked_levels (suc i) update once.unlinked once.unlinking targets.1
            (omega (arith, level)) in
        record {
          unlinked = r.unlinked;
          result =
              unlink-step i u e.addr update cells (lead i highs none) once.unlinked once.next
                once.node_next once.target_set
              ∙ r.result;
          chain = r.chain;
        }
    | inr low ↦
        subst (λ a. IsUnlinked i (a ∷ update) cells) targets.0.addr
          (unlinked_stop i update cells targets.0.entry w targets.0.last low)
  ]

  pub unlinked :
      (cells : Heap) (update : List ℕ)
      → IsChain cells (xs ++ e ∷ highs) (λ j. none)
      → IsTargets xs 0 update
      → e.level ≤ length update
      → IsUnlinked 0 update cells
  unlinked cells update chain targets level =
      let (lows, high) = IsChain-split cells xs (e ∷ highs) (λ j. none) chain in
      unlinked_levels 0 update cells
        (record {
          before_it =
              IsChain-agree cells xs (λ j. lead j (e ∷ highs) none) (unlink_tail e highs 0)
                (λ j. ground arith) lows;
          behind_it = high.1;
          node = high.0;
        })
        targets (omega (arith, level))
