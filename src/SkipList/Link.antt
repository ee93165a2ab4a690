-- ===== src/SkipList/Link.antt =====
-- The loop of `put` that links a new node on its levels.
use dtime_db.Prelude.{
  ℕ, zero, suc, ◌+◌, ◌<◌, ◌≤◌, ◌≡◌, refl, ap, subst, ◌∙◌, false, none, some, List, [], ◌∷◌, ◌++◌,
  ◌==◌, ltb, if◌then◌else◌, length, Pairwise-front, All-back, arith,
}
use dtime_db.SkipList.{Pointer, Heap, ok, next_of, set_next, link_levels}
use dtime_db.SkipList.Cells.{
  Entry, IsCell, IsCell-agree, IsCell-frame, lead, IsChain, IsChain-join, IsChain-agree, IsOther,
  IsAbsent, IsDistinct, with_next, set_next-cell, IsCell-with_next,
}
use dtime_db.SkipList.Walk.{IsLast, here, there}
use dtime_db.SkipList.Search.{IsTargets}
use dtime_db.SkipList.Links.{IsFrame, IsChain-frame, IsOther-IsLast, next_of-IsLast, relink}

-- What stands behind the levels of the entries before the new one, those below `i` linked.
abbrev link_tail : ℕ → List Entry → ℕ → ℕ → Pointer
link_tail a highs i j = if ltb j i then some a else lead j highs none

-- The pointers of the new node, those below `i` set.
abbrev link_next : List Entry → ℕ → ℕ → Pointer
link_next highs i j = if ltb j i then lead j highs none else none

pub IsAbsent-IsLast :
    (i : ℕ) (u : Entry) (xs ys : List Entry)
    → IsDistinct (xs ++ ys)
    → IsLast i u xs
    → IsAbsent u.addr ys
IsAbsent-IsLast i u [] ys d last = elim last [ ]
IsAbsent-IsLast i u (x ∷ xs) ys d (here has below) = All-back (IsOther x.addr) xs ys d.0
IsAbsent-IsLast i u (x ∷ xs) ys d (there last) = IsAbsent-IsLast i u xs ys d.1 last

link-step :
    (n i u a : ℕ) (update : List ℕ) (cells cells1 cells2 : Heap) (p : Pointer)
    → next_of cells u i ≡ ok p
    → set_next cells a i p ≡ ok cells1
    → set_next cells1 u i (some a) ≡ ok cells2
    → link_levels (suc n) i (u ∷ update) a cells ≡ link_levels n (suc i) update a cells2
unfolding link_levels
link-step n i u a update cells cells1 cells2 p h k m = rw h (rw k (rw m))

module _ (e : Entry) (xs highs : List Entry) (distinct : IsDistinct (xs ++ highs))
    (absent : IsAbsent e.addr xs) (absent_highs : IsAbsent e.addr highs) where
  -- The chains before and behind the new node, with the levels below `i` linked.
  record IsLinking (cells : Heap) (i : ℕ) : Type 0 where
    before_it : IsChain cells xs (link_tail e.addr highs i)
    behind_it : IsChain cells highs (λ j. none)
    node : IsCell cells e (link_next highs i)

  record IsLinkedOnce (cells : Heap) (i u : ℕ) : Type 0 where
    first : Heap
    second : Heap
    next : next_of cells u i ≡ ok (lead i highs none)
    node_set : set_next cells e.addr i (lead i highs none) ≡ ok first
    target_set : set_next first u i (some e.addr) ≡ ok second
    linking : IsLinking second (suc i)

  link_once :
      (cells : Heap) (i : ℕ) (u : Entry)
      → IsLinking cells i
      → IsLast i u xs
      → i < e.level
      → IsLinkedOnce cells i u.addr
  link_once cells i u w last l =
      let p = lead i highs none in
      let cells1 = with_next cells e (link_next highs i) w.node i l p in
      let frame : IsFrame cells cells1 e.addr = λ a n. rw n in
      let r =
        relink cells1 i u (some e.addr) (link_tail e.addr highs i) (link_tail e.addr highs (suc i))
          (ground arith) (λ j n. ground arith) xs
          (Pairwise-front (λ x y. IsOther x.addr y) xs highs distinct) last
          (IsChain-frame cells cells1 e.addr xs (link_tail e.addr highs i) frame absent
            w.before_it) in
      let absent_u = IsAbsent-IsLast i u xs highs distinct last in
      let apart : (e.addr == u.addr) ≡ false =
        (let o = IsOther-IsLast e.addr i u xs absent last in ground arith) in
      record {
        first = cells1;
        second = r.relinked;
        next =
            next_of-IsLast cells i u xs (link_tail e.addr highs i) last w.before_it
            ∙ ap ok (ground arith);
        node_set = set_next-cell cells e (link_next highs i) w.node i l p;
        target_set = r.result;
        linking = record {
          before_it = r.chain;
          behind_it =
              IsChain-frame cells1 r.relinked u.addr highs (λ j. none) r.frame absent_u
                (IsChain-frame cells cells1 e.addr highs (λ j. none) frame absent_highs
                  w.behind_it);
          node = IsCell-frame cells1 r.relinked e (link_next highs (suc i)) (r.frame e.addr apart) (
              IsCell-with_next cells e (link_next highs i) w.node i l p (link_next highs (suc i))
                (ground arith) (λ j n. ground arith));
        };
      }

  pub record IsLinked (n i : ℕ) (update : List ℕ) (cells : Heap) : Type 0 where
    pub linked : Heap
    pub result : link_levels n i update e.addr cells ≡ ok linked
    linking : IsLinking linked e.level

  linked_levels :
      (n i : ℕ) (update : List ℕ) (cells : Heap)
      → IsLinking cells i
      → IsTargets xs i update
      → n + i ≡ e.level
      → n ≤ length update
      → IsLinked n i update cells
  unfolding link_levels
  linked_levels zero i update cells w targets level many = record {
    linked = cells;
    result = refl;
    linking = subst (IsLinking cells) (omega (arith, level)) w;
  }
  linked_levels (suc n) i [] cells w targets level many = absurd (omega arith)
  linked_levels (suc n) i (u ∷ update) cells w targets level many =
      let once : IsLinkedOnce cells i u =
        subst (IsLinkedOnce cells i) targets.0.addr
          (link_once cells i targets.0.entry w targets.0.last (omega (arith, level))) in
      let r =
        linked_levels n (suc i) update once.second once.linking targets.1 (omega (arith, level))
          (omega (arith, many)) in
      record {
        linked = r.linked;
        result =
            link-step n i u e.addr update cells once.first once.second (lead i highs none) once.next
              once.node_set once.target_set
            ∙ r.result;
        linking = r.linking;
      }

  -- The chain with the new entry.
  pub IsLinked-IsChain :
      (n i : ℕ) (update : List ℕ) (cells : Heap) (r : IsLinked n i update cells)
      → IsChain r.linked (xs ++ e ∷ highs) (λ j. none)
  unfolding lead
  IsLinked-IsChain n i update cells r =
      IsChain-join r.linked xs (e ∷ highs) (λ j. none) r.linking.before_it
        (
          IsCell-agree r.linked e (link_next highs e.level) (λ j. lead j highs none)
              (λ j l. ground arith) r.linking.node,
          r.linking.behind_it,
        )

  pub linked_new :
      (cells : Heap) (update : List ℕ)
      → IsChain cells xs (λ j. lead j highs none)
      → IsChain cells highs (λ j. none)
      → IsCell cells e (λ j. none)
      → IsTargets xs 0 update
      → e.level ≤ length update
      → IsLinked e.level 0 update cells
  linked_new cells update lows high node targets many =
      linked_levels e.level 0 update cells
        (record {
          before_it =
              IsChain-agree cells xs (λ j. lead j highs none) (link_tail e.addr highs 0)
                (λ j. ground arith) lows;
          behind_it = high;
          node = IsCell-agree cells e (λ j. none) (link_next highs 0) (λ j l. ground arith) node;
        })
        targets (omega arith) many
