-- ===== src/SkipList/Iterate.antt =====
-- The loops along the lowest level: `begin` to `end`, `min_key`, `max_key`.
use dtime_db.Prelude.{
  ℕ, zero, suc, ◌<◌, ◌≤◌, ◌≡◌, refl, sym, ap, ◌∙◌, true, false, none, some, List, [], ◌∷◌, ◌==◌,
  ==_iff, length, All, arith,
}
use dtime_db.SkipList.{
  Pointer, Node, Heap, SkipList, ok, rounds, next_of, points_of, iterate, min_key, max_key,
  last_node,
}
use dtime_db.SkipList.Cells.{Entry, IsCell, lead, IsChain, IsOther, IsAbsent, next_of-cell}
use dtime_db.SkipList.Points.{Point, points}
use dtime_db.SkipList.Shape.{IsSound, IsSkipList, lead-first}

-- The time point of the first point and of the last one; 0 without points.
abbrev pub first_time : List Point → ℕ
first_time [] = 0
first_time (p ∷ ps) = p.0

abbrev pub last_time : List Point → ℕ
last_time [] = 0
last_time (p ∷ []) = p.0
last_time (p ∷ q ∷ ps) = last_time (q ∷ ps)

iterate-step :
    (fuel : ℕ) (cells : Heap) (q : ℕ) (n : Node) (p : Pointer) (ps : List Point)
    → cells q ≡ some n
    → next_of cells q 0 ≡ ok p
    → iterate fuel cells p ≡ ok ps
    → iterate (suc fuel) cells (some q) ≡ ok ((n.key, n.value) ∷ ps)
unfolding iterate
iterate-step fuel cells q n p ps h k m = rw h (rw k (rw m refl))

next_of-first :
    (cells : Heap) (e : Entry) (es : List Entry)
    → IsChain cells (e ∷ es) (λ i. none)
    → 0 < e.level
    → next_of cells e.addr 0 ≡ ok (lead 0 es none)
next_of-first cells e es h l = next_of-cell cells e (λ i. lead i es none) h.0 0 l

iterate_lem :
    (fuel next : ℕ) (cells : Heap) (es : List Entry)
    → IsChain cells es (λ i. none)
    → All (IsSound next) es
    → length es ≤ fuel
    → iterate fuel cells (lead 0 es none) ≡ ok (points es)
unfolding iterate lead
iterate_lem zero next cells [] h s enough = refl
iterate_lem (suc fuel) next cells [] h s enough = refl
iterate_lem zero next cells (e ∷ es) h s enough = absurd (omega arith)
iterate_lem (suc fuel) next cells (e ∷ es) h s enough =
    ap (iterate (suc fuel) cells) (lead-first next e es none s.0)
    ∙ iterate-step fuel cells e.addr (record { key = e.key; value = e.value; nexts = h.0.nexts })
        (lead 0 es none) (points es) h.0.found (next_of-first cells e es h (s.0).some_level)
        (iterate_lem fuel next cells es h.1 s.1 (omega (arith, enough)))

points_of-step :
    (l : SkipList) (p : Pointer)
    → next_of l.cells l.head 0 ≡ ok p
    → points_of l ≡ iterate (rounds l) l.cells p
unfolding points_of
points_of-step l p h = rw h refl

min_key-none : (l : SkipList) → next_of l.cells l.head 0 ≡ ok none → min_key l ≡ ok 0
unfolding min_key
min_key-none l h = rw h refl

min_key-some :
    (l : SkipList) (q : ℕ) (n : Node)
    → next_of l.cells l.head 0 ≡ ok (some q)
    → l.cells q ≡ some n
    → min_key l ≡ ok n.key
unfolding min_key
min_key-some l q n h k = rw h (rw k refl)

last_node-end :
    (fuel : ℕ) (cells : Heap) (c : ℕ)
    → next_of cells c 0 ≡ ok none
    → last_node (suc fuel) cells c ≡ ok c
unfolding last_node
last_node-end fuel cells c h = rw h refl

last_node-go :
    (fuel : ℕ) (cells : Heap) (c q : ℕ)
    → next_of cells c 0 ≡ ok (some q)
    → last_node (suc fuel) cells c ≡ last_node fuel cells q
unfolding last_node
last_node-go fuel cells c q h = rw h refl

-- The last entry, or the one in front of the entries.
abbrev last_or : Entry → List Entry → Entry
last_or c [] = c
last_or c (e ∷ es) = last_or e es

last_node_lem :
    (fuel next : ℕ) (cells : Heap) (c : Entry) (es : List Entry)
    → IsChain cells (c ∷ es) (λ i. none)
    → 0 < c.level
    → All (IsSound next) es
    → length es < fuel
    → last_node fuel cells c.addr ≡ ok (last_or c es).addr
unfolding lead
last_node_lem zero next cells c es h l s enough = absurd (omega arith)
last_node_lem (suc fuel) next cells c [] h l s enough =
    last_node-end fuel cells c.addr (next_of-first cells c [] h l)
last_node_lem (suc fuel) next cells c (e ∷ es) h l s enough =
    last_node-go fuel cells c.addr e.addr
      (next_of-first cells c (e ∷ es) h l ∙ ap ok (lead-first next e es none s.0))
    ∙ last_node_lem fuel next cells e es h.1 (s.0).some_level s.1 (omega (arith, enough))

max_key-none :
    (l : SkipList) (q : ℕ)
    → last_node (rounds l) l.cells l.head ≡ ok q
    → (q == l.head) ≡ true
    → max_key l ≡ ok 0
unfolding max_key
max_key-none l q h k = rw h (rw k refl)

max_key-some :
    (l : SkipList) (q : ℕ) (n : Node)
    → last_node (rounds l) l.cells l.head ≡ ok q
    → (q == l.head) ≡ false
    → l.cells q ≡ some n
    → max_key l ≡ ok n.key
unfolding max_key
max_key-some l q n h k m = rw h (rw k (rw m refl))

last_key : (e : Entry) (es : List Entry) → (last_or e es).key ≡ last_time (points (e ∷ es))
last_key e [] = refl
last_key e (x ∷ es) = last_key x es

last_or-IsOther :
    (a : ℕ) (e : Entry) (es : List Entry) → IsAbsent a (e ∷ es) → IsOther a (last_or e es)
last_or-IsOther a e [] h = h.0
last_or-IsOther a e (x ∷ es) h = last_or-IsOther a x es h.1

last_or-IsCell :
    (cells : Heap) (e : Entry) (es : List Entry)
    → IsChain cells (e ∷ es) (λ i. none)
    → IsCell cells (last_or e es) (λ i. none)
unfolding lead
last_or-IsCell cells e [] h = h.0
last_or-IsCell cells e (x ∷ es) h = last_or-IsCell cells x es h.1

module _ (l : SkipList) (b : Entry) (es : List Entry) (w : IsSkipList l b es) where
  at_head : next_of l.cells l.head 0 ≡ ok (lead 0 es none)
  at_head =
      ap (λ a. next_of l.cells a 0) (sym w.head)
      ∙ next_of-first l.cells b es w.chain (let t = w.top in omega (arith, t))

  pub points_of_lem : points_of l ≡ ok (points es)
  points_of_lem =
      points_of-step l (lead 0 es none) at_head
      ∙ iterate_lem (rounds l) l.next_address l.cells es w.chain.1 w.sound
          (let c = w.count in omega (arith, c))

  at_last : last_node (rounds l) l.cells l.head ≡ ok (last_or b es).addr
  at_last =
      ap (last_node (rounds l) l.cells) (sym w.head)
      ∙ last_node_lem (rounds l) l.next_address l.cells b es w.chain
          (let t = w.top in omega (arith, t)) w.sound (let c = w.count in omega (arith, c))

pub min_key_lem :
    (l : SkipList) (b : Entry) (es : List Entry)
    → IsSkipList l b es
    → min_key l ≡ ok (first_time (points es))
unfolding lead
min_key_lem l b [] w = min_key-none l (at_head l b [] w)
min_key_lem l b (e ∷ es) w =
    min_key-some l e.addr (record { key = e.key; value = e.value; nexts = w.chain.1.0.nexts })
      (at_head l b (e ∷ es) w ∙ ap ok (lead-first l.next_address e es none w.sound.0))
      w.chain.1.0.found

pub max_key_lem :
    (l : SkipList) (b : Entry) (es : List Entry)
    → IsSkipList l b es
    → max_key l ≡ ok (last_time (points es))
max_key_lem l b [] w = max_key-none l b.addr (at_last l b [] w) ((==_iff b.addr l.head).1 w.head)
max_key_lem l b (e ∷ es) w =
    let cell = last_or-IsCell l.cells e es w.chain.1 in
    let other = last_or-IsOther b.addr e es w.distinct.0 in
    max_key-some l (last_or e es).addr
      (record { key = (last_or e es).key; value = (last_or e es).value; nexts = cell.nexts })
      (at_last l b (e ∷ es) w) (ap (λ a. (last_or e es).addr == a) (sym w.head) ∙ other) cell.found
    ∙ ap ok (last_key e es)
