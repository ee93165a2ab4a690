-- ===== src/TimerQueue/Hold.antt =====
-- `heap_hold` of server/src/timer_queue.cpp calls itself at the place that it has just put in order, and
-- not at the place that it has disturbed.
use dtime_db.Prelude.{
  ℕ, zero, suc, ◌+◌, ◌*◌, ◌≤◌, ◌<◌, ◌≡◌, ◌≢◌, ◌⊎◌, refl, ap, ◌∙◌, sym, subst, inl, inr, true, List,
  [], ◌∷◌, arith, length, get_or, ◌==◌, if◌then◌else◌, ==_iff,
}
use dtime_db.TimerQueue.{
  TimerEvent, TimerQueue, no_event, event, set_event, earliest, swap_events, min_position,
  heap_hold,
}

get-set_same :
    (es : List TimerEvent) (i : ℕ) (e : TimerEvent)
    → i < length es
    → get_or (set_event es i e) i no_event ≡ e
get-set_same [] i e l = absurd (omega arith)
get-set_same (x ∷ xs) zero e l = refl
get-set_same (x ∷ xs) (suc i) e l = get-set_same xs i e (omega arith)

get-set_other :
    (es : List TimerEvent) (i j : ℕ) (e : TimerEvent)
    → i ≢ j
    → get_or (set_event es i e) j no_event ≡ get_or es j no_event
get-set_other [] i j e n = refl
get-set_other (x ∷ xs) zero zero e n = absurd (n refl)
get-set_other (x ∷ xs) zero (suc j) e n = refl
get-set_other (x ∷ xs) (suc i) zero e n = refl
get-set_other (x ∷ xs) (suc i) (suc j) e n = get-set_other xs i j e (omega (arith, n))

length-set_event :
    (es : List TimerEvent) (i : ℕ) (e : TimerEvent) → length (set_event es i e) ≡ length es
length-set_event [] i e = refl
length-set_event (x ∷ xs) zero e = refl
length-set_event (x ∷ xs) (suc i) e = ap suc (length-set_event xs i e)

-- Once the earliest of the three stands at the top, it is the earliest there.
earliest_cases :
    (c pos p l r : ℕ)
    → (earliest c pos p l r ≡ pos)
      ⊎ ((earliest c pos p l r ≡ 2 * pos + 1) × (2 * pos + 1 < c) × (earliest c pos l p r ≡ pos))
      ⊎ ((earliest c pos p l r ≡ 2 * pos + 2) × (2 * pos + 2 < c) × (earliest c pos r l p ≡ pos))
earliest_cases c pos p l r = ground arith

module _ (q : TimerQueue) (m pos : ℕ) (apart : m ≢ pos) (m_in : m < length q.event_lst)
    (pos_in : pos < length q.event_lst) where
  swapped_top : event (swap_events m pos q) pos ≡ event q m
  unfolding swap_events
  swapped_top =
      get-set_same (set_event q.event_lst m (event q pos)) pos (event q m)
        (omega (arith, length-set_event q.event_lst m (event q pos)))

  swapped_child : event (swap_events m pos q) m ≡ event q pos
  unfolding swap_events
  swapped_child =
      get-set_other (set_event q.event_lst m (event q pos)) pos m (event q m) (omega (arith, apart))
      ∙ get-set_same q.event_lst m (event q pos) m_in

  swapped_other : (k : ℕ) → k ≢ m → k ≢ pos → event (swap_events m pos q) k ≡ event q k
  unfolding swap_events
  swapped_other k n n' =
      get-set_other (set_event q.event_lst m (event q pos)) pos k (event q m) (omega (arith, n'))
      ∙ get-set_other q.event_lst m k (event q pos) (omega (arith, n))

module _ (pos : ℕ) (q : TimerQueue) (sizes : q.time_count ≤ length q.event_lst) where
  after_left :
      2 * pos + 1 < q.time_count
      → min_position pos (swap_events (2 * pos + 1) pos q)
        ≡ earliest q.time_count pos
            (event q (2 * pos + 1)).timestamp
            (event q pos).timestamp
            (event q (2 * pos + 2)).timestamp
  unfolding min_position swap_events
  after_left l i =
      let m = 2 * pos + 1 in
      earliest q.time_count pos
        (swapped_top q m pos (omega arith) (omega arith) (omega arith) i).timestamp
        (swapped_child q m pos (omega arith) (omega arith) (omega arith) i).timestamp
        (swapped_other q m pos (omega arith) (omega arith) (omega arith) (2 * pos + 2) (omega arith)
          (omega arith) i).timestamp

  after_right :
      2 * pos + 2 < q.time_count
      → min_position pos (swap_events (2 * pos + 2) pos q)
        ≡ earliest q.time_count pos
            (event q (2 * pos + 2)).timestamp
            (event q (2 * pos + 1)).timestamp
            (event q pos).timestamp
  unfolding min_position swap_events
  after_right l i =
      let m = 2 * pos + 2 in
      earliest q.time_count pos
        (swapped_top q m pos (omega arith) (omega arith) (omega arith) i).timestamp
        (swapped_other q m pos (omega arith) (omega arith) (omega arith) (2 * pos + 1) (omega arith)
          (omega arith) i).timestamp
        (swapped_child q m pos (omega arith) (omega arith) (omega arith) i).timestamp

  -- After one exchange the earliest of the three stands at `pos`.
  settled :
      (min_position pos q ≡ pos) ⊎ (min_position pos (swap_events (min_position pos q) pos q) ≡ pos)
  unfolding min_position
  settled =
      let at_top : ℕ → Type 0 = λ m. min_position pos (swap_events m pos q) ≡ pos in
      elim (earliest_cases q.time_count pos (event q pos).timestamp
        (event q (2 * pos + 1)).timestamp (event q (2 * pos + 2)).timestamp) [
          | inl e ↦ inl e
          | inr (inl (e, inside, done)) ↦ inr (subst at_top (sym e) (after_left inside ∙ done))
          | inr (inr (e, inside, done)) ↦ inr (subst at_top (sym e) (after_right inside ∙ done))
        ]

-- However much fuel it has beyond two rounds, `heap_hold` makes at most one exchange, that of the
-- event at `pos` with the earlier of its children: the second round finds nothing to do at `pos`, and
-- nothing below the exchanged child is put in order.
pub heap_hold_once :
    (fuel pos : ℕ) (q : TimerQueue)
    → q.time_count ≤ length q.event_lst
    → heap_hold (suc (suc fuel)) pos q
      ≡ (if min_position pos q == pos then q else swap_events (min_position pos q) pos q)
unfolding heap_hold
heap_hold_once fuel pos q h = elim (settled pos q h) [
  | inl e ↦
      let same : (min_position pos q == pos) ≡ true = (==_iff (min_position pos q) pos).1 e in
      rw same
  | inr e ↦
      let m = min_position pos q in
      let same : (min_position pos (swap_events m pos q) == pos) ≡ true =
        (==_iff (min_position pos (swap_events m pos q)) pos).1 e in
      rw same
]
