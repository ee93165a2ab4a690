-- ===== src/TimerQueue/Events.antt =====
-- The events in the vector of server/src/timer_queue.cpp as a collection: exchanges keep it, and `heap_pop` takes the
-- first event out of it.
use dtime_db.Prelude.{
  ℕ, zero, suc, ◌+◌, ◌-◌, ◌<◌, ◌≡◌, refl, sym, ap, ◌∙◌, Bool, false, inl, inr, none, some, List, [],
  ◌∷◌, arith, length, length-take, get_or, take, ◌==◌, if◌then◌else◌, Bool-cases, ==_iff,
}
use dtime_db.TimerQueue.{
  TimerEvent, TimerQueue, no_event, event, set_event, set_position, pop_back, swap_events,
  min_position, heap_hold, heap_pop,
}

abbrev pub one_if : Bool → ℕ
one_if b = if b then 1 else 0

-- How many events are of a kind.
abbrev pub count : (TimerEvent → Bool) → List TimerEvent → ℕ
count kind [] = 0
count kind (e ∷ es) = one_if (kind e) + count kind es

abbrev at : List TimerEvent → ℕ → TimerEvent
at es i = get_or es i no_event

length-set_event :
    (es : List TimerEvent) (i : ℕ) (e : TimerEvent) → length (set_event es i e) ≡ length es
length-set_event [] i e = refl
length-set_event (x ∷ es) zero e = refl
length-set_event (x ∷ es) (suc i) e = ap suc (length-set_event es i e)

at-set_same :
    (es : List TimerEvent) (i : ℕ) (e : TimerEvent) → i < length es → at (set_event es i e) i ≡ e
at-set_same [] i e h = absurd (omega arith)
at-set_same (x ∷ es) zero e h = refl
at-set_same (x ∷ es) (suc i) e h = at-set_same es i e (omega arith)

at-set_other :
    (es : List TimerEvent) (i j : ℕ) (e : TimerEvent)
    → (j == i) ≡ false
    → at (set_event es i e) j ≡ at es j
at-set_other [] i j e h = refl
at-set_other (x ∷ es) zero zero e h = absurd (ground arith)
at-set_other (x ∷ es) zero (suc j) e h = refl
at-set_other (x ∷ es) (suc i) zero e h = refl
at-set_other (x ∷ es) (suc i) (suc j) e h = at-set_other es i j e (ground arith)

at-set_at :
    (es : List TimerEvent) (i j : ℕ) → i < length es → at (set_event es i (at es j)) j ≡ at es j
at-set_at es i j h = elim (Bool-cases (j == i)) [
  | inl same ↦
      let e = (==_iff j i).0 same in
      ap (at (set_event es i (at es j))) e ∙ at-set_same es i (at es j) h
  | inr other ↦ at-set_other es i j (at es j) other
]

module _ (kind : TimerEvent → Bool) where
  count-set_event :
      (es : List TimerEvent) (i : ℕ) (e : TimerEvent)
      → i < length es
      → count kind (set_event es i e) + one_if (kind (at es i)) ≡ count kind es + one_if (kind e)
  count-set_event [] i e h = absurd (omega arith)
  count-set_event (x ∷ es) zero e h = omega arith
  count-set_event (x ∷ es) (suc i) e h =
      let ih = count-set_event es i e (omega arith) in omega (arith, ih)

  count-swap :
      (es : List TimerEvent) (i j : ℕ)
      → i < length es
      → j < length es
      → count kind (set_event (set_event es i (at es j)) j (at es i)) ≡ count kind es
  count-swap es i j h k =
      let first = count-set_event es i (at es j) h in
      let size = length-set_event es i (at es j) in
      let second =
        count-set_event (set_event es i (at es j)) j (at es i) (omega (arith, size, k)) in
      let same = ap (λ e. one_if (kind e)) (at-set_at es i j h) in
      omega (arith, first, second, same)

  count-pop_back :
      (es : List TimerEvent)
      → 0 < length es
      → count kind (pop_back es) + one_if (kind (at es (length es - 1))) ≡ count kind es
  count-pop_back es h = go (length es - 1) es (omega arith)
    where
      go :
          (n : ℕ) (es : List TimerEvent)
          → length es ≡ suc n
          → count kind (take n es) + one_if (kind (at es n)) ≡ count kind es
      go n [] h = absurd (omega arith)
      go zero (x ∷ []) h = omega arith
      go zero (x ∷ y ∷ es) h = absurd (omega arith)
      go (suc n) (x ∷ es) h = let ih = go n es (omega arith) in omega (arith, ih)

length-pop_back : (es : List TimerEvent) → length (pop_back es) ≡ length es - 1
length-pop_back es = let e = length-take (length es - 1) es in omega (arith, e)

-- The vector has as many events as the queue counts.
abbrev pub IsCounted : TimerQueue → Type 0
IsCounted q = length q.event_lst ≡ q.time_count

min_position-lt :
    (pos : ℕ) (q : TimerQueue) → pos < q.time_count → min_position pos q < q.time_count
unfolding min_position
min_position-lt pos q h = ground arith

-- What a step leaves of the events.
pub record IsSame (q q' : TimerQueue) : Type 0 where
  pub size : length q'.event_lst ≡ length q.event_lst
  pub counted : q'.time_count ≡ q.time_count
  pub kept : (kind : TimerEvent → Bool) → count kind q'.event_lst ≡ count kind q.event_lst

IsSame-swap_events :
    (i j : ℕ) (q : TimerQueue)
    → i < length q.event_lst
    → j < length q.event_lst
    → IsSame q (swap_events i j q)
unfolding swap_events
IsSame-swap_events i j q h k = record {
  size =
      length-set_event (set_event q.event_lst i (event q j)) j (event q i)
      ∙ length-set_event q.event_lst i (event q j);
  counted = refl;
  kept = λ kind. count-swap kind q.event_lst i j h k;
}

IsSame-heap_hold :
    (fuel pos : ℕ) (q : TimerQueue)
    → IsCounted q
    → pos < q.time_count
    → IsSame q (heap_hold fuel pos q)
unfolding heap_hold
IsSame-heap_hold zero pos q h l = record { size = refl; counted = refl; kept = λ kind. refl }
IsSame-heap_hold (suc fuel) pos q h l = elim (Bool-cases (min_position pos q == pos)) [
  | inl e ↦ rw e (record { size = refl; counted = refl; kept = λ kind. refl })
  | inr e ↦
      let m = min_position-lt pos q l in
      let s =
        IsSame-swap_events (min_position pos q) pos q (omega (arith, m, h)) (omega (arith, l, h)) in
      let r =
        IsSame-heap_hold fuel pos (swap_events (min_position pos q) pos q)
          (s.size ∙ h ∙ sym s.counted) (let c = s.counted in omega (arith, c, l)) in
      rw e (record {
        size = r.size ∙ s.size;
        counted = r.counted ∙ s.counted;
        kept = λ kind. r.kept kind ∙ s.kept kind;
      })
]

-- The first event has left.
pub record IsPopped (q q' : TimerQueue) : Type 0 where
  pub counted : IsCounted q'
  pub less : suc q'.time_count ≡ q.time_count
  pub kept :
      (kind : TimerEvent → Bool)
      → one_if (kind (event q 0)) + count kind q'.event_lst ≡ count kind q.event_lst

only_event :
    (es : List TimerEvent) (kind : TimerEvent → Bool)
    → length es ≡ 1
    → one_if (kind (at es 0)) + 0 ≡ count kind es
only_event [] kind h = absurd (omega arith)
only_event (x ∷ []) kind h = refl
only_event (x ∷ y ∷ es) kind h = absurd (omega arith)

-- The last event in the place of the first.
abbrev moved : TimerQueue → TimerQueue
moved q =
    let erased = set_position (event q 0).timer_id none q.position in
    let tmp = event q (q.time_count - 1) in
    record q {
      event_lst = pop_back (set_event q.event_lst 0 tmp);
      position = set_position tmp.timer_id (some 0) erased;
      time_count = q.time_count - 1;
    }

IsPopped-moved :
    (q q' : TimerQueue) → IsCounted q → 1 < q.time_count → IsSame (moved q) q' → IsPopped q q'
IsPopped-moved q q' h many s =
    let n = q.time_count in
    let tmp = event q (n - 1) in
    let es = set_event q.event_lst 0 tmp in
    let size = length-set_event q.event_lst 0 tmp in
    let shorter = length-pop_back es in
    let same_size = s.size in
    let same_count = s.counted in
    record {
      counted = omega (arith, h, size, shorter, same_size, same_count, many);
      less = omega (arith, same_count, many);
      kept = λ kind.
          let first = count-set_event kind q.event_lst 0 tmp (omega (arith, h, many)) in
          let last = count-pop_back kind es (omega (arith, h, size, many)) in
          let place : length es - 1 ≡ n - 1 = omega (arith, size, h) in
          let stays : at es (n - 1) ≡ tmp =
            at-set_other q.event_lst 0 (n - 1) tmp (ground (arith, many)) in
          let out : one_if (kind (at es (length es - 1))) ≡ one_if (kind tmp) =
            ap (λ e. one_if (kind e)) (ap (at es) place ∙ stays) in
          let left = s.kept kind in omega (arith, first, last, out, left);
    }

pub IsPopped-heap_pop :
    (q : TimerQueue) → IsCounted q → (q.time_count == 0) ≡ false → IsPopped q (heap_pop q)
unfolding heap_pop
IsPopped-heap_pop q h e = elim (Bool-cases (q.time_count == 1)) [
  | inl e' ↦
      let one : q.time_count ≡ 1 = (==_iff q.time_count 1).0 e' in
      rw (e, e')
        (record {
          counted = refl;
          less = sym one;
          kept = λ kind. only_event q.event_lst kind (h ∙ one);
        })
  | inr e' ↦
      let many : 1 < q.time_count = ground (arith, e, e') in
      let s =
        IsSame-heap_hold q.time_count 0 (moved q)
          (let size = length-set_event q.event_lst 0 (event q (q.time_count - 1)) in
            let shorter = length-pop_back (set_event q.event_lst 0 (event q (q.time_count - 1))) in
            omega (arith, h, size, shorter))
          (omega (arith, many)) in
      rw (e, e') (IsPopped-moved q (heap_hold q.time_count 0 (moved q)) h many s)
]
