-- ===== src/TimerQueue/Fired.antt =====
-- What `get_timo` of server/src/timer_queue.cpp takes off the heap and what it leaves.
use dtime_db.Prelude.{
  ℕ, zero, suc, ◌+◌, ◌<◌, ◌≡◌, ◌≢◌, refl, sym, subst, ◌∙◌, inl, inr, Bool, List, arith, All, ◌==◌,
  Bool-cases, ==_iff,
}
use dtime_db.TimerQueue.Events.{count, IsCounted, IsPopped-heap_pop}
use dtime_db.TimerQueue.{
  TimerEvent, TimerQueue, event, swap_events, min_position, heap_hold, heap_pop, fire_loop,
  get_timo,
}

-- An event that is due at the time `t`.
abbrev pub IsDue : ℕ → TimerEvent → Type 0
IsDue t e = e.timestamp ≡ t

pioneer-heap_hold : (fuel pos : ℕ) (q : TimerQueue) → (heap_hold fuel pos q).pioneer ≡ q.pioneer
unfolding heap_hold swap_events
pioneer-heap_hold zero pos q = refl
pioneer-heap_hold (suc fuel) pos q = elim (Bool-cases (min_position pos q == pos)) [
  | inl e ↦ rw e
  | inr e ↦ rw e (pioneer-heap_hold fuel pos (swap_events (min_position pos q) pos q))
]

pioneer-heap_pop : (q : TimerQueue) → (heap_pop q).pioneer ≡ q.pioneer
unfolding heap_pop
pioneer-heap_pop q = elim (Bool-cases (q.time_count == 0)) [
  | inl e ↦ rw e
  | inr e ↦ elim (Bool-cases (q.time_count == 1)) [
    | inl e' ↦ rw (e, e')
    | inr e' ↦ rw (e, e') (pioneer-heap_hold q.time_count 0 _)
  ]
]

-- What a run of the loop has fired and left: of each kind of event, as many as there were.
pub record IsFired (q : TimerQueue) (r : List TimerEvent × TimerQueue) : Type 0 where
  pub due : All (IsDue q.pioneer) r.0
  pub kept :
      (kind : TimerEvent → Bool)
      → count kind r.0 + count kind r.1.event_lst ≡ count kind q.event_lst
  pub counted : IsCounted r.1
  pub pioneer : r.1.pioneer ≡ q.pioneer
  pub none_due : 0 < r.1.time_count → (event r.1 0).timestamp ≢ q.pioneer

fire_loop-IsFired :
    (fuel : ℕ) (q : TimerQueue) → q.time_count < fuel → IsCounted q → IsFired q (fire_loop fuel q)
unfolding fire_loop
fire_loop-IsFired zero q h c = absurd (omega arith)
fire_loop-IsFired (suc fuel) q h c = elim (Bool-cases (q.time_count == 0)) [
  | inl e ↦ rw e (record {
    due = tt;
    kept = λ kind. omega arith;
    counted = c;
    pioneer = refl;
    none_due = λ l. ground (arith, e, l);
  })
  | inr e ↦ elim (Bool-cases (q.pioneer == (event q 0).timestamp)) [
    | inr e' ↦
        rw (e, e')
          (record {
            due = tt;
            kept = λ kind. omega arith;
            counted = c;
            pioneer = refl;
            none_due = λ l. ground (arith, e');
          })
    | inl e' ↦
        let s = IsPopped-heap_pop q c e in
        let ih =
          fire_loop-IsFired fuel (heap_pop q) (let l = s.less in omega (arith, l, h)) s.counted in
        rw (e, e')
          (record {
            due = (
              sym ((==_iff q.pioneer (event q 0).timestamp).0 e'),
              subst (λ t. All (IsDue t) (fire_loop fuel (heap_pop q)).0) (pioneer-heap_pop q)
                  ih.due,
            );
            kept = λ kind. let a = ih.kept kind in let b = s.kept kind in omega (arith, a, b);
            counted = ih.counted;
            pioneer = ih.pioneer ∙ pioneer-heap_pop q;
            none_due = λ l n. ih.none_due l (n ∙ sym (pioneer-heap_pop q));
          })
  ]
]

-- From any queue that counts the events of its vector, `get_timo` fires only events of the time that
-- the queue is set to, until the first event has another time or none is left. The events fired and
-- those left in the vector are together the events that were in it, each as often, so an event that is
-- to fire again is gone too; and the time that the queue is set to stays the one that has passed.
pub get_timo-IsFired : (q : TimerQueue) → IsCounted q → IsFired q (get_timo q)
unfolding get_timo
get_timo-IsFired q c = fire_loop-IsFired (suc q.time_count) q (omega arith) c
