-- ===== src/TimerQueue.antt =====
-- The timers of server/include/timer_queue.h and server/src/timer_queue.cpp: a binary heap by time, with
-- the place of each timer in it. The proofs are in the module below.
pub mod Hold
pub mod Events
pub mod Fired
use dtime_db.Prelude.{
  ℕ, zero, suc, ◌+◌, ◌-◌, ◌*◌, ◌/◌, ◌%◌, ◌^◌, ◌≡◌, Bool, true, false, Option, none, some, List, [],
  ◌∷◌, ◌++◌, length, get_or, take, ltb, ◌==◌, not, ◌&&◌, ◌||◌, if◌then◌else◌,
}

-- `timer_event`: the callback and its argument are kept as they are.
pub record TimerEvent : Type 0 where
  pub time_cb : ℕ
  pub cb_data : ℕ
  pub timestamp : ℕ
  pub interval : ℕ
  pub timer_id : ℕ

-- `armed` is what `reset_timo` has last set the timer of the system to, in milliseconds; 0 stops it.
pub record TimerQueue : Type 0 where
  pub event_lst : List TimerEvent
  pub position : ℕ → Option ℕ
  pub time_count : ℕ
  pub next_time_id : ℕ
  pub pioneer : ℕ
  pub armed : ℕ

abbrev pub no_event : TimerEvent
no_event = record { time_cb = 0; cb_data = 0; timestamp = 0; interval = 0; timer_id = 0 }

-- `_event_lst[i]`.
abbrev pub event : TimerQueue → ℕ → TimerEvent
event q i = get_or q.event_lst i no_event

abbrev pub set_event : List TimerEvent → ℕ → TimerEvent → List TimerEvent
set_event [] i e = []
set_event (x ∷ xs) zero e = e ∷ xs
set_event (x ∷ xs) (suc i) e = x ∷ set_event xs i e

abbrev pub set_position : ℕ → Option ℕ → (ℕ → Option ℕ) → ℕ → Option ℕ
set_position id pos m j = if j == id then pos else m j

-- Two events change places, and both positions are noted: that of the event now at `i` first.
unfoldable pub swap_events : ℕ → ℕ → TimerQueue → TimerQueue
swap_events i j q =
    let at_i = event q i in
    let at_j = event q j in
    record q {
      event_lst = set_event (set_event q.event_lst i at_j) j at_i;
      position =
          set_position at_i.timer_id (some j) (set_position at_j.timer_id (some i) q.position);
    }

unfoldable pub reset_timo : TimerQueue → TimerQueue
reset_timo q = record q { armed = if q.pioneer == 2 ^ 64 - 1 then 0 else q.pioneer }

-- The loop of `heap_add`. At the root the parent of 0 is 0 again, and no event is before itself.
unfoldable pub add_loop : ℕ → ℕ → TimerQueue → TimerQueue
add_loop zero curr_pos q = q
add_loop (suc fuel) curr_pos q =
    let prt_pos = (curr_pos - 1) / 2 in
    let rest = add_loop fuel prt_pos (swap_events curr_pos prt_pos q) in
    if ltb (event q curr_pos).timestamp (event q prt_pos).timestamp then rest else q

unfoldable pub heap_add : TimerEvent → TimerQueue → TimerQueue
heap_add te q = add_loop (suc q.time_count) q.time_count (record q {
  event_lst = q.event_lst ++ (te ∷ []);
  position = set_position te.timer_id (some q.time_count) q.position;
  time_count = suc q.time_count;
})

-- The place of the earliest of an event and its two children, from the times of the three.
abbrev pub earliest : ℕ → ℕ → ℕ → ℕ → ℕ → ℕ
earliest count pos at_pos at_left at_right =
    if ltb (2 * pos + 1) count && ltb at_left at_pos
    then (if ltb (2 * pos + 2) count && ltb at_right at_left then 2 * pos + 2 else 2 * pos + 1)
    else (if ltb (2 * pos + 2) count && ltb at_right at_pos then 2 * pos + 2 else pos)

unfoldable pub min_position : ℕ → TimerQueue → ℕ
min_position pos q =
    earliest q.time_count pos (event q pos).timestamp (event q (2 * pos + 1)).timestamp
      (event q (2 * pos + 2)).timestamp

-- `heap_hold` calls itself with the same `pos`.
unfoldable pub heap_hold : ℕ → ℕ → TimerQueue → TimerQueue
heap_hold zero pos q = q
heap_hold (suc fuel) pos q =
    let min_pos = min_position pos q in
    let rest = heap_hold fuel pos (swap_events min_pos pos q) in if min_pos == pos then q else rest

unfoldable pub add_timer : TimerEvent → TimerQueue → ℕ × TimerQueue
add_timer te q =
    let te' = record te { timer_id = q.next_time_id } in
    let q' = heap_add te' (record q { next_time_id = suc q.next_time_id }) in
    let first = (event q' 0).timestamp in
    (
      q.next_time_id,
      if ltb first q'.pioneer then reset_timo (record q' { pioneer = first }) else q',
    )

-- The vector without its last element.
abbrev pub pop_back : List TimerEvent → List TimerEvent
pop_back es = take (length es - 1) es

unfoldable pub heap_pop : TimerQueue → TimerQueue
heap_pop q =
    let erased = set_position (event q 0).timer_id none q.position in
    let tmp = event q (q.time_count - 1) in
    if q.time_count == 0
    then q
    else if q.time_count == 1
    then record q { event_lst = []; position = erased; time_count = 0 }
    else heap_hold q.time_count 0 (record q {
      event_lst = pop_back (set_event q.event_lst 0 tmp);
      position = set_position tmp.timer_id (some 0) erased;
      time_count = q.time_count - 1;
    })

unfoldable pub heap_del : ℕ → TimerQueue → TimerQueue
heap_del pos q =
    let to_del = event q pos in
    let tmp = event q (q.time_count - 1) in
    heap_hold q.time_count pos (record q {
      event_lst = pop_back (set_event q.event_lst pos tmp);
      position =
          set_position to_del.timer_id none (set_position tmp.timer_id (some pos) q.position);
      time_count = q.time_count - 1;
    })

unfoldable pub del_timer : ℕ → TimerQueue → TimerQueue
del_timer id q = elim (q.position id) [
  | none ↦ q
  | some pos ↦
      let q' = heap_del pos q in
      let first = (event q' 0).timestamp in
      if q'.time_count == 0
      then reset_timo (record q' { pioneer = 2 ^ 64 - 1 })
      else if ltb first q'.pioneer
      then reset_timo (record q' { pioneer = first })
      else q'
]

-- The loop of `get_timo`: an event that is to fire again is put on a list that ends with the call.
unfoldable pub fire_loop : ℕ → TimerQueue → List TimerEvent × TimerQueue
fire_loop zero q = ([], q)
fire_loop (suc fuel) q =
    let rest = fire_loop fuel (heap_pop q) in
    if (q.time_count == 0) || not (q.pioneer == (event q 0).timestamp)
    then ([], q)
    else (event q 0 ∷ rest.0, rest.1)

unfoldable pub get_timo : TimerQueue → List TimerEvent × TimerQueue
get_timo q = fire_loop (suc q.time_count) q
