-- ===== src/Tests/Timers.antt =====
-- Runs and instances of the timers of server/src/timer_queue.cpp.
use dtime_db.Prelude.{ℕ, ◌-◌, ◌^◌, ◌≡◌, refl, none, some, [], ◌∷◌, map}
use dtime_db.TimerQueue.{
  TimerEvent, TimerQueue, swap_events, min_position, heap_hold, add_timer, heap_add, add_loop,
  reset_timo, get_timo,
}
use dtime_db.TimerQueue.Fired.{IsFired, get_timo-IsFired}

abbrev timer : ℕ → ℕ → TimerEvent
timer id time = record { time_cb = 1; cb_data = 2; timestamp = time; interval = 50; timer_id = id }

-- A queue whose first event is out of order, with three below it.
abbrev late_first : TimerQueue
late_first = record {
  event_lst = timer 0 9 ∷ timer 1 1 ∷ timer 2 2 ∷ timer 3 3 ∷ [];
  position = λ id. some id;
  time_count = 4;
  next_time_id = 4;
  pioneer = 1;
  armed = 1;
}

-- The event of time 9 stays above that of time 3.
late_first_held : map TimerEvent.timestamp (heap_hold 4 0 late_first).event_lst ≡ 1 ∷ 9 ∷ 2 ∷ 3 ∷ []
unfolding heap_hold swap_events min_position
late_first_held = refl

get_timo-IsFired_example : IsFired late_first (get_timo late_first)
get_timo-IsFired_example = get_timo-IsFired late_first refl

abbrev no_timers : TimerQueue
no_timers = record {
  event_lst = [];
  position = λ id. none;
  time_count = 0;
  next_time_id = 0;
  pioneer = 2 ^ 64 - 1;
  armed = 0;
}

two_added :
    map TimerEvent.timestamp (add_timer (timer 0 3) (add_timer (timer 0 7) no_timers).1).1.event_lst
    ≡ 3 ∷ 7 ∷ []
unfolding add_timer heap_add add_loop swap_events reset_timo
two_added = refl
