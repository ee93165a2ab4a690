-- ===== src/Tests/Storage.antt =====
-- Runs and instances for the skip list (engine/tsm/skip_list.h) and the way of values into the queue (engine/tsm/field.cpp,
-- engine/tsm/write.cpp).
use dtime_db.Prelude.{
  ℕ, zero, suc, ltb, replicate, get_elem?, ◌<◌, ◌≤◌, ◌≡◌, refl, true, false, some, none, List, [],
  ◌∷◌, All, arith,
}
use dtime_db.Token.{Text, codes}
use dtime_db.SkipList.{SkipList, ok, Pointer, store, new_skip_list, random_level, max_level, cle}
use dtime_db.SkipList.Cells.{Entry, lead}
use dtime_db.SkipList.Insert.{get-replicate}
use dtime_db.SkipList.Shape.{IsSkipList}
use dtime_db.SkipList.{next_of}
use dtime_db.Prelude.{◌==◌}
use dtime_db.SkipList.Clear.{cle_leaks}
use dtime_db.SkipList.Levels.{random_level-bounds}
use dtime_db.SkipList.Refine.{
  Call, call_put, call_get, call_del, call_cle, call_iterate, call_min, call_max, call_size,
  call_empty, done, found, left, all, number, truth, run_calls, call_points, calls_points,
  run_calls_lem,
}
use dtime_db.Maps.{same_text}
use dtime_db.Field.{QueuedBlock, Moment, should_flush_data}
use dtime_db.Write.{Write}
use dtime_db.Write.Enter.{Entering}
use dtime_db.Write.Entered.{write_all, plain_blocks}
use dtime_db.Write.Queued.{deque_of, HasQueue, write_all_lem, write_all-IsFilled}
use dtime_db.Field.Laws.{IsFilled}

-- Draws that make every node as high as the head, and draws that keep it low.
abbrev high : ℕ → ℕ
high i = 7

abbrev low : ℕ → ℕ
low i = 93

abbrev v : Text
v = codes "v"

abbrev w : Text
w = codes "w"

abbrev calls : List Call
calls =
    call_put high 5 v
    ∷ call_put low 3 w
    ∷ call_put low 5 w
    ∷ call_iterate
    ∷ call_get 5
    ∷ call_max
    ∷ call_del 5
    ∷ call_get 5
    ∷ call_min
    ∷ call_size
    ∷ call_cle
    ∷ call_empty
    ∷ []

run_calls_lem_example :
    run_calls calls new_skip_list
    ≡ ok (
        left v
        ∷ left w
        ∷ left v
        ∷ all ((3, w) ∷ (5, v) ∷ [])
        ∷ found (some v)
        ∷ number 5
        ∷ done
        ∷ found none
        ∷ number 3
        ∷ number 1
        ∷ done
        ∷ truth true
        ∷ [])
unfolding calls_points call_points
run_calls_lem_example = run_calls_lem calls (
  omega arith,
  (omega arith, (omega arith, (tt, (tt, (tt, (tt, (tt, (tt, (tt, (tt, (tt, tt))))))))))),
)

random_level-bounds_example : (0 < random_level high) × (random_level high ≤ max_level)
random_level-bounds_example = random_level-bounds high

abbrev day : Text
day = codes "2024-01-01"

abbrev day_of : ℕ → Text
day_of t = day

abbrev writer : Write
writer = record {
  tb_name = codes "m";
  db_name = codes "d";
  field_map = [];
  data_deque = [];
  index_map = [];
  task_set = [];
  index_task_queue = [];
  mea_shard_map = [];
  files = [];
}

abbrev moment : ℕ → Moment
moment now = record { draw = high; reset_time = 0; flush_time = now; unset = 9 }

-- Two points out of order; the second call comes when the window is due.
abbrev entries : List Entering
entries =
    record {
      moment = moment 1;
      timestamp = 8;
      series_key = codes "s";
      value = v;
      type = 1;
      field_name = codes "f";
      is_monitor_thread = false;
    }
    ∷ record {
      moment = moment 4000000000;
      timestamp = 6;
      series_key = codes "s";
      value = w;
      type = 1;
      field_name = codes "f";
      is_monitor_thread = false;
    }
    ∷ []

abbrev block : QueuedBlock
block = record {
  field_name = codes "f";
  series_key_and_field_name = codes "sf";
  shard_id = day;
  max_timestamp = 8;
  min_timestamp = 6;
  type = 9;
  num = 2;
  timestamps = 6 ∷ 8 ∷ [];
  values = w ∷ v ∷ [];
}

write_all_lem_example : deque_of (write_all day_of entries writer) ≡ ok (block ∷ [])
unfolding plain_blocks should_flush_data same_text
write_all_lem_example = write_all_lem day_of entries writer (omega arith, (omega arith, tt)) refl

write_all-IsFilled_example : HasQueue (All IsFilled) (write_all day_of entries writer)
write_all-IsFilled_example =
    write_all-IsFilled day_of entries writer (omega arith, (omega arith, tt)) refl refl

-- A list with one point, at address 1.
abbrev base : Entry
base = record { addr = 0; key = 0; value = []; level = 32 }

abbrev entry : Entry
entry = record { addr = 1; key = 5; value = v; level = 1 }

abbrev one_point : SkipList
one_point = record {
  cells =
      store
        (store (λ a. none) 0
          (some (record { key = 0; value = []; nexts = some 1 ∷ replicate 31 none })))
        1 (some (record { key = 5; value = v; nexts = none ∷ [] }));
  next_address = 2;
  head = 0;
  bottom_level_node_count = 1;
}

head_leads :
    (i : ℕ)
    → i < 32
    → get_elem? {A = Pointer} (some 1 ∷ replicate 31 none) i ≡ some (lead i (entry ∷ []) none)
unfolding lead
head_leads zero h = refl
head_leads (suc i) h =
    let top : ltb (suc i) 1 ≡ false = ground arith in
    rw top (get-replicate 31 i none (omega (arith, h)))

one_point-IsSkipList : IsSkipList one_point base (entry ∷ [])
unfolding lead
one_point-IsSkipList = record {
  chain = (
    record { nexts = some 1 ∷ replicate 31 none; found = refl; levels = refl; leads = head_leads },
    (
      record {
        nexts = none ∷ [];
        found = refl;
        levels = refl;
        leads = λ i h. let z : i ≡ 0 = omega (arith, h) in rw z refl;
      },
      tt,
    ),
  );
  head = refl;
  top = refl;
  old = omega arith;
  count = refl;
  sorted = (tt, tt);
  sound = (
    record {
      fits = omega arith;
      some_level = omega arith;
      top_level = omega arith;
      old = omega arith;
    },
    tt,
  );
  distinct = ((refl, tt), (tt, tt));
}

cle_leaks_example :
    (after : SkipList) × (cle one_point ≡ ok after)
    × ((i : ℕ) → i < max_level → next_of after.cells after.head i ≡ ok none)
    × ((a : ℕ) → (a == 0) ≡ false → after.cells a ≡ one_point.cells a)
cle_leaks_example = cle_leaks one_point base (entry ∷ []) one_point-IsSkipList
