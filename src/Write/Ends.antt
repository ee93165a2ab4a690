-- ===== src/Write/Ends.antt =====
-- `queue_flush_disk` of engine/tsm/write.cpp ends: what a round takes from the two queues.
use dtime_db.Prelude.{
  ℕ, zero, suc, ◌+◌, ◌*◌, ◌<◌, ◌≤◌, ◌≡◌, refl, ap, ◌∙◌, Bool, Option, none, some, List, [], ◌∷◌,
  length, length-append, Bool-cases, inl, inr, arith,
}
use dtime_db.Token.{Text}
use dtime_db.Tsm.File.{Bytes, Decoded}
use dtime_db.Tsm.Block.{Snappy}
use dtime_db.Write.{
  IndexEntryInfo, should_flush_index, Shard, Field, QueuedBlock, Write, push_task, pop_task,
  pop_data_from_deque, push_index_to_deque, delete, get_shard, index_info, is_empty, member,
}
use dtime_db.Maps.{find, put}
use dtime_db.Write.Round.{
  Answers, Outcome, next, finished, broken, flush_task, flush_block, block_written, after_one,
  FirstPart, goes_on, continues, undefined, flush_index, module_one, mark_meta, push_due_task,
  entry_of, is_full, begin_task, record_block, write_block, choose_file, leave_file, begin_file,
  module_two, round, queue_flush_disk,
}

-- Two for each block and one for each task.
abbrev pub work : Write → ℕ
work w = 2 * length w.data_deque + length w.index_task_queue

-- What module one leaves.
abbrev AfterOne : Write → FirstPart → Type 0
AfterOne w (goes_on w') =
    (w'.data_deque ≡ w.data_deque) × (length w'.index_task_queue ≤ length w.index_task_queue)
AfterOne w (continues w') = work w' < work w
AfterOne w undefined = Unit

abbrev AfterTwo : Write → Outcome → Type 0
AfterTwo w (next w') = work w' < work w
AfterTwo w (finished w') = Unit
AfterTwo w broken = Unit

work-push_task : (name : Text) (w : Write) → work (push_task name w) ≤ suc (work w)
unfolding push_task
work-push_task name w = elim (Bool-cases (member name w.task_set)) [
  | inl e ↦ rw e (omega arith)
  | inr n ↦ rw n (omega (arith, length-append w.index_task_queue (name ∷ [])))
]

work-mark_meta :
    (a : Answers) (name : Text) (field : Field) (w : Write)
    → work (mark_meta a name field w) ≡ work w
unfolding mark_meta
work-mark_meta a name field w = elim (Bool-cases field.mate_status) [ inl e ↦ rw e | inr n ↦ rw n ]

work-push_due_task :
    (a : Answers) (name : Text) (w : Write) → work (push_due_task a name w) ≤ suc (work w)
unfolding push_due_task
work-push_due_task a name w = elim (Bool-cases (should_flush_index a.current_time name w)) [
  | inl e ↦ rw e (work-push_task name w)
  | inr n ↦ rw n (omega arith)
]

work-record_block :
    (a : Answers) (size : ℕ) (field : Field) (b : QueuedBlock) (shard : Shard) (w : Write)
    → work (record_block a size field b shard w) ≤ suc (work w)
unfolding record_block push_index_to_deque
work-record_block a size field b shard w =
    let w1 =
      push_index_to_deque b.shard_id b.field_name (entry_of size b shard.curr_file_head_offset) w in
    let w2 = mark_meta a b.field_name field w1 in
    omega (arith, work-push_due_task a b.field_name w2, work-mark_meta a b.field_name field w1)

block_written-AfterTwo :
    (v : Write) (a : Answers) (result : Decoded ℕ) (field : Field) (b : QueuedBlock) (shard : Shard)
    (w : Write)
    → suc (work w) < work v
    → AfterTwo v (block_written a result field b shard w)
unfolding block_written
block_written-AfterTwo v a (Decoded.ok size) field b shard w h =
    omega (arith, work-record_block a size field b shard w)
block_written-AfterTwo v a Decoded.not_open field b shard w h = tt
block_written-AfterTwo v a Decoded.thrown field b shard w h = tt
block_written-AfterTwo v a Decoded.unspecified field b shard w h = tt
block_written-AfterTwo v a Decoded.out_of_fuel field b shard w h = tt

abbrev pub IsEnd : Outcome → Type 0
IsEnd (next w) = ⊥
IsEnd (finished w) = Unit
IsEnd broken = Unit

module _ (snappy : Snappy) (is_open : Text → Bool) (padding : Bytes) where
  flush_task-AfterOne :
      (name : Text) (info : IndexEntryInfo) (shard : Option Shard) (field : Option Field)
      (w w' : Write)
      → w'.data_deque ≡ w.data_deque
      → length w'.index_task_queue < length w.index_task_queue
      → AfterOne w (flush_task snappy is_open padding name info shard field w')
  unfolding flush_task flush_index
  flush_task-AfterOne name info none field w w' d t = tt
  flush_task-AfterOne name info (some shard) none w w' d t =
      elim (Bool-cases (is_empty info.index_deque)) [
        | inl e ↦ rw e (omega (arith, ap (λ l. length l) d))
        | inr n ↦ rw n tt
      ]
  flush_task-AfterOne name info (some shard) (some field) w w' d t =
      elim (Bool-cases (is_empty info.index_deque)) [
        | inl e ↦ rw e (omega (arith, ap (λ l. length l) d))
        | inr n ↦ rw n (d, omega arith)
      ]

  module_one-AfterOne : (w : Write) → AfterOne w (module_one snappy is_open padding w)
  unfolding module_one begin_task pop_task
  module_one-AfterOne w = go w.index_task_queue refl
    where
      go :
          (q : List Text)
          → w.index_task_queue ≡ q
          → AfterOne w (module_one snappy is_open padding w)
      go [] e = rw e (refl, omega arith)
      go (name ∷ q) e =
          let v = record w { index_task_queue = name ∷ q } in
          let v1 = record w { index_task_queue = q; task_set = delete name w.task_set } in
          let info = index_info name v1 in
          let v2 = record v1 { index_map = put name info w.index_map } in
          rw e (
            flush_task-AfterOne name info (get_shard info.shard_id v2) (find name w.field_map) v v2
              refl (omega arith))

  work-choose_file :
      (path : Text) (size : ℕ) (field : Field) (b : QueuedBlock) (shard : Shard) (w : Write)
      → work (choose_file snappy is_open padding path size field b shard w).1 ≡ work w
  unfolding choose_file leave_file begin_file
  work-choose_file path size field b shard w = elim (Bool-cases (is_full size b shard)) [
    | inl e ↦ rw e
    | inr n ↦ elim (Bool-cases (is_empty shard.curr_file_path)) [
      | inl e ↦ rw (n, e)
      | inr m ↦ rw (n, m)
    ]
  ]

  flush_block-AfterTwo :
      (v : Write) (a : Answers) (b : QueuedBlock) (shard : Option Shard) (field : Option Field)
      (w : Write)
      → suc (work w) < work v
      → AfterTwo v (flush_block snappy is_open padding a b shard field w)
  unfolding flush_block write_block
  flush_block-AfterTwo v a b none field w h = tt
  flush_block-AfterTwo v a b (some shard) none w h = tt
  flush_block-AfterTwo v a b (some shard) (some field) w h =
      block_written-AfterTwo v a _ field b _ _
        (omega (arith, work-choose_file a.new_path _ field b shard w))

  module_two-AfterTwo :
      (a : Answers) (w : Write) → AfterTwo w (module_two snappy is_open padding a w)
  unfolding module_two pop_data_from_deque
  module_two-AfterTwo a w = go w.data_deque refl
    where
      go :
          (q : List QueuedBlock)
          → w.data_deque ≡ q
          → AfterTwo w (module_two snappy is_open padding a w)
      go [] e = rw e tt
      go (b ∷ q) e =
          let v = record w { data_deque = b ∷ q } in
          let v1 = record w { data_deque = q } in
          rw e (
            flush_block-AfterTwo v a b (get_shard b.shard_id v1) (find b.field_name w.field_map) v1
              (omega arith))

  round-AfterTwo : (a : Answers) (w : Write) → AfterTwo w (round snappy is_open padding a w)
  unfolding round after_one
  round-AfterTwo a w = go (module_one snappy is_open padding w) (module_one-AfterOne w)
    where
      go : (o : FirstPart) → AfterOne w o → AfterTwo w (after_one snappy is_open padding a o)
      go (goes_on w1) h =
          less (module_two snappy is_open padding a w1) (omega (arith, ap (λ l. length l) h.0, h.1))
            (module_two-AfterTwo a w1)
        where
          less : (o : Outcome) → work w1 ≤ work w → AfterTwo w1 o → AfterTwo w o
          less (next w2) l h = omega (arith, h)
          less (finished w2) l h = tt
          less broken l h = tt
      go (continues w1) h = h
      go undefined h = tt

  pub loop_next :
      (fuel : ℕ) (answers : ℕ → Answers) (w w1 : Write)
      → round snappy is_open padding (answers fuel) w ≡ next w1
      → queue_flush_disk snappy is_open padding (suc fuel) answers w
        ≡ queue_flush_disk snappy is_open padding fuel answers w1
  unfolding queue_flush_disk
  loop_next fuel answers w w1 e = rw (queue_flush_disk, e)

  pub loop_ends :
      (fuel : ℕ) (answers : ℕ → Answers) (w : Write) (o : Outcome)
      → round snappy is_open padding (answers fuel) w ≡ o
      → IsEnd o
      → queue_flush_disk snappy is_open padding (suc fuel) answers w ≡ some o
  unfolding queue_flush_disk
  loop_ends fuel answers w (next w1) e i = absurd i
  loop_ends fuel answers w (finished w1) e i = rw (queue_flush_disk, e)
  loop_ends fuel answers w broken e i = rw (queue_flush_disk, e)

  -- With a unit of fuel for each waiting task, two for each waiting block, and one more, the loop ends, whatever
  -- the surroundings answer.
  pub queue_flush_disk_ends :
      (fuel : ℕ) (answers : ℕ → Answers) (w : Write)
      → work w < fuel
      → (o : Outcome) × (queue_flush_disk snappy is_open padding fuel answers w ≡ some o) × IsEnd o
  queue_flush_disk_ends zero answers w h = absurd (omega arith)
  queue_flush_disk_ends (suc fuel) answers w h =
      go (λ w1 l. queue_flush_disk_ends fuel answers w1 l)
        (round snappy is_open padding (answers fuel) w) refl (round-AfterTwo (answers fuel) w)
    where
      go :
          ((w1 : Write)
            → work w1 < fuel
            → (o : Outcome) × (queue_flush_disk snappy is_open padding fuel answers w1 ≡ some o)
              × IsEnd o)
          → (o : Outcome) → round snappy is_open padding (answers fuel) w ≡ o
          → AfterTwo w o
          → (o : Outcome) × (queue_flush_disk snappy is_open padding (suc fuel) answers w ≡ some o)
            × IsEnd o
      go rec (next w1) e l =
          let (o, r, i) = rec w1 (omega (arith, h, l)) in (o, loop_next fuel answers w w1 e ∙ r, i)
      go rec (finished w1) e l = (finished w1, loop_ends fuel answers w (finished w1) e tt, tt)
      go rec broken e l = (broken, loop_ends fuel answers w broken e tt, tt)
