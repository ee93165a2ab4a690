-- ===== src/Tests/Flushing.antt =====
-- Instances for the writer of a table (engine/tsm/write.cpp).
use dtime_db.Prelude.{
  ℕ, ◌+◌, ◌%◌, ◌^◌, ◌≤◌, ◌++◌, ◌≡◌, refl, sym, ap, ◌∙◌, Bool, not, true, false, some, none, List,
  [], ◌∷◌, arith, length, Bool-cases, inl, inr,
}
use dtime_db.Token.{Text, codes}
use dtime_db.Maps.{find, same_text, same_text-eq, total}
use dtime_db.Tsm.File.{Bytes, Decoded}
use dtime_db.Tsm.Block.RoundTrip.{stored_block, column_bytes, write_data_next}
use dtime_db.Tsm.File.Stored.{IsStored, IsStored-write_at}
use dtime_db.Tsm.Index.{IndexEntry, data_string, load_tsm_index_entry}
use dtime_db.Tsm.Index.Flush.{Task, IsTask, block_of}
use dtime_db.Tsm.Block.{read_data_from_file, calculate_timestamp_size, calculate_val_size}
use dtime_db.Tsm.Strings.{serialize_strings}
use dtime_db.Tsm.Timestamps.{serialize_differences, calculate_differences}
use dtime_db.Write.Safe.{IsWaiting, flush_index_safe}
use dtime_db.Write.First.{write_block_first}
use dtime_db.Write.Readable.{write_block_readable}
use dtime_db.Write.{
  Shard, Field, IndexEntryInfo, QueuedBlock, Write, create_tsm_file_init, is_empty, member, delete,
  push_task, pop_task,
}
use dtime_db.Write.Round.{
  Answers, Outcome, next, file_at, flush_index, write_block, module_one, queue_flush_disk,
}
use dtime_db.Write.Ends.{queue_flush_disk_ends, IsEnd}
use dtime_db.Write.Margin.{waiting, IsAccounted}
use dtime_db.Write.Account.{predict, write_block-IsAccounted, shard_after, block_result}
use dtime_db.Write.Tasks.{AccountedPart, module_one-IsAccounted}
use dtime_db.Write.Registered.{
  TaskCall, push, pop, run_calls, plain_calls, IsRegistered, run_calls-plain,
}
use dtime_db.Tests.Files.{
  storing, times, texts, one_block, block_in_file, block_in_file_size, block_size, texts-IsStorable,
}

abbrev day : Text
day = codes "2024-01-01"

abbrev temperature : Text
temperature = codes "t"

abbrev always : Text → Bool
always path = true

abbrev answers : Answers
answers = record { new_path = codes "n"; now = 3; current_time = 7 }

abbrev field : Field
field = record {
  name = temperature;
  type = 1;
  index_block_meta_key = temperature;
  mate_status = false;
  shard_skip_map = [];
}

abbrev block : QueuedBlock
block = record {
  field_name = temperature;
  series_key_and_field_name = temperature;
  shard_id = day;
  max_timestamp = 9;
  min_timestamp = 2;
  type = 1;
  num = 3;
  timestamps = times;
  values = texts;
}

abbrev shard : Shard
shard = record {
  database_name = codes "db";
  measurement = codes "school";
  shard_id = day;
  tsm_file = codes "f" ∷ [];
  curr_file_path = codes "f";
  curr_file_margin = 444;
  curr_file_head_offset = 60;
  curr_file_tail_offset = 504;
}

abbrev writer : Write
writer = record {
  tb_name = codes "school";
  db_name = codes "db";
  field_map = (temperature, field) ∷ [];
  data_deque = block ∷ [];
  index_map = [];
  task_set = [];
  index_task_queue = [];
  mea_shard_map = (day, shard) ∷ [];
  files = (codes "f", one_block) ∷ [];
}

queue_flush_disk_ends_example :
    (o : Outcome) × (queue_flush_disk storing always [] 3 (λ k. answers) writer ≡ some o) × IsEnd o
queue_flush_disk_ends_example =
    queue_flush_disk_ends storing always [] 3 (λ k. answers) writer (omega arith)

only :
    {V : Type 0} (name k : Text) (v g : V) → find k ((name, v) ∷ []) ≡ some g → (k ≡ name) × (g ≡ v)
unfolding find
only {V} name k v g e = elim (Bool-cases (same_text k name)) [
  | inl s ↦
      let found : find k ((name, v) ∷ []) ≡ some v = rw s in
      (same_text-eq k name s, some_eq (sym e ∙ found))
  | inr n ↦
      let nothing : find k ((name, v) ∷ []) ≡ none = rw n in absurd (no_some (sym nothing ∙ e))
]
  where
    some_eq : {a b : V} → some a ≡ some b → a ≡ b
    some_eq e = cc

    no_some : none ≡ some g → ⊥
    no_some e = cc

writer-IsAccounted : IsAccounted day shard writer
unfolding find same_text total
writer-IsAccounted = record {
  found = refl;
  is_id = refl;
  one_shard = λ k info e. absurd (no_some e);
  unique = tt;
  marked = λ k g e. ap (λ (f : Field). f.mate_status) (only temperature k field g e).1;
  room = refl;
  small = omega arith;
}
  where
    no_some : {info : IndexEntryInfo} → none ≡ some info → ⊥
    no_some e = cc

block_size_lem : block_result storing always [] block shard writer ≡ Decoded.ok 55
unfolding find same_text
block_size_lem =
    (write_data_next storing 1 3 times texts 1 3 times texts one_block 60 texts-IsStorable
      texts-IsStorable (IsStored-write_at 5 (column_bytes storing 1 3 times texts) [])
      (omega (arith, block_size))).0
    ∙ ap (λ n. Decoded.ok n) block_size

write_block-IsAccounted_example :
    (w' : Write) × (write_block storing always [] answers field block shard writer ≡ next w')
    × IsAccounted day (shard_after 55 field shard) w'
unfolding find same_text
write_block-IsAccounted_example =
    write_block-IsAccounted storing always [] answers field block shard writer 55 writer-IsAccounted
      refl (omega arith) refl refl refl block_size_lem

abbrev entry : IndexEntry
entry = record { max_time = 9; min_time = 2; offset = 5; size = 55 }

abbrev info : IndexEntryInfo
info = record { last_time = 3; index_deque = entry ∷ []; shard_id = day }

abbrev marked_field : Field
marked_field = record field { mate_status = true }

-- One entry of the field waits, and it is the field's turn.
abbrev waiting_writer : Write
waiting_writer = record writer {
  field_map = (temperature, marked_field) ∷ [];
  index_map = (temperature, info) ∷ [];
  task_set = temperature ∷ [];
  index_task_queue = temperature ∷ [];
  mea_shard_map = (day, record shard { curr_file_margin = 407 }) ∷ [];
  files = (codes "f", block_in_file) ∷ [];
}

waiting_writer-IsAccounted :
    IsAccounted day (record shard { curr_file_margin = 407 }) waiting_writer
unfolding find same_text total
waiting_writer-IsAccounted = record {
  found = refl;
  is_id = refl;
  one_shard =
      λ k i e. inl (ap (λ (j : IndexEntryInfo). j.shard_id) (only temperature k info i e).1);
  unique = (refl, tt);
  marked = λ k g e.
      let (is_name, is_field) = only temperature k marked_field g e in
      ap (λ (f : Field). f.mate_status) is_field
      ∙ sym (ap (λ t. not (is_empty (waiting t waiting_writer.index_map))) is_name);
  room = refl;
  small = omega arith;
}

module_one-IsAccounted_example :
    AccountedPart day
      (record shard { curr_file_margin = 407 })
      (module_one storing always [] waiting_writer)
module_one-IsAccounted_example =
    module_one-IsAccounted storing always [] day (record shard { curr_file_margin = 407 })
      waiting_writer waiting_writer-IsAccounted

abbrev task : Task
task = record { type = data_string; meta_key = temperature; entry = entry; entries = [] }

task-IsWaiting : IsWaiting temperature task info marked_field waiting_writer
unfolding find same_text
task-IsWaiting = record { at_name = refl; at_field = refl; entries = refl; key = refl; type = refl }

task-IsTask : IsTask task
task-IsTask = record {
  key_fits = omega arith;
  key_text = omega arith;
  count_fits = omega arith;
  entries_fit = omega arith;
}

waiting_file : file_at (codes "f") waiting_writer ≡ block_in_file
unfolding find same_text
waiting_file = refl

flush_index_safe_example :
    let f = file_at (codes "f") (
      flush_index storing always [] temperature info
        (record shard { curr_file_margin = 407 })
        marked_field
        waiting_writer) in
    (load_tsm_index_entry true f ≡ Decoded.ok (block_of task ∷ []))
    × ((off : ℕ) (data_bytes : Bytes)
        → off + length data_bytes ≤ 60
        → IsStored (file_at (codes "f") waiting_writer) off data_bytes
        → IsStored f off data_bytes)
flush_index_safe_example =
    flush_index_safe storing always [] day temperature task info
      (record shard { curr_file_margin = 407 }) marked_field waiting_writer 504 []
      waiting_writer-IsAccounted task-IsWaiting task-IsTask refl
      (ap (λ f. length f) waiting_file ∙ block_in_file_size) refl

write_block_readable_example :
    (w' : Write) × (write_block storing always [] answers field block shard writer ≡ next w')
    × (read_data_from_file storing true (file_at (codes "f") w') 60
        ≡ Decoded.ok (stored_block storing 1 3 times texts))
    × (waiting temperature w'.index_map
        ≡ waiting temperature writer.index_map
          ++ (record { max_time = 9; min_time = 2; offset = 60; size = 55 % 2 ^ 32 } ∷ []))
write_block_readable_example =
    write_block_readable storing always [] answers field block shard writer 55 texts-IsStorable refl
      refl refl block_size_lem

-- A shard that has no file yet.
abbrev fresh : Shard
fresh = record shard {
  tsm_file = [];
  curr_file_path = [];
  curr_file_margin = 0;
  curr_file_head_offset = 0;
  curr_file_tail_offset = 0;
}

abbrev fresh_writer : Write
fresh_writer = record writer { mea_shard_map = (day, fresh) ∷ []; files = [] }

predicted : predict storing always [] block ≡ 55
unfolding calculate_timestamp_size calculate_val_size serialize_strings serialize_differences
    calculate_differences
predicted = refl

write_block_first_example :
    (w' : Write) × (write_block storing always [] answers field block fresh fresh_writer ≡ next w')
    × IsAccounted day
        (shard_after
          (predict storing always [] block)
          field
          (create_tsm_file_init (codes "n") fresh))
        w'
    × (read_data_from_file storing true (file_at (codes "n") w') 5
        ≡ Decoded.ok (stored_block storing 1 3 times texts))
unfolding find same_text
write_block_first_example =
    write_block_first storing always [] answers field block fresh fresh_writer texts-IsStorable refl
      refl (λ k g e. ap (λ (f : Field). f.mate_status) (only temperature k field g e).1) refl
      (omega arith) refl refl (omega (arith, predicted))

writer-IsRegistered : IsRegistered writer
unfolding member
writer-IsRegistered = record { once = tt; same = λ k. refl }

abbrev calls : List TaskCall
calls = push temperature ∷ push day ∷ push temperature ∷ pop ∷ pop ∷ pop ∷ []

run_calls-plain_example :
    ((run_calls calls writer).0 ≡ (plain_calls calls []).0)
    × ((run_calls calls writer).1.index_task_queue ≡ (plain_calls calls []).1)
    × IsRegistered (run_calls calls writer).1
run_calls-plain_example = run_calls-plain calls writer writer-IsRegistered

calls_return : (run_calls calls writer).0 ≡ temperature ∷ day ∷ [] ∷ []
unfolding run_calls push_task pop_task member delete same_text
calls_return = refl
