-- ===== src/Tests/Files.antt =====
-- Instances for the TSM files (engine/tsm), with a compressor that stores its input.
use dtime_db.Prelude.{ℕ, ◌+◌, ◌≡◌, refl, true, List, [], ◌∷◌, ◌++◌, arith, length, replicate}
use dtime_db.Tsm.File.{Bytes, ok, out_of_fuel, write_at}
use dtime_db.Tsm.File.Stored.{IsStored-write_at}
use dtime_db.Tsm.Timestamps.{calculate_differences, serialize_differences, deserialize_differences}
use dtime_db.Tsm.Timestamps.RoundTrip.{deserialize_differences-serialize}
use dtime_db.Tsm.Strings.{serialize_strings, deserialize_strings, strings_loop}
use dtime_db.Tsm.Strings.RoundTrip.{deserialize_strings-serialize}
use dtime_db.Tsm.Strings.Negative.{minus_four, negative_length_loops}
use dtime_db.Tsm.Block.{
  Snappy, read_data_from_file, write_data_to_file, calculate_timestamp_size, calculate_val_size,
}
use dtime_db.Tsm.Block.RoundTrip.{
  IsStorable, column_bytes, stored_block, read_data-write_data, write_data_next,
}
use dtime_db.Tsm.Index.{data_string, data_float, load_tsm_index_entry}
use dtime_db.Tsm.Index.Flush.{Task, IsTask, run_tasks, blocks_after, load-run_tasks}
use dtime_db.Tsm.Layout.{read_data-run_tasks}

abbrev pub storing : Snappy
storing = record { compress = λ s. s; uncompress = λ s. (true, s); uncompress-compress = λ s. refl }

abbrev pub times : List ℕ
times = 1_700_000_000 ∷ 1_700_000_060 ∷ 1_600_000_000 ∷ []

abbrev pub texts : List Bytes
texts = (65 ∷ 66 ∷ []) ∷ [] ∷ (67 ∷ []) ∷ []

times_and_back : deserialize_differences (serialize_differences times) ≡ ok times
unfolding deserialize_differences serialize_differences
times_and_back = refl

deserialize_differences-serialize_example :
    deserialize_differences (serialize_differences times) ≡ ok times
deserialize_differences-serialize_example = deserialize_differences-serialize times (omega arith)

abbrev eight_bytes : Bytes
eight_bytes = 7 ∷ 1 ∷ 0 ∷ 0 ∷ 0 ∷ 0 ∷ 0 ∷ 0 ∷ []

eight_bytes_read : deserialize_differences eight_bytes ≡ ok (263 ∷ [])
unfolding deserialize_differences
eight_bytes_read = refl

texts_size : length (serialize_strings texts) ≡ 15
unfolding serialize_strings
texts_size = refl

deserialize_strings-serialize_example : deserialize_strings (serialize_strings texts) ≡ ok texts
deserialize_strings-serialize_example =
    deserialize_strings-serialize texts (omega arith) (omega (arith, texts_size))

negative_length_loops_example : strings_loop 1000 (minus_four ++ (1 ∷ 2 ∷ [])) 0 [] ≡ out_of_fuel
negative_length_loops_example = negative_length_loops (1 ∷ 2 ∷ []) 1000 []

pub texts-IsStorable : IsStorable storing 1 3 times texts
unfolding calculate_timestamp_size calculate_val_size serialize_strings serialize_differences
    calculate_differences
texts-IsStorable = record {
  type_fits = omega arith;
  num_fits = omega arith;
  timestamps_fit = omega arith;
  values_fit = omega arith;
  text_fits = omega arith;
  timestamps_short = omega arith;
  values_short = omega arith;
}

read_data-write_data_example :
    read_data_from_file storing true
      (write_data_to_file storing true 1 3
        (calculate_timestamp_size storing times)
        (calculate_val_size storing texts)
        []
        5).0
      5
    ≡ ok (stored_block storing 1 3 times texts)
read_data-write_data_example = read_data-write_data storing 1 3 times texts [] 5 texts-IsStorable

abbrev pub one_block : Bytes
one_block = write_at 5 (column_bytes storing 1 3 times texts) []

pub block_size : length (column_bytes storing 1 3 times texts) ≡ 55
unfolding calculate_timestamp_size calculate_val_size serialize_strings serialize_differences
    calculate_differences
block_size = refl

write_data_next_example :
    let r =
      write_data_to_file storing true 1 3
        (calculate_timestamp_size storing times)
        (calculate_val_size storing texts)
        one_block
        60 in
    (r.1 ≡ ok (length (column_bytes storing 1 3 times texts)))
    × (read_data_from_file storing true r.0 5 ≡ ok (stored_block storing 1 3 times texts))
    × (read_data_from_file storing true r.0 60 ≡ ok (stored_block storing 1 3 times texts))
write_data_next_example =
    write_data_next storing 1 3 times texts 1 3 times texts one_block 60 texts-IsStorable
      texts-IsStorable (IsStored-write_at 5 (column_bytes storing 1 3 times texts) [])
      (omega (arith, block_size))

abbrev pub first_task : Task
first_task = record {
  type = data_string;
  meta_key = 99 ∷ 112 ∷ 117 ∷ [];
  entry = record { max_time = 9; min_time = 4; offset = 5; size = 55 };
  entries = [];
}

abbrev pub second_task : Task
second_task = record {
  type = data_float;
  meta_key = 116 ∷ [];
  entry = record { max_time = 20; min_time = 10; offset = 60; size = 40 };
  entries = record { max_time = 30; min_time = 21; offset = 100; size = 41 } ∷ [];
}

pub first-IsTask : IsTask first_task
first-IsTask = record {
  key_fits = omega arith;
  key_text = omega arith;
  count_fits = omega arith;
  entries_fit = omega arith;
}

pub second-IsTask : IsTask second_task
second-IsTask = record {
  key_fits = omega arith;
  key_text = omega arith;
  count_fits = omega arith;
  entries_fit = omega arith;
}

abbrev blank : Bytes
blank = replicate 512 0

load-run_tasks_example :
    load_tsm_index_entry true (run_tasks (first_task ∷ second_task ∷ []) (blank, 504)).0
    ≡ ok (blocks_after (first_task ∷ second_task ∷ []) [])
load-run_tasks_example =
    load-run_tasks first_task (second_task ∷ []) blank 504 refl (omega arith)
      (first-IsTask, (second-IsTask, tt)) (omega arith)

abbrev pub block_in_file : Bytes
block_in_file = write_at 5 (column_bytes storing 1 3 times texts) blank

pub block_in_file_size : length block_in_file ≡ 504 + 8
unfolding write_at calculate_timestamp_size calculate_val_size serialize_strings
    serialize_differences calculate_differences
block_in_file_size = refl

read_data-run_tasks_example :
    read_data_from_file storing true
      (run_tasks (first_task ∷ second_task ∷ []) (block_in_file, 504)).0
      5
    ≡ ok (stored_block storing 1 3 times texts)
read_data-run_tasks_example =
    read_data-run_tasks storing 1 3 times texts (first_task ∷ second_task ∷ []) block_in_file 504 5
      texts-IsStorable block_in_file_size (omega arith) (first-IsTask, (second-IsTask, tt))
      (omega (arith, block_size)) (IsStored-write_at 5 (column_bytes storing 1 3 times texts) blank)
