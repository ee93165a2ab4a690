-- ===== src/Tests/Created.antt =====
-- Instances for new TSM files (engine/tsm/tsm.cpp, engine/tsm/write.cpp).
use dtime_db.Prelude.{◌≡◌, ◌≢◌, refl, true, [], ◌∷◌, arith, take, drop}
use dtime_db.Tsm.File.{Bytes, ok}
use dtime_db.Tsm.Block.{
  read_data_from_file, write_data_to_file, calculate_timestamp_size, calculate_val_size,
}
use dtime_db.Tsm.Block.RoundTrip.{stored_block}
use dtime_db.Tsm.Index.{load_tsm_index_entry}
use dtime_db.Tsm.Index.Flush.{run_tasks, blocks_after}
use dtime_db.Tsm.Create.{read_header_from_file, new_file}
use dtime_db.Tsm.Create.Life.{new_file_life}
use dtime_db.Tsm.Create.Unflushed.{unflushed_not_empty}
use dtime_db.Tests.Files.{
  storing, times, texts, texts-IsStorable, block_size, first_task, second_task, first-IsTask,
  second-IsTask,
}

abbrev padding : Bytes
padding = 9 ∷ 8 ∷ 7 ∷ []

margin_499 : (new_file padding).margin ≡ 499
unfolding new_file
margin_499 = refl

abbrev flushed : Bytes
flushed =
    (run_tasks (first_task ∷ second_task ∷ []) (
      (write_data_to_file storing true 1 3 (calculate_timestamp_size storing times)
          (calculate_val_size storing texts) (new_file padding).file
          (new_file padding).head_offset).0,
      (new_file padding).tail_offset,
    )).0

new_file_life_example :
    (load_tsm_index_entry true flushed ≡ ok (blocks_after (first_task ∷ second_task ∷ []) []))
    × (read_data_from_file storing true flushed (new_file padding).head_offset
        ≡ ok (stored_block storing 1 3 times texts))
    × (read_header_from_file true flushed
        ≡ ok (record { magic = 1; version = 1; padding = take 3 (drop 5 flushed) }))
new_file_life_example =
    new_file_life storing padding 1 3 times texts first_task (second_task ∷ []) refl
      texts-IsStorable (first-IsTask, (second-IsTask, tt)) (omega (arith, block_size, margin_499))

unflushed_not_empty_example :
    load_tsm_index_entry true
      (write_data_to_file storing true 1 3
        (1 ∷ [])
        (2 ∷ [])
        (new_file padding).file
        (new_file padding).head_offset).0
    ≢ ok []
unflushed_not_empty_example =
    unflushed_not_empty storing padding 1 3 (1 ∷ []) (2 ∷ []) refl (omega (arith, margin_499))
