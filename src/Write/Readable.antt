-- ===== src/Write/Readable.antt =====
-- What `write_block`, the part of module two of `queue_flush_disk` (engine/tsm/write.cpp) that writes a block, leaves in the
-- file and in the index map.
use dtime_db.Prelude.{
  ℕ, ◌+◌, ◌%◌, ◌^◌, ◌≡◌, ap, ◌∙◌, Bool, true, false, [], ◌∷◌, ◌++◌, length, ltb, Bool-cases, inl,
  inr,
}
use dtime_db.Token.{Text}
use dtime_db.Maps.{find}
use dtime_db.Maps.Laws.{find-put}
use dtime_db.Tsm.File.{Bytes, Decoded}
use dtime_db.Tsm.Block.{Snappy, read_data_from_file, calculate_timestamp_size, calculate_val_size}
use dtime_db.Tsm.Block.RoundTrip.{IsStorable, stored_block, read_data-write_data}
use dtime_db.Write.{
  Shard, Field, QueuedBlock, Write, push_index_to_deque, push_task, should_flush_index, member,
  is_empty, index_info, with_entry,
}
use dtime_db.Write.Round.{
  Answers, next, content, set_file, file_at, mark_meta, push_due_task, entry_of, record_block,
  block_written, write_block,
}
use dtime_db.Write.Margin.{deque_in, waiting}
use dtime_db.Write.Growth.{push_due_task_maps, deque_info}
use dtime_db.Write.Account.{block_result, block_file, predict, stays, write_block-eq, written_size}

files-push_due_task :
    (a : Answers) (name : Text) (w : Write) → (push_due_task a name w).files ≡ w.files
unfolding push_due_task push_task
files-push_due_task a name w = elim (Bool-cases (should_flush_index a.current_time name w)) [
  | inr n ↦ rw n
  | inl y ↦ elim (Bool-cases (member name w.task_set)) [ inl s ↦ rw (y, s) | inr s ↦ rw (y, s) ]
]

files-mark_meta :
    (a : Answers) (name : Text) (field : Field) (w : Write)
    → (mark_meta a name field w).files ≡ w.files
unfolding mark_meta
files-mark_meta a name field w = elim (Bool-cases field.mate_status) [ inl e ↦ rw e | inr e ↦ rw e ]

-- Marking the meta leaves the entries that wait.
waiting-mark_meta :
    (a : Answers) (name : Text) (field : Field) (w : Write)
    → waiting name (mark_meta a name field w).index_map ≡ waiting name w.index_map
unfolding mark_meta
waiting-mark_meta a name field w = elim (Bool-cases field.mate_status) [
  | inl e ↦ rw e
  | inr e ↦ rw e (
      ap deque_in (find-put name (record (index_info name w) { last_time = a.now }) w.index_map)
      ∙ deque_info (find name w.index_map))
]

pub files-record_block :
    (a : Answers) (n : ℕ) (field : Field) (b : QueuedBlock) (shard : Shard) (w : Write)
    → (record_block a n field b shard w).files ≡ w.files
unfolding record_block push_index_to_deque
files-record_block a n field b shard w =
    let w1 =
      push_index_to_deque b.shard_id b.field_name (entry_of n b shard.curr_file_head_offset) w in
    files-push_due_task a b.field_name (mark_meta a b.field_name field w1)
    ∙ files-mark_meta a b.field_name field w1

-- The entry of the block waits behind the others.
waiting-record_block :
    (a : Answers) (n : ℕ) (field : Field) (b : QueuedBlock) (shard : Shard) (w : Write)
    → waiting b.field_name (record_block a n field b shard w).index_map
      ≡ waiting b.field_name w.index_map ++ (entry_of n b shard.curr_file_head_offset ∷ [])
unfolding record_block push_index_to_deque
waiting-record_block a n field b shard w =
    let e = entry_of n b shard.curr_file_head_offset in
    let w1 = push_index_to_deque b.shard_id b.field_name e w in
    ap (λ m. waiting b.field_name m)
      (push_due_task_maps a b.field_name (mark_meta a b.field_name field w1)).0
    ∙ waiting-mark_meta a b.field_name field w1
    ∙ ap deque_in
        (find-put b.field_name (with_entry b.shard_id e (index_info b.field_name w)) w.index_map)
    ∙ ap (λ l. l ++ (e ∷ [])) (deque_info (find b.field_name w.index_map))

module _ (snappy : Snappy) (is_open : Text → Bool) (padding : Bytes) where
  -- A storable block that the test for the margin lets into the current file, and whose write returns a size, is followed by
  -- the next round; after it the block is read back from the head offset of before, and the last of the entries of
  -- its field that wait has this offset, the size, and the times of the block.
  pub write_block_readable :
      (a : Answers) (field : Field) (b : QueuedBlock) (shard : Shard) (w : Write) (n : ℕ)
      → IsStorable snappy b.type b.num b.timestamps b.values
      → is_empty shard.curr_file_path ≡ false
      → is_open shard.curr_file_path ≡ true
      → ltb shard.curr_file_margin (n + 40 + length b.series_key_and_field_name) ≡ false
      → block_result snappy is_open padding b shard w ≡ Decoded.ok n
      → (w' : Write) × (write_block snappy is_open padding a field b shard w ≡ next w')
        × (read_data_from_file snappy true
              (file_at shard.curr_file_path w')
              shard.curr_file_head_offset
            ≡ Decoded.ok (stored_block snappy b.type b.num b.timestamps b.values))
        × (waiting b.field_name w'.index_map
            ≡ waiting b.field_name w.index_map
              ++ (record {
                max_time = b.max_timestamp;
                min_time = b.min_timestamp;
                offset = shard.curr_file_head_offset;
                size = n % 2 ^ 32;
              }
                  ∷ []))
  unfolding block_written
  write_block_readable a field b shard w n storable path opened fits result =
      let predicted =
        written_size snappy b.type b.num (calculate_timestamp_size snappy b.timestamps)
          (calculate_val_size snappy b.values) (file_at shard.curr_file_path w)
          shard.curr_file_head_offset n result in
      let enough =
        ap (λ k. ltb shard.curr_file_margin (k + 40 + length b.series_key_and_field_name)) predicted
        ∙ fits in
      let f = block_file snappy is_open padding b shard w in
      let w1 = set_file shard.curr_file_path f w in
      let file : file_at shard.curr_file_path (record_block a n field b shard w1) ≡ f =
        ap (λ m. content (find shard.curr_file_path m)) (files-record_block a n field b shard w1)
        ∙ ap content (find-put shard.curr_file_path f w.files) in
      (
        record_block a n field b shard w1,
        write_block-eq snappy is_open padding a field b shard w
              (stays snappy is_open padding a.new_path (predict snappy is_open padding b) field b
                shard w path enough)
              opened
            ∙ ap (λ r. block_written a r field b shard w1) result,
        ap (λ g. read_data_from_file snappy true g shard.curr_file_head_offset) file
            ∙ read_data-write_data snappy b.type b.num b.timestamps b.values
                (file_at shard.curr_file_path w) shard.curr_file_head_offset storable,
        waiting-record_block a n field b shard w1,
      )
