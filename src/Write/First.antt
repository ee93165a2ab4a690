-- ===== src/Write/First.antt =====
-- The first block of a shard that has no file yet: module two of `queue_flush_disk` (engine/tsm/write.cpp) begins a file.
use dtime_db.Prelude.{
  ℕ, ◌+◌, ◌≤◌, ◌≡◌, refl, ap, ◌∙◌, Bool, true, false, none, some, List, [], length, le→ltb, arith,
}
use dtime_db.Token.{Text}
use dtime_db.Maps.{find, total}
use dtime_db.Maps.Laws.{find-put}
use dtime_db.Tsm.File.{Bytes, Decoded}
use dtime_db.Tsm.Block.{
  Snappy, read_data_from_file, write_data_to_file, calculate_timestamp_size, calculate_val_size,
}
use dtime_db.Tsm.Block.RoundTrip.{IsStorable, stored_block, read_data-write_data}
use dtime_db.Write.{
  IndexEntryInfo, Shard, Field, QueuedBlock, Write, is_empty, create_tsm_file_init,
}
use dtime_db.Write.Round.{
  Answers, next, content, file_at, set_file, size_of, begin_file, choose_file, record_block,
  block_written, write_block,
}
use dtime_db.Write.Margin.{IsMarked, IsAccounted}
use dtime_db.Write.Account.{
  IsRoomy, shard_after, record_block-IsAccounted, room_left, predict, block_result, block_file,
}
use dtime_db.Write.Readable.{files-record_block}

-- A storable block at offset 5, where the check of the write reads, returns its size.
first_result :
    (snappy : Snappy) (type num : ℕ) (ts : List ℕ) (vs : List Bytes) (f : Bytes)
    → IsStorable snappy type num ts vs
    → (write_data_to_file snappy true type num
        (calculate_timestamp_size snappy ts)
        (calculate_val_size snappy vs)
        f
        5).1
      ≡ Decoded.ok (size_of (calculate_timestamp_size snappy ts) (calculate_val_size snappy vs))
unfolding write_data_to_file
first_result snappy type num ts vs f h = rw (read_data-write_data snappy type num ts vs f 5 h)

module _ (snappy : Snappy) (is_open : Text → Bool) (padding : Bytes) where
  -- The writer with the new file.
  abbrev begun : Text → Shard → Write → Write
  begun path shard w = (begin_file snappy is_open padding path shard w).1

  chooses :
      (path : Text) (size : ℕ) (field : Field) (b : QueuedBlock) (shard : Shard) (w : Write)
      → is_empty shard.curr_file_path ≡ true
      → choose_file snappy is_open padding path size field b shard w
        ≡ (create_tsm_file_init path shard, begun path shard w)
  unfolding choose_file begin_file
  chooses path size field b shard w empty = rw empty

  write_first-eq :
      (a : Answers) (field : Field) (b : QueuedBlock) (shard shard1 : Shard) (w w1 : Write)
      → choose_file snappy is_open padding a.new_path
          (predict snappy is_open padding b)
          field
          b
          shard
          w
        ≡ (shard1, w1)
      → is_open shard1.curr_file_path ≡ true
      → write_block snappy is_open padding a field b shard w
        ≡ block_written a
            (block_result snappy is_open padding b shard1 w1)
            field
            b
            shard1
            (set_file shard1.curr_file_path (block_file snappy is_open padding b shard1 w1) w1)
  unfolding write_block
  write_first-eq a field b shard shard1 w w1 chosen opened = rw (write_block, chosen, opened)

  begun-IsRoomy :
      (id path : Text) (shard : Shard) (w : Write) (f : Bytes)
      → is_empty id ≡ false
      → w.index_map ≡ []
      → IsMarked w.field_map []
      → IsRoomy id (create_tsm_file_init path shard) (set_file path f (begun path shard w))
  unfolding begin_file create_tsm_file_init total find
  begun-IsRoomy id path shard w f is_id empty marked = rw empty (record {
    is_id = is_id;
    one_shard = λ k i e. absurd (no_some e);
    unique = tt;
    marked = marked;
    room = refl;
    small = omega arith;
  })
    where
      no_some : {i : IndexEntryInfo} → none ≡ some i → ⊥
      no_some e = cc

  -- The first storable block of a shard without a file, of a known field with a key no longer than the one that the
  -- block has, when no entries wait and no field is marked, and the new file opens and has room for the block: the
  -- next round follows, the room in the new file is accounted for, and the block is read back from offset 5.
  pub write_block_first :
      (a : Answers) (field : Field) (b : QueuedBlock) (shard : Shard) (w : Write)
      → IsStorable snappy b.type b.num b.timestamps b.values
      → is_empty b.shard_id ≡ false
      → w.index_map ≡ []
      → IsMarked w.field_map []
      → find b.field_name w.field_map ≡ some field
      → length field.index_block_meta_key ≤ length b.series_key_and_field_name
      → is_empty shard.curr_file_path ≡ true
      → is_open a.new_path ≡ true
      → predict snappy is_open padding b + 40 + length b.series_key_and_field_name ≤ 499
      → (w' : Write) × (write_block snappy is_open padding a field b shard w ≡ next w')
        × IsAccounted b.shard_id
            (shard_after
              (predict snappy is_open padding b)
              field
              (create_tsm_file_init a.new_path shard))
            w'
        × (read_data_from_file snappy true (file_at a.new_path w') 5
            ≡ Decoded.ok (stored_block snappy b.type b.num b.timestamps b.values))
  unfolding create_tsm_file_init begin_file block_written
  write_block_first a field b shard w storable is_id no_entries unmarked at_field key empty opened
        fits =
      let path = a.new_path in
      let n = predict snappy is_open padding b in
      let shard1 = create_tsm_file_init path shard in
      let w1 = begun path shard w in
      let f = block_file snappy is_open padding b shard1 w1 in
      let w2 = set_file path f w1 in
      let result =
        first_result snappy b.type b.num b.timestamps b.values (file_at path w1) storable in
      let room =
        room_left n 499 (length b.series_key_and_field_name) (length field.index_block_meta_key)
          field (le→ltb 499 (n + 40 + length b.series_key_and_field_name) fits) key refl in
      let file : file_at path (record_block a n field b shard1 w2) ≡ f =
        ap (λ m. content (find path m)) (files-record_block a n field b shard1 w2)
        ∙ ap content (find-put path f w1.files) in
      (
        record_block a n field b shard1 w2,
        write_first-eq a field b shard shard1 w w1 (chooses path n field b shard w empty) opened
            ∙ ap (λ r. block_written a r field b shard1 w2) result,
        record_block-IsAccounted a n field b shard1 w2
            (begun-IsRoomy b.shard_id path shard w f is_id no_entries unmarked) at_field room,
        ap (λ g. read_data_from_file snappy true g 5) file
            ∙ read_data-write_data snappy b.type b.num b.timestamps b.values (file_at path w1) 5
                storable,
      )
