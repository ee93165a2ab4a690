-- ===== src/Write/Round.antt =====
-- `Write::queue_flush_disk` of engine/tsm/write.cpp: one round of its loop, and the loop.
use dtime_db.Prelude.{
  ℕ, zero, suc, ◌+◌, ◌*◌, ◌^◌, ◌%◌, Bool, true, false, ◌&&◌, not, Option, none, some, [], ◌∷◌,
  length, ltb, if◌then◌else◌,
}
use dtime_db.Token.{Text}
use dtime_db.Maps.{Map, find, put, erase}
use dtime_db.Tsm.File.{Bytes, Decoded}
use dtime_db.Tsm.Index.{
  IndexEntry, create_index_meta, write_series_index_block_to_file, flush_series,
}
use dtime_db.Tsm.Block.{Snappy, calculate_timestamp_size, calculate_val_size, write_data_to_file}
use dtime_db.Tsm.Create.{Header, data_block_margin, write_header_to_file, write_footer_to_file}
use dtime_db.Write.{
  Shard, Field, IndexEntryInfo, QueuedBlock, Write, minus, push_task, pop_task, pop_data_from_deque,
  is_empty, index_info, push_index_to_deque, should_flush_index, get_shard, create_tsm_file_init,
}

-- What the surroundings answer in a round: the path of a new file, the time when a timer is reset, and the
-- time of the test for a flush.
pub record Answers : Type 0 where
  pub new_path : Text
  pub now : ℕ
  pub current_time : ℕ

-- How a round or the loop ends: the next round; the end of the function; or behaviour that the code does not
-- define, and what the read of a written block throws.
pub data Outcome : Type 0 where
  next finished : Write → Outcome
  broken : Outcome

-- How module one ends: module two is next; the loop starts again; or as above.
pub data FirstPart : Type 0 where
  goes_on continues : Write → FirstPart
  undefined : FirstPart

-- The bytes of a file; one that is missing counts as empty.
abbrev pub content : Option Bytes → Bytes
content none = []
content (some f) = f

abbrev pub file_at : Text → Write → Bytes
file_at path w = content (find path w.files)

abbrev pub set_file : Text → Bytes → Write → Write
set_file path f w = record w { files = put path f w.files }

abbrev pub set_shard : Text → Shard → Write → Write
set_shard id shard w = record w { mea_shard_map = put id shard w.mea_shard_map }

abbrev pub set_mate_status : Bool → Text → Field → Write → Write
set_mate_status status name field w = record w {
  field_map = put name (record field { mate_status = status }) w.field_map;
}

-- The size of a block with both columns compressed.
abbrev pub size_of : Bytes → Bytes → ℕ
size_of compress_timestamp compress_val = 16 + length compress_timestamp + length compress_val

-- Where the file is full: every waiting series is written at the tail, with the meta of the field of the block
-- at hand, and the tail moves behind the write.
unfoldable pub flush_all : Bool → Field → Map IndexEntryInfo → Bytes × ℕ → Bytes × ℕ
flush_all opened field [] (f, tail) = (f, tail)
flush_all opened field ((name, info) ∷ m) (f, tail) =
    let key = field.index_block_meta_key in
    let size = 28 * length info.index_deque + 8 + length key in
    let meta = create_index_meta field.type key in
    let f' = (write_series_index_block_to_file opened info.index_deque meta f tail).0 in
    let after = flush_all opened field m (f', minus tail size) in
    let skipped = flush_all opened field m (f, tail) in
    if is_empty info.index_deque then skipped else after

-- Margins compare as unsigned numbers.
abbrev pub is_full : ℕ → QueuedBlock → Shard → Bool
is_full predict_size b shard =
    not (is_empty shard.curr_file_path)
    && ltb shard.curr_file_margin (predict_size + 40 + length b.series_key_and_field_name)

-- For the first entry since the last flush the timer starts anew and the meta is marked as accounted for.
unfoldable pub mark_meta : Answers → Text → Field → Write → Write
mark_meta a name field w =
    let marked = set_mate_status true name field (record w {
      index_map = put name (record (index_info name w) { last_time = a.now }) w.index_map;
    }) in
    if field.mate_status then w else marked

unfoldable pub push_due_task : Answers → Text → Write → Write
push_due_task a name w = if should_flush_index a.current_time name w then push_task name w else w

-- The margin without the block, its entry, and the meta where it is not accounted for yet.
unfoldable pub margin_left : ℕ → Field → ℕ → ℕ
margin_left use_size field margin =
    let rest = minus (minus margin use_size) 28 in
    if field.mate_status then rest else minus rest (8 + length field.index_block_meta_key)

abbrev pub entry_of : ℕ → QueuedBlock → ℕ → IndexEntry
entry_of use_size b head_offset = record {
  max_time = b.max_timestamp;
  min_time = b.min_timestamp;
  offset = head_offset;
  size = use_size % 2 ^ 32;
}

-- From the written block on: its index entry, the margin, and a task if one is due.
unfoldable pub record_block : Answers → ℕ → Field → QueuedBlock → Shard → Write → Write
unfolding mark_meta push_due_task margin_left
record_block a use_size field b shard w =
    let head = shard.curr_file_head_offset in
    let w1 = push_index_to_deque b.shard_id b.field_name (entry_of use_size b head) w in
    let w2 = push_due_task a b.field_name (mark_meta a b.field_name field w1) in
    set_shard b.shard_id
      (record shard {
        curr_file_margin = margin_left use_size field shard.curr_file_margin;
        curr_file_head_offset = (head + use_size) % 2 ^ 64;
      })
      w2

-- Where the stream does not open, `get_file_stream` returns a null pointer, which `write_data_to_file` follows;
-- so the round goes on only from a size.
unfoldable pub block_written : Answers → Decoded ℕ → Field → QueuedBlock → Shard → Write → Outcome
unfolding record_block
block_written a (Decoded.ok use_size) field b shard w =
    next (record_block a use_size field b shard w)
block_written a _ field b shard w = broken

module _ (snappy : Snappy) (is_open : Text → Bool) (padding : Bytes) where
  -- Module one behind the tests: one series block goes to the file of the shard.
  unfoldable pub flush_index : Text → IndexEntryInfo → Shard → Field → Write → Write
  flush_index name info shard field w =
      let path = shard.curr_file_path in
      let (f, tail) =
        flush_series (is_open path) field.type field.index_block_meta_key info.index_deque
          (file_at path w, shard.curr_file_tail_offset) in
      let shard' = record shard { curr_file_tail_offset = tail } in
      set_mate_status false name field (
        set_shard info.shard_id shard'
          (set_file path f (record w { index_map = erase name w.index_map })))

  -- Module one from `get_shard` on, with the shard and the field that the searches find.
  unfoldable pub flush_task :
      Text → IndexEntryInfo → Option Shard → Option Field → Write → FirstPart
  unfolding flush_index
  flush_task name info none field w = undefined
  flush_task name info (some shard) none w =
      if is_empty info.index_deque then continues w else undefined
  flush_task name info (some shard) (some field) w =
      if is_empty info.index_deque
      then continues w
      else goes_on (flush_index name info shard field w)

  unfoldable pub begin_task : Text → Write → FirstPart
  unfolding flush_task
  begin_task name w =
      let info = index_info name w in
      let w1 = record w { index_map = put name info w.index_map } in
      flush_task name info (get_shard info.shard_id w1) (find name w1.field_map) w1

  -- Module one.
  unfoldable pub module_one : Write → FirstPart
  unfolding begin_task
  module_one w =
      let (name, w1) = pop_task w in
      if is_empty w.index_task_queue then goes_on w else begin_task name w1

  unfoldable pub leave_file : Field → Shard → Write → Write
  unfolding flush_all
  leave_file field shard w =
      let path = shard.curr_file_path in
      let flushed =
        flush_all (is_open path) field w.index_map (file_at path w, shard.curr_file_tail_offset) in
      record (set_file path flushed.0 w) { index_map = [] }

  -- A new file with its header and footer.
  unfoldable pub begin_file : Text → Shard → Write → Shard × Write
  begin_file path shard w =
      let header : Header = record { magic = 1; version = 1; padding = padding } in
      let f1 = (write_header_to_file (is_open path) header (file_at path w) 0).0 in
      let f2 = (write_footer_to_file (is_open path) 0 f1 data_block_margin).0 in
      (create_tsm_file_init path shard, set_file path f2 w)

  -- The file that the block goes to.
  unfoldable pub choose_file : Text → ℕ → Field → QueuedBlock → Shard → Write → Shard × Write
  unfolding leave_file begin_file
  choose_file new_path predict_size field b shard w =
      if is_full predict_size b shard
      then begin_file new_path shard (leave_file field shard w)
      else if is_empty shard.curr_file_path
      then begin_file new_path shard w
      else (shard, w)

  unfoldable pub write_block : Answers → Field → QueuedBlock → Shard → Write → Outcome
  unfolding choose_file block_written
  write_block a field b shard w =
      let compress_timestamp = calculate_timestamp_size snappy b.timestamps in
      let compress_val = calculate_val_size snappy b.values in
      let (shard1, w1) =
        choose_file a.new_path (size_of compress_timestamp compress_val) field b shard w in
      let path = shard1.curr_file_path in
      let (f, result) =
        write_data_to_file snappy (is_open path) b.type b.num compress_timestamp compress_val
          (file_at path w1) shard1.curr_file_head_offset in
      block_written a result field b shard1 (set_file path f w1)

  -- Module two behind the first test, with the shard and the field that the searches find.
  unfoldable pub flush_block : Answers → QueuedBlock → Option Shard → Option Field → Write → Outcome
  unfolding write_block
  flush_block a b none field w = broken
  flush_block a b (some shard) none w = finished w
  flush_block a b (some shard) (some field) w = write_block a field b shard w

  -- Module two.
  unfoldable pub module_two : Answers → Write → Outcome
  unfolding flush_block
  module_two a w = elim (pop_data_from_deque w).0 [
    | none ↦ finished w
    | some b ↦
        let w1 = (pop_data_from_deque w).1 in
        flush_block a b (get_shard b.shard_id w1) (find b.field_name w1.field_map) w1
  ]

  unfoldable pub after_one : Answers → FirstPart → Outcome
  unfolding module_two
  after_one a (goes_on w) = module_two a w
  after_one a (continues w) = next w
  after_one a undefined = broken

  unfoldable pub round : Answers → Write → Outcome
  unfolding module_one after_one
  round a w = after_one a (module_one w)

  -- The loop, with the answers for its rounds; `none` when the fuel is used up.
  unfoldable pub queue_flush_disk : ℕ → (ℕ → Answers) → Write → Option Outcome
  unfolding round
  queue_flush_disk zero answers w = none
  queue_flush_disk (suc fuel) answers w = elim (round (answers fuel) w) [
    | next w1 ↦ queue_flush_disk fuel answers w1
    | finished w1 ↦ some (finished w1)
    | broken ↦ some broken
  ]
