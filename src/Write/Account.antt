-- ===== src/Write/Account.antt =====
-- `record_block` and `write_block`, the part of module two of `queue_flush_disk` (engine/tsm/write.cpp) that writes a
-- block to a file with room for it, keep the account of the room.
use dtime_db.Prelude.{
  ℕ, ◌+◌, ◌-◌, ◌^◌, ◌%◌, ◌<◌, ◌≤◌, ◌≡◌, refl, sym, ap, subst, ◌∙◌, Bool, true, false, not, some,
  length, ltb, Bool-cases, inl, inr, arith,
}
use dtime_db.Token.{Text}
use dtime_db.Maps.{find, total, IsUnique}
use dtime_db.Maps.Laws.{find-put}
use dtime_db.Tsm.File.{Bytes, Decoded, ◌>>=◌, write_at}
use dtime_db.Tsm.Block.{
  Snappy, calculate_timestamp_size, calculate_val_size, read_data_from_file, block_bytes,
  write_data_to_file,
}
use dtime_db.Write.{Shard, Field, QueuedBlock, Write, push_index_to_deque, is_empty}
use dtime_db.Write.Round.{
  Answers, next, file_at, set_file, size_of, mark_meta, push_due_task, margin_left, entry_of,
  record_block, block_written, choose_file, write_block,
}
use dtime_db.Write.Margin.{IsOneShard, IsMarked, reserved, IsAccounted}
use dtime_db.Write.Growth.{meta_room, push_due_task_maps, mark_meta-IsGrown}

-- What a block takes from the margin.
abbrev pub taken : ℕ → Field → ℕ
taken size field =
    size + (28 + meta_room (not field.mate_status) (length field.index_block_meta_key))

margin_left-eq :
    (size : ℕ) (field : Field) (margin : ℕ)
    → taken size field ≤ margin
    → margin < 2 ^ 64
    → margin_left size field margin ≡ margin - taken size field
unfolding margin_left
margin_left-eq size field margin l h =
    let key = length field.index_block_meta_key in
    elim (Bool-cases field.mate_status) [
      | inl on ↦
          let fits : size + 28 ≤ margin =
            subst (λ b. size + (28 + meta_room (not b) key) ≤ margin) on l in
          rw on (omega (arith, h, fits))
      | inr off ↦
          let fits : size + (28 + (8 + key)) ≤ margin =
            subst (λ b. size + (28 + meta_room (not b) key) ≤ margin) off l in
          rw off (omega (arith, h, fits))
    ]

-- The shard after a block of that size.
abbrev pub shard_after : ℕ → Field → Shard → Shard
shard_after size field shard = record shard {
  curr_file_margin = shard.curr_file_margin - taken size field;
  curr_file_head_offset = shard.curr_file_head_offset + size;
}

-- The account of a shard that does not stand in the map yet as it is.
pub record IsRoomy (id : Text) (shard : Shard) (w : Write) : Type 0 where
  pub is_id : is_empty id ≡ false
  pub one_shard : IsOneShard id w.index_map
  pub unique : IsUnique w.index_map
  pub marked : IsMarked w.field_map w.index_map
  pub room :
      shard.curr_file_head_offset
        + shard.curr_file_margin
        + total (reserved w.field_map) w.index_map
      ≡ shard.curr_file_tail_offset
  pub small : shard.curr_file_tail_offset < 2 ^ 63

pub record_block-IsAccounted :
    (a : Answers) (size : ℕ) (field : Field) (b : QueuedBlock) (shard : Shard) (w : Write)
    → IsRoomy b.shard_id shard w
    → find b.field_name w.field_map ≡ some field
    → taken size field ≤ shard.curr_file_margin
    → IsAccounted b.shard_id (shard_after size field shard) (record_block a size field b shard w)
unfolding record_block
record_block-IsAccounted a size field b shard w good at_field fits =
    let e = entry_of size b shard.curr_file_head_offset in
    let v = mark_meta a b.field_name field (push_index_to_deque b.shard_id b.field_name e w) in
    let grown =
      mark_meta-IsGrown a b.shard_id b.field_name field e w good.is_id good.one_shard good.unique
        good.marked at_field in
    let (index, fields, shards) = push_due_task_maps a b.field_name v in
    let head : (shard.curr_file_head_offset + size) % 2 ^ 64 ≡ shard.curr_file_head_offset + size =
      omega (arith, fits, good.room, good.small) in
    let margin =
      margin_left-eq size field shard.curr_file_margin fits
        (omega (arith, good.room, good.small)) in
    let with_numbers =
      λ (m h : ℕ). record shard { curr_file_margin = m; curr_file_head_offset = h } in
    let stored = record shard {
      curr_file_margin = margin_left size field shard.curr_file_margin;
      curr_file_head_offset = (shard.curr_file_head_offset + size) % 2 ^ 64;
    } in
    record {
      found =
          find-put b.shard_id stored (push_due_task a b.field_name v).mea_shard_map
          ∙ ap (λ m. some (with_numbers m ((shard.curr_file_head_offset + size) % 2 ^ 64))) margin
          ∙ ap (λ h. some (with_numbers (shard.curr_file_margin - taken size field) h)) head;
      is_id = good.is_id;
      one_shard = subst (λ m. IsOneShard b.shard_id m) (sym index) grown.one_shard;
      unique = subst (λ m. IsUnique m) (sym index) grown.unique;
      marked =
          subst (λ m. IsMarked (push_due_task a b.field_name v).field_map m) (sym index)
            (subst (λ f. IsMarked f v.index_map) (sym fields) grown.marked);
      room =
          let sum =
            ap (λ m. total (reserved (push_due_task a b.field_name v).field_map) m) index
            ∙ ap (λ f. total (reserved f) v.index_map) fields
            ∙ grown.sum in
          omega (arith, sum, fits, good.room);
      small = good.small;
    }

bind_ok : {A : Type 0} (d : Decoded A) (k n : ℕ) → (d >>= λ _. Decoded.ok k) ≡ Decoded.ok n → k ≡ n
bind_ok (Decoded.ok x) k n e = cc
bind_ok Decoded.not_open k n e = cc
bind_ok Decoded.thrown k n e = cc
bind_ok Decoded.unspecified k n e = cc
bind_ok Decoded.out_of_fuel k n e = cc

pub written_size :
    (snappy : Snappy) (type num : ℕ) (compress_timestamp compress_val f : Bytes) (offset n : ℕ)
    → (write_data_to_file snappy true type num compress_timestamp compress_val f offset).1
      ≡ Decoded.ok n
    → size_of compress_timestamp compress_val ≡ n
unfolding write_data_to_file
written_size snappy type num ct cv f offset n e =
    bind_ok (read_data_from_file snappy true (write_at offset (block_bytes type num ct cv) f) 5)
      (16 + length ct + length cv) n e

pub room_left :
    (predict margin series key : ℕ) (field : Field)
    → ltb margin (predict + 40 + series) ≡ false
    → key ≤ series
    → key ≡ length field.index_block_meta_key
    → taken predict field ≤ margin
room_left predict margin series key field full l e = elim (Bool-cases field.mate_status) [
  | inl on ↦ rw on (ground arith)
  | inr off ↦ rw off (ground arith)
]

module _ (snappy : Snappy) (is_open : Text → Bool) (padding : Bytes) where
  -- What `write_data_to_file` returns for a block at the head of the shard's file.
  abbrev pub block_result : QueuedBlock → Shard → Write → Decoded ℕ
  block_result b shard w =
      (write_data_to_file snappy true b.type b.num (calculate_timestamp_size snappy b.timestamps)
        (calculate_val_size snappy b.values) (file_at shard.curr_file_path w)
        shard.curr_file_head_offset).1

  abbrev pub predict : QueuedBlock → ℕ
  predict b =
      size_of (calculate_timestamp_size snappy b.timestamps) (calculate_val_size snappy b.values)

  -- The file after that write.
  abbrev pub block_file : QueuedBlock → Shard → Write → Bytes
  block_file b shard w =
      (write_data_to_file snappy true b.type b.num (calculate_timestamp_size snappy b.timestamps)
        (calculate_val_size snappy b.values) (file_at shard.curr_file_path w)
        shard.curr_file_head_offset).0

  pub stays :
      (new_path : Text) (size : ℕ) (field : Field) (b : QueuedBlock) (shard : Shard) (w : Write)
      → is_empty shard.curr_file_path ≡ false
      → ltb shard.curr_file_margin (size + 40 + length b.series_key_and_field_name) ≡ false
      → choose_file snappy is_open padding new_path size field b shard w ≡ (shard, w)
  unfolding choose_file
  stays new_path size field b shard w path fits = rw (path, fits)

  pub write_block-eq :
      (a : Answers) (field : Field) (b : QueuedBlock) (shard : Shard) (w : Write)
      → choose_file snappy is_open padding a.new_path (predict b) field b shard w ≡ (shard, w)
      → is_open shard.curr_file_path ≡ true
      → write_block snappy is_open padding a field b shard w
        ≡ block_written a
            (block_result b shard w)
            field
            b
            shard
            (set_file shard.curr_file_path (block_file b shard w) w)
  unfolding write_block
  write_block-eq a field b shard w chosen opened = rw (write_block, chosen, opened)

  -- Where the room is accounted for, a block of the same shard and of a known field that the test for the margin lets
  -- into the current file, whose key is no longer than the one the test counts with, and whose write returns
  -- a size, is followed by the next round; the room is accounted for after it, the head has moved by the
  -- size, and the tail has not moved.
  pub write_block-IsAccounted :
      (a : Answers) (field : Field) (b : QueuedBlock) (shard : Shard) (w : Write) (n : ℕ)
      → IsAccounted b.shard_id shard w
      → find b.field_name w.field_map ≡ some field
      → length field.index_block_meta_key ≤ length b.series_key_and_field_name
      → is_empty shard.curr_file_path ≡ false
      → is_open shard.curr_file_path ≡ true
      → ltb shard.curr_file_margin (n + 40 + length b.series_key_and_field_name) ≡ false
      → block_result b shard w ≡ Decoded.ok n
      → (w' : Write) × (write_block snappy is_open padding a field b shard w ≡ next w')
        × IsAccounted b.shard_id (shard_after n field shard) w'
  unfolding block_written
  write_block-IsAccounted a field b shard w n good at_field key path opened fits result =
      let predicted =
        written_size snappy b.type b.num (calculate_timestamp_size snappy b.timestamps)
          (calculate_val_size snappy b.values) (file_at shard.curr_file_path w)
          shard.curr_file_head_offset n result in
      let enough =
        ap (λ k. ltb shard.curr_file_margin (k + 40 + length b.series_key_and_field_name)) predicted
        ∙ fits in
      let w1 = set_file shard.curr_file_path (block_file b shard w) w in
      let good1 : IsRoomy b.shard_id shard w1 = record {
        is_id = good.is_id;
        one_shard = good.one_shard;
        unique = good.unique;
        marked = good.marked;
        room = good.room;
        small = good.small;
      } in
      let room =
        room_left n shard.curr_file_margin (length b.series_key_and_field_name)
          (length field.index_block_meta_key) field fits key refl in
      (
        record_block a n field b shard w1,
        write_block-eq a field b shard w (stays a.new_path (predict b) field b shard w path enough)
              opened
            ∙ ap (λ r. block_written a r field b shard w1) result,
        record_block-IsAccounted a n field b shard w1 good1 at_field room,
      )
