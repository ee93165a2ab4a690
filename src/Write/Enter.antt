-- ===== src/Write/Enter.antt =====
-- The way of a value into the windows and the queue: `Write::write` and `Write::get_field` of engine/tsm/write.cpp. The
-- shard of a point of time is a parameter, since it is the date that the C library gives.
use dtime_db.Prelude.{ℕ, Bool, false, none, some, List, [], ◌∷◌, ◌++◌, leb, if◌then◌else◌}
use dtime_db.Token.{Text}
use dtime_db.Maps.{find, put}
use dtime_db.SkipList.{Run, ok, ◌>>=◌}
use dtime_db.Field.{OpenBlock, Moment, write_field}
use dtime_db.Write.{Write, Field, Shard, push_data_to_deque}

abbrev pub new_field : Text → ℕ → Field
new_field name type = record {
  name = name;
  type = type;
  index_block_meta_key = [];
  mate_status = false;
  shard_skip_map = [];
}

-- The status of a field is never set, so that a field that is there is returned, of whatever type it is.
unfoldable pub get_field : Text → ℕ → Write → Field × Write
get_field name type w = elim (find name w.field_map) [
  | some f ↦ (f, w)
  | none ↦
      (new_field name type, record w { field_map = put name (new_field name type) w.field_map })
]

abbrev pub new_shard : Text → Write → Shard
new_shard shard_id w = record {
  database_name = w.db_name;
  measurement = w.tb_name;
  shard_id = shard_id;
  tsm_file = [];
  curr_file_path = [];
  curr_file_margin = 0;
  curr_file_head_offset = 0;
  curr_file_tail_offset = 0;
}

unfoldable pub ensure_shard : Text → Write → Write
ensure_shard shard_id w = elim (find shard_id w.mea_shard_map) [
  | some s ↦ w
  | none ↦ record w { mea_shard_map = put shard_id (new_shard shard_id w) w.mea_shard_map }
]

-- The callback of a field.
unfoldable pub push_blocks : List OpenBlock → Write → Write
push_blocks [] w = w
push_blocks (b ∷ bs) w = push_blocks bs (push_data_to_deque b.block w)

-- One call of `Write::write`. The monitoring thread passes the series with the name of the field as the value.
pub record Entering : Type 0 where
  pub moment : Moment
  pub timestamp : ℕ
  pub series_key : Text
  pub value : Text
  pub type : ℕ
  pub field_name : Text
  pub is_monitor_thread : Bool

abbrev pub series_of : Entering → Text
series_of e = if e.is_monitor_thread then e.value else e.series_key ++ e.field_name

abbrev pub value_of : Entering → Text
value_of e = if e.is_monitor_thread then [] else e.value

-- The part of `write` behind the test of the type.
unfoldable pub write_known : (ℕ → Text) → Entering → Write → Run Write
write_known timestamp_to_shard_key e w0 = do
  let shard_id = timestamp_to_shard_key e.timestamp
  let (field, w1) = get_field e.field_name e.type w0
  let w2 = ensure_shard shard_id w1
  written ←
      write_field e.moment shard_id e.timestamp (value_of e) (series_of e)
        (record field { index_block_meta_key = series_of e })
  ok (
      push_blocks written.blocks
        (record w2 { field_map = put e.field_name written.field w2.field_map }))

-- An unknown type is an error, and changes nothing.
unfoldable pub write : (ℕ → Text) → Entering → Write → Run Write
write timestamp_to_shard_key e w =
    let known = write_known timestamp_to_shard_key e w in if leb 3 e.type then ok w else known
