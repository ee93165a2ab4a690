-- ===== src/Field.antt =====
-- `Field` of engine/tsm/field.h and engine/tsm/field.cpp, and `DataBlock::write` of engine/tsm/tsm_ingredient.cpp: a
-- window of points for each shard and series, flushed into a data block. A point of time is a number of nanoseconds.
pub mod Plain
pub mod Refine
pub mod Flush
pub mod Windows
pub mod Laws
pub mod Blocks
use dtime_db.Prelude.{
  ℕ, zero, suc, ◌+◌, ◌*◌, ◌^◌, ◌%◌, ◌==◌, Bool, true, false, ◌||◌, ◌&&◌, Option, none, some, List,
  [], ◌∷◌, ◌++◌, length, leb, ltb, if◌then◌else◌,
}
use dtime_db.Token.{Text}
use dtime_db.Maps.{Map, find, put}
use dtime_db.Tsm.File.{Bytes}
use dtime_db.SkipList.{
  SkipList, Run, ok, ◌>>=◌, new_skip_list, random_level, put_key, points_of, min_key, max_key, cle,
}

-- A `DataBlock` on its way to `m_data_deque`.
pub record QueuedBlock : Type 0 where
  pub field_name : Text
  pub series_key_and_field_name : Text
  pub shard_id : Text
  pub max_timestamp : ℕ
  pub min_timestamp : ℕ
  pub type : ℕ
  pub num : ℕ
  pub timestamps : List ℕ
  pub values : List Bytes

-- The block that a window fills, with its size.
pub record OpenBlock : Type 0 where
  pub size : ℕ
  pub block : QueuedBlock

-- What `SkipList` keeps for `Field` beside its nodes.
pub record Window : Type 0 where
  pub list : SkipList
  pub need_reset : Bool
  pub sl_last_time : ℕ
  pub current_data : Option OpenBlock

-- Its type is the number of the enumerator.
pub record Field : Type 0 where
  pub name : Text
  pub type : ℕ
  pub index_block_meta_key : Text
  pub mate_status : Bool
  pub shard_skip_map : Map Window

-- `DataBlock()`: nothing sets the type, which is what the memory holds.
unfoldable pub new_data_block : ℕ → OpenBlock
new_data_block unset = record {
  size = 0;
  block = record {
    field_name = [];
    series_key_and_field_name = [];
    shard_id = [];
    max_timestamp = 0;
    min_timestamp = 0;
    type = unset;
    num = 0;
    timestamps = [];
    values = [];
  };
}

abbrev pub string_type : ℕ
string_type = 1

-- `DataBlock::write`, which leaves out a point at time 0.
unfoldable pub write_point : ℕ → Text → OpenBlock → OpenBlock
write_point timestamp value b =
    let more = if b.block.type == string_type then 8 + length value else 12 in
    let q = b.block in
    if timestamp == 0 then b else record {
      size = (b.size + more) % 2 ^ 32;
      block = record q {
        timestamps = q.timestamps ++ (timestamp ∷ []);
        values = q.values ++ (value ∷ []);
        num = (q.num + 1) % 2 ^ 32;
      };
    }

unfoldable pub write_points : List (ℕ × Text) → OpenBlock → OpenBlock
write_points [] b = b
write_points (p ∷ ps) b = write_points ps (write_point p.0 p.1 b)

-- The size that `Field::write` counts for points of strings.
unfoldable pub string_size : List (ℕ × Text) → ℕ
string_size [] = 0
string_size (p ∷ ps) = 8 + length p.1 + string_size ps

unfoldable pub should_flush_data : ℕ → ℕ → ℕ → Bool
should_flush_data current_time last_time sl_size =
    leb 100 sl_size || (leb (last_time + 3000000000) current_time && ltb 0 sl_size)

abbrev pub new_window : Window
new_window = record {
  list = new_skip_list;
  need_reset = true;
  sl_last_time = 0;
  current_data = none;
}

abbrev pub window_in : Option Window → Window
window_in none = new_window
window_in (some w) = w

-- Whom a call of `notify` tells what: the observers of the skip list or of the field, the series, whether it registers.
pub data Subject : Type 0 where
  of_list of_field : Subject

pub record Notice : Type 0 where
  pub subject : Subject
  pub shard_id : Text
  pub series_info : Text
  pub is_registered : Bool

abbrev pub block_in : ℕ → Option OpenBlock → OpenBlock
block_in unset none = new_data_block unset
block_in unset (some b) = b

unfoldable pub reset_window : ℕ → Window → Window
reset_window now w = record w { sl_last_time = if w.need_reset then now else w.sl_last_time }

-- The point into the list, and what the argument is then.
unfoldable pub put_data : (ℕ → ℕ) → ℕ → Text → Window → Run (Window × Text)
put_data draw timestamp [] w = ok (w, [])
put_data draw timestamp (c ∷ value) w = do
  (l, v) ← put_key (random_level draw) timestamp (c ∷ value) w.list
  ok (record w { list = l; need_reset = false }, v)

-- The points as a block, and the window after it; `unset` is the memory of the blocks that are made.
unfoldable pub flush_data : ℕ → Field → Text → Text → Window → Run (Window × OpenBlock)
flush_data unset f shard_id series w = do
  ps ← points_of w.list
  max ← max_key w.list
  min ← min_key w.list
  let n = w.list.bottom_level_node_count
  let b : OpenBlock = write_points ps (block_in unset w.current_data)
  let q = b.block
  l ← cle w.list
  ok (
    record w { list = l; need_reset = true; current_data = some (new_data_block unset) },
    record {
      size = (if f.type == string_type then string_size ps else 12 * n) % 2 ^ 32;
      block = record q {
        max_timestamp = max;
        min_timestamp = min;
        field_name = f.name;
        num = n % 2 ^ 32;
        shard_id = shard_id;
        series_key_and_field_name = series;
      };
    },
  )

-- What one call of `Field::write` draws and reads from its surroundings.
pub record Moment : Type 0 where
  pub draw : ℕ → ℕ
  pub reset_time : ℕ
  pub flush_time : ℕ
  pub unset : ℕ

pub record Written : Type 0 where
  pub field : Field
  pub value : Text
  pub blocks : List OpenBlock
  pub notices : List Notice

abbrev pub register_notice : Text → Text → Bool → List Notice
register_notice shard_id series need_reset =
    if need_reset
    then record {
      subject = of_list;
      shard_id = shard_id;
      series_info = series;
      is_registered = true;
    }
      ∷ []
    else []

abbrev pub flush_notices : Text → Text → List Notice
flush_notices shard_id series =
    record { subject = of_field; shard_id = shard_id; series_info = []; is_registered = true }
    ∷ record { subject = of_list; shard_id = shard_id; series_info = series; is_registered = false }
    ∷ []

-- The part of `Field::write` behind the search for the window.
unfoldable pub write_window :
    Moment
    → Text
    → ℕ
    → Text
    → Text
    → Field
    → Window
    → Run (Window × (Text × (List OpenBlock × List Notice)))
write_window m shard_id timestamp value series f w0 = do
  let w1 = reset_window m.reset_time w0
  let notices = register_notice shard_id series w0.need_reset
  (w2, v) ← put_data m.draw timestamp value w1
  let flush : Run (Window × (Text × (List OpenBlock × List Notice))) = do
    (w3, b) ← flush_data m.unset f shard_id series w2
    ok (w3, (v, (b ∷ [], notices ++ flush_notices shard_id series)))
  (if should_flush_data m.flush_time w2.sl_last_time w2.list.bottom_level_node_count
      then flush
      else ok (w2, (v, ([], notices))))

-- `Field::write`. Its test for a null window is left out: it makes the windows that are missing, and none is null here.
unfoldable pub write_field : Moment → Text → ℕ → Text → Text → Field → Run Written
write_field m shard_id timestamp value series f = do
  let key = shard_id ++ series
  (w, (v, (blocks, notices))) ←
      write_window m shard_id timestamp value series f (window_in (find key f.shard_skip_map))
  ok (record {
    field = record f { shard_skip_map = put key w f.shard_skip_map };
    value = v;
    blocks = blocks;
    notices = notices;
  })
