-- ===== src/Write.antt =====
-- The state of one table's writer and its queues: engine/tsm/write.h and engine/tsm/write.cpp. Each call
-- holds its mutex to the end, so it is one step.
pub mod Enter
pub mod Entered
pub mod Queued
pub mod Arrival
pub mod Round
pub mod Ends
pub mod Margin
pub mod Growth
pub mod Account
pub mod Readable
pub mod Safe
pub mod First
pub mod Tasks
pub mod Registered
use dtime_db.Prelude.{
  ℕ, ◌+◌, ◌-◌, ◌*◌, ◌^◌, ◌%◌, ◌==◌, Bool, true, false, ◌||◌, ◌&&◌, not, Option, none, some, List,
  [], ◌∷◌, ◌++◌, length, leb, if◌then◌else◌,
}
use dtime_db.Token.{Text, codes}
use dtime_db.Maps.{Map, find, put, erase, same_text}
use dtime_db.Tsm.File.{Bytes}
pub use dtime_db.Field.{Field, QueuedBlock}
use dtime_db.Tsm.Index.{IndexEntry}
use dtime_db.Tsm.Create.{data_block_margin}

-- The message of proto/Shard.proto, the fields that the writer uses. Its numbers are 64-bit patterns.
pub record Shard : Type 0 where
  pub database_name : Text
  pub measurement : Text
  pub shard_id : Text
  pub tsm_file : List Text
  pub curr_file_path : Text
  pub curr_file_margin : ℕ
  pub curr_file_head_offset : ℕ
  pub curr_file_tail_offset : ℕ

pub record IndexEntryInfo : Type 0 where
  pub last_time : ℕ
  pub index_deque : List IndexEntry
  pub shard_id : Text

-- `Write`, with the files that it writes.
pub record Write : Type 0 where
  pub tb_name : Text
  pub db_name : Text
  pub field_map : Map Field
  pub data_deque : List QueuedBlock
  pub index_map : Map IndexEntryInfo
  pub task_set : List Text
  pub index_task_queue : List Text
  pub mea_shard_map : Map Shard
  pub files : Map Bytes

-- Subtraction of 64-bit patterns.
abbrev pub minus : ℕ → ℕ → ℕ
minus a b = (a + 2 ^ 64 - b % 2 ^ 64) % 2 ^ 64

unfoldable pub member : Text → List Text → Bool
member k [] = false
member k (k' ∷ ks) = let rest = member k ks in same_text k k' || rest

-- `m_task_set.erase`: a set holds a name once at most.
unfoldable pub delete : Text → List Text → List Text
delete k [] = []
delete k (k' ∷ ks) = let rest = delete k ks in if same_text k k' then rest else k' ∷ rest

unfoldable pub push_task : Text → Write → Write
unfolding member
push_task name w = if member name w.task_set then w else record w {
  task_set = name ∷ w.task_set;
  index_task_queue = w.index_task_queue ++ (name ∷ []);
}

-- The empty name where there is no task.
unfoldable pub pop_task : Write → Text × Write
unfolding delete
pop_task w = elim w.index_task_queue [
  | [] ↦ ([], w)
  | name ∷ names ↦ (name, record w { task_set = delete name w.task_set; index_task_queue = names })
]

unfoldable pub push_data_to_deque : QueuedBlock → Write → Write
push_data_to_deque b w = record w { data_deque = w.data_deque ++ (b ∷ []) }

unfoldable pub pop_data_from_deque : Write → Option QueuedBlock × Write
pop_data_from_deque w = elim w.data_deque [
  | [] ↦ (none, w)
  | b ∷ bs ↦ (some b, record w { data_deque = bs })
]

-- `m_index_map[field_name]`, which makes an entry that is missing.
abbrev pub no_index : IndexEntryInfo
no_index = record { last_time = 0; index_deque = []; shard_id = [] }

abbrev pub info_in : Option IndexEntryInfo → IndexEntryInfo
info_in none = no_index
info_in (some info) = info

abbrev pub index_info : Text → Write → IndexEntryInfo
index_info name w = info_in (find name w.index_map)

abbrev pub is_empty {ℓ} : {A : Type ℓ} → List A → Bool
is_empty [] = true
is_empty (x ∷ xs) = false

-- The entry behind those that wait, and the shard where none is set.
abbrev pub with_entry : Text → IndexEntry → IndexEntryInfo → IndexEntryInfo
with_entry shard_id e info = record info {
  shard_id = if is_empty info.shard_id then shard_id else info.shard_id;
  index_deque = info.index_deque ++ (e ∷ []);
}

unfoldable pub push_index_to_deque : Text → Text → IndexEntry → Write → Write
push_index_to_deque shard_id name e w = record w {
  index_map = put name (with_entry shard_id e (index_info name w)) w.index_map;
}

-- `front` of an empty deque is undefined.
unfoldable pub pop_index_from_deque : Text → Write → Option IndexEntry × Write
pop_index_from_deque name w = elim (find name w.index_map) [
  | none ↦ (none, w)
  | some info ↦ elim info.index_deque [
    | [] ↦ (none, w)
    | e ∷ es ↦
        (some e, record w { index_map = put name (record info { index_deque = es }) w.index_map })
  ]
]

-- Times count nanoseconds; five seconds without a flush are enough.
unfoldable pub should_flush_index : ℕ → Text → Write → Bool
should_flush_index current_time name w = elim (find name w.index_map) [
  | none ↦ false
  | some info ↦
      leb 10 (length info.index_deque)
      || (leb (5 * 10 ^ 9 + info.last_time) current_time && not (is_empty info.index_deque))
]

-- `nullptr` and an empty id are refused.
unfoldable pub add_shard : Text → Option Shard → Write → Bool × Write
add_shard shard_id shard w = if is_empty shard_id then (false, w) else elim shard [
  | none ↦ (false, w)
  | some s ↦ (true, record w { mea_shard_map = put shard_id s w.mea_shard_map })
]

-- Without such a shard the function ends without a `return`.
unfoldable pub get_shard : Text → Write → Option Shard
get_shard shard_id w = find shard_id w.mea_shard_map

-- The name behind the last slash.
unfoldable pub file_name : Text → Text
file_name path = last_part [] path
  where
    last_part : Text → Text → Text
    last_part part [] = part
    last_part part (c ∷ s) = last_part (if c == b'/' then [] else part ++ (c ∷ [])) s

unfoldable pub create_tsm_file_init : Text → Shard → Shard
unfolding file_name
create_tsm_file_init path shard = record shard {
  curr_file_path = path;
  curr_file_margin = data_block_margin - 13;
  curr_file_head_offset = 5;
  curr_file_tail_offset = data_block_margin - 8;
  tsm_file = shard.tsm_file ++ (file_name path ∷ []);
}
