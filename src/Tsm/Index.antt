-- ===== src/Tsm/Index.antt =====
-- The index of a TSM file, which grows down from the footer: `write_index_meta_to_file`,
-- `write_index_entry_to_file`, `write_series_index_block_to_file` and `create_index_meta` of
-- engine/tsm/tsm.cpp, and the loader `load_tsm_index_entry` of engine/tsm/iterator.cpp.
-- The proofs are in the module below.
pub mod Chain
pub mod Load
pub mod Flush
use dtime_db.Prelude.{
  ℕ, zero, suc, ◌+◌, ◌-◌, ◌*◌, ◌%◌, ◌^◌, ◌≡◌, Bool, true, false, Option, none, some, List, [], ◌∷◌,
  ◌++◌, length, take, ltb, ◌==◌, ◌||◌, if◌then◌else◌, le_bytes, le_value,
}
use dtime_db.Tsm.File.{Bytes, Decoded, ok, not_open, out_of_fuel, ◌>>=◌, write_at, read_at}

-- `DataBlock::Type`, with the numbers of its enumerators.
pub data BlockType : Type 0 where
  data_integer data_string data_float : BlockType

abbrev pub type_code : BlockType → ℕ
type_code data_integer = 0
type_code data_string = 1
type_code data_float = 2

-- Times and offsets are 64-bit patterns, the size is a 32-bit one.
pub record IndexEntry : Type 0 where
  pub max_time : ℕ
  pub min_time : ℕ
  pub offset : ℕ
  pub size : ℕ

-- The type is the 32-bit pattern that the file holds.
pub record IndexBlockMeta : Type 0 where
  pub key_size : ℕ
  pub key : Bytes
  pub type : ℕ
  pub count : ℕ

pub record SeriesIndexBlock : Type 0 where
  pub meta : IndexBlockMeta
  pub index_entries : List IndexEntry

-- `nullptr` for a value outside the enumeration; `count` is not set yet.
unfoldable pub create_index_meta : ℕ → Bytes → Option IndexBlockMeta
create_index_meta type meta_key =
    if (type == 0) || (type == 1) || (type == 2)
    then some
        (record { key_size = length meta_key % 2 ^ 16; key = meta_key; type = type; count = 0 })
    else none

abbrev pub meta_bytes : IndexBlockMeta → Bytes
meta_bytes m =
    le_bytes 2 m.key_size ++ (take m.key_size m.key ++ (le_bytes 4 m.type ++ le_bytes 2 m.count))

abbrev pub entry_bytes : IndexEntry → Bytes
entry_bytes e =
    le_bytes 8 e.max_time ++ (le_bytes 8 e.min_time ++ (le_bytes 8 e.offset ++ le_bytes 4 e.size))

-- The file after the call, and the call's result (0 where the stream is not open).
unfoldable pub write_index_meta_to_file : Bool → IndexBlockMeta → Bytes → ℕ → Bytes × ℕ
write_index_meta_to_file false m f offset = (f, 0)
write_index_meta_to_file true m f offset = (write_at offset (meta_bytes m) f, 8 + m.key_size)

unfoldable pub write_index_entry_to_file : Bool → IndexEntry → Bytes → ℕ → Bytes
write_index_entry_to_file false e f offset = f
write_index_entry_to_file true e f offset = write_at offset (entry_bytes e) f

unfoldable pub write_entries : Bool → List IndexEntry → Bytes → ℕ → Bytes
write_entries is_open [] f offset = f
write_entries is_open (e ∷ es) f offset =
    write_entries is_open es (write_index_entry_to_file is_open e f offset) (offset + 28)

-- The file, the deque of entries and the result.
unfoldable pub write_series_index_block_to_file :
    Bool → List IndexEntry → Option IndexBlockMeta → Bytes → ℕ → Bytes × List IndexEntry × Bool
unfolding write_entries
write_series_index_block_to_file is_open entries none f tail_offset = (f, entries, false)
write_series_index_block_to_file is_open [] (some meta) f tail_offset = (f, [], false)
write_series_index_block_to_file is_open (e ∷ es) (some meta) f tail_offset =
    let m = record meta { count = length (e ∷ es) % 2 ^ 16 } in
    let (f1, meta_size) = write_index_meta_to_file is_open m f tail_offset in
    let f2 = write_entries is_open (e ∷ es) f1 (tail_offset + meta_size) in
    if is_open
    then (write_at (length f2 - 8) (le_bytes 8 tail_offset) f2, [], true)
    else (f2, [], false)

-- A C string ends before its first zero byte.
unfoldable pub c_string : Bytes → Bytes
c_string [] = []
c_string (c ∷ s) = if c == 0 then [] else c ∷ c_string s

unfoldable pub read_entry : Bytes → ℕ → Decoded IndexEntry
read_entry f pos = do
  max ← read_at pos 8 f
  min ← read_at (pos + 8) 8 f
  offset ← read_at (pos + 8 + 8) 8 f
  size ← read_at (pos + 8 + 8 + 8) 4 f
  ok (record {
    max_time = le_value max;
    min_time = le_value min;
    offset = le_value offset;
    size = le_value size;
  })

unfoldable pub read_entries : ℕ → Bytes → ℕ → Decoded (List IndexEntry)
unfolding read_entry
read_entries zero f pos = ok []
read_entries (suc n) f pos = do e ← read_entry f pos; es ← read_entries n f (pos + 28); ok (e ∷ es)

-- One round of the loader's loop: the block at `pos` and the position behind it.
unfoldable pub read_series_index_block : Bytes → ℕ → Decoded (SeriesIndexBlock × ℕ)
unfolding read_entries c_string
read_series_index_block f pos = do
  length_bytes ← read_at pos 2 f
  let len = le_value length_bytes
  buffer ← read_at (pos + 2) len f
  type ← read_at (pos + 2 + len) 4 f
  count ← read_at (pos + 2 + len + 4) 2 f
  entries ← read_entries (le_value count) f (pos + 2 + len + 4 + 2)
  let meta : IndexBlockMeta = record {
    key_size = len;
    key = c_string buffer;
    type = le_value type;
    count = le_value count;
  }
  ok (record { meta = meta; index_entries = entries }, pos + 2 + len + 4 + 2 + 28 * le_value count)

-- `while (curr_pos < tail)`: each round takes eight bytes at least.
unfoldable pub load_loop : ℕ → Bytes → ℕ → ℕ → Decoded (List SeriesIndexBlock)
unfolding read_series_index_block
load_loop zero f tail pos = out_of_fuel
load_loop (suc fuel) f tail pos =
    let round : Decoded (List SeriesIndexBlock) = do
      (block, next) ← read_series_index_block f pos
      blocks ← load_loop fuel f tail next
      ok (block ∷ blocks)
    in if ltb pos tail then round else ok []

-- The blocks of one file, in the order in which they are added to the index in memory. A footer of 2^63 or
-- more, which the source reads as a negative offset, makes its seek fail; that case is outside the model.
unfoldable pub load_tsm_index_entry : Bool → Bytes → Decoded (List SeriesIndexBlock)
unfolding load_loop
load_tsm_index_entry false f = not_open
load_tsm_index_entry true f = do
  footer ← read_at (length f - 8) 8 f
  load_loop (suc (length f)) f (length f - 8) (le_value footer)

-- Module one of `Write::queue_flush_disk` (engine/tsm/write.cpp), the part that writes one series:
-- the tail moves down by the size of the block, and an empty queue leaves all as it is.
unfoldable pub flush_series : Bool → ℕ → Bytes → List IndexEntry → Bytes × ℕ → Bytes × ℕ
flush_series is_open type meta_key [] (f, tail_offset) = (f, tail_offset)
flush_series is_open type meta_key (e ∷ es) (f, tail_offset) =
    let size = 28 * length (e ∷ es) + 8 + length meta_key in
    let meta = create_index_meta type meta_key in
    let tail_offset' = (tail_offset + 2 ^ 64 - size) % 2 ^ 64 in
    ((write_series_index_block_to_file is_open (e ∷ es) meta f tail_offset').0, tail_offset')
