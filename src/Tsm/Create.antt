-- ===== src/Tsm/Create.antt =====
-- The header, the footer and the creation of a TSM file: `write_header_to_file`, `read_header_from_file`,
-- `write_footer_to_file`, `read_footer_from_file`, `create_tsm` and `read_index_meta_from_file` of
-- engine/tsm/tsm.cpp, and how `Write::queue_flush_disk` of engine/tsm/write.cpp begins a file.
pub mod Fields
pub mod Life
pub mod Unflushed
use dtime_db.Prelude.{
  ℕ, ◌+◌, ◌-◌, ◌*◌, ◌≡◌, Bool, true, false, [], ◌++◌, length, ltb, if◌then◌else◌, le_bytes,
  le_value, take, drop,
}
use dtime_db.Tsm.File.{Bytes, Decoded, ok, not_open, ◌>>=◌, write_at, read_at}
use dtime_db.Tsm.Index.{IndexBlockMeta, c_string}

-- The object has eight bytes: behind the version stand three that no member names.
pub record Header : Type 0 where
  pub magic : ℕ
  pub version : ℕ
  pub padding : Bytes

abbrev pub header_bytes : Header → Bytes
header_bytes h = le_bytes 4 h.magic ++ (le_bytes 1 h.version ++ h.padding)

-- Written where the stream stands.
unfoldable pub write_header_to_file : Bool → Header → Bytes → ℕ → Bytes × Bool
write_header_to_file false h f pos = (f, false)
write_header_to_file true h f pos = (write_at pos (header_bytes h) f, true)

unfoldable pub read_header_from_file : Bool → Bytes → Decoded Header
read_header_from_file false f = not_open
read_header_from_file true f = do
  bytes ← read_at 0 8 f
  ok (record {
    magic = le_value (take 4 bytes);
    version = le_value (take 1 (drop 4 bytes));
    padding = drop 5 bytes;
  })

-- A seek before the beginning fails, and the write with it.
unfoldable pub write_footer_to_file : Bool → ℕ → Bytes → ℕ → Bytes × Bool
write_footer_to_file false footer f tail_offset = (f, false)
write_footer_to_file true footer f tail_offset =
    (if ltb tail_offset 8 then f else write_at (tail_offset - 8) (le_bytes 8 footer) f, true)

unfoldable pub read_footer_from_file : Bool → Bytes → Decoded ℕ
read_footer_from_file false f = not_open
read_footer_from_file true f = do bytes ← read_at (length f - 8) 8 f; ok (le_value bytes)

unfoldable pub create_tsm : Bool → Header → ℕ → Bytes → Bytes × Bool
create_tsm false header footer f = (f, false)
create_tsm true header footer f =
    (write_at (4 * 1024 * 1024) (le_bytes 8 footer) (write_at 0 (header_bytes header) f), true)

unfoldable pub read_index_meta_from_file : Bool → Bytes → ℕ → Decoded IndexBlockMeta
read_index_meta_from_file false f offset = not_open
read_index_meta_from_file true f offset = do
  size_bytes ← read_at offset 2 f
  let key_size = le_value size_bytes
  buffer ← read_at (offset + 2) key_size f
  type ← read_at (offset + 2 + key_size) 4 f
  count ← read_at (offset + 2 + key_size + 4) 2 f
  ok (record {
    key_size = key_size;
    key = c_string buffer;
    type = le_value type;
    count = le_value count;
  })

-- `DATA_BLOCK_MARGIN`.
abbrev pub data_block_margin : ℕ
data_block_margin = 512

-- What `queue_flush_disk` knows of the file that it writes.
pub record CurrentFile : Type 0 where
  pub file : Bytes
  pub margin : ℕ
  pub head_offset : ℕ
  pub tail_offset : ℕ

-- A file that does not exist yet gets its header and a footer of zero.
unfoldable pub new_file : Bytes → CurrentFile
unfolding write_header_to_file write_footer_to_file
new_file padding =
    let header : Header = record { magic = 1; version = 1; padding = padding } in
    let f1 = (write_header_to_file true header [] 0).0 in
    record {
      file = (write_footer_to_file true 0 f1 data_block_margin).0;
      margin = data_block_margin - 13;
      head_offset = 5;
      tail_offset = data_block_margin - 8;
    }
