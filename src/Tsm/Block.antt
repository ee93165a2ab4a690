-- ===== src/Tsm/Block.antt =====
-- A data block in a TSM file: `write_data_to_file` and `read_data_from_file` of engine/tsm/tsm.cpp,
-- with the compressor as a parameter. The proofs are in the module below.
pub mod RoundTrip
use dtime_db.Prelude.{
  ℕ, ◌+◌, ◌*◌, ◌^◌, ◌≡◌, Bool, true, false, List, ◌++◌, length, ltb, if◌then◌else◌, le_bytes,
  le_value,
}
use dtime_db.Tsm.File.{Bytes, Decoded, ok, not_open, thrown, ◌>>=◌, write_at, read_at}
use dtime_db.Tsm.Timestamps.{
  calculate_differences, restore_timestamps, serialize_differences, deserialize_differences,
}
use dtime_db.Tsm.Strings.{serialize_strings, deserialize_strings}

-- The library snappy: `Uncompress` returns whether the input was valid, and writes its output.
pub record Snappy : Type 0 where
  pub compress : Bytes → Bytes
  pub uncompress : Bytes → Bool × Bytes
  pub uncompress-compress : (s : Bytes) → uncompress (compress s) ≡ (true, s)

-- The fields of `DataBlock` that are kept on disk; the numbers are 32-bit patterns.
pub record DataBlock : Type 0 where
  pub type : ℕ
  pub num : ℕ
  pub tp_snappy_size : ℕ
  pub val_snappy_size : ℕ
  pub timestamps : List ℕ
  pub values : List Bytes

-- `string s(size, '\0')` throws for a negative size.
text_size : ℕ → Decoded ℕ
text_size w = if ltb w (2 ^ 31) then ok w else thrown

-- Writes behind one another in one stream are one write.
abbrev pub block_bytes : ℕ → ℕ → Bytes → Bytes → Bytes
block_bytes type num compress_timestamp compress_val =
    le_bytes 4 type
    ++ (le_bytes 4 num
        ++ (le_bytes 4 (length compress_timestamp)
            ++ (le_bytes 4 (length compress_val) ++ (compress_timestamp ++ compress_val))))

module _ (snappy : Snappy) where
  unfoldable pub calculate_timestamp_size : List ℕ → Bytes
  calculate_timestamp_size timestamps =
      snappy.compress (serialize_differences (calculate_differences timestamps))

  unfoldable pub calculate_val_size : List Bytes → Bytes
  calculate_val_size values = snappy.compress (serialize_strings values)

  -- The flag of `Uncompress` is not looked at.
  unfoldable pub read_data_from_file : Bool → Bytes → ℕ → Decoded DataBlock
  unfolding text_size
  read_data_from_file false f offset = not_open
  read_data_from_file true f offset = do
    type ← read_at offset 4 f
    num ← read_at (offset + 4) 4 f
    tp_size ← read_at (offset + 4 + 4) 4 f
    val_size ← read_at (offset + 4 + 4 + 4) 4 f
    tp_len ← text_size (le_value tp_size)
    compressed_timestamp ← read_at (offset + 4 + 4 + 4 + 4) tp_len f
    differences ← deserialize_differences (snappy.uncompress compressed_timestamp).1
    val_len ← text_size (le_value val_size)
    compressed_val ← read_at (offset + 4 + 4 + 4 + 4 + tp_len) val_len f
    values ← deserialize_strings (snappy.uncompress compressed_val).1
    ok (record {
      type = le_value type;
      num = le_value num;
      tp_snappy_size = le_value tp_size;
      val_snappy_size = le_value val_size;
      timestamps = restore_timestamps differences;
      values = values;
    })

  -- The file after the call, and the call's result: after the write the block at offset 5 is read
  -- back, and what that throws is thrown on.
  unfoldable pub write_data_to_file : Bool → ℕ → ℕ → Bytes → Bytes → Bytes → ℕ → Bytes × Decoded ℕ
  write_data_to_file false type num compress_timestamp compress_val f offset = (f, not_open)
  write_data_to_file true type num compress_timestamp compress_val f offset =
      let f' = write_at offset (block_bytes type num compress_timestamp compress_val) f in
      (
        f',
        read_data_from_file true f' 5 >>= λ _.
            ok (16 + length compress_timestamp + length compress_val),
      )
