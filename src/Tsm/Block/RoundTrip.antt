-- ===== src/Tsm/Block/RoundTrip.antt =====
-- What `write_data_to_file` of engine/tsm/tsm.cpp wrote is what `read_data_from_file` returns.
use dtime_db.Prelude.{
  ℕ, ◌+◌, ◌^◌, ◌≤◌, ◌<◌, ◌≡◌, refl, ap, ◌∙◌, true, List, ◌++◌, arith, All, length, ltb, lt→ltb,
  if◌then◌else◌, le_bytes, le_value, le_value-le_bytes, length-append,
}
use dtime_db.Tsm.File.{Bytes, ok, thrown, write_at}
use dtime_db.Tsm.File.Stored.{
  IsStored, read_at-IsStored, IsStored-front, IsStored-back, IsStored-write_at,
  IsStored-write_before,
}
use dtime_db.Tsm.Timestamps.{
  IsWord64, calculate_differences, serialize_differences, deserialize_differences,
  restore-calculate, calculate-IsWord64,
}
use dtime_db.Tsm.Timestamps.RoundTrip.{deserialize_differences-serialize}
use dtime_db.Tsm.Strings.{serialize_strings, deserialize_strings}
use dtime_db.Tsm.Strings.RoundTrip.{IsShort, deserialize_strings-serialize}
use dtime_db.Tsm.Block.{
  Snappy, DataBlock, block_bytes, text_size, calculate_timestamp_size, calculate_val_size,
  read_data_from_file, write_data_to_file,
}

-- The sizes of a column stay within the 32-bit fields, and its values within their types.
pub record IsStorable (snappy : Snappy) (type num : ℕ) (ts : List ℕ) (vs : List Bytes)
    : Type 0 where
  pub type_fits : type < 2 ^ 32
  pub num_fits : num < 2 ^ 32
  pub timestamps_fit : All IsWord64 ts
  pub values_fit : All IsShort vs
  pub text_fits : length (serialize_strings vs) < 2 ^ 64
  pub timestamps_short : length (calculate_timestamp_size snappy ts) < 2 ^ 31
  pub values_short : length (calculate_val_size snappy vs) < 2 ^ 31

text_size-le_value : (n : ℕ) → n < 2 ^ 31 → text_size (le_value (le_bytes 4 n)) ≡ ok n
unfolding text_size
text_size-le_value n h =
    ap (λ v. if ltb v (2 ^ 31) then ok v else thrown) (le_value-le_bytes 4 n (omega arith))
    ∙ (rw (lt→ltb n (2 ^ 31) h))

module _ (snappy : Snappy) (type num : ℕ) (ts : List ℕ) (vs : List Bytes) where
  abbrev pub column_bytes : Bytes
  column_bytes =
      block_bytes type num (calculate_timestamp_size snappy ts) (calculate_val_size snappy vs)

  abbrev pub stored_block : DataBlock
  stored_block = record {
    type = type;
    num = num;
    tp_snappy_size = length (calculate_timestamp_size snappy ts);
    val_snappy_size = length (calculate_val_size snappy vs);
    timestamps = ts;
    values = vs;
  }

  module _ (fits : IsStorable snappy type num ts vs) where
    timestamps_decoded :
        deserialize_differences (snappy.uncompress (calculate_timestamp_size snappy ts)).1
        ≡ ok (calculate_differences ts)
    unfolding calculate_timestamp_size
    timestamps_decoded =
        let ds = calculate_differences ts in
        ap (λ r. deserialize_differences r.1)
          (snappy.uncompress-compress (serialize_differences ds))
        ∙ deserialize_differences-serialize ds (calculate-IsWord64 ts fits.timestamps_fit)

    values_decoded :
        deserialize_strings (snappy.uncompress (calculate_val_size snappy vs)).1 ≡ ok vs
    unfolding calculate_val_size
    values_decoded =
        ap (λ r. deserialize_strings r.1) (snappy.uncompress-compress (serialize_strings vs))
        ∙ deserialize_strings-serialize vs fits.values_fit fits.text_fits

    -- A block that stands in a file is read, wherever it stands.
    pub read_data-IsStored :
        (f : Bytes) (offset : ℕ)
        → IsStored f offset column_bytes
        → read_data_from_file snappy true f offset ≡ ok stored_block
    unfolding read_data_from_file
    read_data-IsStored f o at0 =
        let ct = calculate_timestamp_size snappy ts in
        let cv = calculate_val_size snappy vs in
        let w1 = le_bytes 4 type in
        let w2 = le_bytes 4 num in
        let w3 = le_bytes 4 (length ct) in
        let w4 = le_bytes 4 (length cv) in
        let at1 = IsStored-back f o 4 w1 (w2 ++ (w3 ++ (w4 ++ (ct ++ cv)))) refl at0 in
        let at2 = IsStored-back f (o + 4) 4 w2 (w3 ++ (w4 ++ (ct ++ cv))) refl at1 in
        let at3 = IsStored-back f (o + 4 + 4) 4 w3 (w4 ++ (ct ++ cv)) refl at2 in
        let at4 = IsStored-back f (o + 4 + 4 + 4) 4 w4 (ct ++ cv) refl at3 in
        let at5 = IsStored-back f (o + 4 + 4 + 4 + 4) (length ct) ct cv refl at4 in
        let v1 : le_value w1 ≡ type = le_value-le_bytes 4 type fits.type_fits in
        let v2 : le_value w2 ≡ num = le_value-le_bytes 4 num fits.num_fits in
        let v3 : le_value w3 ≡ length ct =
          le_value-le_bytes 4 (length ct) (omega (arith, fits.timestamps_short)) in
        let v4 : le_value w4 ≡ length cv =
          le_value-le_bytes 4 (length cv) (omega (arith, fits.values_short)) in
        let r1 =
          read_at-IsStored f o 4 w1 refl
            (IsStored-front f o w1 (w2 ++ (w3 ++ (w4 ++ (ct ++ cv)))) at0) in
        let r2 =
          read_at-IsStored f (o + 4) 4 w2 refl
            (IsStored-front f (o + 4) w2 (w3 ++ (w4 ++ (ct ++ cv))) at1) in
        let r3 =
          read_at-IsStored f (o + 4 + 4) 4 w3 refl
            (IsStored-front f (o + 4 + 4) w3 (w4 ++ (ct ++ cv)) at2) in
        let r4 =
          read_at-IsStored f (o + 4 + 4 + 4) 4 w4 refl
            (IsStored-front f (o + 4 + 4 + 4) w4 (ct ++ cv) at3) in
        let r5 =
          read_at-IsStored f (o + 4 + 4 + 4 + 4) (length ct) ct refl
            (IsStored-front f (o + 4 + 4 + 4 + 4) ct cv at4) in
        let r6 = read_at-IsStored f (o + 4 + 4 + 4 + 4 + length ct) (length cv) cv refl at5 in
        rw (r1, r2, r3, r4)
          (rw (text_size-le_value (length ct) fits.timestamps_short, r5, timestamps_decoded)
            (rw (text_size-le_value (length cv) fits.values_short, r6, values_decoded)
              (λ i. ok (record {
                type = v1 i;
                num = v2 i;
                tp_snappy_size = v3 i;
                val_snappy_size = v4 i;
                timestamps = restore-calculate ts fits.timestamps_fit i;
                values = vs;
              }))))

-- After a write at `offset` the block is read back from there.
pub read_data-write_data :
    (snappy : Snappy) (type num : ℕ) (ts : List ℕ) (vs : List Bytes) (f : Bytes) (offset : ℕ)
    → IsStorable snappy type num ts vs
    → read_data_from_file snappy true
        (write_data_to_file snappy true type num
          (calculate_timestamp_size snappy ts)
          (calculate_val_size snappy vs)
          f
          offset).0
        offset
      ≡ ok (stored_block snappy type num ts vs)
unfolding write_data_to_file
read_data-write_data snappy type num ts vs f offset fits =
    read_data-IsStored snappy type num ts vs fits
      (write_at offset (column_bytes snappy type num ts vs) f) offset
      (IsStored-write_at offset (column_bytes snappy type num ts vs) f)

-- The first block of a file goes to offset 5. A later block, written behind it, is checked by reading
-- the first block back: the call returns the size of the later block, the first block is still read
-- from offset 5, and the later one from its own offset.
pub write_data_next :
    (snappy : Snappy) (type num : ℕ) (ts : List ℕ) (vs : List Bytes) (type' num' : ℕ) (ts' : List ℕ)
    (vs' : List Bytes) (f : Bytes) (offset : ℕ)
    → IsStorable snappy type num ts vs
    → IsStorable snappy type' num' ts' vs'
    → IsStored f 5 (column_bytes snappy type num ts vs)
    → 5 + length (column_bytes snappy type num ts vs) ≤ offset
    → let r =
        write_data_to_file snappy true type' num'
          (calculate_timestamp_size snappy ts')
          (calculate_val_size snappy vs')
          f
          offset in
      (r.1 ≡ ok (length (column_bytes snappy type' num' ts' vs')))
      × (read_data_from_file snappy true r.0 5 ≡ ok (stored_block snappy type num ts vs))
      × (read_data_from_file snappy true r.0 offset ≡ ok (stored_block snappy type' num' ts' vs'))
unfolding write_data_to_file
write_data_next snappy type num ts vs type' num' ts' vs' f offset fits fits' first room =
    (rw kept (ap ok size), kept, read_data-write_data snappy type' num' ts' vs' f offset fits')
  where
    new : Bytes
    new = column_bytes snappy type' num' ts' vs'

    kept :
        read_data_from_file snappy true (write_at offset new f) 5
        ≡ ok (stored_block snappy type num ts vs)
    kept =
        read_data-IsStored snappy type num ts vs fits (write_at offset new f) 5
          (IsStored-write_before offset new f 5 (column_bytes snappy type num ts vs) room first)

    size :
        16 + length (calculate_timestamp_size snappy ts') + length (calculate_val_size snappy vs')
        ≡ length new
    size =
        omega (
          arith,
          length-append (calculate_timestamp_size snappy ts') (calculate_val_size snappy vs'),
        )
