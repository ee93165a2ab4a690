-- ===== src/Tsm/Create/Unflushed.antt =====
-- A file whose index has not been flushed yet, as the loader of engine/tsm/iterator.cpp finds it: its
-- footer is the zero that `queue_flush_disk` of engine/tsm/write.cpp has begun it with.
use dtime_db.Prelude.{
  ℕ, suc, ◌+◌, ◌-◌, ◌≤◌, ◌<◌, ◌≡◌, ◌≢◌, refl, ◌∙◌, true, List, [], ◌∷◌, arith, length,
  length-append, lt→ltb, le_bytes,
}
use dtime_db.Tsm.File.{
  Bytes, Decoded, ok, not_open, thrown, unspecified, out_of_fuel, ◌>>=◌, write_at, length-write_at,
}
use dtime_db.Tsm.File.Stored.{IsStored, read_at-IsStored, IsStored-write_after}
use dtime_db.Tsm.Block.{Snappy, block_bytes, write_data_to_file}
use dtime_db.Tsm.Index.{SeriesIndexBlock, read_series_index_block, load_loop, load_tsm_index_entry}
use dtime_db.Tsm.Create.{new_file}
use dtime_db.Tsm.Create.Life.{length-new_file, new_file-footer}

-- A round of the loop adds a block or ends the loop without a result.
round_adds :
    (fuel : ℕ) (f : Bytes) (tail pos : ℕ) → pos < tail → load_loop (suc fuel) f tail pos ≢ ok []
unfolding load_loop
round_adds fuel f tail pos l = rw (lt→ltb pos tail l) (go (read_series_index_block f pos))
  where
    more :
        (b : SeriesIndexBlock) (r : Decoded (List SeriesIndexBlock))
        → (r >>= λ bs. ok (b ∷ bs)) ≢ ok []
    more b (ok bs) e = cc
    more b not_open e = cc
    more b thrown e = cc
    more b unspecified e = cc
    more b out_of_fuel e = cc

    go :
        (r : Decoded (SeriesIndexBlock × ℕ))
        → (r >>= λ p. load_loop fuel f tail p.1 >>= λ bs. ok (p.0 ∷ bs)) ≢ ok []
    go (ok (b, next)) e = more b (load_loop fuel f tail next) e
    go not_open e = cc
    go thrown e = cc
    go unspecified e = cc
    go out_of_fuel e = cc

footer_zero :
    (f : Bytes)
    → length f ≡ 504 + 8
    → IsStored f 504 (le_bytes 8 0)
    → load_tsm_index_entry true f ≢ ok []
unfolding load_tsm_index_entry
footer_zero f size w =
    let e : length f - 8 ≡ 504 = omega arith in
    rw (e, read_at-IsStored f 504 8 (le_bytes 8 0) refl w)
      (round_adds (length f) f 504 0 (omega arith))

-- A new file whose data block has been written within its margin and whose index has not been flushed is
-- never loaded as a file without index blocks: the loader takes the header and the data for them.
pub unflushed_not_empty :
    (snappy : Snappy) (padding : Bytes) (type num : ℕ) (compress_timestamp compress_val : Bytes)
    → length padding ≡ 3
    → 16 + length compress_timestamp + length compress_val ≤ (new_file padding).margin
    → let c = new_file padding in
      load_tsm_index_entry true
        (write_data_to_file snappy true type num compress_timestamp compress_val c.file
          c.head_offset).0
      ≢ ok []
unfolding new_file write_data_to_file
unflushed_not_empty snappy padding type num ct cv three room =
    footer_zero (write_at 5 (block_bytes type num ct cv) (new_file padding).file)
      (length-write_at 5 (block_bytes type num ct cv) (new_file padding).file
          (omega (arith, length-new_file padding three, length-append ct cv))
        ∙ length-new_file padding three)
      (IsStored-write_after 5 (block_bytes type num ct cv) (new_file padding).file 504
        (le_bytes 8 0) (omega (arith, length-append ct cv)) (new_file-footer padding three))
