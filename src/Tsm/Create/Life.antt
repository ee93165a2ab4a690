-- ===== src/Tsm/Create/Life.antt =====
-- A TSM file from its first byte on: begun, written and flushed as `queue_flush_disk` of
-- engine/tsm/write.cpp does it, then loaded and read.
use dtime_db.Prelude.{
  ℕ, ◌+◌, ◌≤◌, ◌≡◌, refl, ap, sym, subst, ◌∙◌, true, List, [], ◌∷◌, ◌++◌, arith, length, take, drop,
  All, length-append, length-drop, length-take, ==_iff, ◌==◌, le_bytes,
}
use dtime_db.Tsm.File.{Bytes, ok, padded, write_at, read_at, length-write_at, length-prefix}
use dtime_db.Tsm.File.Stored.{IsStored, IsStored-front, IsStored-write_at, IsStored-write_before}
use dtime_db.Tsm.Block.{
  Snappy, read_data_from_file, write_data_to_file, calculate_timestamp_size, calculate_val_size,
}
use dtime_db.Tsm.Block.RoundTrip.{IsStorable, column_bytes, stored_block}
use dtime_db.Tsm.Index.{load_tsm_index_entry}
use dtime_db.Tsm.Index.Load.{IsIndexed}
use dtime_db.Tsm.Index.Flush.{
  Task, IsTask, tasks_size, run_tasks, blocks_after, load-run_tasks, first_tasks-IsIndexed,
}
use dtime_db.Tsm.Layout.{read_data-run_tasks, run_tasks-IsStored}
use dtime_db.Tsm.Create.{
  write_header_to_file, write_footer_to_file, read_header_from_file, new_file,
}

length-write_end :
    (off : ℕ) (bs f : Bytes)
    → length f ≤ off + length bs
    → length (write_at off bs f) ≡ off + length bs
unfolding write_at
length-write_end off bs f h = omega (
  arith,
  length-append (take off (padded off f)) (bs ++ drop (off + length bs) f),
  length-append bs (drop (off + length bs) f),
  length-prefix off f,
  length-drop (off + length bs) f,
)

-- Magic number and version, which are all that a data block at offset 5 leaves of the header.
abbrev pub five_bytes : Bytes
five_bytes = 1 ∷ 0 ∷ 0 ∷ 0 ∷ 1 ∷ []

module _ (padding : Bytes) (three : length padding ≡ 3) where
  abbrev begun : Bytes
  begun = (new_file padding).file

  first_bytes : Bytes
  first_bytes = write_at 0 (five_bytes ++ padding) []

  length-first_bytes : length first_bytes ≡ 8
  unfolding first_bytes
  length-first_bytes =
      length-write_end 0 (five_bytes ++ padding) [] (omega arith) ∙ omega (arith, three)

  begun-eq : begun ≡ write_at 504 (le_bytes 8 0) first_bytes
  unfolding new_file write_header_to_file write_footer_to_file first_bytes
  begun-eq = refl

  pub length-new_file : length begun ≡ 504 + 8
  length-new_file =
      ap length begun-eq
      ∙ length-write_end 504 (le_bytes 8 0) first_bytes (omega (arith, length-first_bytes))

  pub new_file-header : IsStored begun 0 five_bytes
  unfolding first_bytes
  new_file-header =
      subst (λ f. IsStored f 0 five_bytes) (sym begun-eq)
        (IsStored-write_before 504 (le_bytes 8 0) first_bytes 0 five_bytes (omega arith) (
          IsStored-front first_bytes 0 five_bytes padding
            (IsStored-write_at 0 (five_bytes ++ padding) [])))

  pub new_file-footer : IsStored begun 504 (le_bytes 8 0)
  new_file-footer =
      subst (λ f. IsStored f 504 (le_bytes 8 0)) (sym begun-eq)
        (IsStored-write_at 504 (le_bytes 8 0) first_bytes)

read_header-IsStored :
    (f : Bytes)
    → IsStored f 0 five_bytes
    → 8 ≤ length f
    → read_header_from_file true f
      ≡ ok (record { magic = 1; version = 1; padding = take 3 (drop 5 f) })
unfolding read_header_from_file read_at
read_header-IsStored f (rest, e) h =
    let size : 3 ≤ length rest = omega (arith, ap length e) in
    let three : length (take 3 rest) ≡ 3 = omega (arith, length-take 3 rest) in
    let full : (length (five_bytes ++ take 3 rest) == 8) ≡ true =
      (==_iff (length (five_bytes ++ take 3 rest)) 8).1 (omega arith) in
    subst
      (λ g.
        read_header_from_file true g
        ≡ ok (record { magic = 1; version = 1; padding = take 3 (drop 5 g) }))
      (sym e) (rw full)

-- A new file takes a first data block at its head offset and any index blocks behind one another at its
-- tail, as long as they fit its margin together. After that the loader returns exactly the index blocks
-- that were written, the latest first, the data block is read back from the head offset, and the
-- header's magic number and version, though not its last three bytes, are as they were written.
pub new_file_life :
    (snappy : Snappy) (padding : Bytes) (type num : ℕ) (ts : List ℕ) (vs : List Bytes) (t : Task)
    (tasks : List Task)
    → length padding ≡ 3
    → IsStorable snappy type num ts vs
    → All IsTask (t ∷ tasks)
    → length (column_bytes snappy type num ts vs) + tasks_size (t ∷ tasks)
      ≤ (new_file padding).margin
    → let c = new_file padding in
      let written =
        (write_data_to_file snappy true type num
          (calculate_timestamp_size snappy ts)
          (calculate_val_size snappy vs)
          c.file
          c.head_offset).0 in
      let f = (run_tasks (t ∷ tasks) (written, c.tail_offset)).0 in
      (load_tsm_index_entry true f ≡ ok (blocks_after (t ∷ tasks) []))
      × (read_data_from_file snappy true f c.head_offset ≡ ok (stored_block snappy type num ts vs))
      × (read_header_from_file true f
          ≡ ok (record { magic = 1; version = 1; padding = take 3 (drop 5 f) }))
unfolding new_file write_data_to_file
new_file_life snappy padding type num ts vs t tasks three fits good room = (
  load-run_tasks t tasks written 504 size (omega arith) good (omega arith),
  read_data-run_tasks snappy type num ts vs (t ∷ tasks) written 504 5 fits size (omega arith) good
      (omega arith) (IsStored-write_at 5 column (new_file padding).file),
  read_header-IsStored (run_tasks (t ∷ tasks) (written, 504)).0 header
      (omega (arith, indexed.size)),
)
  where
    column : Bytes
    column = column_bytes snappy type num ts vs

    written : Bytes
    written = write_at 5 column (new_file padding).file

    size : length written ≡ 504 + 8
    size =
        length-write_at 5 column (new_file padding).file
          (omega (arith, length-new_file padding three))
        ∙ length-new_file padding three

    indexed :
        let s = run_tasks (t ∷ tasks) (written, 504) in
        IsIndexed s.0 504 s.1 (blocks_after (t ∷ tasks) [])
    indexed = first_tasks-IsIndexed t tasks written 504 size (omega arith) good (omega arith)

    header : IsStored (run_tasks (t ∷ tasks) (written, 504)).0 0 five_bytes
    header =
        run_tasks-IsStored (t ∷ tasks) written 504 504 [] 0 five_bytes size refl (omega arith) good
          (omega arith)
          (IsStored-write_before 5 column (new_file padding).file 0 five_bytes (omega arith)
            (new_file-header padding three))
