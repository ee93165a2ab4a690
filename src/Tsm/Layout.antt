-- ===== src/Tsm/Layout.antt =====
-- A TSM file as a whole: data blocks from the front (engine/tsm/tsm.cpp), index blocks and the footer
-- at the back (engine/tsm/write.cpp). Flushing the index leaves the data in place.
use dtime_db.Prelude.{
  ℕ, ◌+◌, ◌-◌, ◌≤◌, ◌<◌, ◌^◌, ◌≡◌, refl, ap, subst, sym, List, [], ◌∷◌, arith, All, length, true,
  le_bytes,
}
use dtime_db.Tsm.File.{Bytes, ok, write_at}
use dtime_db.Tsm.File.Stored.{IsStored, IsStored-write_before}
use dtime_db.Tsm.Block.{Snappy, read_data_from_file}
use dtime_db.Tsm.Block.RoundTrip.{IsStorable, column_bytes, stored_block, read_data-IsStored}
use dtime_db.Tsm.Index.{SeriesIndexBlock}
use dtime_db.Tsm.Index.Chain.{IsChain, IsChain-le, series_bytes}
use dtime_db.Tsm.Index.Flush.{
  Task, IsTask, task_size, tasks_size, block_of, run_task, run_tasks, run_task-eq,
  run_task-IsIndexed,
}

pub run_task-IsStored :
    (f : Bytes) (tail pos : ℕ) (t : Task) (bs : List SeriesIndexBlock) (off : ℕ)
    (data_bytes : Bytes)
    → length f ≡ tail + 8
    → IsChain f pos tail bs
    → pos < 2 ^ 64
    → IsTask t
    → off + length data_bytes + task_size t ≤ pos
    → IsStored f off data_bytes
    → IsStored (run_task t (f, pos)).0 off data_bytes
run_task-IsStored f tail pos t bs off data_bytes size chain fits good room w =
    let low = pos - task_size t in
    let f1 = write_at low (series_bytes (block_of t)) f in
    let w1 =
      IsStored-write_before low (series_bytes (block_of t)) f off data_bytes (omega arith) w in
    let w2 =
      IsStored-write_before tail (le_bytes 8 low) f1 off data_bytes
        (omega (arith, IsChain-le f pos tail bs chain)) w1 in
    subst (λ (r : Bytes × ℕ). IsStored r.0 off data_bytes)
      (sym (run_task-eq f tail pos t bs size chain fits good (omega arith))) w2

pub run_tasks-IsStored :
    (ts : List Task) (f : Bytes) (tail pos : ℕ) (bs : List SeriesIndexBlock) (off : ℕ)
    (data_bytes : Bytes)
    → length f ≡ tail + 8
    → IsChain f pos tail bs
    → pos < 2 ^ 64
    → All IsTask ts
    → off + length data_bytes + tasks_size ts ≤ pos
    → IsStored f off data_bytes
    → IsStored (run_tasks ts (f, pos)).0 off data_bytes
run_tasks-IsStored [] f tail pos bs off data_bytes size chain fits good room w = w
run_tasks-IsStored (t ∷ ts) f tail pos bs off data_bytes size chain fits good room w =
    let s = run_task t (f, pos) in
    let moved =
      ap (λ (r : Bytes × ℕ). r.1)
        (run_task-eq f tail pos t bs size chain fits good.0 (omega arith)) in
    let next = run_task-IsIndexed f tail pos t bs size chain fits good.0 (omega arith) in
    run_tasks-IsStored ts s.0 tail s.1 (block_of t ∷ bs) off data_bytes next.size next.chain
      next.low_fits good.1 (omega (arith, moved))
      (run_task-IsStored f tail pos t bs off data_bytes size chain fits good.0 (omega arith) w)

-- A data block that ends below the room which the index tasks take is read unchanged after all of them
-- have been flushed to a file that had no index yet.
pub read_data-run_tasks :
    (snappy : Snappy) (type num : ℕ) (ts : List ℕ) (vs : List Bytes) (tasks : List Task) (f : Bytes)
    (tail off : ℕ)
    → IsStorable snappy type num ts vs
    → length f ≡ tail + 8
    → tail < 2 ^ 64
    → All IsTask tasks
    → off + length (column_bytes snappy type num ts vs) + tasks_size tasks ≤ tail
    → IsStored f off (column_bytes snappy type num ts vs)
    → read_data_from_file snappy true (run_tasks tasks (f, tail)).0 off
      ≡ ok (stored_block snappy type num ts vs)
read_data-run_tasks snappy type num ts vs tasks f tail off fits size tail_fits good room w =
    read_data-IsStored snappy type num ts vs fits (run_tasks tasks (f, tail)).0 off (
      run_tasks-IsStored tasks f tail tail [] off (column_bytes snappy type num ts vs) size refl
        tail_fits good room w)
