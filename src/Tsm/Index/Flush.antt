-- ===== src/Tsm/Index/Flush.antt =====
-- One more series block at the low end of the index region: `write_series_index_block_to_file` of
-- engine/tsm/tsm.cpp and the tail offset of engine/tsm/write.cpp.
use dtime_db.Prelude.{
  ℕ, ◌+◌, ◌-◌, ◌*◌, ◌%◌, ◌^◌, ◌≤◌, ◌<◌, ◌≡◌, refl, ap, sym, subst, ◌∙◌, Bool, true, some, List, [],
  ◌∷◌, ◌++◌, arith, length, take, All, length-append, take_all, le_bytes,
}
use dtime_db.Tsm.File.{Bytes, ok, write_at, length-write_at}
use dtime_db.Tsm.File.Stored.{IsStored-write_at, IsStored-write_before, IsStored-write_after}
use dtime_db.Tsm.Index.{
  IndexEntry, IndexBlockMeta, SeriesIndexBlock, BlockType, data_integer, data_string, data_float,
  type_code, meta_bytes, create_index_meta, load_tsm_index_entry, write_index_meta_to_file,
  write_series_index_block_to_file, flush_series,
}
use dtime_db.Tsm.Index.Chain.{
  IsEntry, IsNonzero, IsSeries, IsChain, series_bytes, series_size, length-series_bytes, IsChain-le,
  IsChain-keep,
}
use dtime_db.Tsm.Index.Load.{IsIndexed, load-IsIndexed, write_entries-eq}

-- The file after the block's bytes and the footer are written.
abbrev with_series : Bytes → ℕ → ℕ → SeriesIndexBlock → Bytes
with_series f tail off b = write_at tail (le_bytes 8 off) (write_at off (series_bytes b) f)

module _ (f : Bytes) (tail off pos : ℕ) (b : SeriesIndexBlock) (bs : List SeriesIndexBlock)
    (size : length f ≡ tail + 8) (room : off + series_size b ≡ pos) (fits : off < 2 ^ 64)
    (good : IsSeries b) (chain : IsChain f pos tail bs) where
  block_end : off + length (series_bytes b) ≡ pos
  block_end = omega (arith, length-series_bytes b good)

  with_series-IsIndexed : IsIndexed (with_series f tail off b) tail off (b ∷ bs)
  with_series-IsIndexed =
      let f1 = write_at off (series_bytes b) f in
      let below : pos ≤ tail = omega (arith, IsChain-le f pos tail bs chain) in
      let size1 : length f1 ≡ length f =
        length-write_at off (series_bytes b) f (omega (arith, block_end)) in
      let old : IsChain f1 pos tail bs =
        IsChain-keep f f1 pos pos tail bs
          (λ p a l u w.
            IsStored-write_after off (series_bytes b) f p a (omega (arith, block_end)) w)
          (omega arith) chain in
      let whole : IsChain f1 off tail (b ∷ bs) = (
        good,
        IsStored-write_at off (series_bytes b) f,
        subst (λ p. IsChain f1 p tail bs) (sym room) old,
      ) in
      record {
        size = length-write_at tail (le_bytes 8 off) f1 (omega arith) ∙ size1 ∙ size;
        low_fits = fits;
        chain =
            IsChain-keep f1 (with_series f tail off b) off off tail (b ∷ bs)
              (λ p a l u w. IsStored-write_before tail (le_bytes 8 off) f1 p a u w) (omega arith)
              whole;
        footer = IsStored-write_at tail (le_bytes 8 off) f1;
      }

-- The call writes the block and then the footer.
write_series-eq :
    (f : Bytes) (tail off : ℕ) (meta : IndexBlockMeta) (e : IndexEntry) (es : List IndexEntry)
    → length f ≡ tail + 8
    → let b : SeriesIndexBlock = record {
      meta = record meta { count = length (e ∷ es) };
      index_entries = e ∷ es;
    } in
      meta.key_size ≡ length meta.key
      → off + series_size b ≤ tail
      → IsSeries b
      → write_series_index_block_to_file true (e ∷ es) (some meta) f off
        ≡ (with_series f tail off b, [], true)
unfolding write_series_index_block_to_file write_index_meta_to_file
write_series-eq f tail off meta e es size key room good =
    let b : SeriesIndexBlock = record {
      meta = record meta { count = length (e ∷ es) };
      index_entries = e ∷ es;
    } in
    let key_len : length (take meta.key_size meta.key) ≡ meta.key_size =
      ap length (take_all meta.key_size meta.key (omega arith)) ∙ sym key in
    let meta_len : length (meta_bytes b.meta) ≡ 8 + meta.key_size = omega (
      arith,
      length-append (take meta.key_size meta.key) (le_bytes 4 meta.type ++ le_bytes 2 b.meta.count),
    ) in
    let written =
      write_entries-eq (e ∷ es) off (off + (8 + meta.key_size)) (meta_bytes b.meta) f
        (omega arith) in
    let end : length (write_at off (series_bytes b) f) - 8 ≡ tail =
      omega (
        arith,
        length-write_at off (series_bytes b) f (omega (arith, length-series_bytes b good)),
      ) in
    let count : length (e ∷ es) % 2 ^ 16 ≡ length (e ∷ es) = omega (arith, good.count_fits) in
    rw (count, written, end)

-- What one run of module one is asked to write.
pub record Task : Type 0 where
  pub type : BlockType
  pub meta_key : Bytes
  pub entry : IndexEntry
  pub entries : List IndexEntry

pub record IsTask (t : Task) : Type 0 where
  pub key_fits : length t.meta_key < 2 ^ 16
  pub key_text : All IsNonzero t.meta_key
  pub count_fits : length (t.entry ∷ t.entries) < 2 ^ 16
  pub entries_fit : All IsEntry (t.entry ∷ t.entries)

abbrev pub task_size : Task → ℕ
task_size t = 28 * length (t.entry ∷ t.entries) + 8 + length t.meta_key

abbrev pub block_of : Task → SeriesIndexBlock
block_of t = record {
  meta = record {
    key_size = length t.meta_key;
    key = t.meta_key;
    type = type_code t.type;
    count = length (t.entry ∷ t.entries);
  };
  index_entries = t.entry ∷ t.entries;
}

abbrev pub run_task : Task → Bytes × ℕ → Bytes × ℕ
run_task t = flush_series true (type_code t.type) t.meta_key (t.entry ∷ t.entries)

block_of-IsSeries : (t : Task) → IsTask t → IsSeries (block_of t)
block_of-IsSeries t h = record {
  key_size = refl;
  key_fits = h.key_fits;
  key_text = h.key_text;
  type_fits = code_fits t.type;
  count = refl;
  count_fits = h.count_fits;
  entries_fit = h.entries_fit;
}
  where
    code_fits : (c : BlockType) → type_code c < 2 ^ 32
    code_fits data_integer = omega arith
    code_fits data_string = omega arith
    code_fits data_float = omega arith

create_index_meta-task :
    (t : Task)
    → IsTask t
    → create_index_meta (type_code t.type) t.meta_key
      ≡ some (record {
        key_size = length t.meta_key;
        key = t.meta_key;
        type = type_code t.type;
        count = 0;
      })
unfolding create_index_meta
create_index_meta-task t h = go t.type
  where
    fits : length t.meta_key % 2 ^ 16 ≡ length t.meta_key
    fits = omega (arith, h.key_fits)

    go :
        (c : BlockType)
        → create_index_meta (type_code c) t.meta_key
          ≡ some (record {
            key_size = length t.meta_key;
            key = t.meta_key;
            type = type_code c;
            count = 0;
          })
    go data_integer = rw fits
    go data_string = rw fits
    go data_float = rw fits

module _ (f : Bytes) (tail pos : ℕ) (t : Task) (bs : List SeriesIndexBlock)
    (size : length f ≡ tail + 8) (chain : IsChain f pos tail bs) (pos_fits : pos < 2 ^ 64)
    (good : IsTask t) (room : task_size t ≤ pos) where
  pub run_task-eq :
      run_task t (f, pos) ≡ (with_series f tail (pos - task_size t) (block_of t), pos - task_size t)
  unfolding flush_series
  run_task-eq =
      let off : (pos + 2 ^ 64 - task_size t) % 2 ^ 64 ≡ pos - task_size t = omega arith in
      rw (off, create_index_meta-task t good)
        (ap (λ (r : Bytes × List IndexEntry × Bool). (r.0, pos - task_size t)) written)
    where
      written :
          write_series_index_block_to_file true
            (t.entry ∷ t.entries)
            (some (record {
              key_size = length t.meta_key;
              key = t.meta_key;
              type = type_code t.type;
              count = 0;
            }))
            f
            (pos - task_size t)
          ≡ (with_series f tail (pos - task_size t) (block_of t), [], true)
      written =
          write_series-eq f tail (pos - task_size t) _ t.entry t.entries size refl
            (omega (arith, IsChain-le f pos tail bs chain)) (block_of-IsSeries t good)

  -- One run puts the task's block in front of those that the file has.
  pub run_task-IsIndexed :
      IsIndexed (run_task t (f, pos)).0 tail (run_task t (f, pos)).1 (block_of t ∷ bs)
  run_task-IsIndexed = rw run_task-eq (
      with_series-IsIndexed f tail (pos - task_size t) pos (block_of t) bs size (omega arith)
        (omega arith) (block_of-IsSeries t good) chain)

-- Module one run for each task in turn.
abbrev pub run_tasks : List Task → Bytes × ℕ → Bytes × ℕ
run_tasks [] s = s
run_tasks (t ∷ ts) s = run_tasks ts (run_task t s)

abbrev pub tasks_size : List Task → ℕ
tasks_size [] = 0
tasks_size (t ∷ ts) = task_size t + tasks_size ts

-- The blocks in the file after the tasks, the latest first.
abbrev pub blocks_after : List Task → List SeriesIndexBlock → List SeriesIndexBlock
blocks_after [] bs = bs
blocks_after (t ∷ ts) bs = blocks_after ts (block_of t ∷ bs)

run_tasks-IsIndexed :
    (ts : List Task) (f : Bytes) (tail pos : ℕ) (bs : List SeriesIndexBlock)
    → IsIndexed f tail pos bs
    → All IsTask ts
    → tasks_size ts ≤ pos
    → IsIndexed (run_tasks ts (f, pos)).0 tail (run_tasks ts (f, pos)).1 (blocks_after ts bs)
run_tasks-IsIndexed [] f tail pos bs h good room = h
run_tasks-IsIndexed (t ∷ ts) f tail pos bs h good room =
    let s = run_task t (f, pos) in
    let moved =
      ap (λ (r : Bytes × ℕ). r.1)
        (run_task-eq f tail pos t bs h.size h.chain h.low_fits good.0 (omega arith)) in
    run_tasks-IsIndexed ts s.0 tail s.1 (block_of t ∷ bs)
      (run_task-IsIndexed f tail pos t bs h.size h.chain h.low_fits good.0 (omega arith)) good.1
      (omega (arith, moved))

-- The first task needs no footer that names a region.
pub first_tasks-IsIndexed :
    (t : Task) (ts : List Task) (f : Bytes) (tail : ℕ)
    → length f ≡ tail + 8
    → tail < 2 ^ 64
    → All IsTask (t ∷ ts)
    → tasks_size (t ∷ ts) ≤ tail
    → let s = run_tasks (t ∷ ts) (f, tail) in IsIndexed s.0 tail s.1 (blocks_after (t ∷ ts) [])
first_tasks-IsIndexed t ts f tail size fits good room =
    let s = run_task t (f, tail) in
    let moved =
      ap (λ (r : Bytes × ℕ). r.1)
        (run_task-eq f tail tail t [] size refl fits good.0 (omega arith)) in
    run_tasks-IsIndexed ts s.0 tail s.1 (block_of t ∷ [])
      (run_task-IsIndexed f tail tail t [] size refl fits good.0 (omega arith)) good.1
      (omega (arith, moved))

-- After one task at least on a file of `tail` bytes and a footer, in which the tasks have room, the loader
-- returns the blocks of all of them, the latest first.
pub load-run_tasks :
    (t : Task) (ts : List Task) (f : Bytes) (tail : ℕ)
    → length f ≡ tail + 8
    → tail < 2 ^ 64
    → All IsTask (t ∷ ts)
    → tasks_size (t ∷ ts) ≤ tail
    → load_tsm_index_entry true (run_tasks (t ∷ ts) (f, tail)).0 ≡ ok (blocks_after (t ∷ ts) [])
load-run_tasks t ts f tail size fits good room =
    let s = run_tasks (t ∷ ts) (f, tail) in
    load-IsIndexed s.0 tail s.1 (blocks_after (t ∷ ts) [])
      (first_tasks-IsIndexed t ts f tail size fits good room)
