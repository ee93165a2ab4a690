-- ===== src/Write/Safe.antt =====
-- A flush of the waiting entries of a field by module one of `queue_flush_disk` (engine/tsm/write.cpp): the account of the
-- room keeps it off the data, and the loader of engine/tsm/iterator.cpp finds the entries.
use dtime_db.Prelude.{
  ℕ, ◌+◌, ◌^◌, ◌<◌, ◌≤◌, ◌≡◌, sym, ap, subst, ◌∙◌, Bool, true, some, List, ◌∷◌, length, arith,
}
use dtime_db.Token.{Text}
use dtime_db.Maps.{find}
use dtime_db.Maps.Laws.{find-put}
use dtime_db.Tsm.File.{Bytes, Decoded}
use dtime_db.Tsm.File.Stored.{IsStored}
use dtime_db.Tsm.Index.{SeriesIndexBlock, type_code, flush_series, load_tsm_index_entry}
use dtime_db.Tsm.Index.Chain.{IsChain}
use dtime_db.Tsm.Index.Load.{load-IsIndexed}
use dtime_db.Tsm.Index.Flush.{Task, IsTask, task_size, block_of, run_task, run_task-IsIndexed}
use dtime_db.Tsm.Layout.{run_task-IsStored}
use dtime_db.Tsm.Block.{Snappy}
use dtime_db.Write.{Shard, Field, IndexEntryInfo, Write}
use dtime_db.Write.Round.{content, file_at, flush_index}
use dtime_db.Write.Margin.{block_size, IsAccounted, waiting_room}

-- The waiting entries of a field are those of the task.
pub record IsWaiting (name : Text) (t : Task) (info : IndexEntryInfo) (field : Field) (w : Write)
    : Type 0 where
  pub at_name : find name w.index_map ≡ some info
  pub at_field : find name w.field_map ≡ some field
  pub entries : info.index_deque ≡ t.entry ∷ t.entries
  pub key : field.index_block_meta_key ≡ t.meta_key
  pub type : field.type ≡ type_code t.type

flush_series-task :
    (t : Task) (field : Field) (info : IndexEntryInfo) (is_open : Bool) (s : Bytes × ℕ)
    → is_open ≡ true
    → info.index_deque ≡ t.entry ∷ t.entries
    → field.index_block_meta_key ≡ t.meta_key
    → field.type ≡ type_code t.type
    → flush_series is_open field.type field.index_block_meta_key info.index_deque s ≡ run_task t s
flush_series-task t field info is_open s opened entries key type =
    ap (λ o. flush_series o field.type field.index_block_meta_key info.index_deque s) opened
    ∙ ap (λ n. flush_series true n field.index_block_meta_key info.index_deque s) type
    ∙ ap (λ k. flush_series true (type_code t.type) k info.index_deque s) key
    ∙ ap (λ es. flush_series true (type_code t.type) t.meta_key es s) entries

module _ (snappy : Snappy) (is_open : Text → Bool) (padding : Bytes) where
  file-flush_index :
      (name : Text) (t : Task) (info : IndexEntryInfo) (shard : Shard) (field : Field) (w : Write)
      → IsWaiting name t info field w
      → is_open shard.curr_file_path ≡ true
      → file_at shard.curr_file_path (flush_index snappy is_open padding name info shard field w)
        ≡ (run_task t (file_at shard.curr_file_path w, shard.curr_file_tail_offset)).0
  unfolding flush_index
  file-flush_index name t info shard field w waits opened =
      let path = shard.curr_file_path in
      let r =
        flush_series (is_open path) field.type field.index_block_meta_key info.index_deque
          (file_at path w, shard.curr_file_tail_offset) in
      ap content (find-put path r.0 w.files)
      ∙ ap (λ (p : Bytes × ℕ). p.0)
          (flush_series-task t field info (is_open path)
            (file_at path w, shard.curr_file_tail_offset) opened waits.entries waits.key waits.type)

  -- Where the room in a shard's file is accounted for and the file holds index blocks from the tail offset to the footer, a
  -- flush of the entries of a field makes the loader return the block of these entries in front of those blocks, and
  -- bytes that are stored below the head offset stay stored.
  pub flush_index_safe :
      (id name : Text) (t : Task) (info : IndexEntryInfo) (shard : Shard) (field : Field)
      (w : Write) (end : ℕ) (bs : List SeriesIndexBlock)
      → IsAccounted id shard w
      → IsWaiting name t info field w
      → IsTask t
      → is_open shard.curr_file_path ≡ true
      → length (file_at shard.curr_file_path w) ≡ end + 8
      → IsChain (file_at shard.curr_file_path w) shard.curr_file_tail_offset end bs
      → let f =
          file_at shard.curr_file_path
            (flush_index snappy is_open padding name info shard field w) in
        (load_tsm_index_entry true f ≡ Decoded.ok (block_of t ∷ bs))
        × ((off : ℕ) (data_bytes : Bytes)
            → off + length data_bytes ≤ shard.curr_file_head_offset
            → IsStored (file_at shard.curr_file_path w) off data_bytes
            → IsStored f off data_bytes)
  flush_index_safe id name t info shard field w end bs good waits task opened size chain =
      let f0 = file_at shard.curr_file_path w in
      let tail = shard.curr_file_tail_offset in
      let same : block_size (length field.index_block_meta_key) info.index_deque ≡ task_size t =
        ap (λ k. block_size (length k) info.index_deque) waits.key
        ∙ ap (λ es. block_size (length t.meta_key) es) waits.entries in
      let room : shard.curr_file_head_offset + task_size t ≤ tail =
        omega (
          arith,
          same,
          waiting_room id name info field shard w good waits.at_name waits.at_field,
        ) in
      let fits : tail < 2 ^ 64 = omega (arith, good.small) in
      let file = file-flush_index name t info shard field w waits opened in
      let indexed =
        run_task-IsIndexed f0 end tail t bs size chain fits task (omega (arith, room)) in
      (
        ap (λ f. load_tsm_index_entry true f) file
            ∙ load-IsIndexed (run_task t (f0, tail)).0 end (run_task t (f0, tail)).1
                (block_of t ∷ bs) indexed,
        λ off data_bytes below stored.
            subst (λ f. IsStored f off data_bytes) (sym file)
              (run_task-IsStored f0 end tail t bs off data_bytes size chain fits task
                (omega (arith, room, below)) stored),
      )
