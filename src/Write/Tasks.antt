-- ===== src/Write/Tasks.antt =====
-- Module one of `queue_flush_disk` (engine/tsm/write.cpp) on a task: it keeps the account of the room, and a task for a
-- field without entries is undefined.
use dtime_db.Prelude.{
  ℕ, ◌+◌, ◌≡◌, refl, sym, ap, subst, ◌∙◌, Bool, not, Option, none, some, List, [], ◌∷◌, Bool-cases,
  Option-cases, inl, inr, arith,
}
use dtime_db.Token.{Text}
use dtime_db.Maps.{Map, find, put, total, same_text, same_text-eq}
use dtime_db.Maps.Laws.{find-put, find-put-other, put-IsUnique, total-put_new, total-put_old}
use dtime_db.Tsm.File.{Bytes}
use dtime_db.Tsm.Block.{Snappy}
use dtime_db.Write.{
  Shard, Field, IndexEntryInfo, Write, index_info, info_in, is_empty, pop_task, get_shard, delete,
}
use dtime_db.Write.Round.{
  FirstPart, goes_on, continues, undefined, flush_task, begin_task, module_one,
}
use dtime_db.Write.Margin.{
  reserved, deque_in, block_size, key_size, waiting, IsAccounted, of_id, flush_index-IsAccounted,
}
use dtime_db.Write.Growth.{deque_info, put-IsOneShard, info_in-IsOf}

-- `m_index_map[name]` changes no entry that waits.
waiting-put :
    (name k : Text) (m : Map IndexEntryInfo)
    → waiting k (put name (info_in (find name m)) m) ≡ waiting k m
waiting-put name k m = elim (Bool-cases (same_text k name)) [
  | inl s ↦
      subst (λ t. waiting t (put name (info_in (find name m)) m) ≡ waiting t m)
        (sym (same_text-eq k name s))
        (ap deque_in (find-put name (info_in (find name m)) m) ∙ deque_info (find name m))
  | inr n ↦ ap deque_in (find-put-other name k (info_in (find name m)) m n)
]

total-touch :
    (fields : Map Field) (name : Text) (m : Map IndexEntryInfo)
    → total (reserved fields) (put name (info_in (find name m)) m) ≡ total (reserved fields) m
total-touch fields name m =
    let size = block_size (key_size fields name) in
    let touched : size (info_in (find name m)).index_deque ≡ size (deque_in (find name m)) =
      ap size (deque_info (find name m)) in
    elim (Option-cases (find name m)) [
      | inl e ↦
          let no_room : size (deque_in (find name m)) ≡ 0 = ap (λ o. size (deque_in o)) e in
          omega (
            arith,
            touched,
            no_room,
            total-put_new (reserved fields) name (info_in (find name m)) m e,
          )
      | inr (o, e) ↦
          let old : size (deque_in (find name m)) ≡ size o.index_deque =
            ap (λ o. size (deque_in o)) e in
          omega (
            arith,
            touched,
            old,
            total-put_old (reserved fields) name (info_in (find name m)) o m e,
          )
    ]

-- The state in which module one searches the shard.
touch : Text → Write → Write
touch name w = record w { index_map = put name (index_info name w) w.index_map }

touch-IsAccounted :
    (id name : Text) (shard : Shard) (w : Write)
    → IsAccounted id shard w
    → IsAccounted id shard (touch name w)
unfolding touch
touch-IsAccounted id name shard w good = record {
  found = good.found;
  is_id = good.is_id;
  one_shard =
      put-IsOneShard id name (index_info name w) w.index_map good.one_shard
        (info_in-IsOf id name w.index_map good.one_shard);
  unique = put-IsUnique name (index_info name w) w.index_map good.unique;
  marked = λ k g e.
      good.marked k g e ∙ sym (ap (λ l. not (is_empty l)) (waiting-put name k w.index_map));
  room =
      ap (λ n. shard.curr_file_head_offset + shard.curr_file_margin + n)
        (total-touch w.field_map name w.index_map)
      ∙ good.room;
  small = good.small;
}

-- The tasks have no part in the account.
tasks-IsAccounted :
    (id : Text) (shard : Shard) (w : Write) (set queue : List Text)
    → IsAccounted id shard w
    → IsAccounted id shard (record w { task_set = set; index_task_queue = queue })
tasks-IsAccounted id shard w set queue good = record {
  found = good.found;
  is_id = good.is_id;
  one_shard = good.one_shard;
  unique = good.unique;
  marked = good.marked;
  room = good.room;
  small = good.small;
}

-- The room is accounted for, with the tail moved at most.
abbrev pub StaysAccounted : Text → Shard → Write → Type 0
StaysAccounted id shard w =
    (tail : ℕ) × IsAccounted id (record shard { curr_file_tail_offset = tail }) w

abbrev pub AccountedPart : Text → Shard → FirstPart → Type 0
AccountedPart id shard (goes_on w) = StaysAccounted id shard w
AccountedPart id shard (continues w) = StaysAccounted id shard w
AccountedPart id shard undefined = Unit

module _ (snappy : Snappy) (is_open : Text → Bool) (padding : Bytes) where
  flush_task-IsAccounted :
      (id name : Text) (info : IndexEntryInfo) (shard : Shard) (o : Option Shard)
      (field : Option Field) (w : Write)
      → IsAccounted id shard w
      → find name w.index_map ≡ some info
      → get_shard info.shard_id w ≡ o
      → find name w.field_map ≡ field
      → AccountedPart id shard (flush_task snappy is_open padding name info o field w)
  unfolding flush_task get_shard
  flush_task-IsAccounted id name info shard none field w good at_name at_shard at_field = tt
  flush_task-IsAccounted id name info shard (some s) none w good at_name at_shard at_field =
      elim (Bool-cases (is_empty info.index_deque)) [
        | inl e ↦ rw e (shard.curr_file_tail_offset, good)
        | inr n ↦ rw n tt
      ]
  flush_task-IsAccounted id name info shard (some s) (some field) w good at_name at_shard at_field =
      elim (Bool-cases (is_empty info.index_deque)) [
        | inl e ↦ rw e (shard.curr_file_tail_offset, good)
        | inr n ↦
            let is_id = of_id id info n (good.one_shard name info at_name) in
            let same : s ≡ shard =
              some_eq (sym at_shard ∙ ap (λ t. find t w.mea_shard_map) is_id ∙ good.found) in
            rw (n, same)
              (flush_index-IsAccounted snappy is_open padding id name info shard field w good
                at_name n at_field)
      ]
    where
      some_eq : {a b : Shard} → some a ≡ some b → a ≡ b
      some_eq e = cc

  -- Where the room in a shard's file is accounted for, module one leaves it accounted for, with the same margin and head,
  -- whether it flushes the entries of a field or finds nothing to do, if its behaviour is defined.
  pub module_one-IsAccounted :
      (id : Text) (shard : Shard) (w : Write)
      → IsAccounted id shard w
      → AccountedPart id shard (module_one snappy is_open padding w)
  unfolding module_one begin_task pop_task touch
  module_one-IsAccounted id shard w good = go w.index_task_queue refl
    where
      go :
          (q : List Text)
          → w.index_task_queue ≡ q
          → AccountedPart id shard (module_one snappy is_open padding w)
      go [] e = rw e (shard.curr_file_tail_offset, tasks-IsAccounted id shard w w.task_set [] good)
      go (name ∷ q) e =
          let w1 = record w { task_set = delete name w.task_set; index_task_queue = q } in
          let good1 =
            touch-IsAccounted id name shard w1
              (tasks-IsAccounted id shard w (delete name w.task_set) q good) in
          let info = info_in (find name w.index_map) in
          rw e (
            flush_task-IsAccounted id name info shard (get_shard info.shard_id (touch name w1))
              (find name w.field_map) (touch name w1) good1 (find-put name info w.index_map) refl
              refl)
