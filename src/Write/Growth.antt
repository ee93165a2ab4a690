-- ===== src/Write/Growth.antt =====
-- The account of the room after module two of `queue_flush_disk` (engine/tsm/write.cpp) has written a block.
use dtime_db.Prelude.{
  ℕ, ◌+◌, ◌≡◌, refl, sym, ap, subst, ◌∙◌, Bool, true, false, not, Option, none, some, List, [], ◌∷◌,
  ◌++◌, length, length-append, Bool-cases, Option-cases, inl, inr, arith,
}
use dtime_db.Token.{Text}
use dtime_db.Maps.{Map, find, put, IsUnique, total, same_text, same_text-eq}
use dtime_db.Maps.Laws.{find-put, find-put-other, put-IsUnique, total-put_new, total-put_old}
use dtime_db.Tsm.Index.{IndexEntry}
use dtime_db.Write.{
  Field, IndexEntryInfo, Write, info_in, with_entry, index_info, push_index_to_deque, push_task,
  should_flush_index, member, is_empty,
}
use dtime_db.Write.Round.{Answers, set_mate_status, mark_meta, push_due_task}
use dtime_db.Write.Margin.{
  key_in, key_size, block_size, reserved, deque_in, waiting, IsMarked, IsOf, IsOneShard, total-put,
}

-- What the first entry of a field asks for in addition to its own bytes.
abbrev pub meta_room : Bool → ℕ → ℕ
meta_room true key = 8 + key
meta_room false key = 0

block_size-append :
    (key : ℕ) (es : List IndexEntry) (e : IndexEntry)
    → block_size key (es ++ (e ∷ [])) ≡ block_size key es + (28 + meta_room (is_empty es) key)
block_size-append key [] e = omega arith
block_size-append key (x ∷ es) e = omega (arith, length-append es (e ∷ []))

-- One entry more for a field.
put_entry_total :
    (fields : Map Field) (name : Text) (info : IndexEntryInfo) (m : Map IndexEntryInfo)
    (e : IndexEntry)
    → info.index_deque ≡ waiting name m ++ (e ∷ [])
    → total (reserved fields) (put name info m)
      ≡ total (reserved fields) m
        + (28 + meta_room (is_empty (waiting name m)) (key_size fields name))
put_entry_total fields name info m e h =
    let grown =
      ap (λ es. block_size (key_size fields name) es) h
      ∙ block_size-append (key_size fields name) (waiting name m) e in
    elim (Option-cases (find name m)) [
      | inl none' ↦
          let none_waits = ap (λ o. block_size (key_size fields name) (deque_in o)) none' in
          omega (arith, grown, none_waits, total-put_new (reserved fields) name info m none')
      | inr (o, some') ↦
          let old = ap (λ o. block_size (key_size fields name) (deque_in o)) some' in
          omega (arith, grown, old, total-put_old (reserved fields) name info o m some')
    ]

-- Another timer asks for no room.
put_timer_total :
    (fields : Map Field) (name : Text) (info info' : IndexEntryInfo) (m : Map IndexEntryInfo)
    → find name m ≡ some info
    → info'.index_deque ≡ info.index_deque
    → total (reserved fields) (put name info' m) ≡ total (reserved fields) m
put_timer_total fields name info info' m h e = omega (
  arith,
  ap (λ es. block_size (key_size fields name) es) e,
  total-put_old (reserved fields) name info' info m h,
)

pub put-IsOneShard :
    (id name : Text) (info : IndexEntryInfo) (m : Map IndexEntryInfo)
    → IsOneShard id m
    → IsOf id info
    → IsOneShard id (put name info m)
put-IsOneShard id name info m all new k i e = elim (Bool-cases (same_text k name)) [
  | inl s ↦
      let at_k =
        subst (λ t. find t (put name info m) ≡ some info) (sym (same_text-eq k name s))
          (find-put name info m) in
      subst (λ x. IsOf id x) (some_eq (sym at_k ∙ e)) new
  | inr n ↦ all k i (sym (find-put-other name k info m n) ∙ e)
]
  where
    some_eq : {a b : IndexEntryInfo} → some a ≡ some b → a ≡ b
    some_eq e = cc

pub deque_info : (o : Option IndexEntryInfo) → (info_in o).index_deque ≡ deque_in o
deque_info none = refl
deque_info (some info) = refl

with_entry-IsOf :
    (id : Text) (e : IndexEntry) (info : IndexEntryInfo)
    → is_empty id ≡ false
    → IsOf id info
    → IsOf id (with_entry id e info)
with_entry-IsOf id e info h (inl s) = inl (rw (ap (λ (t : Text). is_empty t) s ∙ h) s)
with_entry-IsOf id e info h (inr s) = inl (rw (ap (λ (t : Text). is_empty t) s.0))

pub info_in-IsOf :
    (id name : Text) (m : Map IndexEntryInfo) → IsOneShard id m → IsOf id (info_in (find name m))
info_in-IsOf id name m all = elim (Option-cases (find name m)) [
  | inl h ↦ subst (λ o. IsOf id (info_in o)) (sym h) (inr (refl, refl))
  | inr (info, h) ↦ subst (λ o. IsOf id (info_in o)) (sym h) (all name info h)
]

-- The state of the maps after a written block.
pub record IsGrown (id name : Text) (field : Field) (w w' : Write) : Type 0 where
  pub shards : w'.mea_shard_map ≡ w.mea_shard_map
  pub one_shard : IsOneShard id w'.index_map
  pub unique : IsUnique w'.index_map
  pub marked : IsMarked w'.field_map w'.index_map
  pub sum :
      total (reserved w'.field_map) w'.index_map
      ≡ total (reserved w.field_map) w.index_map
        + (28 + meta_room (not field.mate_status) (length field.index_block_meta_key))

-- The marks are right after a change at one field that leaves it marked, with entries that wait.
IsMarked-grows :
    (name : Text) (fields fields' : Map Field) (m m' : Map IndexEntryInfo)
    → IsMarked fields m
    → ((g : Field) → find name fields' ≡ some g → g.mate_status ≡ true)
    → is_empty (waiting name m') ≡ false
    → ((k : Text) → same_text k name ≡ false → find k fields' ≡ find k fields)
    → ((k : Text) → same_text k name ≡ false → find k m' ≡ find k m)
    → IsMarked fields' m'
IsMarked-grows name fields fields' m m' marked on waits other other' k g e =
    elim (Bool-cases (same_text k name)) [
      | inl s ↦
          let is_name = same_text-eq k name s in
          on g (subst (λ t. find t fields' ≡ some g) is_name e)
          ∙ sym (subst (λ t. not (is_empty (waiting t m')) ≡ true) (sym is_name) (ap not waits))
      | inr n ↦
          marked k g (sym (other k n) ∙ e)
          ∙ sym (ap (λ o. not (is_empty (deque_in o))) (other' k n))
    ]

append_waits : (es : List IndexEntry) (e : IndexEntry) → is_empty (es ++ (e ∷ [])) ≡ false
append_waits [] e = refl
append_waits (x ∷ es) e = refl

pub push_due_task_maps :
    (a : Answers) (name : Text) (w : Write)
    → ((push_due_task a name w).index_map ≡ w.index_map)
      × ((push_due_task a name w).field_map ≡ w.field_map)
      × ((push_due_task a name w).mea_shard_map ≡ w.mea_shard_map)
unfolding push_due_task push_task
push_due_task_maps a name w = elim (Bool-cases (should_flush_index a.current_time name w)) [
  | inr n ↦ rw n (refl, refl, refl)
  | inl y ↦ elim (Bool-cases (member name w.task_set)) [
    | inl s ↦ rw (y, s) (refl, refl, refl)
    | inr s ↦ rw (y, s) (refl, refl, refl)
  ]
]

some_field : {a b : Field} → some a ≡ some b → a ≡ b
some_field e = cc

unnot : (b c : Bool) → b ≡ not c → c ≡ not b
unnot true true e = e
unnot true false e = refl
unnot false true e = refl
unnot false false e = e

module _ (a : Answers) (id name : Text) (field : Field) (e : IndexEntry) (w : Write)
    (is_id : is_empty id ≡ false) (one_shard : IsOneShard id w.index_map)
    (unique : IsUnique w.index_map) (marked : IsMarked w.field_map w.index_map)
    (at_field : find name w.field_map ≡ some field) where
  abbrev info' : IndexEntryInfo
  info' = with_entry id e (index_info name w)

  abbrev pushed_map : Map IndexEntryInfo
  pushed_map = put name info' w.index_map

  info'-deque : info'.index_deque ≡ waiting name w.index_map ++ (e ∷ [])
  info'-deque = ap (λ es. es ++ (e ∷ [])) (deque_info (find name w.index_map))

  pushed-IsOneShard : IsOneShard id pushed_map
  pushed-IsOneShard =
      put-IsOneShard id name info' w.index_map one_shard (
        with_entry-IsOf id e (index_info name w) is_id (info_in-IsOf id name w.index_map one_shard))

  pushed_waits :
      (info : IndexEntryInfo) (m : Map IndexEntryInfo)
      → info.index_deque ≡ info'.index_deque
      → is_empty (waiting name (put name info m)) ≡ false
  pushed_waits info m h =
      ap (λ o. is_empty (deque_in o)) (find-put name info m)
      ∙ ap (λ (l : List IndexEntry). is_empty l) (h ∙ info'-deque)
      ∙ append_waits (waiting name w.index_map) e

  pushed_total :
      total (reserved w.field_map) pushed_map
      ≡ total (reserved w.field_map) w.index_map
        + (28 + meta_room (not field.mate_status) (length field.index_block_meta_key))
  pushed_total =
      put_entry_total w.field_map name info' w.index_map e info'-deque
      ∙ ap
          (λ b.
            total (reserved w.field_map) w.index_map
            + (28 + meta_room b (key_size w.field_map name)))
          (unnot field.mate_status (is_empty (waiting name w.index_map))
            (marked name field at_field))
      ∙ ap
          (λ k.
            total (reserved w.field_map) w.index_map + (28 + meta_room (not field.mate_status) k))
          (ap key_in at_field)

  abbrev timed : IndexEntryInfo
  timed = record (info_in (find name pushed_map)) { last_time = a.now }

  abbrev timed_map : Map IndexEntryInfo
  timed_map = put name timed pushed_map

  abbrev field' : Field
  field' = record field { mate_status = true }

  abbrev fields' : Map Field
  fields' = put name field' w.field_map

  at_info : info_in (find name pushed_map) ≡ info'
  at_info = ap info_in (find-put name info' w.index_map)

  timed_deque : timed.index_deque ≡ info'.index_deque
  timed_deque = ap (λ (i : IndexEntryInfo). i.index_deque) at_info

  timed-IsOneShard : IsOneShard id timed_map
  timed-IsOneShard = put-IsOneShard id name timed pushed_map pushed-IsOneShard (
      subst (λ (i : IndexEntryInfo). IsOf id (record i { last_time = a.now })) (sym at_info)
        (retimed (
          with_entry-IsOf id e (index_info name w) is_id
            (info_in-IsOf id name w.index_map one_shard))))
    where
      retimed : IsOf id info' → IsOf id (record info' { last_time = a.now })
      retimed h = h

  timed_total :
      total (reserved fields') timed_map
      ≡ total (reserved w.field_map) w.index_map
        + (28 + meta_room (not field.mate_status) (length field.index_block_meta_key))
  timed_total =
      total-put name field field' w.field_map timed_map at_field refl
      ∙ put_timer_total w.field_map name info' timed pushed_map (find-put name info' w.index_map)
          timed_deque
      ∙ pushed_total

  push-IsGrown :
      field.mate_status ≡ true → IsGrown id name field w (push_index_to_deque id name e w)
  unfolding push_index_to_deque
  push-IsGrown on = record {
    shards = refl;
    one_shard = pushed-IsOneShard;
    unique = put-IsUnique name info' w.index_map unique;
    marked =
        IsMarked-grows name w.field_map w.field_map w.index_map pushed_map marked
          (λ g h. ap (λ (g : Field). g.mate_status) (some_field (sym h ∙ at_field)) ∙ on)
          (pushed_waits info' w.index_map refl) (λ k n. refl)
          (λ k n. find-put-other name k info' w.index_map n);
    sum = pushed_total;
  }

  timed-IsGrown :
      IsGrown id name field w (set_mate_status true name field (record w { index_map = timed_map }))
  timed-IsGrown = record {
    shards = refl;
    one_shard = timed-IsOneShard;
    unique = put-IsUnique name timed pushed_map (put-IsUnique name info' w.index_map unique);
    marked =
        IsMarked-grows name w.field_map fields' w.index_map timed_map marked
          (λ g h.
            ap (λ (g : Field). g.mate_status)
              (some_field (sym h ∙ find-put name field' w.field_map)))
          (pushed_waits timed pushed_map timed_deque)
          (λ k n. find-put-other name k field' w.field_map n)
          (λ k n.
            find-put-other name k timed pushed_map n ∙ find-put-other name k info' w.index_map n);
    sum = timed_total;
  }

  pub mark_meta-IsGrown :
      IsGrown id name field w (mark_meta a name field (push_index_to_deque id name e w))
  unfolding mark_meta push_index_to_deque
  mark_meta-IsGrown = elim (Bool-cases field.mate_status) [
    | inl on ↦
        let keeps : mark_meta a name field (push_index_to_deque id name e w)
            ≡ push_index_to_deque id name e w =
          rw on in
        subst (λ v. IsGrown id name field w v) (sym keeps) (push-IsGrown on)
    | inr off ↦
        let marks : mark_meta a name field (push_index_to_deque id name e w)
            ≡ set_mate_status true name field (record w { index_map = timed_map }) =
          rw off in
        subst (λ v. IsGrown id name field w v) (sym marks) timed-IsGrown
  ]
