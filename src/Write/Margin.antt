-- ===== src/Write/Margin.antt =====
-- The account of the room in a shard's current file that `queue_flush_disk` of engine/tsm/write.cpp keeps: the data
-- blocks grow up to the head offset, the index blocks grow down to the tail offset, and the margin is what is
-- left between them when the entries that wait are written.
use dtime_db.Prelude.{
  ℕ, ◌+◌, ◌-◌, ◌*◌, ◌^◌, ◌<◌, ◌≤◌, ◌≡◌, refl, sym, ap, subst, ◌∙◌, Bool, true, false, not, Option,
  none, some, List, [], ◌∷◌, length, Bool-cases, inl, inr, ◌⊎◌, arith,
}
use dtime_db.Token.{Text}
use dtime_db.Maps.{Map, find, put, erase, IsUnique, total, same_text, same_text-eq}
use dtime_db.Maps.Laws.{
  find-put, find-put-other, erase-other, find-erase, erase-IsUnique, total-erase, total-agree,
}
use dtime_db.Tsm.File.{Bytes}
use dtime_db.Tsm.Index.{IndexEntry, flush_series}
use dtime_db.Tsm.Block.{Snappy}
use dtime_db.Write.{Shard, Field, IndexEntryInfo, Write, is_empty, minus}
use dtime_db.Write.Round.{flush_index, file_at}

abbrev pub key_in : Option Field → ℕ
key_in none = 0
key_in (some field) = length field.index_block_meta_key

abbrev pub key_size : Map Field → Text → ℕ
key_size fields name = key_in (find name fields)

-- The size of the series block that the waiting entries of a field will be.
abbrev pub block_size : ℕ → List IndexEntry → ℕ
block_size key [] = 0
block_size key (e ∷ es) = 28 * length (e ∷ es) + 8 + key

abbrev pub reserved : Map Field → Text → IndexEntryInfo → ℕ
reserved fields name info = block_size (key_size fields name) info.index_deque

-- The entries of a field that wait.
abbrev pub deque_in : Option IndexEntryInfo → List IndexEntry
deque_in none = []
deque_in (some info) = info.index_deque

abbrev pub waiting : Text → Map IndexEntryInfo → List IndexEntry
waiting name m = deque_in (find name m)

-- A field is marked just when entries of it wait.
abbrev pub IsMarked : Map Field → Map IndexEntryInfo → Type 0
IsMarked fields m =
    (k : Text) (field : Field)
    → find k fields ≡ some field
    → field.mate_status ≡ not (is_empty (waiting k m))

-- An entry of the index map belongs to the shard, or it is as `operator[]` makes it.
abbrev pub IsOf : Text → IndexEntryInfo → Type 0
IsOf id info = (info.shard_id ≡ id) ⊎ ((info.shard_id ≡ []) × (info.index_deque ≡ []))

abbrev pub IsOneShard : Text → Map IndexEntryInfo → Type 0
IsOneShard id m = (k : Text) (info : IndexEntryInfo) → find k m ≡ some info → IsOf id info

-- The shard `id` is the only one at work, it has a file, and the room in that file is accounted for.
pub record IsAccounted (id : Text) (shard : Shard) (w : Write) : Type 0 where
  pub found : find id w.mea_shard_map ≡ some shard
  pub is_id : is_empty id ≡ false
  pub one_shard : IsOneShard id w.index_map
  pub unique : IsUnique w.index_map
  pub marked : IsMarked w.field_map w.index_map
  pub room :
      shard.curr_file_head_offset
        + shard.curr_file_margin
        + total (reserved w.field_map) w.index_map
      ≡ shard.curr_file_tail_offset
  pub small : shard.curr_file_tail_offset < 2 ^ 63

pub minus-eq : (a b : ℕ) → b ≤ a → a < 2 ^ 64 → minus a b ≡ a - b
minus-eq a b l h = omega arith

-- A change of the mark changes no key.
key_size-put :
    (name : Text) (field field' : Field) (fields : Map Field)
    → find name fields ≡ some field
    → field'.index_block_meta_key ≡ field.index_block_meta_key
    → (k : Text) → key_size (put name field' fields) k ≡ key_size fields k
key_size-put name field field' fields h e k = elim (Bool-cases (same_text k name)) [
  | inl s ↦
      let name_is = sym (same_text-eq k name s) in
      let after = ap key_in (find-put name field' fields) ∙ ap (λ l. length l) e in
      let before = ap key_in h in
      subst (λ t. key_size (put name field' fields) t ≡ key_size fields t) name_is
        (after ∙ sym before)
  | inr n ↦ ap key_in (find-put-other name k field' fields n)
]

pub total-put :
    (name : Text) (field field' : Field) (fields : Map Field) (m : Map IndexEntryInfo)
    → find name fields ≡ some field
    → field'.index_block_meta_key ≡ field.index_block_meta_key
    → total (reserved (put name field' fields)) m ≡ total (reserved fields) m
total-put name field field' fields m h e =
    total-agree (reserved (put name field' fields)) (reserved fields) m (λ k info.
      ap (λ s. block_size s info.index_deque) (key_size-put name field field' fields h e k))

-- The tail that `flush_series` returns.
flush_series-tail :
    (is_open : Bool) (type : ℕ) (key : Bytes) (es : List IndexEntry) (f : Bytes) (tail : ℕ)
    → block_size (length key) es ≤ tail
    → tail < 2 ^ 63
    → (flush_series is_open type key es (f, tail)).1 ≡ tail - block_size (length key) es
unfolding flush_series
flush_series-tail is_open type key [] f tail l h = omega arith
flush_series-tail is_open type key (e ∷ es) f tail l h = omega arith

-- The index block of a field whose entries wait has room between the head and the tail.
pub waiting_room :
    (id name : Text) (info : IndexEntryInfo) (field : Field) (shard : Shard) (w : Write)
    → IsAccounted id shard w
    → find name w.index_map ≡ some info
    → find name w.field_map ≡ some field
    → shard.curr_file_head_offset + block_size (length field.index_block_meta_key) info.index_deque
      ≤ shard.curr_file_tail_offset
waiting_room id name info field shard w good at_name at_field =
    let key = ap (λ o. block_size (key_in o) info.index_deque) at_field in
    omega (arith, good.room, key, total-erase (reserved w.field_map) name info w.index_map at_name)

-- An entry that is left after `erase` stood there before.
still :
    (name k : Text) (info : IndexEntryInfo) (m : Map IndexEntryInfo)
    → IsUnique m
    → find k (erase name m) ≡ some info
    → find k m ≡ some info
still name k info m u e = elim (Bool-cases (same_text k name)) [
  | inl s ↦
      let gone =
        subst (λ t. find t (erase name m) ≡ none) (sym (same_text-eq k name s))
          (find-erase name m u) in
      absurd (no_some (sym gone ∙ e))
  | inr n ↦ sym (erase-other name k m n) ∙ e
]
  where
    no_some : none ≡ some info → ⊥
    no_some e = cc

-- Once the entries of a field are gone and its mark is taken away, the marks are right.
mark :
    (name : Text) (field : Field) (fields : Map Field) (m : Map IndexEntryInfo)
    → IsUnique m
    → IsMarked fields m
    → IsMarked (put name (record field { mate_status = false }) fields) (erase name m)
mark name field fields m u marked k g e = elim (Bool-cases (same_text k name)) [
  | inl s ↦
      let field' = record field { mate_status = false } in
      let name_is = sym (same_text-eq k name s) in
      let at_k =
        subst (λ t. find t (put name field' fields) ≡ some field') name_is
          (find-put name field' fields) in
      let gone = subst (λ t. find t (erase name m) ≡ none) name_is (find-erase name m u) in
      ap (λ (h : Field). h.mate_status) (some_eq (sym e ∙ at_k))
      ∙ sym (ap (λ o. not (is_empty (deque_in o))) gone)
  | inr n ↦
      marked k g (sym (find-put-other name k (record field { mate_status = false }) fields n) ∙ e)
      ∙ sym (ap (λ o. not (is_empty (deque_in o))) (erase-other name k m n))
]
  where
    some_eq : {a b : Field} → some a ≡ some b → a ≡ b
    some_eq e = cc

pub of_id :
    (id : Text) (info : IndexEntryInfo)
    → is_empty info.index_deque ≡ false
    → IsOf id info
    → info.shard_id ≡ id
of_id id info h (inl e) = e
of_id id info h (inr e) = absurd (bad (sym h ∙ ap (λ (l : List IndexEntry). is_empty l) e.1))
  where
    bad : false ≡ true → ⊥
    bad e = cc

module _ (snappy : Snappy) (is_open : Text → Bool) (padding : Bytes) where
  pub flush_index-IsAccounted :
      (id name : Text) (info : IndexEntryInfo) (shard : Shard) (field : Field) (w : Write)
      → IsAccounted id shard w
      → find name w.index_map ≡ some info
      → is_empty info.index_deque ≡ false
      → find name w.field_map ≡ some field
      → (tail : ℕ) × IsAccounted id
          (record shard { curr_file_tail_offset = tail })
          (flush_index snappy is_open padding name info shard field w)
  unfolding flush_index
  flush_index-IsAccounted id name info shard field w good at_name some_wait at_field =
      let size = block_size (length field.index_block_meta_key) info.index_deque in
      let field' = record field { mate_status = false } in
      let fields' = put name field' w.field_map in
      let index' = erase name w.index_map in
      let key : key_size w.field_map name ≡ length field.index_block_meta_key =
        ap key_in at_field in
      let size_is : reserved w.field_map name info ≡ size =
        ap (λ k. block_size k info.index_deque) key in
      let less = total-erase (reserved w.field_map) name info w.index_map at_name in
      let same = total-put name field field' w.field_map index' at_field refl in
      let tail =
        flush_series-tail (is_open shard.curr_file_path) field.type field.index_block_meta_key
          info.index_deque (file_at shard.curr_file_path w) shard.curr_file_tail_offset
          (omega (arith, good.room, less, size_is)) good.small in
      let shard' = record shard {
        curr_file_tail_offset =
            (flush_series (is_open shard.curr_file_path) field.type field.index_block_meta_key
              info.index_deque (file_at shard.curr_file_path w, shard.curr_file_tail_offset)).1;
      } in
      (
        shard'.curr_file_tail_offset,
        record {
          found =
              subst (λ k. find id (put k shard' w.mea_shard_map) ≡ some shard')
                (sym (of_id id info some_wait (good.one_shard name info at_name)))
                (find-put id shard' w.mea_shard_map);
          is_id = good.is_id;
          one_shard = λ k i e. good.one_shard k i (still name k i w.index_map good.unique e);
          unique = erase-IsUnique name w.index_map good.unique;
          marked = λ k g e. mark name field w.field_map w.index_map good.unique good.marked k g e;
          room = omega (arith, good.room, less, size_is, tail, same);
          small = omega (arith, tail, good.small);
        },
      )
