-- ===== src/Write/Entered.antt =====
-- Values that come to `Write::write` (engine/tsm/write.cpp) one after the other, against plain windows of points.
use dtime_db.Prelude.{
  ℕ, ◌≡◌, refl, sym, ap, subst, ◌∙◌, false, Option, none, some, List, [], ◌∷◌, ◌++◌, append_assoc,
  append-nil, map, leb, if◌then◌else◌, Option-cases, inl, inr,
}
use dtime_db.Token.{Text}
use dtime_db.Maps.{Map, find, put, same_text}
use dtime_db.Maps.Laws.{find-put-other}
use dtime_db.SkipList.{Run, ok, ◌>>=◌}
use dtime_db.Field.{OpenBlock, Window}
use dtime_db.Field.Plain.{new_plain_window, PlainResult}
use dtime_db.Field.Windows.{PlainWindows, plain_set, AreWindows, plain_field}
use dtime_db.Write.{Write, Field, QueuedBlock, push_data_to_deque}
use dtime_db.Write.Enter.{
  new_field, get_field, ensure_shard, push_blocks, Entering, series_of, value_of, write,
}

-- The type of each field that has been made, and its windows.
pub record PlainFields : Type 0 where
  pub types : Text → Option ℕ
  pub windows : Text → PlainWindows

abbrev pub no_fields : PlainFields
no_fields = record { types = λ name. none; windows = λ name k. new_plain_window }

-- A field keeps the type that it was made with.
abbrev pub type_or : ℕ → Option ℕ → ℕ
type_or type none = type
type_or type (some t) = t

abbrev pub plain_entering : (ℕ → Text) → Entering → PlainFields → PlainResult
plain_entering shard_key e s =
    plain_field e.moment (shard_key e.timestamp) e.timestamp (value_of e) (series_of e)
      (new_field e.field_name (type_or e.type (s.types e.field_name))) (s.windows e.field_name)

abbrev pub plain_enter : (ℕ → Text) → Entering → PlainFields → PlainFields
plain_enter shard_key e s =
    let name = e.field_name in
    let key = shard_key e.timestamp ++ series_of e in
    record {
      types = λ k. if same_text k name then some (type_or e.type (s.types name)) else s.types k;
      windows = λ k.
          if same_text k name
          then plain_set key (plain_entering shard_key e s).0 (s.windows name)
          else s.windows k;
    }

-- The blocks that a sequence of values gives, in order; a value of an unknown type is passed over.
unfoldable pub plain_blocks : (ℕ → Text) → List Entering → PlainFields → List OpenBlock
plain_blocks shard_key [] s = []
plain_blocks shard_key (e ∷ es) s =
    let skipped = plain_blocks shard_key es s in
    let entered =
      (plain_entering shard_key e s).1.1.0
      ++ plain_blocks shard_key es (plain_enter shard_key e s) in
    if leb 3 e.type then skipped else entered

unfoldable pub write_all : (ℕ → Text) → List Entering → Write → Run Write
write_all shard_key [] w = ok w
write_all shard_key (e ∷ es) w = do w1 ← write shard_key e w; write_all shard_key es w1

abbrev pub type_in : Option Field → Option ℕ
type_in none = none
type_in (some f) = some f.type

abbrev pub map_in : Option Field → Map Window
map_in none = []
map_in (some f) = f.shard_skip_map

abbrev pub IsNamed : Text → Option Field → Type 0
IsNamed name none = Unit
IsNamed name (some f) = f.name ≡ name

pub record IsPlainField (name : Text) (o : Option Field) (type : Option ℕ) (ps : PlainWindows)
    : Type 0 where
  pub kept : type_in o ≡ type
  pub named : IsNamed name o
  pub windows : AreWindows (map_in o) ps

-- The fields of a writer stand for plain ones.
abbrev pub ArePlain : Write → PlainFields → Type 0
ArePlain w s =
    (name : Text) → IsPlainField name (find name w.field_map) (s.types name) (s.windows name)

pub IsPlainField-agree :
    (name name' : Text) (o o' : Option Field) (t t' : Option ℕ) (ps ps' : PlainWindows)
    → name ≡ name'
    → o ≡ o'
    → t ≡ t'
    → ps ≡ ps'
    → IsPlainField name' o' t' ps'
    → IsPlainField name o t ps
IsPlainField-agree name name' o o' t t' ps ps' h k m n p =
    subst (λ name. IsPlainField name o t ps) (sym h)
      (subst (λ o. IsPlainField name' o t ps) (sym k)
        (subst (λ t. IsPlainField name' o' t ps) (sym m)
          (subst (IsPlainField name' o' t') (sym n) p)))

-- The field that a call of `write` works on.
pub record IsGot (name : Text) (type : ℕ) (w : Write) (s : PlainFields) : Type 0 where
  pub field : Field
  pub after : Write
  pub result : get_field name type w ≡ (field, after)
  pub type_is : field.type ≡ type_or type (s.types name)
  pub name_is : field.name ≡ name
  pub windows : AreWindows field.shard_skip_map (s.windows name)
  pub deque : after.data_deque ≡ w.data_deque
  pub others : (k : Text) → same_text k name ≡ false → find k after.field_map ≡ find k w.field_map

pub got :
    (name : Text) (type : ℕ) (w : Write) (s : PlainFields) → ArePlain w s → IsGot name type w s
unfolding get_field
got name type w s h = elim (Option-cases (find name w.field_map)) [
  | inl missing ↦
      let p = subst (λ o. IsPlainField name o (s.types name) (s.windows name)) missing (h name) in
      record {
        field = new_field name type;
        after = record w { field_map = put name (new_field name type) w.field_map };
        result = rw (get_field, missing) refl;
        type_is = ap (type_or type) p.kept;
        name_is = refl;
        windows = p.windows;
        deque = refl;
        others = λ k other. find-put-other name k (new_field name type) w.field_map other;
      }
  | inr (f, there) ↦
      let p = subst (λ o. IsPlainField name o (s.types name) (s.windows name)) there (h name) in
      record {
        field = f;
        after = w;
        result = rw (get_field, there) refl;
        type_is = ap (type_or type) p.kept;
        name_is = p.named;
        windows = p.windows;
        deque = refl;
        others = λ k other. refl;
      }
]

-- `ensure_shard` changes the shards only.
pub ensure_shard-fields : (id : Text) (w : Write) → (ensure_shard id w).field_map ≡ w.field_map
unfolding ensure_shard
ensure_shard-fields id w = elim (Option-cases (find id w.mea_shard_map)) [
  | inl missing ↦ rw (ensure_shard, missing) refl
  | inr (s, there) ↦ rw (ensure_shard, there) refl
]

pub ensure_shard-deque : (id : Text) (w : Write) → (ensure_shard id w).data_deque ≡ w.data_deque
unfolding ensure_shard
ensure_shard-deque id w = elim (Option-cases (find id w.mea_shard_map)) [
  | inl missing ↦ rw (ensure_shard, missing) refl
  | inr (s, there) ↦ rw (ensure_shard, there) refl
]

abbrev pub queued : List OpenBlock → List QueuedBlock
queued = map (λ b. b.block)

pub push_blocks-deque :
    (bs : List OpenBlock) (w : Write) → (push_blocks bs w).data_deque ≡ w.data_deque ++ queued bs
unfolding push_blocks push_data_to_deque
push_blocks-deque [] w = sym (append-nil w.data_deque)
push_blocks-deque (b ∷ bs) w =
    push_blocks-deque bs (push_data_to_deque b.block w)
    ∙ append_assoc w.data_deque (b.block ∷ []) (queued bs)

pub push_blocks-fields :
    (bs : List OpenBlock) (w : Write) → (push_blocks bs w).field_map ≡ w.field_map
unfolding push_blocks push_data_to_deque
push_blocks-fields [] w = refl
push_blocks-fields (b ∷ bs) w = push_blocks-fields bs (push_data_to_deque b.block w)
