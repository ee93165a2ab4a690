-- ===== src/Write/Arrival.antt =====
-- One call of `Write::write` (engine/tsm/write.cpp): what it leaves in the fields and in the queue.
use dtime_db.Prelude.{
  ℕ, ◌<◌, ◌^◌, ◌≡◌, refl, ap, subst, ◌∙◌, none, some, List, [], ◌++◌, Bool-cases, inl, inr,
}
use dtime_db.Token.{Text}
use dtime_db.Maps.{find, put, same_text, same_text-eq}
use dtime_db.Maps.Laws.{find-put, find-put-other}
use dtime_db.SkipList.{ok}
use dtime_db.Field.{OpenBlock, Notice, Moment, write_field}
use dtime_db.Field.Plain.{new_plain_window, PlainResult}
use dtime_db.Field.Windows.{
  PlainWindows, plain_set, AreWindows, empty-AreWindows, plain_field, IsFieldWritten,
  write_field_lem,
}
use dtime_db.Write.{Write, Field}
use dtime_db.Write.Enter.{
  new_field, get_field, ensure_shard, push_blocks, Entering, series_of, value_of, write_known,
}
use dtime_db.Write.Entered.{
  PlainFields, no_fields, type_or, plain_entering, plain_enter, IsPlainField, IsPlainField-agree,
  ArePlain, IsGot, got, ensure_shard-fields, ensure_shard-deque, push_blocks-deque,
  push_blocks-fields, queued,
}

write_known-step :
    (shard_key : ℕ → Text) (e : Entering) (w w1 : Write) (field f : Field) (v : Text)
    (blocks : List OpenBlock) (notices : List Notice)
    → get_field e.field_name e.type w ≡ (field, w1)
    → write_field e.moment
        (shard_key e.timestamp)
        e.timestamp
        (value_of e)
        (series_of e)
        (record field { index_block_meta_key = series_of e })
      ≡ ok (record { field = f; value = v; blocks = blocks; notices = notices })
    → let w2 = ensure_shard (shard_key e.timestamp) w1 in
      write_known shard_key e w
      ≡ ok (push_blocks blocks (record w2 { field_map = put e.field_name f w2.field_map }))
unfolding write_known
write_known-step shard_key e w w1 field f v blocks notices h k = rw h (rw k refl)

-- Of a field, plain windows see the name and the type only.
plain_field-same :
    (m : Moment) (shard_id : Text) (timestamp : ℕ) (value series : Text) (f : Field) (name : Text)
    (type : ℕ) (ps : PlainWindows)
    → f.name ≡ name
    → f.type ≡ type
    → plain_field m shard_id timestamp value series f ps
      ≡ plain_field m shard_id timestamp value series (new_field name type) ps
plain_field-same m shard_id timestamp value series f name type ps h k =
    ap (λ n. plain_field m shard_id timestamp value series (new_field n f.type) ps) h
    ∙ ap (λ t. plain_field m shard_id timestamp value series (new_field name t) ps) k

pub record IsEntered (shard_key : ℕ → Text) (e : Entering) (w : Write) (s : PlainFields)
    : Type 0 where
  pub after : Write
  pub result : write_known shard_key e w ≡ ok after
  pub deque : after.data_deque ≡ w.data_deque ++ queued (plain_entering shard_key e s).1.1.0
  pub plain : ArePlain after (plain_enter shard_key e s)

module _ (shard_key : ℕ → Text) (e : Entering) (w : Write) (s : PlainFields)
    (fits : e.timestamp < 2 ^ 64) (h : ArePlain w s) where
  abbrev id : Text
  id = shard_key e.timestamp

  abbrev made : IsGot e.field_name e.type w s
  made = got e.field_name e.type w s h

  abbrev keyed : Field
  keyed = let f = made.field in record f { index_block_meta_key = series_of e }

  abbrev call :
      IsFieldWritten e.moment id e.timestamp
        (value_of e)
        (series_of e)
        keyed
        (s.windows e.field_name)
  call =
      write_field_lem e.moment id e.timestamp (value_of e) (series_of e) keyed
        (s.windows e.field_name) fits made.windows

  same_plain :
      plain_field e.moment id e.timestamp (value_of e) (series_of e) keyed (s.windows e.field_name)
      ≡ plain_entering shard_key e s
  same_plain =
      plain_field-same e.moment id e.timestamp (value_of e) (series_of e) keyed e.field_name
        (type_or e.type (s.types e.field_name)) (s.windows e.field_name) made.name_is made.type_is

  abbrev field_after : Field
  field_after = let f = keyed in let m = call.map_after in record f { shard_skip_map = m }

  abbrev blocks : List OpenBlock
  blocks =
      (plain_field e.moment id e.timestamp (value_of e) (series_of e) keyed
        (s.windows e.field_name)).1.1.0

  abbrev sharded : Write
  sharded = ensure_shard id made.after

  abbrev with_field : Write
  with_field =
      let w2 = sharded in record w2 { field_map = put e.field_name field_after w2.field_map }

  fields_after :
      (push_blocks blocks with_field).field_map
      ≡ put e.field_name field_after (made.after).field_map
  fields_after =
      push_blocks-fields blocks with_field
      ∙ ap (put e.field_name field_after) (ensure_shard-fields id made.after)

  -- The field that was written, and another one.
  here :
      IsPlainField e.field_name
        (some field_after)
        (some (type_or e.type (s.types e.field_name)))
        (plain_set (id ++ series_of e) (plain_entering shard_key e s).0 (s.windows e.field_name))
  here = record {
    kept = ap some made.type_is;
    named = made.name_is;
    windows =
        subst
          (λ (q : PlainResult).
            AreWindows call.map_after (plain_set (id ++ series_of e) q.0 (s.windows e.field_name)))
          same_plain call.windows;
  }

  plain_after : ArePlain (push_blocks blocks with_field) (plain_enter shard_key e s)
  plain_after name = elim (Bool-cases (same_text name e.field_name)) [
    | inl same ↦
        let eq = same_text-eq name e.field_name same in
        let found : find name (push_blocks blocks with_field).field_map ≡ some field_after =
          ap (find name) fields_after
          ∙ ap (λ t. find t (put e.field_name field_after (made.after).field_map)) eq
          ∙ find-put e.field_name field_after (made.after).field_map in
        IsPlainField-agree name e.field_name (find name (push_blocks blocks with_field).field_map)
          (some field_after) ((plain_enter shard_key e s).types name)
          (some (type_or e.type (s.types e.field_name))) ((plain_enter shard_key e s).windows name)
          (plain_set (id ++ series_of e) (plain_entering shard_key e s).0 (s.windows e.field_name))
          eq found (rw same refl) (rw same refl) here
    | inr other ↦
        let found : find name (push_blocks blocks with_field).field_map ≡ find name w.field_map =
          ap (find name) fields_after
          ∙ find-put-other e.field_name name field_after (made.after).field_map other
          ∙ made.others name other in
        IsPlainField-agree name name (find name (push_blocks blocks with_field).field_map)
          (find name w.field_map) ((plain_enter shard_key e s).types name) (s.types name)
          ((plain_enter shard_key e s).windows name) (s.windows name) refl found (rw other refl)
          (rw other refl) (h name)
  ]

  pub entered : IsEntered shard_key e w s
  entered = record {
    after = push_blocks blocks with_field;
    result =
        let q : PlainResult =
          plain_field e.moment id e.timestamp (value_of e) (series_of e) keyed
            (s.windows e.field_name) in
        write_known-step shard_key e w made.after made.field field_after q.1.0 blocks q.1.1.1
          made.result call.result;
    deque =
        push_blocks-deque blocks with_field
        ∙ ap (λ d. d ++ queued blocks) (ensure_shard-deque id made.after ∙ made.deque)
        ∙ ap (λ (q : PlainResult). w.data_deque ++ queued q.1.1.0) same_plain;
    plain = plain_after;
  }

pub empty-ArePlain : (w : Write) → w.field_map ≡ [] → ArePlain w no_fields
unfolding find
empty-ArePlain w empty name =
    IsPlainField-agree name name (find name w.field_map) none none none (λ k. new_plain_window)
      (λ k. new_plain_window) refl (ap (find name) empty) refl refl
      (record { kept = refl; named = tt; windows = empty-AreWindows })
