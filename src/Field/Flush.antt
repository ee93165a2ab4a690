-- ===== src/Field/Flush.antt =====
-- A flush, and a whole call of `Field::write` on a window, against a window over plain points.
use dtime_db.Prelude.{
  ℕ, ◌*◌, ◌<◌, ◌^◌, ◌%◌, ◌==◌, ◌≡◌, refl, sym, ap, subst, ◌∙◌, Bool, true, false, some, List, [],
  ◌∷◌, ◌++◌, map, length, if◌then◌else◌, Bool-cases, inl, inr,
}
use dtime_db.Token.{Text}
use dtime_db.SkipList.{SkipList, ok, points_of, min_key, max_key, cle}
use dtime_db.SkipList.Points.{Point}
use dtime_db.SkipList.Iterate.{first_time, last_time}
use dtime_db.SkipList.Holding.{
  count_lem, points_of_holding, min_key_holding, max_key_holding, cle_holding,
}
use dtime_db.Field.{
  OpenBlock, Window, Field, Notice, Moment, new_data_block, write_points, block_in, reset_window,
  put_data, flush_data, string_size, should_flush_data, register_notice, flush_notices,
  write_window, string_type,
}
use dtime_db.Field.Plain.{
  PlainWindow, timed_points, pending_or, plain_block, plain_reset, plain_put, plain_value,
  plain_flushed, PlainResult, plain_write,
}
use dtime_db.Field.Refine.{
  IsWindow, reset_window-IsWindow, IsTaken, taken, IsPutInto, put_data_lem, block_in-IsWindow,
}

module _ (f : Field) (shard_id series : Text) where
  abbrev closed : List Point → ℕ → ℕ → ℕ → ℕ → List ℕ → List Text → OpenBlock
  closed ps n max min type timestamps values = record {
    size = (if f.type == string_type then string_size ps else 12 * n) % 2 ^ 32;
    block = record {
      field_name = f.name;
      series_key_and_field_name = series;
      shard_id = shard_id;
      max_timestamp = max;
      min_timestamp = min;
      type = type;
      num = n % 2 ^ 32;
      timestamps = timestamps;
      values = values;
    };
  }

  abbrev closed_block : List Point → ℕ → ℕ → ℕ → OpenBlock → OpenBlock
  closed_block ps n max min b = closed ps n max min b.block.type b.block.timestamps b.block.values

  closed-taken :
      (ps kept : List Point) (n max min t : ℕ) (b : OpenBlock)
      → IsTaken kept (new_data_block t) b
      → closed_block ps n max min b
        ≡ closed ps n max min t (map (λ q. q.0) kept) (map (λ q. q.1) kept)
  unfolding new_data_block
  closed-taken ps kept n max min t b h =
      ap (λ x. closed ps n max min x b.block.timestamps b.block.values) h.type
      ∙ ap (λ x. closed ps n max min t x b.block.values) h.timestamps
      ∙ ap (closed ps n max min t (map (λ q. q.0) kept)) h.values

  abbrev flushed_window : ℕ → SkipList → Window → Window
  flushed_window unset l w = record w {
    list = l;
    need_reset = true;
    current_data = some (new_data_block unset);
  }

  flush_data-step :
      (unset : ℕ) (w : Window) (ps : List Point) (max min : ℕ) (l : SkipList)
      → points_of w.list ≡ ok ps
      → max_key w.list ≡ ok max
      → min_key w.list ≡ ok min
      → cle w.list ≡ ok l
      → flush_data unset f shard_id series w
        ≡ ok (
          flushed_window unset l w,
          closed_block ps w.list.bottom_level_node_count max min
              (write_points ps (block_in unset w.current_data)),
        )
  unfolding flush_data
  flush_data-step unset w ps max min l h k m n = rw h (rw k (rw m (rw n refl)))

  record IsFlushed (unset : ℕ) (w : Window) (p : PlainWindow) : Type 0 where
    after : Window
    result :
        flush_data unset f shard_id series w ≡ ok (after, plain_block unset f shard_id series p)
    window : IsWindow after (plain_flushed unset p)

  flush_data_lem : (unset : ℕ) (w : Window) (p : PlainWindow) → IsWindow w p → IsFlushed unset w p
  flush_data_lem unset w p h =
      let r = cle_holding w.list p.points h.holding in
      let ps = p.points in
      let t = pending_or unset p.pending in
      let start : block_in unset w.current_data ≡ new_data_block t =
        ap (block_in unset) h.current ∙ block_in-IsWindow unset p.pending in
      let after = flushed_window unset r.after w in
      record {
        after = after;
        result =
            flush_data-step unset w ps (last_time ps) (first_time ps) r.after
              (points_of_holding w.list ps h.holding) (max_key_holding w.list ps h.holding)
              (min_key_holding w.list ps h.holding) r.result
            ∙ ap
                (λ b. ok (
                  after,
                  closed_block ps w.list.bottom_level_node_count (last_time ps) (first_time ps)
                      (write_points ps b),
                ))
                start
            ∙ ap
                (λ n. ok (
                  after,
                  closed_block ps n (last_time ps) (first_time ps)
                      (write_points ps (new_data_block t)),
                ))
                (count_lem w.list ps h.holding)
            ∙ ap (λ b. ok (after, b))
                (closed-taken ps (timed_points ps) (length ps) (last_time ps) (first_time ps) t
                  (write_points ps (new_data_block t)) (taken ps (new_data_block t)));
        window = record { holding = r.holding; reset = refl; last = h.last; current = refl };
      }

-- A call of `Field::write` on a window.
pub record IsWritten (m : Moment) (shard_id : Text) (timestamp : ℕ) (value series : Text)
    (f : Field) (w : Window) (p : PlainWindow) : Type 0 where
  pub after : Window
  pub result :
      write_window m shard_id timestamp value series f w
      ≡ ok (after, (plain_write m shard_id timestamp value series f p).1)
  pub window : IsWindow after (plain_write m shard_id timestamp value series f p).0

module _ (m : Moment) (shard_id : Text) (timestamp : ℕ) (value series : Text) (f : Field)
    (w w2 : Window) (v : Text) where
  abbrev due : Bool
  due = should_flush_data m.flush_time w2.sl_last_time w2.list.bottom_level_node_count

  abbrev notices : List Notice
  notices = register_notice shard_id series w.need_reset

  write_window-wait :
      put_data m.draw timestamp value (reset_window m.reset_time w) ≡ ok (w2, v)
      → due ≡ false
      → write_window m shard_id timestamp value series f w ≡ ok (w2, (v, ([], notices)))
  unfolding write_window
  write_window-wait h k = rw h (rw k refl)

  write_window-flush :
      (w3 : Window) (b : OpenBlock)
      → put_data m.draw timestamp value (reset_window m.reset_time w) ≡ ok (w2, v)
      → due ≡ true
      → flush_data m.unset f shard_id series w2 ≡ ok (w3, b)
      → write_window m shard_id timestamp value series f w
        ≡ ok (w3, (v, (b ∷ [], notices ++ flush_notices shard_id series)))
  unfolding write_window
  write_window-flush w3 b h k n = rw h (rw k (rw n refl))

module _ (m : Moment) (shard_id : Text) (timestamp : ℕ) (value series : Text) (f : Field)
    (w : Window) (p : PlainWindow) (fits : timestamp < 2 ^ 64) (h : IsWindow w p) where
  abbrev p2 : PlainWindow
  p2 = plain_put timestamp value (plain_reset m.reset_time p)

  into : IsPutInto m.draw timestamp value (reset_window m.reset_time w) (plain_reset m.reset_time p)
  into =
      put_data_lem m.draw timestamp value (reset_window m.reset_time w) (plain_reset m.reset_time p)
        fits (reset_window-IsWindow m.reset_time w p h)

  abbrev plain_due : Bool
  plain_due = should_flush_data m.flush_time p2.sl_last_time (length p2.points)

  same_due :
      due m shard_id timestamp value series f w into.after
        (plain_value timestamp value (plain_reset m.reset_time p))
      ≡ plain_due
  same_due =
      let i = into in
      ap (λ t. should_flush_data m.flush_time t i.after.list.bottom_level_node_count) i.window.last
      ∙ ap (should_flush_data m.flush_time p2.sl_last_time)
          (count_lem i.after.list p2.points i.window.holding)

  same_notices :
      register_notice shard_id series w.need_reset ≡ register_notice shard_id series p.need_reset
  same_notices = ap (register_notice shard_id series) h.reset

  pub write_window_lem : IsWritten m shard_id timestamp value series f w p
  write_window_lem =
      let i = into in
      let v = plain_value timestamp value (plain_reset m.reset_time p) in
      elim (Bool-cases plain_due) [
        | inr wait ↦
            let plain : plain_write m shard_id timestamp value series f p
                ≡ (p2, (v, ([], register_notice shard_id series p.need_reset))) =
              rw wait refl in
            record {
              after = i.after;
              result =
                  write_window-wait m shard_id timestamp value series f w i.after v i.result
                    (same_due ∙ wait)
                  ∙ ap (λ n. ok (i.after, (v, ([], n)))) same_notices
                  ∙ ap (λ (q : PlainResult). ok (i.after, q.1)) (sym plain);
              window = subst (λ (q : PlainResult). IsWindow i.after q.0) (sym plain) i.window;
            }
        | inl flush ↦
            let r = flush_data_lem f shard_id series m.unset i.after p2 i.window in
            let b = plain_block m.unset f shard_id series p2 in
            let plain : plain_write m shard_id timestamp value series f p ≡ (
              plain_flushed m.unset p2,
              (
                v,
                (
                  b ∷ [],
                  register_notice shard_id series p.need_reset ++ flush_notices shard_id series,
                ),
              ),
            ) =
              rw flush refl in
            record {
              after = r.after;
              result =
                  write_window-flush m shard_id timestamp value series f w i.after v r.after b
                    i.result (same_due ∙ flush) r.result
                  ∙ ap (λ n. ok (r.after, (v, (b ∷ [], n ++ flush_notices shard_id series))))
                      same_notices
                  ∙ ap (λ (q : PlainResult). ok (r.after, q.1)) (sym plain);
              window = subst (λ (q : PlainResult). IsWindow r.after q.0) (sym plain) r.window;
            }
      ]
