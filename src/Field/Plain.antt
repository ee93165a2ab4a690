-- ===== src/Field/Plain.antt =====
-- What a window of `Field` promises, over plain points in order.
use dtime_db.Prelude.{
  ℕ, ◌*◌, ◌^◌, ◌%◌, ◌==◌, Bool, true, false, Option, none, some, List, [], ◌∷◌, ◌++◌, map, length,
  if◌then◌else◌,
}
use dtime_db.Token.{Text}
use dtime_db.SkipList.Points.{Point, lookup_point, value_or, put_point}
use dtime_db.SkipList.Iterate.{first_time, last_time}
use dtime_db.Field.{
  OpenBlock, Field, Notice, Moment, string_size, should_flush_data, register_notice, flush_notices,
  string_type,
}

-- The block that is open, if any, by the type that its memory had.
pub record PlainWindow : Type 0 where
  pub points : List Point
  pub need_reset : Bool
  pub sl_last_time : ℕ
  pub pending : Option ℕ

abbrev pub new_plain_window : PlainWindow
new_plain_window = record { points = []; need_reset = true; sl_last_time = 0; pending = none }

-- The points that a block takes: not those at time 0.
abbrev pub timed_points : List Point → List Point
timed_points [] = []
timed_points (p ∷ ps) = let rest = timed_points ps in if p.0 == 0 then rest else p ∷ rest

abbrev pub pending_or : ℕ → Option ℕ → ℕ
pending_or unset none = unset
pending_or unset (some t) = t

abbrev pub plain_block : ℕ → Field → Text → Text → PlainWindow → OpenBlock
plain_block unset f shard_id series p = record {
  size = (if f.type == string_type then string_size p.points else 12 * length p.points) % 2 ^ 32;
  block = record {
    field_name = f.name;
    series_key_and_field_name = series;
    shard_id = shard_id;
    max_timestamp = last_time p.points;
    min_timestamp = first_time p.points;
    type = pending_or unset p.pending;
    num = length p.points % 2 ^ 32;
    timestamps = map (λ q. q.0) (timed_points p.points);
    values = map (λ q. q.1) (timed_points p.points);
  };
}

abbrev pub plain_reset : ℕ → PlainWindow → PlainWindow
plain_reset now p = record p { sl_last_time = if p.need_reset then now else p.sl_last_time }

abbrev pub plain_put : ℕ → Text → PlainWindow → PlainWindow
plain_put timestamp [] p = p
plain_put timestamp (c ∷ value) p = record p {
  points = put_point timestamp (c ∷ value) p.points;
  need_reset = false;
}

abbrev pub plain_value : ℕ → Text → PlainWindow → Text
plain_value timestamp [] p = []
plain_value timestamp (c ∷ value) p = value_or (c ∷ value) (lookup_point timestamp p.points)

abbrev pub plain_flushed : ℕ → PlainWindow → PlainWindow
plain_flushed unset p = record p { points = []; need_reset = true; pending = some unset }

abbrev pub PlainResult : Type 0
PlainResult = PlainWindow × (Text × (List OpenBlock × List Notice))

abbrev pub plain_write : Moment → Text → ℕ → Text → Text → Field → PlainWindow → PlainResult
plain_write m shard_id timestamp value series f p0 =
    let p1 = plain_reset m.reset_time p0 in
    let p2 = plain_put timestamp value p1 in
    let v = plain_value timestamp value p1 in
    let notices = register_notice shard_id series p0.need_reset in
    if should_flush_data m.flush_time p2.sl_last_time (length p2.points)
    then (
      plain_flushed m.unset p2,
      (
        v,
        (plain_block m.unset f shard_id series p2 ∷ [], notices ++ flush_notices shard_id series),
      ),
    )
    else (p2, (v, ([], notices)))
