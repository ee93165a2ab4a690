-- ===== src/Field/Windows.antt =====
-- The windows of a field: each call of `Field::write` is a call on one plain window, and leaves the others.
use dtime_db.Prelude.{
  ℕ, ◌<◌, ◌^◌, ◌≡◌, refl, sym, ap, subst, ◌∙◌, some, List, [], ◌++◌, if◌then◌else◌, Bool-cases, inl,
  inr,
}
use dtime_db.Token.{Text}
use dtime_db.Maps.{Map, find, put, same_text, same_text-eq}
use dtime_db.Maps.Laws.{find-put, find-put-other}
use dtime_db.SkipList.{ok}
use dtime_db.Field.{OpenBlock, Window, Field, Notice, Moment, window_in, write_window, write_field}
use dtime_db.Field.Plain.{PlainWindow, new_plain_window, PlainResult, plain_write}
use dtime_db.Field.Refine.{IsWindow, new_window-IsWindow}
use dtime_db.Field.Flush.{write_window_lem}

-- A plain window for each shard and series.
abbrev pub PlainWindows : Type 0
PlainWindows = Text → PlainWindow

abbrev pub plain_set : Text → PlainWindow → PlainWindows → PlainWindows
plain_set key p ps = λ k. if same_text k key then p else ps k

abbrev pub AreWindows : Map Window → PlainWindows → Type 0
AreWindows m ps = (k : Text) → IsWindow (window_in (find k m)) (ps k)

pub empty-AreWindows : AreWindows [] (λ k. new_plain_window)
unfolding find
empty-AreWindows k = new_window-IsWindow

put-AreWindows :
    (key : Text) (w : Window) (p : PlainWindow) (m : Map Window) (ps : PlainWindows)
    → IsWindow w p
    → AreWindows m ps
    → AreWindows (put key w m) (plain_set key p ps)
put-AreWindows key w p m ps h a k = elim (Bool-cases (same_text k key)) [
  | inl same ↦
      let here : plain_set key p ps k ≡ p = rw same refl in
      let found : find k (put key w m) ≡ some w =
        ap (λ t. find t (put key w m)) (same_text-eq k key same) ∙ find-put key w m in
      subst (IsWindow (window_in (find k (put key w m)))) (sym here)
        (subst (λ o. IsWindow (window_in o) p) (sym found) h)
  | inr other ↦
      let here : plain_set key p ps k ≡ ps k = rw other refl in
      subst (IsWindow (window_in (find k (put key w m)))) (sym here)
        (subst (λ o. IsWindow (window_in o) (ps k)) (sym (find-put-other key k w m other)) (a k))
]

-- What a call of `Field::write` returns on plain windows.
abbrev pub plain_field : Moment → Text → ℕ → Text → Text → Field → PlainWindows → PlainResult
plain_field m shard_id timestamp value series f ps =
    plain_write m shard_id timestamp value series f (ps (shard_id ++ series))

pub record IsFieldWritten (m : Moment) (shard_id : Text) (timestamp : ℕ) (value series : Text)
    (f : Field) (ps : PlainWindows) : Type 0 where
  pub map_after : Map Window
  pub result :
      write_field m shard_id timestamp value series f
      ≡ ok (record {
        field = record f { shard_skip_map = map_after };
        value = (plain_field m shard_id timestamp value series f ps).1.0;
        blocks = (plain_field m shard_id timestamp value series f ps).1.1.0;
        notices = (plain_field m shard_id timestamp value series f ps).1.1.1;
      })
  pub windows :
      AreWindows map_after
        (plain_set (shard_id ++ series) (plain_field m shard_id timestamp value series f ps).0 ps)

write_field-step :
    (m : Moment) (shard_id : Text) (timestamp : ℕ) (value series : Text) (f : Field) (w : Window)
    (v : Text) (blocks : List OpenBlock) (notices : List Notice)
    → write_window m shard_id timestamp value series f
        (window_in (find (shard_id ++ series) f.shard_skip_map))
      ≡ ok (w, (v, (blocks, notices)))
    → write_field m shard_id timestamp value series f
      ≡ ok (record {
        field = record f { shard_skip_map = put (shard_id ++ series) w f.shard_skip_map };
        value = v;
        blocks = blocks;
        notices = notices;
      })
unfolding write_field
write_field-step m shard_id timestamp value series f w v blocks notices h = rw h refl

pub write_field_lem :
    (m : Moment) (shard_id : Text) (timestamp : ℕ) (value series : Text) (f : Field)
    (ps : PlainWindows)
    → timestamp < 2 ^ 64
    → AreWindows f.shard_skip_map ps
    → IsFieldWritten m shard_id timestamp value series f ps
write_field_lem m shard_id timestamp value series f ps fits a =
    let key = shard_id ++ series in
    let r =
      write_window_lem m shard_id timestamp value series f (window_in (find key f.shard_skip_map))
        (ps key) fits (a key) in
    let q : PlainResult = plain_field m shard_id timestamp value series f ps in
    record {
      map_after = put key r.after f.shard_skip_map;
      result =
          write_field-step m shard_id timestamp value series f r.after q.1.0 q.1.1.0 q.1.1.1
            r.result;
      windows = put-AreWindows key r.after q.0 f.shard_skip_map ps r.window a;
    }
