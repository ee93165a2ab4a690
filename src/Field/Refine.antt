-- ===== src/Field/Refine.antt =====
-- A window over a skip list does what a window over plain points does.
use dtime_db.Prelude.{
  ℕ, ◌<◌, ◌^◌, ◌==◌, ◌≡◌, refl, sym, ap, subst, ◌∙◌, true, false, Option, none, some, List, [], ◌∷◌,
  ◌++◌, map, append_assoc, append-nil, if◌then◌else◌, Bool-cases, inl, inr,
}
use dtime_db.Token.{Text}
use dtime_db.SkipList.{ok, random_level}
use dtime_db.SkipList.Points.{Point}
use dtime_db.SkipList.Levels.{random_level-bounds}
use dtime_db.SkipList.Holding.{IsHolding, new_skip_list-IsHolding, put_key_lem}
use dtime_db.Field.{
  OpenBlock, Window, new_window, new_data_block, write_point, write_points, block_in, reset_window,
  put_data,
}
use dtime_db.Field.Plain.{
  PlainWindow, new_plain_window, timed_points, pending_or, plain_reset, plain_put, plain_value,
}

abbrev open_block : Option ℕ → Option OpenBlock
open_block none = none
open_block (some t) = some (new_data_block t)

-- A window that stands for a plain one.
pub record IsWindow (w : Window) (p : PlainWindow) : Type 0 where
  pub holding : IsHolding w.list p.points
  pub reset : w.need_reset ≡ p.need_reset
  pub last : w.sl_last_time ≡ p.sl_last_time
  pub current : w.current_data ≡ open_block p.pending

pub new_window-IsWindow : IsWindow new_window new_plain_window
new_window-IsWindow = record {
  holding = new_skip_list-IsHolding;
  reset = refl;
  last = refl;
  current = refl;
}

pub reset_window-IsWindow :
    (now : ℕ) (w : Window) (p : PlainWindow)
    → IsWindow w p
    → IsWindow (reset_window now w) (plain_reset now p)
unfolding reset_window
reset_window-IsWindow now w p h = record {
  holding = h.holding;
  reset = h.reset;
  last =
      ap (λ b. if b then now else w.sl_last_time) h.reset
      ∙ ap (λ x. if p.need_reset then now else x) h.last;
  current = h.current;
}

write_point-zero : (t : ℕ) (v : Text) (b : OpenBlock) → (t == 0) ≡ true → write_point t v b ≡ b
unfolding write_point
write_point-zero t v b h = rw h refl

-- A block after it has taken these points.
pub record IsTaken (kept : List Point) (b b' : OpenBlock) : Type 0 where
  pub timestamps : b'.block.timestamps ≡ b.block.timestamps ++ map (λ q. q.0) kept
  pub values : b'.block.values ≡ b.block.values ++ map (λ q. q.1) kept
  pub type : b'.block.type ≡ b.block.type

write_point-timed :
    (t : ℕ) (v : Text) (b : OpenBlock)
    → (t == 0) ≡ false
    → IsTaken ((t, v) ∷ []) b (write_point t v b)
unfolding write_point
write_point-timed t v b h = record { timestamps = rw h refl; values = rw h refl; type = rw h refl }

IsTaken-more :
    (p : Point) (kept : List Point) (b b1 b2 : OpenBlock)
    → IsTaken (p ∷ []) b b1
    → IsTaken kept b1 b2
    → IsTaken (p ∷ kept) b b2
IsTaken-more p kept b b1 b2 h k = record {
  timestamps =
      k.timestamps
      ∙ ap (λ xs. xs ++ map (λ q. q.0) kept) h.timestamps
      ∙ append_assoc b.block.timestamps (p.0 ∷ []) (map (λ q. q.0) kept);
  values =
      k.values
      ∙ ap (λ xs. xs ++ map (λ q. q.1) kept) h.values
      ∙ append_assoc b.block.values (p.1 ∷ []) (map (λ q. q.1) kept);
  type = k.type ∙ h.type;
}

pub taken : (ps : List Point) (b : OpenBlock) → IsTaken (timed_points ps) b (write_points ps b)
unfolding write_points
taken [] b = record {
  timestamps = sym (append-nil b.block.timestamps);
  values = sym (append-nil b.block.values);
  type = refl;
}
taken (p ∷ ps) b = elim (Bool-cases (p.0 == 0)) [
  | inl at_zero ↦
      let kept : timed_points (p ∷ ps) ≡ timed_points ps = rw at_zero refl in
      subst (λ k. IsTaken k b (write_points (p ∷ ps) b)) (sym kept)
        (subst (λ b1. IsTaken (timed_points ps) b (write_points ps b1))
          (sym (write_point-zero p.0 p.1 b at_zero)) (taken ps b))
  | inr timed ↦
      let kept : timed_points (p ∷ ps) ≡ p ∷ timed_points ps = rw timed refl in
      subst (λ k. IsTaken k b (write_points (p ∷ ps) b)) (sym kept)
        (IsTaken-more p (timed_points ps) b (write_point p.0 p.1 b) (write_points (p ∷ ps) b)
          (write_point-timed p.0 p.1 b timed) (taken ps (write_point p.0 p.1 b)))
]

-- The value that is put, and the window after it.
pub record IsPutInto (draw : ℕ → ℕ) (timestamp : ℕ) (value : Text) (w : Window) (p : PlainWindow)
    : Type 0 where
  pub after : Window
  pub result : put_data draw timestamp value w ≡ ok (after, plain_value timestamp value p)
  pub window : IsWindow after (plain_put timestamp value p)

pub put_data_lem :
    (draw : ℕ → ℕ) (timestamp : ℕ) (value : Text) (w : Window) (p : PlainWindow)
    → timestamp < 2 ^ 64
    → IsWindow w p
    → IsPutInto draw timestamp value w p
unfolding put_data
put_data_lem draw timestamp [] w p fits h = record { after = w; result = refl; window = h }
put_data_lem draw timestamp (c ∷ value) w p fits h =
    let r =
      put_key_lem (random_level draw) timestamp (c ∷ value) w.list p.points h.holding fits
        (random_level-bounds draw).0 in
    let w1 : Window = record w { list = r.after; need_reset = false } in
    record {
      after = w1;
      result = rw r.result (ap (λ v. ok (w1, v)) r.kept);
      window = record { holding = r.holding; reset = refl; last = h.last; current = h.current };
    }

pub block_in-IsWindow :
    (unset : ℕ) (pending : Option ℕ)
    → block_in unset (open_block pending) ≡ new_data_block (pending_or unset pending)
block_in-IsWindow unset none = refl
block_in-IsWindow unset (some t) = refl
