-- ===== src/Field/Blocks.antt =====
-- Every block that a window gives is in order and within its bounds.
use dtime_db.Prelude.{
  ℕ, suc, ◌<◌, ◌≤◌, ◌^◌, ◌%◌, ◌==◌, ◌≡◌, refl, sym, ap, ◌∙◌, true, false, List, [], ◌∷◌, map,
  length, All, All-weaken, Pairwise, Bool-cases, inl, inr, arith,
}
use dtime_db.Token.{Text}
use dtime_db.SkipList.{before}
use dtime_db.SkipList.Points.{Point}
use dtime_db.SkipList.Iterate.{first_time, last_time}
use dtime_db.Field.{OpenBlock, Field, Moment, should_flush_data}
use dtime_db.Field.Plain.{
  PlainWindow, new_plain_window, timed_points, plain_block, plain_reset, plain_put, PlainResult,
  plain_write,
}
use dtime_db.Field.Laws.{
  Earlier, IsOrdered, put_point-IsOrdered, length-put_point, IsSmall, IsFilled,
}

abbrev times : List Point → List ℕ
times = map (λ q. q.0)

All-timed : (P : Point → Type 0) (ps : List Point) → All P ps → All P (timed_points ps)
All-timed P [] h = tt
All-timed P (p ∷ ps) h = elim (Bool-cases (p.0 == 0)) [
  | inl at_zero ↦ rw at_zero (All-timed P ps h.1)
  | inr timed ↦ rw timed (h.0, All-timed P ps h.1)
]

Pairwise-timed : (ps : List Point) → Pairwise Earlier ps → Pairwise Earlier (timed_points ps)
Pairwise-timed [] h = tt
Pairwise-timed (p ∷ ps) h = elim (Bool-cases (p.0 == 0)) [
  | inl at_zero ↦ rw at_zero (Pairwise-timed ps h.1)
  | inr timed ↦ rw timed (All-timed (Earlier p) ps h.0, Pairwise-timed ps h.1)
]

length-timed : (ps : List Point) → length (timed_points ps) ≤ length ps
length-timed [] = omega arith
length-timed (p ∷ ps) = elim (Bool-cases (p.0 == 0)) [
  | inl at_zero ↦ rw at_zero (let l = length-timed ps in omega (arith, l))
  | inr timed ↦ rw timed (let l = length-timed ps in omega (arith, l))
]

length-map {ℓ} : {A : Type ℓ} (f : Point → A) (ps : List Point) → length (map f ps) ≡ length ps
length-map f [] = refl
length-map f (p ∷ ps) = ap suc (length-map f ps)

All-times : (P : ℕ → Type 0) (ps : List Point) → All (λ q. P q.0) ps → All P (times ps)
All-times P [] h = tt
All-times P (p ∷ ps) h = (h.0, All-times P ps h.1)

Pairwise-times :
    (ps : List Point) → Pairwise Earlier ps → Pairwise (λ s t. before s t ≡ true) (times ps)
Pairwise-times [] h = tt
Pairwise-times (p ∷ ps) h = (All-times (λ t. before p.0 t ≡ true) ps h.0, Pairwise-times ps h.1)

before_asym : (a b : ℕ) → before a b ≡ true → before b a ≡ false
before_asym a b h = ground arith

before_self : (a : ℕ) → before a a ≡ false
before_self a = ground arith

first_time-min :
    (ps : List Point) → Pairwise Earlier ps → All (λ q. before q.0 (first_time ps) ≡ false) ps
first_time-min [] h = tt
first_time-min (p ∷ ps) h = (
  before_self p.0,
  All-weaken (Earlier p) (λ q. before q.0 p.0 ≡ false) (λ q b. before_asym p.0 q.0 b) ps h.0,
)

before-last_time :
    (p q : Point) (ps : List Point)
    → All (Earlier p) (q ∷ ps)
    → before p.0 (last_time (q ∷ ps)) ≡ true
before-last_time p q [] h = h.0
before-last_time p q (r ∷ ps) h = before-last_time p r ps h.1

last_time-max :
    (ps : List Point) → Pairwise Earlier ps → All (λ q. before (last_time ps) q.0 ≡ false) ps
last_time-max [] h = tt
last_time-max (p ∷ []) h = (before_self p.0, tt)
last_time-max (p ∷ q ∷ ps) h =
    (before_asym p.0 (last_time (q ∷ ps)) (before-last_time p q ps h.0), last_time-max (q ∷ ps) h.1)

pub plain_block-IsFilled :
    (unset : ℕ) (f : Field) (shard_id series : Text) (p : PlainWindow)
    → IsOrdered p.points
    → 0 < length p.points
    → length p.points ≤ 100
    → IsFilled (plain_block unset f shard_id series p).block
plain_block-IsFilled unset f shard_id series p h some_points most =
    let ps = p.points in
    let same : length ps % 2 ^ 32 ≡ length ps = omega (arith, most) in
    let kept = length-timed ps in
    let a = length-map (λ q. q.0) (timed_points ps) in
    let b = length-map (λ q. q.1) (timed_points ps) in
    record {
      ordered = Pairwise-times (timed_points ps) (Pairwise-timed ps h.ordered);
      paired = b ∙ sym a;
      counted = omega (arith, same, kept, a);
      some_points = omega (arith, same, some_points);
      most = omega (arith, same, most);
      from_min =
          All-times (λ t. before t (first_time ps) ≡ false) (timed_points ps)
            (All-timed (λ q. before q.0 (first_time ps) ≡ false) ps (first_time-min ps h.ordered));
      to_max =
          All-times (λ t. before (last_time ps) t ≡ false) (timed_points ps)
            (All-timed (λ q. before (last_time ps) q.0 ≡ false) ps (last_time-max ps h.ordered));
    }

-- A window and the blocks that a call gives.
pub record IsGoodResult (r : PlainResult) : Type 0 where
  pub small : IsSmall r.0
  pub blocks : All (λ (b : OpenBlock). IsFilled b.block) r.1.1.0

plain_put-points :
    (timestamp : ℕ) (value : Text) (p : PlainWindow)
    → timestamp < 2 ^ 64
    → IsSmall p
    → IsOrdered (plain_put timestamp value p).points
      × (length (plain_put timestamp value p).points ≤ 100)
plain_put-points timestamp [] p fits h = (h.ordered, let l = h.few in omega (arith, l))
plain_put-points timestamp (c ∷ value) p fits h = (
  put_point-IsOrdered timestamp (c ∷ value) p.points fits h.ordered,
  let l = h.few in let m = length-put_point timestamp (c ∷ value) p.points in omega (arith, l, m),
)

due_some : (now last n : ℕ) → should_flush_data now last n ≡ true → 0 < n
unfolding should_flush_data
due_some now last n h = ground arith

not_due : (now last n : ℕ) → should_flush_data now last n ≡ false → n < 100
unfolding should_flush_data
not_due now last n h = ground arith

pub plain_write-IsGoodResult :
    (m : Moment) (shard_id : Text) (timestamp : ℕ) (value series : Text) (f : Field)
    (p : PlainWindow)
    → timestamp < 2 ^ 64
    → IsSmall p
    → IsGoodResult (plain_write m shard_id timestamp value series f p)
plain_write-IsGoodResult m shard_id timestamp value series f p fits h =
    let p2 = plain_put timestamp value (plain_reset m.reset_time p) in
    let (ordered, most) =
      plain_put-points timestamp value (plain_reset m.reset_time p) fits
        (record { ordered = h.ordered; few = h.few }) in
    elim (Bool-cases (should_flush_data m.flush_time p2.sl_last_time (length p2.points))) [
      | inl due ↦ rw due (record {
        small = record { ordered = record { ordered = tt; fits = tt }; few = omega arith };
        blocks = (
          plain_block-IsFilled m.unset f shard_id series p2 ordered
              (due_some m.flush_time p2.sl_last_time (length p2.points) due) most,
          tt,
        );
      })
      | inr wait ↦ rw wait (record {
        small = record {
          ordered = ordered;
          few = not_due m.flush_time p2.sl_last_time (length p2.points) wait;
        };
        blocks = tt;
      })
    ]

pub new_plain_window-IsSmall : IsSmall new_plain_window
new_plain_window-IsSmall = record {
  ordered = record { ordered = tt; fits = tt };
  few = omega arith;
}
