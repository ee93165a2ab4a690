-- ===== src/Field/Laws.antt =====
-- What holds of the windows and of every block: points in strict order, fewer than a hundred in a window.
use dtime_db.Prelude.{
  ℕ, suc, ◌<◌, ◌≤◌, ◌^◌, ◌==◌, ◌≡◌, refl, sym, ap, ◌∙◌, true, false, none, some, List, [], ◌∷◌,
  length, All, All-weaken, Pairwise, Bool-cases, Option-cases, inl, inr, arith,
}
use dtime_db.Token.{Text}
use dtime_db.SkipList.{before}
use dtime_db.SkipList.Points.{Point, lookup_point, add_point, put_point, before_total}
use dtime_db.Field.{QueuedBlock}
use dtime_db.Field.Plain.{PlainWindow}

abbrev pub Earlier : Point → Point → Type 0
Earlier p q = before p.0 q.0 ≡ true

abbrev Fits : Point → Type 0
Fits p = p.0 < 2 ^ 64

before_trans : (a b c : ℕ) → before a b ≡ true → before b c ≡ true → before a c ≡ true
before_trans a b c h k = ground arith

-- A point that comes before those that a list has, and before the point that is added.
All-add_point :
    (P : Point → Type 0) (key : ℕ) (value : Text) (ps : List Point)
    → P (key, value)
    → All P ps
    → All P (add_point key value ps)
All-add_point P key value [] h k = (h, tt)
All-add_point P key value (p ∷ ps) h k = elim (Bool-cases (before p.0 key)) [
  | inl early ↦ rw early (k.0, All-add_point P key value ps h k.1)
  | inr late ↦ rw late (h, k)
]

lookup_point-other :
    (key : ℕ) (p : Point) (ps : List Point)
    → lookup_point key (p ∷ ps) ≡ none
    → ((p.0 == key) ≡ false) × (lookup_point key ps ≡ none)
lookup_point-other key p ps h = elim (Bool-cases (p.0 == key)) [
  | inl same ↦
      absurd
        (clash p.1 (sym (let e : lookup_point key (p ∷ ps) ≡ some p.1 = rw same refl in e) ∙ h))
  | inr other ↦ (
    other,
    sym (let e : lookup_point key (p ∷ ps) ≡ lookup_point key ps = rw other refl in e) ∙ h,
  )
]
  where
    clash : (v : Text) → some v ≡ none → ⊥
    clash v e = cc

-- Points in order, with times that fit.
pub record IsOrdered (ps : List Point) : Type 0 where
  pub ordered : Pairwise Earlier ps
  pub fits : All Fits ps

add_point-IsOrdered :
    (key : ℕ) (value : Text) (ps : List Point)
    → key < 2 ^ 64
    → lookup_point key ps ≡ none
    → IsOrdered ps
    → IsOrdered (add_point key value ps)
add_point-IsOrdered key value ps fits absent h = record {
  ordered = go ps absent h.ordered h.fits;
  fits = All-add_point Fits key value ps fits h.fits;
}
  where
    go :
        (ps : List Point)
        → lookup_point key ps ≡ none
        → Pairwise Earlier ps
        → All Fits ps
        → Pairwise Earlier (add_point key value ps)
    go [] a o f = (tt, tt)
    go (p ∷ ps) a o f = elim (Bool-cases (before p.0 key)) [
      | inl early ↦ rw early (
        All-add_point (Earlier p) key value ps early o.0,
        go ps (lookup_point-other key p ps a).1 o.1 f.1,
      )
      | inr late ↦
          let next = before_total p.0 key f.0 fits (lookup_point-other key p ps a).0 late in
          rw late (
            (
              next,
              All-weaken (Earlier p) (Earlier (key, value)) (λ q b. before_trans key p.0 q.0 next b)
                  ps o.0,
            ),
            o,
          )
    ]

pub put_point-IsOrdered :
    (key : ℕ) (value : Text) (ps : List Point)
    → key < 2 ^ 64
    → IsOrdered ps
    → IsOrdered (put_point key value ps)
put_point-IsOrdered key value ps fits h = elim (Option-cases (lookup_point key ps)) [
  | inl absent ↦ rw (put_point, absent) (add_point-IsOrdered key value ps fits absent h)
  | inr (v, there) ↦ rw (put_point, there) h
]

length-add_point :
    (key : ℕ) (value : Text) (ps : List Point) → length (add_point key value ps) ≡ suc (length ps)
length-add_point key value [] = refl
length-add_point key value (p ∷ ps) = elim (Bool-cases (before p.0 key)) [
  | inl early ↦ rw early (ap suc (length-add_point key value ps))
  | inr late ↦ rw late refl
]

pub length-put_point :
    (key : ℕ) (value : Text) (ps : List Point) → length (put_point key value ps) ≤ suc (length ps)
length-put_point key value ps = elim (Option-cases (lookup_point key ps)) [
  | inl absent ↦ rw (put_point, absent) (let e = length-add_point key value ps in omega (arith, e))
  | inr (v, there) ↦ rw (put_point, there) (omega arith)
]

-- A window that has not been flushed has fewer than a hundred points.
pub record IsSmall (p : PlainWindow) : Type 0 where
  pub ordered : IsOrdered p.points
  pub few : length p.points < 100

-- A block of the queue: times in strict order, with a value for each, no more than it counts, and between 1 and 100.
pub record IsFilled (b : QueuedBlock) : Type 0 where
  pub ordered : Pairwise (λ s t. before s t ≡ true) b.timestamps
  pub paired : length b.values ≡ length b.timestamps
  pub counted : length b.timestamps ≤ b.num
  pub some_points : 0 < b.num
  pub most : b.num ≤ 100
  pub from_min : All (λ t. before t b.min_timestamp ≡ false) b.timestamps
  pub to_max : All (λ t. before b.max_timestamp t ≡ false) b.timestamps
