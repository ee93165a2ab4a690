-- ===== src/SkipList/Holding.antt =====
-- A skip list that holds points in order, and what each operation does to them.
use dtime_db.Prelude.{
  ℕ, suc, ◌<◌, ◌^◌, ◌≡◌, refl, sym, ap, ◌∙◌, none, List, [], ◌∷◌, length, length-replicate,
  replicate, arith,
}
use dtime_db.Token.{Text}
use dtime_db.SkipList.{
  Pointer, SkipList, Run, ok, new_skip_list, put_key, get_key, del_key, cle, points_of, min_key,
  max_key, max_level,
}
use dtime_db.SkipList.Cells.{Entry, lead}
use dtime_db.SkipList.Points.{Point, points, lookup_point, value_or, put_point, remove_point}
use dtime_db.SkipList.Shape.{IsSkipList, cut_at}
use dtime_db.SkipList.Insert.{get-replicate, IsPut-cut}
use dtime_db.SkipList.Lookup.{get_key-cut}
use dtime_db.SkipList.Erase.{IsDel-cut}
use dtime_db.SkipList.Clear.{cle_lem}
use dtime_db.SkipList.Iterate.{first_time, last_time, points_of_lem, min_key_lem, max_key_lem}

pub record IsHolding (l : SkipList) (ps : List Point) : Type 0 where
  pub base : Entry
  pub entries : List Entry
  pub shape : IsSkipList l base entries
  pub whole : points entries ≡ ps

length-points : (es : List Entry) → length (points es) ≡ length es
length-points [] = refl
length-points (e ∷ es) = ap suc (length-points es)

pub new_skip_list-IsHolding : IsHolding new_skip_list []
unfolding new_skip_list lead
new_skip_list-IsHolding = record {
  base = record { addr = 0; key = 0; value = []; level = max_level };
  entries = [];
  shape = record {
    chain = (
      record {
        nexts = replicate max_level none;
        found = refl;
        levels = length-replicate {A = Pointer} max_level none;
        leads = λ i h. get-replicate max_level i none h;
      },
      tt,
    );
    head = refl;
    top = refl;
    old = omega arith;
    count = refl;
    sorted = tt;
    sound = tt;
    distinct = (tt, tt);
  };
  whole = refl;
}

-- The list after a call of `put`, and what its argument is then.
pub record IsHoldingPut (level key : ℕ) (value : Text) (l : SkipList) (ps : List Point)
    : Type 0 where
  pub after : SkipList
  pub left : Text
  pub result : put_key level key value l ≡ ok (after, left)
  pub holding : IsHolding after (put_point key value ps)
  pub kept : left ≡ value_or value (lookup_point key ps)

pub record IsHoldingAfter (r : Run SkipList) (ps : List Point) : Type 0 where
  pub after : SkipList
  pub result : r ≡ ok after
  pub holding : IsHolding after ps

module _ (l : SkipList) (ps : List Point) (h : IsHolding l ps) where
  pub count_lem : l.bottom_level_node_count ≡ length ps
  count_lem = (h.shape).count ∙ sym (length-points h.entries) ∙ ap length h.whole

  pub points_of_holding : points_of l ≡ ok ps
  points_of_holding = points_of_lem l h.base h.entries h.shape ∙ ap ok h.whole

  pub min_key_holding : min_key l ≡ ok (first_time ps)
  min_key_holding = min_key_lem l h.base h.entries h.shape ∙ ap (λ ps. ok (first_time ps)) h.whole

  pub max_key_holding : max_key l ≡ ok (last_time ps)
  max_key_holding = max_key_lem l h.base h.entries h.shape ∙ ap (λ ps. ok (last_time ps)) h.whole

  pub cle_holding : IsHoldingAfter (cle l) []
  cle_holding =
      let r = cle_lem l h.base h.entries h.shape in
      record {
        after = r.after;
        result = r.result;
        holding = record { base = h.base; entries = []; shape = r.shape; whole = refl };
      }

pub get_key_lem :
    (key : ℕ) (l : SkipList) (ps : List Point)
    → IsHolding l ps
    → get_key key l ≡ ok (lookup_point key ps)
get_key_lem key l ps h =
    get_key-cut key l h.base h.entries (cut_at key l h.base h.entries h.shape)
    ∙ ap (λ ps. ok (lookup_point key ps)) h.whole

pub del_key_lem :
    (key : ℕ) (l : SkipList) (ps : List Point)
    → IsHolding l ps
    → IsHoldingAfter (del_key key l) (remove_point key ps)
del_key_lem key l ps h =
    let r = IsDel-cut key l h.base h.entries (cut_at key l h.base h.entries h.shape) in
    record {
      after = r.after;
      result = r.result;
      holding = record {
        base = h.base;
        entries = r.entries;
        shape = r.shape;
        whole = r.whole ∙ ap (remove_point key) h.whole;
      };
    }

pub put_key_lem :
    (level key : ℕ) (value : Text) (l : SkipList) (ps : List Point)
    → IsHolding l ps
    → key < 2 ^ 64
    → 0 < level
    → IsHoldingPut level key value l ps
put_key_lem level key value l ps h fits some_level =
    let r =
      IsPut-cut level key value l h.base h.entries fits some_level
        (cut_at key l h.base h.entries h.shape) in
    record {
      after = r.after;
      left = r.left;
      result = r.result;
      holding = record {
        base = h.base;
        entries = r.entries;
        shape = r.shape;
        whole = r.whole ∙ ap (put_point key value) h.whole;
      };
      kept = r.kept ∙ ap (λ ps. value_or value (lookup_point key ps)) h.whole;
    }
