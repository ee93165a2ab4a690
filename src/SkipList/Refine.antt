-- ===== src/SkipList/Refine.antt =====
-- Calls of a skip list against the same calls of a plain list in order.
use dtime_db.Prelude.{ℕ, ◌<◌, ◌^◌, ◌≡◌, refl, ap, Bool, Option, List, [], ◌∷◌, ◌==◌, length, All}
use dtime_db.Token.{Text}
use dtime_db.SkipList.{
  SkipList, Run, ok, ◌>>=◌, random_level, new_skip_list, put_key, get_key, del_key, cle, points_of,
  min_key, max_key, is_empty_list,
}
use dtime_db.SkipList.Points.{Point, lookup_point, value_or, put_point, remove_point}
use dtime_db.SkipList.Iterate.{first_time, last_time}
use dtime_db.SkipList.Levels.{random_level-bounds}
use dtime_db.SkipList.Holding.{
  IsHolding, new_skip_list-IsHolding, count_lem, points_of_holding, min_key_holding,
  max_key_holding, cle_holding, get_key_lem, del_key_lem, put_key_lem,
}

-- A call of the list; `put` with the draws of its level.
pub data Call : Type 0 where
  call_put : (ℕ → ℕ) → ℕ → Text → Call
  call_get call_del : ℕ → Call
  call_cle call_iterate call_min call_max call_size call_empty : Call

pub data Answer : Type 0 where
  done : Answer
  found : Option Text → Answer
  left : Text → Answer
  all : List Point → Answer
  number : ℕ → Answer
  truth : Bool → Answer

unfoldable pub run_call : Call → SkipList → Run (SkipList × Answer)
run_call (call_put draw key value) l = do
  (l1, v) ← put_key (random_level draw) key value l
  ok (l1, left v)
run_call (call_get key) l = do v ← get_key key l; ok (l, found v)
run_call (call_del key) l = do l1 ← del_key key l; ok (l1, done)
run_call call_cle l = do l1 ← cle l; ok (l1, done)
run_call call_iterate l = do ps ← points_of l; ok (l, all ps)
run_call call_min l = do k ← min_key l; ok (l, number k)
run_call call_max l = do k ← max_key l; ok (l, number k)
run_call call_size l = ok (l, number l.bottom_level_node_count)
run_call call_empty l = ok (l, truth (is_empty_list l))

unfoldable pub run_calls : List Call → SkipList → Run (List Answer)
run_calls [] l = ok []
run_calls (c ∷ calls) l = do (l1, a) ← run_call c l; answers ← run_calls calls l1; ok (a ∷ answers)

-- The same calls on points in order.
unfoldable pub call_points : Call → List Point → List Point × Answer
call_points (call_put draw key value) ps =
    (put_point key value ps, left (value_or value (lookup_point key ps)))
call_points (call_get key) ps = (ps, found (lookup_point key ps))
call_points (call_del key) ps = (remove_point key ps, done)
call_points call_cle ps = ([], done)
call_points call_iterate ps = (ps, all ps)
call_points call_min ps = (ps, number (first_time ps))
call_points call_max ps = (ps, number (last_time ps))
call_points call_size ps = (ps, number (length ps))
call_points call_empty ps = (ps, truth (length ps == 0))

unfoldable pub calls_points : List Call → List Point → List Answer
calls_points [] ps = []
calls_points (c ∷ calls) ps = let (ps1, a) = call_points c ps in a ∷ calls_points calls ps1

-- The keys that are put are 64-bit patterns.
abbrev pub IsFair : Call → Type 0
IsFair (call_put draw key value) = key < 2 ^ 64
IsFair c = Unit

-- A call leaves a list that holds what the points are after the call, and answers as the points do.
record IsAnswered (c : Call) (l : SkipList) (ps : List Point) : Type 0 where
  after : SkipList
  result : run_call c l ≡ ok (after, (call_points c ps).1)
  holding : IsHolding after (call_points c ps).0

answered :
    (c : Call) (l : SkipList) (ps : List Point) → IsHolding l ps → IsFair c → IsAnswered c l ps
unfolding run_call call_points is_empty_list
answered (call_put draw key value) l ps h fair =
    let r = put_key_lem (random_level draw) key value l ps h fair (random_level-bounds draw).0 in
    record {
      after = r.after;
      result = rw r.result (ap (λ v. ok (r.after, left v)) r.kept);
      holding = r.holding;
    }
answered (call_get key) l ps h fair = record {
  after = l;
  result = rw (get_key_lem key l ps h) refl;
  holding = h;
}
answered (call_del key) l ps h fair =
    let r = del_key_lem key l ps h in
    record { after = r.after; result = rw r.result refl; holding = r.holding }
answered call_cle l ps h fair =
    let r = cle_holding l ps h in
    record { after = r.after; result = rw r.result refl; holding = r.holding }
answered call_iterate l ps h fair = record {
  after = l;
  result = rw (points_of_holding l ps h) refl;
  holding = h;
}
answered call_min l ps h fair = record {
  after = l;
  result = rw (min_key_holding l ps h) refl;
  holding = h;
}
answered call_max l ps h fair = record {
  after = l;
  result = rw (max_key_holding l ps h) refl;
  holding = h;
}
answered call_size l ps h fair = record {
  after = l;
  result = ap (λ n. ok (l, number n)) (count_lem l ps h);
  holding = h;
}
answered call_empty l ps h fair = record {
  after = l;
  result = ap (λ n. ok (l, truth (n == 0))) (count_lem l ps h);
  holding = h;
}

run_calls-step :
    (c : Call) (calls : List Call) (l l1 : SkipList) (a : Answer) (answers : List Answer)
    → run_call c l ≡ ok (l1, a)
    → run_calls calls l1 ≡ ok answers
    → run_calls (c ∷ calls) l ≡ ok (a ∷ answers)
unfolding run_calls
run_calls-step c calls l l1 a answers h k = rw h (rw k refl)

run_calls-calls_points :
    (calls : List Call) (l : SkipList) (ps : List Point)
    → IsHolding l ps
    → All IsFair calls
    → run_calls calls l ≡ ok (calls_points calls ps)
unfolding run_calls calls_points
run_calls-calls_points [] l ps h fair = refl
run_calls-calls_points (c ∷ calls) l ps h fair =
    let r = answered c l ps h fair.0 in
    run_calls-step c calls l r.after (call_points c ps).1 (calls_points calls (call_points c ps).0)
      r.result (run_calls-calls_points calls r.after (call_points c ps).0 r.holding fair.1)

-- Whatever calls come in whatever order, with whatever levels drawn, a new skip list never meets a null pointer, a
-- freed node or a level that a node lacks, every loop ends within the rounds that the count of its nodes allows,
-- and every call answers what a plain list of points in order answers. The keys that are put are 64-bit patterns.
pub run_calls_lem :
    (calls : List Call)
    → All IsFair calls
    → run_calls calls new_skip_list ≡ ok (calls_points calls [])
run_calls_lem calls fair =
    run_calls-calls_points calls new_skip_list [] new_skip_list-IsHolding fair
