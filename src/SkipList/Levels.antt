-- ===== src/SkipList/Levels.antt =====
-- The levels that `random_level` draws.
use dtime_db.Prelude.{ℕ, zero, suc, ◌+◌, ◌<◌, ◌≤◌, ◌%◌, ltb, Bool-cases, inl, inr, arith}
use dtime_db.SkipList.{random_level, raise_level, max_level}

raise_level-bounds :
    (draw : ℕ → ℕ) (n i : ℕ) → (0 < raise_level draw n i) × (raise_level draw n i ≤ suc (n + i))
unfolding raise_level
raise_level-bounds draw zero i = (omega arith, omega arith)
raise_level-bounds draw (suc n) i =
    let r = raise_level-bounds draw n (suc i) in
    elim (Bool-cases (ltb (draw i % 100) 50)) [
      | inl more ↦ rw more (r.0, let h = r.1 in omega (arith, h))
      | inr stop ↦ rw stop (omega arith, omega arith)
    ]

-- Whatever is drawn, the level of a new node is at least 1 and at most `MAX_LEVEL`.
pub random_level-bounds : (draw : ℕ → ℕ) → (0 < random_level draw) × (random_level draw ≤ max_level)
unfolding random_level
random_level-bounds draw = raise_level-bounds draw 31 0
