-- ===== src/IoBuffer/Pool/Reuse.antt =====
-- A buffer that is given back (`buffer_pool::revert`) and the next request of its capacity
-- (`buffer_pool::alloc`), both of server/src/io_buffer.cpp.
use dtime_db.Prelude.{ℕ, ◌≡◌, refl, sym, ap, ◌∙◌, inl, inr, some, List, ◌∷◌}
use dtime_db.IoBuffer.{Bytes, done, IoBuffer, clear}
use dtime_db.IoBuffer.Pool.{Pool, set, mem_cap, alloc_from, alloc, revert}
use dtime_db.IoBuffer.Pool.Alloc.{IsBuffer, IsPool, set_same, set_other, nat_cases, revert-eq}

-- To take the first buffer off a list is to undo its return.
set_back :
    (k : ℕ) (bs cs : List IoBuffer) (p : Pool)
    → p.free k ≡ some bs
    → record { total_mem = p.total_mem; free = set k bs (set k cs p.free) } ≡ p
set_back k bs cs p e i = record { total_mem = p.total_mem; free = λ j. same j i }
  where
    same : (j : ℕ) → set k bs (set k cs p.free) j ≡ p.free j
    same j = elim (nat_cases j k) [
      | inl q ↦ set_same k j bs (set k cs p.free) q ∙ sym e ∙ ap p.free (sym q)
      | inr q ↦ set_other k j bs (set k cs p.free) q ∙ set_other k j cs p.free q
    ]

alloc_first :
    (fresh : ℕ → Bytes) (n k : ℕ) (b : IoBuffer) (bs : List IoBuffer) (p : Pool)
    → mem_cap n ≡ some k
    → p.free k ≡ some (b ∷ bs)
    → alloc fresh n p ≡ done (some b, record { total_mem = p.total_mem; free = set k bs p.free })
unfolding alloc alloc_from
alloc_first fresh n k b bs p c e = rw (alloc, c, e, alloc_from)

-- A buffer that is given back is what the next request of its capacity finds, emptied and without new
-- memory, and after that the pool is as it was before.
pub alloc-revert :
    (fresh : ℕ → Bytes) (n : ℕ) (b : IoBuffer) (p : Pool)
    → IsPool p
    → IsBuffer b
    → mem_cap n ≡ some b.capacity
    → (p' : Pool) × (revert b p ≡ done p') × (alloc fresh n p' ≡ done (some (clear b), p))
alloc-revert fresh n b p h k c =
    let (bs, e, found) = revert-eq b p h k in
    let p' : Pool = record p { free = set b.capacity (clear b ∷ bs) p.free } in
    (
      p',
      found,
      alloc_first fresh n b.capacity (clear b) bs p' c
            (set_same b.capacity b.capacity (clear b ∷ bs) p.free refl)
          ∙ ap (λ q. done (some (clear b), q)) (set_back b.capacity bs (clear b ∷ bs) p e),
    )
