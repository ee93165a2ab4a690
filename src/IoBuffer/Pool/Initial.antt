-- ===== src/IoBuffer/Pool/Initial.antt =====
-- The pool that the constructor `buffer_pool::buffer_pool` of server/src/io_buffer.cpp fills, and a buffer
-- given back and taken again.
use dtime_db.Prelude.{
  ℕ, zero, suc, ◌*◌, ◌≡◌, ◌≢◌, refl, ◌⊎◌, inl, inr, none, some, arith, length, replicate, All,
}
use dtime_db.IoBuffer.{Bytes, IoBuffer, new_buffer}
use dtime_db.IoBuffer.Pool.{Pool, mem_cap, fill, buffer_pool}
use dtime_db.IoBuffer.Pool.Alloc.{
  IsFree, HasLists, IsPool, set-HasLists, set_key, new_buffer-IsFree,
}

-- The capacities are the seven that the constructor fills.
mem_cap_one_of :
    (n k : ℕ)
    → mem_cap n ≡ some k
    → (k ≡ 8388608)
      ⊎ (k ≡ 4194304)
      ⊎ (k ≡ 1048576)
      ⊎ (k ≡ 262144)
      ⊎ (k ≡ 65536)
      ⊎ (k ≡ 16384)
      ⊎ (k ≡ 4096)
unfolding mem_cap
mem_cap_one_of n k h = ground arith

replicate-All : (k : ℕ) (n : ℕ) (b : IoBuffer) → IsFree k b → All (IsFree k) (replicate n b)
replicate-All k zero b h = tt
replicate-All k (suc n) b h = (h, replicate-All k n b h)

module _ (fresh : ℕ → Bytes) (size : (n : ℕ) → length (fresh n) ≡ n) where
  fill-HasLists :
      (kb count : ℕ) (p : Pool) → HasLists p.free → HasLists (fill fresh kb count p).free
  unfolding fill
  fill-HasLists kb count p h =
      set-HasLists (kb * 1024) (replicate count (new_buffer fresh (kb * 1024))) p.free h (
        replicate-All (kb * 1024) count (new_buffer fresh (kb * 1024))
          (new_buffer-IsFree fresh size (kb * 1024)))

  fill_key :
      {R : Type 0}
      → (kb count j : ℕ) (p : Pool) → (j ≡ kb * 1024) ⊎ R
      → (R → p.free j ≢ none)
      → (fill fresh kb count p).free j ≢ none
  unfolding fill
  fill_key kb count j p h before =
      set_key (kb * 1024) j (replicate count (new_buffer fresh (kb * 1024))) p.free
        (elim h [ inl e ↦ inl e | inr r ↦ inr (before r) ])

  buffer_pool_key :
      (j : ℕ)
      → (j ≡ 8388608)
        ⊎ (j ≡ 4194304)
        ⊎ (j ≡ 1048576)
        ⊎ (j ≡ 262144)
        ⊎ (j ≡ 65536)
        ⊎ (j ≡ 16384)
        ⊎ (j ≡ 4096)
      → (buffer_pool fresh).free j ≢ none
  unfolding buffer_pool
  buffer_pool_key j h = fill_key 8192 10 j _ h (λ h. fill_key 4096 20 j _ h (λ h.
      fill_key 1024 50 j _ h (λ h. fill_key 256 200 j _ h (λ h.
        fill_key 64 500 j _ h (λ h.
          fill_key 16 1000 j _ h (λ e. fill_key {R = ⊥} 4 5000 j _ (inl e) (λ r. absurd r)))))))

  buffer_pool_total : (buffer_pool fresh).total_mem ≡ 334240
  unfolding buffer_pool fill
  buffer_pool_total = refl

  buffer_pool-HasLists : HasLists (buffer_pool fresh).free
  unfolding buffer_pool
  buffer_pool-HasLists = fill-HasLists 8192 10 _ (
      fill-HasLists 4096 20 _ (
        fill-HasLists 1024 50 _ (
          fill-HasLists 256 200 _ (
            fill-HasLists 64 500 _
              (fill-HasLists 16 1000 _ (fill-HasLists 4 5000 _ (λ k bs e. cc)))))))

  -- The pool that the constructor fills is in order: its lists hold free buffers of their capacity, it has
  -- a list for every capacity, and its account, which is 334240 units of 1024 bytes, is within the limit.
  pub buffer_pool-IsPool : IsPool (buffer_pool fresh) × ((buffer_pool fresh).total_mem ≡ 334240)
  buffer_pool-IsPool = (
    record {
      free = buffer_pool-HasLists;
      served = λ n k c. buffer_pool_key k (mem_cap_one_of n k c);
      within = omega (arith, buffer_pool_total);
    },
    buffer_pool_total,
  )
