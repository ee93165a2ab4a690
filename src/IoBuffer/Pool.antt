-- ===== src/IoBuffer/Pool.antt =====
-- `buffer_pool` of server/include/io_buffer.h and server/src/io_buffer.cpp: free buffers by capacity and
-- the account of the memory taken. Each operation holds the pool's mutex and is one step.
pub mod Alloc
pub mod Initial
pub mod Reuse
use dtime_db.Prelude.{
  ℕ, ◌+◌, ◌*◌, ◌/◌, ◌%◌, ◌^◌, ◌≡◌, Bool, Option, none, some, List, [], ◌∷◌, replicate, leb, ◌==◌,
  if◌then◌else◌,
}
use dtime_db.IoBuffer.{Bytes, Outcome, done, exited, asserted, IoBuffer, new_buffer, clear}

-- `_pool` maps a capacity to the list of free buffers, and may lack it.
pub record Pool : Type 0 where
  pub total_mem : ℕ
  pub free : ℕ → Option (List IoBuffer)

abbrev pub set : ℕ → List IoBuffer → (ℕ → Option (List IoBuffer)) → ℕ → Option (List IoBuffer)
set k bs m j = if j == k then some bs else m j

-- `EXTRA_MEM_LIMITT`, in units of 1024 bytes.
abbrev pub extra_mem_limitt : ℕ
extra_mem_limitt = 5 * 1024 * 1024

-- The capacity that serves a request, if one does.
unfoldable pub mem_cap : ℕ → Option ℕ
mem_cap n =
    if leb n 4096
    then some 4096
    else if leb n 16384
    then some 16384
    else if leb n 65536
    then some 65536
    else if leb n 262144
    then some 262144
    else if leb n 1048576
    then some 1048576
    else if leb n 4194304
    then some 4194304
    else if leb n 8388608
    then some 8388608
    else none

-- `_pool[index]`, which is `NULL` on a missing key.
abbrev pub bucket : Option (List IoBuffer) → List IoBuffer
bucket none = []
bucket (some bs) = bs

-- The two ends of `alloc`: nothing free, so a new buffer within the limit, or the first free one.
unfoldable pub alloc_from :
    (ℕ → Bytes) → ℕ → List IoBuffer → Pool → Outcome (Option IoBuffer × Pool)
alloc_from fresh index [] p =
    if leb extra_mem_limitt ((p.total_mem + index / 1024) % 2 ^ 64)
    then exited
    else done (
      some (new_buffer fresh index),
      record { total_mem = (p.total_mem + index / 1024) % 2 ^ 64; free = set index [] p.free },
    )
alloc_from fresh index (target ∷ rest) p =
    done (some target, record p { free = set index rest p.free })

unfoldable pub alloc : (ℕ → Bytes) → ℕ → Pool → Outcome (Option IoBuffer × Pool)
alloc fresh n p = elim (mem_cap n) [
  | none ↦ done (none, p)
  | some index ↦ alloc_from fresh index (bucket (p.free index)) p
]

unfoldable pub revert : IoBuffer → Pool → Outcome Pool
revert b p = elim (p.free b.capacity) [
  | none ↦ asserted
  | some bs ↦ done (record p { free = set b.capacity (clear b ∷ bs) p.free })
]

-- One size class of the constructor: `count` buffers of `kb` units each.
unfoldable pub fill : (ℕ → Bytes) → ℕ → ℕ → Pool → Pool
fill fresh kb count p = record {
  total_mem = (p.total_mem + kb * count) % 2 ^ 64;
  free = set (kb * 1024) (replicate count (new_buffer fresh (kb * 1024))) p.free;
}

unfoldable pub buffer_pool : (ℕ → Bytes) → Pool
buffer_pool fresh = fill fresh 8192 10 (
    fill fresh 4096 20 (
      fill fresh 1024 50 (
        fill fresh 256 200 (
          fill fresh 64 500 (
            fill fresh 16 1000 (fill fresh 4 5000 (record { total_mem = 0; free = λ _. none })))))))
