-- ===== src/IoBuffer/Pool/Alloc.antt =====
-- Allocation and return of buffers (`buffer_pool::alloc` and `buffer_pool::revert` of
-- server/src/io_buffer.cpp) keep the pool in order and serve every request up to the largest capacity.
use dtime_db.Prelude.{
  ℕ, ◌+◌, ◌/◌, ◌%◌, ◌^◌, ◌≤◌, ◌<◌, ◌≡◌, ◌≢◌, refl, sym, ap, subst, ◌∙◌, ◌⊎◌, inl, inr, Option, none,
  some, List, [], ◌∷◌, arith, length, All, leb, if◌then◌else◌, Bool-cases, Option-cases, ==_iff,
  ne→beq, leb→le,
}
use dtime_db.IoBuffer.{Bytes, done, exited, IoBuffer, new_buffer, clear}
use dtime_db.IoBuffer.Pool.{Pool, set, extra_mem_limitt, mem_cap, alloc_from, alloc, revert}

pub mem_cap-le : (n k : ℕ) → mem_cap n ≡ some k → n ≤ k
unfolding mem_cap
mem_cap-le n k h = ground arith

pub mem_cap_most : (n k : ℕ) → mem_cap n ≡ some k → k ≤ 8388608
unfolding mem_cap
mem_cap_most n k h = ground arith

pub mem_cap_small : (n : ℕ) → n ≤ 8388608 → mem_cap n ≢ none
unfolding mem_cap
mem_cap_small n h = ground arith

pub mem_cap_large : (n : ℕ) → 8388608 < n → mem_cap n ≡ none
unfolding mem_cap
mem_cap_large n h = ground arith

-- A buffer in the pool's list for the capacity `k`.
pub record IsFree (k : ℕ) (b : IoBuffer) : Type 0 where
  pub capacity : b.capacity ≡ k
  pub empty : b.length ≡ 0
  pub start : b.head ≡ 0
  pub memory : length b.data_ ≡ k

-- The contents lie in the memory, which has a capacity that the pool knows.
pub record IsBuffer (b : IoBuffer) : Type 0 where
  pub memory : length b.data_ ≡ b.capacity
  pub inside : b.head + b.length ≤ b.capacity
  pub request : ℕ
  pub class : mem_cap request ≡ some b.capacity

-- Every list holds free buffers of its capacity.
abbrev pub HasLists : (ℕ → Option (List IoBuffer)) → Type 0
HasLists m = (k : ℕ) (bs : List IoBuffer) → m k ≡ some bs → All (IsFree k) bs

pub record IsPool (p : Pool) : Type 0 where
  pub free : HasLists p.free
  pub served : (n k : ℕ) → mem_cap n ≡ some k → p.free k ≢ none
  pub within : p.total_mem < extra_mem_limitt

-- Another list for one capacity.
pub set_same :
    (k j : ℕ) (bs : List IoBuffer) (m : ℕ → Option (List IoBuffer)) → j ≡ k → set k bs m j ≡ some bs
set_same k j bs m e = ap (λ c. if c then some bs else m j) ((==_iff j k).1 e)

pub set_other :
    (k j : ℕ) (bs : List IoBuffer) (m : ℕ → Option (List IoBuffer)) → j ≢ k → set k bs m j ≡ m j
set_other k j bs m e = ap (λ c. if c then some bs else m j) (ne→beq j k e)

pub nat_cases : (j k : ℕ) → (j ≡ k) ⊎ (j ≢ k)
nat_cases j k = ground arith

pub set-HasLists :
    (k : ℕ) (bs : List IoBuffer) (m : ℕ → Option (List IoBuffer))
    → HasLists m
    → All (IsFree k) bs
    → HasLists (set k bs m)
set-HasLists k bs m h good j cs e = elim (nat_cases j k) [
  | inl q ↦
      let e' : some bs ≡ some cs = sym (set_same k j bs m q) ∙ e in
      let same : bs ≡ cs = cc in
      subst (λ l. All (IsFree j) l) same (subst (λ i. All (IsFree i) bs) (sym q) good)
  | inr q ↦ h j cs (sym (set_other k j bs m q) ∙ e)
]

pub set_key :
    (k j : ℕ) (bs : List IoBuffer) (m : ℕ → Option (List IoBuffer))
    → (j ≡ k) ⊎ (m j ≢ none)
    → set k bs m j ≢ none
set_key k j bs m h e = elim (nat_cases j k) [
  | inl q ↦ let e' : some bs ≡ none = sym (set_same k j bs m q) ∙ e in cc
  | inr q ↦ elim h [ inl q' ↦ q q' | inr h' ↦ h' (sym (set_other k j bs m q) ∙ e) ]
]

set-IsPool :
    (p : Pool) (k total : ℕ) (bs : List IoBuffer)
    → IsPool p
    → All (IsFree k) bs
    → total < extra_mem_limitt
    → IsPool (record { total_mem = total; free = set k bs p.free })
set-IsPool p k total bs h good t = record {
  free = set-HasLists k bs p.free h.free good;
  served = λ n j c. set_key k j bs p.free (inr (h.served n j c));
  within = t;
}

pub IsFree-IsBuffer : (n k : ℕ) (b : IoBuffer) → mem_cap n ≡ some k → IsFree k b → IsBuffer b
IsFree-IsBuffer n k b c h = record {
  memory = h.memory ∙ sym h.capacity;
  inside = omega (arith, h.empty, h.start);
  request = n;
  class = c ∙ ap some (sym h.capacity);
}

-- What a request of `n` bytes that some capacity serves ends in: a buffer with nothing in it and room
-- for the request, or the end of the process, since there is no such buffer and no memory for one.
pub record IsServed (n : ℕ) (p : Pool) (b : IoBuffer) (p' : Pool) : Type 0 where
  pub buffer : IsBuffer b
  pub room : n ≤ b.capacity
  pub empty : b.length ≡ 0
  pub start : b.head ≡ 0
  pub pool : IsPool p'

abbrev pub Served : (ℕ → Bytes) → ℕ → Pool → Type 0
Served fresh n p =
    ((b : IoBuffer) × (p' : Pool) × (alloc fresh n p ≡ done (some b, p')) × IsServed n p b p')
    ⊎ ((alloc fresh n p ≡ exited) × (extra_mem_limitt ≤ p.total_mem + 8192))

module _ (fresh : ℕ → Bytes) (size : (n : ℕ) → length (fresh n) ≡ n) where
  pub new_buffer-IsFree : (k : ℕ) → IsFree k (new_buffer fresh k)
  unfolding new_buffer
  new_buffer-IsFree k = record { capacity = refl; empty = refl; start = refl; memory = size k }

  alloc_class :
      (n k : ℕ) (p : Pool) (bs : List IoBuffer)
      → IsPool p
      → mem_cap n ≡ some k
      → p.free k ≡ some bs
      → Served fresh n p
  unfolding alloc alloc_from
  alloc_class n k p (b ∷ bs) h c e =
      let good = h.free k (b ∷ bs) e in
      inl (
        b,
        record p { free = set k bs p.free },
        (rw (alloc, c, e)),
        record {
          buffer = IsFree-IsBuffer n k b c good.0;
          room = omega (arith, mem_cap-le n k c, good.0.capacity);
          empty = good.0.empty;
          start = good.0.start;
          pool = set-IsPool p k p.total_mem bs h good.1 h.within;
        },
      )
  alloc_class n k p [] h c e =
      let total = (p.total_mem + k / 1024) % 2 ^ 64 in
      elim (Bool-cases (leb extra_mem_limitt total)) [
        | inl over ↦ inr (
          (rw (alloc, c, e, alloc_from, over)),
          omega (arith, leb→le extra_mem_limitt total over, mem_cap_most n k c, h.within),
        )
        | inr under ↦ inl (
          new_buffer fresh k,
          record { total_mem = total; free = set k [] p.free },
          (rw (alloc, c, e, alloc_from, under)),
          record {
            buffer = IsFree-IsBuffer n k (new_buffer fresh k) c (new_buffer-IsFree k);
            room = omega (arith, mem_cap-le n k c, (new_buffer-IsFree k).capacity);
            empty = (new_buffer-IsFree k).empty;
            start = (new_buffer-IsFree k).start;
            pool = set-IsPool p k total [] h tt (ground arith);
          },
        )
      ]

  -- A pool in order serves every request up to 8 MB with an empty buffer that has room for it and stays
  -- in order, or, with nothing free and no memory left within the limit, ends the process; a larger
  -- request finds no buffer and leaves the pool as it is.
  pub alloc-IsServed :
      (n : ℕ) (p : Pool)
      → IsPool p
      → (n ≤ 8388608 → Served fresh n p) × (8388608 < n → alloc fresh n p ≡ done (none, p))
  unfolding alloc
  alloc-IsServed n p h = (
    λ l. elim (Option-cases (mem_cap n)) [
      | inl e ↦ absurd (mem_cap_small n l e)
      | inr (k, c) ↦ elim (Option-cases (p.free k)) [
        | inl e ↦ absurd (h.served n k c e)
        | inr (bs, e) ↦ alloc_class n k p bs h c e
      ]
    ],
    λ l. rw (alloc, mem_cap_large n l),
  )

pub revert-eq :
    (b : IoBuffer) (p : Pool)
    → IsPool p
    → IsBuffer b
    → (bs : List IoBuffer) × (p.free b.capacity ≡ some bs)
      × (revert b p ≡ done (record p { free = set b.capacity (clear b ∷ bs) p.free }))
unfolding revert
revert-eq b p h k = elim (Option-cases (p.free b.capacity)) [
  | inl e ↦ absurd (h.served k.request b.capacity k.class e)
  | inr (bs, e) ↦ (bs, e, (rw (revert, e)))
]

clear-IsFree : (b : IoBuffer) → IsBuffer b → IsFree b.capacity (clear b)
unfolding clear
clear-IsFree b k = record { capacity = refl; empty = refl; start = refl; memory = k.memory }

-- Giving a buffer back succeeds, and keeps the pool in order and its account.
pub revert-IsPool :
    (b : IoBuffer) (p : Pool)
    → IsPool p
    → IsBuffer b
    → (p' : Pool) × (revert b p ≡ done p') × IsPool p' × (p'.total_mem ≡ p.total_mem)
revert-IsPool b p h k =
    let (bs, e, found) = revert-eq b p h k in
    (
      record p { free = set b.capacity (clear b ∷ bs) p.free },
      found,
      set-IsPool p b.capacity p.total_mem (clear b ∷ bs) h
          (clear-IsFree b k, h.free b.capacity bs e) h.within,
      refl,
    )
