-- ===== src/IoBuffer/Tcp/Room.antt =====
-- Room for more bytes, as `read_data` and `send_data` of server/src/io_buffer.cpp make it.
use dtime_db.Prelude.{
  ℕ, ◌+◌, ◌-◌, ◌^◌, ◌≤◌, ◌<◌, ◌≡◌, refl, ap, ◌⊎◌, inl, inr, true, false, Option, none, some, arith,
  length, take, drop, ltb, ◌==◌, Bool-cases, ==_iff, lt→ltb,
}
use dtime_db.IoBuffer.{Bytes, done, exited, IoBuffer, copy}
use dtime_db.IoBuffer.Pool.{Pool, extra_mem_limitt}
use dtime_db.IoBuffer.Pool.Alloc.{IsBuffer, IsPool, mem_cap_most, alloc-IsServed, revert-IsPool}
use dtime_db.IoBuffer.Tcp.{Tcp, make_room}
use dtime_db.IoBuffer.Tcp.Contents.{held, contents, length-held, copy-held}

-- The buffer, if there is one, starts at its head.
abbrev pub Ready : Option IoBuffer → Type 0
Ready none = Unit
Ready (some b) = IsBuffer b × (b.head ≡ 0)

pub record IsTcp (s : Tcp) : Type 0 where
  pub buffer : Ready s.0
  pub pool : IsPool s.1

-- A buffer with the same contents and room for `n` bytes.
pub record IsRoom (n : ℕ) (s : Tcp) (b : IoBuffer) (p : Pool) : Type 0 where
  pub buffer : IsBuffer b
  pub start : b.head ≡ 0
  pub same : held b ≡ contents s.0
  pub room : b.length + n ≤ b.capacity
  pub pool : IsPool p

-- The end of the process for want of memory: what is taken is within 8 MB of the limit.
abbrev pub NoMemory : Tcp → Type 0
NoMemory s = extra_mem_limitt ≤ s.1.total_mem + 8192

module _ (fresh : ℕ → Bytes) (size : (n : ℕ) → length (fresh n) ≡ n) where
  abbrev pub Roomy : ℕ → Tcp → Type 0
  Roomy n s =
      ((b : IoBuffer) × (p : Pool) × (make_room fresh n s ≡ done (true, (some b, p)))
        × IsRoom n s b p)
      ⊎ ((make_room fresh n s ≡ exited) × NoMemory s)

  first_buffer : (n : ℕ) (p : Pool) → IsPool p → n ≤ 8388608 → Roomy n (none, p)
  unfolding make_room
  first_buffer n p h l = elim ((alloc-IsServed fresh size n p h).0 l) [
    | inl (b, p', e, r) ↦ inl (
      b,
      p',
      (rw (make_room, e)),
      record {
        buffer = r.buffer;
        start = r.start;
        same = ap (λ k. take k (drop b.head b.data_)) r.empty;
        room = omega (arith, r.room, r.empty);
        pool = r.pool;
      },
    )
    | inr (e, m) ↦ inr ((rw (make_room, e)), m)
  ]

  module _ (n : ℕ) (b : IoBuffer) (p : Pool) (good : IsBuffer b) (start : b.head ≡ 0)
      (h : IsPool p) where
    at_start : (b.head == 0) ≡ true
    at_start = (==_iff b.head 0).1 start

    enough : (ltb (b.capacity - b.length) n) ≡ false → Roomy n (some b, p)
    unfolding make_room
    enough e = inl (
      b,
      p,
      (rw (make_room, at_start, e)),
      record {
        buffer = good;
        start = start;
        same = refl;
        room = ground (arith, good.inside);
        pool = h;
      },
    )

    larger_buffer :
        n + b.length < 2 ^ 31
        → ltb (b.capacity - b.length) n ≡ true
        → n + b.length ≤ 8388608
        → Roomy n (some b, p)
    unfolding make_room copy
    larger_buffer fits e l =
        let in_range : ltb (n + b.length) (2 ^ 31) ≡ true = lt→ltb (n + b.length) (2 ^ 31) fits in
        elim ((alloc-IsServed fresh size (n + b.length) p h).0 l) [
          | inl (c, p1, f, r) ↦
              let (p2, g, h2, t) = revert-IsPool b p1 r.pool good in
              let k = copy-held c b r.buffer good (omega (arith, r.room)) in
              inl (
                copy c b,
                p2,
                (rw (make_room, at_start, e, in_range, f, g)),
                record { buffer = k.0; start = k.1; same = k.2; room = room c r.room; pool = h2 },
              )
          | inr (f, m) ↦ inr ((rw (make_room, at_start, e, in_range, f)), m)
        ]
      where
        room :
            (c : IoBuffer) → n + b.length ≤ c.capacity → (copy c b).length + n ≤ (copy c b).capacity
        room c l = omega arith

    too_large :
        n + b.length < 2 ^ 31
        → 8388608 < n + b.length
        → make_room fresh n (some b, p) ≡ done (false, (some b, p))
    unfolding make_room
    too_large fits l =
        let in_range : ltb (n + b.length) (2 ^ 31) ≡ true = lt→ltb (n + b.length) (2 ^ 31) fits in
        let e : ltb (b.capacity - b.length) n ≡ true =
          lt→ltb (b.capacity - b.length) n
            (omega (arith, mem_cap_most good.request b.capacity good.class, good.inside)) in
        rw (make_room, at_start, e, in_range, (alloc-IsServed fresh size (n + b.length) p h).1 l)

  pub make_room-Roomy :
      (n : ℕ) (s : Tcp)
      → IsTcp s
      → n + length (contents s.0) < 2 ^ 31
      → (n + length (contents s.0) ≤ 8388608 → Roomy n s)
        × (8388608 < n + length (contents s.0) → make_room fresh n s ≡ done (false, s))
  unfolding make_room
  make_room-Roomy n (none, p) h fits = (
    λ l. first_buffer n p h.pool (omega arith),
    λ l. rw (make_room, (alloc-IsServed fresh size n p h.pool).1 (omega arith)),
  )
  make_room-Roomy n (some b, p) h fits =
      let (good, start) = h.buffer in
      let len = length-held b good in
      (
        λ l. elim (Bool-cases (ltb (b.capacity - b.length) n)) [
          | inl e ↦ larger_buffer n b p good start h.pool (omega arith) e (omega arith)
          | inr e ↦ enough n b p good start h.pool e
        ],
        λ l. too_large n b p good start h.pool (omega arith) (omega arith),
      )
