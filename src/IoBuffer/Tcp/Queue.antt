-- ===== src/IoBuffer/Tcp/Queue.antt =====
-- `send_data`, `read_data` and `write_fd` of server/src/io_buffer.cpp as operations of a queue of bytes.
use dtime_db.Prelude.{
  ℕ, zero, suc, ◌+◌, ◌^◌, ◌≤◌, ◌<◌, ◌≡◌, refl, ap, sym, ◌∙◌, ◌⊎◌, inl, inr, true, false, Option,
  none, some, List, [], ◌∷◌, ◌++◌, append-nil, arith, length, drop, ◌==◌, ==_iff, ne→beq,
}
use dtime_db.IoBuffer.{Bytes, Outcome, done, exited, IoBuffer, pop, adjust}
use dtime_db.IoBuffer.Pool.{Pool}
use dtime_db.IoBuffer.Pool.Alloc.{nat_cases}
use dtime_db.IoBuffer.Tcp.{
  Tcp, put_back, send_data, Answer, would_block, failed, success, retry, after_read, read_data,
  after_write, write_fd,
}
use dtime_db.IoBuffer.Tcp.Contents.{held, contents, put_back-held, pop-held, adjust-held}
use dtime_db.IoBuffer.Tcp.Room.{IsTcp, IsRoom, NoMemory, make_room-Roomy}

-- The call returns `r`, the bytes `bs` join the contents at the end, and the buffers stay in order.
abbrev pub Grows : Tcp → Bytes → Option ℕ → Outcome (Option ℕ × Tcp) → Type 0
Grows s bs r o = (s' : Tcp) × (o ≡ done (r, s')) × IsTcp s' × (contents s'.0 ≡ contents s.0 ++ bs)

nothing : (bs xs : Bytes) → length bs ≡ 0 → xs ≡ xs ++ bs
nothing [] xs e = sym (append-nil xs)
nothing (b ∷ bs) xs e = absurd (omega arith)

module _ (fresh : ℕ → Bytes) (size : (n : ℕ) → length (fresh n) ≡ n) where
  filled :
      (bs : Bytes) (s : Tcp) (b : IoBuffer) (p : Pool)
      → IsRoom (length bs) s b p
      → IsTcp (some (put_back bs b), p) × (held (put_back bs b) ≡ contents s.0 ++ bs)
  unfolding put_back
  filled bs s b p r =
      let k = put_back-held bs b r.buffer r.start r.room in
      (record { buffer = (k.0, r.start); pool = r.pool }, k.1 ∙ ap (λ c. c ++ bs) r.same)

  -- With buffer and pool in order, and the contents and the new bytes together fewer than 2^31: while
  -- they are at most 8 MB, `send_data` puts the bytes behind the contents, in a larger buffer if need
  -- be, and returns 0, or ends the process for want of memory; when they are more it returns -1 and
  -- changes nothing.
  pub send_data-Grows :
      (bs : Bytes) (s : Tcp)
      → IsTcp s
      → length bs + length (contents s.0) < 2 ^ 31
      → (length bs + length (contents s.0) ≤ 8388608
          → Grows s bs (some 0) (send_data fresh bs s)
            ⊎ ((send_data fresh bs s ≡ exited) × NoMemory s))
        × (8388608 < length bs + length (contents s.0) → send_data fresh bs s ≡ done (none, s))
  unfolding send_data
  send_data-Grows bs s h fits =
      let room = make_room-Roomy fresh size (length bs) s h fits in
      (
        λ l. elim (room.0 l) [
          | inl (b, p, e, r) ↦
              let k = filled bs s b p r in
              inl ((some (put_back bs b), p), (rw (send_data, e)), k.0, k.1)
          | inr (e, m) ↦ inr ((rw (send_data, e)), m)
        ],
        λ l. rw (send_data, room.1 l),
      )

  -- With buffer and pool in order, when the socket has the bytes that `FIONREAD` has announced, at most
  -- 8 MB with the contents, and `read` gives them after any number of interruptions, `read_data` puts
  -- them behind the contents and returns their number, or ends the process for want of memory.
  pub read_data-Grows :
      (bs : Bytes) (answers : List (Answer Bytes)) (s : Tcp)
      → IsTcp s
      → retry answers ≡ done (success bs)
      → length bs + length (contents s.0) ≤ 8388608
      → Grows s bs (some (length bs)) (read_data fresh (some (length bs)) answers s)
        ⊎ ((read_data fresh (some (length bs)) answers s ≡ exited) × NoMemory s)
  unfolding read_data after_read put_back
  read_data-Grows bs answers s h got l =
      elim ((make_room-Roomy fresh size (length bs) s h (omega arith)).0 l) [
        | inl (b, p, e, r) ↦ elim (nat_cases (length bs) 0) [
          | inl z ↦
              let same : (length bs == 0) ≡ true = (==_iff (length bs) 0).1 z in
              inl (
                (some b, p),
                (rw (read_data, e, got, after_read, same)
                    (λ i. done (some (sym z i), (some b, p)))),
                record { buffer = (r.buffer, r.start); pool = r.pool },
                r.same ∙ nothing bs (contents s.0) z,
              )
          | inr nz ↦
              let k = filled bs s b p r in
              let some_read : (length bs == 0) ≡ false = ne→beq (length bs) 0 nz in
              let whole : (length bs == length bs) ≡ true =
                (==_iff (length bs) (length bs)).1 refl in
              inl (
                (some (put_back bs b), p),
                (rw (read_data, e, got, after_read, some_read, whole)),
                k.0,
                k.1,
              )
        ]
        | inr (e, m) ↦ inr ((rw (read_data, e)), m)
      ]

-- Written with a buffer that starts at its head, the bytes that the system has taken leave at the front,
-- and what is left starts at the head again; a call that cannot write now returns 0, and one that fails
-- -1, and both leave the contents.
pub write_fd-Shrinks :
    (answers : List (Answer ℕ)) (a : Answer ℕ) (b : IoBuffer) (p : Pool)
    → IsTcp (some b, p)
    → retry answers ≡ done a
    → ((n : ℕ)
        → a ≡ success n
        → n ≤ b.length
        → (s' : Tcp) × (write_fd answers (some b, p) ≡ done (some n, s'))
          × IsTcp s'
          × (contents s'.0 ≡ drop n (held b)))
      × (a ≡ would_block → write_fd answers (some b, p) ≡ done (some 0, (some b, p)))
      × (a ≡ failed → write_fd answers (some b, p) ≡ done (none, (some b, p)))
unfolding write_fd after_write
write_fd-Shrinks answers a b p h e =
    let at_start : (b.head == 0) ≡ true = (==_iff b.head 0).1 h.buffer.1 in
    (
      λ n q l. wrote n l at_start (e ∙ ap done q),
      λ q. rw (write_fd, at_start, e, q, after_write),
      λ q. rw (write_fd, at_start, e, q, after_write),
    )
  where
    wrote :
        (n : ℕ)
        → n ≤ b.length
        → (b.head == 0) ≡ true
        → retry answers ≡ done (success n)
        → (s' : Tcp) × (write_fd answers (some b, p) ≡ done (some n, s'))
          × IsTcp s'
          × (contents s'.0 ≡ drop n (held b))
    wrote zero l z e = ((some b, p), (rw (write_fd, z, e, after_write)), h, refl)
    wrote (suc n) l z e =
        let k = pop-held (suc n) b h.buffer.0 l in
        let k' = adjust-held (pop (suc n) b) k.0 in
        (
          (some (adjust (pop (suc n) b)), p),
          (rw (write_fd, z, e, after_write)),
          record { buffer = (k'.0, k'.1); pool = h.pool },
          k'.2 ∙ k.1,
        )
