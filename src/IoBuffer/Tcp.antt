-- ===== src/IoBuffer/Tcp.antt =====
-- `tcp_buffer`, `input_buffer` and `output_buffer` of server/include/io_buffer.h and
-- server/src/io_buffer.cpp, over the pool. What the system calls answer is an argument; `none` stands
-- for a returned -1.
pub mod Contents
pub mod Room
pub mod Queue
pub mod Stream
pub mod Release
use dtime_db.Prelude.{
  ℕ, zero, ◌+◌, ◌-◌, ◌*◌, ◌^◌, ◌≡◌, Bool, true, false, Option, none, some, List, [], ◌∷◌, length,
  leb, ltb, ◌==◌, if◌then◌else◌,
}
use dtime_db.IoBuffer.{
  Bytes, Outcome, done, exited, asserted, undefined, waiting, ◌>>=◌, IoBuffer, adjust, copy,
  copy_to, pop,
}
use dtime_db.IoBuffer.Pool.{Pool, alloc, revert}

-- A TCP buffer's `_buf` with the one pool of the process.
abbrev pub Tcp : Type 0
Tcp = Option IoBuffer × Pool

unfoldable pub tcp_length : Option IoBuffer → ℕ
tcp_length none = 0
tcp_length (some b) = b.length

unfoldable pub tcp_clear : Tcp → Outcome Tcp
tcp_clear (none, p) = done (none, p)
tcp_clear (some b, p) = do p' ← revert b p; done (none, p')

unfoldable pub tcp_pop : ℕ → Tcp → Outcome Tcp
tcp_pop len (none, p) = asserted
tcp_pop len (some b, p) =
    let popped = pop len b in
    let given_back : Outcome Tcp = (do p' ← revert popped p; done (none, p')) in
    if leb len b.length
    then (if popped.length == 0 then given_back else done (some popped, p))
    else asserted

-- Room for `n` more bytes, as `read_data` and `send_data` make it: the buffer, a first one, or a larger
-- one with the old bytes. The first component is false where no buffer is large enough.
unfoldable pub make_room : (ℕ → Bytes) → ℕ → Tcp → Outcome (Bool × Tcp)
make_room fresh n (none, p) = do
  (found, p1) ← alloc fresh n p
  elim found [ none ↦ done (false, (none, p1)) | some b ↦ done (true, (some b, p1)) ]
make_room fresh n (some b, p) =
    let larger : Outcome (Bool × Tcp) = do
      (found, p1) ← alloc fresh (n + b.length) p
      elim found [
        | none ↦ done (false, (some b, p1))
        | some new_buf ↦ do p2 ← revert b p1; done (true, (some (copy new_buf b), p2))
      ]
    in if b.head == 0
      then (if ltb (b.capacity - b.length) n
          then (if ltb (n + b.length) (2 ^ 31) then larger else undefined)
          else done (true, (some b, p)))
      else asserted

-- The bytes behind the contents.
unfoldable pub put_back : Bytes → IoBuffer → IoBuffer
put_back bs b = record b { length = b.length + length bs; data_ = copy_to b.length bs b.data_ }

unfoldable pub send_data : (ℕ → Bytes) → Bytes → Tcp → Outcome (Option ℕ × Tcp)
send_data fresh bs s = do
  (found, (buf, p)) ← make_room fresh (length bs) s
  elim found [
    | false ↦ done (none, (buf, p))
    | true ↦ elim buf [ none ↦ undefined | some b ↦ done (some 0, (some (put_back bs b), p)) ]
  ]

-- What `::read` or `::write` answers, and the last answer of the loop that repeats it on `EINTR`.
pub data Answer (A : Type 0) : Type 0 where
  interrupted would_block failed : Answer A
  success : A → Answer A

unfoldable pub retry : {A : Type 0} → List (Answer A) → Outcome (Answer A)
retry [] = waiting
retry (interrupted ∷ rest) = retry rest
retry (a ∷ rest) = done a

-- After the loop of `read_data`.
unfoldable pub after_read : ℕ → Answer Bytes → IoBuffer → Pool → Outcome (Option ℕ × Tcp)
after_read rn (success bs) b p =
    if length bs == 0
    then done (some 0, (some b, p))
    else if length bs == rn
    then done (some rn, (some (put_back bs b), p))
    else asserted
after_read rn _ b p = done (none, (some b, p))

-- `rn` is what `ioctl(fd, FIONREAD, &rn)` finds.
unfoldable pub read_data :
    (ℕ → Bytes) → Option ℕ → List (Answer Bytes) → Tcp → Outcome (Option ℕ × Tcp)
read_data fresh none answers s = done (none, s)
read_data fresh (some rn) answers s = do
  (found, (buf, p)) ← make_room fresh rn s
  elim found [
    | false ↦ done (none, (buf, p))
    | true ↦ elim buf [
      | none ↦ undefined
      | some b ↦ do answer ← retry answers; after_read rn answer b p
    ]
  ]

unfoldable pub after_write : Answer ℕ → IoBuffer → Pool → Option ℕ × Tcp
after_write (success zero) b p = (some 0, (some b, p))
after_write (success n) b p = (some n, (some (adjust (pop n b)), p))
after_write would_block b p = (some 0, (some b, p))
after_write _ b p = (none, (some b, p))

unfoldable pub write_fd : List (Answer ℕ) → Tcp → Outcome (Option ℕ × Tcp)
write_fd answers (none, p) = asserted
write_fd answers (some b, p) =
    let sent : Outcome (Option ℕ × Tcp) = do answer ← retry answers; done (after_write answer b p)
    in if b.head == 0 then sent else asserted
