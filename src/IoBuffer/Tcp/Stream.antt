-- ===== src/IoBuffer/Tcp/Stream.antt =====
-- A connection's output buffer over its life: any sequence of `send_data` and `write_fd` of
-- server/src/io_buffer.cpp that return.
use dtime_db.Prelude.{
  ℕ, ◌+◌, ◌^◌, ◌≤◌, ◌<◌, ◌≡◌, refl, ap, sym, subst, ◌∙◌, ◌⊎◌, inl, inr, none, some, Option, List,
  [], ◌++◌, append-nil, append_assoc, arith, length, take, drop, take-append-drop,
}
use dtime_db.IoBuffer.{Bytes, done, IoBuffer}
use dtime_db.IoBuffer.Pool.{Pool}
use dtime_db.IoBuffer.Tcp.{Tcp, send_data, Answer, would_block, failed, success, retry, write_fd}
use dtime_db.IoBuffer.Tcp.Contents.{held, contents}
use dtime_db.IoBuffer.Tcp.Room.{IsTcp}
use dtime_db.IoBuffer.Tcp.Queue.{send_data-Grows, write_fd-Shrinks}

-- `Life fresh s sent taken s'`: from `s` to `s'`, with the bytes that `send_data` has accepted and those that
-- the system has taken, each in its order.
pub data Life (fresh : ℕ → Bytes) (s : Tcp) : Bytes → Bytes → Tcp → Type 0 where
  start : Life fresh s [] [] s
  sends :
      (sent taken bs : Bytes) (s1 s2 : Tcp)
      → Life fresh s sent taken s1
      → length bs + length (contents s1.0) < 2 ^ 31
      → send_data fresh bs s1 ≡ done (some 0, s2)
      → Life fresh s (sent ++ bs) taken s2
  refused :
      (sent taken bs : Bytes) (s1 s2 : Tcp)
      → Life fresh s sent taken s1
      → length bs + length (contents s1.0) < 2 ^ 31
      → send_data fresh bs s1 ≡ done (none, s2)
      → Life fresh s sent taken s2
  writes :
      (sent taken : Bytes) (answers : List (Answer ℕ)) (n : ℕ) (b : IoBuffer) (p : Pool) (s2 : Tcp)
      → Life fresh s sent taken (some b, p)
      → retry answers ≡ done (success n)
      → n ≤ b.length
      → write_fd answers (some b, p) ≡ done (some n, s2)
      → Life fresh s sent (taken ++ take n (held b)) s2
  unwritten :
      (sent taken : Bytes) (answers : List (Answer ℕ)) (r : Option ℕ) (b : IoBuffer) (p : Pool)
      (s2 : Tcp)
      → Life fresh s sent taken (some b, p)
      → (retry answers ≡ done would_block) ⊎ (retry answers ≡ done failed)
      → write_fd answers (some b, p) ≡ done (r, s2)
      → Life fresh s sent taken s2

sizes : (n : ℕ) → (n ≤ 8388608) ⊎ (8388608 < n)
sizes n = ground arith

module _ (fresh : ℕ → Bytes) (size : (n : ℕ) → length (fresh n) ≡ n) where
  accepted :
      (bs : Bytes) (s1 s2 : Tcp)
      → IsTcp s1
      → length bs + length (contents s1.0) < 2 ^ 31
      → send_data fresh bs s1 ≡ done (some 0, s2)
      → IsTcp s2 × (contents s2.0 ≡ contents s1.0 ++ bs)
  accepted bs s1 s2 h fits e =
      let g = send_data-Grows fresh size bs s1 h fits in
      elim (sizes (length bs + length (contents s1.0))) [
        | inl l ↦ elim (g.0 l) [
          | inl (s', e', k, c) ↦
              let same : s' ≡ s2 = cc in
              (subst IsTcp same k, subst (λ (t : Tcp). contents t.0 ≡ contents s1.0 ++ bs) same c)
          | inr (e', m) ↦ absurd cc
        ]
        | inr l ↦ let e' = g.1 l in absurd cc
      ]

  -- A call that is refused changes nothing.
  unchanged :
      (bs : Bytes) (s1 s2 : Tcp)
      → IsTcp s1
      → length bs + length (contents s1.0) < 2 ^ 31
      → send_data fresh bs s1 ≡ done (none, s2)
      → s1 ≡ s2
  unchanged bs s1 s2 h fits e =
      let g = send_data-Grows fresh size bs s1 h fits in
      elim (sizes (length bs + length (contents s1.0))) [
        | inl l ↦ elim (g.0 l) [ inl (s', e', k, c) ↦ absurd cc | inr (e', m) ↦ absurd cc ]
        | inr l ↦ let e' = g.1 l in cc
      ]

  kept :
      (answers : List (Answer ℕ)) (r : Option ℕ) (b : IoBuffer) (p : Pool) (s2 : Tcp)
      → IsTcp (some b, p)
      → (retry answers ≡ done would_block) ⊎ (retry answers ≡ done failed)
      → write_fd answers (some b, p) ≡ done (r, s2)
      → (some b, p) ≡ s2
  kept answers r b p s2 h (inl got) e =
      let e' = (write_fd-Shrinks answers would_block b p h got).1 refl in cc
  kept answers r b p s2 h (inr got) e =
      let e' = (write_fd-Shrinks answers failed b p h got).2 refl in cc

  -- From a buffer and pool in order, over any sequence of calls that return, where no `send_data` would
  -- make 2^31 bytes or more of contents and new bytes and no `write` takes more than the buffer holds,
  -- calls of `send_data` that are refused and calls of `write_fd` of which the `write` would block or
  -- fails included: what the buffer held first and then every byte that `send_data` has accepted is, in
  -- this order and with none lost, added or repeated, what the system has taken followed by what the
  -- buffer still holds; and the buffer and the pool stay in order.
  pub Life-stream :
      (s s' : Tcp) (sent taken : Bytes)
      → IsTcp s
      → Life fresh s sent taken s'
      → (contents s.0 ++ sent ≡ taken ++ contents s'.0) × IsTcp s'
  Life-stream s s' sent taken h start = (append-nil (contents s.0), h)
  Life-stream s s' sent taken h (sends sent1 taken1 bs s1 s2 l fits e) =
      let (ih, h1) = Life-stream s s1 sent1 taken1 h l in
      let (h2, grown) = accepted bs s1 s2 h1 fits e in
      (
        sym (append_assoc (contents s.0) sent1 bs)
            ∙ ap (λ c. c ++ bs) ih
            ∙ append_assoc taken1 (contents s1.0) bs
            ∙ ap (λ c. taken1 ++ c) (sym grown),
        h2,
      )
  Life-stream s s' sent taken h (refused sent1 taken1 bs s1 s2 l fits e) =
      let (ih, h1) = Life-stream s s1 sent1 taken1 h l in
      let same = unchanged bs s1 s2 h1 fits e in
      subst (λ (t : Tcp). (contents s.0 ++ sent1 ≡ taken1 ++ contents t.0) × IsTcp t) same (ih, h1)
  Life-stream s s' sent taken h (unwritten sent1 taken1 answers r b p s2 l got e) =
      let (ih, h1) = Life-stream s (some b, p) sent1 taken1 h l in
      let same = kept answers r b p s2 h1 got e in
      subst (λ (t : Tcp). (contents s.0 ++ sent1 ≡ taken1 ++ contents t.0) × IsTcp t) same (ih, h1)
  Life-stream s s' sent taken h (writes sent1 taken1 answers n b p s2 l got fits e) =
      let (ih, h1) = Life-stream s (some b, p) sent1 taken1 h l in
      let (s3, e', h3, shrunk) = (write_fd-Shrinks answers (success n) b p h1 got).0 n refl fits in
      let same : s3 ≡ s2 = cc in
      (
        ih
            ∙ ap (λ c. taken1 ++ c) (sym (take-append-drop n (held b)))
            ∙ sym (append_assoc taken1 (take n (held b)) (drop n (held b)))
            ∙ ap (λ c. (taken1 ++ take n (held b)) ++ c) (sym shrunk)
            ∙ ap (λ (t : Tcp). (taken1 ++ take n (held b)) ++ contents t.0) same,
        subst IsTcp same h3,
      )
