-- ===== src/IoBuffer/Tcp/Release.antt =====
-- `tcp_buffer::pop` and `tcp_buffer::clear` of server/src/io_buffer.cpp: bytes leave at the front, and a
-- buffer that holds none goes back to the pool.
use dtime_db.Prelude.{
  ℕ, ◌<◌, ◌≡◌, ◌≢◌, refl, subst, true, false, none, some, List, ◌∷◌, arith, drop, leb, ◌==◌,
}
use dtime_db.IoBuffer.{done, asserted, IoBuffer, pop, clear}
use dtime_db.IoBuffer.Pool.{Pool, set, revert}
use dtime_db.IoBuffer.Pool.Alloc.{IsBuffer, IsPool, set_same, set_other, revert-eq, revert-IsPool}
use dtime_db.IoBuffer.Tcp.{tcp_pop}
use dtime_db.IoBuffer.Tcp.Contents.{held, pop-held}

-- `b` stands emptied at the head of the free buffers of its capacity; the others and the account are as they were.
pub record IsGivenBack (b : IoBuffer) (p p' : Pool) : Type 0 where
  pub others : List IoBuffer
  pub before : p.free b.capacity ≡ some others
  pub after : p'.free b.capacity ≡ some (clear b ∷ others)
  pub elsewhere : (k : ℕ) → k ≢ b.capacity → p'.free k ≡ p.free k
  pub memory : p'.total_mem ≡ p.total_mem

revert-IsGivenBack :
    (b : IoBuffer) (p : Pool)
    → IsPool p
    → IsBuffer b
    → (p' : Pool) × (revert b p ≡ done p') × IsGivenBack b p p' × IsPool p'
revert-IsGivenBack b p h k =
    let (bs, e, found) = revert-eq b p h k in
    let (p1, found1, good, same) = revert-IsPool b p h k in
    let p' : Pool = record p { free = set b.capacity (clear b ∷ bs) p.free } in
    let one : p1 ≡ p' = cc in
    (
      p',
      found,
      record {
        others = bs;
        before = e;
        after = set_same b.capacity b.capacity (clear b ∷ bs) p.free refl;
        elsewhere = λ j n. set_other b.capacity j (clear b ∷ bs) p.free n;
        memory = refl;
      },
      subst IsPool one good,
    )

-- With buffer and pool in order, a `pop` of all the bytes gives the buffer back: it stands emptied at
-- the head of the free buffers of its capacity. A shorter one takes its bytes off the front of the
-- contents, and leaves the pool; a longer one fails the assertion.
pub tcp_pop-IsGivenBack :
    (len : ℕ) (b : IoBuffer) (p : Pool)
    → IsBuffer b
    → IsPool p
    → (len ≡ b.length
        → (p' : Pool) × (tcp_pop len (some b, p) ≡ done (none, p'))
          × IsGivenBack (pop len b) p p'
          × IsPool p')
      × (len < b.length
          → (tcp_pop len (some b, p) ≡ done (some (pop len b), p))
            × IsBuffer (pop len b)
            × (held (pop len b) ≡ drop len (held b)))
      × (b.length < len → tcp_pop len (some b, p) ≡ asserted)
unfolding tcp_pop pop
tcp_pop-IsGivenBack len b p h k = (
  λ q.
      let (good, same) = pop-held len b h (omega (arith, q)) in
      let (p', found, given, pool) = revert-IsGivenBack (pop len b) p k good in
      let fits : leb len b.length ≡ true = ground (arith, q) in
      let empty : ((pop len b).length == 0) ≡ true = ground (arith, q) in
      (p', (rw (tcp_pop, fits, empty, found)), given, pool),
  λ l.
      let (good, same) = pop-held len b h (omega (arith, l)) in
      let fits : leb len b.length ≡ true = ground (arith, l) in
      let more : ((pop len b).length == 0) ≡ false = ground (arith, l) in
      ((rw (tcp_pop, fits, more)), good, same),
  λ l. let e : leb len b.length ≡ false = ground (arith, l) in rw (tcp_pop, e),
)
