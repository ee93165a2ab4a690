-- ===== src/IoBuffer/Tcp/Contents.antt =====
-- The bytes that a buffer of server/include/io_buffer.h holds, and what its operations do to them.
use dtime_db.Prelude.{
  ℕ, zero, suc, ◌+◌, ◌-◌, ◌≤◌, ◌≡◌, refl, sym, ap, ◌∙◌, inl, inr, Option, none, some, [], ◌∷◌, ◌++◌,
  arith, length, take, drop, take-append, drop-append, length-append, length-take, length-drop,
  drop-drop, take_add, take_all, ◌==◌, Bool-cases, ==_iff,
}
use dtime_db.IoBuffer.{Bytes, IoBuffer, copy_to, adjust, copy, pop}
use dtime_db.IoBuffer.Tcp.{put_back}
use dtime_db.IoBuffer.Pool.Alloc.{IsBuffer}

-- The bytes between the head and the end.
abbrev pub held : IoBuffer → Bytes
held b = take b.length (drop b.head b.data_)

-- No buffer holds no bytes.
abbrev pub contents : Option IoBuffer → Bytes
contents none = []
contents (some b) = held b

drop-take : (n m : ℕ) (xs : Bytes) → drop n (take m xs) ≡ take (m - n) (drop n xs)
drop-take zero m xs = let e : m - 0 ≡ m = omega arith in rw e
drop-take (suc n) zero xs = let e : 0 - suc n ≡ 0 = omega arith in rw e
drop-take (suc n) (suc m) [] = sym (take_all (suc m - suc n) [] (omega arith))
drop-take (suc n) (suc m) (x ∷ xs) =
    let e : suc m - suc n ≡ m - n = omega arith in rw e (drop-take n m xs)

module _ (off : ℕ) (bs d : Bytes) (room : off + length bs ≤ length d) where
  front : length (take off d) ≡ off
  front = omega (arith, length-take off d)

  length-copy_to : length (copy_to off bs d) ≡ length d
  length-copy_to = omega (
    arith,
    front,
    length-append (take off d) (bs ++ drop (off + length bs) d),
    length-append bs (drop (off + length bs) d),
    length-drop (off + length bs) d,
  )

  take-copy_to : take (off + length bs) (copy_to off bs d) ≡ take off d ++ bs
  take-copy_to =
      let back = drop (off + length bs) d in
      take_add off (length bs) (copy_to off bs d)
      ∙ (λ i.
          take-append off (take off d) (bs ++ back) front i
          ++ take (length bs) (drop-append off (take off d) (bs ++ back) front i))
      ∙ ap (λ xs. take off d ++ xs) (take-append (length bs) bs back refl)

pub length-held : (b : IoBuffer) → IsBuffer b → length (held b) ≡ b.length
length-held b h = omega (
  arith,
  h.memory,
  h.inside,
  length-take b.length (drop b.head b.data_),
  length-drop b.head b.data_,
)

-- Bytes copied behind the contents of a buffer that starts at its head.
pub put_back-held :
    (bs : Bytes) (b : IoBuffer)
    → IsBuffer b
    → b.head ≡ 0
    → b.length + length bs ≤ b.capacity
    → IsBuffer (put_back bs b) × (held (put_back bs b) ≡ held b ++ bs)
unfolding put_back
put_back-held bs b h start room =
    let fits : b.length + length bs ≤ length b.data_ = omega (arith, h.memory) in
    (
      record {
        memory = length-copy_to b.length bs b.data_ fits ∙ h.memory;
        inside = omega arith;
        request = h.request;
        class = h.class;
      },
      ap (λ k. take (b.length + length bs) (drop k (copy_to b.length bs b.data_))) start
          ∙ take-copy_to b.length bs b.data_ fits
          ∙ ap (λ k. take b.length (drop k b.data_) ++ bs) (sym start),
    )

pub pop-held :
    (n : ℕ) (b : IoBuffer)
    → IsBuffer b
    → n ≤ b.length
    → IsBuffer (pop n b) × (held (pop n b) ≡ drop n (held b))
unfolding pop
pop-held n b h l = (
  record {
    memory = h.memory;
    inside = omega (arith, h.inside);
    request = h.request;
    class = h.class;
  },
  ap (take (b.length - n)) (sym (drop-drop n b.head b.data_))
      ∙ sym (drop-take n b.length (drop b.head b.data_)),
)

copied : (bs d : Bytes) (n : ℕ) → length bs ≡ n → take n (copy_to 0 bs d) ≡ bs
copied bs d n e = take-append n bs (drop (0 + length bs) d) e

pub adjust-held :
    (b : IoBuffer)
    → IsBuffer b
    → IsBuffer (adjust b) × ((adjust b).head ≡ 0) × (held (adjust b) ≡ held b)
unfolding adjust
adjust-held b h = elim (Bool-cases (b.head == 0)) [
  | inl z ↦ rw (z, adjust) (h, (==_iff b.head 0).0 z, refl)
  | inr nz ↦ elim (Bool-cases (b.length == 0)) [
    | inl e ↦
        let empty : b.length ≡ 0 = (==_iff b.length 0).0 e in
        rw (nz, e, adjust)
          (
            record {
              memory = h.memory;
              inside = omega (arith, h.inside);
              request = h.request;
              class = h.class;
            },
            refl,
            ap (λ k. take k b.data_) empty ∙ ap (λ k. take k (drop b.head b.data_)) (sym empty),
          )
    | inr ne ↦
        rw (nz, ne, adjust)
          (
            record {
              memory =
                  length-copy_to 0 (held b) b.data_
                    (omega (arith, length-held b h, h.memory, h.inside))
                  ∙ h.memory;
              inside = omega (arith, h.inside);
              request = h.request;
              class = h.class;
            },
            refl,
            copied (held b) b.data_ b.length (length-held b h),
          )
  ]
]

pub copy-held :
    (b other : IoBuffer)
    → IsBuffer b
    → IsBuffer other
    → other.length ≤ b.capacity
    → IsBuffer (copy b other) × ((copy b other).head ≡ 0) × (held (copy b other) ≡ held other)
unfolding copy
copy-held b other h k room = (
  record {
    memory =
        length-copy_to 0 (held other) b.data_ (omega (arith, length-held other k, h.memory))
        ∙ h.memory;
    inside = omega arith;
    request = h.request;
    class = h.class;
  },
  refl,
  copied (held other) b.data_ other.length (length-held other k),
)
