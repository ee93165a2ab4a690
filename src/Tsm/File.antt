-- ===== src/Tsm/File.antt =====
-- A file as the list of its bytes, with what a seek followed by a `write` or a `read` does to it,
-- and the ways in which a reader of engine/tsm/tsm.cpp can end.
pub mod Stored
use dtime_db.Prelude.{
  ℕ, ◌+◌, ◌-◌, ◌≤◌, ◌≡◌, ◌∙◌, sym, List, ◌++◌, arith, length, take, drop, replicate, length-append,
  length-take, length-drop, length-replicate, take-append-drop, take-append, drop-append, drop-drop,
  window-append, drop-append_ge, ◌==◌, if◌then◌else◌,
}

abbrev pub Bytes : Type 0
Bytes = List ℕ

-- How a reader ends: with a value; at once, since the stream is not open; by an exception; with values
-- that the C++ leaves unspecified after a short read; or, in the model alone, with the fuel of a loop
-- used up.
pub data Decoded {ℓ} (A : Type ℓ) : Type ℓ where
  ok : A → Decoded A
  not_open thrown unspecified out_of_fuel : Decoded A

infixl 5 ◌>>=◌
abbrev pub ◌>>=◌ {ℓ κ} : {A : Type ℓ} {B : Type κ} → Decoded A → (A → Decoded B) → Decoded B
ok a >>= f = f a
not_open >>= f = not_open
thrown >>= f = thrown
unspecified >>= f = unspecified
out_of_fuel >>= f = out_of_fuel

-- A write behind the end of a file leaves a gap of zeros.
abbrev pub padded : ℕ → Bytes → Bytes
padded n f = f ++ replicate (n - length f) 0

-- `file->seekp(off); file->write(bs)`.
unfoldable pub write_at : ℕ → Bytes → Bytes → Bytes
write_at off bs f = take off (padded off f) ++ (bs ++ drop (off + length bs) f)

-- `file->seekg(off); file->read(n)`: a short read sets the stream's fail bit.
unfoldable pub read_at : ℕ → ℕ → Bytes → Decoded Bytes
read_at off n f = let s = take n (drop off f) in if length s == n then ok s else unspecified

length-padded : (n : ℕ) (f : Bytes) → n ≤ length (padded n f)
length-padded n f =
    omega (
      arith,
      length-append f (replicate (n - length f) 0),
      length-replicate {A = ℕ} (n - length f) 0,
    )

pub length-prefix : (n : ℕ) (f : Bytes) → length (take n (padded n f)) ≡ n
length-prefix n f = omega (arith, length-take n (padded n f), length-padded n f)

module _ (off : ℕ) (bs f : Bytes) where
  pub length-write_at : off + length bs ≤ length f → length (write_at off bs f) ≡ length f
  unfolding write_at
  length-write_at h = omega (
    arith,
    length-append (take off (padded off f)) (bs ++ drop (off + length bs) f),
    length-append bs (drop (off + length bs) f),
    length-prefix off f,
    length-drop (off + length bs) f,
  )

  -- What was written is read back.
  pub read_at-write_at : (n : ℕ) → length bs ≡ n → read_at off n (write_at off bs f) ≡ ok bs
  unfolding read_at write_at
  read_at-write_at n e =
      rw
        (
          drop-append off (take off (padded off f)) (bs ++ drop (off + length bs) f)
              (length-prefix off f),
          take-append n bs (drop (off + length bs) f) e,
        )
        (ground arith)

  pub window_before :
      (o n : ℕ)
      → o + n ≤ off
      → o + n ≤ length f
      → take n (drop o (write_at off bs f)) ≡ take n (drop o f)
  unfolding write_at
  window_before o n h k =
      let p = padded off f in
      let front = take off p in
      window-append o n front (bs ++ drop (off + length bs) f) (omega (arith, length-prefix off f))
      ∙ sym (window-append o n front (drop off p) (omega (arith, length-prefix off f)))
      ∙ (rw (take-append-drop off p) (window-append o n f (replicate (off - length f) 0) k))

  -- Nor does a write change what stands before it or behind it.
  pub read_at-write_before :
      (o n : ℕ) → o + n ≤ off → o + n ≤ length f → read_at o n (write_at off bs f) ≡ read_at o n f
  unfolding read_at
  read_at-write_before o n h k = rw (window_before o n h k)

  pub drop_after : (o : ℕ) → off + length bs ≤ o → drop o (write_at off bs f) ≡ drop o f
  unfolding write_at
  drop_after o h =
      let front = take off (padded off f) in
      let back = drop (off + length bs) f in
      let e : o - length front - length bs ≡ o - (off + length bs) =
        omega (arith, length-prefix off f) in
      let e' : off + length bs + (o - (off + length bs)) ≡ o = omega arith in
      drop-append_ge o front (bs ++ back) (omega (arith, length-prefix off f))
      ∙ drop-append_ge (o - length front) bs back (omega (arith, length-prefix off f))
      ∙ (rw (e, drop-drop (o - (off + length bs)) (off + length bs) f, e'))

  pub read_at-write_after :
      (o n : ℕ) → off + length bs ≤ o → read_at o n (write_at off bs f) ≡ read_at o n f
  unfolding read_at
  read_at-write_after o n h = rw (drop_after o h)
