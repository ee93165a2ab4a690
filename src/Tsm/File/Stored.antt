-- ===== src/Tsm/File/Stored.antt =====
-- Bytes that stand in a file at an offset: how they are read, and which writes leave them there.
use dtime_db.Prelude.{
  ℕ, ◌+◌, ◌-◌, ◌≤◌, ◌≡◌, refl, ap, sym, ◌∙◌, [], ◌∷◌, ◌++◌, arith, append_assoc, length, take,
  replicate, drop, length-append, length-drop, take-append-drop, take-append, drop-append,
  drop-drop, ==_iff,
}
use dtime_db.Tsm.File.{
  Bytes, ok, padded, write_at, read_at, length-prefix, window_before, drop_after,
}

-- From `off` on the file reads `bs`.
abbrev pub IsStored : Bytes → ℕ → Bytes → Type 0
IsStored f off bs = (rest : Bytes) × (drop off f ≡ bs ++ rest)

pub read_at-IsStored :
    (f : Bytes) (off n : ℕ) (bs : Bytes)
    → length bs ≡ n
    → IsStored f off bs
    → read_at off n f ≡ ok bs
unfolding read_at
read_at-IsStored f off n bs e (rest, h) =
    rw (h, take-append n bs rest e, (==_iff (length bs) n).1 e)

pub IsStored-front :
    (f : Bytes) (off : ℕ) (a b : Bytes) → IsStored f off (a ++ b) → IsStored f off a
IsStored-front f off a b (rest, h) = (b ++ rest, h ∙ append_assoc a b rest)

pub IsStored-back :
    (f : Bytes) (off n : ℕ) (a b : Bytes)
    → length a ≡ n
    → IsStored f off (a ++ b)
    → IsStored f (off + n) b
IsStored-back f off n a b e (rest, h) = (
  rest,
  sym (drop-drop n off f) ∙ ap (drop n) (h ∙ append_assoc a b rest) ∙ drop-append n a (b ++ rest) e,
)

module _ (off : ℕ) (bs f : Bytes) where
  pub IsStored-write_at : IsStored (write_at off bs f) off bs
  unfolding write_at
  IsStored-write_at = (
    drop (off + length bs) f,
    drop-append off (take off (padded off f)) (bs ++ drop (off + length bs) f)
        (length-prefix off f),
  )

  pub IsStored-write_after :
      (pos : ℕ) (a : Bytes)
      → off + length bs ≤ pos
      → IsStored f pos a
      → IsStored (write_at off bs f) pos a
  IsStored-write_after pos a h (rest, e) = (rest, drop_after off bs f pos h ∙ e)

  pub IsStored-write_before :
      (pos : ℕ) (a : Bytes)
      → pos + length a ≤ off
      → IsStored f pos a
      → IsStored (write_at off bs f) pos a
  IsStored-write_before pos [] h (rest, e) = (drop pos (write_at off bs f), refl)
  IsStored-write_before pos (x ∷ a) h (rest, e) =
      let n = length (x ∷ a) in
      let size : length (drop pos f) ≡ n + length rest = ap length e ∙ length-append (x ∷ a) rest in
      let fits : pos + n ≤ length f = omega (arith, length-drop pos f) in
      let f' = write_at off bs f in
      let same : take n (drop pos f') ≡ x ∷ a =
        window_before off bs f pos n h fits ∙ ap (take n) e ∙ take-append n (x ∷ a) rest refl in
      (
        drop n (drop pos f'),
        sym (take-append-drop n (drop pos f')) ∙ ap (λ p. p ++ drop n (drop pos f')) same,
      )

unfold_write :
    (off : ℕ) (bs f : Bytes)
    → write_at off bs f ≡ take off (padded off f) ++ (bs ++ drop (off + length bs) f)
unfolding write_at
unfold_write off bs f = refl

module _ (off n : ℕ) (a b f : Bytes) (e : off + length a ≡ n) where
  front_kept : take n (padded n (write_at off a f)) ≡ take off (padded off f) ++ a
  unfolding write_at
  front_kept =
      let p = take off (padded off f) in
      let d = drop (off + length a) f in
      let r = replicate (n - length (write_at off a f)) 0 in
      let regroup : (p ++ (a ++ d)) ++ r ≡ (p ++ a) ++ (d ++ r) = simp append_assoc in
      rw regroup
        (take-append n (p ++ a) (d ++ r) (omega (arith, length-append p a, length-prefix off f)))

  -- Two writes behind one another are one write of both texts.
  pub write_at-write_at : write_at n b (write_at off a f) ≡ write_at off (a ++ b) f
  write_at-write_at =
      let p = take off (padded off f) in
      let behind : drop (n + length b) (write_at off a f) ≡ drop (off + length (a ++ b)) f =
        drop_after off a f (n + length b) (omega arith)
        ∙ ap (λ k. drop k f) (omega (arith, length-append a b)) in
      unfold_write n b (write_at off a f)
      ∙ (rw (front_kept, behind)
          (append_assoc p a (b ++ drop (off + length (a ++ b)) f)
            ∙ ap (◌++◌ p) (sym (append_assoc a b (drop (off + length (a ++ b)) f)))
            ∙ sym (unfold_write off (a ++ b) f)))
