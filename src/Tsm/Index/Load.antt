-- ===== src/Tsm/Index/Load.antt =====
-- The loader of engine/tsm/iterator.cpp returns the blocks of an index region, and the writers of
-- engine/tsm/tsm.cpp and engine/tsm/write.cpp put one more block at its low end.
use dtime_db.Prelude.{
  ℕ, zero, suc, ◌+◌, ◌-◌, ◌*◌, ◌^◌, ◌<◌, ◌≡◌, refl, ap, sym, subst, ◌∙◌, true, List, [], ◌∷◌, ◌++◌,
  arith, append-nil, append_assoc, length, take, length-append, take_all, lt→ltb, le→ltb, le_bytes,
  le_value-le_bytes,
}
use dtime_db.Tsm.File.{Bytes, ok, write_at}
use dtime_db.Tsm.File.Stored.{
  IsStored, read_at-IsStored, IsStored-front, IsStored-back, write_at-write_at,
}
use dtime_db.Tsm.Index.{
  IndexEntry, SeriesIndexBlock, entry_bytes, read_entries, read_series_index_block, load_loop,
  load_tsm_index_entry, write_index_entry_to_file, write_entries,
}
use dtime_db.Tsm.Index.Chain.{
  IsSeries, IsChain, entries_bytes, series_bytes, series_size, IsChain-le, c_string-text,
  read_entries-IsStored,
}

-- One round of the loop returns the block that stands at its position.
read_series-IsStored :
    (f : Bytes) (pos : ℕ) (b : SeriesIndexBlock)
    → IsSeries b
    → IsStored f pos (series_bytes b)
    → read_series_index_block f pos ≡ ok (b, pos + series_size b)
unfolding read_series_index_block
read_series-IsStored f pos b h w =
    let key = b.meta.key in
    let n = b.meta.key_size in
    let es = b.index_entries in
    let eb = entries_bytes es in
    let whole : take n key ≡ key = take_all n key (omega (arith, h.key_size)) in
    let w1 = le_bytes 2 n in
    let w3 = le_bytes 4 b.meta.type in
    let w4 = le_bytes 2 b.meta.count in
    let at0 =
      subst (IsStored f pos)
        (regroup w1 (take n key) w3 w4 eb ∙ ap (λ k. w1 ++ (k ++ (w3 ++ (w4 ++ eb)))) whole) w in
    let at1 = IsStored-back f pos 2 w1 (key ++ (w3 ++ (w4 ++ eb))) refl at0 in
    let at2 = IsStored-back f (pos + 2) n key (w3 ++ (w4 ++ eb)) (sym h.key_size) at1 in
    let at3 = IsStored-back f (pos + 2 + n) 4 w3 (w4 ++ eb) refl at2 in
    let at4 = IsStored-back f (pos + 2 + n + 4) 2 w4 eb refl at3 in
    let entries : read_entries b.meta.count f (pos + 2 + n + 4 + 2) ≡ ok es =
      subst (λ k. read_entries k f (pos + 2 + n + 4 + 2) ≡ ok es) (sym h.count)
        (read_entries-IsStored f (pos + 2 + n + 4 + 2) es h.entries_fit at4) in
    let v1 = le_value-le_bytes 2 n h.key_fits in
    let v3 = le_value-le_bytes 4 b.meta.type h.type_fits in
    let v4 = le_value-le_bytes 2 b.meta.count h.count_fits in
    let next : pos + 2 + n + 4 + 2 + 28 * b.meta.count ≡ pos + series_size b = omega arith in
    rw (
      read_at-IsStored f pos 2 w1 refl (IsStored-front f pos w1 (key ++ (w3 ++ (w4 ++ eb))) at0),
      v1,
      read_at-IsStored f (pos + 2) n key (sym h.key_size)
          (IsStored-front f (pos + 2) key (w3 ++ (w4 ++ eb)) at1),
      read_at-IsStored f (pos + 2 + n) 4 w3 refl (IsStored-front f (pos + 2 + n) w3 (w4 ++ eb) at2),
      read_at-IsStored f (pos + 2 + n + 4) 2 w4 refl (IsStored-front f (pos + 2 + n + 4) w4 eb at3),
      v4,
      entries,
      c_string-text key h.key_text,
      v3,
      next,
    )
  where
    regroup : (a b c d e : Bytes) → (a ++ (b ++ (c ++ d))) ++ e ≡ a ++ (b ++ (c ++ (d ++ e)))
    regroup a b c d e = simp append_assoc

load_loop-IsChain :
    (fuel : ℕ) (f : Bytes) (tail pos : ℕ) (bs : List SeriesIndexBlock)
    → IsChain f pos tail bs
    → length bs < fuel
    → load_loop fuel f tail pos ≡ ok bs
unfolding load_loop
load_loop-IsChain zero f tail pos bs h k = absurd (omega arith)
load_loop-IsChain (suc fuel) f tail pos [] h k = rw (le→ltb pos tail (omega arith))
load_loop-IsChain (suc fuel) f tail pos (b ∷ bs) (s, w, h) k = rw (
  lt→ltb pos tail (omega (arith, IsChain-le f (pos + series_size b) tail bs h)),
  read_series-IsStored f pos b s w,
  load_loop-IsChain fuel f tail (pos + series_size b) bs h (omega arith),
)

-- The footer names the low end of a region of blocks that ends where the footer begins.
pub record IsIndexed (f : Bytes) (tail pos : ℕ) (bs : List SeriesIndexBlock) : Type 0 where
  pub size : length f ≡ tail + 8
  pub low_fits : pos < 2 ^ 64
  pub chain : IsChain f pos tail bs
  pub footer : IsStored f tail (le_bytes 8 pos)

pub load-IsIndexed :
    (f : Bytes) (tail pos : ℕ) (bs : List SeriesIndexBlock)
    → IsIndexed f tail pos bs
    → load_tsm_index_entry true f ≡ ok bs
unfolding load_tsm_index_entry
load-IsIndexed f tail pos bs h =
    let e : length f - 8 ≡ tail = omega (arith, h.size) in
    let fuel : length bs < suc (length f) =
      omega (arith, h.size, IsChain-le f pos tail bs h.chain) in
    rw (
      e,
      read_at-IsStored f tail 8 (le_bytes 8 pos) refl h.footer,
      le_value-le_bytes 8 pos h.low_fits,
      load_loop-IsChain (suc (length f)) f tail pos bs h.chain fuel,
    )

pub write_entries-eq :
    (es : List IndexEntry) (off n : ℕ) (a f : Bytes)
    → off + length a ≡ n
    → write_entries true es (write_at off a f) n ≡ write_at off (a ++ entries_bytes es) f
unfolding write_entries write_index_entry_to_file
write_entries-eq [] off n a f e = rw append-nil
write_entries-eq (x ∷ es) off n a f e = rw (write_at-write_at off n a (entry_bytes x) f e) (
    write_entries-eq es off (n + 28) (a ++ entry_bytes x) f
      (omega (arith, length-append a (entry_bytes x)))
    ∙ ap (λ t. write_at off t f) (append_assoc a (entry_bytes x) (entries_bytes es)))
