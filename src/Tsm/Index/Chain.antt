-- ===== src/Tsm/Index/Chain.antt =====
-- The index region of a TSM file as a list of series blocks, and the loader of engine/tsm/iterator.cpp
-- on such a region.
use dtime_db.Prelude.{
  ℕ, ◌+◌, ◌*◌, ◌^◌, ◌≤◌, ◌<◌, ◌≡◌, ◌≢◌, refl, ap, List, [], ◌∷◌, ◌++◌, arith, length, take, All,
  length-append, take_all, le_bytes, le_value-le_bytes,
}
use dtime_db.Tsm.File.{Bytes, ok}
use dtime_db.Tsm.File.Stored.{IsStored, read_at-IsStored, IsStored-front, IsStored-back}
use dtime_db.Tsm.Index.{
  IndexEntry, SeriesIndexBlock, meta_bytes, entry_bytes, c_string, read_entry, read_entries,
}

pub record IsEntry (e : IndexEntry) : Type 0 where
  pub max_fits : e.max_time < 2 ^ 64
  pub min_fits : e.min_time < 2 ^ 64
  pub offset_fits : e.offset < 2 ^ 64
  pub size_fits : e.size < 2 ^ 32

abbrev pub IsNonzero : ℕ → Type 0
IsNonzero c = c ≢ 0

-- The key is a C string whose length fits 16 bits, and the counts are those of the lists.
pub record IsSeries (b : SeriesIndexBlock) : Type 0 where
  pub key_size : b.meta.key_size ≡ length b.meta.key
  pub key_fits : b.meta.key_size < 2 ^ 16
  pub key_text : All IsNonzero b.meta.key
  pub type_fits : b.meta.type < 2 ^ 32
  pub count : b.meta.count ≡ length b.index_entries
  pub count_fits : b.meta.count < 2 ^ 16
  pub entries_fit : All IsEntry b.index_entries

abbrev pub entries_bytes : List IndexEntry → Bytes
entries_bytes [] = []
entries_bytes (e ∷ es) = entry_bytes e ++ entries_bytes es

abbrev pub series_bytes : SeriesIndexBlock → Bytes
series_bytes b = meta_bytes b.meta ++ entries_bytes b.index_entries

abbrev pub series_size : SeriesIndexBlock → ℕ
series_size b = 8 + b.meta.key_size + 28 * b.meta.count

-- From `pos` to `tail` the file holds these blocks and nothing else.
abbrev pub IsChain : Bytes → ℕ → ℕ → List SeriesIndexBlock → Type 0
IsChain f pos tail [] = pos ≡ tail
IsChain f pos tail (b ∷ bs) =
    IsSeries b × IsStored f pos (series_bytes b) × IsChain f (pos + series_size b) tail bs

pub length-entries_bytes : (es : List IndexEntry) → length (entries_bytes es) ≡ 28 * length es
length-entries_bytes [] = omega arith
length-entries_bytes (e ∷ es) = omega (arith, length-entries_bytes es)

pub length-series_bytes :
    (b : SeriesIndexBlock) → IsSeries b → length (series_bytes b) ≡ series_size b
length-series_bytes b h =
    let key : take b.meta.key_size b.meta.key ≡ b.meta.key =
      take_all b.meta.key_size b.meta.key (omega (arith, h.key_size)) in
    let tail = le_bytes 4 b.meta.type ++ le_bytes 2 b.meta.count in
    omega (
      arith,
      length-append (meta_bytes b.meta) (entries_bytes b.index_entries),
      length-append (take b.meta.key_size b.meta.key) tail,
      ap length key,
      length-entries_bytes b.index_entries,
      h.key_size,
      h.count,
    )

pub IsChain-le :
    (f : Bytes) (pos tail : ℕ) (bs : List SeriesIndexBlock)
    → IsChain f pos tail bs
    → pos + 8 * length bs ≤ tail
IsChain-le f pos tail [] h = omega arith
IsChain-le f pos tail (b ∷ bs) (s, w, h) =
    omega (arith, IsChain-le f (pos + series_size b) tail bs h)

-- A file that holds the same texts in the region holds the same blocks there.
pub IsChain-keep :
    (f f' : Bytes) (low pos tail : ℕ) (bs : List SeriesIndexBlock)
    → ((p : ℕ) (a : Bytes) → low ≤ p → p + length a ≤ tail → IsStored f p a → IsStored f' p a)
    → low ≤ pos
    → IsChain f pos tail bs
    → IsChain f' pos tail bs
IsChain-keep f f' low pos tail [] keep l h = h
IsChain-keep f f' low pos tail (b ∷ bs) keep l (s, w, h) = (
  s,
  keep pos (series_bytes b) l
      (omega (arith, length-series_bytes b s, IsChain-le f (pos + series_size b) tail bs h)) w,
  IsChain-keep f f' low (pos + series_size b) tail bs keep (omega arith) h,
)

pub c_string-text : (s : Bytes) → All IsNonzero s → c_string s ≡ s
unfolding c_string
c_string-text [] h = refl
c_string-text (c ∷ s) h = ground (arith, h.0, c_string-text s h.1)

read_entry-IsStored :
    (f : Bytes) (pos : ℕ) (e : IndexEntry)
    → IsEntry e
    → IsStored f pos (entry_bytes e)
    → read_entry f pos ≡ ok e
unfolding read_entry
read_entry-IsStored f pos e h at0 =
    let w1 = le_bytes 8 e.max_time in
    let w2 = le_bytes 8 e.min_time in
    let w3 = le_bytes 8 e.offset in
    let w4 = le_bytes 4 e.size in
    let at1 = IsStored-back f pos 8 w1 (w2 ++ (w3 ++ w4)) refl at0 in
    let at2 = IsStored-back f (pos + 8) 8 w2 (w3 ++ w4) refl at1 in
    let at3 = IsStored-back f (pos + 8 + 8) 8 w3 w4 refl at2 in
    rw
      (
        read_at-IsStored f pos 8 w1 refl (IsStored-front f pos w1 (w2 ++ (w3 ++ w4)) at0),
        read_at-IsStored f (pos + 8) 8 w2 refl (IsStored-front f (pos + 8) w2 (w3 ++ w4) at1),
        read_at-IsStored f (pos + 8 + 8) 8 w3 refl (IsStored-front f (pos + 8 + 8) w3 w4 at2),
        read_at-IsStored f (pos + 8 + 8 + 8) 4 w4 refl at3,
      )
      (λ i. ok (record {
        max_time = le_value-le_bytes 8 e.max_time h.max_fits i;
        min_time = le_value-le_bytes 8 e.min_time h.min_fits i;
        offset = le_value-le_bytes 8 e.offset h.offset_fits i;
        size = le_value-le_bytes 4 e.size h.size_fits i;
      }))

pub read_entries-IsStored :
    (f : Bytes) (pos : ℕ) (es : List IndexEntry)
    → All IsEntry es
    → IsStored f pos (entries_bytes es)
    → read_entries (length es) f pos ≡ ok es
unfolding read_entries
read_entries-IsStored f pos [] h w = refl
read_entries-IsStored f pos (e ∷ es) h w = rw (
  read_entry-IsStored f pos e h.0 (IsStored-front f pos (entry_bytes e) (entries_bytes es) w),
  read_entries-IsStored f (pos + 28) es h.1
      (IsStored-back f pos 28 (entry_bytes e) (entries_bytes es) refl w),
)
