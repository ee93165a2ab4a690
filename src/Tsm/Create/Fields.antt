-- ===== src/Tsm/Create/Fields.antt =====
-- The header, the footer and the meta of an index block are read as they were written (engine/tsm/tsm.cpp).
use dtime_db.Prelude.{
  ℕ, ◌+◌, ◌-◌, ◌^◌, ◌≤◌, ◌<◌, ◌≡◌, refl, ap, sym, subst, true, ◌++◌, arith, length, take, All,
  take_all, le→ltb, le_bytes, le_value-le_bytes,
}
use dtime_db.Tsm.File.{Bytes, ok, write_at, length-write_at}
use dtime_db.Tsm.File.Stored.{
  IsStored, read_at-IsStored, IsStored-front, IsStored-back, IsStored-write_at,
}
use dtime_db.Tsm.Index.{IndexBlockMeta, meta_bytes, write_index_meta_to_file}
use dtime_db.Tsm.Index.Chain.{IsNonzero, c_string-text}
use dtime_db.Tsm.Create.{write_footer_to_file, read_footer_from_file, read_index_meta_from_file}

pub record IsMeta (m : IndexBlockMeta) : Type 0 where
  pub key_size : m.key_size ≡ length m.key
  pub key_fits : m.key_size < 2 ^ 16
  pub key_text : All IsNonzero m.key
  pub type_fits : m.type < 2 ^ 32
  pub count_fits : m.count < 2 ^ 16

read_meta-IsStored :
    (f : Bytes) (pos : ℕ) (m : IndexBlockMeta)
    → IsMeta m
    → IsStored f pos (meta_bytes m)
    → read_index_meta_from_file true f pos ≡ ok m
unfolding read_index_meta_from_file
read_meta-IsStored f pos m h w =
    let n = m.key_size in
    let whole : take n m.key ≡ m.key = take_all n m.key (omega (arith, h.key_size)) in
    let w1 = le_bytes 2 n in
    let w3 = le_bytes 4 m.type in
    let w4 = le_bytes 2 m.count in
    let at0 = subst (λ k. IsStored f pos (w1 ++ (k ++ (w3 ++ w4)))) whole w in
    let at1 = IsStored-back f pos 2 w1 (m.key ++ (w3 ++ w4)) refl at0 in
    let at2 = IsStored-back f (pos + 2) n m.key (w3 ++ w4) (sym h.key_size) at1 in
    let at3 = IsStored-back f (pos + 2 + n) 4 w3 w4 refl at2 in
    rw (
      read_at-IsStored f pos 2 w1 refl (IsStored-front f pos w1 (m.key ++ (w3 ++ w4)) at0),
      le_value-le_bytes 2 n h.key_fits,
      read_at-IsStored f (pos + 2) n m.key (sym h.key_size)
          (IsStored-front f (pos + 2) m.key (w3 ++ w4) at1),
      read_at-IsStored f (pos + 2 + n) 4 w3 refl (IsStored-front f (pos + 2 + n) w3 w4 at2),
      read_at-IsStored f (pos + 2 + n + 4) 2 w4 refl at3,
      le_value-le_bytes 2 m.count h.count_fits,
      c_string-text m.key h.key_text,
      le_value-le_bytes 4 m.type h.type_fits,
    )

-- The meta of an index block that is written anywhere in a file is read back from there.
pub read_meta-write_meta :
    (f : Bytes) (offset : ℕ) (m : IndexBlockMeta)
    → IsMeta m
    → read_index_meta_from_file true (write_index_meta_to_file true m f offset).0 offset ≡ ok m
unfolding write_index_meta_to_file
read_meta-write_meta f offset m h =
    read_meta-IsStored (write_at offset (meta_bytes m) f) offset m h
      (IsStored-write_at offset (meta_bytes m) f)

-- A footer that is written at the end of a file is read back, with the file's size as it was, if the file
-- has room for it.
pub read_footer-write_footer :
    (f : Bytes) (footer : ℕ)
    → footer < 2 ^ 64
    → 8 ≤ length f
    → read_footer_from_file true (write_footer_to_file true footer f (length f)).0 ≡ ok footer
unfolding read_footer_from_file write_footer_to_file
read_footer-write_footer f footer fits room =
    let n = length f - 8 in
    let f' = write_at n (le_bytes 8 footer) f in
    let same : length f' ≡ length f = length-write_at n (le_bytes 8 footer) f (omega arith) in
    rw (le→ltb (length f) 8 room, same)
      (rw
        (read_at-IsStored f' n 8 (le_bytes 8 footer) refl
          (IsStored-write_at n (le_bytes 8 footer) f))
        (ap ok (le_value-le_bytes 8 footer fits)))
