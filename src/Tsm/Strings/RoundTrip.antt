-- ===== src/Tsm/Strings/RoundTrip.antt =====
-- `deserialize_strings` of engine/tsm/tsm.cpp reads back what `serialize_strings` wrote.
use dtime_db.Prelude.{
  ℕ, zero, suc, ◌+◌, ◌*◌, ◌%◌, ◌^◌, ◌≤◌, ◌<◌, ◌≡◌, refl, ap, sym, ◌∙◌, List, [], ◌∷◌, ◌++◌, arith,
  append-nil, append_assoc, length, take, drop, All, length-append, take-append, drop-append,
  drop-drop, le_bytes, le_value, length-le_bytes, le_value-le_bytes, lt→ltb, le→ltb,
}
use dtime_db.Tsm.File.{Bytes, ok}
use dtime_db.Tsm.Strings.{serialize_strings, size_of_int, strings_loop, deserialize_strings}

-- The length fits an `int`.
abbrev pub IsShort : Bytes → Type 0
IsShort s = length s < 2 ^ 31

pub length-le-serialize : (ss : List Bytes) → 4 * length ss ≤ length (serialize_strings ss)
unfolding serialize_strings
length-le-serialize [] = omega arith
length-le-serialize (s ∷ ss) = omega (
  arith,
  length-append (le_bytes 4 (length s)) (s ++ serialize_strings ss),
  length-append s (serialize_strings ss),
  length-le_bytes 4 (length s),
  length-le-serialize ss,
)

size_of_int-short : (s : Bytes) → IsShort s → size_of_int (length s) ≡ length s
size_of_int-short s h = ground arith

-- The two windows of a round, at the end of what has been read.
module _ (front s tail : Bytes) (i : ℕ) (l : length front ≡ i) where
  abbrev text_of : Bytes
  text_of = front ++ (le_bytes 4 (length s) ++ (s ++ tail))

  length-text : length text_of ≡ i + 4 + length s + length tail
  length-text = omega (
    arith,
    length-append front (le_bytes 4 (length s) ++ (s ++ tail)),
    length-append (le_bytes 4 (length s)) (s ++ tail),
    length-append s tail,
    length-le_bytes 4 (length s),
  )

  length_window : IsShort s → le_value (take 4 (drop i text_of)) ≡ length s
  length_window h =
      let word = le_bytes 4 (length s) in
      let here : take 4 (drop i text_of) ≡ word =
        rw (drop-append i front (word ++ (s ++ tail)) l)
          (take-append 4 word (s ++ tail) (length-le_bytes 4 (length s))) in
      ap le_value here ∙ le_value-le_bytes 4 (length s) (omega arith)

  value_window : take (length s) (drop (i + 4) text_of) ≡ s
  value_window =
      rw
        (
          sym (drop-drop 4 i text_of),
          drop-append i front (le_bytes 4 (length s) ++ (s ++ tail)) l,
          drop-append 4 (le_bytes 4 (length s)) (s ++ tail) (length-le_bytes 4 (length s)),
        )
        (take-append (length s) s tail refl)

strings_loop-serialize :
    (fuel : ℕ) (text front : Bytes) (i : ℕ) (ss done : List Bytes)
    → text ≡ front ++ serialize_strings ss
    → length front ≡ i
    → length ss < fuel
    → length text < 2 ^ 64
    → All IsShort ss
    → strings_loop fuel text i done ≡ ok (done ++ ss)
unfolding strings_loop serialize_strings
strings_loop-serialize zero text front i ss done e l h b w = absurd (omega arith)
strings_loop-serialize (suc fuel) text front i [] done e l h b w =
    let size : length text ≤ i = rw (e, append-nil front) (omega arith) in
    rw (le→ltb i (length text) size) (ap ok (sym (append-nil done)))
strings_loop-serialize (suc fuel) text front i (s ∷ ss) done e l h b w =
    let word = le_bytes 4 (length s) in
    let tail = serialize_strings ss in
    let size : length text ≡ i + 4 + length s + length tail =
      ap length e ∙ length-text front s tail i l in
    let n : size_of_int (le_value (take 4 (drop i text))) ≡ length s =
      rw (e, length_window front s tail i l w.0) (size_of_int-short s w.0) in
    let value : take (length s) (drop (i + 4) text) ≡ s = rw e (value_window front s tail i l) in
    let end : (i + 4 + length s) % 2 ^ 64 ≡ i + 4 + length s = omega arith in
    let next : text ≡ (front ++ (word ++ s)) ++ tail =
      e
      ∙ ap (◌++◌ front) (sym (append_assoc word s tail))
      ∙ sym (append_assoc front (word ++ s) tail) in
    rw
      (
        n,
        end,
        value,
        lt→ltb i (length text) (omega arith),
        le→ltb (length text) (i + 4) (omega arith),
        le→ltb (length text) (i + 4 + length s) (omega arith),
      )
      (strings_loop-serialize fuel text (front ++ (word ++ s)) (i + 4 + length s) ss
          (done ++ (s ∷ [])) next
          (omega (
            arith,
            length-append front (word ++ s),
            length-append word s,
            length-le_bytes 4 (length s),
          ))
          (omega arith) b w.1
        ∙ ap ok (append_assoc done (s ∷ []) ss))

-- Every list of strings whose lengths fit an `int`, and whose bytes fit the address space, is read
-- back from its bytes.
pub deserialize_strings-serialize :
    (ss : List Bytes)
    → All IsShort ss
    → length (serialize_strings ss) < 2 ^ 64
    → deserialize_strings (serialize_strings ss) ≡ ok ss
unfolding deserialize_strings
deserialize_strings-serialize ss w b =
    strings_loop-serialize (suc (length (serialize_strings ss))) (serialize_strings ss) [] 0 ss []
      refl refl (omega (arith, length-le-serialize ss)) b w
