-- ===== src/Tsm/Timestamps/RoundTrip.antt =====
-- `serialize_differences` and `deserialize_differences` of engine/tsm/tsm.cpp are inverse.
use dtime_db.Prelude.{
  ℕ, zero, suc, ◌+◌, ◌*◌, ◌≤◌, ◌<◌, ◌≡◌, refl, ap, sym, ◌∙◌, List, [], ◌∷◌, ◌++◌, inl, inr, arith,
  append-nil, append_assoc, length, take, drop, All, length-append, length-take, length-drop,
  take-append, drop-append, take_all, take_add, ltb, leb, le_bytes, le_value, IsByte,
  length-le_bytes, le_value-le_bytes, le_bytes-le_value, lt→ltb, le→ltb, le→leb, leb→le, Bool-cases,
  All-take, All-drop,
}
use dtime_db.Tsm.File.{Bytes, ok}
use dtime_db.Tsm.Timestamps.{
  IsWord64, serialize_differences, differences_loop, deserialize_differences,
}

pub length-serialize : (ds : List ℕ) → length (serialize_differences ds) ≡ 8 * length ds
unfolding serialize_differences
length-serialize [] = omega arith
length-serialize (d ∷ ds) =
    omega (arith, length-append (le_bytes 8 d) (serialize_differences ds), length-serialize ds)

serialize-append :
    (ds es : List ℕ)
    → serialize_differences (ds ++ es) ≡ serialize_differences ds ++ serialize_differences es
unfolding serialize_differences
serialize-append [] es = refl
serialize-append (d ∷ ds) es =
    ap (◌++◌ (le_bytes 8 d)) (serialize-append ds es)
    ∙ sym (append_assoc (le_bytes 8 d) (serialize_differences ds) (serialize_differences es))

-- The loop, from the end of what it has read already.
differences_loop-serialize :
    (fuel : ℕ) (text front : Bytes) (i : ℕ) (ds done : List ℕ)
    → text ≡ front ++ serialize_differences ds
    → length front ≡ i
    → length ds < fuel
    → All IsWord64 ds
    → differences_loop fuel text i done ≡ ok (done ++ ds)
unfolding differences_loop serialize_differences
differences_loop-serialize zero text front i ds done e l h w = absurd (omega arith)
differences_loop-serialize (suc fuel) text front i [] done e l h w =
    let size : length text ≤ i = rw (e, append-nil front) (omega arith) in
    rw (le→ltb i (length text) size) (ap ok (sym (append-nil done)))
differences_loop-serialize (suc fuel) text front i (d ∷ ds) done e l h w =
    let word = le_bytes 8 d in
    let tail = serialize_differences ds in
    let size : length text ≡ i + (8 + length tail) =
      ap length e ∙ omega (arith, length-append front (word ++ tail), length-append word tail) in
    let here : take 8 (drop i text) ≡ word =
      rw (e, drop-append i front (word ++ tail) l)
        (take-append 8 word tail (length-le_bytes 8 d)) in
    let value : le_value (take 8 (drop i text)) ≡ d =
      ap le_value here ∙ le_value-le_bytes 8 d w.0 in
    let next : text ≡ (front ++ word) ++ tail = e ∙ sym (append_assoc front word tail) in
    rw (lt→ltb i (length text) (omega arith), le→leb (i + 8) (length text) (omega arith), value)
      (differences_loop-serialize fuel text (front ++ word) (i + 8) ds (done ++ (d ∷ [])) next
          (omega (arith, length-append front word)) (omega arith) w.1
        ∙ ap ok (append_assoc done (d ∷ []) ds))

-- Every column of 64-bit words is read back from its bytes.
pub deserialize_differences-serialize :
    (ds : List ℕ) → All IsWord64 ds → deserialize_differences (serialize_differences ds) ≡ ok ds
unfolding deserialize_differences
deserialize_differences-serialize ds w =
    differences_loop-serialize (suc (length (serialize_differences ds))) (serialize_differences ds)
      [] 0 ds [] refl refl (omega (arith, length-serialize ds)) w

-- Whatever is accepted is the serialization of what is returned.
serialize-differences_loop :
    (fuel : ℕ) (text : Bytes) (i : ℕ) (done ds : List ℕ)
    → All IsByte text
    → i ≤ length text
    → serialize_differences done ≡ take i text
    → differences_loop fuel text i done ≡ ok ds
    → serialize_differences ds ≡ text
unfolding differences_loop
serialize-differences_loop zero text i done ds b h e r = absurd (ground arith)
serialize-differences_loop (suc fuel) text i done ds b h e r =
    elim (Bool-cases (ltb i (length text))) [
      | inr last ↦
          let same : done ≡ ds = ground arith in
          ap serialize_differences (sym same) ∙ e ∙ take_all i text (ground arith)
      | inl more ↦ elim (Bool-cases (leb (i + 8) (length text))) [
        | inr short ↦ absurd (ground arith)
        | inl enough ↦
            let word = take 8 (drop i text) in
            let size : length word ≡ 8 =
              omega (arith, length-take 8 (drop i text), length-drop i text, leb→le _ _ enough) in
            let bytes : le_bytes 8 (le_value word) ≡ word =
              le_bytes-le_value 8 word size
                (All-take IsByte 8 (drop i text) (All-drop IsByte i text b)) in
            serialize-differences_loop fuel text (i + 8) (done ++ (le_value word ∷ [])) ds b
              (leb→le _ _ enough)
              (unfold serialize_differences in
                (serialize-append done (le_value word ∷ [])
                  ∙ ap (◌++◌ (serialize_differences done)) (append-nil (le_bytes 8 (le_value word)))
                  ∙ (rw (e, bytes) (sym (take_add i 8 text)))))
              (ground arith)
      ]
    ]

pub serialize-deserialize_differences :
    (text : Bytes) (ds : List ℕ)
    → All IsByte text
    → deserialize_differences text ≡ ok ds
    → serialize_differences ds ≡ text
unfolding deserialize_differences serialize_differences
serialize-deserialize_differences text ds b r =
    serialize-differences_loop (suc (length text)) text 0 [] ds b (omega arith) refl r
