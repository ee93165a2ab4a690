-- ===== src/Tsm/Strings/Negative.antt =====
-- What `deserialize_strings` of engine/tsm/tsm.cpp does with a length that is negative as an `int`:
-- the test for the end of the text is made in `size_t`, where the sum wraps.
use dtime_db.Prelude.{
  ℕ, zero, suc, ◌+◌, ◌-◌, ◌^◌, ◌≡◌, refl, List, ◌∷◌, [], ◌++◌, arith, length, take, drop, le_bytes,
  lt→ltb, le→ltb, length-append,
}
use dtime_db.Tsm.File.{Bytes, out_of_fuel}
use dtime_db.Tsm.Strings.{strings_loop}

-- The four bytes of the `int` -4.
abbrev pub minus_four : Bytes
minus_four = le_bytes 4 (2 ^ 32 - 4)

-- A text that begins with the length -4 sends the loop back to its first byte: no number of rounds
-- ends it, whatever follows and whatever has been read.
pub negative_length_loops :
    (rest : Bytes) (fuel : ℕ) (strings : List Bytes)
    → strings_loop fuel (minus_four ++ rest) 0 strings ≡ out_of_fuel
unfolding strings_loop
negative_length_loops rest zero strings = refl
negative_length_loops rest (suc fuel) strings =
    let text = minus_four ++ rest in
    let size : length text ≡ 4 + length rest = omega (arith, length-append minus_four rest) in
    rw
      (
        lt→ltb 0 (length text) (omega arith),
        le→ltb (length text) 4 (omega arith),
        le→ltb (length text) 0 (omega arith),
      )
      (negative_length_loops rest fuel (strings ++ (take (2 ^ 64 - 4) (drop 4 text) ∷ [])))
