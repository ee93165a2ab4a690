-- ===== src/Tsm/Strings.antt =====
-- The value column of a data block as bytes: `serialize_strings` and `deserialize_strings` of
-- engine/tsm/tsm.cpp. The proofs are in the modules below.
pub mod RoundTrip
pub mod Negative
use dtime_db.Prelude.{
  ℕ, zero, suc, ◌+◌, ◌-◌, ◌%◌, ◌^◌, List, [], ◌∷◌, ◌++◌, length, take, drop, ltb, if◌then◌else◌,
  le_bytes, le_value,
}
use dtime_db.Tsm.File.{Bytes, Decoded, ok, thrown, out_of_fuel}

-- `int length = str.size()` keeps the low 32 bits.
unfoldable pub serialize_strings : List Bytes → Bytes
serialize_strings [] = []
serialize_strings (s ∷ ss) = le_bytes 4 (length s) ++ (s ++ serialize_strings ss)

-- An `int`, given by its 32 bits, as the `size_t` that a sum with one converts it to.
abbrev pub size_of_int : ℕ → ℕ
size_of_int w = if ltb w (2 ^ 31) then w else w + 2 ^ 64 - 2 ^ 32

-- `i` is the loop's index. The index after the text is computed in `size_t`, and `substr` takes no
-- more than there is.
unfoldable pub strings_loop : ℕ → Bytes → ℕ → List Bytes → Decoded (List Bytes)
strings_loop zero text i strings = out_of_fuel
strings_loop (suc fuel) text i strings =
    let n = size_of_int (le_value (take 4 (drop i text))) in
    let end = (i + 4 + n) % 2 ^ 64 in
    let rest = strings_loop fuel text end (strings ++ (take n (drop (i + 4) text) ∷ [])) in
    if ltb i (length text)
    then (if ltb (length text) (i + 4)
        then thrown
        else if ltb (length text) end
        then thrown
        else rest)
    else ok strings

-- A round takes four bytes at least, unless a length is negative.
unfoldable pub deserialize_strings : Bytes → Decoded (List Bytes)
unfolding strings_loop
deserialize_strings text = strings_loop (suc (length text)) text 0 []
