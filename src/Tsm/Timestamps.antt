-- ===== src/Tsm/Timestamps.antt =====
-- The timestamp column of a data block: delta encoding and its bytes (engine/tsm/tsm.cpp).
-- The proofs about the bytes are in the module below. A time point and a duration are the bit patterns of their 64-bit counts of nanoseconds.
pub mod RoundTrip
use dtime_db.Prelude.{
  ℕ, zero, suc, ◌+◌, ◌-◌, ◌%◌, ◌^◌, ◌<◌, ◌≡◌, refl, ap, List, [], ◌∷◌, ◌++◌, arith, length, take,
  drop, All, ltb, leb, if◌then◌else◌, le_bytes, le_value,
}
use dtime_db.Tsm.File.{Bytes, Decoded, ok, thrown, out_of_fuel}

abbrev pub word64 : ℕ
word64 = 2 ^ 64

abbrev pub IsWord64 : ℕ → Type 0
IsWord64 n = n < word64

differences_from : ℕ → List ℕ → List ℕ
differences_from previous [] = []
differences_from previous (t ∷ ts) = ((t + word64 - previous) % word64) ∷ differences_from t ts

unfoldable pub calculate_differences : List ℕ → List ℕ
unfolding differences_from
calculate_differences [] = []
calculate_differences (t ∷ ts) = t ∷ differences_from t ts

restore_from : ℕ → List ℕ → List ℕ
restore_from previous [] = []
restore_from previous (d ∷ ds) = let t = (previous + d) % word64 in t ∷ restore_from t ds

unfoldable pub restore_timestamps : List ℕ → List ℕ
unfolding restore_from
restore_timestamps [] = []
restore_timestamps (d ∷ ds) = d ∷ restore_from d ds

unfoldable pub serialize_differences : List ℕ → Bytes
serialize_differences [] = []
serialize_differences (d ∷ ds) = le_bytes 8 d ++ serialize_differences ds

-- `i` is the loop's index into the text.
differences_loop : ℕ → Bytes → ℕ → List ℕ → Decoded (List ℕ)
differences_loop zero text i differences = out_of_fuel
differences_loop (suc fuel) text i differences =
    let count = le_value (take 8 (drop i text)) in
    let rest = differences_loop fuel text (i + 8) (differences ++ (count ∷ [])) in
    if ltb i (length text)
    then (if leb (i + 8) (length text) then rest else thrown)
    else ok differences

-- Each round takes eight bytes, so a round for each byte and one more are enough.
unfoldable pub deserialize_differences : Bytes → Decoded (List ℕ)
unfolding differences_loop
deserialize_differences text = differences_loop (suc (length text)) text 0 []

restore_from-differences_from :
    (p : ℕ) (ts : List ℕ)
    → p < word64
    → All IsWord64 ts
    → restore_from p (differences_from p ts) ≡ ts
unfolding restore_from differences_from
restore_from-differences_from p [] h k = refl
restore_from-differences_from p (t ∷ ts) h k =
    let e : (p + (t + word64 - p) % word64) % word64 ≡ t = omega arith in
    rw e (ap (◌∷◌ t) (restore_from-differences_from t ts k.0 k.1))

pub restore-calculate :
    (ts : List ℕ) → All IsWord64 ts → restore_timestamps (calculate_differences ts) ≡ ts
unfolding restore_timestamps calculate_differences
restore-calculate [] h = refl
restore-calculate (t ∷ ts) h = ap (◌∷◌ t) (restore_from-differences_from t ts h.0 h.1)

differences_from-IsWord64 : (p : ℕ) (ts : List ℕ) → All IsWord64 (differences_from p ts)
unfolding differences_from
differences_from-IsWord64 p [] = tt
differences_from-IsWord64 p (t ∷ ts) = (omega arith, differences_from-IsWord64 t ts)

pub calculate-IsWord64 : (ts : List ℕ) → All IsWord64 ts → All IsWord64 (calculate_differences ts)
unfolding calculate_differences
calculate-IsWord64 [] h = tt
calculate-IsWord64 (t ∷ ts) h = (h.0, differences_from-IsWord64 t ts)
