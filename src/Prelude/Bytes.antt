-- ===== src/Prelude/Bytes.antt =====
-- Bytes as numbers, and the little-endian words that `memcpy`, `read` and `write` move on the
-- machines that the program is built for.
use Prim.Native.Nat.{ℕ, zero, suc, ◌+◌, ◌*◌, ◌/◌, ◌%◌, ◌^◌, ◌<◌}
use mathlib.Core.Path.{◌≡◌, refl, ap}
use mathlib.Core.List.{List, [], ◌∷◌}
use native.Mathlib.Omega.{arith}
use native.Mathlib.Nat.{pow-suc}
use dtime_db.Prelude.Lists.{length, All}

abbrev pub IsByte : ℕ → Type 0
IsByte b = b < 256

-- The low `n` bytes of a word, the lowest first.
abbrev pub le_bytes : ℕ → ℕ → List ℕ
le_bytes zero v = []
le_bytes (suc n) v = (v % 256) ∷ le_bytes n (v / 256)

abbrev pub le_value : List ℕ → ℕ
le_value [] = 0
le_value (b ∷ bs) = b + 256 * le_value bs

pub length-le_bytes : (n v : ℕ) → length (le_bytes n v) ≡ n
length-le_bytes zero v = refl
length-le_bytes (suc n) v = ap suc (length-le_bytes n (v / 256))

pub le_bytes-IsByte : (n v : ℕ) → All IsByte (le_bytes n v)
le_bytes-IsByte zero v = tt
le_bytes-IsByte (suc n) v = (omega arith, le_bytes-IsByte n (v / 256))

pub le_value-le_bytes : (n v : ℕ) → v < 256 ^ n → le_value (le_bytes n v) ≡ v
le_value-le_bytes zero v h = omega arith
le_value-le_bytes (suc n) v h =
    omega (arith, le_value-le_bytes n (v / 256) (omega (arith, pow-suc 256 n)))

pub le_value-lt : (bs : List ℕ) → All IsByte bs → le_value bs < 256 ^ length bs
le_value-lt [] h = omega arith
le_value-lt (b ∷ bs) h = omega (arith, le_value-lt bs h.1, pow-suc 256 (length bs))

pub le_bytes-le_value :
    (n : ℕ) (bs : List ℕ) → length bs ≡ n → All IsByte bs → le_bytes n (le_value bs) ≡ bs
le_bytes-le_value zero [] e h = refl
le_bytes-le_value zero (b ∷ bs) e h = absurd (omega arith)
le_bytes-le_value (suc n) [] e h = absurd (omega arith)
le_bytes-le_value (suc n) (b ∷ bs) e h =
    let low : (b + 256 * le_value bs) % 256 ≡ b = omega arith in
    let high : (b + 256 * le_value bs) / 256 ≡ le_value bs = omega arith in
    rw (low, high) (ap (◌∷◌ b) (le_bytes-le_value n bs (omega arith) h.1))
