-- ===== src/Prelude/Lists.antt =====
-- Lists measured, indexed and cut by native numbers, under the library's names.
use Prim.Native.Nat.{ℕ, zero, suc, ◌+◌, ◌-◌, ◌≤◌, min}
use mathlib.Core.Path.{◌≡◌, refl, sym, ap, ◌∙◌}
use mathlib.Core.List.{List, [], ◌∷◌, ◌++◌}
use mathlib.Core.Option.{Option, none, some}
use native.Mathlib.Omega.{arith}

module _ {ℓ} {A : Type ℓ} where
  abbrev pub length : List A → ℕ
  length [] = 0
  length (x ∷ xs) = suc (length xs)

  abbrev pub get_elem? : List A → ℕ → Option A
  get_elem? [] i = none
  get_elem? (x ∷ xs) zero = some x
  get_elem? (x ∷ xs) (suc i) = get_elem? xs i

  abbrev pub get_or : List A → ℕ → A → A
  get_or [] i d = d
  get_or (x ∷ xs) zero d = x
  get_or (x ∷ xs) (suc i) d = get_or xs i d

  abbrev pub take : ℕ → List A → List A
  take zero xs = []
  take (suc n) [] = []
  take (suc n) (x ∷ xs) = x ∷ take n xs

  abbrev pub drop : ℕ → List A → List A
  drop zero xs = xs
  drop (suc n) [] = []
  drop (suc n) (x ∷ xs) = drop n xs

  abbrev pub replicate : ℕ → A → List A
  replicate zero a = []
  replicate (suc n) a = a ∷ replicate n a

  abbrev pub All {κ} : (A → Type κ) → List A → Type κ
  All P [] = Unit {κ}
  All P (x ∷ xs) = P x × All P xs

  pub length-append : (xs ys : List A) → length (xs ++ ys) ≡ length xs + length ys
  length-append [] ys = omega arith
  length-append (x ∷ xs) ys = omega (arith, length-append xs ys)

module _ {ℓ} {A : Type ℓ} where
  pub take-append-drop : (n : ℕ) (xs : List A) → take n xs ++ drop n xs ≡ xs
  take-append-drop zero xs = refl
  take-append-drop (suc n) [] = refl
  take-append-drop (suc n) (x ∷ xs) = ap (◌∷◌ x) (take-append-drop n xs)

  pub length-take : (n : ℕ) (xs : List A) → length (take n xs) ≡ min n (length xs)
  length-take zero xs = omega arith
  length-take (suc n) [] = omega arith
  length-take (suc n) (x ∷ xs) = omega (arith, length-take n xs)

  pub length-drop : (n : ℕ) (xs : List A) → length (drop n xs) ≡ length xs - n
  length-drop zero xs = omega arith
  length-drop (suc n) [] = omega arith
  length-drop (suc n) (x ∷ xs) = omega (arith, length-drop n xs)

  pub length-replicate : (n : ℕ) (a : A) → length (replicate n a) ≡ n
  length-replicate zero a = refl
  length-replicate (suc n) a = ap suc (length-replicate n a)

  -- A cut at the seam of an append, the seam given by an equation.
  pub take-append : (n : ℕ) (xs ys : List A) → length xs ≡ n → take n (xs ++ ys) ≡ xs
  take-append zero [] ys h = refl
  take-append zero (x ∷ xs) ys h = absurd (omega arith)
  take-append (suc n) [] ys h = absurd (omega arith)
  take-append (suc n) (x ∷ xs) ys h = ap (◌∷◌ x) (take-append n xs ys (omega arith))

  pub drop-append : (n : ℕ) (xs ys : List A) → length xs ≡ n → drop n (xs ++ ys) ≡ ys
  drop-append zero [] ys h = refl
  drop-append zero (x ∷ xs) ys h = absurd (omega arith)
  drop-append (suc n) [] ys h = absurd (omega arith)
  drop-append (suc n) (x ∷ xs) ys h = drop-append n xs ys (omega arith)

  pub take_all : (n : ℕ) (xs : List A) → length xs ≤ n → take n xs ≡ xs
  take_all zero [] h = refl
  take_all zero (x ∷ xs) h = absurd (omega arith)
  take_all (suc n) [] h = refl
  take_all (suc n) (x ∷ xs) h = ap (◌∷◌ x) (take_all n xs (omega arith))

  pub drop_all : (n : ℕ) (xs : List A) → length xs ≤ n → drop n xs ≡ []
  drop_all zero [] h = refl
  drop_all zero (x ∷ xs) h = absurd (omega arith)
  drop_all (suc n) [] h = refl
  drop_all (suc n) (x ∷ xs) h = drop_all n xs (omega arith)

  pub drop-drop : (m n : ℕ) (xs : List A) → drop m (drop n xs) ≡ drop (n + m) xs
  drop-drop m zero xs = let e : 0 + m ≡ m = omega arith in rw e
  drop-drop m (suc n) [] = drop_all m [] (omega arith) ∙ sym (drop_all (suc n + m) [] (omega arith))
  drop-drop m (suc n) (x ∷ xs) =
      let e : suc n + m ≡ suc (n + m) = omega arith in rw e (drop-drop m n xs)

  pub All-append {κ} : (P : A → Type κ) (xs ys : List A) → All P xs → All P ys → All P (xs ++ ys)
  All-append P [] ys h k = k
  All-append P (x ∷ xs) ys h k = (h.0, All-append P xs ys h.1 k)

  pub take_add : (m n : ℕ) (xs : List A) → take (m + n) xs ≡ take m xs ++ take n (drop m xs)
  take_add zero n xs = let e : 0 + n ≡ n = omega arith in rw e
  take_add (suc m) n [] = take_all (suc m + n) [] (omega arith) ∙ sym (take_all n [] (omega arith))
  take_add (suc m) n (x ∷ xs) =
      let e : suc m + n ≡ suc (m + n) = omega arith in rw e (ap (◌∷◌ x) (take_add m n xs))

  -- A window inside the first part of an append.
  pub window-append :
      (o n : ℕ) (xs ys : List A)
      → o + n ≤ length xs
      → take n (drop o (xs ++ ys)) ≡ take n (drop o xs)
  window-append zero zero xs ys h = refl
  window-append zero (suc n) [] ys h = absurd (omega arith)
  window-append zero (suc n) (x ∷ xs) ys h = ap (◌∷◌ x) (window-append zero n xs ys (omega arith))
  window-append (suc o) n [] ys h = absurd (omega arith)
  window-append (suc o) n (x ∷ xs) ys h = window-append o n xs ys (omega arith)

  pub drop-append_ge :
      (o : ℕ) (xs ys : List A) → length xs ≤ o → drop o (xs ++ ys) ≡ drop (o - length xs) ys
  drop-append_ge o [] ys h = let e : o - 0 ≡ o = omega arith in rw e
  drop-append_ge zero (x ∷ xs) ys h = absurd (omega arith)
  drop-append_ge (suc o) (x ∷ xs) ys h =
      let e : suc o - suc (length xs) ≡ o - length xs = omega arith in
      rw e (drop-append_ge o xs ys (omega arith))

  pub All-take {κ} : (P : A → Type κ) (n : ℕ) (xs : List A) → All P xs → All P (take n xs)
  All-take P zero xs h = tt
  All-take P (suc n) [] h = tt
  All-take P (suc n) (x ∷ xs) h = (h.0, All-take P n xs h.1)

  pub All-drop {κ} : (P : A → Type κ) (n : ℕ) (xs : List A) → All P xs → All P (drop n xs)
  All-drop P zero xs h = h
  All-drop P (suc n) [] h = tt
  All-drop P (suc n) (x ∷ xs) h = All-drop P n xs h.1

module _ {ℓ κ} {A : Type ℓ} (P : A → Type κ) where
  pub All-front : (xs ys : List A) → All P (xs ++ ys) → All P xs
  All-front [] ys h = tt
  All-front (x ∷ xs) ys h = (h.0, All-front xs ys h.1)

  pub All-back : (xs ys : List A) → All P (xs ++ ys) → All P ys
  All-back [] ys h = h
  All-back (x ∷ xs) ys h = All-back xs ys h.1

  pub All-insert : (xs ys : List A) (e : A) → P e → All P (xs ++ ys) → All P (xs ++ e ∷ ys)
  All-insert [] ys e p h = (p, h)
  All-insert (x ∷ xs) ys e p h = (h.0, All-insert xs ys e p h.1)

  pub All-remove : (xs ys : List A) (e : A) → All P (xs ++ e ∷ ys) → All P (xs ++ ys)
  All-remove [] ys e h = h.1
  All-remove (x ∷ xs) ys e h = (h.0, All-remove xs ys e h.1)

  pub All-weaken {ι} :
      (Q : A → Type ι) → ((a : A) → P a → Q a) → (xs : List A) → All P xs → All Q xs
  All-weaken Q f [] h = tt
  All-weaken Q f (x ∷ xs) h = (f x h.0, All-weaken Q f xs h.1)

module _ {ℓ κ} {A : Type ℓ} (R : A → A → Type κ) where
  -- `R` holds from each element to those behind it.
  abbrev pub Pairwise : List A → Type κ
  Pairwise [] = Unit
  Pairwise (x ∷ xs) = All (R x) xs × Pairwise xs

  pub Pairwise-front : (xs ys : List A) → Pairwise (xs ++ ys) → Pairwise xs
  Pairwise-front [] ys h = tt
  Pairwise-front (x ∷ xs) ys h = (All-front (R x) xs ys h.0, Pairwise-front xs ys h.1)

  pub Pairwise-back : (xs ys : List A) → Pairwise (xs ++ ys) → Pairwise ys
  Pairwise-back [] ys h = h
  Pairwise-back (x ∷ xs) ys h = Pairwise-back xs ys h.1

  pub Pairwise-insert :
      (xs ys : List A) (e : A)
      → All (λ x. R x e) xs
      → All (R e) ys
      → Pairwise (xs ++ ys)
      → Pairwise (xs ++ e ∷ ys)
  Pairwise-insert [] ys e h k p = (k, p)
  Pairwise-insert (x ∷ xs) ys e h k p =
      (All-insert (R x) xs ys e h.0 p.0, Pairwise-insert xs ys e h.1 k p.1)

  pub Pairwise-remove : (xs ys : List A) (e : A) → Pairwise (xs ++ e ∷ ys) → Pairwise (xs ++ ys)
  Pairwise-remove [] ys e p = p.1
  Pairwise-remove (x ∷ xs) ys e p = (All-remove (R x) xs ys e p.0, Pairwise-remove xs ys e p.1)
