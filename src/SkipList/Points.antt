-- ===== src/SkipList/Points.antt =====
-- What a skip list promises: a list of time points and values, in order, and its entries cut at a key.
use dtime_db.Prelude.{
  ℕ, ◌<◌, ◌^◌, ◌≡◌, refl, ap, subst, Bool, true, false, Option, none, some, List, [], ◌∷◌, ◌++◌,
  map, ◌==◌, ==_iff, if◌then◌else◌, All, All-weaken, Pairwise, Bool-cases, inl, inr, ◌⊎◌, arith,
}
use dtime_db.Token.{Text}
use dtime_db.SkipList.{before}
use dtime_db.SkipList.Cells.{Entry}

abbrev pub Point : Type 0
Point = ℕ × Text

abbrev pub lookup_point : ℕ → List Point → Option Text
lookup_point key [] = none
lookup_point key (p ∷ points) =
    let rest = lookup_point key points in if p.0 == key then some p.1 else rest

abbrev pub value_or : Text → Option Text → Text
value_or v none = v
value_or v (some old) = old

-- In front of the first point that is not before the key.
abbrev pub add_point : ℕ → Text → List Point → List Point
add_point key value [] = (key, value) ∷ []
add_point key value (p ∷ points) =
    let rest = add_point key value points in
    if before p.0 key then p ∷ rest else (key, value) ∷ p ∷ points

-- A key that is there keeps its value.
abbrev pub put_point : ℕ → Text → List Point → List Point
put_point key value points = elim (lookup_point key points) [
  | none ↦ add_point key value points
  | some v ↦ points
]

abbrev pub remove_point : ℕ → List Point → List Point
remove_point key [] = []
remove_point key (p ∷ points) =
    let rest = remove_point key points in if p.0 == key then rest else p ∷ rest

abbrev pub points : List Entry → List Point
points = map (λ e. (e.key, e.value))

abbrev pub Before : Entry → Entry → Type 0
Before e e' = before e.key e'.key ≡ true

abbrev pub IsSorted : List Entry → Type 0
IsSorted = Pairwise Before

-- The entries before a key, and the others.
pub record IsCut (key : ℕ) (es : List Entry) : Type 0 where
  pub lows : List Entry
  pub highs : List Entry
  pub whole : es ≡ lows ++ highs
  pub low : All (λ e. before e.key key ≡ true) lows
  pub high : All (λ e. before e.key key ≡ false) highs

pub cut : (key : ℕ) (es : List Entry) → IsSorted es → IsCut key es
cut key [] h = record { lows = []; highs = []; whole = refl; low = tt; high = tt }
cut key (e ∷ es) h = elim (Bool-cases (before e.key key)) [
  | inl early ↦
      let c = cut key es h.1 in
      record {
        lows = e ∷ c.lows;
        highs = c.highs;
        whole = ap (◌∷◌ e) c.whole;
        low = (early, c.low);
        high = c.high;
      }
  | inr late ↦ record {
    lows = [];
    highs = e ∷ es;
    whole = refl;
    low = tt;
    high = (
      late,
      All-weaken (Before e) (λ x. before x.key key ≡ false)
          (λ x b. not_before e.key x.key key b late) es h.0,
    );
  }
]
  where
    not_before : (a b c : ℕ) → before a b ≡ true → before a c ≡ false → before b c ≡ false
    not_before a b c h k = ground arith

abbrev pub IsNot : ℕ → Entry → Type 0
IsNot key e = (e.key == key) ≡ false

pub irreflexive : (a : ℕ) → before a a ≡ true → ⊥
irreflexive a h = ground arith

pub before-IsNot : (key : ℕ) (e : Entry) → before e.key key ≡ true → IsNot key e
before-IsNot key e h = elim (Bool-cases (e.key == key)) [
  | inl same ↦
      let s = (==_iff e.key key).0 same in
      absurd (irreflexive key (subst (λ k. before k key ≡ true) s h))
  | inr other ↦ other
]

-- The first entry that is not before the key has it, or none has it.
pub record IsHit (key : ℕ) (highs : List Entry) : Type 0 where
  pub entry : Entry
  pub back : List Entry
  pub whole : highs ≡ entry ∷ back
  pub same : entry.key ≡ key

clash : (b : Bool) → b ≡ true → b ≡ false → ⊥
clash b h k = cc

pub IsHit-cases :
    (key : ℕ) (highs : List Entry)
    → IsSorted highs
    → All (λ e. before e.key key ≡ false) highs
    → All (IsNot key) highs ⊎ IsHit key highs
IsHit-cases key [] h k = inl tt
IsHit-cases key (e ∷ es) h k = elim (Bool-cases (e.key == key)) [
  | inl same ↦ inr (record { entry = e; back = es; whole = refl; same = (==_iff e.key key).0 same })
  | inr other ↦ inl (other, All-weaken (Before e) (IsNot key) (λ x b. later x b) es h.0)
]
  where
    later : (x : Entry) → before e.key x.key ≡ true → IsNot key x
    later x b = elim (Bool-cases (x.key == key)) [
      | inl same ↦ absurd (
          clash (before e.key key)
            (subst (λ z. before e.key z ≡ true) ((==_iff x.key key).0 same) b) k.0)
      | inr n ↦ n
    ]

pub lookup_point-none :
    (key : ℕ) (es : List Entry) → All (IsNot key) es → lookup_point key (points es) ≡ none
lookup_point-none key [] h = refl
lookup_point-none key (e ∷ es) h = rw h.0 (lookup_point-none key es h.1)

pub remove_point-none :
    (key : ℕ) (es : List Entry) → All (IsNot key) es → remove_point key (points es) ≡ points es
remove_point-none key [] h = refl
remove_point-none key (e ∷ es) h = rw h.0 (ap (◌∷◌ (e.key, e.value)) (remove_point-none key es h.1))

module _ (key : ℕ) (e : Entry) (at : e.key ≡ key) (back : List Entry) where
  abbrev has_key : (e.key == key) ≡ true
  has_key = (==_iff e.key key).1 at

  pub lookup_point-some :
      (lows : List Entry)
      → All (IsNot key) lows
      → lookup_point key (points (lows ++ e ∷ back)) ≡ some e.value
  lookup_point-some [] h = rw has_key refl
  lookup_point-some (x ∷ lows) h = rw h.0 (lookup_point-some lows h.1)

  pub remove_point-some :
      (lows : List Entry)
      → All (IsNot key) lows
      → All (IsNot key) back
      → remove_point key (points (lows ++ e ∷ back)) ≡ points (lows ++ back)
  remove_point-some [] h k = rw has_key (remove_point-none key back k)
  remove_point-some (x ∷ lows) h k =
      rw h.0 (ap (◌∷◌ (x.key, x.value)) (remove_point-some lows h.1 k))

pub add_point-append :
    (e : Entry) (lows highs : List Entry)
    → All (λ x. before x.key e.key ≡ true) lows
    → All (λ x. before x.key e.key ≡ false) highs
    → add_point e.key e.value (points (lows ++ highs)) ≡ points (lows ++ e ∷ highs)
add_point-append e [] [] h k = refl
add_point-append e [] (x ∷ highs) h k = rw k.0 refl
add_point-append e (x ∷ lows) highs h k =
    rw h.0 (ap (◌∷◌ (x.key, x.value)) (add_point-append e lows highs h.1 k))

-- Time points that are no others than the key come before it or behind it.
pub before_total :
    (a b : ℕ) → a < 2 ^ 64 → b < 2 ^ 64 → (a == b) ≡ false → before a b ≡ false → before b a ≡ true
before_total a b h k n l = ground arith
