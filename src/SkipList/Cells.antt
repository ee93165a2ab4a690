-- ===== src/SkipList/Cells.antt =====
-- What nodes at addresses stand for: a list of entries, in which every pointer of a level leads to the next entry that
-- has this level, and a pointer for each level behind the last entry.
use dtime_db.Prelude.{
  ℕ, zero, suc, ◌<◌, ◌≡◌, refl, sym, ap, subst, ◌∙◌, false, Option, some, List, [], ◌∷◌, ◌++◌, ◌==◌,
  ltb, if◌then◌else◌, get_elem?, length, All, Pairwise, Bool-cases, ==_iff, inl, inr, arith,
}
use dtime_db.Token.{Text}
use dtime_db.SkipList.{Pointer, Node, Heap, ok, from_option, store, set_elem, next_of, set_next}

pub record Entry : Type 0 where
  pub addr : ℕ
  pub key : ℕ
  pub value : Text
  pub level : ℕ

-- The first entry with level `i`, or what stands behind the entries.
unfoldable pub lead : ℕ → List Entry → Pointer → Pointer
lead i [] p = p
lead i (e ∷ es) p = let rest = lead i es p in if ltb i e.level then some e.addr else rest

-- The node of an entry, with these pointers.
pub record IsCell (cells : Heap) (e : Entry) (next : ℕ → Pointer) : Type 0 where
  pub nexts : List Pointer
  pub found : cells e.addr ≡ some (record { key = e.key; value = e.value; nexts = nexts })
  pub levels : length nexts ≡ e.level
  pub leads : (i : ℕ) → i < e.level → get_elem? nexts i ≡ some (next i)

abbrev pub IsChain : Heap → List Entry → (ℕ → Pointer) → Type 0
IsChain cells [] t = Unit
IsChain cells (e ∷ es) t = IsCell cells e (λ i. lead i es (t i)) × IsChain cells es t

abbrev pub IsOther : ℕ → Entry → Type 0
IsOther a e = (e.addr == a) ≡ false

abbrev pub IsAbsent : ℕ → List Entry → Type 0
IsAbsent a es = All (λ e. IsOther a e) es

abbrev pub IsDistinct : List Entry → Type 0
IsDistinct es = Pairwise (λ x y. IsOther x.addr y) es

pub lead-append :
    (i : ℕ) (xs ys : List Entry) (p : Pointer) → lead i (xs ++ ys) p ≡ lead i xs (lead i ys p)
unfolding lead
lead-append i [] ys p = refl
lead-append i (e ∷ xs) ys p = rw (lead-append i xs ys p)

pub IsCell-agree :
    (cells : Heap) (e : Entry) (f g : ℕ → Pointer)
    → ((i : ℕ) → i < e.level → f i ≡ g i)
    → IsCell cells e f
    → IsCell cells e g
IsCell-agree cells e f g h c = record {
  nexts = c.nexts;
  found = c.found;
  levels = c.levels;
  leads = λ i l. c.leads i l ∙ ap some (h i l);
}

pub IsChain-split :
    (cells : Heap) (xs ys : List Entry) (t : ℕ → Pointer)
    → IsChain cells (xs ++ ys) t
    → IsChain cells xs (λ i. lead i ys (t i)) × IsChain cells ys t
IsChain-split cells [] ys t h = (tt, h)
IsChain-split cells (e ∷ xs) ys t h =
    let (front, back) = IsChain-split cells xs ys t h.1 in
    (
      (
        IsCell-agree cells e (λ i. lead i (xs ++ ys) (t i)) (λ i. lead i xs (lead i ys (t i)))
            (λ i l. lead-append i xs ys (t i)) h.0,
        front,
      ),
      back,
    )

pub IsChain-join :
    (cells : Heap) (xs ys : List Entry) (t : ℕ → Pointer)
    → IsChain cells xs (λ i. lead i ys (t i))
    → IsChain cells ys t
    → IsChain cells (xs ++ ys) t
IsChain-join cells [] ys t h k = k
IsChain-join cells (e ∷ xs) ys t h k = (
  IsCell-agree cells e (λ i. lead i xs (lead i ys (t i))) (λ i. lead i (xs ++ ys) (t i))
      (λ i l. sym (lead-append i xs ys (t i))) h.0,
  IsChain-join cells xs ys t h.1 k,
)

pub IsChain-agree :
    (cells : Heap) (xs : List Entry) (t t' : ℕ → Pointer)
    → ((i : ℕ) → t i ≡ t' i)
    → IsChain cells xs t
    → IsChain cells xs t'
IsChain-agree cells [] t t' h k = tt
IsChain-agree cells (e ∷ xs) t t' h k = (
  IsCell-agree cells e (λ i. lead i xs (t i)) (λ i. lead i xs (t' i)) (λ i l. ap (lead i xs) (h i))
      k.0,
  IsChain-agree cells xs t t' h k.1,
)

pub IsCell-frame :
    (cells cells' : Heap) (e : Entry) (f : ℕ → Pointer)
    → cells' e.addr ≡ cells e.addr
    → IsCell cells e f
    → IsCell cells' e f
IsCell-frame cells cells' e f h c = record {
  nexts = c.nexts;
  found = h ∙ c.found;
  levels = c.levels;
  leads = c.leads;
}

-- A store to an address that no entry has.
pub IsChain-store :
    (cells : Heap) (a : ℕ) (n : Option Node) (xs : List Entry) (t : ℕ → Pointer)
    → IsAbsent a xs
    → IsChain cells xs t
    → IsChain (store cells a n) xs t
IsChain-store cells a n [] t h k = tt
IsChain-store cells a n (e ∷ xs) t h k =
    let same : store cells a n e.addr ≡ cells e.addr = rw h.0 in
    (
      IsCell-frame cells (store cells a n) e (λ i. lead i xs (t i)) same k.0,
      IsChain-store cells a n xs t h.1 k.1,
    )

pub get_set_same {ℓ} :
    {A : Type ℓ} (xs : List A) (i : ℕ) (a : A)
    → i < length xs
    → get_elem? (set_elem xs i a) i ≡ some a
get_set_same [] i a h = absurd (omega arith)
get_set_same (x ∷ xs) zero a h = refl
get_set_same (x ∷ xs) (suc i) a h = get_set_same xs i a (omega arith)

pub get_set_other {ℓ} :
    {A : Type ℓ} (xs : List A) (i j : ℕ) (a : A)
    → (j == i) ≡ false
    → get_elem? (set_elem xs i a) j ≡ get_elem? xs j
get_set_other [] i j a h = refl
get_set_other (x ∷ xs) zero zero a h = absurd (ground arith)
get_set_other (x ∷ xs) zero (suc j) a h = refl
get_set_other (x ∷ xs) (suc i) zero a h = refl
get_set_other (x ∷ xs) (suc i) (suc j) a h = get_set_other xs i j a (ground arith)

pub length-set_elem {ℓ} :
    {A : Type ℓ} (xs : List A) (i : ℕ) (a : A) → length (set_elem xs i a) ≡ length xs
length-set_elem [] i a = refl
length-set_elem (x ∷ xs) zero a = refl
length-set_elem (x ∷ xs) (suc i) a = ap suc (length-set_elem xs i a)

module _ (cells : Heap) (e : Entry) (f : ℕ → Pointer) (c : IsCell cells e f) (i : ℕ)
    (l : i < e.level) where
  pub next_of-cell : next_of cells e.addr i ≡ ok (f i)
  unfolding next_of
  next_of-cell = rw (next_of, c.found) (ap from_option (c.leads i l))

  -- The heap in which the pointer of level `i` is another.
  abbrev pub with_next : Pointer → Heap
  with_next p =
      store cells e.addr
        (some (record { key = e.key; value = e.value; nexts = set_elem c.nexts i p }))

  pub set_next-cell : (p : Pointer) → set_next cells e.addr i p ≡ ok (with_next p)
  unfolding set_next
  set_next-cell p = rw (set_next, c.found) (rw (c.leads i l))

  pub IsCell-with_next :
      (p : Pointer) (g : ℕ → Pointer)
      → g i ≡ p
      → ((j : ℕ) → (j == i) ≡ false → g j ≡ f j)
      → IsCell (with_next p) e g
  IsCell-with_next p g at_i other = record {
    nexts = set_elem c.nexts i p;
    found = ground arith;
    levels = length-set_elem c.nexts i p ∙ c.levels;
    leads = λ j m. elim (Bool-cases (j == i)) [
      | inl same ↦
          let e : j ≡ i = (==_iff j i).0 same in
          subst (λ j. get_elem? (set_elem c.nexts i p) j ≡ some (g j)) (sym e)
            (get_set_same c.nexts i p (omega (arith, c.levels, l)) ∙ ap some (sym at_i))
      | inr n ↦ get_set_other c.nexts i j p n ∙ c.leads j m ∙ ap some (sym (other j n))
    ];
  }
