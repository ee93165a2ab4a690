-- ===== src/SkipList/Links.antt =====
-- One pointer set behind the last entry of a level: what the entries are then linked to.
use dtime_db.Prelude.{
  ℕ, ◌≡◌, refl, sym, ap, subst, ◌∙◌, true, false, List, [], ◌∷◌, ◌==◌, ltb, ltb→lt, Bool-cases, inl,
  inr, ==_iff, arith,
}
use dtime_db.SkipList.{Pointer, Heap, ok, next_of, set_next}
use dtime_db.SkipList.Cells.{
  Entry, IsCell-agree, IsCell-frame, lead, IsChain, IsOther, IsAbsent, IsDistinct, next_of-cell,
  with_next, set_next-cell, IsCell-with_next,
}
use dtime_db.SkipList.Walk.{IsBelow, IsLast, here, there, lead-IsBelow}

abbrev pub IsFrame : Heap → Heap → ℕ → Type 0
IsFrame cells cells' u = (a : ℕ) → (a == u) ≡ false → cells' a ≡ cells a

pub IsChain-frame :
    (cells cells' : Heap) (u : ℕ) (xs : List Entry) (t : ℕ → Pointer)
    → IsFrame cells cells' u
    → IsAbsent u xs
    → IsChain cells xs t
    → IsChain cells' xs t
IsChain-frame cells cells' u [] t f h k = tt
IsChain-frame cells cells' u (e ∷ xs) t f h k = (
  IsCell-frame cells cells' e (λ i. lead i xs (t i)) (f e.addr h.0) k.0,
  IsChain-frame cells cells' u xs t f h.1 k.1,
)

-- Entries without level `i` do not see what stands behind the level.
IsChain-IsBelow :
    (cells : Heap) (i : ℕ) (xs : List Entry) (t t' : ℕ → Pointer)
    → IsBelow i xs
    → ((j : ℕ) → (j == i) ≡ false → t' j ≡ t j)
    → IsChain cells xs t
    → IsChain cells xs t'
IsChain-IsBelow cells i [] t t' below h k = tt
IsChain-IsBelow cells i (e ∷ xs) t t' below h k = (
  IsCell-agree cells e (λ j. lead j xs (t j)) (λ j. lead j xs (t' j))
      (λ j l. ap (lead j xs) (sym (h j (let b = below.0 in ground arith)))) k.0,
  IsChain-IsBelow cells i xs t t' below.1 h k.1,
)

lead-IsLast :
    (i : ℕ) (u : Entry) (xs : List Entry) (p q : Pointer)
    → IsLast i u xs
    → lead i xs p ≡ lead i xs q
unfolding lead
lead-IsLast i u [] p q last = elim last [ ]
lead-IsLast i u (x ∷ xs) p q (here has below) = rw has refl
lead-IsLast i u (x ∷ xs) p q (there h) = rw (lead-IsLast i u xs p q h)

pub IsOther-IsLast :
    (a i : ℕ) (u : Entry) (xs : List Entry) → IsAbsent a xs → IsLast i u xs → IsOther a u
IsOther-IsLast a i u [] h last = elim last [ ]
IsOther-IsLast a i u (x ∷ xs) h (here has below) = h.0
IsOther-IsLast a i u (x ∷ xs) h (there l) = IsOther-IsLast a i u xs h.1 l

pub next_of-IsLast :
    (cells : Heap) (i : ℕ) (u : Entry) (xs : List Entry) (t : ℕ → Pointer)
    → IsLast i u xs
    → IsChain cells xs t
    → next_of cells u.addr i ≡ ok (t i)
next_of-IsLast cells i u [] t last k = elim last [ ]
next_of-IsLast cells i u (x ∷ xs) t (here has below) k =
    next_of-cell cells x (λ j. lead j xs (t j)) k.0 i (ltb→lt i x.level has)
    ∙ ap ok (lead-IsBelow i xs (t i) below)
next_of-IsLast cells i u (x ∷ xs) t (there h) k = next_of-IsLast cells i u xs t h k.1

-- The heap after the pointer of level `i` behind the entries is set.
pub record IsRelinked (cells : Heap) (i u : ℕ) (p : Pointer) (xs : List Entry) (t : ℕ → Pointer)
    : Type 0 where
  pub relinked : Heap
  pub result : set_next cells u i p ≡ ok relinked
  pub chain : IsChain relinked xs t
  pub frame : IsFrame cells relinked u

module _ (cells : Heap) (i : ℕ) (u : Entry) (p : Pointer) (t t' : ℕ → Pointer) (at_i : t' i ≡ p)
    (other : (j : ℕ) → (j == i) ≡ false → t' j ≡ t j) where
  relink_first :
      (xs : List Entry)
      → IsAbsent u.addr xs
      → ltb i u.level ≡ true
      → IsBelow i xs
      → IsChain cells (u ∷ xs) t
      → IsRelinked cells i u.addr p (u ∷ xs) t'
  relink_first xs absent has below chain =
      let f : ℕ → Pointer = λ j. lead j xs (t j) in
      let l = ltb→lt i u.level has in
      let cells' = with_next cells u f chain.0 i l p in
      let frame : IsFrame cells cells' u.addr = λ a n. rw n in
      record {
        relinked = cells';
        result = set_next-cell cells u f chain.0 i l p;
        chain = (
          IsCell-with_next cells u f chain.0 i l p (λ j. lead j xs (t' j))
              (lead-IsBelow i xs (t' i) below ∙ at_i) (λ j n. ap (lead j xs) (other j n)),
          IsChain-frame cells cells' u.addr xs t' frame absent
              (IsChain-IsBelow cells i xs t t' below other chain.1),
        );
        frame = frame;
      }

  lead-other :
      (x : Entry) (xs : List Entry) → IsLast i u xs → (j : ℕ) → lead j xs (t j) ≡ lead j xs (t' j)
  lead-other x xs last j = elim (Bool-cases (j == i)) [
    | inl same ↦
        subst (λ k. lead k xs (t k) ≡ lead k xs (t' k)) (sym ((==_iff j i).0 same))
          (lead-IsLast i u xs (t i) (t' i) last)
    | inr n ↦ ap (lead j xs) (sym (other j n))
  ]

  pub relink :
      (xs : List Entry)
      → IsDistinct xs
      → IsLast i u xs
      → IsChain cells xs t
      → IsRelinked cells i u.addr p xs t'
  relink [] d last chain = elim last [ ]
  relink (x ∷ xs) d (here has below) chain = relink_first xs d.0 has below chain
  relink (x ∷ xs) d (there last) chain =
      let r = relink xs d.1 last chain.1 in
      let f : ℕ → Pointer = λ j. lead j xs (t j) in
      let apart : (x.addr == u.addr) ≡ false =
        (let o = IsOther-IsLast x.addr i u xs d.0 last in ground arith) in
      record {
        relinked = r.relinked;
        result = r.result;
        chain = (
          IsCell-frame cells r.relinked x (λ j. lead j xs (t' j)) (r.frame x.addr apart)
              (IsCell-agree cells x f (λ j. lead j xs (t' j)) (λ j l. lead-other x xs last j)
                chain.0),
          r.chain,
        );
        frame = r.frame;
      }
