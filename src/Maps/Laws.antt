-- ===== src/Maps/Laws.antt =====
-- The laws of the maps: searching after a change, keys that stay unique, and sums over the entries.
use dtime_db.Prelude.{
  ℕ, ◌+◌, ◌≡◌, refl, sym, ap, subst, ◌∙◌, true, false, none, some, [], ◌∷◌, Bool-cases,
  Option-cases, inl, inr, arith,
}
use dtime_db.Token.{Text}
use dtime_db.Maps.{
  Map, same_text, less_text, find, replace, insert, put, erase, IsUnique, total, same_text-eq,
  same_text_refl,
}

-- A text that is another than `k` is another than any that is the same as `k`.
same_other :
    (k k' k'' : Text) → same_text k' k ≡ false → same_text k k'' ≡ true → same_text k' k'' ≡ false
same_other k k' k'' n e = subst (λ t. same_text k' t ≡ false) (same_text-eq k k'' e) n

other_same :
    (k k' k'' : Text) → same_text k' k ≡ false → same_text k' k'' ≡ true → same_text k k'' ≡ false
other_same k k' k'' n e = elim (Bool-cases (same_text k k'')) [
  | inr f ↦ f
  | inl s ↦ absurd (bad (sym e ∙ same_other k k' k'' n s))
]
  where
    bad : true ≡ false → ⊥
    bad e = cc

-- The order of the two texts does not matter.
pub sym_other : (k k' : Text) → same_text k k' ≡ false → same_text k' k ≡ false
sym_other k k' n = elim (Bool-cases (same_text k' k)) [
  | inr f ↦ f
  | inl e ↦ absurd (
      bad (
        sym (subst (λ t. same_text k t ≡ true) (sym (same_text-eq k' k e)) (same_text_refl k)) ∙ n))
]
  where
    bad : true ≡ false → ⊥
    bad e = cc

module _ {ℓ} {V : Type ℓ} where
  find-head :
      (k k' : Text) (v : V) (m : Map V) → same_text k k' ≡ true → find k ((k', v) ∷ m) ≡ some v
  unfolding find
  find-head k k' v m e = rw e

  find-tail :
      (k k' : Text) (v : V) (m : Map V) → same_text k k' ≡ false → find k ((k', v) ∷ m) ≡ find k m
  unfolding find
  find-tail k k' v m e = rw e

  none-head :
      (k k' : Text) (v : V) (m : Map V) → find k ((k', v) ∷ m) ≡ none → same_text k k' ≡ false
  none-head k k' v m h = elim (Bool-cases (same_text k k')) [
    | inr f ↦ f
    | inl e ↦ absurd (bad (sym (find-head k k' v m e) ∙ h))
  ]
    where
      bad : some v ≡ none → ⊥
      bad e = cc

  no_some : {o : V} → none ≡ some o → ⊥
  no_some e = cc

  some_eq : {a b : V} → some a ≡ some b → a ≡ b
  some_eq e = cc

  find-insert : (k : Text) (v : V) (m : Map V) → find k m ≡ none → find k (insert k v m) ≡ some v
  unfolding find insert
  find-insert k v [] h = rw (same_text_refl k)
  find-insert k v ((k', v') ∷ m) h =
      let n = none-head k k' v' m h in
      elim (Bool-cases (less_text k k')) [
        | inl l ↦ rw (l, same_text_refl k)
        | inr g ↦ rw (g, n) (find-insert k v m (sym (find-tail k k' v' m n) ∙ h))
      ]

  find-replace :
      (k : Text) (v o : V) (m : Map V) → find k m ≡ some o → find k (replace k v m) ≡ some v
  unfolding find replace
  find-replace k v o [] h = absurd (no_some h)
  find-replace k v o ((k', v') ∷ m) h = elim (Bool-cases (same_text k k')) [
    | inl e ↦ rw (e, e)
    | inr n ↦ rw (n, n) (find-replace k v o m (sym (find-tail k k' v' m n) ∙ h))
  ]

  put_new : (k : Text) (v : V) (m : Map V) → find k m ≡ none → put k v m ≡ insert k v m
  unfolding put
  put_new k v m e = rw (put, e)

  put_old : (k : Text) (v o : V) (m : Map V) → find k m ≡ some o → put k v m ≡ replace k v m
  unfolding put
  put_old k v o m e = rw (put, e)

  pub find-put : (k : Text) (v : V) (m : Map V) → find k (put k v m) ≡ some v
  find-put k v m = elim (Option-cases (find k m)) [
    | inl e ↦ rw (put_new k v m e) (find-insert k v m e)
    | inr (o, e) ↦ rw (put_old k v o m e) (find-replace k v o m e)
  ]

  insert-other :
      (k k' : Text) (v : V) (m : Map V)
      → same_text k' k ≡ false
      → find k' (insert k v m) ≡ find k' m
  unfolding find insert
  insert-other k k' v [] n = rw n
  insert-other k k' v ((k'', v') ∷ m) n = elim (Bool-cases (less_text k k'')) [
    | inl l ↦ rw (l, n)
    | inr g ↦ rw (g, insert-other k k' v m n)
  ]

  replace-other :
      (k k' : Text) (v : V) (m : Map V)
      → same_text k' k ≡ false
      → find k' (replace k v m) ≡ find k' m
  unfolding find replace
  replace-other k k' v [] n = refl
  replace-other k k' v ((k'', v') ∷ m) n = elim (Bool-cases (same_text k k'')) [
    | inl e ↦ rw (e, same_other k k' k'' n e)
    | inr f ↦ rw (f, replace-other k k' v m n)
  ]

  pub find-put-other :
      (k k' : Text) (v : V) (m : Map V) → same_text k' k ≡ false → find k' (put k v m) ≡ find k' m
  find-put-other k k' v m n = elim (Option-cases (find k m)) [
    | inl e ↦ rw (put_new k v m e) (insert-other k k' v m n)
    | inr (o, e) ↦ rw (put_old k v o m e) (replace-other k k' v m n)
  ]

  pub erase-other :
      (k k' : Text) (m : Map V) → same_text k' k ≡ false → find k' (erase k m) ≡ find k' m
  unfolding find erase
  erase-other k k' [] n = refl
  erase-other k k' ((k'', v') ∷ m) n = elim (Bool-cases (same_text k k'')) [
    | inl e ↦ rw (e, same_other k k' k'' n e)
    | inr f ↦ rw (f, erase-other k k' m n)
  ]

  pub find-erase : (k : Text) (m : Map V) → IsUnique m → find k (erase k m) ≡ none
  unfolding find erase
  find-erase k [] u = refl
  find-erase k ((k', v) ∷ m) u = elim (Bool-cases (same_text k k')) [
    | inl e ↦ rw e (subst (λ t. find t m ≡ none) (sym (same_text-eq k k' e)) u.0)
    | inr n ↦ rw (n, n) (find-erase k m u.1)
  ]

  insert-IsUnique :
      (k : Text) (v : V) (m : Map V) → find k m ≡ none → IsUnique m → IsUnique (insert k v m)
  unfolding insert find
  insert-IsUnique k v [] h u = (refl, tt)
  insert-IsUnique k v ((k', v') ∷ m) h u =
      let n = none-head k k' v' m h in
      elim (Bool-cases (less_text k k')) [
        | inl l ↦ rw l (h, u)
        | inr g ↦ rw g (
          insert-other k k' v m (sym_other k k' n) ∙ u.0,
          insert-IsUnique k v m (sym (find-tail k k' v' m n) ∙ h) u.1,
        )
      ]

  replace-IsUnique : (k : Text) (v : V) (m : Map V) → IsUnique m → IsUnique (replace k v m)
  unfolding replace
  replace-IsUnique k v [] u = tt
  replace-IsUnique k v ((k', v') ∷ m) u = elim (Bool-cases (same_text k k')) [
    | inl e ↦ rw e u
    | inr n ↦ rw n (replace-other k k' v m (sym_other k k' n) ∙ u.0, replace-IsUnique k v m u.1)
  ]

  pub put-IsUnique : (k : Text) (v : V) (m : Map V) → IsUnique m → IsUnique (put k v m)
  put-IsUnique k v m u = elim (Option-cases (find k m)) [
    | inl e ↦ rw (put_new k v m e) (insert-IsUnique k v m e u)
    | inr (o, e) ↦ rw (put_old k v o m e) (replace-IsUnique k v m u)
  ]

  pub erase-IsUnique : (k : Text) (m : Map V) → IsUnique m → IsUnique (erase k m)
  unfolding erase
  erase-IsUnique k [] u = tt
  erase-IsUnique k ((k', v') ∷ m) u = elim (Bool-cases (same_text k k')) [
    | inl e ↦ rw e u.1
    | inr n ↦ rw n (erase-other k k' m (sym_other k k' n) ∙ u.0, erase-IsUnique k m u.1)
  ]

  module _ (f : Text → V → ℕ) where
    total-insert : (k : Text) (v : V) (m : Map V) → total f (insert k v m) ≡ f k v + total f m
    unfolding total insert
    total-insert k v [] = refl
    total-insert k v ((k', v') ∷ m) = elim (Bool-cases (less_text k k')) [
      | inl l ↦ rw l
      | inr g ↦ rw (g, total-insert k v m) (omega arith)
    ]

    total-replace :
        (k : Text) (v o : V) (m : Map V)
        → find k m ≡ some o
        → total f (replace k v m) + f k o ≡ f k v + total f m
    unfolding total replace find
    total-replace k v o [] h = absurd (no_some h)
    total-replace k v o ((k', v') ∷ m) h = elim (Bool-cases (same_text k k')) [
      | inl e ↦
          let old = some_eq (sym (find-head k k' v' m e) ∙ h) in
          rw e (replaced k k' v v' o m (same_text-eq k k' e) old)
      | inr n ↦
          let ih = total-replace k v o m (sym (find-tail k k' v' m n) ∙ h) in rw n (omega arith)
    ]
      where
        replaced :
            (k k' : Text) (v v' o : V) (m : Map V)
            → k ≡ k'
            → v' ≡ o
            → f k' v + total f m + f k o ≡ f k v + (f k' v' + total f m)
        replaced k k' v v' o m e d =
            let a : f k' v ≡ f k v = ap (λ t. f t v) (sym e) in
            let b : f k' v' ≡ f k o = ap (λ t. f t v') (sym e) ∙ ap (λ x. f k x) d in omega arith

    pub total-put_new :
        (k : Text) (v : V) (m : Map V) → find k m ≡ none → total f (put k v m) ≡ f k v + total f m
    total-put_new k v m e = rw (put_new k v m e) (total-insert k v m)

    pub total-put_old :
        (k : Text) (v o : V) (m : Map V)
        → find k m ≡ some o
        → total f (put k v m) + f k o ≡ f k v + total f m
    total-put_old k v o m e = rw (put_old k v o m e) (total-replace k v o m e)

    pub total-erase :
        (k : Text) (o : V) (m : Map V) → find k m ≡ some o → total f (erase k m) + f k o ≡ total f m
    unfolding total erase find
    total-erase k o [] h = absurd (no_some h)
    total-erase k o ((k', v') ∷ m) h = elim (Bool-cases (same_text k k')) [
      | inl e ↦
          let old = some_eq (sym (find-head k k' v' m e) ∙ h) in
          let b : f k' v' ≡ f k o =
            ap (λ t. f t v') (sym (same_text-eq k k' e)) ∙ ap (λ x. f k x) old in
          rw e (omega arith)
      | inr n ↦ let ih = total-erase k o m (sym (find-tail k k' v' m n) ∙ h) in rw n (omega arith)
    ]

  pub total-agree :
      (f g : Text → V → ℕ) (m : Map V)
      → ((k : Text) → (v : V) → f k v ≡ g k v)
      → total f m ≡ total g m
  unfolding total
  total-agree f g [] h = refl
  total-agree f g ((k, v) ∷ m) h = rw (h k v, total-agree f g m h)
