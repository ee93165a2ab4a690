-- ===== src/Maps.antt =====
-- Maps from texts, as lists of pairs: those of engine/tsm/write.h. A `std::map` is walked in the order of its
-- keys, so a new key is put before the first larger one; the unordered maps are only searched.
pub mod Laws
use dtime_db.Prelude.{
  ℕ, zero, suc, ◌+◌, ◌≡◌, refl, sym, ap, ◌∙◌, Bool, true, false, ◌&&◌, Option, none, some, List, [],
  ◌∷◌, ltb, ◌==◌, if◌then◌else◌, Bool-cases, inl, inr, arith, ==_iff,
}
use dtime_db.Token.{Text}

abbrev pub Map {ℓ} : Type ℓ → Type ℓ
Map V = List (Text × V)

unfoldable pub same_text : Text → Text → Bool
same_text [] [] = true
same_text [] (d ∷ t) = false
same_text (c ∷ s) [] = false
same_text (c ∷ s) (d ∷ t) = (c == d) && same_text s t

-- `std::less<std::string>`: bytes compare as unsigned numbers.
unfoldable pub less_text : Text → Text → Bool
less_text s [] = false
less_text [] (d ∷ t) = true
less_text (c ∷ s) (d ∷ t) =
    let rest = less_text s t in if ltb c d then true else if c == d then rest else false

pub same_text-eq : (s t : Text) → same_text s t ≡ true → s ≡ t
unfolding same_text
same_text-eq [] [] h = refl
same_text-eq [] (d ∷ t) h = cc
same_text-eq (c ∷ s) [] h = cc
same_text-eq (c ∷ s) (d ∷ t) h = elim (Bool-cases (c == d)) [
  | inl e ↦
      let rest : same_text s t ≡ true = sym (ap (λ b. b && same_text s t) e) ∙ h in
      ap (λ x. x ∷ s) ((==_iff c d).0 e) ∙ ap (λ l. d ∷ l) (same_text-eq s t rest)
  | inr n ↦ absurd (bad (sym (ap (λ b. b && same_text s t) n) ∙ h))
]
  where
    bad : false ≡ true → ⊥
    bad e = cc

pub same_text_refl : (s : Text) → same_text s s ≡ true
unfolding same_text
same_text_refl [] = refl
same_text_refl (c ∷ s) = rw ((==_iff c c).1 refl) (same_text_refl s)

module _ {ℓ} {V : Type ℓ} where
  unfoldable pub find : Text → Map V → Option V
  find k [] = none
  find k ((k', v) ∷ m) = let rest = find k m in if same_text k k' then some v else rest

  unfoldable pub replace : Text → V → Map V → Map V
  replace k v [] = []
  replace k v ((k', v') ∷ m) =
      let rest = replace k v m in if same_text k k' then (k', v) ∷ m else (k', v') ∷ rest

  unfoldable pub insert : Text → V → Map V → Map V
  insert k v [] = (k, v) ∷ []
  insert k v ((k', v') ∷ m) =
      let rest = insert k v m in if less_text k k' then (k, v) ∷ (k', v') ∷ m else (k', v') ∷ rest

  -- `m[k] = v`.
  unfoldable pub put : Text → V → Map V → Map V
  unfolding replace insert
  put k v m = elim (find k m) [ none ↦ insert k v m | some _ ↦ replace k v m ]

  -- `m.erase(k)`.
  unfoldable pub erase : Text → Map V → Map V
  erase k [] = []
  erase k ((k', v) ∷ m) = let rest = erase k m in if same_text k k' then m else (k', v) ∷ rest

  -- No key stands twice.
  abbrev pub IsUnique : Map V → Type ℓ
  IsUnique [] = Unit
  IsUnique ((k, v) ∷ m) = (find k m ≡ none) × IsUnique m

  unfoldable pub total : (Text → V → ℕ) → Map V → ℕ
  total f [] = 0
  total f ((k, v) ∷ m) = f k v + total f m
