-- ===== src/Text/Laws.antt =====
-- Cutting a text at a character that its parts lack.
use rfw.Base.{
  Bool-cases, Option-cases, [], arith, inl, inr, list_eq, nat_eq, none, refl, some, ℕ, ◌++◌, ◌==◌,
  ◌∷◌, ◌≡◌,
}
use rfw.Text.{Lacks, Text, rsplit_once, split, split_once}

module _ (c : ℕ) where
  pub split_once-append : (a b : Text) → Lacks c a → split_once c (a ++ c ∷ b) ≡ some (a, b)
  unfolding split_once
  split_once-append [] b h = ground arith
  split_once-append (x ∷ a) b h = ground (arith, split_once-append a b h.1)

  pub split_once-none : (a : Text) → Lacks c a → split_once c a ≡ none
  unfolding split_once
  split_once-none [] h = refl
  split_once-none (x ∷ a) h = ground (arith, split_once-none a h.1)

  pub rsplit_once-none : (a : Text) → Lacks c a → rsplit_once c a ≡ none
  unfolding rsplit_once
  rsplit_once-none [] h = refl
  rsplit_once-none (x ∷ a) h = ground (arith, rsplit_once-none a h.1)

  pub rsplit_once-append : (a b : Text) → Lacks c b → rsplit_once c (a ++ c ∷ b) ≡ some (a, b)
  unfolding rsplit_once
  rsplit_once-append [] b h = ground (arith, rsplit_once-none b h)
  rsplit_once-append (x ∷ a) b h = ground (arith, rsplit_once-append a b h)

  pub split-append : (a b : Text) → Lacks c a → split c (a ++ c ∷ b) ≡ a ∷ split c b
  unfolding split
  split-append [] b h = ground arith
  split-append (x ∷ a) b h = ground (arith, split-append a b h.1)

  pub split_whole : (a : Text) → Lacks c a → split c a ≡ a ∷ []
  unfolding split
  split_whole [] h = refl
  split_whole (x ∷ a) h = ground (arith, split_whole a h.1)

  rsplit_once-Lacks : (s : Text) → rsplit_once c s ≡ none → Lacks c s
  unfolding rsplit_once
  rsplit_once-Lacks [] h = tt
  rsplit_once-Lacks (x ∷ s) h = elim (Option-cases (rsplit_once c s)) [
    | inl e ↦ ground (arith, rsplit_once-Lacks s e)
    | inr (p, e) ↦ ground arith
  ]

  -- The text is its two parts again.
  pub split_once_sound :
      (s a b : Text) → split_once c s ≡ some (a, b) → (s ≡ a ++ c ∷ b) × Lacks c a
  unfolding split_once
  split_once_sound [] a b h = ground arith
  split_once_sound (x ∷ s) a b h = elim (Bool-cases (x == c)) [
    | inl t ↦ ground arith
    | inr f ↦ elim (Option-cases (split_once c s)) [
      | inl e ↦ ground arith
      | inr ((p, q), e) ↦ ground (arith, split_once_sound s p q e)
    ]
  ]

  pub rsplit_once_sound :
      (s a b : Text) → rsplit_once c s ≡ some (a, b) → (s ≡ a ++ c ∷ b) × Lacks c b
  unfolding rsplit_once
  rsplit_once_sound [] a b h = ground arith
  rsplit_once_sound (x ∷ s) a b h = elim (Option-cases (rsplit_once c s)) [
    | inl e ↦ elim (Bool-cases (x == c)) [
      | inl t ↦ ground (arith, rsplit_once-Lacks s e)
      | inr f ↦ ground arith
    ]
    | inr ((p, q), e) ↦ ground (arith, rsplit_once_sound s p q e)
  ]
