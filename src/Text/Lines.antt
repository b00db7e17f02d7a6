-- ===== src/Text/Lines.antt =====
-- Texts without line feeds, and how many a text has.
use rfw.Base.{
  Bool, [], all, arith, if◌then◌else◌, inl, list_eq, nat_eq, not, refl, true, ℕ, ◌++◌, ◌+◌, ◌==◌,
  ◌∷◌, ◌≡◌,
}
use rfw.Text.{Lacks, Text}
use rfw.Text.Decimal.{show}
use rfw.Text.Decimal.Laws.{IsDigits-Lacks, show-IsDigits}

-- Whether a text is free of line feeds.
abbrev pub one_line : Text → Bool
one_line = all (λ c. not (c == 10))

pub one_line-Lacks : (s : Text) → one_line s ≡ true → Lacks 10 s
one_line-Lacks [] h = tt
one_line-Lacks (c ∷ s) h = (ground arith, one_line-Lacks s (ground arith))

pub show-Lacks : (n : ℕ) → Lacks 10 (show n)
show-Lacks n = IsDigits-Lacks 10 (show n) (inl (omega arith)) (show-IsDigits n)

-- How many line feeds a text has.
unfoldable pub newlines : Text → ℕ
newlines [] = 0
newlines (c ∷ s) = (if c == 10 then 1 else 0) + newlines s

pub newlines-append : (s t : Text) → newlines (s ++ t) ≡ newlines s + newlines t
unfolding newlines
newlines-append [] t = omega arith
newlines-append (c ∷ s) t = omega (arith, newlines-append s t)

pub newlines_none : (s : Text) → Lacks 10 s → newlines s ≡ 0
unfolding newlines
newlines_none [] h = refl
newlines_none (c ∷ s) h = ground (arith, newlines_none s h.1)
