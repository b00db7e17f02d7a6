-- ===== src/Notify/Plain/Clean.antt =====
-- The characters that `plain` and `mono` of `src/notify.rs` let through.

use mathlib.Core.List.{reverse, reverse_aux}
use rfw.Text.{Lacks, Text, is_whitespace, trim, trim_start}
use rfw.Base.{
  All, All-append, Bool, Bool-cases, [], arith, false, inl, inr, leb, length, length-take, max,
  refl, suc, take, true, zero, ℕ, ◌++◌, ◌+◌, ◌-◌, ◌<◌, ◌∷◌, ◌≡◌, ◌≢◌, ◌≤◌,
}
use rfw.Notify.Plain.{
  flatten, is_control, max_detail_chars, mono, plain, quote_backticks, space, strip_control,
  truncate_chars,
}

-- No control character, so one line.
abbrev pub IsLine : Text → Type 0
IsLine = All (λ c. is_control c ≡ false)

flatten-IsLine : (b : Bool) (s : Text) → IsLine (flatten b s)
unfolding flatten
flatten-IsLine b [] = tt
flatten-IsLine b (c ∷ s) = ground (arith, flatten-IsLine true s, flatten-IsLine false s)

flatten-Lacks : (x : ℕ) (b : Bool) (s : Text) → x ≢ space → Lacks x s → Lacks x (flatten b s)
unfolding flatten
flatten-Lacks x b [] n h = tt
flatten-Lacks x b (c ∷ s) n h = ground (arith, flatten-Lacks x true s n, flatten-Lacks x false s n)

module _ (P : ℕ → Type 0) where
  All-reverse_aux : (xs ys : Text) → All P xs → All P ys → All P (reverse_aux xs ys)
  All-reverse_aux [] ys h k = k
  All-reverse_aux (x ∷ xs) ys h k = All-reverse_aux xs (x ∷ ys) h.1 (h.0, k)

  All-trim_start : (s : Text) → All P s → All P (trim_start s)
  unfolding trim_start
  All-trim_start [] h = tt
  All-trim_start (c ∷ s) h = elim (Bool-cases (is_whitespace c)) [
    | inl t ↦ rw t (All-trim_start s h.1)
    | inr f ↦ rw f h
  ]

  All-trim : (s : Text) → All P s → All P (trim s)
  unfolding trim
  All-trim s h =
      All-reverse_aux (trim_start (reverse (trim_start s))) []
        (All-trim_start (reverse (trim_start s))
          (All-reverse_aux (trim_start s) [] (All-trim_start s h) tt))
        tt

  All-take : (n : ℕ) (s : Text) → All P s → All P (take n s)
  All-take zero s h = tt
  All-take (suc n) [] h = tt
  All-take (suc n) (c ∷ s) h = (h.0, All-take n s h.1)

pub length-push : (xs : Text) (c : ℕ) → length (xs ++ c ∷ []) ≡ length xs + 1
length-push [] c = refl
length-push (x ∷ xs) c = omega (arith, length-push xs c)

strip_control-IsLine : (s : Text) → IsLine (strip_control s)
unfolding strip_control
strip_control-IsLine s =
    All-trim (λ c. is_control c ≡ false) (flatten false s) (flatten-IsLine false s)

strip_control-Lacks : (x : ℕ) (s : Text) → x ≢ space → Lacks x s → Lacks x (strip_control s)
unfolding strip_control
strip_control-Lacks x s n h = All-trim (λ c. c ≢ x) (flatten false s) (flatten-Lacks x false s n h)

pub length-truncate_chars : (s : Text) (max : ℕ) → 0 < max → length (truncate_chars s max) ≤ max
unfolding truncate_chars
length-truncate_chars s max pos = elim (Bool-cases (leb (length s) max)) [
  | inl t ↦ rw t (ground (arith, t))
  | inr f ↦ rw f (omega (arith, length-push (take (max - 1) s) 0x2026, length-take (max - 1) s))
]

truncate_chars-IsLine : (s : Text) (max : ℕ) → IsLine s → IsLine (truncate_chars s max)
unfolding truncate_chars
truncate_chars-IsLine s max h = elim (Bool-cases (leb (length s) max)) [
  | inl t ↦ rw t h
  | inr f ↦ rw f (
      All-append (λ c. is_control c ≡ false) (take (max - 1) s) (0x2026 ∷ [])
        (All-take (λ c. is_control c ≡ false) (max - 1) s h) (refl, tt))
]

truncate_chars-Lacks :
    (x : ℕ) (s : Text) (max : ℕ) → 0x2026 ≢ x → Lacks x s → Lacks x (truncate_chars s max)
unfolding truncate_chars
truncate_chars-Lacks x s max n h = elim (Bool-cases (leb (length s) max)) [
  | inl t ↦ rw t h
  | inr f ↦ rw f (
      All-append (λ c. c ≢ x) (take (max - 1) s) (0x2026 ∷ []) (All-take (λ c. c ≢ x) (max - 1) s h)
        (n, tt))
]

-- An error text of whatever content becomes one line of at most 300 characters.
pub plain_lem : (s : Text) → IsLine (plain s) × (length (plain s) ≤ max_detail_chars)
unfolding plain
plain_lem s = (
  truncate_chars-IsLine (strip_control s) max_detail_chars (strip_control-IsLine s),
  length-truncate_chars (strip_control s) max_detail_chars (omega arith),
)

quote_backticks-Lacks : (s : Text) → Lacks b'`' (quote_backticks s)
quote_backticks-Lacks [] = tt
quote_backticks-Lacks (c ∷ s) = (ground arith, quote_backticks-Lacks s)

-- A value of whatever content becomes one line between backticks and holds none, so that it cannot
-- end its own monospace span.
pub mono_lem :
    (s : Text)
    → (inner : Text) × (mono s ≡ b'`' ∷ (inner ++ b'`' ∷ [])) × Lacks b'`' inner × IsLine inner
unfolding mono
mono_lem s =
    let short = truncate_chars (quote_backticks s) max_detail_chars in
    (
      strip_control short,
      refl,
      strip_control-Lacks b'`' short (omega arith) (
          truncate_chars-Lacks b'`' (quote_backticks s) max_detail_chars (omega arith)
            (quote_backticks-Lacks s)),
      strip_control-IsLine short,
    )
