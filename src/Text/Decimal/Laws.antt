-- ===== src/Text/Decimal/Laws.antt =====
-- Reading back a printed number, and the characters that it is printed with.
use mathlib.Core.List.{concat-ne-nil}
use rfw.Base.{
  All, All-append, Bool-cases, [], arith, inl, inr, list_eq, ltb, nat_eq, ok, refl, suc, zero, ℕ,
  ◌%◌, ◌*◌, ◌++◌, ◌+◌, ◌-◌, ◌/◌, ◌<◌, ◌==◌, ◌>>=◌, ◌∷◌, ◌≡◌, ◌≢◌, ◌≤◌, ◌⊎◌,
}
use rfw.Text.{Lacks, Text}
use rfw.Text.Decimal.{parse_digits, parse_uint, show, show_fuel}

-- The rounds of the reader, put together.
parse_digits-append :
    (most : ℕ) (s : Text) (c n : ℕ)
    → parse_digits most (s ++ c ∷ []) n
      ≡ (parse_digits most s n >>= λ m. parse_digits most (c ∷ []) m)
unfolding parse_digits
parse_digits-append most [] c n = refl
parse_digits-append most (x ∷ s) c n =
    ground (arith, parse_digits-append most s c (n * 10 + (x - b'0')))

parse_digits-show_fuel :
    (most f n : ℕ) → n < f → n ≤ most → parse_digits most (show_fuel f n) 0 ≡ ok n
unfolding show_fuel parse_digits
parse_digits-show_fuel most zero n h k = absurd (omega arith)
parse_digits-show_fuel most (suc f) n h k = elim (Bool-cases (ltb n 10)) [
  | inl t ↦ ground arith
  | inr e ↦
      rw (e, parse_digits-append most (show_fuel f (n / 10)) (b'0' + n % 10) 0)
        (ground (arith, parse_digits-show_fuel most f (n / 10)))
]

abbrev pub IsDigits : Text → Type 0
IsDigits = All (λ c. (b'0' ≤ c) × (c ≤ b'9'))

show_fuel-IsDigits : (f n : ℕ) → IsDigits (show_fuel f n)
unfolding show_fuel
show_fuel-IsDigits zero n = tt
show_fuel-IsDigits (suc f) n = elim (Bool-cases (ltb n 10)) [
  | inl t ↦ rw t (ground arith)
  | inr e ↦
      rw e (All-append _ (show_fuel f (n / 10)) _ (show_fuel-IsDigits f (n / 10)) (ground arith))
]

pub show-IsDigits : (n : ℕ) → IsDigits (show n)
unfolding show
show-IsDigits n = show_fuel-IsDigits (suc n) n

pub IsDigits-Lacks : (c : ℕ) (s : Text) → c < b'0' ⊎ b'9' < c → IsDigits s → Lacks c s
IsDigits-Lacks c [] h d = tt
IsDigits-Lacks c (x ∷ s) h d = (omega arith, IsDigits-Lacks c s h d.1)

show_fuel-ne-nil : (f n : ℕ) → show_fuel (suc f) n ≢ []
unfolding show_fuel
show_fuel-ne-nil f n h = elim (Bool-cases (ltb n 10)) [
  | inl t ↦ ground arith
  | inr e ↦ concat-ne-nil _ (show_fuel f (n / 10)) (rw e at h)
]

pub show-ne-nil : (n : ℕ) → show n ≢ []
unfolding show
show-ne-nil n = show_fuel-ne-nil n n

-- A text of digits has no sign in front, so it is read digit by digit.
parse_uint_unsigned :
    (most : ℕ) (s : Text) → s ≢ [] → IsDigits s → parse_uint most s ≡ parse_digits most s 0
unfolding parse_uint
parse_uint_unsigned most [] h d = absurd (h refl)
parse_uint_unsigned most (c ∷ []) h d = refl
parse_uint_unsigned most (c ∷ x ∷ s) h d = ground arith

-- A number that fits is read back from its print.
pub parse_uint-show : (most n : ℕ) → n ≤ most → parse_uint most (show n) ≡ ok n
parse_uint-show most n h =
    rw (parse_uint_unsigned most (show n) (show-ne-nil n) (show-IsDigits n))
      (unfold show in parse_digits-show_fuel most (suc n) n (omega arith) h)

parse_digits-le :
    (most : ℕ) (s : Text) (n : ℕ) {r : ℕ} → n ≤ most → parse_digits most s n ≡ ok r → r ≤ most
unfolding parse_digits
parse_digits-le most [] n h e = ground arith
parse_digits-le most (c ∷ s) n {r} h e =
    ground (arith, parse_digits-le most s (n * 10 + (c - b'0')) {r = r})

-- What is read fits its type.
pub parse_uint-le : (most : ℕ) (s : Text) {n : ℕ} → parse_uint most s ≡ ok n → n ≤ most
unfolding parse_uint
parse_uint-le most [] e = ground arith
parse_uint-le most (c ∷ []) e = parse_digits-le most (c ∷ []) 0 (omega arith) e
parse_uint-le most (c ∷ d ∷ s) e = elim (Bool-cases (c == b'+')) [
  | inl t ↦ parse_digits-le most (d ∷ s) 0 (omega arith) (rw t at e)
  | inr f ↦ parse_digits-le most (c ∷ d ∷ s) 0 (omega arith) (rw f at e)
]
