-- ===== src/Base/Fallible.antt =====
-- `Result<A, E>` with `?` as `>>=`, and `collect::<Result<Vec<_>, _>>()`.
use mathlib.Core.Path.{◌≡◌, refl}
use mathlib.Core.Logic.{◌⊎◌, inl, inr}
use mathlib.Core.Bool.{Bool, true, false}
use mathlib.Core.List.{List, [], ◌∷◌}

pub data Result {ℓ κ} (E : Type ℓ) (A : Type κ) : Type (ℓ ⊔ κ) where
  ok : A → Result E A
  err : E → Result E A

module _ {ℓ} {E : Type ℓ} where
  infixl 5 ◌>>=◌ ◌>>◌
  abbrev pub ◌>>=◌ {κ μ} : {S : Type κ} {T : Type μ} → Result E S → (S → Result E T) → Result E T
  ok x >>= k = k x
  err e >>= k = err e

  abbrev pub ◌>>◌ {κ} : {T : Type κ} → Result E (Unit {0}) → Result E T → Result E T
  r >> next = r >>= λ _. next

  -- `if test { bail!(e) }`.
  abbrev pub bail_if : Bool → E → Result E (Unit {0})
  bail_if true e = err e
  bail_if false e = ok tt

  abbrev pub map_err {κ μ} : {F : Type μ} {A : Type κ} → (E → F) → Result E A → Result F A
  map_err f (ok a) = ok a
  map_err f (err e) = err (f e)

  abbrev pub traverse {κ μ} :
      {A : Type κ} {B : Type μ} → (A → Result E B) → List A → Result E (List B)
  traverse f [] = ok []
  traverse f (x ∷ xs) = f x >>= λ y. traverse f xs >>= λ ys. ok (y ∷ ys)

  pub Result-cases {κ} :
      {A : Type κ} (r : Result E A) → ((a : A) × (r ≡ ok a)) ⊎ ((e : E) × (r ≡ err e))
  Result-cases (ok a) = inl (a, refl)
  Result-cases (err e) = inr (e, refl)

  -- Inversion of a successful bind.
  pub >>=-eq-ok {κ μ} :
      {S : Type κ} {T : Type μ} (r : Result E S) (k : S → Result E T) {y : T}
      → (r >>= k) ≡ ok y
      → (x : S) × (r ≡ ok x) × (k x ≡ ok y)
  >>=-eq-ok (ok x) k h = (x, refl, h)
  >>=-eq-ok (err e) k h = cc

  pub map_err-eq-ok {κ μ} :
      {F : Type μ} {A : Type κ} (f : E → F) (r : Result E A) {a : A} → map_err f r ≡ ok a → r ≡ ok a
  map_err-eq-ok f (ok a) h = cc
  map_err-eq-ok f (err e) h = cc

  pub ok-injective {κ} : {A : Type κ} {a b : A} → ◌≡◌ {A = Result E A} (ok a) (ok b) → a ≡ b
  ok-injective h = cc
