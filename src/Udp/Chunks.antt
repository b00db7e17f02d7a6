-- ===== src/Udp/Chunks.antt =====
-- `slice::chunks` on the bytes of a datagram.

use native.Mathlib.Nat.{add-div_right, div-eq_of_lt}
use rfw.Base.{
  Bool-cases, List, [], ap, append-nil, arith, drop, inl, inr, leb, length, length-drop,
  length-take, ltb, ltb→le, ltb→lt, refl, suc, sym, take, take-append-drop, zero, ℕ, ◌*◌, ◌++◌, ◌+◌,
  ◌-◌, ◌/◌, ◌<◌, ◌∙◌, ◌∷◌, ◌≡◌, ◌≤◌,
}

abbrev pub Bytes : Type 0
Bytes = List ℕ

onto_first : ℕ → List Bytes → List Bytes
onto_first x [] = (x ∷ []) ∷ []
onto_first x (c ∷ cs) = (x ∷ c) ∷ cs

-- The pieces of a list whose first piece has room for `room` bytes more.
cut : ℕ → ℕ → Bytes → List Bytes
unfolding onto_first
cut n room [] = [] ∷ []
cut n zero (x ∷ xs) = [] ∷ onto_first x (cut n (n - 1) xs)
cut n (suc room) (x ∷ xs) = onto_first x (cut n room xs)

-- Pieces of `n` bytes; the last may be shorter.
unfoldable pub chunks : ℕ → Bytes → List Bytes
unfolding cut
chunks n [] = []
chunks n (x ∷ xs) = cut n n (x ∷ xs)

cut_lem : (n room : ℕ) (xs : Bytes) → 0 < n → cut n room xs ≡ take room xs ∷ chunks n (drop room xs)
unfolding cut chunks
cut_lem n zero [] h = refl
cut_lem n (suc room) [] h = refl
cut_lem zero zero (x ∷ xs) h = absurd (omega arith)
cut_lem (suc n) zero (x ∷ xs) h = let e : suc n - 1 ≡ n = omega arith in rw e
cut_lem n (suc room) (x ∷ xs) h = ap (onto_first x) (cut_lem n room xs h)

-- The first piece, and the pieces of what is left.
pub chunks-cons :
    (n x : ℕ) (xs : Bytes)
    → 0 < n
    → chunks n (x ∷ xs) ≡ take n (x ∷ xs) ∷ chunks n (drop n (x ∷ xs))
unfolding chunks
chunks-cons n x xs h = cut_lem n n (x ∷ xs) h

abbrev pub concat : List Bytes → Bytes
concat [] = []
concat (c ∷ cs) = c ++ concat cs

take_all : (n : ℕ) (xs : Bytes) → length xs ≤ n → take n xs ≡ xs
take_all zero [] h = refl
take_all zero (x ∷ xs) h = absurd (omega arith)
take_all (suc n) [] h = refl
take_all (suc n) (x ∷ xs) h = ap (λ l. x ∷ l) (take_all n xs (omega arith))

drop_all : (n : ℕ) (xs : Bytes) → length xs ≤ n → drop n xs ≡ []
drop_all zero [] h = refl
drop_all zero (x ∷ xs) h = absurd (omega arith)
drop_all (suc n) [] h = refl
drop_all (suc n) (x ∷ xs) h = drop_all n xs (omega arith)

take-append : (n : ℕ) (xs ys : Bytes) → n ≤ length xs → take n (xs ++ ys) ≡ take n xs
take-append zero xs ys h = refl
take-append (suc n) [] ys h = absurd (omega arith)
take-append (suc n) (x ∷ xs) ys h = ap (λ l. x ∷ l) (take-append n xs ys (omega arith))

drop-append : (n : ℕ) (xs ys : Bytes) → n ≤ length xs → drop n (xs ++ ys) ≡ drop n xs ++ ys
drop-append zero xs ys h = refl
drop-append (suc n) [] ys h = absurd (omega arith)
drop-append (suc n) (x ∷ xs) ys h = drop-append n xs ys (omega arith)

-- A list of at most `n` bytes is one piece.
pub chunks_short : (n x : ℕ) (xs : Bytes) → length (x ∷ xs) ≤ n → chunks n (x ∷ xs) ≡ (x ∷ xs) ∷ []
unfolding chunks
chunks_short n x xs h =
    chunks-cons n x xs (omega arith) ∙ rw (take_all n (x ∷ xs) h, drop_all n (x ∷ xs) h, chunks)

-- Whole pieces can be cut off the front.
pub chunks-append :
    (m n : ℕ) (xs ys : Bytes)
    → 0 < n
    → length xs ≡ m * n
    → chunks n (xs ++ ys) ≡ chunks n xs ++ chunks n ys
unfolding chunks
chunks-append zero n [] ys pos e = refl
chunks-append zero n (x ∷ xs) ys pos e = absurd (grind arith)
chunks-append (suc m) n [] ys pos e = absurd (grind arith)
chunks-append (suc m) n (x ∷ xs) ys pos e =
    let le : n ≤ length (x ∷ xs) = grind arith in
    let rest : length (drop n (x ∷ xs)) ≡ m * n = grind (arith, length-drop n (x ∷ xs)) in
    chunks-cons n x (xs ++ ys) pos
    ∙ rw (
      take-append n (x ∷ xs) ys le,
      drop-append n (x ∷ xs) ys le,
      chunks-append m n (drop n (x ∷ xs)) ys pos rest,
      chunks-cons n x xs pos,
    )

concat-chunks_within : (k n : ℕ) (xs : Bytes) → 0 < n → length xs ≤ k → concat (chunks n xs) ≡ xs
unfolding chunks
concat-chunks_within k n [] pos h = refl
concat-chunks_within zero n (x ∷ xs) pos h = absurd (omega arith)
concat-chunks_within (suc k) n (x ∷ xs) pos h = rw (chunks-cons n x xs pos) (
    rw (concat-chunks_within k n (drop n (x ∷ xs)) pos (omega (arith, length-drop n (x ∷ xs))))
      (take-append-drop n (x ∷ xs)))

-- The pieces are the list.
pub concat-chunks : (n : ℕ) (xs : Bytes) → 0 < n → concat (chunks n xs) ≡ xs
concat-chunks n xs pos = concat-chunks_within (length xs) n xs pos (omega arith)

-- A list of `suc l` elements has one piece more than what is left of it.
ceil_step : (n l : ℕ) → 0 < n → suc ((suc l - n + n - 1) / n) ≡ (suc l + n - 1) / n
ceil_step n l pos =
    let whole : (suc l + n - 1) / n ≡ l / n + 1 =
      let e : suc l + n - 1 ≡ l + n = omega arith in rw e (add-div_right l pos) in
    elim (Bool-cases (ltb l n)) [
      | inl t ↦
          let lt = ltb→lt l n t in
          let e : suc l - n + n - 1 ≡ n - 1 = omega arith in
          rw e (
            omega (
              arith,
              whole,
              div-eq_of_lt {n = n - 1} {m = n} (omega arith),
              div-eq_of_lt {n = l} {m = n} lt,
            ))
      | inr f ↦
          let le = ltb→le l n f in
          let e : suc l - n + n - 1 ≡ l = omega arith in rw e (omega (arith, whole))
    ]

length-chunks_within :
    (k n : ℕ) (xs : Bytes) → 0 < n → length xs ≤ k → length (chunks n xs) ≡ (length xs + n - 1) / n
unfolding chunks
length-chunks_within k n [] pos h = sym (div-eq_of_lt (omega arith))
length-chunks_within zero n (x ∷ xs) pos h = absurd (omega arith)
length-chunks_within (suc k) n (x ∷ xs) pos h =
    let rest =
      length-chunks_within k n (drop n (x ∷ xs)) pos (omega (arith, length-drop n (x ∷ xs))) in
    ap length (chunks-cons n x xs pos)
    ∙ ap suc rest
    ∙ ap (λ l. suc ((l + n - 1) / n)) (length-drop n (x ∷ xs))
    ∙ ceil_step n (length xs) pos

pub length-chunks : (n : ℕ) (xs : Bytes) → 0 < n → length (chunks n xs) ≡ (length xs + n - 1) / n
length-chunks n xs pos = length-chunks_within (length xs) n xs pos (omega arith)

-- A list may be cut at a multiple of the piece's size, also behind its end.
pub chunks-split :
    (m n step : ℕ) (xs : Bytes)
    → 0 < n
    → step ≡ m * n
    → chunks n xs ≡ chunks n (take step xs) ++ chunks n (drop step xs)
unfolding chunks
chunks-split m n step xs pos e = elim (Bool-cases (leb step (length xs))) [
  | inl t ↦
      let le : step ≤ length xs = ground (arith, t) in
      ap (chunks n) (sym (take-append-drop step xs))
      ∙ chunks-append m n (take step xs) (drop step xs) pos (omega (arith, length-take step xs))
  | inr f ↦
      let lt : length xs < step = ground (arith, f) in
      rw (take_all step xs (omega arith), drop_all step xs (omega arith), append-nil (chunks n xs))
]

pub take-add : (n m : ℕ) (xs : Bytes) → take (n + m) xs ≡ take n xs ++ take m (drop n xs)
take-add zero m xs = let e : 0 + m ≡ m = omega arith in rw e
take-add (suc n) zero [] = let e : suc n + 0 ≡ suc n = omega arith in rw e
take-add (suc n) (suc m) [] = let e : suc n + suc m ≡ suc (n + suc m) = omega arith in rw e
take-add (suc n) m (x ∷ xs) =
    let e : suc n + m ≡ suc (n + m) = omega arith in rw e (ap (λ l. x ∷ l) (take-add n m xs))
