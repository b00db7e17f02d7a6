-- ===== src/Metrics/Escape/Reading.antt =====
-- A reader of JSON strings, to which an escaped text is its text again.

use rfw.Base.{
  Bool-cases, Option, [], ap, append_assoc, arith, if◌then◌else◌, inl, inr, leb, list_eq, ltb,
  nat_beq_iff, nat_eq, none, refl, some, subst, suc, sym, true, zero, ℕ, ◌%◌, ◌&&◌, ◌*◌, ◌++◌, ◌+◌,
  ◌-◌, ◌/◌, ◌<◌, ◌==◌, ◌||◌, ◌∙◌, ◌∷◌, ◌≡◌, ◌⊎◌,
}
use rfw.Text.{Text, is_ascii_digit}
use rfw.Metrics.Escape.{escape, escape_char, hex4, hex_digit}
use rfw.Notify.Plain.{is_control}

-- Within a string, behind a backslash, or with `left` more hexadecimal digits behind the next one.
pub data Mode : Type 0 where
  within escaped : Mode
  unicode : ℕ → ℕ → Mode

data Step : Type 0 where
  closed refused : Step
  emit : ℕ → Step
  to_mode : Mode → Step

unfoldable digit_value : ℕ → Option ℕ
digit_value c =
    if is_ascii_digit c
    then some (c - b'0')
    else if leb b'a' c && leb c b'f'
    then some (c - b'a' + 10)
    else if leb b'A' c && leb c b'F'
    then some (c - b'A' + 10)
    else none

unicode_step : ℕ → ℕ → Option ℕ → Step
unicode_step left value none = refused
unicode_step zero value (some d) = emit (value * 16 + d)
unicode_step (suc left) value (some d) = to_mode (unicode left (value * 16 + d))

step : Mode → ℕ → Step
unfolding digit_value unicode_step
step within c =
    if c == b'"'
    then closed
    else if c == b'\\'
    then to_mode escaped
    else if ltb c 32
    then refused
    else emit c
step escaped c =
    if c == b'"' || c == b'\\' || c == b'/'
    then emit c
    else if c == b'n'
    then emit 10
    else if c == b'r'
    then emit 13
    else if c == b't'
    then emit 9
    else if c == b'b'
    then emit 8
    else if c == b'f'
    then emit 12
    else if c == b'u'
    then to_mode (unicode 3 0)
    else refused
step (unicode left value) c = unicode_step left value (digit_value c)

push : ℕ → Option (Text × Text) → Option (Text × Text)
push c none = none
push c (some (s, rest)) = some (c ∷ s, rest)

-- A string of JSON behind its opening quotation mark: the text, and what follows the closing one. A
-- control character below 32 may not stand in it bare.
pub read_string : Mode → Text → Option (Text × Text)
unfolding step push
read_string m [] = none
read_string m (c ∷ s) = elim (step m c) [
  | closed ↦ some ([], s)
  | refused ↦ none
  | emit x ↦ push x (read_string within s)
  | to_mode m' ↦ read_string m' s
]

digit_value-hex_digit : (d : ℕ) → d < 16 → digit_value (hex_digit d) ≡ some d
unfolding digit_value hex_digit
digit_value-hex_digit d h = ground arith

module _ (value d : ℕ) (s : Text) (h : d < 16) where
  read_string-digit :
      (left : ℕ)
      → read_string (unicode (suc left) value) (hex_digit d ∷ s)
        ≡ read_string (unicode left (value * 16 + d)) s
  unfolding read_string step
  read_string-digit left = rw (read_string, digit_value-hex_digit d h) refl

  read_string-last_digit :
      read_string (unicode 0 value) (hex_digit d ∷ s) ≡ push (value * 16 + d) (read_string within s)
  unfolding read_string step
  read_string-last_digit = rw (read_string, digit_value-hex_digit d h) refl

read_string-hex4 :
    (n : ℕ) (s : Text)
    → n < 65536
    → read_string (unicode 3 0) (hex4 n ++ s) ≡ push n (read_string within s)
read_string-hex4 n s h =
    read_string-digit _ (n / 4096 % 16) _ (omega arith) 2
    ∙ read_string-digit _ (n / 256 % 16) _ (omega arith) 1
    ∙ read_string-digit _ (n / 16 % 16) _ (omega arith) 0
    ∙ read_string-last_digit _ (n % 16) s (omega arith)
    ∙ ap (λ x. push x (read_string within s)) (omega arith)

read_string-emit :
    (m : Mode) (c x : ℕ) (s : Text)
    → step m c ≡ emit x
    → read_string m (c ∷ s) ≡ push x (read_string within s)
unfolding read_string
read_string-emit m c x s e = rw (read_string, e) refl

-- A character goes behind a backslash, or as its number if it is a control character, or as it is.
abbrev Escaped : ℕ → Type 0
Escaped c =
    ((d : ℕ) × (escape_char c ≡ b'\\' ∷ d ∷ []) × (step escaped d ≡ emit c))
    ⊎ ((c < 160) × (escape_char c ≡ b'\\' ∷ b'u' ∷ hex4 c))
    ⊎ ((escape_char c ≡ c ∷ []) × (step within c ≡ emit c))

special :
    (k d c : ℕ)
    → (c == k) ≡ true
    → escape_char k ≡ b'\\' ∷ d ∷ []
    → step escaped d ≡ emit k
    → Escaped c
special k d c t e goes = subst Escaped (sym ((nat_beq_iff c k).0 t)) (inl (d, e, goes))

escape_char-Escaped : (c : ℕ) → Escaped c
unfolding escape_char step
escape_char-Escaped c = elim (Bool-cases (c == b'\\')) [
  | inl t ↦ special b'\\' b'\\' c t refl refl
  | inr f0 ↦ elim (Bool-cases (c == b'"')) [
    | inl t ↦ special b'"' b'"' c t refl refl
    | inr f1 ↦ elim (Bool-cases (c == 10)) [
      | inl t ↦ special 10 b'n' c t refl refl
      | inr f2 ↦ elim (Bool-cases (c == 13)) [
        | inl t ↦ special 13 b'r' c t refl refl
        | inr f3 ↦ elim (Bool-cases (c == 9)) [
          | inl t ↦ special 9 b't' c t refl refl
          | inr f4 ↦ elim (Bool-cases (is_control c)) [
            | inl t ↦ inr (inl (ground arith, ground arith))
            | inr f ↦ inr (inr (ground arith, ground arith))
          ]
        ]
      ]
    ]
  ]
]

read_string-escape_char :
    (c : ℕ) (s : Text) → read_string within (escape_char c ++ s) ≡ push c (read_string within s)
unfolding read_string step
read_string-escape_char c s = elim (escape_char-Escaped c) [
  | inl (d, e, goes) ↦ rw e (read_string-emit escaped d c s goes)
  | inr (inl (low, e)) ↦ rw e (read_string-hex4 c s (omega arith))
  | inr (inr (e, goes)) ↦ rw e (read_string-emit within c c s goes)
]

-- A label, escaped and closed by a quotation mark, reads as the string of JSON that the label is,
-- whatever follows it: no label can end its string early or be taken for another.
pub read_string-escape :
    (label rest : Text) → read_string within (escape label ++ b'"' ∷ rest) ≡ some (label, rest)
unfolding read_string escape step push
read_string-escape [] rest = refl
read_string-escape (c ∷ label) rest =
    ap (read_string within) (append_assoc (escape_char c) (escape label) (b'"' ∷ rest))
    ∙ read_string-escape_char c (escape label ++ b'"' ∷ rest)
    ∙ ap (push c) (read_string-escape label rest)
