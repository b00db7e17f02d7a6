-- ===== src/Metrics/Escape/Clean.antt =====
-- An escaped text stays on its line.

use rfw.Base.{
  All-append, Bool-cases, [], arith, if_both, inl, inr, list_eq, nat_beq_iff, nat_eq, subst, sym, ℕ,
  ◌==◌, ◌∷◌, ◌≢◌,
}
use rfw.Text.{Lacks, Text}
use rfw.Notify.Plain.{is_control}
use rfw.Metrics.Escape.{escape, escape_char, hex4, hex_digit}

hex_digit-ne-newline : (d : ℕ) → hex_digit d ≢ 10
unfolding hex_digit
hex_digit-ne-newline d h = ground arith

pair-Lacks : (d : ℕ) → d ≢ 10 → Lacks 10 (b'\\' ∷ d ∷ [])
pair-Lacks d h = ((omega arith), (h, tt))

hex4-Lacks : (c : ℕ) → Lacks 10 (b'\\' ∷ b'u' ∷ hex4 c)
hex4-Lacks c =
    let hex = hex_digit-ne-newline in
    (omega arith, (omega arith, (hex _, (hex _, (hex _, (hex _, tt))))))

escape_char-Lacks : (c : ℕ) → Lacks 10 (escape_char c)
unfolding escape_char
escape_char-Lacks c =
    let pair = pair-Lacks in
    elim (Bool-cases (c == 10)) [
      | inl t ↦
          subst (λ x. Lacks 10 (escape_char x)) (sym ((nat_beq_iff c 10).0 t))
            (pair b'n' (omega arith))
      | inr f ↦ if_both (Lacks 10) (c == b'\\') _ _ (pair _ (omega arith)) (
          if_both (Lacks 10) (c == b'"') _ _ (pair _ (omega arith)) (
            if_both (Lacks 10) (c == 10) _ _ (pair _ (omega arith)) (
              if_both (Lacks 10) (c == 13) _ _ (pair _ (omega arith)) (
                if_both (Lacks 10) (c == 9) _ _ (pair _ (omega arith))
                  (if_both (Lacks 10) (is_control c) _ _ (hex4-Lacks c) ((λ e. cc), tt))))))
    ]

-- An escaped label has no line feed.
pub escape-Lacks : (label : Text) → Lacks 10 (escape label)
unfolding escape
escape-Lacks [] = tt
escape-Lacks (c ∷ label) =
    All-append (λ x. x ≢ 10) (escape_char c) (escape label) (escape_char-Lacks c)
      (escape-Lacks label)
