-- ===== src/Notify/Render/Newlines.antt =====
-- The lines of a message.

use rfw.Base.{
  All-imp, Bool-cases, List, [], ap, arith, false, if_both, if◌then◌else◌, inl, inr, leb, length,
  length-take, ltb, refl, suc, take, zero, ℕ, ◌%◌, ◌++◌, ◌+◌, ◌-◌, ◌/◌, ◌<◌, ◌∙◌, ◌∷◌, ◌≡◌, ◌≢◌,
  ◌≤◌, ◌⊎◌,
}
use rfw.Text.{Text, codes}
use rfw.Text.Lines.{newlines, newlines-append, newlines_none, show-Lacks}
use rfw.Text.Decimal.{show}
use rfw.Notify.Event.{Severity, critical, info, warning}
use rfw.Notify.Plain.{fmt_duration, is_control, mono, plain, truncate_chars}
use rfw.Notify.Plain.Clean.{IsLine, length-push, mono_lem, plain_lem}
use rfw.Notify.Body.{consequence, ends_with, join_comma, join_mono, pieces}
use rfw.Notify.Render.{icon}
use rfw.Notify.Footer.{format_utc, pad2, pad4, utc_time}

abbrev pub total : List Text → ℕ
total [] = 0
total (p ∷ ps) = newlines p + total ps

pub newlines-pieces : (ps : List Text) → newlines (pieces ps) ≡ total ps
unfolding newlines
newlines-pieces [] = refl
newlines-pieces (p ∷ ps) =
    newlines-append p (pieces ps) ∙ ap (λ n. newlines p + n) (newlines-pieces ps)

pub total-append : (ps qs : List Text) → total (ps ++ qs) ≡ total ps + total qs
total-append [] qs = omega arith
total-append (p ∷ ps) qs = omega (arith, total-append ps qs)

pub IsLine-newlines : (s : Text) → IsLine s → newlines s ≡ 0
IsLine-newlines s h =
    newlines_none s (All-imp (λ c. is_control c ≡ false) (λ c. c ≢ 10) s (λ c p. ground arith) h)

pub newlines-plain : (s : Text) → newlines (plain s) ≡ 0
newlines-plain s = IsLine-newlines (plain s) (plain_lem s).0

pub newlines-mono : (s : Text) → newlines (mono s) ≡ 0
unfolding newlines
newlines-mono s =
    let (inner, e, lacks, line) = mono_lem s in
    omega (arith, ap newlines e, newlines-append inner (b'`' ∷ []), IsLine-newlines inner line)

pub newlines-show : (n : ℕ) → newlines (show n) ≡ 0
newlines-show n = newlines_none (show n) (show-Lacks n)

pub newlines-icon : (s : Severity) → newlines (icon s) ≡ 0
unfolding newlines
newlines-icon info = refl
newlines-icon warning = refl
newlines-icon critical = refl

pub newlines-consequence : (label : Text) → newlines (consequence label) ≡ 0
unfolding newlines consequence
newlines-consequence l = if_both (λ s. newlines s ≡ 0) (ends_with l (codes "/udp")) _ _ refl refl

-- A part without line feeds before another.
pub quiet-append : (s t : Text) → newlines s ≡ 0 → newlines t ≡ 0 → newlines (s ++ t) ≡ 0
quiet-append s t e e' = omega (arith, newlines-append s t, e, e')

pub quiet_digits : (n : ℕ) → newlines (if ltb n 10 then b'0' ∷ show n else show n) ≡ 0
unfolding newlines
quiet_digits n =
    if_both (λ s. newlines s ≡ 0) (ltb n 10) _ _ (omega (arith, newlines-show n)) (newlines-show n)

-- A number, a unit, a number of two digits and a unit.
pub quiet_units :
    (n m a b c : ℕ)
    → a ≢ 10
    → b ≢ 10
    → c ≢ 10
    → newlines (show n ++ (a ∷ b ∷ ((if ltb m 10 then b'0' ∷ show m else show m) ++ c ∷ []))) ≡ 0
unfolding newlines
quiet_units n m a b c ha hb hc =
    let two = if ltb m 10 then b'0' ∷ show m else show m in
    let unit : newlines (c ∷ []) ≡ 0 = newlines_none (c ∷ []) (hc, tt) in
    let behind = quiet-append two (c ∷ []) (quiet_digits m) unit in
    let between : newlines (a ∷ b ∷ (two ++ c ∷ [])) ≡ 0 =
      quiet-append (a ∷ b ∷ []) (two ++ c ∷ []) (newlines_none (a ∷ b ∷ []) (ha, (hb, tt)))
        behind in
    quiet-append (show n) _ (newlines-show n) between

pub newlines-fmt_duration : (secs : ℕ) → newlines (fmt_duration secs) ≡ 0
unfolding fmt_duration newlines
newlines-fmt_duration secs =
    let both = if_both (λ s. newlines s ≡ 0) in
    both (ltb secs 60) _ _ (quiet-append (show secs) _ (newlines-show secs) refl) (
      both (ltb secs 3600) _ _
        (quiet_units (secs / 60) (secs % 60) b'm' b' ' b's' (omega arith) (omega arith)
          (omega arith))
        (both (ltb secs 86_400) _ _
          (quiet_units (secs / 3600) (secs % 3600 / 60) b'h' b' ' b'm' (omega arith) (omega arith)
            (omega arith))
          (quiet_units (secs / 86_400) (secs % 86_400 / 3600) b'd' b' ' b'h' (omega arith)
            (omega arith) (omega arith))))

pub newlines-join_mono : (items : List Text) → newlines (join_mono items) ≡ 0
unfolding newlines join_comma join_mono
newlines-join_mono [] = refl
newlines-join_mono (s ∷ []) = newlines-mono s
newlines-join_mono (s ∷ s' ∷ l) =
    quiet-append (mono s) _ (newlines-mono s)
      (quiet-append (codes ", ") _ refl (newlines-join_mono (s' ∷ l)))

-- A field of the time, and what separates it from the rest.
pub quiet_field :
    (n c : ℕ) (rest : Text) → c ≢ 10 → newlines rest ≡ 0 → newlines (pad2 n ++ c ∷ rest) ≡ 0
unfolding newlines
quiet_field n c rest h e =
    let one : newlines (c ∷ []) ≡ 0 = newlines_none (c ∷ []) (h, tt) in
    quiet-append (pad2 n) (c ∷ rest) (quiet_digits n) (quiet-append (c ∷ []) rest one e)

pub quiet_year : (n : ℕ) → newlines (pad4 n) ≡ 0
unfolding newlines
quiet_year n =
    let both = if_both (λ s. newlines s ≡ 0) in
    both (ltb n 100) _ _ (omega (arith, quiet_digits n))
      (both (ltb n 1000) _ _ (omega (arith, newlines-show n)) (newlines-show n))

pub newlines-format_utc : (now : ℕ) → newlines (format_utc now) ≡ 0
unfolding format_utc newlines
newlines-format_utc now =
    let t = utc_time now in
    let clock = quiet_field t.hour b':' _ (omega arith) (
      quiet_field t.minute b':' _ (omega arith)
        (quiet-append (pad2 t.second) (codes " UTC") (quiet_digits t.second) refl)) in
    let date =
      quiet_field t.date.month b'-' _ (omega arith)
        (quiet_field t.date.day b' ' _ (omega arith) clock) in
    quiet-append (pad4 t.date.year) _ (quiet_year t.date.year)
      (quiet-append (b'-' ∷ []) _ refl date)

newlines-take : (n : ℕ) (s : Text) → newlines (take n s) ≤ newlines s
unfolding newlines
newlines-take zero s = omega arith
newlines-take (suc n) [] = omega arith
newlines-take (suc n) (c ∷ s) = omega (arith, newlines-take n s)

-- A text that is cut keeps no more lines, and is as long as it may be.
pub newlines-truncate_chars :
    (s : Text) (limit : ℕ)
    → 0 < limit
    → (truncate_chars s limit ≡ s)
      ⊎ ((newlines (truncate_chars s limit) ≤ newlines s)
          × (length (truncate_chars s limit) ≡ limit))
unfolding truncate_chars newlines
newlines-truncate_chars s limit pos = elim (Bool-cases (leb (length s) limit)) [
  | inl t ↦ inl (rw t refl)
  | inr f ↦ rw f (
      inr (
        omega (
          arith,
          newlines-take (limit - 1) s,
          newlines-append (take (limit - 1) s) (0x2026 ∷ []),
        ),
        ground (arith, f, length-push (take (limit - 1) s) 0x2026, length-take (limit - 1) s),
      ))
]
