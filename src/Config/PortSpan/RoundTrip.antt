-- ===== src/Config/PortSpan/RoundTrip.antt =====
-- `PortSpan::parse` of `src/config.rs`, on printed spans.
use rfw.Text.Decimal.Laws.{IsDigits, IsDigits-Lacks, parse_uint-show, show-IsDigits, show-ne-nil}
use rfw.Text.Laws.{split_once-append, split_once-none}
use rfw.Text.Decimal.{show, u16_max}
use rfw.Text.{Lacks, Text, is_ascii_digit}
use rfw.Base.{
  All-append, Bool-cases, [], all, arith, inl, inr, list_eq, map_err, nat_eq, ne→beq, ok, refl,
  true, ℕ, ◌++◌, ◌<◌, ◌==◌, ◌∷◌, ◌≡◌, ◌≢◌, ◌≤◌, ◌⊎◌,
}
use rfw.Config.PortSpan.{PortSpan, bound, invalid_range, parse, range, show_span, single}
use rfw.Config.PortSpan.Bounds.{IsSpan, range_iff}

pub show-Lacks : (c n : ℕ) → c < b'0' ⊎ b'9' < c → Lacks c (show n)
show-Lacks c n h = IsDigits-Lacks c (show n) h (show-IsDigits n)

all_digits : (s : Text) → IsDigits s → all is_ascii_digit s ≡ true
all_digits [] d = refl
all_digits (c ∷ s) d = ground (arith, all_digits s d.1)

bound-show : (what raw : Text) (n : ℕ) → n ≤ u16_max → bound what raw (show n) ≡ ok n
unfolding bound
bound-show what raw n h = rw (
  ne→beq (show n) [] (show-ne-nil n),
  all_digits (show n) (show-IsDigits n),
  parse_uint-show u16_max n h,
)

-- A printed span holds nothing but digits and a dash.
pub show_span-Lacks :
    (c : ℕ) (s : PortSpan) → c ≢ b'-' → c < b'0' ⊎ b'9' < c → Lacks c (show_span s)
unfolding show_span
show_span-Lacks c s ne h = elim (Bool-cases (s.start == s.end)) [
  | inl t ↦ rw t (show-Lacks c s.start h)
  | inr f ↦ rw f (
      All-append _ (show s.start) (b'-' ∷ show s.end) (show-Lacks c s.start h)
        (omega arith, show-Lacks c s.end h))
]

parse-single : (p : ℕ) (what : Text) → p ≤ u16_max → parse (show p) what ≡ ok (single p)
unfolding parse
parse-single p what h =
    rw
      (split_once-none b'-' (show p) (show-Lacks b'-' p (omega arith)), parse_uint-show u16_max p h)

parse-range :
    (a b : ℕ) (what : Text)
    → a ≤ u16_max
    → b ≤ u16_max
    → let raw = show a ++ b'-' ∷ show b in
      parse raw what ≡ map_err (invalid_range what raw) (range a b)
unfolding parse
parse-range a b what h k = rw (
  split_once-append b'-' (show a) (show b) (show-Lacks b'-' a (omega arith)),
  bound-show what (show a ++ b'-' ∷ show b) a h,
  bound-show what (show a ++ b'-' ∷ show b) b k,
)

-- A span that is in order, within the limit, and not a range from port 0 is read back from its
-- print, whatever name the error messages would give it.
pub parse-show_span : (s : PortSpan) (what : Text) → IsSpan s → parse (show_span s) what ≡ ok s
unfolding show_span
parse-show_span s what v = elim (Bool-cases (s.start == s.end)) [
  | inl t ↦ rw t (ground (arith, parse-single s.start what))
  | inr f ↦
      rw (f, parse-range s.start s.end what (omega arith) v.fits)
        (ground (arith, range_iff s.start s.end s (omega arith) v.fits))
]
