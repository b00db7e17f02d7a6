-- ===== src/Config/PortSpan/Bounds.antt =====
-- Which spans `PortSpan::range` and `PortSpan::parse` produce.

use rfw.Text.Decimal.Laws.{parse_uint-le}
use rfw.Text.{Text, split_once}
use rfw.Base.{
  >>=-eq-ok, Option, arith, inl, map_err-eq-ok, none, ok, refl, some, ℕ, ◌+◌, ◌-◌, ◌<◌, ◌↔◌, ◌≡◌,
  ◌≤◌, ◌⊎◌,
}
use rfw.Text.Decimal.{u16_max}
use rfw.Config.PortSpan.{PortSpan, bound, len, max_range_ports, parse, parse_cut, range, single}

-- A span of `u16` ports in order and within the limit. Only a single port may be port 0.
pub record IsSpan (s : PortSpan) : Type 0 where
  pub ordered : s.start ≤ s.end
  pub fits : s.end ≤ u16_max
  pub within : s.end - s.start < max_range_ports
  pub proper : (s.start ≡ s.end) ⊎ (0 < s.start)

pub len_lem : {s : PortSpan} → s.start ≤ s.end → s.end ≤ u16_max → len s ≡ s.end - s.start + 1
unfolding len
len_lem h k = omega arith

pub single-IsSpan : (p : ℕ) → p ≤ u16_max → IsSpan (single p)
single-IsSpan p h = record {
  ordered = omega arith;
  fits = h;
  within = omega arith;
  proper = inl refl;
}

-- Two `u16` ports make a range exactly when the first is not 0, they are in order, and they span at
-- most `MAX_RANGE_PORTS` ports.
pub range_iff :
    (a b : ℕ) (s : PortSpan)
    → a ≤ u16_max
    → b ≤ u16_max
    → (range a b ≡ ok s)
      ↔ ((s ≡ record { start = a; end = b }) × (0 < a) × (a ≤ b) × (b < a + max_range_ports))
unfolding range len
range_iff a b s h k = ground arith

pub range_ok :
    (a b : ℕ)
    → 0 < a
    → a ≤ b
    → b < a + max_range_ports
    → b ≤ u16_max
    → range a b ≡ ok (record { start = a; end = b })
range_ok a b h k l m = (range_iff a b _ (omega arith) m).1 (refl, h, k, l)

pub range-IsSpan :
    (a b : ℕ) {s : PortSpan} → a ≤ u16_max → b ≤ u16_max → range a b ≡ ok s → IsSpan s
range-IsSpan a b {s} h k e = let spec = (range_iff a b s h k).0 e in ground arith

bound-le : (what raw t : Text) {p : ℕ} → bound what raw t ≡ ok p → (p ≤ u16_max)
unfolding bound
bound-le what raw t {p} e = ground (arith, parse_uint-le u16_max t {n = p})

parse_cut-IsSpan :
    (what raw : Text) (o : Option (Text × Text)) (s : PortSpan)
    → parse_cut what raw o ≡ ok s
    → IsSpan s
unfolding parse_cut
parse_cut-IsSpan what raw none s e = ground (arith, parse_uint-le u16_max raw {n = s.end})
parse_cut-IsSpan what raw (some (first, last)) s e =
    let (a, read_a, e') = >>=-eq-ok (bound what raw first) _ e in
    let (b, read_b, e'') = >>=-eq-ok (bound what raw last) _ e' in
    range-IsSpan a b (bound-le what raw first read_a) (bound-le what raw last read_b)
      (map_err-eq-ok _ (range a b) e'')

-- Whatever `PortSpan::parse` accepts is a span of `u16` ports in order, of at most `MAX_RANGE_PORTS`
-- ports, with port 0 only as a single port.
pub parse-IsSpan : (raw what : Text) (s : PortSpan) → parse raw what ≡ ok s → IsSpan s
unfolding parse
parse-IsSpan raw what s e = parse_cut-IsSpan what raw (split_once b'-' raw) s e
