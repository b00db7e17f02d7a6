-- ===== src/Config/PortSpan.antt =====
-- `PortSpan` of `src/config.rs`: an inclusive span of ports, its length, parser and print.
pub mod Bounds
pub mod RoundTrip
use rfw.Base.{
  Option, Result, [], all, bail_if, if◌then◌else◌, list_eq, ltb, map_err, nat_eq, none, not, ok,
  some, ℕ, ◌%◌, ◌++◌, ◌+◌, ◌-◌, ◌==◌, ◌>>=◌, ◌>>◌, ◌||◌, ◌∷◌,
}
use rfw.Text.{Text, is_ascii_digit, split_once}
use rfw.Text.Decimal.{ParseIntError, parse_uint, show, u16_max}

abbrev pub max_range_ports : ℕ
max_range_ports = 4096

-- Ports are `u16`; a single port has `start` and `end` equal.
pub record PortSpan : Type 0 where
  pub start : ℕ
  pub end : ℕ

-- Why `PortSpan::range` refuses two ports.
pub data RangeError : Type 0 where
  port_zero : RangeError
  start_after_end : ℕ → ℕ → RangeError
  too_many_ports : ℕ → RangeError

-- Why `PortSpan::parse` refuses a text. The first two fields are `what` and `raw`.
pub data SpanError : Type 0 where
  invalid_port : Text → Text → ParseIntError → SpanError
  not_a_port_number : Text → Text → Text → SpanError
  invalid_bound : Text → Text → ParseIntError → SpanError
  invalid_range : Text → Text → RangeError → SpanError

abbrev pub single : ℕ → PortSpan
single port = record { start = port; end = port }

-- `usize::from(self.end - self.start) + 1`, the difference in `u16`.
unfoldable pub len : PortSpan → ℕ
len s = (s.end + (u16_max + 1) - s.start) % (u16_max + 1) + 1

unfoldable pub range : ℕ → ℕ → Result RangeError PortSpan
range start end = do
  bail_if (start == 0) port_zero
  bail_if (ltb end start) (start_after_end start end)
  let span : PortSpan = record { start = start; end = end }
  bail_if (ltb max_range_ports (len span)) (too_many_ports (len span))
  ok span

-- The closure `bound` of `PortSpan::parse`: digits only, with no sign.
bound : Text → Text → Text → Result SpanError ℕ
bound what raw s = do
  bail_if (s == [] || not (all is_ascii_digit s)) (not_a_port_number what raw s)
  map_err (invalid_bound what raw) (parse_uint u16_max s)

parse_cut : Text → Text → Option (Text × Text) → Result SpanError PortSpan
unfolding bound
parse_cut what raw none = do
  port ← map_err (invalid_port what raw) (parse_uint u16_max raw)
  ok (single port)
parse_cut what raw (some (first, last)) = do
  start ← bound what raw first
  end ← bound what raw last
  map_err (invalid_range what raw) (range start end)

-- `PortSpan::parse`, with `raw` before `what` as in the source.
unfoldable pub parse : Text → Text → Result SpanError PortSpan
unfolding parse_cut
parse raw what = parse_cut what raw (split_once b'-' raw)

-- `Display`.
unfoldable pub show_span : PortSpan → Text
show_span s = if s.start == s.end then show s.start else show s.start ++ b'-' ∷ show s.end
