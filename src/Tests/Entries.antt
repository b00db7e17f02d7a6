-- ===== src/Tests/Entries.antt =====
-- Port spans, entries and their expansion.

use rfw.Text.Decimal.{parse_uint, show, u16_max}
use rfw.Text.{Lacks, Text, codes, split_once}
use rfw.Base.{
  Distinct, List, [], arith, get_elem?, inr, none, ok, refl, some, ℕ, ◌++◌, ◌+◌, ◌<◌, ◌↔◌, ◌∷◌, ◌≡◌,
  ◌≤◌,
}
use rfw.Config.Forwarder.{Protocol, tcp, udp}
use rfw.Config.PortSpan.{PortSpan, len, max_range_ports, parse, range}
use rfw.Config.PortSpan.Bounds.{IsSpan}
use rfw.Config.Spec.{ForwarderSpec, expand}
use rfw.Config.Spec.Bounds.{IsSpec, expand_port_for_port}
use rfw.Config.Expand.{expand_specs, validate_no_duplicates}
use rfw.Config.Expand.Claims.{claimed, expand_all, expand_specs_iff}
use rfw.Config.Expand.Sound.{validate_no_duplicates-expand_specs}
use rfw.Config.Entry.{parse_forwarder_spec}
use rfw.Config.Entry.RoundTrip.{entry, parse_forwarder_spec-entry}
use rfw.Config.Yaml.{RawForwarder}
use rfw.Config.Yaml.Bounds.{IsRaw}

abbrev span : ℕ → ℕ → PortSpan
span a b = record { start = a; end = b }

span-IsSpan : (a b : ℕ) → 0 < a → a ≤ b → b < a + max_range_ports → b ≤ u16_max → IsSpan (span a b)
span-IsSpan a b h k l m = record { ordered = k; fits = m; within = omega arith; proper = inr h }

-- `10.0.0.1:5000-5002:db:6000-6002`.
abbrev spec : Protocol → ForwarderSpec
spec p = record {
  local_host = codes "10.0.0.1";
  local = span 5000 5002;
  remote_host = codes "db";
  remote = span 6000 6002;
  protocol = p;
}

spec-IsSpec : (p : Protocol) → IsSpec (spec p)
unfolding len
spec-IsSpec p = record {
  local_ok = span-IsSpan 5000 5002 (omega arith) (omega arith) (omega arith) (omega arith);
  remote_ok = span-IsSpan 6000 6002 (omega arith) (omega arith) (omega arith) (omega arith);
  aligned = refl;
}

abbrev both : List ForwarderSpec
both = spec tcp ∷ spec udp ∷ []

parses : parse (codes "5000-5002") (codes "local") ≡ ok (span 5000 5002)
unfolding parse rfw.Text.split_once rfw.Text.Decimal.parse_uint range len
parses = refl

third_port : 2 < len (spec udp).local
unfolding len
third_port = omega arith

expand_port_for_port_example :
    (get_elem? (expand (spec udp)) 2
      ≡ some (record {
        local_host = codes "10.0.0.1";
        local_port = 5002;
        remote_host = codes "db";
        remote_port = 6002;
        protocol = udp;
      }))
    × (5002 ≤ 5002)
    × (6002 ≤ 6002)
expand_port_for_port_example = expand_port_for_port (spec udp) 2 (spec-IsSpec udp) third_port

expand_specs_iff_example :
    (expand_specs both ≡ ok (expand_all both))
    ↔ ((expand_all both ≡ expand_all both) × Distinct (claimed both))
expand_specs_iff_example = expand_specs_iff both (expand_all both)

expands : expand_specs both ≡ ok (expand_all both)
unfolding expand_specs expand len
expands = refl

validate_no_duplicates-expand_specs_example : validate_no_duplicates (expand_all both) ≡ ok tt
validate_no_duplicates-expand_specs_example =
    validate_no_duplicates-expand_specs both (expand_all both)
      (spec-IsSpec tcp, (spec-IsSpec udp, tt)) expands

address_clear : Lacks b':' (codes "10.0.0.1") × Lacks b'/' (codes "10.0.0.1")
address_clear = ground arith

name_clear : Lacks b':' (codes "db") × Lacks b'/' (codes "db")
name_clear = ground arith

parse_forwarder_spec-entry_example :
    parse_forwarder_spec (entry (spec udp) ++ b'/' ∷ codes "UDP") ≡ ok (spec udp)
parse_forwarder_spec-entry_example =
    parse_forwarder_spec-entry (spec udp) (codes "UDP") (spec-IsSpec udp) address_clear.0
      name_clear.0 refl

-- Three ports, to as many from `remote` on.
abbrev raw : ℕ → RawForwarder
raw remote = record {
  local_host = codes "10.0.0.1";
  local_port = 5000;
  local_port_end = some 5002;
  remote_host = codes "db";
  remote_port = remote;
  remote_port_end = none;
  protocol = tcp;
}

raw-IsRaw : (remote : ℕ) → remote ≤ u16_max → IsRaw (raw remote)
raw-IsRaw remote h = record {
  local_fits = omega arith;
  local_end_fits = omega arith;
  remote_fits = h;
  remote_end_fits = tt;
}
