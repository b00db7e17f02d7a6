-- ===== src/Config/Spec.antt =====
-- `ForwarderSpec` of `src/config.rs`: one configured entry before its ports are expanded.
pub mod Bounds
use rfw.Text.Decimal.{u16_max}
use rfw.Text.{Text}
use rfw.Base.{
  List, Result, bail_if, count_up, list_eq, map, nat_eq, not, ok, ℕ, ◌%◌, ◌++◌, ◌+◌, ◌==◌, ◌>>=◌,
  ◌>>◌, ◌∷◌,
}
use rfw.Config.Forwarder.{ForwarderConfig, Protocol, endpoint, protocol_suffix}
use rfw.Config.PortSpan.{PortSpan, RangeError, SpanError, len, show_span}

pub record ForwarderSpec : Type 0 where
  pub local_host : Text
  pub local : PortSpan
  pub remote_host : Text
  pub remote : PortSpan
  pub protocol : Protocol

-- Why an entry is refused, whichever source it comes from; the fields are what the message shows.
-- From `invalid_local_range` on, the errors are those of a YAML entry.
pub data SpecError : Type 0 where
  length_mismatch : Text → PortSpan → ℕ → PortSpan → ℕ → SpecError
  invalid_span : SpanError → SpecError
  unknown_suffix : Text → Text → SpecError
  invalid_format : Text → SpecError
  invalid_local_range : ℕ → ℕ → Text → RangeError → SpecError
  remote_end_alone : Text → ℕ → SpecError
  past_last_port : Text → ℕ → ℕ → SpecError
  invalid_remote_range : ℕ → ℕ → Text → RangeError → SpecError

-- The shape of `label`, with the ports as written.
unfoldable pub describe : ForwarderSpec → Text
describe s =
    (endpoint s.local_host (show_span s.local)
      ++ b'-' ∷ b'>' ∷ endpoint s.remote_host (show_span s.remote))
    ++ protocol_suffix s.protocol

unfoldable pub new : Text → PortSpan → Text → PortSpan → Protocol → Result SpecError ForwarderSpec
new local_host local remote_host remote protocol = do
  let spec : ForwarderSpec = record {
    local_host = local_host;
    local = local;
    remote_host = remote_host;
    remote = remote;
    protocol = protocol;
  }
  bail_if (not (len local == len remote))
      (length_mismatch (describe spec) local (len local) remote (len remote))
  ok spec

-- `expand`: the offsets and the ports are `u16`.
abbrev pub at_offset : ForwarderSpec → ℕ → ForwarderConfig
at_offset s offset = record {
  local_host = s.local_host;
  local_port = (s.local.start + offset) % (u16_max + 1);
  remote_host = s.remote_host;
  remote_port = (s.remote.start + offset) % (u16_max + 1);
  protocol = s.protocol;
}

unfoldable pub expand : ForwarderSpec → List ForwarderConfig
expand s = map (at_offset s) (count_up 0 (len s.local % (u16_max + 1)))
