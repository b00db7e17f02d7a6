-- ===== src/Config/Yaml.antt =====
-- `RawForwarder` and `deserialize_forwarders` of `src/config.rs`: the entries of the YAML file.
pub mod Bounds
use rfw.Text.Decimal.{show, u16_max}
use rfw.Text.{Text}
use rfw.Base.{
  List, Option, Result, bail_if, err, ltb, map_err, none, ok, some, traverse, ℕ, ◌+◌, ◌-◌, ◌>>=◌,
  ◌>>◌,
}
use rfw.Config.Forwarder.{ForwarderConfig, Protocol, endpoint}
use rfw.Config.PortSpan.{PortSpan, len, range, single}
use rfw.Config.Spec.{
  ForwarderSpec, SpecError, invalid_local_range, invalid_remote_range, new, past_last_port,
  remote_end_alone,
}
use rfw.Config.Expand.{DuplicateError, expand_specs}

-- Ports are `u16`, also the optional ends.
pub record RawForwarder : Type 0 where
  pub local_host : Text
  pub local_port : ℕ
  pub local_port_end : Option ℕ
  pub remote_host : Text
  pub remote_port : ℕ
  pub remote_port_end : Option ℕ
  pub protocol : Protocol

-- `shown` in the messages.
abbrev shown : RawForwarder → Text
shown r = endpoint r.local_host (show r.local_port)

local_span : RawForwarder → Option ℕ → Result SpecError PortSpan
local_span r none = ok (single r.local_port)
local_span r (some end) =
    map_err (invalid_local_range r.local_port end (shown r)) (range r.local_port end)

-- The end of the remote range: as written, or as far as the local range is long, in `u32`.
remote_end : RawForwarder → PortSpan → Option ℕ → Result SpecError ℕ
remote_end r local (some end) = ok end
remote_end r local none = do
  let last = r.remote_port + len local - 1
  bail_if (ltb u16_max last) (past_last_port (shown r) (len local) r.remote_port)
  ok last

remote_span : RawForwarder → PortSpan → Option ℕ → Option ℕ → Result SpecError PortSpan
unfolding remote_end
remote_span r local none none = ok (single r.remote_port)
remote_span r local none (some end) = err (remote_end_alone (shown r) end)
remote_span r local (some local_end) explicit = do
  end ← remote_end r local explicit
  map_err (invalid_remote_range r.remote_port end (shown r)) (range r.remote_port end)

unfoldable pub into_spec : RawForwarder → Result SpecError ForwarderSpec
unfolding local_span remote_span
into_spec r = do
  local ← local_span r r.local_port_end
  remote ← remote_span r local r.local_port_end r.remote_port_end
  new r.local_host local r.remote_host remote r.protocol

-- Why the list of a YAML file is refused.
pub data ForwardersError : Type 0 where
  bad_entry : SpecError → ForwardersError
  duplicate : DuplicateError → ForwardersError

-- `deserialize_forwarders`, after the deserialiser has given the raw entries.
unfoldable pub deserialize_forwarders :
    List RawForwarder → Result ForwardersError (List ForwarderConfig)
deserialize_forwarders raw = do
  specs ← map_err bad_entry (traverse into_spec raw)
  map_err duplicate (expand_specs specs)
