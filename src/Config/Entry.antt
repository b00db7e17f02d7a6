-- ===== src/Config/Entry.antt =====
-- `parse_forwarder_spec` of `src/config.rs`: the one-line form of an entry, on the command line and
-- in environment variables.
pub mod RoundTrip
use rfw.Text.{Text, codes, eq_ignore_ascii_case, rsplit_once, split}
use rfw.Base.{
  List, Option, Result, [], err, if◌then◌else◌, map_err, none, ok, some, ◌>>=◌, ◌>>◌, ◌∷◌,
}
use rfw.Config.Forwarder.{Protocol, tcp, udp}
use rfw.Config.PortSpan.{parse}
use rfw.Config.Spec.{ForwarderSpec, SpecError, invalid_format, invalid_span, new, unknown_suffix}

protocol_of_suffix : Text → Option Protocol
protocol_of_suffix suffix =
    if eq_ignore_ascii_case suffix (codes "tcp")
    then some tcp
    else if eq_ignore_ascii_case suffix (codes "udp")
    then some udp
    else none

-- The body and the protocol, from the cut at the last slash.
cut_protocol : Text → Option (Text × Text) → Result SpecError (Text × Protocol)
unfolding protocol_of_suffix
cut_protocol s none = ok (s, tcp)
cut_protocol s (some (body, suffix)) = elim (protocol_of_suffix suffix) [
  | none ↦ err (unknown_suffix suffix s)
  | some protocol ↦ ok (body, protocol)
]

spec_of_parts : Text → Protocol → List Text → Result SpecError ForwarderSpec
spec_of_parts s protocol (local_host ∷ local ∷ remote_host ∷ remote ∷ []) = do
  l ← map_err invalid_span (parse local (codes "local"))
  r ← map_err invalid_span (parse remote (codes "remote"))
  new local_host l remote_host r protocol
spec_of_parts s protocol _ = err (invalid_format s)

unfoldable pub parse_forwarder_spec : Text → Result SpecError ForwarderSpec
unfolding cut_protocol spec_of_parts
parse_forwarder_spec s = do
  (body, protocol) ← cut_protocol s (rsplit_once b'/' s)
  spec_of_parts s protocol (split b':' body)
