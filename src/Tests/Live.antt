-- ===== src/Tests/Live.antt =====
-- Settings, live values, and where the forwarders come from.

use rfw.Text.Decimal.{parse_uint}
use rfw.Text.{Text, codes, rsplit_once, split, split_once, strip_prefix}
use rfw.Base.{
  All, Bool, List, Result, [], arith, inr, none, ok, ok-injective, refl, some, subst, true, ◌↔◌,
  ◌∷◌, ◌≡◌,
}
use rfw.Config.Forwarder.{ForwarderConfig, tcp}
use rfw.Config.Settings.{Settings, clamp_in_place, default_settings, validate}
use rfw.Config.Settings.Clamp.{validate-clamp_in_place}
use rfw.Config.Settings.Validate.{IsSafe, ParsesAddr, ParsesUrl, validate_iff}
use rfw.Config.Knobs.{RuntimeKnobs, from_settings}
use rfw.Config.Cli.{CliArgs, apply_cli_overrides, default_cli}
use rfw.Config.Load.{
  ForwarderSource, RawFile, Variable, env, load_env_forwarders, load_forwarders_with_source,
  load_settings,
}
use rfw.Config.Load.Precedence.{Chosen, Listed, load_forwarders_with_source_iff}
use rfw.Config.Yaml.Bounds.{IsRaw}
use rfw.Config.Load.Sources.{GivesPorts}
use rfw.Config.Expand.{expand_specs, validate_no_duplicates}
use rfw.Config.Yaml.{deserialize_forwarders}

-- Values that a careless reload could bring.
abbrev zeroed : Settings
zeroed = record default_settings {
  report_interval_secs = 0;
  buffer_bytes = 0;
  socket_buffer_bytes = some 0;
  keepalive_interval_secs = 0;
  udp_max_sessions = 2_000_000;
}

abbrev any_addr : Text → Bool
any_addr t = true

abbrev any_url : Text → Result Text (Unit {0})
any_url t = ok tt

validate_iff_example :
    (validate any_addr any_url zeroed ≡ ok tt)
    ↔ (IsSafe zeroed × ParsesAddr any_addr none × ParsesUrl any_url none)
validate_iff_example = validate_iff any_addr any_url zeroed

validate-clamp_in_place_example :
    (validate any_addr any_url (clamp_in_place zeroed) ≡ ok tt)
    ↔ (ParsesAddr any_addr none × ParsesUrl any_url none)
validate-clamp_in_place_example = validate-clamp_in_place any_addr any_url zeroed

abbrev fresh : RuntimeKnobs
fresh = from_settings default_settings

default-IsSafe : IsSafe default_settings
default-IsSafe = record {
  report = omega arith;
  sample = omega arith;
  connect = omega arith;
  dns = omega arith;
  buffer = (omega arith, omega arith);
  socket_buffer = tt;
  connections = tt;
  keepalive = inr (omega arith, omega arith);
  probe = omega arith;
  unreachable = omega arith;
  session = omega arith;
  sessions = (omega arith, omega arith);
}

-- A file system with one file, and a deserialiser that gives no forwarders.
abbrev read : Text → Result Text Text
read path = ok (codes "settings: {}")

abbrev yaml : Text → Result Text RawFile
yaml content = ok (record { forwarders = []; settings = default_settings })

yaml-GivesPorts : GivesPorts yaml
yaml-GivesPorts content raw e = subst (λ r. All IsRaw r.forwarders) (ok-injective e) tt

abbrev flags : CliArgs
flags = record default_cli { config_file = some (codes "rfw.yaml") }

abbrev variables : List Variable
variables = (codes "RFW_FORWARDER_1", codes "0.0.0.0:80:web:8080") ∷ []

abbrev web : ForwarderConfig
web = record {
  local_host = codes "0.0.0.0";
  local_port = 80;
  remote_host = codes "web";
  remote_port = 8080;
  protocol = tcp;
}

load_forwarders_with_source_iff_example :
    (load_forwarders_with_source read yaml flags variables ≡ ok (web ∷ [], env)) ↔ (
      (es : List ForwarderConfig) × (fs' : List ForwarderConfig) × (source' : ForwarderSource)
      × (load_env_forwarders variables ≡ ok es)
      × Listed read yaml [] (some (codes "rfw.yaml")) fs' source'
      × Chosen es (fs', source') (web ∷ []) env)
load_forwarders_with_source_iff_example =
    load_forwarders_with_source_iff read yaml yaml-GivesPorts flags variables (web ∷ []) env

loads : load_forwarders_with_source read yaml flags variables ≡ ok (web ∷ [], env)
unfolding load_forwarders_with_source rfw.Config.Yaml.deserialize_forwarders
    rfw.Config.Expand.expand_specs rfw.Config.Expand.validate_no_duplicates load_env_forwarders
    rfw.Text.strip_prefix rfw.Text.Decimal.parse_uint rfw.Config.Entry.parse_forwarder_spec
    rfw.Text.rsplit_once rfw.Text.split rfw.Config.PortSpan.parse rfw.Text.split_once
    rfw.Config.Spec.new rfw.Config.PortSpan.len rfw.Config.Spec.expand
loads = refl

loads_settings : load_settings read yaml any_addr any_url flags ≡ ok default_settings
unfolding load_settings rfw.Config.Yaml.deserialize_forwarders rfw.Config.Expand.expand_specs
    validate rfw.Config.Cli.apply_cli_overrides
loads_settings = refl
