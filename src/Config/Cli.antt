-- ===== src/Config/Cli.antt =====
-- `CliArgs` and `apply_cli_overrides` of `src/config.rs`.
pub mod Overrides
use rfw.Text.{Text, codes, trim}
use rfw.Base.{
  Bool, List, Option, [], false, if◌then◌else◌, list_eq, nat_eq, none, some, true, ℕ, ◌==◌,
}
use rfw.Config.Settings.{Settings}

pub record CliArgs : Type 0 where
  pub config_file : Option Text
  pub metrics_addr : Option Text
  pub report_interval_secs : Option ℕ
  pub sample_interval_secs : Option ℕ
  pub buffer_bytes : Option ℕ
  pub socket_buffer_bytes : Option ℕ
  pub use_splice : Bool
  pub max_connections : Option ℕ
  pub connect_timeout_secs : Option ℕ
  pub dns_timeout_secs : Option ℕ
  pub keepalive_idle_secs : Option ℕ
  pub keepalive_interval_secs : Option ℕ
  pub keepalive_retries : Option ℕ
  pub webhook_url : Option Text
  pub instance_name : Option Text
  pub probe_interval_secs : Option ℕ
  pub unreachable_after_secs : Option ℕ
  pub udp_session_timeout_secs : Option ℕ
  pub udp_max_sessions : Option ℕ
  pub udp_gro_gso : Bool
  pub log_dir : Text
  pub health_check : Option Text
  pub forwarders : List Text

-- `CliArgs::default`: no flag given.
abbrev pub default_cli : CliArgs
default_cli = record {
  config_file = none;
  metrics_addr = none;
  report_interval_secs = none;
  sample_interval_secs = none;
  buffer_bytes = none;
  socket_buffer_bytes = none;
  use_splice = false;
  max_connections = none;
  connect_timeout_secs = none;
  dns_timeout_secs = none;
  keepalive_idle_secs = none;
  keepalive_interval_secs = none;
  keepalive_retries = none;
  webhook_url = none;
  instance_name = none;
  probe_interval_secs = none;
  unreachable_after_secs = none;
  udp_session_timeout_secs = none;
  udp_max_sessions = none;
  udp_gro_gso = false;
  log_dir = codes "logs";
  health_check = none;
  forwarders = [];
}

-- `if let Some(v) = flag { setting = v }`.
abbrev over {ℓ} : {A : Type ℓ} → Option A → A → A
over none old = old
over (some v) old = v

-- `if let Some(v) = flag { setting = Some(v) }`.
abbrev over_some {ℓ} : {A : Type ℓ} → Option A → Option A → Option A
over_some none old = old
over_some (some v) old = some v

-- A webhook flag of blanks turns the webhook off.
webhook_override : Option Text → Option Text → Option Text
webhook_override none old = old
webhook_override (some url) old = if trim url == [] then none else some url

unfoldable pub apply_cli_overrides : Settings → CliArgs → Settings
unfolding webhook_override
apply_cli_overrides s c = record {
  metrics_addr = over_some c.metrics_addr s.metrics_addr;
  report_interval_secs = over c.report_interval_secs s.report_interval_secs;
  sample_interval_secs = over c.sample_interval_secs s.sample_interval_secs;
  buffer_bytes = over c.buffer_bytes s.buffer_bytes;
  socket_buffer_bytes = over_some c.socket_buffer_bytes s.socket_buffer_bytes;
  use_splice = if c.use_splice then true else s.use_splice;
  max_connections = over_some c.max_connections s.max_connections;
  connect_timeout_secs = over c.connect_timeout_secs s.connect_timeout_secs;
  dns_timeout_secs = over c.dns_timeout_secs s.dns_timeout_secs;
  keepalive_idle_secs = over c.keepalive_idle_secs s.keepalive_idle_secs;
  keepalive_interval_secs = over c.keepalive_interval_secs s.keepalive_interval_secs;
  keepalive_retries = over c.keepalive_retries s.keepalive_retries;
  webhook_url = webhook_override c.webhook_url s.webhook_url;
  instance_name = over_some c.instance_name s.instance_name;
  probe_interval_secs = over c.probe_interval_secs s.probe_interval_secs;
  unreachable_after_secs = over c.unreachable_after_secs s.unreachable_after_secs;
  udp_session_timeout_secs = over c.udp_session_timeout_secs s.udp_session_timeout_secs;
  udp_max_sessions = over c.udp_max_sessions s.udp_max_sessions;
  udp_gro_gso = if c.udp_gro_gso then true else s.udp_gro_gso;
}
