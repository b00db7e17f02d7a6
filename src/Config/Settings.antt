-- ===== src/Config/Settings.antt =====
-- `Settings` of `src/config.rs`: defaults, validation at startup, clamping on reload.
pub mod Clamp
pub mod Validate
use rfw.Base.{
  Bool, Option, Result, bail_if, false, if◌then◌else◌, leb, list_eq, ltb, map_err, nat_eq, none,
  not, ok, some, ℕ, ◌&&◌, ◌*◌, ◌==◌, ◌>>=◌, ◌>>◌,
}
use rfw.Text.{Text}

abbrev pub min_buffer_bytes : ℕ
min_buffer_bytes = 1024

abbrev pub max_buffer_bytes : ℕ
max_buffer_bytes = 16 * 1024 * 1024

abbrev pub max_udp_sessions : ℕ
max_udp_sessions = 1_048_576

-- The integers are `u64`, `usize` and, for `keepalive_retries`, `u32`.
pub record Settings : Type 0 where
  pub metrics_addr : Option Text
  pub report_interval_secs : ℕ
  pub sample_interval_secs : ℕ
  pub buffer_bytes : ℕ
  pub socket_buffer_bytes : Option ℕ
  pub use_splice : Bool
  pub max_connections : Option ℕ
  pub connect_timeout_secs : ℕ
  pub dns_timeout_secs : ℕ
  pub keepalive_idle_secs : ℕ
  pub keepalive_interval_secs : ℕ
  pub keepalive_retries : ℕ
  pub webhook_url : Option Text
  pub instance_name : Option Text
  pub probe_interval_secs : ℕ
  pub unreachable_after_secs : ℕ
  pub udp_session_timeout_secs : ℕ
  pub udp_max_sessions : ℕ
  pub udp_gro_gso : Bool

-- `Settings::default`, with the `default_*` functions written in.
abbrev pub default_settings : Settings
default_settings = record {
  metrics_addr = none;
  report_interval_secs = 60;
  sample_interval_secs = 1;
  buffer_bytes = 65536;
  socket_buffer_bytes = none;
  use_splice = false;
  max_connections = none;
  connect_timeout_secs = 10;
  dns_timeout_secs = 5;
  keepalive_idle_secs = 60;
  keepalive_interval_secs = 10;
  keepalive_retries = 3;
  webhook_url = none;
  instance_name = none;
  probe_interval_secs = 30;
  unreachable_after_secs = 300;
  udp_session_timeout_secs = 60;
  udp_max_sessions = 16384;
  udp_gro_gso = false;
}

-- Why `validate` refuses settings, one constructor for each message.
pub data SettingsError : Type 0 where
  zero_report_interval zero_sample_interval zero_connect_timeout zero_dns_timeout : SettingsError
  buffer_bytes_range : ℕ → SettingsError
  zero_socket_buffer zero_max_connections : SettingsError
  invalid_metrics_addr : Text → SettingsError
  zero_keepalive_interval zero_keepalive_retries : SettingsError
  zero_probe_interval zero_unreachable_after zero_udp_session_timeout : SettingsError
  udp_max_sessions_range : ℕ → SettingsError
  invalid_webhook_url : Text → SettingsError

abbrev within : ℕ → ℕ → ℕ → Bool
within lo hi n = leb lo n && leb n hi

abbrev is_some_zero : Option ℕ → Bool
is_some_zero none = false
is_some_zero (some n) = n == 0

-- `parses` is the standard library's parser of socket addresses, as a test.
metrics_addr_error : (Text → Bool) → Option Text → Result SettingsError (Unit {0})
metrics_addr_error parses none = ok tt
metrics_addr_error parses (some addr) = bail_if (not (parses addr)) (invalid_metrics_addr addr)

-- `webhook` is `validate_webhook_url`, without the URL that it returns.
webhook_error : (Text → Result Text (Unit {0})) → Option Text → Result SettingsError (Unit {0})
webhook_error webhook none = ok tt
webhook_error webhook (some url) = map_err invalid_webhook_url (webhook url)

-- The tests of `validate` up to `metrics_addr`.
validate_limits : Settings → Result SettingsError (Unit {0})
validate_limits s = do
  bail_if (s.report_interval_secs == 0) zero_report_interval
  bail_if (s.sample_interval_secs == 0) zero_sample_interval
  bail_if (s.connect_timeout_secs == 0) zero_connect_timeout
  bail_if (s.dns_timeout_secs == 0) zero_dns_timeout
  bail_if (not (within min_buffer_bytes max_buffer_bytes s.buffer_bytes))
      (buffer_bytes_range s.buffer_bytes)
  bail_if (is_some_zero s.socket_buffer_bytes) zero_socket_buffer
  bail_if (is_some_zero s.max_connections) zero_max_connections

-- The tests behind it, up to `webhook_url`.
validate_timers : Settings → Result SettingsError (Unit {0})
validate_timers s = do
  bail_if (ltb 0 s.keepalive_idle_secs && s.keepalive_interval_secs == 0) zero_keepalive_interval
  bail_if (ltb 0 s.keepalive_idle_secs && s.keepalive_retries == 0) zero_keepalive_retries
  bail_if (s.probe_interval_secs == 0) zero_probe_interval
  bail_if (s.unreachable_after_secs == 0) zero_unreachable_after
  bail_if (s.udp_session_timeout_secs == 0) zero_udp_session_timeout
  bail_if (not (within 1 max_udp_sessions s.udp_max_sessions))
      (udp_max_sessions_range s.udp_max_sessions)

unfoldable pub validate :
    (Text → Bool) → (Text → Result Text (Unit {0})) → Settings → Result SettingsError (Unit {0})
unfolding validate_limits validate_timers metrics_addr_error webhook_error
validate parses webhook s = do
  validate_limits s
  metrics_addr_error parses s.metrics_addr
  validate_timers s
  webhook_error webhook s.webhook_url

abbrev floor : ℕ → ℕ → ℕ
floor value least = if ltb value least then least else value

-- `clamp(lo, hi)`.
abbrev pub clamp : ℕ → ℕ → ℕ → ℕ
clamp lo hi n = if ltb n lo then lo else if ltb hi n then hi else n

abbrev pub nonzero : Option ℕ → Option ℕ
nonzero o = if is_some_zero o then none else o

-- `clamp_in_place`, without its log lines.
unfoldable pub clamp_in_place : Settings → Settings
clamp_in_place s = record s {
  report_interval_secs = floor s.report_interval_secs 1;
  sample_interval_secs = floor s.sample_interval_secs 1;
  connect_timeout_secs = floor s.connect_timeout_secs 1;
  dns_timeout_secs = floor s.dns_timeout_secs 1;
  probe_interval_secs = floor s.probe_interval_secs 1;
  unreachable_after_secs = floor s.unreachable_after_secs 1;
  udp_session_timeout_secs = floor s.udp_session_timeout_secs 1;
  buffer_bytes = clamp min_buffer_bytes max_buffer_bytes s.buffer_bytes;
  udp_max_sessions = clamp 1 max_udp_sessions s.udp_max_sessions;
  socket_buffer_bytes = nonzero s.socket_buffer_bytes;
  max_connections = nonzero s.max_connections;
  keepalive_interval_secs =
      if ltb 0 s.keepalive_idle_secs
      then floor s.keepalive_interval_secs 1
      else s.keepalive_interval_secs;
  keepalive_retries =
      if ltb 0 s.keepalive_idle_secs && s.keepalive_retries == 0 then 1 else s.keepalive_retries;
}
