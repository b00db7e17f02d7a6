-- ===== src/Config/Knobs.antt =====
-- `RuntimeKnobs` of `src/config.rs`: the settings that connections read live. Each atomic is a field;
-- a duration is a number of seconds.
pub mod Live
use rfw.Base.{Bool, Option, false, if◌then◌else◌, list_eq, max, nat_eq, none, some, ℕ, ◌==◌}
use rfw.Config.Settings.{Settings, clamp_in_place}

-- 0 in `socket_buffer_bytes` stands for the default of the system, and in `keepalive_idle_secs` for
-- no keepalive.
pub record RuntimeKnobs : Type 0 where
  pub buffer_bytes : ℕ
  pub socket_buffer_bytes : ℕ
  pub use_splice : Bool
  pub connect_timeout_secs : ℕ
  pub dns_timeout_secs : ℕ
  pub keepalive_idle_secs : ℕ
  pub keepalive_interval_secs : ℕ
  pub keepalive_retries : ℕ
  pub probe_interval_secs : ℕ
  pub unreachable_after_secs : ℕ
  pub udp_session_timeout_secs : ℕ
  pub udp_gro_gso : Bool

pub record KeepaliveConfig : Type 0 where
  pub idle : ℕ
  pub interval : ℕ
  pub retries : ℕ

pub record KnobSnapshot : Type 0 where
  pub buffer_bytes : ℕ
  pub socket_buffer_bytes : Option ℕ
  pub use_splice : Bool
  pub connect_timeout : ℕ
  pub dns_timeout : ℕ
  pub keepalive : Option KeepaliveConfig

abbrev or_zero : Option ℕ → ℕ
or_zero none = 0
or_zero (some n) = n

-- The stores of `update`, after the clamp.
abbrev store : RuntimeKnobs → Settings → RuntimeKnobs
store k s = record k {
  buffer_bytes = s.buffer_bytes;
  socket_buffer_bytes = or_zero s.socket_buffer_bytes;
  use_splice = s.use_splice;
  connect_timeout_secs = s.connect_timeout_secs;
  dns_timeout_secs = s.dns_timeout_secs;
  keepalive_idle_secs = s.keepalive_idle_secs;
  keepalive_interval_secs = s.keepalive_interval_secs;
  keepalive_retries = s.keepalive_retries;
  probe_interval_secs = s.probe_interval_secs;
  unreachable_after_secs = s.unreachable_after_secs;
  udp_session_timeout_secs = s.udp_session_timeout_secs;
  udp_gro_gso = s.udp_gro_gso;
}

unfoldable pub update : RuntimeKnobs → Settings → RuntimeKnobs
update k s = store k (clamp_in_place s)

unfoldable pub from_settings : Settings → RuntimeKnobs
unfolding update
from_settings s = update initial s
  where
    initial : RuntimeKnobs
    initial = record {
      buffer_bytes = 65536;
      socket_buffer_bytes = 0;
      use_splice = false;
      connect_timeout_secs = 10;
      dns_timeout_secs = 5;
      keepalive_idle_secs = 60;
      keepalive_interval_secs = 10;
      keepalive_retries = 3;
      probe_interval_secs = 30;
      unreachable_after_secs = 300;
      udp_session_timeout_secs = 60;
      udp_gro_gso = false;
    }

unfoldable pub udp_session_timeout : RuntimeKnobs → ℕ
udp_session_timeout k = max k.udp_session_timeout_secs 1

unfoldable pub probe_interval : RuntimeKnobs → ℕ
probe_interval k = max k.probe_interval_secs 1

unfoldable pub unreachable_after : RuntimeKnobs → ℕ
unreachable_after k = max k.unreachable_after_secs 1

unfoldable pub keepalive : RuntimeKnobs → Option KeepaliveConfig
keepalive k =
    if k.keepalive_idle_secs == 0
    then none
    else some (record {
      idle = k.keepalive_idle_secs;
      interval = max k.keepalive_interval_secs 1;
      retries = max k.keepalive_retries 1;
    })

unfoldable pub socket_buffer : RuntimeKnobs → Option ℕ
socket_buffer k = if k.socket_buffer_bytes == 0 then none else some k.socket_buffer_bytes

unfoldable pub connect_timeout : RuntimeKnobs → ℕ
connect_timeout k = max k.connect_timeout_secs 1

unfoldable pub dns_timeout : RuntimeKnobs → ℕ
dns_timeout k = max k.dns_timeout_secs 1

unfoldable pub snapshot : RuntimeKnobs → KnobSnapshot
unfolding keepalive socket_buffer connect_timeout dns_timeout
snapshot k = record {
  buffer_bytes = k.buffer_bytes;
  socket_buffer_bytes = socket_buffer k;
  use_splice = k.use_splice;
  connect_timeout = connect_timeout k;
  dns_timeout = dns_timeout k;
  keepalive = keepalive k;
}
