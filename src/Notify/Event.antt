-- ===== src/Notify/Event.antt =====
-- `Severity`, `ProbeReport` and `Event` of `src/notify.rs`. Durations are in milliseconds.

use rfw.Text.{Text, codes}
use rfw.Base.{
  Bool, List, Option, Result, any, err, false, if◌then◌else◌, none, ok, some, true, ℕ, ◌++◌,
}
use rfw.Net.{IpAddr, SocketAddr}
use rfw.Config.Forwarder.{Protocol, label}

pub data Severity : Type 0 where
  info warning critical : Severity

-- `outcome` is the address that answered and the latency, or the error.
pub record ProbeReport : Type 0 where
  pub label : Text
  pub target : Text
  pub protocol : Protocol
  pub outcome : Result Text (SocketAddr × ℕ)

-- The fields in the order of the source.
pub data Event : Type 0 where
  started : List ProbeReport → Event
  stopping : Text → ℕ → Event
  dns_changed : Text → Text → List IpAddr → List IpAddr → Event
  target_unreachable : Text → Text → ℕ → Text → Event
  target_recovered : Text → Text → ℕ → Option SocketAddr → Event
  bind_failed : Text → Text → Text → ℕ → Event
  bind_recovered : Text → Text → ℕ → Event
  config_reloaded : ℕ → List Text → List Text → Event
  config_reload_failed : Text → Text → Event
  connection_limit_reached : Text → ℕ → Event
  udp_session_limit_reached : Text → ℕ → Event
  internal : Text → Text → Event

abbrev pub kind : Event → Text
kind (started forwarders) = codes "started"
kind (stopping signal active) = codes "stopping"
kind (dns_changed label host old new) = codes "dns_changed"
kind (target_unreachable label target down_for error) = codes "target_unreachable"
kind (target_recovered label target down_for address) = codes "target_recovered"
kind (bind_failed label addr error attempts) = codes "bind_failed"
kind (bind_recovered label addr attempts) = codes "bind_recovered"
kind (config_reloaded active added removed) = codes "config_reloaded"
kind (config_reload_failed path error) = codes "config_reload_failed"
kind (connection_limit_reached label rejected) = codes "connection_limit_reached"
kind (udp_session_limit_reached label rejected) = codes "udp_session_limit_reached"
kind (internal component message) = codes "internal"

abbrev failed : ProbeReport → Bool
failed r = elim r.outcome [ ok o ↦ false | err e ↦ true ]

unfoldable pub severity : Event → Severity
severity (started forwarders) = if any failed forwarders then warning else info
severity (stopping signal active) = info
severity (dns_changed label host old new) = info
severity (target_recovered label target down_for address) = info
severity (bind_recovered label addr attempts) = info
severity (config_reloaded active added removed) = info
severity (config_reload_failed path error) = warning
severity (connection_limit_reached label rejected) = warning
severity (udp_session_limit_reached label rejected) = warning
severity (internal component message) = warning
severity (target_unreachable label target down_for error) = critical
severity (bind_failed label addr error attempts) = critical

abbrev pub throttle_dns : ℕ
throttle_dns = 60_000

abbrev pub throttle_bind : ℕ
throttle_bind = 300_000

abbrev pub throttle_limit : ℕ
throttle_limit = 300_000

abbrev pub throttle_reload_failed : ℕ
throttle_reload_failed = 60_000

abbrev pub throttle_internal : ℕ
throttle_internal = 60_000

-- The key and the window of a repetitive event.
unfoldable pub throttle : Event → Option (Text × ℕ)
throttle (dns_changed label host old new) = some (codes "dns:" ++ label, throttle_dns)
throttle (bind_failed label addr error attempts) = some (codes "bind:" ++ label, throttle_bind)
throttle (connection_limit_reached label rejected) = some (codes "limit:" ++ label, throttle_limit)
throttle (udp_session_limit_reached label rejected) = some (codes "limit:" ++ label, throttle_limit)
throttle (config_reload_failed path error) = some (codes "reload-failed", throttle_reload_failed)
throttle (internal component message) = some (codes "internal:" ++ component, throttle_internal)
throttle _ = none
