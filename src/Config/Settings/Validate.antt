-- ===== src/Config/Settings/Validate.antt =====
-- What `validate` accepts.

use rfw.Text.{Text}
use rfw.Base.{
  Bool, Option, Result, arith, err, false, map_err-eq-ok, none, ok, refl, some, true, ℕ, ◌<◌, ◌>>◌,
  ◌↔◌, ◌≡◌, ◌≤◌, ◌⊎◌,
}
use rfw.Config.Settings.{
  Settings, SettingsError, is_some_zero, max_buffer_bytes, max_udp_sessions, metrics_addr_error,
  min_buffer_bytes, validate, validate_limits, validate_timers, webhook_error,
}

abbrev pub Nonzero? : Option ℕ → Type 0
Nonzero? none = Unit
Nonzero? (some n) = 0 < n

-- The limits within which the running process may use the settings.
pub record IsSafe (s : Settings) : Type 0 where
  pub report : 0 < s.report_interval_secs
  pub sample : 0 < s.sample_interval_secs
  pub connect : 0 < s.connect_timeout_secs
  pub dns : 0 < s.dns_timeout_secs
  pub buffer : (min_buffer_bytes ≤ s.buffer_bytes) × (s.buffer_bytes ≤ max_buffer_bytes)
  pub socket_buffer : Nonzero? s.socket_buffer_bytes
  pub connections : Nonzero? s.max_connections
  pub keepalive :
      (s.keepalive_idle_secs ≡ 0) ⊎ ((0 < s.keepalive_interval_secs) × (0 < s.keepalive_retries))
  pub probe : 0 < s.probe_interval_secs
  pub unreachable : 0 < s.unreachable_after_secs
  pub session : 0 < s.udp_session_timeout_secs
  pub sessions : (0 < s.udp_max_sessions) × (s.udp_max_sessions ≤ max_udp_sessions)

-- The halves of `validate` that read numbers.
abbrev Limits : Settings → Type 0
Limits s =
    (0 < s.report_interval_secs)
    × (0 < s.sample_interval_secs)
    × (0 < s.connect_timeout_secs)
    × (0 < s.dns_timeout_secs)
    × (min_buffer_bytes ≤ s.buffer_bytes)
    × (s.buffer_bytes ≤ max_buffer_bytes)
    × Nonzero? s.socket_buffer_bytes
    × Nonzero? s.max_connections

is_some_zero_iff : (o : Option ℕ) → (is_some_zero o ≡ false) ↔ Nonzero? o
is_some_zero_iff none = ((λ h. tt), λ h. refl)
is_some_zero_iff (some n) = ground arith

validate_limits_iff : (s : Settings) → (validate_limits s ≡ ok tt) ↔ Limits s
unfolding validate_limits
validate_limits_iff s =
    ground (arith, is_some_zero_iff s.socket_buffer_bytes, is_some_zero_iff s.max_connections)

validate_timers_iff :
    (s : Settings)
    → (validate_timers s ≡ ok tt) ↔ (
        ((s.keepalive_idle_secs ≡ 0)
          ⊎ ((0 < s.keepalive_interval_secs) × (0 < s.keepalive_retries)))
        × (0 < s.probe_interval_secs)
        × (0 < s.unreachable_after_secs)
        × (0 < s.udp_session_timeout_secs)
        × (0 < s.udp_max_sessions)
        × (s.udp_max_sessions ≤ max_udp_sessions))
unfolding validate_timers
validate_timers_iff s = ground arith

-- Text settings that the two parsers accept.
abbrev pub ParsesAddr : (Text → Bool) → Option Text → Type 0
ParsesAddr parses none = Unit
ParsesAddr parses (some addr) = parses addr ≡ true

abbrev pub ParsesUrl : (Text → Result Text (Unit {0})) → Option Text → Type 0
ParsesUrl webhook none = Unit
ParsesUrl webhook (some url) = webhook url ≡ ok tt

module _ (parses : Text → Bool) (webhook : Text → Result Text (Unit {0})) where
  metrics_addr_error_iff :
      (o : Option Text) → (metrics_addr_error parses o ≡ ok tt) ↔ ParsesAddr parses o
  unfolding metrics_addr_error
  metrics_addr_error_iff none = ((λ h. tt), λ h. refl)
  metrics_addr_error_iff (some a) = ground arith

  webhook_error_iff : (o : Option Text) → (webhook_error webhook o ≡ ok tt) ↔ ParsesUrl webhook o
  unfolding webhook_error
  webhook_error_iff none = ((λ h. tt), λ h. refl)
  webhook_error_iff (some a) = ((λ h. map_err-eq-ok _ (webhook a) h), λ h. rw h)

  >>-iff :
      (m k : Result SettingsError (Unit {0})) → ((m >> k) ≡ ok tt) ↔ ((m ≡ ok tt) × (k ≡ ok tt))
  >>-iff (ok u) k = ((λ h. (refl, h)), λ h. h.1)
  >>-iff (err e) k = ground arith

  -- `validate` accepts exactly the settings within the limits whose metrics address and webhook URL
  -- parse.
  pub validate_iff :
      (s : Settings)
      → (validate parses webhook s ≡ ok tt)
        ↔ (IsSafe s × ParsesAddr parses s.metrics_addr × ParsesUrl webhook s.webhook_url)
  unfolding validate
  validate_iff s = ground (
    arith,
    >>-iff (validate_limits s) (
        metrics_addr_error parses s.metrics_addr
        >> (validate_timers s >> webhook_error webhook s.webhook_url)),
    >>-iff (metrics_addr_error parses s.metrics_addr)
        (validate_timers s >> webhook_error webhook s.webhook_url),
    >>-iff (validate_timers s) (webhook_error webhook s.webhook_url),
    validate_limits_iff s,
    validate_timers_iff s,
    metrics_addr_error_iff s.metrics_addr,
    webhook_error_iff s.webhook_url,
  )
