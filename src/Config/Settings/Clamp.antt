-- ===== src/Config/Settings/Clamp.antt =====
-- What `clamp_in_place` makes of settings.

use rfw.Text.{Text}
use rfw.Base.{
  Bool, Option, Result, arith, if◌then◌else◌, list_eq, ltb, nat_eq, none, ok, refl, some, ℕ, ◌&&◌,
  ◌<◌, ◌==◌, ◌↔◌, ◌≡◌, ◌≤◌, ◌⊎◌,
}
use rfw.Config.Settings.{
  Settings, clamp, clamp_in_place, floor, max_buffer_bytes, max_udp_sessions, min_buffer_bytes,
  nonzero, validate,
}
use rfw.Config.Settings.Validate.{IsSafe, Nonzero?, ParsesAddr, ParsesUrl, validate_iff}

nonzero-Nonzero? : (o : Option ℕ) → Nonzero? (nonzero o)
nonzero-Nonzero? none = tt
nonzero-Nonzero? (some n) = ground arith

nonzero_fixed : (o : Option ℕ) → Nonzero? o → nonzero o ≡ o
nonzero_fixed none h = refl
nonzero_fixed (some n) h = ground arith

-- Clamped settings are within all limits, whatever they were.
pub clamp_in_place-IsSafe : (s : Settings) → IsSafe (clamp_in_place s)
unfolding clamp_in_place
clamp_in_place-IsSafe s = record {
  report = ground arith;
  sample = ground arith;
  connect = ground arith;
  dns = ground arith;
  buffer = ground arith;
  socket_buffer = nonzero-Nonzero? s.socket_buffer_bytes;
  connections = nonzero-Nonzero? s.max_connections;
  keepalive = ground arith;
  probe = ground arith;
  unreachable = ground arith;
  session = ground arith;
  sessions = ground arith;
}

floor_fixed : (n : ℕ) → 0 < n → floor n 1 ≡ n
floor_fixed n h = ground arith

clamp_fixed : (lo hi n : ℕ) → lo ≤ n → n ≤ hi → clamp lo hi n ≡ n
clamp_fixed lo hi n h k = ground arith

keepalive_fixed :
    (idle interval retries : ℕ)
    → (idle ≡ 0) ⊎ ((0 < interval) × (0 < retries))
    → ((if ltb 0 idle then floor interval 1 else interval) ≡ interval)
      × ((if ltb 0 idle && retries == 0 then 1 else retries) ≡ retries)
keepalive_fixed idle interval retries h = ground arith

-- Settings within the limits are left as they are.
pub clamp_in_place_fixed : (s : Settings) → IsSafe s → clamp_in_place s ≡ s
unfolding clamp_in_place
clamp_in_place_fixed s v = λ i. record s {
  report_interval_secs = floor_fixed s.report_interval_secs v.report i;
  sample_interval_secs = floor_fixed s.sample_interval_secs v.sample i;
  connect_timeout_secs = floor_fixed s.connect_timeout_secs v.connect i;
  dns_timeout_secs = floor_fixed s.dns_timeout_secs v.dns i;
  probe_interval_secs = floor_fixed s.probe_interval_secs v.probe i;
  unreachable_after_secs = floor_fixed s.unreachable_after_secs v.unreachable i;
  udp_session_timeout_secs = floor_fixed s.udp_session_timeout_secs v.session i;
  buffer_bytes =
      clamp_fixed min_buffer_bytes max_buffer_bytes s.buffer_bytes v.buffer.0 v.buffer.1 i;
  udp_max_sessions = clamp_fixed 1 max_udp_sessions s.udp_max_sessions v.sessions.0 v.sessions.1 i;
  socket_buffer_bytes = nonzero_fixed s.socket_buffer_bytes v.socket_buffer i;
  max_connections = nonzero_fixed s.max_connections v.connections i;
  keepalive_interval_secs =
      (keepalive_fixed s.keepalive_idle_secs s.keepalive_interval_secs s.keepalive_retries
          v.keepalive).0
        i;
  keepalive_retries =
      (keepalive_fixed s.keepalive_idle_secs s.keepalive_interval_secs s.keepalive_retries
          v.keepalive).1
        i;
}

module _ (parses : Text → Bool) (webhook : Text → Result Text (Unit {0})) where
  -- After clamping, `validate` refuses nothing but a metrics address or webhook URL that does not
  -- parse, and the clamp changes neither.
  pub validate-clamp_in_place :
      (s : Settings)
      → (validate parses webhook (clamp_in_place s) ≡ ok tt)
        ↔ (ParsesAddr parses s.metrics_addr × ParsesUrl webhook s.webhook_url)
  unfolding clamp_in_place
  validate-clamp_in_place s =
      let (to, from) = validate_iff parses webhook (clamp_in_place s) in
      ((λ h. let t = to h in (t.1, t.2)), λ h. from (clamp_in_place-IsSafe s, h.0, h.1))
