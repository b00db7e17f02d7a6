-- ===== src/Stats/Evidence.antt =====
-- What `udp_sample` shows of the marks that were made.

use rfw.Base.{Bool-cases, arith, inl, inr, refl, some, true, ℕ, ◌+◌, ◌<◌, ◌≡◌, ◌≤◌, ◌⊎◌}
use rfw.Stats.{
  ForwarderStats, IcmpKind, due, host_unreachable, mark_connect_ok_at, mark_udp_icmp_error,
  network_unreachable, never_ms, port_unreachable, udp_sample,
}

-- A reply at or after the latest ICMP error shows in the next sample as a reply that is not older
-- than the error, also when the throttle drops it.
pub reply_after_error :
    (s : ForwarderStats) (now later : ℕ)
    → s.last_connect_ok_ms ≤ never_ms
    → s.udp_icmp_error_ms < never_ms
    → s.udp_icmp_error_ms ≤ now
    → now < never_ms
    → (r : ℕ) × ((udp_sample (mark_connect_ok_at s now) later).reply_ms ≡ some r)
      × (s.udp_icmp_error_ms ≤ r)
unfolding udp_sample mark_connect_ok_at
reply_after_error s now later h1 h2 h3 h4 =
    elim (Bool-cases (due s.last_connect_ok_ms s.udp_icmp_error_ms now)) [
      | inl t ↦ (now, ground arith, h3)
      | inr f ↦ (s.last_connect_ok_ms, ground arith, ground arith)
    ]

-- An ICMP error is sampled with its kind and its time, wakes the monitor, and leaves the replies and
-- the traffic as they were.
pub udp_sample-mark_udp_icmp_error :
    (s : ForwarderStats) (now later : ℕ) (kind : IcmpKind)
    → now < never_ms
    → let s' = mark_udp_icmp_error s now kind in
      (udp_sample s' later ≡ record (udp_sample s later) { icmp = some (now, kind) })
      × (s'.probe_kick ≡ true)
unfolding udp_sample mark_udp_icmp_error
udp_sample-mark_udp_icmp_error s now later port_unreachable h = (ground arith, refl)
udp_sample-mark_udp_icmp_error s now later host_unreachable h = (ground arith, refl)
udp_sample-mark_udp_icmp_error s now later network_unreachable h = (ground arith, refl)

-- Within 100 ms of a recorded reply, and with no newer ICMP error, a reply is not recorded.
pub mark_connect_ok_at_throttled :
    (s : ForwarderStats) (now : ℕ)
    → now < s.last_connect_ok_ms + 100
    → now < never_ms
    → s.last_connect_ok_ms < never_ms
    → (s.udp_icmp_error_ms ≡ never_ms) ⊎ (s.udp_icmp_error_ms < s.last_connect_ok_ms)
    → mark_connect_ok_at s now ≡ s
unfolding mark_connect_ok_at
mark_connect_ok_at_throttled s now h1 h2 h3 h4 = ground arith
