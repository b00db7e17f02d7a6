-- ===== src/Monitor/Udp.antt =====
-- `udp_verdict` of `src/monitor.rs`: when a UDP target is taken to be up or down.

use rfw.Base.{
  Option, Option-cases, arith, false, inl, inr, none, some, subst, true, ℕ, ◌+◌, ◌-◌, ◌<◌, ◌↔◌, ◌≡◌,
  ◌≤◌, ◌⊎◌,
}
use rfw.Stats.{
  ForwarderStats, IcmpKind, UdpSample, mark_connect_ok_at, mark_udp_icmp_error, never_ms,
  udp_sample,
}
use rfw.Stats.Evidence.{reply_after_error, udp_sample-mark_udp_icmp_error}
use rfw.Monitor.{at_least, down, hold, icmp_ms_is, icmp_quiet_ms, udp_verdict, up}

-- A reply was recorded that is not older than the error.
abbrev pub Replied : Option (ℕ × IcmpKind) → Option ℕ → Type 0
Replied (some (ms, k)) (some r) = ms ≤ r
Replied _ _ = ⊥

-- The error is the one of the previous sample and 3 seconds old, and datagrams were sent since then.
abbrev pub WentQuiet : UdpSample → Option (ℕ × IcmpKind) → Option UdpSample → Type 0
WentQuiet cur (some (ms, k)) (some prev) =
    (icmp_ms_is prev.icmp ms ≡ true) × (icmp_quiet_ms ≤ cur.now_ms - ms) × (prev.sent < cur.sent)
WentQuiet cur _ _ = ⊥

-- The verdict on the samples of a target is up exactly when there is no ICMP error, a reply is not
-- older than the error, or the error went quiet under traffic: it was in the previous sample, is 3
-- seconds old, and datagrams were sent since that sample.
pub udp_verdict-up_iff :
    (cur : UdpSample) (prev : Option UdpSample)
    → (udp_verdict cur prev ≡ up)
      ↔ ((cur.icmp ≡ none) ⊎ Replied cur.icmp cur.reply_ms ⊎ WentQuiet cur cur.icmp prev)
unfolding udp_verdict
udp_verdict-up_iff cur prev = ground arith

-- The verdict is held exactly when the error is the one of the previous sample, 3 seconds old and
-- later than every reply, and no datagram was sent since then.
pub udp_verdict-hold_iff :
    (cur prev : UdpSample) (ms : ℕ) (k : IcmpKind)
    → cur.icmp ≡ some (ms, k)
    → (udp_verdict cur (some prev) ≡ hold) ↔ (
        (at_least cur.reply_ms ms ≡ false)
        × (icmp_ms_is prev.icmp ms ≡ true)
        × (icmp_quiet_ms ≤ cur.now_ms - ms)
        × (cur.sent ≤ prev.sent))
unfolding udp_verdict
udp_verdict-hold_iff cur prev ms k e = ground arith

icmp-mark_connect_ok_at :
    (s : ForwarderStats) (now later m : ℕ) (k : IcmpKind)
    → (udp_sample (mark_connect_ok_at s now) later).icmp ≡ some (m, k)
    → s.udp_icmp_error_ms ≡ m
unfolding udp_sample mark_connect_ok_at
icmp-mark_connect_ok_at s now later m k e = ground arith

up_without_error :
    (cur : UdpSample) (prev : Option UdpSample) → cur.icmp ≡ none → udp_verdict cur prev ≡ up
unfolding udp_verdict
up_without_error cur prev e = ground arith

up_on_reply :
    (cur : UdpSample) (prev : Option UdpSample) (r m : ℕ) (k : IcmpKind)
    → cur.reply_ms ≡ some r
    → cur.icmp ≡ some (m, k)
    → m ≤ r
    → udp_verdict cur prev ≡ up
unfolding udp_verdict
up_on_reply cur prev r m k e h le = ground arith

-- A reply at or after the latest ICMP error makes the next verdict up, also when the throttle drops
-- it.
pub up-mark_connect_ok_at :
    (s : ForwarderStats) (now later : ℕ) (prev : Option UdpSample)
    → s.last_connect_ok_ms ≤ never_ms
    → s.udp_icmp_error_ms < never_ms
    → s.udp_icmp_error_ms ≤ now
    → now < never_ms
    → udp_verdict (udp_sample (mark_connect_ok_at s now) later) prev ≡ up
up-mark_connect_ok_at s now later prev h1 h2 h3 h4 =
    let (r, e, le) = reply_after_error s now later h1 h2 h3 h4 in
    let cur = udp_sample (mark_connect_ok_at s now) later in
    elim (Option-cases cur.icmp) [
      | inl h ↦ up_without_error cur prev h
      | inr ((m, k), h) ↦
          up_on_reply cur prev r m k e h
            (subst (λ x. x ≤ r) (icmp-mark_connect_ok_at s now later m k h) le)
    ]

-- An ICMP error later than every recorded reply makes the next verdict down, for 3 seconds.
pub down-mark_udp_icmp_error :
    (s : ForwarderStats) (now later : ℕ) (kind : IcmpKind) (prev : Option UdpSample)
    → now < never_ms
    → (s.last_connect_ok_ms ≡ never_ms) ⊎ (s.last_connect_ok_ms < now)
    → later < now + icmp_quiet_ms
    → udp_verdict (udp_sample (mark_udp_icmp_error s now kind) later) prev ≡ down kind (later - now)
unfolding udp_verdict udp_sample
down-mark_udp_icmp_error s now later kind prev h1 h2 h3 =
    let (sample, _) = udp_sample-mark_udp_icmp_error s now later kind h1 in rw sample (ground arith)
