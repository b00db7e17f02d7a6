-- ===== src/Stats.antt =====
-- `src/stats.rs`: the counters and the evidence that a forwarder keeps. Each atomic is a field, and a
-- method returns the new record; `now_ms` is the clock that a method reads, in milliseconds since
-- `epoch`.
pub mod Counting
pub mod Evidence
pub mod Observe
pub mod Registry
use rfw.Text.{Text, codes}
use rfw.Base.{
  Bool, List, Option, false, if◌then◌else◌, leb, list_eq, min, nat_eq, none, not, some, true, ℕ,
  ◌%◌, ◌&&◌, ◌+◌, ◌-◌, ◌==◌, ◌||◌,
}
use rfw.Net.{IpAddr, address_set, ip_eq}
use rfw.Config.Forwarder.{Protocol, label, protocol_eq}

pub data IcmpKind : Type 0 where
  port_unreachable host_unreachable network_unreachable : IcmpKind

abbrev pub icmp_as_str : IcmpKind → Text
icmp_as_str port_unreachable = codes "port unreachable"
icmp_as_str host_unreachable = codes "host unreachable"
icmp_as_str network_unreachable = codes "network unreachable"

-- `kind as u8`.
abbrev icmp_to_u8 : IcmpKind → ℕ
icmp_to_u8 port_unreachable = 1
icmp_to_u8 host_unreachable = 2
icmp_to_u8 network_unreachable = 3

abbrev icmp_from_u8 : ℕ → Option IcmpKind
icmp_from_u8 v =
    if v == 1
    then some port_unreachable
    else if v == 2
    then some host_unreachable
    else if v == 3
    then some network_unreachable
    else none

pub record UdpSample : Type 0 where
  pub now_ms : ℕ
  pub icmp : Option (ℕ × IcmpKind)
  pub reply_ms : Option ℕ
  pub sent : ℕ

abbrev pub u64_max : ℕ
u64_max = 18_446_744_073_709_551_615

abbrev target_unknown : ℕ
target_unknown = 0

abbrev target_up : ℕ
target_up = 1

abbrev target_down : ℕ
target_down = 2

-- `NEVER_MS`.
abbrev pub never_ms : ℕ
never_ms = u64_max

-- `probe_kick` holds whether a wake-up is stored for the monitor.
pub record ForwarderStats : Type 0 where
  pub label : Text
  pub protocol : Protocol
  pub bytes_sent : ℕ
  pub bytes_received : ℕ
  pub datagrams_sent : ℕ
  pub datagrams_received : ℕ
  pub datagrams_dropped : ℕ
  pub active_connections : ℕ
  pub rejected_connections : ℕ
  pub rate_sent_bps : ℕ
  pub rate_recv_bps : ℕ
  pub last_sample_sent : ℕ
  pub last_sample_recv : ℕ
  pub listening : Bool
  pub target_state : ℕ
  pub last_addrs : Option (List IpAddr)
  pub last_connect_ok_ms : ℕ
  pub probe_kick : Bool
  pub udp_icmp_error_ms : ℕ
  pub udp_icmp_kind : ℕ

unfoldable pub with_protocol : Text → Protocol → ForwarderStats
with_protocol label protocol = record {
  label = label;
  protocol = protocol;
  bytes_sent = 0;
  bytes_received = 0;
  datagrams_sent = 0;
  datagrams_received = 0;
  datagrams_dropped = 0;
  active_connections = 0;
  rejected_connections = 0;
  rate_sent_bps = 0;
  rate_recv_bps = 0;
  last_sample_sent = 0;
  last_sample_recv = 0;
  listening = false;
  target_state = target_unknown;
  last_addrs = none;
  last_connect_ok_ms = never_ms;
  probe_kick = false;
  udp_icmp_error_ms = never_ms;
  udp_icmp_kind = 0;
}

-- `fetch_add` and `fetch_sub` wrap around.
abbrev fetch_add : ℕ → ℕ → ℕ
fetch_add counter n = (counter + n) % (u64_max + 1)

abbrev fetch_sub : ℕ → ℕ → ℕ
fetch_sub counter n = (counter + (u64_max + 1) - n) % (u64_max + 1)

unfoldable pub set_listening : ForwarderStats → Bool → ForwarderStats
set_listening s on = record s { listening = on }

unfoldable pub add_sent : ForwarderStats → ℕ → ForwarderStats
add_sent s n = record s { bytes_sent = fetch_add s.bytes_sent n }

unfoldable pub add_received : ForwarderStats → ℕ → ForwarderStats
add_received s n = record s { bytes_received = fetch_add s.bytes_received n }

unfoldable pub inc_connections : ForwarderStats → ForwarderStats
inc_connections s = record s { active_connections = fetch_add s.active_connections 1 }

unfoldable pub dec_connections : ForwarderStats → ForwarderStats
dec_connections s = record s { active_connections = fetch_sub s.active_connections 1 }

unfoldable pub inc_rejected : ForwarderStats → ForwarderStats
inc_rejected s = record s { rejected_connections = fetch_add s.rejected_connections 1 }

unfoldable pub add_rejected : ForwarderStats → ℕ → ForwarderStats
add_rejected s n = record s { rejected_connections = fetch_add s.rejected_connections n }

unfoldable pub add_datagrams_sent : ForwarderStats → ℕ → ForwarderStats
add_datagrams_sent s n = record s { datagrams_sent = fetch_add s.datagrams_sent n }

unfoldable pub add_datagrams_received : ForwarderStats → ℕ → ForwarderStats
add_datagrams_received s n = record s { datagrams_received = fetch_add s.datagrams_received n }

unfoldable pub add_datagrams_dropped : ForwarderStats → ℕ → ForwarderStats
add_datagrams_dropped s n = record s { datagrams_dropped = fetch_add s.datagrams_dropped n }

observe_set :
    ForwarderStats → List IpAddr → Option (List IpAddr) → ForwarderStats × Option (List IpAddr)
observe_set s sorted none = (record s { last_addrs = some sorted }, none)
observe_set s sorted (some prev) =
    if prev == sorted then (s, none) else (record s { last_addrs = some sorted }, some prev)

-- The previous set, if there was one and it differs.
unfoldable pub observe_addrs : ForwarderStats → List IpAddr → ForwarderStats × Option (List IpAddr)
unfolding observe_set
observe_addrs s addrs = observe_set s (address_set addrs) s.last_addrs

-- Is a reply due to be recorded? Once per 100 ms, and always if an ICMP error is not older than the
-- reply that is recorded. The sum saturates.
abbrev due : ℕ → ℕ → ℕ → Bool
due last icmp now_ms =
    last == never_ms
    || leb (min (last + 100) u64_max) now_ms
    || (not (icmp == never_ms) && leb last icmp)

unfoldable pub mark_connect_ok_at : ForwarderStats → ℕ → ForwarderStats
mark_connect_ok_at s now_ms =
    if due s.last_connect_ok_ms s.udp_icmp_error_ms now_ms
    then record s { last_connect_ok_ms = now_ms }
    else s

unfoldable pub mark_udp_icmp_error : ForwarderStats → ℕ → IcmpKind → ForwarderStats
mark_udp_icmp_error s now_ms kind = record s {
  udp_icmp_kind = icmp_to_u8 kind;
  udp_icmp_error_ms = now_ms;
  probe_kick = true;
}

unfoldable pub mark_connect_ok : ForwarderStats → ℕ → ForwarderStats
mark_connect_ok s now_ms = record s { last_connect_ok_ms = now_ms }

unfoldable pub mark_connect_failed : ForwarderStats → ForwarderStats
mark_connect_failed s = record s { probe_kick = true }

-- In milliseconds; `-` saturates as `saturating_sub` does.
unfoldable pub last_connect_ok_age : ForwarderStats → ℕ → Option ℕ
last_connect_ok_age s now_ms =
    if s.last_connect_ok_ms == never_ms then none else some (now_ms - s.last_connect_ok_ms)

unfoldable pub udp_sample : ForwarderStats → ℕ → UdpSample
udp_sample s now_ms = record {
  now_ms = now_ms;
  icmp = if s.udp_icmp_error_ms == never_ms then none else elim (icmp_from_u8 s.udp_icmp_kind) [
    | none ↦ none
    | some k ↦ some (s.udp_icmp_error_ms, k)
  ];
  reply_ms = if s.last_connect_ok_ms == never_ms then none else some s.last_connect_ok_ms;
  sent = s.datagrams_sent;
}

unfoldable pub set_target_reachable : ForwarderStats → Bool → ForwarderStats
set_target_reachable s reachable = record s {
  target_state = if reachable then target_up else target_down;
}

unfoldable pub target_reachable : ForwarderStats → Option Bool
target_reachable s =
    if s.target_state == target_up
    then some true
    else if s.target_state == target_down
    then some false
    else none
