-- ===== src/Monitor.antt =====
-- `src/monitor.rs`: the verdict on a target, and the alerts on its outages. Time is in milliseconds;
-- a function that notifies returns the events in order.
pub mod Probe
pub mod Udp
pub mod Alert
pub mod Outage
use rfw.Text.{Text, codes}
use rfw.Base.{
  Bool, List, Option, Result, [], err, false, if◌then◌else◌, leb, list_eq, ltb, min, nat_eq, none,
  not, ok, some, true, ℕ, ◌&&◌, ◌++◌, ◌-◌, ◌/◌, ◌==◌, ◌∷◌,
}
use rfw.Net.{IpAddr, SocketAddr, address_set, ip_eq}
use rfw.Config.Forwarder.{label, protocol_eq}
use rfw.Stats.{
  ForwarderStats, IcmpKind, UdpSample, icmp_as_str, last_connect_ok_age, observe_addrs,
  set_target_reachable, udp_sample,
}
use rfw.Notify.Plain.{fmt_duration}
use rfw.Notify.Event.{Event, dns_changed, kind, target_recovered, target_unreachable}

abbrev pub down_probe_interval : ℕ
down_probe_interval = 5_000

abbrev pub kick_min_spacing : ℕ
kick_min_spacing = 1_000

abbrev pub icmp_quiet_ms : ℕ
icmp_quiet_ms = 3_000

pub record ProbeOutcome : Type 0 where
  pub addrs : List IpAddr
  pub result : Result Text (SocketAddr × ℕ)

pub record Downtime : Type 0 where
  pub since : ℕ
  pub alerted : Bool

-- How long `wait_for_tick` sleeps if nothing wakes it.
unfoldable pub tick_wait : ℕ → Bool → ℕ
tick_wait interval is_down = if is_down then min interval down_probe_interval else interval

-- How long it sleeps on after a kick; `-` saturates.
unfoldable pub kick_spacing : ℕ → ℕ → ℕ
kick_spacing previous now = kick_min_spacing - (now - previous)

-- What the monitor of one forwarder changes: the open outage and the counters.
pub record Watch : Type 0 where
  pub down : Option Downtime
  pub stats : ForwarderStats

-- The names that its messages carry.
pub record Target : Type 0 where
  pub label : Text
  pub target : Text
  pub host : Text

dns_event : Target → List IpAddr → Option (List IpAddr) → List Event
dns_event t addrs none = []
dns_event t addrs (some old) = dns_changed t.label t.host old (address_set addrs) ∷ []

unfoldable pub report_dns_change : Target → List IpAddr → Watch → Watch × List Event
unfolding dns_event
report_dns_change t addrs w =
    let (stats, old) = observe_addrs w.stats addrs in
    (record w { stats = stats }, dns_event t addrs old)

recovered : Target → Option SocketAddr → ℕ → Option Downtime → List Event
recovered t address now none = []
recovered t address now (some d) =
    if d.alerted then target_recovered t.label t.target (now - d.since) address ∷ [] else []

unfoldable pub record_up : Target → Option SocketAddr → ℕ → Watch → Watch × List Event
unfolding recovered
record_up t address now w = (
  record { down = none; stats = set_target_reachable w.stats true },
  recovered t address now w.down,
)

-- `get_or_insert_with`.
abbrev opened : ℕ → Option Downtime → Downtime
opened now none = record { since = now; alerted = false }
opened now (some d) = d

-- `threshold` is `knobs.unreachable_after()`.
unfoldable pub record_down : Target → Text → ℕ → ℕ → Watch → Watch × List Event
record_down t error threshold now w =
    let d = opened now w.down in
    let stats = set_target_reachable w.stats false in
    if not d.alerted && leb threshold (now - d.since)
    then (
      record { down = some (record d { alerted = true }); stats = stats },
      target_unreachable t.label t.target (now - d.since) error ∷ [],
    )
    else (record { down = some d; stats = stats }, [])

-- Does a round of `run_monitor` skip its probe? Only when no outage is open and a connection
-- succeeded within the interval.
unfoldable pub skips_probe : ℕ → ℕ → Watch → Bool
skips_probe interval now w = elim w.down [
  | some d ↦ false
  | none ↦ elim (last_connect_ok_age w.stats now) [ none ↦ false | some age ↦ ltb age interval ]
]

abbrev is_empty : List IpAddr → Bool
is_empty [] = true
is_empty (a ∷ l) = false

observe_probe : Target → List IpAddr → Watch → Watch × List Event
observe_probe t addrs w = if is_empty addrs then (w, []) else report_dns_change t addrs w

judge_tcp : Target → ℕ → ℕ → Result Text (SocketAddr × ℕ) → Watch → Watch × List Event
judge_tcp t threshold now (ok (addr, latency)) w = record_up t (some addr) now w
judge_tcp t threshold now (err e) w = record_down t e threshold now w

-- A round of `run_monitor`, behind its wait: `skip` when no probe was made. The outcome is judged at
-- `now`.
unfoldable pub tcp_round : Target → ℕ → ℕ → Option ProbeOutcome → Watch → Watch × List Event
unfolding observe_probe judge_tcp
tcp_round t threshold now none w = record_up t none now w
tcp_round t threshold now (some o) w =
    let (w', changes) = observe_probe t o.addrs w in
    let (w'', alerts) = judge_tcp t threshold now o.result w' in (w'', changes ++ alerts)

pub data UdpVerdict : Type 0 where
  up : UdpVerdict
  down : IcmpKind → ℕ → UdpVerdict
  hold : UdpVerdict

abbrev pub icmp_ms_is : Option (ℕ × IcmpKind) → ℕ → Bool
icmp_ms_is none ms = false
icmp_ms_is (some (m, k)) ms = m == ms

abbrev pub at_least : Option ℕ → ℕ → Bool
at_least none ms = false
at_least (some r) ms = leb ms r

-- The rows of `udp_verdict` behind the first two, against the previous sample.
against : UdpSample → ℕ → UdpVerdict → Option UdpSample → UdpVerdict
against cur icmp_ms bad none = bad
against cur icmp_ms bad (some prev) =
    if not (icmp_ms_is prev.icmp icmp_ms)
    then bad
    else if ltb (cur.now_ms - icmp_ms) icmp_quiet_ms
    then bad
    else if ltb prev.sent cur.sent
    then up
    else hold

verdict_on : UdpSample → Option UdpSample → Option (ℕ × IcmpKind) → UdpVerdict
unfolding against
verdict_on cur prev none = up
verdict_on cur prev (some (icmp_ms, kind)) =
    if at_least cur.reply_ms icmp_ms
    then up
    else against cur icmp_ms (down kind (cur.now_ms - icmp_ms)) prev

unfoldable pub udp_verdict : UdpSample → Option UdpSample → UdpVerdict
unfolding verdict_on
udp_verdict cur prev = verdict_on cur prev cur.icmp

abbrev icmp_error : IcmpKind → ℕ → Text
icmp_error kind age_ms =
    icmp_as_str kind
    ++ (codes " from the target " ++ (fmt_duration (age_ms / 1000) ++ codes " ago; no reply since"))

judge_udp : Target → ℕ → ℕ → Result Text (SocketAddr × ℕ) → UdpVerdict → Watch → Watch × List Event
judge_udp t threshold now (err e) verdict w = record_down t e threshold now w
judge_udp t threshold now (ok (addr, latency)) up w = record_up t (some addr) now w
judge_udp t threshold now (ok (addr, latency)) (down kind age_ms) w =
    record_down t (icmp_error kind age_ms) threshold now w
judge_udp t threshold now (ok (addr, latency)) hold w = (w, [])

-- A round of `run_udp_monitor`, behind its wait; the third result is the next `prev`.
unfoldable pub udp_round :
    Target → ℕ → ℕ → ProbeOutcome → Option UdpSample → Watch → Watch × List Event × Option UdpSample
unfolding observe_probe judge_udp
udp_round t threshold now o prev w =
    let (w', changes) = observe_probe t o.addrs w in
    let cur = udp_sample w'.stats now in
    let (w'', alerts) = judge_udp t threshold now o.result (udp_verdict cur prev) w' in
    (w'', changes ++ alerts, some cur)
