-- ===== src/Tcp/Connect/Reached.antt =====
-- What the way to a target leaves for the monitor.

use rfw.Text.{Text}
use rfw.Base.{
  List, Option, Result, [], ap, err, map, none, ok, refl, some, subst, sym, true, ℕ, ◌↔◌, ◌∷◌, ◌≡◌,
}
use rfw.Net.{IpAddr, SocketAddr, address_set}
use rfw.Stats.{ForwarderStats, mark_connect_failed, mark_connect_ok, observe_addrs}
use rfw.Tcp.Connect.{
  Attempt, ConnectError, Lookup, ProxyError, ResolveError, connect_racing, dns_event, mark_connect,
  not_reached, not_resolved, observe_targets, reach, reach_target, resolve_targets, with_port,
}
use rfw.Net.AddressSet.{SameMembers}
use rfw.Stats.Observe.{Untouched, observe_addrs-Untouched, observe_addrs_lem}
use rfw.Notify.Event.{Event, dns_changed}

-- A connection that was made is evidence at its time; a failure wakes the monitor and is no evidence.
abbrev pub Recorded : ℕ → ForwarderStats → ForwarderStats → Result ProxyError SocketAddr → Type 0
Recorded now_ms s s' (ok a) = (s'.last_connect_ok_ms ≡ now_ms) × (s'.probe_kick ≡ s.probe_kick)
Recorded now_ms s s' (err e) =
    (s'.last_connect_ok_ms ≡ s.last_connect_ok_ms) × (s'.probe_kick ≡ true)

observe_targets-Untouched :
    (label host : Text) (literal : Option IpAddr) (targets : List SocketAddr) (s : ForwarderStats)
    → Untouched s (observe_targets label host literal targets s).0
unfolding observe_targets
observe_targets-Untouched label host (some ip) targets s = (refl, refl)
observe_targets-Untouched label host none targets s =
    observe_addrs-Untouched s (map (λ a. a.ip) targets)

mark_connect-Recorded :
    (s s' : ForwarderStats) (now_ms : ℕ) (r : Result ConnectError SocketAddr)
    → Untouched s s'
    → let (s'', r') = mark_connect s' now_ms r in Recorded now_ms s s'' r'
unfolding mark_connect mark_connect_ok mark_connect_failed
mark_connect-Recorded s s' now_ms (ok a) (kept, kick) = (refl, kick)
mark_connect-Recorded s s' now_ms (err e) (kept, kick) = (kept, refl)

reach-Recorded :
    (label host : Text) (literal : Option IpAddr) (race : List SocketAddr → List Attempt)
    (now_ms : ℕ) (s : ForwarderStats) (found : Result ResolveError (List SocketAddr))
    → let (s', events, r) = reach label host literal race now_ms s found in Recorded now_ms s s' r
unfolding reach mark_connect_failed
reach-Recorded label host literal race now_ms s (err e) = (refl, refl)
reach-Recorded label host literal race now_ms s (ok targets) =
    mark_connect-Recorded s (observe_targets label host literal targets s).0 now_ms
      (connect_racing (race targets)) (observe_targets-Untouched label host literal targets s)

-- A connection that reaches its target is recorded as evidence at that time and does not wake the
-- monitor; one that does not, at the lookup or in the race, wakes it and leaves the evidence as it was.
pub reach_target-Recorded :
    (label host : Text) (port : ℕ) (literal : Option IpAddr) (lookup : Lookup)
    (race : List SocketAddr → List Attempt) (now_ms : ℕ) (s : ForwarderStats)
    → let (s', events, r) = reach_target label host port literal lookup race now_ms s in
      Recorded now_ms s s' r
unfolding reach_target
reach_target-Recorded label host port literal lookup race now_ms s =
    reach-Recorded label host literal race now_ms s (resolve_targets port literal lookup)

map-ip : (port : ℕ) (ips : List IpAddr) → map (λ a. a.ip) (map (with_port port) ips) ≡ ips
unfolding with_port
map-ip port [] = refl
map-ip port (ip ∷ ips) = ap (λ l. ip ∷ l) (map-ip port ips)

dns_event-none :
    (label host : Text) (ips : List IpAddr) (o : Option (List IpAddr))
    → (dns_event label host ips o ≡ []) ↔ (o ≡ none)
unfolding dns_event
dns_event-none label host ips none = (λ e. refl, λ e. refl)
dns_event-none label host ips (some old) = (λ e. cc, λ e. cc)

-- The events of an answer that comes when `seen` were observed: none if the addresses are the same ones,
-- and otherwise the change from the ones to the others.
abbrev pub ToldChange : Text → Text → List IpAddr → List IpAddr → List Event → Type 0
ToldChange label host seen ips events =
    ((events ≡ []) ↔ SameMembers seen ips)
    × ((events ≡ dns_changed label host (address_set seen) (address_set ips) ∷ [])
        ↔ ¬ SameMembers seen ips)

dns_event-ToldChange :
    (label host : Text) (s : ForwarderStats) (seen ips : List IpAddr)
    → s.last_addrs ≡ some (address_set seen)
    → ToldChange label host seen ips (dns_event label host ips (observe_addrs s ips).1)
unfolding dns_event
dns_event-ToldChange label host s seen ips e =
    let (stored, quiet, told) = observe_addrs_lem s seen ips e in
    let same = dns_event-none label host ips (observe_addrs s ips).1 in
    (
      (λ h. quiet.0 (same.0 h), λ m. same.1 (quiet.1 m)),
      (λ h m. absurd (cc (h, same.1 (quiet.1 m))), λ d. ap (dns_event label host ips) (told.1 d)),
    )

-- When a lookup by name finds addresses, and others or the same were observed before, a change is told
-- exactly if they are not the same ones, and nothing else is told, whether or not the target is reached.
pub reach_target-told :
    (label host : Text) (port : ℕ) (ip : IpAddr) (ips seen : List IpAddr)
    (race : List SocketAddr → List Attempt) (now_ms : ℕ) (s : ForwarderStats)
    → s.last_addrs ≡ some (address_set seen)
    → ToldChange label host seen
        (ip ∷ ips)
        (reach_target label host port none (some (ok (ip ∷ ips))) race now_ms s).1
unfolding reach_target reach resolve_targets observe_targets
reach_target-told label host port ip ips seen race now_ms s e =
    subst
      (λ l. ToldChange label host seen (ip ∷ ips) (dns_event label host l (observe_addrs s l).1))
      (sym (map-ip port (ip ∷ ips))) (dns_event-ToldChange label host s seen (ip ∷ ips) e)

abbrev pub race_result : Result ConnectError SocketAddr → Result ProxyError SocketAddr
race_result (ok addr) = ok addr
race_result (err e) = err (not_reached e)

-- What the way to a target comes to.
abbrev pub reached :
    (List SocketAddr → List Attempt)
    → Result ResolveError (List SocketAddr)
    → Result ProxyError SocketAddr
reached race (ok targets) = race_result (connect_racing (race targets))
reached race (err e) = err (not_resolved e)

mark_connect-race_result :
    (s : ForwarderStats) (now_ms : ℕ) (r : Result ConnectError SocketAddr)
    → (mark_connect s now_ms r).1 ≡ race_result r
unfolding mark_connect
mark_connect-race_result s now_ms (ok addr) = refl
mark_connect-race_result s now_ms (err e) = refl

reach-reached :
    (label host : Text) (literal : Option IpAddr) (race : List SocketAddr → List Attempt)
    (now_ms : ℕ) (s : ForwarderStats) (found : Result ResolveError (List SocketAddr))
    → (reach label host literal race now_ms s found).2 ≡ reached race found
unfolding reach
reach-reached label host literal race now_ms s (err e) = refl
reach-reached label host literal race now_ms s (ok targets) =
    mark_connect-race_result (observe_targets label host literal targets s).0 now_ms
      (connect_racing (race targets))

pub reach_target-reached :
    (label host : Text) (port : ℕ) (literal : Option IpAddr) (lookup : Lookup)
    (race : List SocketAddr → List Attempt) (now_ms : ℕ) (s : ForwarderStats)
    → (reach_target label host port literal lookup race now_ms s).2
      ≡ reached race (resolve_targets port literal lookup)
unfolding reach_target
reach_target-reached label host port literal lookup race now_ms s =
    reach-reached label host literal race now_ms s (resolve_targets port literal lookup)
