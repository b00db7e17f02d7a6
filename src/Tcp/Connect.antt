-- ===== src/Tcp/Connect.antt =====
-- `resolve_targets`, `connect_racing` and the way of `proxy_connection` to a target, in
-- `src/forwarder.rs`. Times in milliseconds.
pub mod Race
pub mod Reached
use rfw.Base.{
  All, List, Option, Result, [], err, if◌then◌else◌, leb, map, none, ok, some, ℕ, ◌*◌, ◌++◌, ◌+◌,
  ◌∷◌, ◌≤◌,
}
use rfw.Text.{Text}
use rfw.Net.{IpAddr, SocketAddr, address_set}
use rfw.Notify.Event.{Event, dns_changed}
use rfw.Stats.{ForwarderStats, mark_connect_failed, mark_connect_ok, observe_addrs}

-- What the resolver gives before the timeout, if it gives anything.
abbrev pub Lookup : Type 0
Lookup = Option (Result Text (List IpAddr))

pub data ResolveError : Type 0 where
  lookup_timeout no_records : ResolveError
  lookup_failed : Text → ResolveError

with_port : ℕ → IpAddr → SocketAddr
with_port port ip = record { ip = ip; port = port }

unfoldable pub resolve_targets : ℕ → Option IpAddr → Lookup → Result ResolveError (List SocketAddr)
unfolding with_port
resolve_targets port (some ip) lookup = ok (with_port port ip ∷ [])
resolve_targets port none none = err lookup_timeout
resolve_targets port none (some (err e)) = err (lookup_failed e)
resolve_targets port none (some (ok [])) = err no_records
resolve_targets port none (some (ok (ip ∷ ips))) = ok (map (with_port port) (ip ∷ ips))

abbrev pub connect_attempt_delay : ℕ
connect_attempt_delay = 250

-- What a target does with a connection: it opens or refuses it after a time, or never answers.
pub data Answer : Type 0 where
  opens : ℕ → Answer
  refuses : ℕ → Text → Answer
  silent : Answer

pub data ConnectError : Type 0 where
  refused_by : SocketAddr → Text → ConnectError
  timeout_to : SocketAddr → ConnectError
  no_addresses : ConnectError

-- A task of the set: when it has ended, and how.
pub record Attempt : Type 0 where
  pub address : SocketAddr
  pub ended_at : ℕ
  pub failure : Option ConnectError

-- The task that waits for `stagger` before it connects.
unfoldable pub attempt : ℕ → ℕ → SocketAddr → Answer → Attempt
attempt connect_timeout stagger addr (opens d) =
    if leb d connect_timeout
    then record { address = addr; ended_at = stagger + d; failure = none }
    else record {
      address = addr;
      ended_at = stagger + connect_timeout;
      failure = some (timeout_to addr);
    }
attempt connect_timeout stagger addr (refuses d e) =
    if leb d connect_timeout
    then record { address = addr; ended_at = stagger + d; failure = some (refused_by addr e) }
    else record {
      address = addr;
      ended_at = stagger + connect_timeout;
      failure = some (timeout_to addr);
    }
attempt connect_timeout stagger addr silent = record {
  address = addr;
  ended_at = stagger + connect_timeout;
  failure = some (timeout_to addr);
}

-- The tasks that are spawned, for the addresses from the `i`-th one.
unfoldable pub spawned : ℕ → ℕ → List (SocketAddr × Answer) → List Attempt
spawned connect_timeout i [] = []
spawned connect_timeout i ((addr, answer) ∷ addrs) =
    attempt connect_timeout (connect_attempt_delay * i) addr answer
    ∷ spawned connect_timeout (i + 1) addrs

-- The orders in which `join_next` can give the tasks: always one that ends before the others, or
-- together with them.
pub data Joins : List Attempt → List Attempt → Type 0 where
  all_joined : Joins [] []
  join_next :
      (before : List Attempt) (a : Attempt) (after done : List Attempt)
      → All (λ b. a.ended_at ≤ b.ended_at) (before ++ after)
      → Joins (before ++ after) done
      → Joins (before ++ a ∷ after) (a ∷ done)

-- The loop over the tasks as they end, with `last_err`.
join_loop : List Attempt → ConnectError → Result ConnectError SocketAddr
join_loop [] last_err = err last_err
join_loop (a ∷ done) last_err = elim a.failure [ none ↦ ok a.address | some e ↦ join_loop done e ]

unfoldable pub connect_racing : List Attempt → Result ConnectError SocketAddr
unfolding join_loop
connect_racing done = join_loop done no_addresses

pub data ProxyError : Type 0 where
  not_resolved : ResolveError → ProxyError
  not_reached : ConnectError → ProxyError

dns_event : Text → Text → List IpAddr → Option (List IpAddr) → List Event
dns_event label host ips none = []
dns_event label host ips (some old) = dns_changed label host old (address_set ips) ∷ []

-- An address that is configured as a number is not observed.
observe_targets :
    Text → Text → Option IpAddr → List SocketAddr → ForwarderStats → ForwarderStats × List Event
unfolding dns_event
observe_targets label host (some ip) targets s = (s, [])
observe_targets label host none targets s =
    let ips = map (λ a. a.ip) targets in
    let (s', old) = observe_addrs s ips in (s', dns_event label host ips old)

mark_connect :
    ForwarderStats
    → ℕ
    → Result ConnectError SocketAddr
    → ForwarderStats × Result ProxyError SocketAddr
mark_connect s now_ms (ok addr) = (mark_connect_ok s now_ms, ok addr)
mark_connect s now_ms (err e) = (mark_connect_failed s, err (not_reached e))

reach :
    Text
    → Text
    → Option IpAddr
    → (List SocketAddr → List Attempt)
    → ℕ
    → ForwarderStats
    → Result ResolveError (List SocketAddr)
    → ForwarderStats × List Event × Result ProxyError SocketAddr
unfolding observe_targets mark_connect
reach label host literal race now_ms s (err e) = (mark_connect_failed s, [], err (not_resolved e))
reach label host literal race now_ms s (ok targets) =
    let (s', events) = observe_targets label host literal targets s in
    let (s'', r) = mark_connect s' now_ms (connect_racing (race targets)) in (s'', events, r)

-- `proxy_connection` up to the outbound connection. `race` gives the attempts on the targets as they
-- end, and `now_ms` is the time when the race is over.
unfoldable pub reach_target :
    Text
    → Text
    → ℕ
    → Option IpAddr
    → Lookup
    → (List SocketAddr → List Attempt)
    → ℕ
    → ForwarderStats
    → ForwarderStats × List Event × Result ProxyError SocketAddr
unfolding reach
reach_target label host port literal lookup race now_ms s =
    reach label host literal race now_ms s (resolve_targets port literal lookup)
