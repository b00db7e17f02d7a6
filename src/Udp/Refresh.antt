-- ===== src/Udp/Refresh.antt =====
-- `same_addr_set` and `run_dns_refresher` of `src/udp.rs`.
pub mod Current
use rfw.Base.{
  Bool, List, Option, Result, [], err, if◌then◌else◌, list_eq, ltb, map, nat_eq, none, ok, some, ℕ,
  ◌&&◌, ◌++◌, ◌+◌, ◌==◌, ◌||◌, ◌∷◌,
}
use rfw.Text.{Text}
use rfw.Net.{IpAddr, SocketAddr, address_set, ip_eq, ip_ltb}
use rfw.Stats.{ForwarderStats, mark_connect_failed, observe_addrs}
use rfw.Notify.Event.{Event, dns_changed}
use rfw.Tcp.Connect.{Lookup, ResolveError, resolve_targets}
use rfw.Udp.Engine.{addr_eq}

-- `Ord` of the addresses: by the address, then by the port.
abbrev addr_ltb : SocketAddr → SocketAddr → Bool
addr_ltb a b = ip_ltb a.ip b.ip || (a.ip == b.ip && ltb a.port b.port)

insert_addr : SocketAddr → List SocketAddr → List SocketAddr
insert_addr a [] = a ∷ []
insert_addr a (b ∷ l) = if addr_ltb b a then b ∷ insert_addr a l else a ∷ b ∷ l

sort_addrs : List SocketAddr → List SocketAddr
sort_addrs [] = []
sort_addrs (a ∷ l) = insert_addr a (sort_addrs l)

dedup_addrs_after : SocketAddr → List SocketAddr → List SocketAddr
dedup_addrs_after a [] = []
dedup_addrs_after a (b ∷ l) = if a == b then dedup_addrs_after a l else b ∷ dedup_addrs_after b l

-- `dedup`.
dedup_addrs : List SocketAddr → List SocketAddr
dedup_addrs [] = []
dedup_addrs (a ∷ l) = a ∷ dedup_addrs_after a l

unfoldable pub same_addr_set : List SocketAddr → List SocketAddr → Bool
unfolding sort_addrs insert_addr dedup_addrs dedup_addrs_after
same_addr_set a b = dedup_addrs (sort_addrs a) == dedup_addrs (sort_addrs b)

-- The addresses that are published to the sessions, how often they were changed, and what was told.
pub record Refresher : Type 0 where
  pub stats : ForwarderStats
  pub published : List SocketAddr
  pub changes : ℕ
  pub told : List Event

-- `send_if_modified`.
abbrev publish : List SocketAddr → Refresher → Refresher
publish addrs r =
    if same_addr_set r.published addrs
    then r
    else record r { published = addrs; changes = r.changes + 1 }

change_event : Text → Text → List IpAddr → Option (List IpAddr) → List Event
change_event label host ips none = []
change_event label host ips (some old) = dns_changed label host old (address_set ips) ∷ []

refreshed : Text → Text → Result ResolveError (List SocketAddr) → Refresher → Refresher
refreshed label host (err e) r = record r { stats = mark_connect_failed r.stats }
refreshed label host (ok addrs) r =
    let ips = map (λ a. a.ip) addrs in
    let (s', old) = observe_addrs r.stats ips in
    publish addrs (record r { stats = s'; told = r.told ++ change_event label host ips old })

-- One round of the loop.
unfoldable pub refresh : Text → Text → ℕ → Lookup → Refresher → Refresher
unfolding refreshed change_event
refresh label host port lookup r = refreshed label host (resolve_targets port none lookup) r

-- The rounds until the forwarder is cancelled.
unfoldable pub run_dns_refresher : Text → Text → ℕ → List Lookup → Refresher → Refresher
run_dns_refresher label host port [] r = r
run_dns_refresher label host port (lookup ∷ lookups) r =
    run_dns_refresher label host port lookups (refresh label host port lookup r)
