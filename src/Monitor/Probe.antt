-- ===== src/Monitor/Probe.antt =====
-- `probe_target`, `probe_udp_target` and `probe_all` of `src/monitor.rs`.
pub mod InOrder
pub mod Verdict
use rfw.Base.{List, Option, Result, [], err, if◌then◌else◌, ltb, map, none, ok, some, ℕ, ◌∷◌}
use rfw.Text.{Text, codes}
use rfw.Net.{IpAddr, SocketAddr}
use rfw.Notify.Event.{ProbeReport}
use rfw.Tcp.Connect.{
  Attempt, ConnectError, Lookup, ProxyError, ResolveError, connect_racing, not_reached,
  not_resolved, resolve_targets,
}
use rfw.Monitor.{ProbeOutcome}

observed : Option IpAddr → List SocketAddr → List IpAddr
observed (some ip) targets = []
observed none targets = map (λ a. a.ip) targets

-- The result of the race, with the time that it took. `print` is `to_string` of an error.
connected : (ProxyError → Text) → ℕ → Result ConnectError SocketAddr → Result Text (SocketAddr × ℕ)
connected print elapsed (ok addr) = ok (addr, elapsed)
connected print elapsed (err e) = err (print (not_reached e))

probe_found :
    (ProxyError → Text)
    → Option IpAddr
    → (List SocketAddr → List Attempt)
    → ℕ
    → Result ResolveError (List SocketAddr)
    → ProbeOutcome
unfolding observed connected
probe_found print literal race elapsed (err e) = record {
  addrs = [];
  result = err (print (not_resolved e));
}
probe_found print literal race elapsed (ok targets) = record {
  addrs = observed literal targets;
  result = connected print elapsed (connect_racing (race targets));
}

unfoldable pub probe_target :
    (ProxyError → Text)
    → ℕ
    → Option IpAddr
    → Lookup
    → (List SocketAddr → List Attempt)
    → ℕ
    → ProbeOutcome
unfolding probe_found
probe_target print port literal lookup race elapsed =
    probe_found print literal race elapsed (resolve_targets port literal lookup)

first_of : List SocketAddr → ℕ → Result Text (SocketAddr × ℕ)
first_of [] elapsed = err (codes "no address resolved")
first_of (a ∷ targets) elapsed = ok (a, elapsed)

resolved :
    (ProxyError → Text) → Option IpAddr → ℕ → Result ResolveError (List SocketAddr) → ProbeOutcome
unfolding observed first_of
resolved print literal elapsed (err e) = record {
  addrs = [];
  result = err (print (not_resolved e));
}
resolved print literal elapsed (ok targets) = record {
  addrs = observed literal targets;
  result = first_of targets elapsed;
}

-- UDP has no handshake, so the lookup is all.
unfoldable pub probe_udp_target :
    (ProxyError → Text) → ℕ → Option IpAddr → Lookup → ℕ → ProbeOutcome
unfolding resolved
probe_udp_target print port literal lookup elapsed =
    resolved print literal elapsed (resolve_targets port literal lookup)

insert_by_key {ℓ} : {A : Type ℓ} → ℕ × A → List (ℕ × A) → List (ℕ × A)
insert_by_key x [] = x ∷ []
insert_by_key x (y ∷ l) = if ltb y.0 x.0 then y ∷ insert_by_key x l else x ∷ y ∷ l

-- `sort_by_key(|(i, _)| *i)`, which is stable.
unfoldable pub sort_by_key {ℓ} : {A : Type ℓ} → List (ℕ × A) → List (ℕ × A)
unfolding insert_by_key
sort_by_key [] = []
sort_by_key (x ∷ l) = insert_by_key x (sort_by_key l)

-- The reports that the tasks of the set gave, in the order in which they ended; a task that failed gave
-- none.
unfoldable pub collected : List (Option (ℕ × ProbeReport)) → List (ℕ × ProbeReport)
collected [] = []
collected (none ∷ joined) = collected joined
collected (some r ∷ joined) = r ∷ collected joined

unfoldable pub probe_all : List (Option (ℕ × ProbeReport)) → List ProbeReport
probe_all joined = map (λ r. r.1) (sort_by_key (collected joined))
