-- ===== src/Monitor/Probe/Verdict.antt =====
-- A probe against the connection of a client.

use rfw.Base.{List, Option, Result, ap, err, ok, refl, sym, ℕ, ◌∙◌, ◌≡◌}
use rfw.Text.{Text}
use rfw.Net.{IpAddr, SocketAddr}
use rfw.Stats.{ForwarderStats}
use rfw.Tcp.Connect.{
  Attempt, ConnectError, Lookup, ProxyError, ResolveError, connect_racing, reach_target,
  resolve_targets,
}
use rfw.Tcp.Connect.Reached.{race_result, reach_target-reached, reached}
use rfw.Monitor.Probe.{connected, probe_found, probe_target}

-- What a probe says of a way to the target.
abbrev pub verdict :
    (ProxyError → Text) → ℕ → Result ProxyError SocketAddr → Result Text (SocketAddr × ℕ)
verdict print elapsed (ok addr) = ok (addr, elapsed)
verdict print elapsed (err e) = err (print e)

module _ (print : ProxyError → Text) (elapsed : ℕ) where
  connected-verdict :
      (r : Result ConnectError SocketAddr)
      → connected print elapsed r ≡ verdict print elapsed (race_result r)
  unfolding connected
  connected-verdict (ok addr) = refl
  connected-verdict (err e) = refl

  probe_found-verdict :
      (literal : Option IpAddr) (race : List SocketAddr → List Attempt)
      (found : Result ResolveError (List SocketAddr))
      → (probe_found print literal race elapsed found).result
        ≡ verdict print elapsed (reached race found)
  unfolding probe_found
  probe_found-verdict literal race (err e) = refl
  probe_found-verdict literal race (ok targets) = connected-verdict (connect_racing (race targets))

  -- With the same lookup and the same answers of the addresses, a probe of the monitor finds what a
  -- client's connection finds: the same address, or the text of the same error.
  pub probe_target-verdict :
      (label host : Text) (port : ℕ) (literal : Option IpAddr) (lookup : Lookup)
      (race : List SocketAddr → List Attempt) (now_ms : ℕ) (s : ForwarderStats)
      → (probe_target print port literal lookup race elapsed).result
        ≡ verdict print elapsed (reach_target label host port literal lookup race now_ms s).2
  unfolding probe_target
  probe_target-verdict label host port literal lookup race now_ms s =
      probe_found-verdict literal race (resolve_targets port literal lookup)
      ∙ ap (verdict print elapsed)
          (sym (reach_target-reached label host port literal lookup race now_ms s))
