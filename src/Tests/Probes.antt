-- ===== src/Tests/Probes.antt =====
-- Probes of the targets.

use rfw.Base.{List, Option, String, [], err, none, ok, refl, some, ℕ, ◌∷◌, ◌≡◌}
use rfw.Text.{Text, codes}
use rfw.Net.{SocketAddr, v4}
use rfw.Config.Forwarder.{tcp}
use rfw.Stats.{with_protocol}
use rfw.Notify.Event.{ProbeReport}
use rfw.Tcp.Connect.{Attempt, Lookup, ProxyError, connect_racing, reach_target, resolve_targets}
use rfw.Monitor.Probe.{collected, probe_all, probe_target}
use rfw.Monitor.Probe.InOrder.{next_ended, none_left, probe_all_lem}
use rfw.Monitor.Probe.Verdict.{probe_target-verdict, verdict}

abbrev at_http : ℕ → SocketAddr
at_http n = record { ip = v4 n; port = 80 }

-- The second address opens first, after 290 ms.
abbrev second_wins : List SocketAddr → List Attempt
second_wins targets = record { address = at_http 2; ended_at = 290; failure = none } ∷ []

abbrev print : ProxyError → Text
print e = codes "not reached"

abbrev both_ips : Lookup
both_ips = some (ok (v4 1 ∷ v4 2 ∷ []))

probe_run :
    probe_target print 80 none both_ips second_wins 290
    ≡ record { addrs = v4 1 ∷ v4 2 ∷ []; result = ok (at_http 2, 290) }
unfolding probe_target resolve_targets connect_racing
probe_run = refl

probe_target-verdict_example :
    (probe_target print 80 none both_ips second_wins 290).result
    ≡ verdict print 290
        (reach_target
          (codes "web")
          (codes "web.example")
          80
          none
          both_ips
          second_wins
          700
          (with_protocol (codes "web") tcp)).2
probe_target-verdict_example =
    probe_target-verdict print 290 (codes "web") (codes "web.example") 80 none both_ips second_wins
      700 (with_protocol (codes "web") tcp)

abbrev report_of : String → ProbeReport
report_of name = record {
  label = codes name;
  target = codes "web:80";
  protocol = tcp;
  outcome = err (codes "not reached");
}

-- The second task ends first.
abbrev joined_reports : List (Option (ℕ × ProbeReport))
joined_reports = some (1, report_of "b") ∷ some (0, report_of "a") ∷ []

probe_all_lem_example : probe_all joined_reports ≡ report_of "a" ∷ report_of "b" ∷ []
unfolding collected
probe_all_lem_example = probe_all_lem (report_of "a" ∷ report_of "b" ∷ []) joined_reports (
    next_ended ((0, report_of "a") ∷ []) (1, report_of "b") [] ((0, report_of "a") ∷ [])
      (next_ended [] (0, report_of "a") [] [] none_left))
