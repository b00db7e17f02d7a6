-- ===== src/Tests/Alerts.antt =====
-- Counters, alerts and verdicts.

use rfw.Text.{Text, codes}
use rfw.Base.{List, [], arith, err, list_eq, nat_eq, none, refl, some, ◌++◌, ◌↔◌, ◌∷◌, ◌≡◌, ◌⊎◌}
use rfw.Net.{IpAddr, address_set, ip_eq, v4}
use rfw.Config.Forwarder.{protocol_eq, udp}
use rfw.Stats.{
  ForwarderStats, UdpSample, mark_udp_icmp_error, never_ms, port_unreachable, with_protocol,
}
use rfw.Notify.Event.{target_recovered, target_unreachable}
use rfw.Notify.Throttle.{get}
use rfw.Monitor.{ProbeOutcome, Target, Watch, record_up, udp_verdict, up}
use rfw.Monitor.Alert.{failing, outage_announced_once}
use rfw.Monitor.Outage.{Round, alerted, outage, outage-play_all, play_all, tcp_at}
use rfw.Monitor.Udp.{Replied, WentQuiet, udp_verdict-up_iff}

abbrev answer : List IpAddr
answer = v4 2 ∷ v4 1 ∷ v4 2 ∷ []

abbrev reordered : List IpAddr
reordered = v4 1 ∷ v4 2 ∷ []

abbrev fresh : ForwarderStats
fresh = with_protocol (codes "dns") udp

abbrev seen : ForwarderStats
seen = record fresh { last_addrs = some (address_set answer) }

nothing_sent : get (codes "dns") [] ≡ none
unfolding get
nothing_sent = refl

abbrev target : Target
target = record { label = codes "dns"; target = codes "db:53"; host = codes "db" }

abbrev idle : Watch
idle = record { down = none; stats = fresh }

abbrev refused : ProbeOutcome
refused = record { addrs = v4 1 ∷ []; result = err (codes "refused") }

abbrev rounds : List Round
rounds = tcp_at 10 0 (some refused) ∷ tcp_at 10 30 (some refused) ∷ tcp_at 10 60 none ∷ []

outage-play_all_example :
    outage (alerted idle) (play_all target rounds idle).1
    ≡ some (alerted (play_all target rounds idle).0)
outage-play_all_example = outage-play_all target rounds idle

outage_announced_once_example :
    let p = failing target (codes "refused") 10 (0 ∷ ((5 ∷ []) ++ 30 ∷ 40 ∷ [])) idle in
    (p.1 ≡ target_unreachable (codes "dns") (codes "db:53") 30 (codes "refused") ∷ [])
    × ((record_up target none 60 p.0).1
        ≡ target_recovered (codes "dns") (codes "db:53") 60 none ∷ [])
outage_announced_once_example =
    outage_announced_once target (codes "refused") 10 0 30 60 (5 ∷ []) (40 ∷ []) none idle refl
      (omega arith) (omega arith, tt) (omega arith)

abbrev quiet : UdpSample
quiet = record { now_ms = 9_000; icmp = some (1_000, port_unreachable); reply_ms = none; sent = 5 }

udp_verdict-up_iff_example : (udp_verdict quiet (some quiet) ≡ up) ↔ (
    (quiet.icmp ≡ none)
    ⊎ Replied quiet.icmp quiet.reply_ms
    ⊎ WentQuiet quiet quiet.icmp (some quiet))
udp_verdict-up_iff_example = udp_verdict-up_iff quiet (some quiet)

-- An ICMP error at 100 ms.
abbrev unreachable : ForwarderStats
unreachable = mark_udp_icmp_error fresh 100 port_unreachable

error_time : unreachable.udp_icmp_error_ms ≡ 100
unfolding mark_udp_icmp_error
error_time = refl

reply_time : unreachable.last_connect_ok_ms ≡ never_ms
unfolding mark_udp_icmp_error with_protocol
reply_time = refl

no_reply : fresh.last_connect_ok_ms ≡ never_ms
unfolding with_protocol
no_reply = refl

-- Two lines, a tab and a backtick.
abbrev hostile : Text
hostile = b'a' ∷ 10 ∷ 9 ∷ b'`' ∷ b'c' ∷ []
