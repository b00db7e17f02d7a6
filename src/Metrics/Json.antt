-- ===== src/Metrics/Json.antt =====
-- `render_json` of `src/metrics.rs`: the body of `/stats`.

use rfw.Base.{Bool, List, Option, String, [], false, none, some, true, ◌++◌, ◌∷◌}
use rfw.Text.{Text, codes}
use rfw.Text.Decimal.{show}
use rfw.Config.Forwarder.{Protocol, as_str, tcp, udp}
use rfw.Stats.Registry.{StatsSnapshot}
use rfw.Metrics.Escape.{escape}

-- `"name":value`.
abbrev pub member : String → Text → Text
member name value = b'"' ∷ (codes name ++ (codes "\":" ++ value))

abbrev pub quoted : Text → Text
quoted s = b'"' ∷ (s ++ b'"' ∷ [])

abbrev pub comma : Text → Text → Text
comma a b = a ++ b',' ∷ b

abbrev pub target_json : Option Bool → Text
target_json (some true) = codes "true"
target_json (some false) = codes "false"
target_json none = codes "null"

-- `{}` of a `bool`.
abbrev pub bool_json : Bool → Text
bool_json true = codes "true"
bool_json false = codes "false"

-- The members of the datagrams, which only UDP has.
unfoldable pub udp_json : StatsSnapshot → Protocol → Text
udp_json s tcp = []
udp_json s udp =
    b','
    ∷ comma (member "datagrams_sent" (show s.datagrams_sent)) (
        comma (member "datagrams_received" (show s.datagrams_received))
          (member "datagrams_dropped" (show s.datagrams_dropped)))

unfoldable pub entry_json : StatsSnapshot → Text
entry_json s =
    b'{'
    ∷ (comma (member "label" (quoted (escape s.label))) (
          comma (member "protocol" (quoted (as_str s.protocol))) (
            comma (member "bytes_sent" (show s.bytes_sent)) (
              comma (member "bytes_received" (show s.bytes_received)) (
                comma (member "active_connections" (show s.active_connections)) (
                  comma (member "rejected_connections" (show s.rejected_connections)) (
                    comma (member "rate_sent_bps" (show s.rate_sent_bps)) (
                      comma (member "rate_recv_bps" (show s.rate_recv_bps)) (
                        comma (member "listening" (bool_json s.listening))
                          (member "target_reachable" (target_json s.reachable))))))))))
        ++ (udp_json s s.protocol ++ b'}' ∷ []))

-- The entries behind the first one.
entries_json : List StatsSnapshot → Text
entries_json [] = []
entries_json (s ∷ snaps) = b',' ∷ (entry_json s ++ entries_json snaps)

unfoldable pub render_json : List StatsSnapshot → Text
unfolding entries_json
render_json [] = b'[' ∷ b']' ∷ []
render_json (s ∷ snaps) = b'[' ∷ (entry_json s ++ (entries_json snaps ++ b']' ∷ []))
