-- ===== src/Stats/Registry.antt =====
-- `StatsSnapshot` and `StatsRegistry` of `src/stats.rs`. The registry is the vector behind its lock;
-- the entry that `register_with_protocol` returns is the one in the vector, which the source shares by
-- reference counting.
pub mod Labels
use rfw.Text.{Text}
use rfw.Base.{
  Bool, List, Option, [], if◌then◌else◌, keep_if, list_eq, map, nat_eq, none, not, some, ℕ, ◌++◌,
  ◌==◌, ◌∷◌,
}
use rfw.Config.Forwarder.{Protocol, label, protocol_eq}
use rfw.Stats.{ForwarderStats, target_reachable, with_protocol}

pub record StatsSnapshot : Type 0 where
  pub label : Text
  pub protocol : Protocol
  pub bytes_sent : ℕ
  pub bytes_received : ℕ
  pub datagrams_sent : ℕ
  pub datagrams_received : ℕ
  pub datagrams_dropped : ℕ
  pub active_connections : ℕ
  pub rejected_connections : ℕ
  pub rate_sent_bps : ℕ
  pub rate_recv_bps : ℕ
  pub listening : Bool
  pub reachable : Option Bool

-- `ForwarderStats::snapshot`.
unfoldable pub stats_snapshot : ForwarderStats → StatsSnapshot
unfolding target_reachable
stats_snapshot s = record {
  label = s.label;
  protocol = s.protocol;
  bytes_sent = s.bytes_sent;
  bytes_received = s.bytes_received;
  datagrams_sent = s.datagrams_sent;
  datagrams_received = s.datagrams_received;
  datagrams_dropped = s.datagrams_dropped;
  active_connections = s.active_connections;
  rejected_connections = s.rejected_connections;
  rate_sent_bps = s.rate_sent_bps;
  rate_recv_bps = s.rate_recv_bps;
  listening = s.listening;
  reachable = target_reachable s;
}

abbrev pub StatsRegistry : Type 0
StatsRegistry = List ForwarderStats

-- `iter().find(|s| s.label() == label)`.
unfoldable pub find_label : StatsRegistry → Text → Option ForwarderStats
find_label [] label = none
find_label (s ∷ stats) label = if s.label == label then some s else find_label stats label

registered :
    StatsRegistry → Text → Protocol → Option ForwarderStats → StatsRegistry × ForwarderStats
registered stats label protocol (some existing) = (stats, existing)
registered stats label protocol none =
    (stats ++ with_protocol label protocol ∷ [], with_protocol label protocol)

unfoldable pub register_with_protocol :
    StatsRegistry → Text → Protocol → StatsRegistry × ForwarderStats
unfolding registered
register_with_protocol stats label protocol =
    registered stats label protocol (find_label stats label)

unfoldable pub remove : StatsRegistry → Text → StatsRegistry
remove stats label = keep_if (λ s. not (s.label == label)) stats

unfoldable pub collect : StatsRegistry → List StatsSnapshot
collect stats = map stats_snapshot stats
