-- ===== src/Metrics/Prometheus.antt =====
-- `push_metric`, `render_prometheus` and `render_webhook_metrics` of `src/metrics.rs`: the body of
-- `/metrics`.
pub mod Lines
pub mod Page
use rfw.Base.{
  Bool, List, [], if◌then◌else◌, keep_if, list_eq, nat_eq, none, not, some, ℕ, ◌++◌, ◌==◌, ◌∷◌,
}
use rfw.Text.{Text, codes}
use rfw.Text.Decimal.{show}
use rfw.Config.Forwarder.{label, protocol_eq, udp}
use rfw.Stats.Registry.{StatsSnapshot}
use rfw.Metrics.Escape.{escape}

-- What a call of `push_metric` names: the metric, its help and kind, and the value it reads.
pub record Family : Type 0 where
  pub name : Text
  pub help : Text
  pub kind : Text
  pub getter : StatsSnapshot → ℕ

unfoldable pub help_line : Text → Text → Text
help_line name help = codes "# HELP " ++ (name ++ b' ' ∷ help)

unfoldable pub type_line : Text → Text → Text
type_line name kind = codes "# TYPE " ++ (name ++ b' ' ∷ kind)

unfoldable pub sample_line : Text → Text → ℕ → Text
sample_line name label value =
    name ++ (codes "{label=\"" ++ (escape label ++ (codes "\"} " ++ show value)))

pub push_samples : Text → Family → List StatsSnapshot → Text
push_samples out f [] = out
push_samples out f (s ∷ snaps) =
    push_samples (out ++ (sample_line f.name s.label (f.getter s) ++ 10 ∷ [])) f snaps

unfoldable pub push_metric : Text → Family → List StatsSnapshot → Text
unfolding push_samples
push_metric out f snaps =
    push_samples
      (out ++ (help_line f.name f.help ++ 10 ∷ []) ++ (type_line f.name f.kind ++ 10 ∷ [])) f snaps

pub push_metrics : Text → List Family → List StatsSnapshot → Text
push_metrics out [] snaps = out
push_metrics out (f ∷ fs) snaps = push_metrics (push_metric out f snaps) fs snaps

-- `u64::from`.
abbrev pub bit : Bool → ℕ
bit b = if b then 1 else 0

abbrev pub counter : Text
counter = codes "counter"

abbrev pub gauge : Text
gauge = codes "gauge"

-- The calls of `push_metric` for every forwarder, in order.
unfoldable pub families : List Family
families =
    record {
      name = codes "rfw_bytes_sent_total";
      help = codes "Lifetime bytes forwarded client->remote.";
      kind = counter;
      getter = λ s. s.bytes_sent;
    }
    ∷ record {
      name = codes "rfw_bytes_received_total";
      help = codes "Lifetime bytes forwarded remote->client.";
      kind = counter;
      getter = λ s. s.bytes_received;
    }
    ∷ record {
      name = codes "rfw_bytes_sent_rate_bps";
      help = codes "Current send throughput (bytes/sec).";
      kind = gauge;
      getter = λ s. s.rate_sent_bps;
    }
    ∷ record {
      name = codes "rfw_bytes_received_rate_bps";
      help = codes "Current receive throughput (bytes/sec).";
      kind = gauge;
      getter = λ s. s.rate_recv_bps;
    }
    ∷ record {
      name = codes "rfw_active_connections";
      help = codes "Currently active connections.";
      kind = gauge;
      getter = λ s. s.active_connections;
    }
    ∷ record {
      name = codes "rfw_rejected_connections_total";
      help = codes "Lifetime connections refused because max_connections was saturated.";
      kind = counter;
      getter = λ s. s.rejected_connections;
    }
    ∷ record {
      name = codes "rfw_listening";
      help = codes "1 while the forwarder's listener is bound and accepting, 0 otherwise.";
      kind = gauge;
      getter = λ s. bit s.listening;
    }
    ∷ []

abbrev pub target_name : Text
target_name = codes "rfw_target_reachable"

abbrev pub target_help : Text
target_help =
    codes
      "1 if the last probe of the target succeeded, 0 if it failed; absent before the first probe."

pub push_targets : Text → List StatsSnapshot → Text
push_targets out [] = out
push_targets out (s ∷ snaps) = elim s.reachable [
  | some up ↦ push_targets (out ++ (sample_line target_name s.label (bit up) ++ 10 ∷ [])) snaps
  | none ↦ push_targets out snaps
]

unfoldable pub udp_families : List Family
udp_families =
    record {
      name = codes "rfw_datagrams_sent_total";
      help = codes "Lifetime UDP datagrams forwarded client->remote.";
      kind = counter;
      getter = λ s. s.datagrams_sent;
    }
    ∷ record {
      name = codes "rfw_datagrams_received_total";
      help = codes "Lifetime UDP datagrams forwarded remote->client.";
      kind = counter;
      getter = λ s. s.datagrams_received;
    }
    ∷ record {
      name = codes "rfw_datagrams_dropped_total";
      help =
          codes
            "Lifetime UDP datagrams dropped (socket buffer full, session limit, target not resolved, send error).";
      kind = counter;
      getter = λ s. s.datagrams_dropped;
    }
    ∷ []

-- The families of datagrams are there only for the forwarders of UDP, if there is one.
pub push_udp : Text → List StatsSnapshot → Text
push_udp out [] = out
push_udp out (s ∷ snaps) = push_metrics out udp_families (s ∷ snaps)

abbrev pub udp_only : List StatsSnapshot → List StatsSnapshot
udp_only = keep_if (λ s. s.protocol == udp)

unfoldable pub render_prometheus : List StatsSnapshot → Text
unfolding push_metrics push_targets push_udp
render_prometheus snaps =
    let out = push_metrics [] families snaps in
    let out' =
      out
      ++ (help_line target_name target_help ++ 10 ∷ [])
      ++ (type_line target_name gauge ++ 10 ∷ []) in
    push_udp (push_targets out' snaps) (udp_only snaps)
