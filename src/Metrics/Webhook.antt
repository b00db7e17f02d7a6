-- ===== src/Metrics/Webhook.antt =====
-- `render_webhook_metrics` of `src/metrics.rs`, and `NotifierSnapshot` of `src/notify.rs`.

use rfw.Base.{Bool, List, [], ℕ, ◌++◌, ◌∷◌}
use rfw.Text.{Text, codes}
use rfw.Text.Decimal.{show}
use rfw.Notify.Worker.{NotifierCounters}
use rfw.Metrics.Prometheus.{bit, counter, gauge, help_line, type_line}

pub record NotifierSnapshot : Type 0 where
  pub enabled : Bool
  pub sent : ℕ
  pub failed : ℕ
  pub dropped : ℕ
  pub suppressed : ℕ

-- `NotifierCounters::snapshot`; `enabled` is set when there is a webhook.
unfoldable pub counters_snapshot : Bool → NotifierCounters → NotifierSnapshot
counters_snapshot enabled c = record {
  enabled = enabled;
  sent = c.sent;
  failed = c.failed;
  dropped = c.dropped;
  suppressed = c.suppressed;
}

-- What a call of `single` names: the metric, its help and kind, and its value.
pub record Single : Type 0 where
  pub name : Text
  pub help : Text
  pub kind : Text
  pub value : ℕ

unfoldable pub value_line : Text → ℕ → Text
value_line name value = name ++ b' ' ∷ show value

unfoldable pub single : Text → Single → Text
single out m =
    out
    ++ (help_line m.name m.help ++ 10 ∷ [])
    ++ (type_line m.name m.kind ++ 10 ∷ [])
    ++ (value_line m.name m.value ++ 10 ∷ [])

push_singles : Text → List Single → Text
push_singles out [] = out
push_singles out (m ∷ ms) = push_singles (single out m) ms

unfoldable pub singles : NotifierSnapshot → List Single
singles n =
    record {
      name = codes "rfw_webhook_enabled";
      help = codes "1 if a webhook URL is configured, 0 otherwise.";
      kind = gauge;
      value = bit n.enabled;
    }
    ∷ record {
      name = codes "rfw_webhook_sent_total";
      help = codes "Alert messages accepted by the webhook.";
      kind = counter;
      value = n.sent;
    }
    ∷ record {
      name = codes "rfw_webhook_failed_total";
      help = codes "Alert messages given up on after the retry budget.";
      kind = counter;
      value = n.failed;
    }
    ∷ record {
      name = codes "rfw_webhook_dropped_total";
      help = codes "Alert events dropped because the delivery queue was full.";
      kind = counter;
      value = n.dropped;
    }
    ∷ record {
      name = codes "rfw_webhook_suppressed_total";
      help = codes "Alert events folded into a later message by the per-kind throttle.";
      kind = counter;
      value = n.suppressed;
    }
    ∷ []

unfoldable pub render_webhook_metrics : NotifierSnapshot → Text
unfolding push_singles
render_webhook_metrics n = push_singles [] (singles n)
