-- ===== src/Tests/Delivery.antt =====
-- Runs of the delivery of alerts.

use rfw.Text.Decimal.{parse_digits, parse_uint}
use rfw.Text.{Text, codes, trim}
use rfw.Base.{
  All, List, [], arith, false, length, none, refl, some, suc, true, ℕ, ◌%◌, ◌++◌, ◌+◌, ◌∷◌, ◌≡◌,
  ◌≤◌,
}
use rfw.Stats.{u64_max}
use rfw.Notify.Event.{Event, connection_limit_reached, stopping, throttle}
use rfw.Notify.Worker.{
  Alerting, Link, answered, deliver, delivered, is_retryable, judge, max_retry_after, notify,
  parse_retry_after, process, queue_capacity,
}
use rfw.Notify.Worker.Balance.{forgotten}
use rfw.Notify.Throttle.{Throttle, admit, get, prune}
use rfw.Notify.Worker.Retries.{deliver_lem}
use rfw.Notify.Worker.Answers.{Account, Paced, SpentAt, copies, replies, total_wait}
use rfw.Notify.Worker.Counted.{Alerts_lem, known, nothing, notified, worked}

-- A busy server, which names a delay, and then a good answer.
abbrev link : Link
link = record {
  answers = answered 429 (some (codes "7")) [] ∷ answered 200 none [] ∷ [];
  posted = [];
  waited = 0;
}

abbrev hello : Text
hello = codes "hello"

deliver_run :
    deliver hello link
    ≡ (record { answers = []; posted = hello ∷ hello ∷ []; waited = 7000 }, delivered)
unfolding deliver judge parse_retry_after parse_uint parse_digits is_retryable trim
deliver_run = refl

deliver_lem_example :
    let (k, r) = deliver hello link in
    (waits : List ℕ) × (length waits ≤ 2)
    × (k.posted ≡ [] ++ copies (suc (length waits)) hello)
    × (k.waited ≡ 0 + total_wait waits)
    × All (λ w. w ≤ max_retry_after) waits
    × Paced 1 (replies (suc (length waits)) link.answers) waits
    × Account (replies (suc (length waits)) link.answers) r
    × SpentAt (length waits) 2 r
deliver_lem_example = deliver_lem hello link

abbrev alerting : Alerting
alerting = record {
  enabled = true;
  queue = [];
  closed = false;
  worker = record {
    counters = record { sent = 0; failed = 0; dropped = 0; suppressed = 0 };
    throttled = [];
    last_send = none;
    link = link;
  };
}

abbrev alert : Event
alert = stopping (codes "SIGTERM") 2

abbrev in_words : Event → ℕ → Text
in_words event suppressed = hello

abbrev waiting : Alerting
waiting = record alerting { queue = alert ∷ [] }

abbrev done : Alerting
done = record waiting { queue = []; worker = process in_words alert 100 waiting.worker }

Alerts_lem_example :
    (known done % (u64_max + 1) ≡ (0 + (0 + 1)) % (u64_max + 1))
    × (length done.queue ≤ queue_capacity)
unfolding notify
Alerts_lem_example =
    Alerts_lem in_words {s = alerting} {s' = done} {n = 0 + 1} (omega arith)
      (worked alert [] 100 (notified alert nothing refl) refl)

-- Two rejected connections 10 ms apart, and another event more than an hour later.
abbrev limited : Event
limited = connection_limit_reached (codes "dns") 1

abbrev late_calls : List (Event × ℕ)
late_calls = (limited, 0) ∷ (limited, 10) ∷ (alert, 4_000_000) ∷ []

-- The count of the second one is dropped with its entry.
forgotten_run : forgotten in_words (codes "limit:dns") late_calls alerting.worker ≡ 1
unfolding process throttle admit get rfw.Notify.Throttle.prune
forgotten_run = refl
