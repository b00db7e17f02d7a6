-- ===== src/Notify/Worker/Counted.antt =====
-- The counters of the alerts.

use rfw.Text.{Text}
use rfw.Base.{
  Bool-cases, List, [], ap, arith, inl, inr, leb, length, length-append, refl, subst, suc, sym,
  true, ℕ, ◌%◌, ◌++◌, ◌+◌, ◌<◌, ◌||◌, ◌∷◌, ◌≡◌, ◌≤◌,
}
use rfw.Stats.{u64_max}
use rfw.Notify.Event.{Event, throttle}
use rfw.Notify.Throttle.{Admit, Throttle, send, suppress}
use rfw.Notify.Worker.{
  Alerting, Delivery, NotifierCounters, Worker, admitted, count_delivery, delivered, drop_event,
  final, notify, on_admit, process, queue_capacity, send_event, spent,
}

-- The events that the counters tell of, and those that wait.
abbrev counted : NotifierCounters → ℕ
counted c = c.sent + c.failed + c.dropped + c.suppressed

abbrev pub known : Alerting → ℕ
known s = counted s.worker.counters + length s.queue

abbrev OneMore : NotifierCounters → NotifierCounters → Type 0
OneMore c c' = counted c' % (u64_max + 1) ≡ (counted c + 1) % (u64_max + 1)

count_delivery-OneMore : (c : NotifierCounters) (r : Delivery) → OneMore c (count_delivery c r)
unfolding count_delivery
count_delivery-OneMore c delivered = omega arith
count_delivery-OneMore c (final e) = omega arith
count_delivery-OneMore c (spent e) = omega arith

module _ (render : Event → ℕ → Text) where
  on_admit-OneMore :
      (event : Event) (now : ℕ) (w : Worker) (t : Throttle × Admit)
      → OneMore w.counters (on_admit render event now w t).counters
  unfolding on_admit send_event
  on_admit-OneMore event now w (t, suppress) = omega arith
  on_admit-OneMore event now w (t, send n) = count_delivery-OneMore w.counters _

  -- Producers notify, the worker takes the first event of the queue, and is stopped.
  pub data Alerts : Alerting → Alerting → ℕ → Type 0 where
    nothing : {s : Alerting} → Alerts s s 0
    notified :
        {s s' : Alerting} {n : ℕ} (event : Event)
        → Alerts s s' n
        → s'.enabled ≡ true
        → Alerts s (notify event s') (n + 1)
    worked :
        {s s' : Alerting} {n : ℕ} (event : Event) (rest : List Event) (now : ℕ)
        → Alerts s s' n
        → s'.queue ≡ event ∷ rest
        → Alerts s (record s' { queue = rest; worker = process render event now s'.worker }) n
    stopped : {s s' : Alerting} {n : ℕ} → Alerts s s' n → Alerts s (record s' { closed = true }) n

  known-notify :
      (event : Event) (s : Alerting)
      → s.enabled ≡ true
      → length s.queue ≤ queue_capacity
      → (known (notify event s) % (u64_max + 1) ≡ (known s + 1) % (u64_max + 1))
        × (length (notify event s).queue ≤ queue_capacity)
  unfolding notify
  known-notify event s on fits =
      elim (Bool-cases (s.closed || leb queue_capacity (length s.queue))) [
        | inl t ↦
            let chosen : notify event s ≡ drop_event s = rw (notify, on, t) refl in
            subst
              (λ x.
                (known x % (u64_max + 1) ≡ (known s + 1) % (u64_max + 1))
                × (length x.queue ≤ queue_capacity))
              (sym chosen) (omega arith, fits)
        | inr f ↦
            let queued = record s { queue = s.queue ++ event ∷ [] } in
            let chosen : notify event s ≡ queued = rw (notify, on, f) refl in
            let size : length (s.queue ++ event ∷ []) ≡ length s.queue + 1 =
              length-append s.queue (event ∷ []) in
            let room : length s.queue < queue_capacity = ground (arith, f) in
            subst
              (λ x.
                (known x % (u64_max + 1) ≡ (known s + 1) % (u64_max + 1))
                × (length x.queue ≤ queue_capacity))
              (sym chosen) (omega (arith, size), omega (arith, size, room))
      ]

  -- Over any run from a queue of at most 256 events, every event that a producer hands to an enabled
  -- notifier is sent, failed, dropped, suppressed or waiting, and the counters tell how many, as 64-bit
  -- numbers; at most 256 wait.
  pub Alerts_lem :
      {s s' : Alerting} {n : ℕ}
      → length s.queue ≤ queue_capacity
      → Alerts s s' n
      → (known s' % (u64_max + 1) ≡ (known s + n) % (u64_max + 1))
        × (length s'.queue ≤ queue_capacity)
  unfolding process on_admit
  Alerts_lem fits nothing = (omega arith, fits)
  Alerts_lem {s} fits (notified {s' = s'} event run on) =
      let (count, short) = Alerts_lem fits run in
      let (count', short') = known-notify event s' on short in
      (omega (arith, count, count'), short')
  Alerts_lem {s} fits (worked {s' = s'} event rest now run first) =
      let (count, short) = Alerts_lem fits run in
      let more =
        on_admit-OneMore event now s'.worker (admitted (throttle event) now s'.worker.throttled) in
      let size : length s'.queue ≡ suc (length rest) = ap length first in
      (omega (arith, count, more, size), omega (arith, short, size))
  Alerts_lem fits (stopped run) = Alerts_lem fits run
