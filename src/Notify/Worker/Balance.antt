-- ===== src/Notify/Worker/Balance.antt =====
-- What becomes of the events that the throttle holds back, over a run of `Worker::process` of
-- `src/notify.rs`.

use rfw.Text.{Text}
use rfw.Base.{
  Bool, List, Option, [], false, if◌then◌else◌, list_eq, nat_eq, none, some, ℕ, ◌+◌, ◌==◌, ◌∷◌,
}
use rfw.Notify.Event.{Event, throttle}
use rfw.Notify.Throttle.{Admit, Throttle, prune, send, suppress}
use rfw.Notify.Throttle.Pending.{held_by, idle, max_idle, reported_by}
use rfw.Notify.Worker.{Worker, admitted, process}

-- What the throttle makes of an event of the worker.
abbrev outcome_of : Event → ℕ → Worker → Throttle × Admit
outcome_of event now w = admitted (throttle event) now w.throttled

-- Whether an event counts for a key.
abbrev keyed : Text → Option (Text × ℕ) → Bool
keyed k none = false
keyed k (some (key, window)) = key == k

abbrev has_key : Text → Event → Bool
has_key k event = keyed k (throttle event)

-- The entries after an outcome: a message is followed by a prune.
abbrev settled : ℕ → Throttle × Admit → Throttle
settled now (t, suppress) = t
settled now (t, send n) = prune now max_idle t

-- What the prune after a message drops.
abbrev dropped_by : Text → ℕ → Throttle × Admit → ℕ
dropped_by k now (t, suppress) = 0
dropped_by k now (t, send n) = idle k now t

module _ (render : Event → ℕ → Text) where
  -- The worker takes events at their times.
  abbrev pub process_all : List (Event × ℕ) → Worker → Worker
  process_all [] w = w
  process_all ((event, now) ∷ calls) w = process_all calls (process render event now w)

  -- The counts that the messages of a key mention.
  abbrev pub reported : Text → List (Event × ℕ) → Worker → ℕ
  reported k [] w = 0
  reported k ((event, now) ∷ calls) w =
      (if has_key k event then reported_by (outcome_of event now w).1 else 0)
      + reported k calls (process render event now w)

  -- The events of a key that are held back.
  abbrev pub held_back : Text → List (Event × ℕ) → Worker → ℕ
  held_back k [] w = 0
  held_back k ((event, now) ∷ calls) w =
      (if has_key k event then held_by (outcome_of event now w).1 else 0)
      + held_back k calls (process render event now w)

  -- The counts of a key that are dropped with an entry whose latest message is an hour old, when some
  -- other message is sent.
  abbrev pub forgotten : Text → List (Event × ℕ) → Worker → ℕ
  forgotten k [] w = 0
  forgotten k ((event, now) ∷ calls) w =
      dropped_by k now (outcome_of event now w) + forgotten k calls (process render event now w)
