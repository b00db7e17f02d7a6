-- ===== src/Notify/Worker.antt =====
-- The queue and the delivery of alerts, `src/notify.rs`: `Notifier::notify`, `Worker::process`,
-- `Worker::deliver`, `backoff` and `parse_retry_after`. Times are in milliseconds.
pub mod Answers
pub mod Retries
pub mod Counted
pub mod Balance
use rfw.Text.{Text, trim}
use rfw.Text.Decimal.{ParseIntError, parse_uint}
use rfw.Base.{
  Bool, List, Option, Result, [], err, if◌then◌else◌, inl, inr, leb, length, list_eq, ltb, min,
  nat_eq, none, not, ok, some, suc, zero, ℕ, ◌%◌, ◌&&◌, ◌*◌, ◌++◌, ◌+◌, ◌-◌, ◌==◌, ◌^◌, ◌||◌, ◌∷◌,
  ◌⊎◌,
}
use rfw.Stats.{u64_max}
use rfw.Notify.Event.{Event, throttle}
use rfw.Notify.Plain.{plain}
use rfw.Notify.Throttle.{Admit, Throttle, admit, prune, send, suppress}

abbrev pub max_attempts : ℕ
max_attempts = 3

abbrev pub retry_base_delay : ℕ
retry_base_delay = 1000

abbrev pub max_retry_after : ℕ
max_retry_after = 30_000

abbrev pub min_send_spacing : ℕ
min_send_spacing = 1000

abbrev pub queue_capacity : ℕ
queue_capacity = 256

-- What a request gives: a status, the text of its `Retry-After` header and the body, or the error of
-- the transport.
pub data Answer : Type 0 where
  answered : ℕ → Option Text → Text → Answer
  transport : Text → Answer

-- `saturating_pow` and `saturating_sub` on u32.
unfoldable pub backoff : ℕ → ℕ
backoff attempt = retry_base_delay * min (2 ^ (attempt - 1)) 4_294_967_295

abbrev seconds : Result ParseIntError ℕ → Option ℕ
seconds (ok s) = some (min (s * 1000) max_retry_after)
seconds (err e) = none

unfoldable pub parse_retry_after : Option Text → Option ℕ
parse_retry_after none = none
parse_retry_after (some v) = seconds (parse_uint u64_max (trim v))

abbrev pub is_success : ℕ → Bool
is_success status = leb 200 status && ltb status 300

unfoldable pub is_retryable : ℕ → Bool
is_retryable status = status == 429 || (leb 500 status && ltb status 600)

-- The last error of a delivery.
pub data SendError : Type 0 where
  no_attempt : SendError
  http : ℕ → Text → SendError
  transport_error : Text → SendError

-- `final` is an answer that ends the delivery, `spent` the last attempt.
pub data Delivery : Type 0 where
  delivered : Delivery
  final spent : SendError → Delivery

-- `answers` are those of the next requests; with none left they fail. `posted` are the texts that were
-- sent, the latest last, and `waited` the time that was slept.
pub record Link : Type 0 where
  pub answers : List Answer
  pub posted : List Text
  pub waited : ℕ

abbrev next_answer : List Answer → Answer × List Answer
next_answer [] = (transport [], [])
next_answer (a ∷ more) = (a, more)

-- What an attempt leads to: the end, or an error and the delay before the next one.
unfoldable pub judge : ℕ → Answer → Delivery ⊎ (SendError × ℕ)
judge attempt (transport e) = inr (transport_error e, backoff attempt)
judge attempt (answered status after body) =
    if is_success status
    then inl delivered
    else if is_retryable status
    then inr (
      http status (plain body),
      elim (parse_retry_after after) [ some d ↦ d | none ↦ backoff attempt ],
    )
    else inl (final (http status (plain body)))

-- `left` attempts are left, the one numbered `attempt` first.
attempts : ℕ → ℕ → SendError → Text → Link → Link × Delivery
attempts zero attempt last text k = (k, spent last)
attempts (suc left) attempt last text k =
    let (a, more) = next_answer k.answers in
    let k' = record k { answers = more; posted = k.posted ++ text ∷ [] } in
    elim (judge attempt a) [
      | inl end ↦ (k', end)
      | inr (e, delay) ↦
          attempts left (attempt + 1) e text
            (if ltb attempt max_attempts then record k' { waited = k'.waited + delay } else k')
    ]

unfoldable pub deliver : Text → Link → Link × Delivery
unfolding attempts
deliver text k = attempts max_attempts 1 no_attempt text k

-- `NotifierCounters`; `fetch_add` wraps around.
pub record NotifierCounters : Type 0 where
  pub sent : ℕ
  pub failed : ℕ
  pub dropped : ℕ
  pub suppressed : ℕ

abbrev bump : ℕ → ℕ
bump n = (n + 1) % (u64_max + 1)

-- The counters, and the worker's own state.
pub record Worker : Type 0 where
  pub counters : NotifierCounters
  pub throttled : Throttle
  pub last_send : Option ℕ
  pub link : Link

abbrev admitted : Option (Text × ℕ) → ℕ → Throttle → Throttle × Admit
admitted none now t = (t, send 0)
admitted (some (key, window)) now t = admit key window now t

abbrev spacing : Option ℕ → ℕ → ℕ
spacing none now = 0
spacing (some last) now = min_send_spacing - (now - last)

count_delivery : NotifierCounters → Delivery → NotifierCounters
count_delivery c delivered = record c { sent = bump c.sent }
count_delivery c _ = record c { failed = bump c.failed }

send_event : Text → ℕ → Worker → Worker
unfolding count_delivery
send_event text now w =
    let wait = spacing w.last_send now in
    let (k, r) = deliver text (record w.link { waited = w.link.waited + wait }) in
    record w { last_send = some (now + wait); link = k; counters = count_delivery w.counters r }

module _ (render : Event → ℕ → Text) where
  on_admit : Event → ℕ → Worker → Throttle × Admit → Worker
  unfolding send_event
  on_admit event now w (t, suppress) = record w {
    throttled = t;
    counters = record w.counters { suppressed = bump w.counters.suppressed };
  }
  on_admit event now w (t, send suppressed) =
      send_event (render event suppressed) now (record w { throttled = prune now 3_600_000 t })

  -- At the instant `now`.
  unfoldable pub process : Event → ℕ → Worker → Worker
  unfolding on_admit
  process event now w = on_admit event now w (admitted (throttle event) now w.throttled)

-- `queue` holds the events that wait; `closed` tells that the worker takes no more.
pub record Alerting : Type 0 where
  pub enabled : Bool
  pub queue : List Event
  pub closed : Bool
  pub worker : Worker

abbrev drop_event : Alerting → Alerting
drop_event s = record s {
  worker = record s.worker {
    counters = record s.worker.counters { dropped = bump s.worker.counters.dropped };
  };
}

unfoldable pub notify : Event → Alerting → Alerting
notify event s =
    if not s.enabled
    then s
    else if s.closed || leb queue_capacity (length s.queue)
    then drop_event s
    else record s { queue = s.queue ++ event ∷ [] }
