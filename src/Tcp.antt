-- ===== src/Tcp.antt =====
-- `run_forwarder` of `src/forwarder.rs`: binding, and the admission of connections. Instants in
-- milliseconds.
pub mod Binding
pub mod Connect
pub mod Limit
pub mod Splice
use rfw.Text.{Text}
use rfw.Base.{
  Bool, List, Option, [], false, if◌then◌else◌, leb, ltb, min, none, some, suc, true, zero, ℕ, ◌++◌,
  ◌+◌, ◌-◌, ◌∷◌,
}
use rfw.Notify.Event.{Event, bind_failed, bind_recovered, connection_limit_reached}
use rfw.Stats.{ForwarderStats, dec_connections, inc_connections, inc_rejected}
use rfw.Udp.Errors.{ErrorKind, connection_aborted, connection_reset, interrupted, not_connected}
use rfw.Udp.Engine.{limit_alert_spacing}

-- What the attempts to bind come to: bound, or cancelled.
pub data Bound : Type 0 where
  bound cancelled : Bound

abbrev pub u32_max : ℕ
u32_max = 4_294_967_295

-- The loop, over the errors of the attempts that fail; `next` is how it ends. Each failure is an event.
bind_loop : Text → Text → ℕ → List Text → Bound → List Event × ℕ
bind_loop label addr failures [] next = ([], failures)
bind_loop label addr failures (error ∷ errors) next =
    let failures' = min (failures + 1) u32_max in
    let (events, total) = bind_loop label addr failures' errors next in
    (bind_failed label addr error failures' ∷ events, total)

abbrev pub recovered : Text → Text → ℕ → Bound → List Event
recovered label addr failures cancelled = []
recovered label addr failures bound =
    if ltb 0 failures then bind_recovered label addr failures ∷ [] else []

-- All that is told until the listener is bound or the forwarder cancelled.
unfoldable pub bind : Text → Text → List Text → Bound → List Event
unfolding bind_loop
bind label addr errors next =
    let (events, failures) = bind_loop label addr 0 errors next in
    events ++ recovered label addr failures next

-- `conn_limit` are the free permits, if there is a limit, and `elsewhere` those that other forwarders
-- hold. `starting` tasks were spawned and `running` ones count as connections.
pub record Acceptor : Type 0 where
  pub label : Text
  pub conn_limit : Option ℕ
  pub elsewhere : ℕ
  pub starting : ℕ
  pub running : ℕ
  pub stats : ForwarderStats
  pub last_limit_alert : Option ℕ
  pub notified : List Event

pub data Admission : Type 0 where
  admitted rejected : Admission

-- The permits that are left, and whether there was one.
unfoldable pub acquire_permit : Option ℕ → ForwarderStats → Option ℕ × ForwarderStats × Admission
acquire_permit none stats = (none, stats, admitted)
acquire_permit (some zero) stats = (some 0, inc_rejected stats, rejected)
acquire_permit (some (suc n)) stats = (some n, stats, admitted)

abbrev is_due : Option ℕ → ℕ → Bool
is_due none now = true
is_due (some t) now = leb limit_alert_spacing (now - t)

after_admission : ℕ → Acceptor → Option ℕ × ForwarderStats × Admission → Acceptor
after_admission now a (limit, stats, admitted) = record a {
  conn_limit = limit;
  stats = stats;
  starting = a.starting + 1;
}
after_admission now a (limit, stats, rejected) =
    let a' = record a { conn_limit = limit; stats = stats } in
    if is_due a.last_limit_alert now
    then record a' {
      last_limit_alert = some now;
      notified = a.notified ++ connection_limit_reached a.label stats.rejected_connections ∷ [];
    }
    else a'

-- A connection is accepted.
unfoldable pub on_accept : ℕ → Acceptor → Acceptor
unfolding after_admission
on_accept now a = after_admission now a (acquire_permit a.conn_limit a.stats)

-- The task of a connection makes its guard, and drops it with its permit.
unfoldable pub task_started : Acceptor → Acceptor
task_started a = record a {
  starting = a.starting - 1;
  running = a.running + 1;
  stats = inc_connections a.stats;
}

unfoldable pub task_ended : Acceptor → Acceptor
task_ended a = record a {
  conn_limit = elim a.conn_limit [ none ↦ none | some n ↦ some (n + 1) ];
  running = a.running - 1;
  stats = dec_connections a.stats;
}

-- Only one connection failed.
unfoldable pub is_transient_accept_error : ErrorKind → Bool
is_transient_accept_error connection_aborted = true
is_transient_accept_error connection_reset = true
is_transient_accept_error interrupted = true
is_transient_accept_error not_connected = true
is_transient_accept_error _ = false
