-- ===== src/Metrics/Serve.antt =====
-- The accept loop of `serve` in `src/metrics.rs`.
pub mod Shed
use rfw.Base.{
  Bool, List, [], false, if◌then◌else◌, list_eq, nat_eq, true, ℕ, ◌++◌, ◌+◌, ◌-◌, ◌==◌, ◌∷◌,
}
use rfw.Text.{Text, codes}
use rfw.Notify.Event.{Event, internal}
use rfw.Udp.Errors.{ErrorKind, connection_aborted, connection_reset, interrupted}

abbrev pub max_concurrent_requests : ℕ
max_concurrent_requests = 32

-- Accepting, waiting after an error that is not of one connection, or ended.
pub data Phase : Type 0 where
  accepting backing_off ended : Phase

-- `permits` are left of the limiter, and each task that was spawned holds one until it ends.
pub record Server : Type 0 where
  pub phase : Phase
  pub permits : ℕ
  pub tasks : ℕ
  pub spawned : ℕ
  pub shed : ℕ

pub data ServerEvent : Type 0 where
  connection : ServerEvent
  accept_error : ErrorKind → ServerEvent
  task_ended : ServerEvent
  backoff_over : ServerEvent
  cancelled : ServerEvent

unfoldable pub is_one_connection : ErrorKind → Bool
is_one_connection connection_aborted = true
is_one_connection connection_reset = true
is_one_connection interrupted = true
is_one_connection other = false

-- `try_acquire_owned`: without a permit the connection is closed.
on_connection : Server → Server
on_connection s =
    if s.permits == 0
    then record s { shed = s.shed + 1 }
    else record s { permits = s.permits - 1; tasks = s.tasks + 1; spawned = s.spawned + 1 }

on_task_ended : Server → Server
on_task_ended s =
    if s.tasks == 0 then s else record s { permits = s.permits + 1; tasks = s.tasks - 1 }

-- An event of another phase changes nothing: a connection then waits in the backlog of the listener.
serve_in : Phase → ServerEvent → Server → Server
unfolding on_connection
serve_in accepting connection s = on_connection s
serve_in accepting (accept_error k) s =
    if is_one_connection k then s else record s { phase = backing_off }
serve_in backing_off backoff_over s = record s { phase = accepting }
serve_in accepting cancelled s = record s { phase = ended }
serve_in backing_off cancelled s = record s { phase = ended }
serve_in _ _ s = s

unfoldable pub on_event : ServerEvent → Server → Server
unfolding serve_in on_task_ended
on_event task_ended s = on_task_ended s
on_event event s = serve_in s.phase event s

-- `serve` of a listener that is bound.
unfoldable pub serve : List ServerEvent → Server → Server
serve [] s = s
serve (event ∷ events) s = serve events (on_event event s)

-- All that is told when the listener cannot be bound, with the text of the message.
unfoldable pub bind_failure : Text → Text → List Event
bind_failure addr error =
    internal (codes "metrics") (
      codes "stats endpoint failed to bind "
      ++ (addr
          ++ (codes ": "
              ++ (error ++ codes ". /metrics, /stats and the healthcheck are unavailable"))))
    ∷ []

unfoldable pub start : Server
start = record {
  phase = accepting;
  permits = max_concurrent_requests;
  tasks = 0;
  spawned = 0;
  shed = 0;
}
