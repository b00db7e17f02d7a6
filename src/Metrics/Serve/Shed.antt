-- ===== src/Metrics/Serve/Shed.antt =====
-- The limit of requests.

use rfw.Base.{
  Bool-cases, List, [], arith, if_both, inl, inr, list_eq, nat_beq_iff, nat_eq, ◌+◌, ◌==◌, ◌∷◌, ◌≡◌,
  ◌≢◌, ◌≤◌,
}
use rfw.Metrics.Serve.{
  Phase, Server, ServerEvent, accept_error, accepting, backing_off, backoff_over, cancelled,
  connection, ended, is_one_connection, max_concurrent_requests, on_connection, on_event,
  on_task_ended, serve, serve_in, task_ended,
}

-- Each task holds a permit, and connections are refused only beyond the limit.
abbrev pub IsLimited : Server → Type 0
IsLimited s = (s.permits + s.tasks ≡ max_concurrent_requests) × (s.tasks ≤ s.spawned)

on_connection-IsLimited : (s : Server) → IsLimited s → IsLimited (on_connection s)
unfolding on_connection
on_connection-IsLimited s (p, q) = elim (Bool-cases (s.permits == 0)) [
  | inl t ↦ rw t (p, q)
  | inr f ↦
      let some_left : s.permits ≢ 0 = λ e. cc (f, (nat_beq_iff s.permits 0).1 e) in
      rw f (omega arith, omega arith)
]

on_task_ended-IsLimited : (s : Server) → IsLimited s → IsLimited (on_task_ended s)
unfolding on_task_ended
on_task_ended-IsLimited s (p, q) = elim (Bool-cases (s.tasks == 0)) [
  | inl t ↦ rw t (p, q)
  | inr f ↦
      let some_run : s.tasks ≢ 0 = λ e. cc (f, (nat_beq_iff s.tasks 0).1 e) in
      rw f (omega arith, omega arith)
]

serve_in-IsLimited :
    (phase : Phase) (event : ServerEvent) (s : Server)
    → IsLimited s
    → IsLimited (serve_in phase event s)
unfolding serve_in
serve_in-IsLimited accepting connection s h = on_connection-IsLimited s h
serve_in-IsLimited accepting (accept_error k) s h =
    if_both IsLimited (is_one_connection k) s (record s { phase = backing_off }) h h
serve_in-IsLimited accepting task_ended s h = h
serve_in-IsLimited accepting backoff_over s h = h
serve_in-IsLimited accepting cancelled s h = h
serve_in-IsLimited backing_off connection s h = h
serve_in-IsLimited backing_off (accept_error k) s h = h
serve_in-IsLimited backing_off task_ended s h = h
serve_in-IsLimited backing_off backoff_over s h = h
serve_in-IsLimited backing_off cancelled s h = h
serve_in-IsLimited ended event s h = h

on_event-IsLimited : (event : ServerEvent) (s : Server) → IsLimited s → IsLimited (on_event event s)
unfolding on_event
on_event-IsLimited connection s h = serve_in-IsLimited s.phase connection s h
on_event-IsLimited (accept_error k) s h = serve_in-IsLimited s.phase (accept_error k) s h
on_event-IsLimited task_ended s h = on_task_ended-IsLimited s h
on_event-IsLimited backoff_over s h = serve_in-IsLimited s.phase backoff_over s h
on_event-IsLimited cancelled s h = serve_in-IsLimited s.phase cancelled s h

-- Over any events the tasks and the permits that are left are 32 together, so that at most 32 requests
-- are handled at once, and no more tasks run than were spawned.
pub serve-IsLimited :
    (events : List ServerEvent) (s : Server) → IsLimited s → IsLimited (serve events s)
unfolding serve
serve-IsLimited [] s h = h
serve-IsLimited (event ∷ events) s h =
    serve-IsLimited events (on_event event s) (on_event-IsLimited event s h)
