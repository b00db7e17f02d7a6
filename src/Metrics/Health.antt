-- ===== src/Metrics/Health.antt =====
-- `render_health`, `handle_conn` and `health_check` of `src/metrics.rs`.
pub mod Probe
use rfw.Base.{
  All, Bool, List, Option, Result, [], err, false, if◌then◌else◌, keep_if, length, list_eq, map,
  nat_eq, none, not, ok, some, true, ◌++◌, ◌/◌, ◌<◌, ◌==◌, ◌∷◌, ◌≡◌,
}
use rfw.Text.{Text, codes, strip_prefix}
use rfw.Text.Decimal.{show}
use rfw.Stats.Registry.{StatsSnapshot}
use rfw.Udp.Chunks.{Bytes}
use rfw.Udp.Errors.{IoError}
use rfw.Metrics.{crlf, http_response}
use rfw.Metrics.Head.{
  HeadRead, deadline, first_line, head_of, parse_request_target, read_failed, read_head,
}
use rfw.Metrics.Json.{render_json}
use rfw.Metrics.Prometheus.{render_prometheus}
use rfw.Metrics.Webhook.{NotifierSnapshot, render_webhook_metrics}

abbrev pub IsAscii : Text → Type 0
IsAscii = All (λ c. c < 128)

-- `as_bytes` and `from_utf8_lossy`: UTF-8, in which ASCII stands for itself.
pub record Utf8 : Type 0 where
  pub encode : Text → Bytes
  pub lossy : Bytes → Text
  pub encode_ascii : (a s : Text) → IsAscii a → encode (a ++ s) ≡ a ++ encode s
  pub lossy_ascii : (a : Text) (s : Bytes) → IsAscii a → lossy (a ++ s) ≡ a ++ lossy s
  pub lossy_empty : lossy [] ≡ []

-- `join(", ")`.
abbrev join_comma : List Text → Text
join_comma [] = []
join_comma (l ∷ []) = l
join_comma (l ∷ l' ∷ ls) = l ++ (codes ", " ++ join_comma (l' ∷ ls))

abbrev pub unbound : List StatsSnapshot → List Text
unbound snaps = map (λ s. s.label) (keep_if (λ s. not s.listening) snaps)

-- The verdict on the labels that are not bound.
unfoldable pub health_of : List Text → Text
health_of [] = http_response (codes "200 OK") (codes "text/plain") (codes "rfw ok" ++ 10 ∷ [])
health_of (l ∷ ls) = http_response (codes "503 Service Unavailable") (codes "text/plain") (
    codes "rfw degraded: "
    ++ (show (length (l ∷ ls))
        ++ (codes " forwarder(s) not listening: " ++ (join_comma (l ∷ ls) ++ 10 ∷ []))))

unfoldable pub render_health : List StatsSnapshot → Text
render_health snaps = health_of (unbound snaps)

-- The answer to a request target, or to a request that has none.
unfoldable pub respond : Option Text → List StatsSnapshot → NotifierSnapshot → Text
respond none snaps n =
    http_response (codes "404 Not Found") (codes "text/plain") (codes "not found" ++ 10 ∷ [])
respond (some target) snaps n =
    if target == codes "/metrics"
    then http_response (codes "200 OK") (codes "text/plain; version=0.0.4")
        (render_prometheus snaps ++ render_webhook_metrics n)
    else if target == codes "/stats"
    then http_response (codes "200 OK") (codes "application/json") (render_json snaps)
    else if target == codes "/"
    then render_health snaps
    else http_response (codes "404 Not Found") (codes "text/plain") (codes "not found" ++ 10 ∷ [])

-- How a connection ends: with an answer written, with an error, or with nothing at the deadline.
pub data Handled : Type 0 where
  answered : Bytes → Handled
  failed : IoError → Handled
  dropped : Handled

answer_head : Utf8 → HeadRead → List StatsSnapshot → NotifierSnapshot → Handled
answer_head u (head_of buf) snaps n =
    answered (u.encode (respond (parse_request_target (u.lossy buf)) snaps n))
answer_head u (read_failed e) snaps n = failed e
answer_head u deadline snaps n = dropped

-- `snaps` and `n` are what `collect` and `snapshot` give.
unfoldable pub handle_conn :
    Utf8 → List (Result IoError Bytes) → List StatsSnapshot → NotifierSnapshot → Handled
unfolding answer_head
handle_conn u reads snaps n = answer_head u (read_head reads [] 0) snaps n

-- The request that `health_check` writes.
abbrev pub probe : Text
probe =
    codes "GET / HTTP/1.1"
    ++ (crlf
        ++ (codes "Host: localhost" ++ (crlf ++ (codes "Connection: close" ++ (crlf ++ crlf)))))

pub data HealthError : Type 0 where
  bad_address probe_timed_out : HealthError
  unreachable : IoError → HealthError
  unhealthy : Text → HealthError

abbrev or_empty : Option Text → Text
or_empty none = codes "<empty response>"
or_empty (some line) = line

-- `address_ok` tells whether the address parses; the answer is what comes before the timeout, if
-- anything does.
unfoldable pub health_check :
    Utf8 → Bool → Option (Result IoError Bytes) → Result HealthError (Unit {0})
health_check u false answer = err bad_address
health_check u true none = err probe_timed_out
health_check u true (some (err e)) = err (unreachable e)
health_check u true (some (ok response)) =
    let head = u.lossy response in
    elim (strip_prefix (codes "HTTP/1.1 200 OK") head) [
      | some _ ↦ ok tt
      | none ↦ err (unhealthy (or_empty (first_line head)))
    ]
