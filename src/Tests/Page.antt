-- ===== src/Tests/Page.antt =====
-- Requests to the endpoint, and what it answers.

use rfw.Base.{
  List, Result, [], drop, false, map, none, ok, refl, some, take, true, ◌++◌, ◌↔◌, ◌∷◌, ◌≡◌,
}
use rfw.Text.{Text, codes, split, split_once}
use rfw.Config.Forwarder.{tcp, udp}
use rfw.Stats.Registry.{StatsSnapshot}
use rfw.Udp.Chunks.{Bytes}
use rfw.Udp.Errors.{IoError, other_kind}
use rfw.Metrics.{crlf}
use rfw.Metrics.Escape.{escape, escape_char, hex_digit}
use rfw.Metrics.Escape.Reading.{read_string, read_string-escape, within}
use rfw.Metrics.Head.{
  any_window, first_line, head_of, parse_request_target, read_head, split_whitespace,
}
use rfw.Metrics.Head.Scan.{read_head_lem, read_whole}
use rfw.Metrics.Prometheus.{render_prometheus}
use rfw.Metrics.Prometheus.Page.{page, render_prometheus_lem}
use rfw.Metrics.Serve.{
  accept_error, cancelled, connection, is_one_connection, on_event, serve, start, task_ended,
}
use rfw.Metrics.Webhook.{NotifierSnapshot}
use rfw.Metrics.Health.{Utf8, answered, handle_conn, probe}
use rfw.Metrics.Health.Probe.{Accepts, AllListen, health_check_lem}

abbrev web : StatsSnapshot
web = record {
  label = codes "80->web:80";
  protocol = tcp;
  bytes_sent = 10;
  bytes_received = 20;
  datagrams_sent = 0;
  datagrams_received = 0;
  datagrams_dropped = 0;
  active_connections = 1;
  rejected_connections = 0;
  rate_sent_bps = 5;
  rate_recv_bps = 6;
  listening = true;
  reachable = some true;
}

-- A label with a line feed and a quotation mark.
abbrev bad_label : Text
bad_label = b'a' ∷ 10 ∷ b'"' ∷ 1 ∷ []

abbrev dark : StatsSnapshot
dark = record web { label = bad_label; protocol = udp; listening = false; reachable = none }

escape_run : escape bad_label ≡ codes "a\\n\\\"\\u0001"
unfolding escape escape_char hex_digit
escape_run = refl

read_string-escape_example :
    read_string within (escape bad_label ++ codes "\",") ≡ some (bad_label, codes ",")
read_string-escape_example = read_string-escape bad_label (codes ",")

abbrev two_reads : List (Result IoError Bytes)
two_reads = ok (codes "GET / HTTP/1.1" ++ crlf ++ (13 ∷ [])) ∷ ok (10 ∷ codes "rest") ∷ ok [] ∷ []

head_run :
    read_head two_reads [] 0 ≡ head_of (codes "GET / HTTP/1.1" ++ crlf ++ crlf ++ codes "rest")
unfolding read_head any_window
head_run = refl

read_head_lem_example : read_head two_reads [] 0 ≡ read_whole two_reads []
read_head_lem_example = read_head_lem two_reads

target_run : parse_request_target probe ≡ some (codes "/")
unfolding parse_request_target first_line split_whitespace split_once
target_run = refl

render_prometheus_lem_example :
    split 10 (render_prometheus (web ∷ dark ∷ []) ++ codes "end")
    ≡ page (web ∷ dark ∷ []) ++ split 10 (codes "end")
render_prometheus_lem_example = render_prometheus_lem (web ∷ dark ∷ []) (codes "end")

-- The coding in which each character is a byte.
abbrev ascii_only : Utf8
ascii_only = record {
  encode = λ s. s;
  lossy = λ s. s;
  encode_ascii = λ a s h. refl;
  lossy_ascii = λ a s h. refl;
  lossy_empty = refl;
}

abbrev no_webhook : NotifierSnapshot
no_webhook = record { enabled = false; sent = 0; failed = 0; dropped = 0; suppressed = 0 }

abbrev probe_pieces : List Bytes
probe_pieces = take 20 probe ∷ drop 20 probe ∷ []

health_check_lem_example :
    (answer : Bytes) × (handle_conn ascii_only
        (map ok probe_pieces ++ [])
        (web ∷ dark ∷ [])
        no_webhook
      ≡ answered answer)
    × (Accepts ascii_only answer ↔ AllListen (web ∷ dark ∷ []))
health_check_lem_example =
    health_check_lem ascii_only probe_pieces [] (web ∷ dark ∷ []) no_webhook
      (refl, ((λ e. cc), ((λ e. cc), tt)))

-- Two requests, of which one has ended, an error that backs off, and the end.
serve_run :
    (serve
      (connection ∷ connection ∷ task_ended ∷ accept_error other_kind ∷ connection ∷ cancelled ∷ [])
      start).permits
    ≡ 31
unfolding serve on_event is_one_connection start
serve_run = refl
