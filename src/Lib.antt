-- ===== src/Lib.antt =====
-- rfw is a forwarder of TCP connections and UDP datagrams from local ports to remote targets, with a
-- configuration that is reloaded while it runs, a health monitor for each target, and alerts to a
-- webhook.
--
-- How its parts interact: the configuration is loaded from the environment, the command line or a YAML
-- file into a list of forwarders, one for each local port, and settings (src/config.rs). The manager
-- starts a task for each forwarder and, on a change of the file, applies the settings to the running
-- process and makes the running forwarders those of the new list (src/manager.rs). Each forwarder
-- counts into an entry of the registry (src/stats.rs). A monitor for each target reads the counters
-- and its own probes, and tells outages and recoveries (src/monitor.rs) to the notifier, which holds
-- repeated alerts back (src/notify.rs). A UDP forwarder keeps a socket to the target for each client, a
-- session, with a task of its own for the replies (src/udp.rs). A TCP forwarder connects to a target
-- for each client and copies bytes both ways (src/forwarder.rs). The endpoint of src/metrics.rs shows
-- the registry and the counters of the notifier, and answers the health check of a container.
--
-- Files, and the code that they model:
--   Base       Booleans, lists, results and equality, shared by all; not code of the program.
--   Text       Texts as lists of code points, and what the program uses of `str`: split_once,
--              rsplit_once, split, trim, strip_prefix, eq_ignore_ascii_case. Text/Decimal has
--              printing of numbers and `u16::from_str` with its errors, Text/Lines the line feeds.
--   Config     src/config.rs. Forwarder: Protocol, ForwarderConfig, label. PortSpan: PortSpan::single,
--              range, len, parse. Spec: ForwarderSpec::new, describe, expand. Expand: expand_specs
--              and validate_no_duplicates. Entry: parse_forwarder_spec. Yaml:
--              RawForwarder::into_spec, deserialize_forwarders. Settings: Settings::default, validate,
--              clamp_in_place. Knobs: RuntimeKnobs and KnobSnapshot. Cli: CliArgs,
--              apply_cli_overrides. Load: load_env_forwarders, load_yaml_config,
--              load_forwarders_with_source, load_settings.
--   Net        Addresses, and the sorted set that observe_addrs of src/stats.rs makes of them.
--   Stats      src/stats.rs: ForwarderStats with its counters and marks. Stats/Registry: StatsRegistry.
--              Stats/Counting: CountingStream.
--   Notify     src/notify.rs: Event with its kind, severity and throttle, Throttle::admit and prune, and
--              the text helpers strip_control, truncate_chars, plain, mono and fmt_duration.
--              Notify/Worker: Notifier::notify, Worker::process, Worker::deliver, backoff and
--              parse_retry_after. Notify/Body and Notify/Render: Event::render. Notify/Footer:
--              format_utc, beside a Gregorian calendar in Notify/Footer/Calendar.
--   Monitor    src/monitor.rs: record_up, record_down, report_dns_change, udp_verdict, and a round of
--              run_monitor and of run_udp_monitor. Monitor/Probe: probe_target,
--              probe_udp_target and probe_all, over the lookup and the race of Tcp/Connect.
--   Manager    src/manager.rs: ForwarderManager with start_one, stop_one, sync, shutdown_all, and the
--              reload of watch_config_file.
--   Udp        src/udp.rs. Errors: classify_udp_err, LogGate, fd_plan. Chunks: slice::chunks. Offload:
--              segments, chunk_bytes, send_chunks. Session: forward_upstream and
--              forward_upstream_coalesced. Replies: recv_upstream, reply_coalesced, drain_upstream and
--              drain_upstream_gro. Engine: open_session, on_client_datagram, on_client_buffer, sweep,
--              on_targets_changed, close_all; Engine/Steps is the step relation. Listener:
--              drain_listener, drain_listener_gro, apply_gro_knob. Refresh: same_addr_set and
--              run_dns_refresher.
--   Tcp        src/forwarder.rs: the bind loop of run_forwarder, acquire_permit and what an accepted
--              connection does to the counters, ConnGuard, is_transient_accept_error. Tcp/Connect:
--              resolve_targets, connect_racing, and proxy_connection up to the outbound connection.
--              Tcp/Splice: capacity_ok, Pipes::new and splice_dir of its module splice.
--   Metrics    src/metrics.rs. Head: the reading loop of handle_conn and parse_request_target. Escape:
--              escape, with a reader of JSON strings beside it. Prometheus: push_metric and
--              render_prometheus. Webhook: render_webhook_metrics. Json: render_json. Health:
--              render_health, the answers of handle_conn, health_check. Serve: the accept loop of serve.
--   Tests      Runs, and the theorems at concrete values.
--
-- How the code is translated: a function that changes a shared object takes it and returns it. Errors
-- are constructors that carry the values their message shows; the fixed words of messages are left out.
-- Clocks are arguments, in milliseconds. Integers are natural numbers; where the source can wrap around
-- or saturate, the model does it too: counters wrap at 2^64, ages saturate at 0, and the length of a
-- port span is computed as the source does. The counters of a batch of datagrams are not cut at 2^64,
-- which 64 receives cannot reach. A session of src/udp.rs is shared by the table and by its task; here
-- it is in the table, with a flag for its task, or in the list of those that only a task still holds, and
-- its socket, its permit and its connection last as long as it is in either. Hash maps are association lists. The flow information and
-- the scope id of an IPv6 address are left out. Reads and writes of
-- atomics are taken one at a time, so that each operation is one step.
--
-- Bounds and fuel: loops are structural recursion on their list. Printing a number n runs on fuel n
-- + 1, and a number has at most that many digits, so it never runs out. The loop of send_chunks runs
-- on as much fuel as the buffer has bytes, and a round sends one byte at least; that it is enough is
-- part of the result. The drains handle 64 receives, as the source does, and a delivery makes 3
-- attempts. usize is that of a 64-bit target.
--
-- Parameters: reading a file, the YAML deserialiser of serde_saphyr (for the fields that it fills by
-- itself; that its ports are u16 is a hypothesis, which its type guarantees), the parsers of socket
-- addresses and of webhook URLs, and the printing of an error of the loader. The outcome of a probe
-- is an input of the monitor. What the system makes of sends, receives, `UDP_GRO` and attempts to
-- open a socket are inputs of the UDP forwarder: lists of outcomes, taken one by one. So are the
-- answers to the webhook's requests; the text of an alert is a parameter of the worker. What the reads
-- of a socket, the calls of splice and the resolver give are inputs as well. The attempts to connect
-- run at once, so the order in which they end is a relation, and what a target does with a connection is
-- an input. UTF-8 is a record with its coding, of which only what it does to ASCII is used; the print of
-- an address in a message is a parameter.
--
-- Not modelled: of src/forwarder.rs the copying of bytes in user space, the joining of the two directions
-- of splice, and socket options; of src/udp.rs the start of a
-- forwarder and the layout of control messages; start, logging and the limit of file descriptors
-- (src/main.rs, src/logging.rs, src/fdlimit.rs), which are I/O, or not reached yet; throughput rates and
-- their print, which are floating point; the handling of webhook URLs by the package url; the deadline of
-- the flush at shutdown; log lines; the watcher of the file system; cancellation in the middle of a wait.
-- A stopped task is taken to have ended, where the source waits for it at most 5 s.
pub mod Base
pub mod Tcp
pub mod Text
pub mod Config
pub mod Net
pub mod Stats
pub mod Notify
pub mod Monitor
pub mod Manager
pub mod Udp
pub mod Metrics
pub mod Tests
