-- ===== src/Config/Cli/Overrides.antt =====
-- `apply_cli_overrides` of `src/config.rs`, applied at the start and on every reload.

use rfw.Text.{Text}
use rfw.Base.{Bool, Option, false, if◌then◌else◌, none, refl, some, true, ◌≡◌}
use rfw.Config.Settings.{Settings}
use rfw.Config.Cli.{CliArgs, apply_cli_overrides, default_cli, over, over_some, webhook_override}

module _ {ℓ} {A : Type ℓ} where
  over_again : (o : Option A) (old : A) → over o (over o old) ≡ over o old
  over_again none old = refl
  over_again (some v) old = refl

  over_some_again : (o old : Option A) → over_some o (over_some o old) ≡ over_some o old
  over_some_again none old = refl
  over_some_again (some v) old = refl

if_again :
    (b old : Bool) → (if b then true else (if b then true else old)) ≡ (if b then true else old)
if_again true old = refl
if_again false old = refl

webhook_again :
    (o old : Option Text) → webhook_override o (webhook_override o old) ≡ webhook_override o old
unfolding webhook_override
webhook_again none old = refl
webhook_again (some v) old = refl

-- Applying the flags of one command line twice is applying them once.
pub apply_cli_overrides_again :
    (s : Settings) (c : CliArgs)
    → apply_cli_overrides (apply_cli_overrides s c) c ≡ apply_cli_overrides s c
unfolding apply_cli_overrides
apply_cli_overrides_again s c = λ i. record {
  metrics_addr = over_some_again c.metrics_addr s.metrics_addr i;
  report_interval_secs = over_again c.report_interval_secs s.report_interval_secs i;
  sample_interval_secs = over_again c.sample_interval_secs s.sample_interval_secs i;
  buffer_bytes = over_again c.buffer_bytes s.buffer_bytes i;
  socket_buffer_bytes = over_some_again c.socket_buffer_bytes s.socket_buffer_bytes i;
  use_splice = if_again c.use_splice s.use_splice i;
  max_connections = over_some_again c.max_connections s.max_connections i;
  connect_timeout_secs = over_again c.connect_timeout_secs s.connect_timeout_secs i;
  dns_timeout_secs = over_again c.dns_timeout_secs s.dns_timeout_secs i;
  keepalive_idle_secs = over_again c.keepalive_idle_secs s.keepalive_idle_secs i;
  keepalive_interval_secs = over_again c.keepalive_interval_secs s.keepalive_interval_secs i;
  keepalive_retries = over_again c.keepalive_retries s.keepalive_retries i;
  webhook_url = webhook_again c.webhook_url s.webhook_url i;
  instance_name = over_some_again c.instance_name s.instance_name i;
  probe_interval_secs = over_again c.probe_interval_secs s.probe_interval_secs i;
  unreachable_after_secs = over_again c.unreachable_after_secs s.unreachable_after_secs i;
  udp_session_timeout_secs = over_again c.udp_session_timeout_secs s.udp_session_timeout_secs i;
  udp_max_sessions = over_again c.udp_max_sessions s.udp_max_sessions i;
  udp_gro_gso = if_again c.udp_gro_gso s.udp_gro_gso i;
}

-- With no flag given, the settings of the file stand.
pub apply_cli_overrides_none : (s : Settings) → apply_cli_overrides s default_cli ≡ s
unfolding apply_cli_overrides
apply_cli_overrides_none s = refl
