-- ===== src/Manager.antt =====
-- `src/manager.rs`: the running forwarders, and what a reload of the config file does to them. The
-- hash map of handles is an association list. A spawned task is the configuration that it serves
-- and the number of its cancellation token.
pub mod Invariant
pub mod Reload
pub mod Sync
use rfw.Text.{Text}
use rfw.Base.{
  Bool, List, Option, Result, [], contains, err, false, if◌then◌else◌, keep_if, length, list_eq,
  ltb, map, nat_eq, none, not, ok, some, true, ℕ, ◌++◌, ◌+◌, ◌-◌, ◌==◌, ◌∷◌,
}
use rfw.Stats.Registry.{StatsRegistry, register_with_protocol, remove}
use rfw.Config.Forwarder.{ForwarderConfig, label, protocol_eq}
use rfw.Config.Settings.{Settings, clamp, max_udp_sessions, nonzero}
use rfw.Config.Knobs.{RuntimeKnobs, from_settings, update}
use rfw.Config.Cli.{CliArgs, apply_cli_overrides}
use rfw.Config.Load.{ForwarderSource, LoadError, LoadedConfig, cli, file}
use rfw.Notify.Event.{Event, config_reload_failed, config_reloaded}

-- `task` and `monitor` share the token, and both get the configuration.
pub record ForwarderHandle : Type 0 where
  pub token : ℕ
  pub serves : ForwarderConfig

-- `next_token` is the token of the next forwarder; `cancelled` are those that were cancelled.
pub record ForwarderManager : Type 0 where
  pub forwarders : List (Text × ForwarderHandle)
  pub stats_registry : StatsRegistry
  pub knobs : RuntimeKnobs
  pub conn_limit : Option ℕ
  pub udp_limit : ℕ
  pub next_token : ℕ
  pub cancelled : List ℕ

-- A semaphore is the number of its permits.
abbrev pub manager : Settings → ForwarderManager
manager s = record {
  forwarders = [];
  stats_registry = [];
  knobs = from_settings s;
  conn_limit = nonzero s.max_connections;
  udp_limit = clamp 1 max_udp_sessions s.udp_max_sessions;
  next_token = 0;
  cancelled = [];
}

unfoldable pub handle_of : List (Text × ForwarderHandle) → Text → Option ForwarderHandle
handle_of [] label = none
handle_of ((l, h) ∷ hs) label = if l == label then some h else handle_of hs label

abbrev pub running_labels : ForwarderManager → List Text
running_labels m = map (λ h. h.0) m.forwarders

-- The two registrations of `start_one`, for the forwarder and for its monitor.
start_new : ForwarderConfig → ForwarderManager → ForwarderManager
start_new cfg m =
    let r = register_with_protocol m.stats_registry (label cfg) cfg.protocol in
    let r' = register_with_protocol r.0 (label cfg) cfg.protocol in
    record m {
      forwarders = (label cfg, record { token = m.next_token; serves = cfg }) ∷ m.forwarders;
      stats_registry = r'.0;
      next_token = m.next_token + 1;
    }

unfoldable pub start_one : ForwarderConfig → ForwarderManager → ForwarderManager
unfolding start_new
start_one cfg m = if contains (running_labels m) (label cfg) then m else start_new cfg m

unfoldable pub start_all : List ForwarderConfig → ForwarderManager → ForwarderManager
start_all [] m = m
start_all (cfg ∷ configs) m = start_all configs (start_one cfg m)

stop_handle : Text → ForwarderManager → Option ForwarderHandle → ForwarderManager
stop_handle label m none = m
stop_handle label m (some h) = record m {
  forwarders = keep_if (λ e. not (e.0 == label)) m.forwarders;
  stats_registry = remove m.stats_registry label;
  cancelled = h.token ∷ m.cancelled;
}

-- The task has ended when this returns, or its grace window is over.
unfoldable pub stop_one : Text → ForwarderManager → ForwarderManager
unfolding stop_handle
stop_one label m = stop_handle label m (handle_of m.forwarders label)

stop_each : List Text → ForwarderManager → ForwarderManager
stop_each [] m = m
stop_each (l ∷ labels) m = stop_each labels (stop_one l m)

pub start_missing : List Text → List ForwarderConfig → ForwarderManager → ForwarderManager
start_missing current [] m = m
start_missing current (cfg ∷ configs) m =
    start_missing current configs (if contains current (label cfg) then m else start_one cfg m)

-- The labels to stop come in the order of the list; the hash set of the source has no order.
unfoldable pub sync : List ForwarderConfig → ForwarderManager → ForwarderManager
unfolding stop_each start_missing
sync configs m =
    let current = running_labels m in
    let desired = map label configs in
    start_missing current configs (stop_each (keep_if (λ l. not (contains desired l)) current) m)

-- `drain` empties the map; the loop then removes the statistics of each label.
remove_each : List Text → StatsRegistry → StatsRegistry
remove_each [] stats = stats
remove_each (l ∷ labels) stats = remove_each labels (remove stats l)

unfoldable pub shutdown_all : ForwarderManager → ForwarderManager
unfolding remove_each
shutdown_all m = record m {
  forwarders = [];
  stats_registry = remove_each (running_labels m) m.stats_registry;
  cancelled = map (λ h. h.1.token) m.forwarders ++ m.cancelled;
}

-- Times in milliseconds; `duration_since` saturates.
unfoldable pub should_debounce_reload : Option ℕ → ℕ → ℕ → Bool
should_debounce_reload none now window = false
should_debounce_reload (some previous) now window = ltb (now - previous) window

abbrev pub reload_debounce : ℕ
reload_debounce = 1_000

abbrev pub reload_settle_delay : ℕ
reload_settle_delay = 200

-- When a signal that the loop takes at `now` leads to a reload, if nothing cancels it. A signal that
-- is sent while a reload runs waits in the channel until the loop takes it.
unfoldable pub reload_time : Option ℕ → ℕ → ℕ
unfolding should_debounce_reload
reload_time none now = now + reload_settle_delay
reload_time (some previous) now =
    if should_debounce_reload (some previous) now reload_debounce
    then now + (reload_debounce - (now - previous)) + reload_settle_delay
    else now + reload_settle_delay

pub record ReloadPolicy : Type 0 where
  pub cli : CliArgs
  pub source : ForwarderSource

abbrev source_is_file : ForwarderSource → Bool
source_is_file file = true
source_is_file _ = false

text_ltb : Text → Text → Bool
text_ltb [] [] = false
text_ltb [] (y ∷ ys) = true
text_ltb (x ∷ xs) [] = false
text_ltb (x ∷ xs) (y ∷ ys) =
    let rest = text_ltb xs ys in if ltb x y then true else if ltb y x then false else rest

insert_text : Text → List Text → List Text
unfolding text_ltb
insert_text a [] = a ∷ []
insert_text a (b ∷ l) = let rest = insert_text a l in if text_ltb b a then b ∷ rest else a ∷ b ∷ l

sort_texts : List Text → List Text
unfolding insert_text
sort_texts [] = []
sort_texts (a ∷ l) = insert_text a (sort_texts l)

-- `difference`, collected and sorted.
unfoldable pub difference : List Text → List Text → List Text
unfolding sort_texts
difference xs ys = sort_texts (keep_if (λ l. not (contains ys l)) xs)

apply_file : ReloadPolicy → LoadedConfig → ForwarderManager → ForwarderManager
apply_file policy loaded m =
    let m' = record m { knobs = update m.knobs (apply_cli_overrides loaded.settings policy.cli) } in
    if source_is_file policy.source then sync loaded.forwarders m' else m'

-- The body of the loop of `watch_config_file`, from `load_yaml_config` on; `show_error` prints the error.
unfoldable pub reload :
    (LoadError → Text)
    → Text
    → ReloadPolicy
    → Result LoadError LoadedConfig
    → ForwarderManager
    → ForwarderManager × List Event
unfolding apply_file
reload show_error path policy (err e) m = (m, config_reload_failed path (show_error e) ∷ [])
reload show_error path policy (ok loaded) m =
    let before = running_labels m in
    let m' = apply_file policy loaded m in
    let after = running_labels m' in
    (m', config_reloaded (length after) (difference after before) (difference before after) ∷ [])
