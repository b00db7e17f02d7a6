-- ===== src/Tests/Reload.antt =====
-- A reload of the config file.

use rfw.Text.Decimal.{show}
use rfw.Text.{Text, codes}
use rfw.Base.{
  List, [], contains, list_eq, map, nat_eq, not, ok, refl, some, true, ℕ, ◌&&◌, ◌∷◌, ◌≡◌, ◌≢◌,
}
use rfw.Config.Forwarder.{ForwarderConfig, label, protocol_eq, tcp}
use rfw.Config.Settings.{default_settings}
use rfw.Config.Knobs.{update}
use rfw.Config.Cli.{apply_cli_overrides, default_cli}
use rfw.Config.Load.{ForwarderSource, LoadError, LoadedConfig, env, file}
use rfw.Manager.{
  ForwarderManager, ReloadPolicy, manager, reload, reload_time, running_labels,
  should_debounce_reload, start_one, sync,
}
use rfw.Manager.Sync.{contains-sync, running, running-sync_kept}
use rfw.Manager.Invariant.{IsManager, manager-IsManager, start_one-IsManager, sync-IsManager}
use rfw.Manager.Reload.{added_by, reload_from_file, removed_by}

abbrev serve : ℕ → ForwarderConfig
serve port = record {
  local_host = codes "h";
  local_port = port;
  remote_host = codes "r";
  remote_port = 1;
  protocol = tcp;
}

abbrev idle : ForwarderManager
idle = manager default_settings

-- The forwarders on ports 1 and 2 run.
abbrev two : ForwarderManager
two = start_one (serve 2) (start_one (serve 1) idle)

-- The new list: port 2 stays, port 3 is new.
abbrev next : List ForwarderConfig
next = serve 2 ∷ serve 3 ∷ []

two-IsManager : IsManager two
two-IsManager =
    start_one-IsManager (serve 2) (start_one (serve 1) idle)
      (start_one-IsManager (serve 1) idle (manager-IsManager default_settings))

contains-sync_example :
    contains (running_labels (sync next two)) (label (serve 3))
    ≡ contains (map label next) (label (serve 3))
contains-sync_example = contains-sync next two (label (serve 3))

runs_2 : contains (running_labels two) (label (serve 2)) ≡ true
unfolding start_one label rfw.Text.Decimal.show
runs_2 = refl

wants_2 : contains (map label next) (label (serve 2)) ≡ true
unfolding label rfw.Text.Decimal.show
wants_2 = refl

running-sync_kept_example :
    running (sync next two) (label (serve 2)) ≡ running two (label (serve 2))
running-sync_kept_example = running-sync_kept next two (label (serve 2)) runs_2 wants_2

sync-IsManager_example : IsManager (sync next two)
sync-IsManager_example = sync-IsManager next two two-IsManager

abbrev loaded : LoadedConfig
loaded = record { forwarders = next; settings = default_settings }

abbrev show_error : LoadError → Text
show_error e = codes "error"

abbrev path : Text
path = codes "rfw.yaml"

abbrev policy_of : ForwarderSource → ReloadPolicy
policy_of source = record { cli = default_cli; source = source }

reload_from_file_example :
    let r = reload show_error path (policy_of file) (ok loaded) two in
    let k = label (serve 1) in
    (contains (running_labels r.0) k ≡ contains (map label next) k)
    × (contains (added_by r.1) k
        ≡ (contains (map label next) k && not (contains (running_labels two) k)))
    × (contains (removed_by r.1) k
        ≡ (contains (running_labels two) k && not (contains (map label next) k)))
    × (r.0.knobs ≡ update two.knobs (apply_cli_overrides default_settings default_cli))
reload_from_file_example = reload_from_file show_error path default_cli loaded two (label (serve 1))

env_is_not_file : env ≢ file
env_is_not_file e = cc

reload_time_run : reload_time (some 10_000) 10_400 ≡ 11_200
unfolding reload_time rfw.Manager.should_debounce_reload
reload_time_run = refl
