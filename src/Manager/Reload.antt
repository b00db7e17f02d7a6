-- ===== src/Manager/Reload.antt =====
-- What a reload of the config file does to the running forwarders, and what it reports.

use rfw.Text.{Text}
use rfw.Base.{
  Bool-cases, List, Option-cases, [], arith, contains, false, if◌then◌else◌, inl, inr, keep_if,
  list_eq, map, nat_eq, not, ok, refl, true, ◌&&◌, ◌==◌, ◌||◌, ◌∙◌, ◌∷◌, ◌≡◌, ◌≢◌,
}
use rfw.Manager.{
  ForwarderManager, ReloadPolicy, apply_file, difference, insert_text, reload, running_labels,
  sort_texts, source_is_file, start_missing, start_new, start_one, stop_each, stop_handle, stop_one,
  sync,
}
use rfw.Manager.Sync.{contains-keep_if, contains-sync, running}
use rfw.Config.Forwarder.{ForwarderConfig, label, protocol_eq}
use rfw.Config.Cli.{CliArgs, apply_cli_overrides}
use rfw.Config.Load.{ForwarderSource, LoadError, LoadedConfig, file}
use rfw.Config.Knobs.{update}
use rfw.Notify.Event.{Event, config_reloaded}

contains-insert_text :
    (a : Text) (l : List Text) (x : Text)
    → contains (insert_text a l) x ≡ ((a == x) || contains l x)
unfolding insert_text
contains-insert_text a [] x = refl
contains-insert_text a (b ∷ l) x = ground (arith, contains-insert_text a l x)

contains-sort_texts : (l : List Text) (x : Text) → contains (sort_texts l) x ≡ contains l x
unfolding sort_texts
contains-sort_texts [] x = refl
contains-sort_texts (a ∷ l) x =
    ground (arith, contains-insert_text a (sort_texts l) x, contains-sort_texts l x)

contains-difference :
    (xs ys : List Text) (x : Text)
    → contains (difference xs ys) x ≡ (contains xs x && not (contains ys x))
unfolding difference
contains-difference xs ys x =
    contains-sort_texts (keep_if (λ l. not (contains ys l)) xs) x
    ∙ contains-keep_if (λ l. not (contains ys l)) xs x

abbrev pub added_by : List Event → List Text
added_by (config_reloaded active added removed ∷ []) = added
added_by _ = []

abbrev pub removed_by : List Event → List Text
removed_by (config_reloaded active added removed ∷ []) = removed
removed_by _ = []

stop_each-knobs : (ls : List Text) (m : ForwarderManager) → (stop_each ls m).knobs ≡ m.knobs
unfolding stop_each stop_one
stop_each-knobs [] m = refl
stop_each-knobs (l ∷ ls) m = stop_each-knobs ls (stop_one l m) ∙ elim (Option-cases (running m l)) [
  | inl e ↦ rw (e, stop_handle)
  | inr (h, e) ↦ rw (e, stop_handle)
]

start_one-knobs : (cfg : ForwarderConfig) (m : ForwarderManager) → (start_one cfg m).knobs ≡ m.knobs
unfolding start_one start_new
start_one-knobs cfg m = ground arith

start_missing-knobs :
    (current : List Text) (configs : List ForwarderConfig) (m : ForwarderManager)
    → (start_missing current configs m).knobs ≡ m.knobs
unfolding start_missing
start_missing-knobs current [] m = refl
start_missing-knobs current (cfg ∷ configs) m =
    start_missing-knobs current configs
      (if contains current (label cfg) then m else start_one cfg m)
    ∙ elim (Bool-cases (contains current (label cfg))) [
      | inl t ↦ rw t
      | inr f ↦ rw f (start_one-knobs cfg m)
    ]

sync-knobs :
    (configs : List ForwarderConfig) (m : ForwarderManager) → (sync configs m).knobs ≡ m.knobs
unfolding sync
sync-knobs configs m =
    let gone = keep_if (λ l. not (contains (map label configs) l)) (running_labels m) in
    start_missing-knobs (running_labels m) configs (stop_each gone m) ∙ stop_each-knobs gone m

is_file : (s : ForwarderSource) → source_is_file s ≡ true → s ≡ file
is_file s h = ground arith

module _ (show_error : LoadError → Text) (path : Text) where
  -- When the forwarders came from the file, a reload of a good file makes exactly its forwarders run,
  -- reports as added exactly the labels that the file has and that did not run, and as removed exactly
  -- those that ran and that the file has not, and stores the settings of the file under the command
  -- line.
  pub reload_from_file :
      (args : CliArgs) (loaded : LoadedConfig) (m : ForwarderManager) (k : Text)
      → let policy : ReloadPolicy = record { cli = args; source = file } in
        let m' = (reload show_error path policy (ok loaded) m).0 in
        let desired = map label loaded.forwarders in
        (contains (running_labels m') k ≡ contains desired k)
        × (contains (added_by (reload show_error path policy (ok loaded) m).1) k
            ≡ (contains desired k && not (contains (running_labels m) k)))
        × (contains (removed_by (reload show_error path policy (ok loaded) m).1) k
            ≡ (contains (running_labels m) k && not (contains desired k)))
        × (m'.knobs ≡ update m.knobs (apply_cli_overrides loaded.settings args))
  unfolding reload apply_file
  reload_from_file args loaded m k =
      let knobs = update m.knobs (apply_cli_overrides loaded.settings args) in
      let m1 = record m { knobs = knobs } in
      let m2 = sync loaded.forwarders m1 in
      let runs = contains-sync loaded.forwarders m1 k in
      (
        runs,
        ground (arith, contains-difference (running_labels m2) (running_labels m) k, runs),
        ground (arith, contains-difference (running_labels m) (running_labels m2) k, runs),
        sync-knobs loaded.forwarders m1,
      )

  -- When they came from elsewhere, a reload leaves them alone, applies the settings of the file under
  -- the command line, and reports nothing as added or removed.
  pub reload_pinned :
      (policy : ReloadPolicy) (loaded : LoadedConfig) (m : ForwarderManager) (k : Text)
      → policy.source ≢ file
      → let r = reload show_error path policy (ok loaded) m in
        (r.0 ≡ record m { knobs = update m.knobs (apply_cli_overrides loaded.settings policy.cli) })
        × (contains (added_by r.1) k ≡ false)
        × (contains (removed_by r.1) k ≡ false)
  unfolding reload apply_file
  reload_pinned policy loaded m k h = elim (Bool-cases (source_is_file policy.source)) [
    | inl t ↦ absurd (h (is_file policy.source t))
    | inr f ↦ rw f (
      refl,
      ground (arith, contains-difference (running_labels m) (running_labels m) k),
      ground (arith, contains-difference (running_labels m) (running_labels m) k),
    )
  ]
