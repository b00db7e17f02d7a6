-- ===== src/Config/Load.antt =====
-- Loading of `src/config.rs`: the environment, the YAML file and the command line, put together.
pub mod Sources
pub mod Precedence
use rfw.Text.Decimal.{parse_uint}
use rfw.Base.{
  Bool, List, Option, Result, [], err, if◌then◌else◌, leb, map_err, none, ok, some, traverse, ℕ,
  ◌>>=◌, ◌>>◌, ◌∷◌,
}
use rfw.Text.{Text, codes, strip_prefix}
use rfw.Config.Forwarder.{ForwarderConfig}
use rfw.Config.Spec.{ForwarderSpec, SpecError}
use rfw.Config.Expand.{DuplicateError, expand_specs, validate_no_duplicates}
use rfw.Config.Entry.{parse_forwarder_spec}
use rfw.Config.Yaml.{ForwardersError, RawForwarder, deserialize_forwarders}
use rfw.Config.Settings.{Settings, SettingsError, default_settings, validate}
use rfw.Config.Cli.{CliArgs, apply_cli_overrides}

-- `usize::MAX` of a 64-bit target.
abbrev pub usize_max : ℕ
usize_max = 18_446_744_073_709_551_615

-- A variable of the environment, its key and value.
abbrev pub Variable : Type 0
Variable = Text × Text

index_of : Text → Option ℕ
index_of key = elim (strip_prefix (codes "RFW_FORWARDER_") key) [
  | none ↦ none
  | some suffix ↦ elim (parse_uint usize_max suffix) [ ok n ↦ some n | err e ↦ none ]
]

-- The `filter_map`: the variables that are forwarders, each with its index. The key is kept for log
-- lines only, and left out here.
indexed : List Variable → List (ℕ × Text)
unfolding index_of
indexed [] = []
indexed ((key, value) ∷ vars) = elim (index_of key) [
  | none ↦ indexed vars
  | some n ↦ (n, value) ∷ indexed vars
]

-- `sort_by_key`, which is stable.
insert_by_index : ℕ × Text → List (ℕ × Text) → List (ℕ × Text)
insert_by_index e [] = e ∷ []
insert_by_index (n, v) ((m, w) ∷ es) =
    if leb n m then (n, v) ∷ (m, w) ∷ es else (m, w) ∷ insert_by_index (n, v) es

sort_by_index : List (ℕ × Text) → List (ℕ × Text)
unfolding insert_by_index
sort_by_index [] = []
sort_by_index (e ∷ es) = insert_by_index e (sort_by_index es)

-- An entry that does not parse is skipped.
parse_entries : List (ℕ × Text) → List ForwarderSpec
parse_entries [] = []
parse_entries ((n, value) ∷ es) = elim (parse_forwarder_spec value) [
  | ok spec ↦ spec ∷ parse_entries es
  | err e ↦ parse_entries es
]

unfoldable pub load_env_forwarders : List Variable → Result DuplicateError (List ForwarderConfig)
unfolding indexed sort_by_index parse_entries
load_env_forwarders vars = expand_specs (parse_entries (sort_by_index (indexed vars)))

-- A file as the deserialiser gives it, with the defaults of absent fields filled in.
pub record RawFile : Type 0 where
  pub forwarders : List RawForwarder
  pub settings : Settings

pub record LoadedConfig : Type 0 where
  pub forwarders : List ForwarderConfig
  pub settings : Settings

pub data LoadError : Type 0 where
  unreadable malformed : Text → LoadError
  invalid_list : ForwardersError → LoadError
  invalid_argument : SpecError → LoadError
  endpoint_clash : DuplicateError → LoadError
  address_clash : Text → LoadError
  invalid_settings : SettingsError → LoadError

pub data ForwarderSource : Type 0 where
  env cli file nowhere : ForwarderSource

-- `read` is `std::fs::read_to_string`, and `yaml` the deserialiser of the package serde_saphyr, for
-- the fields that it fills by itself.
module _ (read : Text → Result Text Text) (yaml : Text → Result Text RawFile) where
  -- `serde_saphyr::from_str::<ConfigFile>`.
  unfoldable pub config_file_of : Text → Result LoadError LoadedConfig
  config_file_of content = do
    raw ← map_err malformed (yaml content)
    forwarders ← map_err invalid_list (deserialize_forwarders raw.forwarders)
    ok (record { forwarders = forwarders; settings = raw.settings })

  unfoldable pub load_yaml_config : Text → Result LoadError LoadedConfig
  unfolding config_file_of
  load_yaml_config path = do
    content ← map_err unreadable (read path)
    cf ← config_file_of content
    map_err address_clash (validate_no_duplicates cf.forwarders)
    ok cf

  -- From the command line if it names forwarders, else from the file if one is given.
  pub configured :
      List Text → Option Text → Result LoadError (List ForwarderConfig × ForwarderSource)
  unfolding load_yaml_config
  configured [] none = ok ([], nowhere)
  configured [] (some path) = do loaded ← load_yaml_config path; ok (loaded.forwarders, file)
  configured (arg ∷ args) path = do
    specs ← map_err invalid_argument (traverse parse_forwarder_spec (arg ∷ args))
    forwarders ← map_err endpoint_clash (expand_specs specs)
    ok (forwarders, cli)

  abbrev pub prefer_env :
      List ForwarderConfig
      → List ForwarderConfig × ForwarderSource
      → List ForwarderConfig × ForwarderSource
  prefer_env [] other = other
  prefer_env (f ∷ fs) other = (f ∷ fs, env)

  unfoldable pub load_forwarders_with_source :
      CliArgs → List Variable → Result LoadError (List ForwarderConfig × ForwarderSource)
  unfolding configured
  load_forwarders_with_source c vars = do
    other ← configured c.forwarders c.config_file
    env_forwarders ← map_err endpoint_clash (load_env_forwarders vars)
    let chosen = prefer_env env_forwarders other
    map_err address_clash (validate_no_duplicates chosen.0)
    ok chosen

  file_settings : Option Text → Result LoadError Settings
  unfolding config_file_of
  file_settings none = ok default_settings
  file_settings (some path) = elim (read path) [
    | err e ↦ ok default_settings
    | ok content ↦ config_file_of content >>= λ cf. ok cf.settings
  ]

  -- `parses` and `webhook` are as in `validate`.
  unfoldable pub load_settings :
      (Text → Bool) → (Text → Result Text (Unit {0})) → CliArgs → Result LoadError Settings
  unfolding file_settings
  load_settings parses webhook c = do
    base ← file_settings c.config_file
    let settings = apply_cli_overrides base c
    map_err invalid_settings (validate parses webhook settings)
    ok settings
