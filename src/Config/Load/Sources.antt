-- ===== src/Config/Load/Sources.antt =====
-- `load_forwarders_with_source` and `load_settings` of `src/config.rs`: which list the program runs,
-- and its checks for duplicates.

use rfw.Text.{Text}
use rfw.Base.{
  >>=-eq-ok, All, Bool, Distinct, List, Option, Result, Result-cases, [], inl, inr, map, map_err,
  map_err-eq-ok, none, ok, ok-injective, some, subst, sym, traverse, ℕ, ◌>>=◌, ◌∙◌, ◌∷◌, ◌≡◌,
}
use rfw.Config.Forwarder.{ForwarderConfig}
use rfw.Config.Spec.Bounds.{IsSpec}
use rfw.Config.Expand.{expand_specs, validate_no_duplicates}
use rfw.Config.Expand.Sound.{
  address, validate_no_duplicates-expand_specs, validate_no_duplicates_iff,
}
use rfw.Config.Entry.{parse_forwarder_spec}
use rfw.Config.Entry.RoundTrip.{parse_forwarder_spec-IsSpec}
use rfw.Config.Yaml.{RawForwarder, bad_entry, deserialize_forwarders, into_spec}
use rfw.Config.Yaml.Bounds.{IsRaw, into_spec-IsSpec}
use rfw.Config.Load.{
  ForwarderSource, LoadedConfig, RawFile, Variable, config_file_of, configured, endpoint_clash,
  file_settings, indexed, invalid_argument, invalid_list, invalid_settings, load_env_forwarders,
  load_forwarders_with_source, load_settings, load_yaml_config, malformed, parse_entries,
  prefer_env, sort_by_index, unreadable,
}
use rfw.Config.Cli.{CliArgs, apply_cli_overrides}
use rfw.Config.Settings.{Settings, validate}
use rfw.Config.Settings.Validate.{IsSafe, validate_iff}

traverse-All {ℓ κ} :
    {E : Type 0} {A : Type 0} {B : Type 0} (f : A → Result E B) (P : A → Type ℓ) (Q : B → Type κ)
    → ((a : A) (b : B) → P a → f a ≡ ok b → Q b)
    → (xs : List A) (ys : List B) → All P xs
    → traverse f xs ≡ ok ys
    → All Q ys
traverse-All f P Q step [] ys p e = subst (All Q) (ok-injective e) tt
traverse-All f P Q step (x ∷ xs) ys p e =
    let (y, head_ok, e') = >>=-eq-ok (f x) _ e in
    let (ys', tail_ok, made) = >>=-eq-ok (traverse f xs) _ e' in
    subst (All Q) (ok-injective made)
      (step x y p.0 head_ok, traverse-All f P Q step xs ys' p.1 tail_ok)

parse_entries-IsSpec : (es : List (ℕ × Text)) → All IsSpec (parse_entries es)
unfolding parse_entries
parse_entries-IsSpec [] = tt
parse_entries-IsSpec ((n, value) ∷ es) = elim (Result-cases (parse_forwarder_spec value)) [
  | inl (spec, e) ↦
      rw (e, parse_entries) (parse_forwarder_spec-IsSpec value spec e, parse_entries-IsSpec es)
  | inr (bad, e) ↦ rw (e, parse_entries) (parse_entries-IsSpec es)
]

All-unit {ℓ} : {A : Type ℓ} (xs : List A) → All (λ x. Unit {0}) xs
All-unit [] = tt
All-unit (x ∷ xs) = (tt, All-unit xs)

-- A list without two forwarders on one protocol and local address.
abbrev Unique : List ForwarderConfig → Type 0
Unique fs = validate_no_duplicates fs ≡ ok tt

load_env_forwarders-Unique :
    (vars : List Variable) (fs : List ForwarderConfig)
    → load_env_forwarders vars ≡ ok fs
    → Unique fs
unfolding load_env_forwarders
load_env_forwarders-Unique vars fs e =
    let es = sort_by_index (indexed vars) in
    validate_no_duplicates-expand_specs (parse_entries es) fs (parse_entries-IsSpec es) e

deserialize_forwarders-Unique :
    (raw : List RawForwarder) (fs : List ForwarderConfig)
    → All IsRaw raw
    → deserialize_forwarders raw ≡ ok fs
    → Unique fs
unfolding deserialize_forwarders
deserialize_forwarders-Unique raw fs v e =
    let (specs, read, expanded) = >>=-eq-ok (map_err bad_entry (traverse into_spec raw)) _ e in
    validate_no_duplicates-expand_specs specs fs
      (traverse-All into_spec IsRaw IsSpec into_spec-IsSpec raw specs v
        (map_err-eq-ok _ (traverse into_spec raw) read))
      (map_err-eq-ok _ (expand_specs specs) expanded)

nil-Unique : Unique []
nil-Unique = (validate_no_duplicates_iff []).1 tt

-- The deserialiser gives ports that are `u16`.
abbrev pub GivesPorts : (Text → Result Text RawFile) → Type 0
GivesPorts yaml =
    (content : Text) (raw : RawFile) → yaml content ≡ ok raw → All IsRaw raw.forwarders

module _ (read : Text → Result Text Text) (yaml : Text → Result Text RawFile)
    (ports : GivesPorts yaml) where
  config_file_of-Unique :
      (content : Text) (cf : LoadedConfig)
      → config_file_of read yaml content ≡ ok cf
      → Unique cf.forwarders
  unfolding config_file_of
  config_file_of-Unique content cf e =
      let (raw, given, e') = >>=-eq-ok (map_err malformed (yaml content)) _ e in
      let (fs, listed, made) =
        >>=-eq-ok (map_err invalid_list (deserialize_forwarders raw.forwarders)) _ e' in
      subst (λ c. Unique c.forwarders) (ok-injective made)
        (deserialize_forwarders-Unique raw.forwarders fs
          (ports content raw (map_err-eq-ok _ (yaml content) given))
          (map_err-eq-ok _ (deserialize_forwarders raw.forwarders) listed))

  -- The check behind the deserialiser never fails: loading a file is reading it and deserialising it.
  pub load_yaml_config_lem :
      (path : Text)
      → load_yaml_config read yaml path
        ≡ (map_err unreadable (read path) >>= config_file_of read yaml)
  unfolding load_yaml_config
  load_yaml_config_lem path = elim (Result-cases (read path)) [
    | inr (e, missing) ↦ rw missing
    | inl (content, found) ↦ elim (Result-cases (config_file_of read yaml content)) [
      | inl (cf, loaded) ↦ rw (found, loaded, config_file_of-Unique content cf loaded)
      | inr (e, failed) ↦ rw (found, failed)
    ]
  ]

  configured-Unique :
      (args : List Text) (path : Option Text) (other : List ForwarderConfig × ForwarderSource)
      → configured read yaml args path ≡ ok other
      → Unique other.0
  unfolding configured
  configured-Unique [] none other e = subst (λ o. Unique o.0) (ok-injective e) nil-Unique
  configured-Unique [] (some path) other e =
      let (cf, loaded, made) = >>=-eq-ok (load_yaml_config read yaml path) _ e in
      let (content, found, given) =
        >>=-eq-ok (map_err unreadable (read path)) _ (sym (load_yaml_config_lem path) ∙ loaded) in
      subst (λ o. Unique o.0) (ok-injective made) (config_file_of-Unique content cf given)
  configured-Unique (arg ∷ args) path other e =
      let (specs, read_ok, e') =
        >>=-eq-ok (map_err invalid_argument (traverse parse_forwarder_spec (arg ∷ args))) _ e in
      let (fs, expanded, made) = >>=-eq-ok (map_err endpoint_clash (expand_specs specs)) _ e' in
      subst (λ o. Unique o.0) (ok-injective made)
        (validate_no_duplicates-expand_specs specs fs
          (traverse-All parse_forwarder_spec (λ t. Unit {0}) IsSpec
            (λ t s _ h. parse_forwarder_spec-IsSpec t s h) (arg ∷ args) specs
            (All-unit (arg ∷ args))
            (map_err-eq-ok _ (traverse parse_forwarder_spec (arg ∷ args)) read_ok))
          (map_err-eq-ok _ (expand_specs specs) expanded))

  prefer_env-Unique :
      (es : List ForwarderConfig) (other : List ForwarderConfig × ForwarderSource)
      → Unique es
      → Unique other.0
      → Unique (prefer_env read yaml es other).0
  prefer_env-Unique [] other h k = k
  prefer_env-Unique (f ∷ fs) other h k = h

  -- Loading does without the last check for duplicates, which never fails.
  pub load_forwarders_with_source_lem :
      (c : CliArgs) (vars : List Variable)
      → load_forwarders_with_source read yaml c vars ≡ (
          configured read yaml c.forwarders c.config_file >>= λ other.
          map_err endpoint_clash (load_env_forwarders vars) >>= λ es.
          ok (prefer_env read yaml es other))
  unfolding load_forwarders_with_source
  load_forwarders_with_source_lem c vars =
      elim (Result-cases (configured read yaml c.forwarders c.config_file)) [
        | inr (e, failed) ↦ rw failed
        | inl (other, loaded) ↦ elim (Result-cases (load_env_forwarders vars)) [
          | inr (e, failed) ↦ rw (loaded, failed)
          | inl (es, found) ↦ rw (
            loaded,
            found,
            prefer_env-Unique es other (load_env_forwarders-Unique vars es found)
                (configured-Unique c.forwarders c.config_file other loaded),
          )
        ]
      ]

  -- The list that runs has no two forwarders on one protocol and local address.
  pub load_forwarders_with_source-Distinct :
      (c : CliArgs) (vars : List Variable) (fs : List ForwarderConfig) (source : ForwarderSource)
      → load_forwarders_with_source read yaml c vars ≡ ok (fs, source)
      → Distinct (map address fs)
  load_forwarders_with_source-Distinct c vars fs source e =
      let (other, loaded, e') =
        >>=-eq-ok (configured read yaml c.forwarders c.config_file) _
          (sym (load_forwarders_with_source_lem c vars) ∙ e) in
      let (es, found, made) = >>=-eq-ok (map_err endpoint_clash (load_env_forwarders vars)) _ e' in
      (validate_no_duplicates_iff fs).0 (
        subst (λ o. Unique o.0) (ok-injective made)
          (prefer_env-Unique es other
            (load_env_forwarders-Unique vars es (map_err-eq-ok _ (load_env_forwarders vars) found))
            (configured-Unique c.forwarders c.config_file other loaded)))

-- Settings that load are within the limits, whatever the file, the command line and the parsers are.
pub load_settings-IsSafe :
    (read : Text → Result Text Text) (yaml : Text → Result Text RawFile) (parses : Text → Bool)
    (webhook : Text → Result Text (Unit {0})) (c : CliArgs) (s : Settings)
    → load_settings read yaml parses webhook c ≡ ok s
    → IsSafe s
unfolding load_settings
load_settings-IsSafe read yaml parses webhook c s e =
    let (base, found, e') = >>=-eq-ok (file_settings read yaml c.config_file) _ e in
    let t = apply_cli_overrides base c in
    let (u, valid, made) = >>=-eq-ok (map_err invalid_settings (validate parses webhook t)) _ e' in
    subst IsSafe (ok-injective made)
      ((validate_iff parses webhook t).0 (map_err-eq-ok _ (validate parses webhook t) valid)).0
