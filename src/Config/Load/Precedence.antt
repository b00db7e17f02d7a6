-- ===== src/Config/Load/Precedence.antt =====
-- Which list of forwarders `load_forwarders_with_source` of `src/config.rs` chooses.

use rfw.Text.{Text}
use rfw.Base.{
  >>=-eq-ok, List, Option, Result, [], ap, arith, inl, inr, map_err, map_err-eq-ok, none, ok,
  ok-injective, refl, some, subst, sym, traverse, ◌↔◌, ◌∙◌, ◌∷◌, ◌≡◌, ◌≢◌, ◌⊎◌,
}
use rfw.Config.Forwarder.{ForwarderConfig}
use rfw.Config.Spec.{ForwarderSpec}
use rfw.Config.Expand.{expand_specs}
use rfw.Config.Entry.{parse_forwarder_spec}
use rfw.Config.Load.{
  ForwarderSource, LoadedConfig, RawFile, Variable, cli, configured, endpoint_clash, env, file,
  invalid_argument, load_env_forwarders, load_forwarders_with_source, load_yaml_config, nowhere,
  prefer_env,
}
use rfw.Config.Load.Sources.{GivesPorts, load_forwarders_with_source_lem}
use rfw.Config.Cli.{CliArgs}

module _ (read : Text → Result Text Text) (yaml : Text → Result Text RawFile) where
  -- The command line's forwarders if it names any, else those of the file if one is given.
  abbrev pub Listed : List Text → Option Text → List ForwarderConfig → ForwarderSource → Type 0
  Listed args config_file fs source =
      ((args ≢ [])
        × (source ≡ cli)
        × (specs : List ForwarderSpec) × (traverse parse_forwarder_spec args ≡ ok specs)
        × (expand_specs specs ≡ ok fs))
      ⊎ ((args ≡ [])
          × (source ≡ file)
          × (path : Text) × (loaded : LoadedConfig) × (config_file ≡ some path)
          × (load_yaml_config read yaml path ≡ ok loaded)
          × (fs ≡ loaded.forwarders))
      ⊎ ((args ≡ []) × (config_file ≡ none) × (source ≡ nowhere) × (fs ≡ []))

  configured-Listed :
      (args : List Text) (path : Option Text) (fs : List ForwarderConfig) (source : ForwarderSource)
      → configured read yaml args path ≡ ok (fs, source)
      → Listed args path fs source
  unfolding configured
  configured-Listed [] none fs source e =
      inr (
        inr
          (refl, refl, ap (λ r. r.1) (sym (ok-injective e)), ap (λ r. r.0) (sym (ok-injective e))))
  configured-Listed [] (some path) fs source e =
      let (cf, loaded, made) = >>=-eq-ok (load_yaml_config read yaml path) _ e in
      let same = sym (ok-injective made) in
      inr (inl (refl, ap (λ r. r.1) same, path, cf, refl, loaded, ap (λ r. r.0) same))
  configured-Listed (arg ∷ args) path fs source e =
      let (specs, read_ok, e') =
        >>=-eq-ok (map_err invalid_argument (traverse parse_forwarder_spec (arg ∷ args))) _ e in
      let (fs', expanded, made) = >>=-eq-ok (map_err endpoint_clash (expand_specs specs)) _ e' in
      let same = ok-injective made in
      inl (
        λ h. cc,
        ap (λ r. r.1) (sym same),
        specs,
        map_err-eq-ok _ (traverse parse_forwarder_spec (arg ∷ args)) read_ok,
        subst (λ l. expand_specs specs ≡ ok l) (ap (λ r. r.0) same)
            (map_err-eq-ok _ (expand_specs specs) expanded),
      )

  Listed-configured :
      (args : List Text) (path : Option Text) (fs : List ForwarderConfig) (source : ForwarderSource)
      → Listed args path fs source
      → configured read yaml args path ≡ ok (fs, source)
  unfolding configured
  Listed-configured [] path fs source (inl h) = absurd (h.0 refl)
  Listed-configured (arg ∷ args) path fs source (inl (named, from, specs, parsed, expanded)) =
      rw (parsed, map_err, expanded, from)
  Listed-configured args path fs source (inr (inl (nothing, from, p, loaded, given, found, same))) =
      rw (nothing, given, found, same, from)
  Listed-configured args path fs source (inr (inr (nothing, given, from, same))) =
      rw (nothing, given, from, same)

-- The list of the environment, unless it is empty.
abbrev pub Chosen :
    List ForwarderConfig
    → List ForwarderConfig × ForwarderSource
    → List ForwarderConfig
    → ForwarderSource
    → Type 0
Chosen es (fs', source') fs source =
    ((es ≢ []) × (fs ≡ es) × (source ≡ env)) ⊎ ((es ≡ []) × (fs ≡ fs') × (source ≡ source'))

module _ (read : Text → Result Text Text) (yaml : Text → Result Text RawFile)
    (ports : GivesPorts yaml) where
  prefer_env-Chosen :
      (es fs' fs : List ForwarderConfig) (source' source : ForwarderSource)
      → (prefer_env read yaml es (fs', source') ≡ (fs, source)) ↔ Chosen es (fs', source') fs source
  prefer_env-Chosen es fs' fs source' source = ground arith

  -- Loading gives a list and its source exactly when the environment's list loads, the list of the
  -- command line, or with no forwarder there that of the file, loads too, and the result is the
  -- environment's list if that has a forwarder and else the other one. So the other list must load even
  -- where the environment's replaces it, and the last check for duplicates refuses nothing. The YAML
  -- parser gives ports that are 16 bits wide.
  pub load_forwarders_with_source_iff :
      (c : CliArgs) (vars : List Variable) (fs : List ForwarderConfig) (source : ForwarderSource)
      → (load_forwarders_with_source read yaml c vars ≡ ok (fs, source)) ↔ (
          (es : List ForwarderConfig) × (fs' : List ForwarderConfig) × (source' : ForwarderSource)
          × (load_env_forwarders vars ≡ ok es)
          × Listed read yaml c.forwarders c.config_file fs' source'
          × Chosen es (fs', source') fs source)
  load_forwarders_with_source_iff c vars fs source = (
    λ e.
        let ((fs', source'), loaded, e') =
          >>=-eq-ok (configured read yaml c.forwarders c.config_file) _
            (sym (load_forwarders_with_source_lem read yaml ports c vars) ∙ e) in
        let (es, found, made) =
          >>=-eq-ok (map_err endpoint_clash (load_env_forwarders vars)) _ e' in
        (
          es,
          fs',
          source',
          map_err-eq-ok _ (load_env_forwarders vars) found,
          configured-Listed read yaml c.forwarders c.config_file fs' source' loaded,
          (prefer_env-Chosen es fs' fs source' source).0 (ok-injective made),
        ),
    λ (es, fs', source', found, listed, chosen).
        load_forwarders_with_source_lem read yaml ports c vars
        ∙ rw (
          Listed-configured read yaml c.forwarders c.config_file fs' source' listed,
          found,
          (prefer_env-Chosen es fs' fs source' source).1 chosen,
        ),
  )
