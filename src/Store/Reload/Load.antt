-- ===== src/Store/Reload/Load.antt =====
-- internal/store/store.go: parseAndStore, parseAndStoreDefaults, reloadUnlocked, and the two entry
-- points RefreshFromRepo and ReloadFromRepo.
pub mod Laws
pub mod Tests
pub mod Data
pub mod Content
pub mod Tokens
pub mod Entry
use Prim.Native.String.{◌++◌ as str_append}
use aap_config_server.Base.{
  ℕ, suc, String, Bool, true, false, not, ◌||◌, Option, none, some, List, [], ◌∷◌, ◌++◌,
  if◌then◌else◌, ltb, nat_beq,
}
use aap_config_server.Base.Eq.{◌==◌, text_has_eq}
use aap_config_server.Base.Map.{Map, lookup, insert}
use aap_config_server.Store.Types.{
  ServiceConfig, EnvVarsConfig, SecretsConfig, DefaultsConfig, DefaultsScope, DefaultsSource,
  ServiceData, empty_service,
}
use aap_config_server.Store.Paths.{FileType, classify_path, classify_defaults_path}
use aap_config_server.Store.Inherit.{
  DefaultsEntry, DefaultsIndex, new_defaults_index, has_fields, has_env_vars_config,
}
use aap_config_server.Store.Versions.{with_resource_versions}
use aap_config_server.Store.Reload.{
  Parsed, parsed, failed, Parsers, DataSnapshot, ReloadError, repo_snapshot, parse_failures,
  ReloadState, ConfigStore, is_degraded, update_each, with_reload_time, inherit_at,
}

-- what the callback of reloadUnlocked has gathered so far
pub record Loading : Type 0 where
  pub services : Map String ServiceData
  pub defaults : DefaultsIndex
  pub errors : List (String × String)

abbrev pub nothing_loaded : Loading
nothing_loaded = record { services = []; defaults = new_defaults_index; errors = [] }

-- what GitRepo.Snapshot does: it fails, or hands over every file and gives the commit
pub data RepoSnapshot (Raw : Type 0) : Type 0 where
  broken : String → RepoSnapshot Raw
  complete : String → List (String × Raw) → RepoSnapshot Raw

-- what GitRepo.Pull answers: an error, or the commit and whether it moved
pub data Pulled : Type 0 where
  pull_failed : String → Pulled
  pulled : String → Bool → Pulled

-- `data[key]`, or a fresh entry
abbrev pub entry_at : Option ServiceData → ServiceData
entry_at none = empty_service
entry_at (some sd) = sd

module _ (p : Parsers) where
  -- applyMetadataUpdatedAt, on the time alone
  unfoldable pub newest_update : ℕ → String → ℕ
  newest_update updated_at iso = if iso == "" then updated_at else elim (p.parse_time iso) [
    | none ↦ updated_at
    | some t ↦ if nat_beq updated_at 0 || ltb updated_at t then t else updated_at
  ]

  abbrev pub with_config : ServiceData → p.Raw → ServiceConfig → ServiceData
  with_config sd raw cfg = record sd {
    config = some cfg;
    updated_at = newest_update sd.updated_at cfg.metadata.updated_at;
    config_digest = p.digest_bytes raw;
  }

  abbrev pub with_env_vars : ServiceData → p.Raw → EnvVarsConfig → ServiceData
  with_env_vars sd raw env = record sd {
    env_vars = some env;
    updated_at = newest_update sd.updated_at env.metadata.updated_at;
    env_vars_digest = p.digest_bytes raw;
  }

  abbrev pub with_secrets : ServiceData → SecretsConfig → ServiceData
  with_secrets sd sec = record sd { secrets = some sec }

  -- the switch of parseAndStore: the service's new entry, or the parser's message
  unfoldable pub parse_file : FileType → p.Raw → ServiceData → Parsed ServiceData
  parse_file FileType.config raw sd = elim (p.parse_config raw) [
    | parsed cfg ↦ parsed (with_config sd raw cfg)
    | failed why ↦ failed why
  ]
  parse_file FileType.env_vars raw sd = elim (p.parse_env_vars raw) [
    | parsed env ↦ parsed (with_env_vars sd raw env)
    | failed why ↦ failed why
  ]
  parse_file FileType.secrets raw sd = elim (p.parse_secrets raw) [
    | parsed sec ↦ parsed (with_secrets sd sec)
    | failed why ↦ failed why
  ]

  -- a failed parse leaves the entry, fresh or not, in the map
  abbrev pub kept_or : ServiceData → Parsed ServiceData → ServiceData
  kept_or sd (parsed new) = new
  kept_or sd (failed why) = sd

  -- the error of parseAndStore, under the file's path
  abbrev pub failure_at : String → Parsed ServiceData → List (String × String)
  failure_at path (parsed new) = []
  failure_at path (failed why) = (path, why) ∷ []

  -- parseAndStore
  unfoldable pub parse_and_store :
      Option (String × FileType)
      → String
      → p.Raw
      → Map String ServiceData
      → Map String ServiceData × List (String × String)
  parse_and_store none path raw services = (services, [])
  parse_and_store (some (key, kind)) path raw services =
      let sd = entry_at (lookup key services) in
      let result = parse_file kind raw sd in
      (insert key (kept_or sd result) services, failure_at path result)

  -- the switch over the scope
  abbrev pub with_defaults : DefaultsIndex → DefaultsSource → DefaultsEntry → DefaultsIndex
  with_defaults index source entry = elim source.scope [
    | DefaultsScope.global ↦ record index { global = some entry }
    | DefaultsScope.org ↦ record index { org = insert source.org entry index.org }
    | DefaultsScope.project ↦ record index {
      project = insert (str_append source.org (str_append "/" source.project)) entry index.project;
    }
  ]

  abbrev pub defaults_entry : DefaultsSource → DefaultsConfig → DefaultsEntry
  defaults_entry source cfg = record {
    source = record source {
      has_config = has_fields cfg.config;
      has_env_vars = has_env_vars_config cfg.env_vars;
    };
    config = cfg;
  }

  -- parseAndStoreDefaults behind its classification
  unfoldable pub parse_and_store_defaults :
      DefaultsSource → p.Raw → DefaultsIndex → Parsed DefaultsIndex
  parse_and_store_defaults source raw index = elim (p.parse_defaults raw) [
    | parsed cfg ↦ parsed (with_defaults index source (defaults_entry source cfg))
    | failed why ↦ failed why
  ]

  -- the callback of reloadUnlocked
  unfoldable pub load_file : String → p.Raw → Loading → Loading
  load_file path raw l = elim (classify_defaults_path path) [
    | some source ↦ elim (parse_and_store_defaults source raw l.defaults) [
      | parsed index ↦ record l { defaults = index }
      | failed why ↦ record l { errors = l.errors ++ (path, why) ∷ [] }
    ]
    | none ↦
        let stored = parse_and_store (classify_path path) path raw l.services in
        record l { services = stored.0; errors = l.errors ++ stored.1 }
  ]

  unfoldable pub load_files : Loading → List (String × p.Raw) → Loading
  load_files l [] = l
  load_files l ((path, raw) ∷ files) = load_files (load_file path raw l) files

  -- the passes over the map once everything was parsed
  unfoldable pub finish :
      DataSnapshot → ℕ → String → Map String ServiceData → DefaultsIndex → Map String ServiceData
  finish prev now hash services defaults =
      update_each (λ key. with_resource_versions hash (lookup key prev.data_of))
        (update_each (inherit_at defaults) (update_each (with_reload_time now) services))

  abbrev pub reload_failed : ℕ → ReloadError → ConfigStore → ConfigStore
  reload_failed now why s = record s { last_reload = some (record { at = now; err = some why }) }

  -- the swap at the end of reloadUnlocked, with notifyVersionChange
  unfoldable pub swap_snapshot : ℕ → DataSnapshot → ConfigStore → ConfigStore
  swap_snapshot now next s = record {
    snapshot = next;
    last_reload = some (record { at = now; err = none });
    version_changed =
        if next.version == s.snapshot.version then s.version_changed else suc s.version_changed;
  }

  -- reloadUnlocked from the gathered files; the two readings of the clock are given
  unfoldable pub reload_loaded :
      ℕ → ℕ → String → Loading → ConfigStore → ConfigStore × Option ReloadError
  reload_loaded now done hash l s = elim l.errors [
    | why ∷ more ↦
        (reload_failed done (parse_failures (why ∷ more)) s, some (parse_failures (why ∷ more)))
    | [] ↦ (
      swap_snapshot done
          (record { data_of = finish s.snapshot now hash l.services l.defaults; version = hash }) s,
      none,
    )
  ]

  -- reloadUnlocked
  unfoldable pub reload :
      ℕ → ℕ → RepoSnapshot p.Raw → ConfigStore → ConfigStore × Option ReloadError
  reload now done (broken why) s =
      (reload_failed done (repo_snapshot why) s, some (repo_snapshot why))
  reload now done (complete hash files) s =
      reload_loaded now done hash (load_files nothing_loaded files) s

pub data StoreError : Type 0 where
  pull_error : String → StoreError
  reload_error : ReloadError → StoreError

module _ (p : Parsers) where
  -- RefreshFromRepo: the new store, `updated` and the error
  unfoldable pub refresh_from_repo :
      ℕ → ℕ → Pulled → RepoSnapshot p.Raw → ConfigStore → ConfigStore × (Bool × Option StoreError)
  refresh_from_repo now done (pull_failed why) repo s = (s, (false, some (pull_error why)))
  refresh_from_repo now done (pulled hash false) repo s = (s, (false, none))
  refresh_from_repo now done (pulled hash true) repo s =
      let result = reload p now done repo s in
      elim result.1 [
        | some why ↦ (result.0, (false, some (reload_error why)))
        | none ↦ (result.0, (true, none))
      ]

  -- ReloadFromRepo
  unfoldable pub reload_from_repo :
      ℕ → ℕ → Pulled → RepoSnapshot p.Raw → ConfigStore → ConfigStore × (Bool × Option StoreError)
  reload_from_repo now done (pull_failed why) repo s = (s, (false, some (pull_error why)))
  reload_from_repo now done (pulled hash moved) repo s =
      let result = reload p now done repo s in
      elim result.1 [
        | some why ↦ (result.0, (false, some (reload_error why)))
        | none ↦ (
          result.0,
          (moved || not (result.0.snapshot.version == s.snapshot.version) || is_degraded s, none),
        )
      ]
