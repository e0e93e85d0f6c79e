-- ===== src/Store/Changes.antt =====
-- internal/store/store.go, the admin writes: what ApplyChanges and DeleteChanges use of the
-- repository, the sealer, the applier and the auditor, their checks, and the files they write.
pub mod Sealing
pub mod Apply
pub mod Remove
pub mod Laws
pub mod Audit
pub mod Written
pub mod Tests
use Prim.Native.String.{String, ◌++◌ as str_append}
use aap_config_server.Base.{
  ℕ, Bool, true, false, not, ◌&&◌, ◌||◌, Option, none, some, List, [], ◌∷◌, ◌++◌, map,
  if◌then◌else◌, is_some,
}
use aap_config_server.Base.Eq.{◌==◌, text_has_eq}
use aap_config_server.Base.Map.{Map, lookup, insert}
use aap_config_server.Store.Value.{Fields}
use aap_config_server.Store.Types.{
  ServiceConfig, EnvVars, EnvVarsConfig, SecretsConfig, ServiceMetadata,
}
use aap_config_server.Store.Paths.{is_valid_name, service_path}
use aap_config_server.Store.SecretIds.{
  SecretWrite, WritesCheck, no_writes, has_writes, validate_secret_writes, merge_secret_entries,
}
use aap_config_server.Store.Reload.{Parsed, parsed, failed, Parsers, ConfigStore, ReloadError}
use aap_config_server.Store.Reload.Load.{RepoSnapshot}
use aap_config_server.Store.Revert.{joined, service_relative_path, sorted_map_keys}

pub record ChangeRequest (Value : Type 0) : Type 0 where
  pub org : String
  pub project : String
  pub service : String
  pub config : Option Fields
  pub env_vars : Option EnvVars
  pub secrets : Map String (SecretWrite Value)
  pub message : String

-- an empty text of the code's error fields is none
pub record ChangeResult : Type 0 where
  pub version : String
  pub updated_at : ℕ
  pub files : List String
  pub apply_error : Option (List String)
  pub reload_error : Option ReloadError

pub record SealRequest (Value : Type 0) : Type 0 where
  pub org : String
  pub project : String
  pub service : String
  pub namespace : String
  pub name : String
  pub secret_data : Map String Value

pub record SealedManifest (Raw : Type 0) : Type 0 where
  pub namespace : String
  pub name : String
  pub path : String
  pub yaml : Raw

pub record AuditEvent : Type 0 where
  pub action : String
  pub outcome : String
  pub org : String
  pub project : String
  pub service : String
  pub secret_ids : List String

pub data ChangeError : Type 0 where
  identity_required : ChangeError
  invalid_name : String → String → ChangeError
  bad_writes : WritesCheck → ChangeError
  nothing_to_change : ChangeError
  no_sealer : ChangeError
  no_applier : ChangeError
  marshal_failed : String → String → ChangeError
  seal_failed : String → String → String → ChangeError
  read_secrets_failed : String → ChangeError
  parse_secrets_failed : String → ChangeError
  outside_service : String → ChangeError
  git_failed : String → ChangeError

pub data Result (A : Type 0) : Type 0 where
  ok : A → Result A
  err : ChangeError → Result A

pub data ReadAnswer (Raw : Type 0) : Type 0 where
  no_file : ReadAnswer Raw
  unreadable : String → ReadAnswer Raw
  contents : Raw → ReadAnswer Raw

-- The function given to CommitAndPushFunc: from a reader of the clone, the files to write. It also
-- assigns the variable `writtenFiles`, whose value goes in and out.
abbrev pub Builder : Type 0 → Type 0
Builder Raw = (String → ReadAnswer Raw) → List String → Result (Map String Raw) × List String

-- What the operations ask of others: of gitops.GitRepo, of the sealer and the applier if they are
-- configured, of yaml.Marshal and of the clock's format. `World` is what these change.
pub record Backend (p : Parsers) : Type 1 where
  pub World : Type 0
  pub Value : Type 0
  pub destroy : Value → Value
  pub format_time : ℕ → String
  pub marshal_config : ServiceConfig → Parsed p.Raw
  pub marshal_env_vars : EnvVarsConfig → Parsed p.Raw
  pub marshal_secrets : SecretsConfig → Parsed p.Raw
  pub commit_and_push_func :
      String → Builder p.Raw → List String → World → Result String × (List String × World)
  pub commit_and_push : String → Map String p.Raw → World → Result String × World
  pub delete_and_push : String → List String → World → Result (String × List String) × World
  pub snapshot : World → RepoSnapshot p.Raw
  pub sealer : Option (SealRequest Value → World → Parsed (SealedManifest p.Raw) × World)
  pub applier : Option (SealedManifest p.Raw → World → Option String × World)
  pub auditor : Bool

-- validateName of the three names, after the test for empty ones
unfoldable pub check_identity : String → String → String → Option ChangeError
check_identity org project service =
    if org == "" || (project == "" || service == "")
    then some identity_required
    else if not (is_valid_name org)
    then some (invalid_name "org" org)
    else if not (is_valid_name project)
    then some (invalid_name "project" project)
    else if not (is_valid_name service)
    then some (invalid_name "service" service)
    else none

module _ {p : Parsers} (b : Backend p) where
  -- destroySecretWrites
  unfoldable pub destroy_secret_writes :
      Map String (SecretWrite b.Value) → Map String (SecretWrite b.Value)
  destroy_secret_writes [] = []
  destroy_secret_writes ((name, write) ∷ writes) =
      (name, record write { secret_data = map (λ e. (e.0, b.destroy e.1)) write.secret_data })
      ∷ destroy_secret_writes writes

  -- whether there are secrets, or the error, of the checks before the lock
  abbrev pub check_change : WritesCheck → ChangeRequest b.Value → Result Bool
  check_change no_writes req =
      if is_some req.config || is_some req.env_vars then ok false else err nothing_to_change
  check_change has_writes req = ok true
  check_change bad req = err (bad_writes bad)

  unfoldable pub validate_change : ChangeRequest b.Value → Result Bool
  validate_change req = check_change (validate_secret_writes req.secrets) req

  abbrev pub metadata_at : ℕ → ChangeRequest b.Value → ServiceMetadata
  metadata_at now req = record {
    service = req.service;
    org = req.org;
    project = req.project;
    updated_at = b.format_time now;
  }

  abbrev pub config_file : ℕ → ChangeRequest b.Value → Option (Parsed p.Raw)
  config_file now req = elim req.config [
    | none ↦ none
    | some fields ↦ some (
        b.marshal_config
          (record { version = "1"; metadata = metadata_at now req; config = fields }))
  ]

  abbrev pub env_vars_file : ℕ → ChangeRequest b.Value → Option (Parsed p.Raw)
  env_vars_file now req = elim req.env_vars [
    | none ↦ none
    | some env ↦ some (
        b.marshal_env_vars
          (record { version = "1"; metadata = metadata_at now req; env_vars = env }))
  ]

  -- files to write by path, and their names below the service
  abbrev pub Files : Type 0
  Files = Map String p.Raw × List String

  abbrev pub svc_path : ChangeRequest b.Value → String
  svc_path req = service_path req.org req.project req.service

  unfoldable pub add_file : String → String → p.Raw → Files → Files
  add_file svc rel raw files = (insert (joined svc rel) raw files.0, files.1 ++ rel ∷ [])

  -- the block of one of the two base files
  unfoldable pub add_base : String → String → Option (Parsed p.Raw) → Result Files → Result Files
  add_base svc rel file (err why) = err why
  add_base svc rel none (ok files) = ok files
  add_base svc rel (some (parsed raw)) (ok files) = ok (add_file svc rel raw files)
  add_base svc rel (some (failed why)) (ok files) = err (marshal_failed rel why)

  unfoldable pub base_files : ℕ → ChangeRequest b.Value → Result Files
  base_files now req =
      add_base (svc_path req) "env_vars.yaml" (env_vars_file now req)
        (add_base (svc_path req) "config.yaml" (config_file now req) (ok ([], [])))

  -- readExistingSecrets
  unfoldable pub read_existing_secrets : ReadAnswer p.Raw → Result (Option SecretsConfig)
  read_existing_secrets no_file = ok none
  read_existing_secrets (unreadable why) = err (read_secrets_failed why)
  read_existing_secrets (contents raw) = elim (p.parse_secrets raw) [
    | parsed sec ↦ ok (some sec)
    | failed why ↦ err (parse_secrets_failed why)
  ]

  abbrev pub or_outside : String → SealedManifest p.Raw → Option String → Files → Result Files
  or_outside svc manifest none files = err (outside_service manifest.path)
  or_outside svc manifest (some rel) files =
      ok (insert manifest.path manifest.yaml files.0, files.1 ++ rel ∷ [])

  -- the loop over the manifests
  unfoldable pub add_manifests : String → List (SealedManifest p.Raw) → Result Files → Result Files
  add_manifests svc manifests (err why) = err why
  add_manifests svc [] (ok files) = ok files
  add_manifests svc (manifest ∷ manifests) (ok files) =
      add_manifests svc manifests
        (or_outside svc manifest (service_relative_path svc manifest.path) files)

  abbrev pub add_secrets_file : String → Parsed p.Raw → Files → Result Files
  add_secrets_file svc (failed why) files = err (marshal_failed "secrets.yaml" why)
  add_secrets_file svc (parsed raw) files = ok (add_file svc "secrets.yaml" raw files)

  abbrev pub over_existing :
      ChangeRequest b.Value
      → List (SealedManifest p.Raw)
      → Files
      → Result (Option SecretsConfig)
      → Result Files
  over_existing req manifests base (err why) = err why
  over_existing req manifests base (ok existing) = add_manifests (svc_path req) manifests (
      add_secrets_file (svc_path req)
        (b.marshal_secrets
          (record { version = "1"; secrets = merge_secret_entries existing req.secrets }))
        base)

  -- the files of a change with secrets, on what the clone has as secrets.yaml
  unfoldable pub secret_files :
      ChangeRequest b.Value
      → List (SealedManifest p.Raw)
      → Files
      → (String → ReadAnswer p.Raw)
      → Result Files
  secret_files req manifests base reader =
      over_existing req manifests base
        (read_existing_secrets (reader (joined (svc_path req) "secrets.yaml")))

  abbrev pub assign_written : Result Files → List String → Result (Map String p.Raw) × List String
  assign_written (err why) written = (err why, written)
  assign_written (ok files) written = (ok files.0, files.1)

  -- the function that ApplyChanges gives to CommitAndPushFunc
  unfoldable pub build_files :
      ChangeRequest b.Value → List (SealedManifest p.Raw) → Files → Builder p.Raw
  build_files req manifests base reader written =
      assign_written (secret_files req manifests base reader) written
