-- ===== src/Parser/Files.antt =====
-- internal/parser/config.go, envvars.go, secrets.go: a file is checked, decoded and checked again.
pub mod Laws
use aap_config_server.Base.{
  ℕ, suc, String, Bool, true, false, Option, none, some, List, [], ◌∷◌, if◌then◌else◌, or_then,
}
use aap_config_server.Base.Eq.{◌==◌, text_has_eq}
use aap_config_server.Base.Map.{Map, lookup, insert}
use aap_config_server.Store.Types.{
  ServiceMetadata, ServiceConfig, EnvVarsConfig, K8sSecret, SecretEntry, SecretsConfig,
  DefaultsConfig,
}
use aap_config_server.Store.Reload.{Parsed, parsed, failed}
use aap_config_server.Parser.Nodes.{
  SchemaError, missing_fields, missing_entry_fields, duplicate_id, undecodable,
}
use aap_config_server.Parser.Schema.{
  Document, validate_config_schema, validate_env_vars_schema, validate_secrets_schema,
  validate_defaults_schema,
}

-- yaml.Unmarshal of one file into a node, and into each of the records
pub record Yaml : Type 1 where
  pub Raw : Type 0
  pub nodes : Raw → Document
  pub decode_config : Raw → Parsed ServiceConfig
  pub decode_env_vars : Raw → Parsed EnvVarsConfig
  pub decode_secrets : Raw → Parsed SecretsConfig
  pub decode_defaults : Raw → Parsed DefaultsConfig

pub data Checked (A : Type 0) : Type 0 where
  accepted : A → Checked A
  rejected : SchemaError → Checked A

-- the names of the empty fields
unfoldable pub empty_fields : List (String × String) → List String
empty_fields [] = []
empty_fields ((name, content) ∷ fields) =
    if content == "" then name ∷ empty_fields fields else empty_fields fields

abbrev pub unless_empty : (List String → SchemaError) → List String → Option SchemaError
unless_empty error [] = none
unless_empty error (name ∷ more) = some (error (name ∷ more))

-- validateMetadata
unfoldable pub validate_metadata : String → ServiceMetadata → Option SchemaError
validate_metadata file m = unless_empty (missing_fields file) (
    empty_fields (
      ("metadata.service", m.service)
      ∷ ("metadata.org", m.org)
      ∷ ("metadata.project", m.project)
      ∷ []))

-- validateSecretEntry
unfoldable pub validate_secret_entry : ℕ → SecretEntry → Option SchemaError
validate_secret_entry i entry = unless_empty (missing_entry_fields i) (
    empty_fields (
      ("id", entry.id)
      ∷ ("k8s_secret.name", entry.k8s_secret.name)
      ∷ ("k8s_secret.namespace", entry.k8s_secret.namespace)
      ∷ ("k8s_secret.key", entry.k8s_secret.key)
      ∷ []))

abbrev pub unless_seen : String → ℕ → Option ℕ → Option SchemaError
unless_seen id i none = none
unless_seen id i (some prev) = some (duplicate_id id prev i)

-- the loop of ParseSecrets, with the index at which each id was seen
unfoldable pub check_entries : ℕ → Map String ℕ → List SecretEntry → Option SchemaError
check_entries i seen [] = none
check_entries i seen (entry ∷ entries) =
    or_then
      (or_then (validate_secret_entry i entry) (unless_seen entry.id i (lookup entry.id seen)))
      (check_entries (suc i) (insert entry.id i seen) entries)

abbrev pub accept_if : {A : Type 0} → A → Option SchemaError → Checked A
accept_if decoded none = accepted decoded
accept_if decoded (some why) = rejected why

abbrev pub decoded_with : {A : Type 0} → String → (A → Option SchemaError) → Parsed A → Checked A
decoded_with file check (failed why) = rejected (undecodable file why)
decoded_with file check (parsed decoded) = accept_if decoded (check decoded)

abbrev pub after_schema : {A : Type 0} → Option SchemaError → Checked A → Checked A
after_schema (some why) later = rejected why
after_schema none later = later

module _ (y : Yaml) where
  -- ParseConfig
  unfoldable pub parse_config : y.Raw → Checked ServiceConfig
  parse_config raw = after_schema (validate_config_schema (y.nodes raw)) (
      decoded_with "config.yaml" (λ cfg. validate_metadata "config.yaml" cfg.metadata)
        (y.decode_config raw))

  -- ParseEnvVars
  unfoldable pub parse_env_vars : y.Raw → Checked EnvVarsConfig
  parse_env_vars raw = after_schema (validate_env_vars_schema (y.nodes raw)) (
      decoded_with "env_vars.yaml" (λ cfg. validate_metadata "env_vars.yaml" cfg.metadata)
        (y.decode_env_vars raw))

  -- ParseSecrets
  unfoldable pub parse_secrets : y.Raw → Checked SecretsConfig
  parse_secrets raw =
      after_schema (validate_secrets_schema (y.nodes raw))
        (decoded_with "secrets.yaml" (λ cfg. check_entries 0 [] cfg.secrets) (y.decode_secrets raw))

  -- ParseDefaults
  unfoldable pub parse_defaults : y.Raw → Checked DefaultsConfig
  parse_defaults raw =
      after_schema (validate_defaults_schema (y.nodes raw))
        (decoded_with "_defaults/common.yaml" (λ cfg. none) (y.decode_defaults raw))
