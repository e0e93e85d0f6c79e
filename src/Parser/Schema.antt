-- ===== src/Parser/Schema.antt =====
-- internal/parser/validate.go: the schemas of the four files.
pub mod Laws
use Prim.Native.String.{String, ◌++◌}
use aap_config_server.Base.{
  ℕ, suc, Bool, true, false, Option, none, some, List, [], ◌∷◌, if◌then◌else◌, or_then,
}
use aap_config_server.Base.Decimal.{decimal}
use aap_config_server.Parser.Nodes.{
  Node, kind, content, is_mapping, is_sequence, SchemaError, not_yaml, not_a_document,
  must_be_sequence, require_mapping, require_scalar, child, optional, each, validate_mapping_keys,
  validate_string_map,
}

-- what yaml.Unmarshal makes of a file
pub data Document : Type 0 where
  unreadable : String → Document
  document : List Node → Document

pub data Root : Type 0 where
  refused : SchemaError → Root
  root : Node → Root

abbrev pub root_node : String → List Node → Root
root_node file [] = refused (not_a_document file)
root_node file (n ∷ more) = if is_mapping (kind n) then root n else refused (not_a_document file)

-- rootMapping
unfoldable pub root_mapping : String → Document → Root
root_mapping file (unreadable why) = refused (not_yaml file why)
root_mapping file (document nodes) = root_node file nodes

abbrev pub with_root : (Node → Option SchemaError) → Root → Option SchemaError
with_root check (refused why) = some why
with_root check (root n) = check n

abbrev pub scalar_at : String → Node → String → String → Option SchemaError
scalar_at file n prefix key = optional (require_scalar file (prefix ++ key)) (child n key)

-- validateMetadataSchema, on a node that is there
unfoldable pub validate_metadata_schema : String → Node → Option SchemaError
validate_metadata_schema file n = or_then (require_mapping file "metadata" n) (
    or_then
      (validate_mapping_keys file n "metadata" ("service" ∷ "org" ∷ "project" ∷ "updated_at" ∷ []))
      (each (scalar_at file n "metadata.") ("service" ∷ "org" ∷ "project" ∷ "updated_at" ∷ [])))

-- validateEnvVarsBlock, on a node that is there
unfoldable pub validate_env_vars_block : String → String → Node → Option SchemaError
validate_env_vars_block file path n = or_then (require_mapping file path n) (
    or_then (validate_mapping_keys file n path ("plain" ∷ "secret_refs" ∷ [])) (
      each (λ key. optional (validate_string_map file (path ++ ("." ++ key))) (child n key))
        ("plain" ∷ "secret_refs" ∷ [])))

unfoldable pub check_config : Node → Option SchemaError
check_config r =
    or_then (validate_mapping_keys "config.yaml" r "root" ("version" ∷ "metadata" ∷ "config" ∷ []))
      (or_then (optional (validate_metadata_schema "config.yaml") (child r "metadata")) (
        or_then (optional (require_scalar "config.yaml" "version") (child r "version"))
          (optional (require_mapping "config.yaml" "config") (child r "config"))))

-- validateConfigSchema
unfoldable pub validate_config_schema : Document → Option SchemaError
validate_config_schema doc = with_root check_config (root_mapping "config.yaml" doc)

unfoldable pub check_env_vars : Node → Option SchemaError
check_env_vars r =
    or_then
      (validate_mapping_keys "env_vars.yaml" r "root" ("version" ∷ "metadata" ∷ "env_vars" ∷ []))
      (or_then (optional (validate_metadata_schema "env_vars.yaml") (child r "metadata")) (
        or_then (optional (require_scalar "env_vars.yaml" "version") (child r "version"))
          (optional (validate_env_vars_block "env_vars.yaml" "env_vars") (child r "env_vars"))))

-- validateEnvVarsSchema
unfoldable pub validate_env_vars_schema : Document → Option SchemaError
validate_env_vars_schema doc = with_root check_env_vars (root_mapping "env_vars.yaml" doc)

-- what the loop of validateSecretsSchema asks of `k8s_secret`
unfoldable pub check_k8s_secret : String → Node → Option SchemaError
check_k8s_secret path n = or_then (require_mapping "secrets.yaml" path n) (
    or_then (validate_mapping_keys "secrets.yaml" n path ("name" ∷ "namespace" ∷ "key" ∷ []))
      (each (scalar_at "secrets.yaml" n (path ++ ".")) ("name" ∷ "namespace" ∷ "key" ∷ [])))

-- one round of that loop
unfoldable pub check_secret : String → Node → Option SchemaError
check_secret path item = or_then (require_mapping "secrets.yaml" path item) (
    or_then
      (validate_mapping_keys "secrets.yaml" item path ("id" ∷ "description" ∷ "k8s_secret" ∷ []))
      (or_then (each (scalar_at "secrets.yaml" item (path ++ ".")) ("id" ∷ "description" ∷ []))
        (optional (check_k8s_secret (path ++ ".k8s_secret")) (child item "k8s_secret"))))

unfoldable pub check_secret_items : ℕ → List Node → Option SchemaError
check_secret_items i [] = none
check_secret_items i (item ∷ items) =
    or_then (check_secret ("secrets[" ++ (decimal i ++ "]")) item)
      (check_secret_items (suc i) items)

unfoldable pub check_secret_list : Node → Option SchemaError
check_secret_list n =
    if is_sequence (kind n)
    then check_secret_items 0 (content n)
    else some (must_be_sequence "secrets.yaml" "secrets")

unfoldable pub check_secrets : Node → Option SchemaError
check_secrets r =
    or_then (validate_mapping_keys "secrets.yaml" r "root" ("version" ∷ "secrets" ∷ [])) (
      or_then (optional (require_scalar "secrets.yaml" "version") (child r "version"))
        (optional check_secret_list (child r "secrets")))

-- validateSecretsSchema
unfoldable pub validate_secrets_schema : Document → Option SchemaError
validate_secrets_schema doc = with_root check_secrets (root_mapping "secrets.yaml" doc)

unfoldable pub check_defaults : Node → Option SchemaError
check_defaults r =
    or_then (validate_mapping_keys "_defaults/common.yaml" r "root" ("config" ∷ "env_vars" ∷ [])) (
      or_then (optional (require_mapping "_defaults/common.yaml" "config") (child r "config")) (
        optional (validate_env_vars_block "_defaults/common.yaml" "env_vars") (child r "env_vars")))

-- validateDefaultsSchema
unfoldable pub validate_defaults_schema : Document → Option SchemaError
validate_defaults_schema doc = with_root check_defaults (root_mapping "_defaults/common.yaml" doc)
