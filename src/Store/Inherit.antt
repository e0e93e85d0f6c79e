-- ===== src/Store/Inherit.antt =====
-- internal/store/store.go, the inheritance of defaults: applyInheritedFields and what it calls.
pub mod Tests
pub mod Layers
pub mod Env
pub mod Config
use Prim.Native.String.{◌++◌ as str_append}
use aap_config_server.Base.{
  String, Bool, true, false, not, ◌||◌, Option, none, some, List, [], ◌∷◌, ◌++◌, map, if◌then◌else◌,
  is_some,
}
use aap_config_server.Base.Eq.{text_has_eq}
use aap_config_server.Base.Map.{Map, lookup, insert}
use aap_config_server.Store.Value.{Fields, no_fields, field}
use aap_config_server.Store.Merge.{deep_merge_map}
use aap_config_server.Store.Types.{
  ServiceMetadata, ServiceConfig, EnvVars, EnvVarsConfig, DefaultsConfig, ServiceKey, DefaultsScope,
  DefaultsSource, ServiceData,
}

pub record DefaultsEntry : Type 0 where
  pub source : DefaultsSource
  pub config : DefaultsConfig

pub record DefaultsIndex : Type 0 where
  pub global : Option DefaultsEntry
  pub org : Map String DefaultsEntry
  pub project : Map String DefaultsEntry

abbrev pub new_defaults_index : DefaultsIndex
new_defaults_index = record { global = none; org = []; project = [] }

-- `for key, value := range from { into[key] = value }`
unfoldable pub copy_entries : Map String String → Map String String → Map String String
copy_entries into [] = into
copy_entries into ((k, v) ∷ from) = copy_entries (insert k v into) from

unfoldable pub copy_env_vars : EnvVars → EnvVars
copy_env_vars src = record {
  plain = copy_entries [] src.plain;
  secret_refs = copy_entries [] src.secret_refs;
}

unfoldable pub merge_env_vars : EnvVars → EnvVars → EnvVars
merge_env_vars base override =
    let merged = copy_env_vars base in
    record {
      plain = copy_entries merged.plain override.plain;
      secret_refs = copy_entries merged.secret_refs override.secret_refs;
    }

-- `len(m) > 0`
abbrev pub is_filled : Map String String → Bool
is_filled [] = false
is_filled (e ∷ m) = true

abbrev pub has_fields : Fields → Bool
has_fields no_fields = false
has_fields (field k v fs) = true

abbrev pub has_env_vars_config : EnvVars → Bool
has_env_vars_config env = is_filled env.plain || is_filled env.secret_refs

-- `defaults.org[...]`, `defaults.project[...]` and `defaults.global`, appended when not nil
abbrev pub append_entry : Option DefaultsEntry → List DefaultsEntry
append_entry none = []
append_entry (some entry) = entry ∷ []

unfoldable pub defaults_entries_for : ServiceKey → DefaultsIndex → List DefaultsEntry
defaults_entries_for key defaults =
    append_entry defaults.global
    ++ append_entry (lookup key.org defaults.org)
    ++ append_entry (lookup (str_append key.org (str_append "/" key.project)) defaults.project)

-- the metadata of a service that has no file of its own
abbrev pub inherited_metadata : ServiceKey → ServiceMetadata
inherited_metadata key = record {
  service = key.service;
  org = key.org;
  project = key.project;
  updated_at = "";
}

-- the loop over the defaults: whether some entry counted, and the merge so far
unfoldable pub merge_config_defaults : Bool → Fields → List DefaultsEntry → Bool × Fields
merge_config_defaults has merged [] = (has, merged)
merge_config_defaults has merged (entry ∷ entries) =
    if has_fields entry.config.config
    then merge_config_defaults true (deep_merge_map merged entry.config.config) entries
    else merge_config_defaults has merged entries

-- the end of inheritedConfigFor, from the service's own file and the merged defaults
unfoldable pub config_over_defaults :
    ServiceKey → Option ServiceConfig → Bool × Fields → Option ServiceConfig
config_over_defaults key (some own) (has, merged) = some (record {
  version = own.version;
  metadata = own.metadata;
  config = deep_merge_map merged own.config;
})
config_over_defaults key none (has, merged) =
    if has
    then some (record { version = ""; metadata = inherited_metadata key; config = merged })
    else none

unfoldable pub inherited_config_for :
    ServiceKey → ServiceData → List DefaultsEntry → Option ServiceConfig
inherited_config_for key sd defaults =
    config_over_defaults key sd.config
      (merge_config_defaults (is_some sd.config) no_fields defaults)

unfoldable pub merge_env_defaults : Bool → EnvVars → List DefaultsEntry → Bool × EnvVars
merge_env_defaults has merged [] = (has, merged)
merge_env_defaults has merged (entry ∷ entries) =
    if has_env_vars_config entry.config.env_vars
    then merge_env_defaults true (merge_env_vars merged entry.config.env_vars) entries
    else merge_env_defaults has merged entries

-- the end of inheritedEnvVarsFor
unfoldable pub env_vars_over_defaults :
    ServiceKey → Option EnvVarsConfig → Bool × EnvVars → Option EnvVarsConfig
env_vars_over_defaults key (some own) (has, merged) = some (record {
  version = own.version;
  metadata = own.metadata;
  env_vars = merge_env_vars merged own.env_vars;
})
env_vars_over_defaults key none (has, merged) =
    if has
    then some (record { version = ""; metadata = inherited_metadata key; env_vars = merged })
    else none

abbrev pub no_env_vars : EnvVars
no_env_vars = record { plain = []; secret_refs = [] }

unfoldable pub inherited_env_vars_for :
    ServiceKey → ServiceData → List DefaultsEntry → Option EnvVarsConfig
inherited_env_vars_for key sd defaults =
    env_vars_over_defaults key sd.env_vars
      (merge_env_defaults (is_some sd.env_vars) no_env_vars defaults)

unfoldable pub apply_inherited_fields : ServiceKey → ServiceData → DefaultsIndex → ServiceData
apply_inherited_fields key sd defaults =
    let entries = defaults_entries_for key defaults in
    record sd {
      inherited_sources = map (λ entry. entry.source) entries;
      inherited_config = inherited_config_for key sd entries;
      inherited_env_vars = inherited_env_vars_for key sd entries;
    }
