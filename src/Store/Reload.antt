-- ===== src/Store/Reload.antt =====
-- internal/store/store.go, the reload: every file of a snapshot of the repository is parsed, and
-- the new view replaces the old one only if all of them were.
pub mod Load
use Prim.Native.String.{◌++◌ as str_append}
use aap_config_server.Base.{
  ℕ, suc, String, Bool, true, false, not, ◌||◌, Option, none, some, List, [], ◌∷◌, ◌++◌,
  if◌then◌else◌, is_some, length, ltb, nat_beq,
}
use aap_config_server.Base.Eq.{◌==◌, text_has_eq}
use aap_config_server.Base.Map.{Map, lookup, insert}
use aap_config_server.Base.Text.{split_on}
use aap_config_server.Store.Types.{
  ServiceConfig, EnvVarsConfig, SecretsConfig, DefaultsConfig, DefaultsScope, DefaultsSource,
  ServiceData, ServiceKey, empty_service,
}
use aap_config_server.Store.Paths.{
  slash, FileType, classify_path, classify_defaults_path, key_string,
}
use aap_config_server.Store.Inherit.{
  DefaultsEntry, DefaultsIndex, new_defaults_index, has_fields, has_env_vars_config,
  apply_inherited_fields,
}
use aap_config_server.Store.Versions.{Resource, with_resource_versions, resource_version}

pub data Parsed (A : Type 0) : Type 0 where
  parsed : A → Parsed A
  failed : String → Parsed A

-- What the store asks of internal/parser, of crypto/sha256 and of time.Parse.
pub record Parsers : Type 1 where
  pub Raw : Type 0
  pub parse_config : Raw → Parsed ServiceConfig
  pub parse_env_vars : Raw → Parsed EnvVarsConfig
  pub parse_secrets : Raw → Parsed SecretsConfig
  pub parse_defaults : Raw → Parsed DefaultsConfig
  pub digest_bytes : Raw → String
  pub parse_time : String → Option ℕ

pub record DataSnapshot : Type 0 where
  pub data_of : Map String ServiceData
  pub version : String

pub data ReloadError : Type 0 where
  repo_snapshot : String → ReloadError
  parse_failures : List (String × String) → ReloadError

pub record ReloadState : Type 0 where
  pub at : ℕ
  pub err : Option ReloadError

-- `version_changed` counts the channels that were closed; the store's own channel is the next one.
pub record ConfigStore : Type 0 where
  pub snapshot : DataSnapshot
  pub last_reload : Option ReloadState
  pub version_changed : ℕ

-- New
abbrev pub new_store : ConfigStore
new_store = record {
  snapshot = record { data_of = []; version = "" };
  last_reload = none;
  version_changed = 0;
}

-- IsDegraded
abbrev pub is_degraded : ConfigStore → Bool
is_degraded s = elim s.last_reload [ none ↦ false | some state ↦ is_some state.err ]

-- StatusInfo
pub record StoreStatus : Type 0 where
  pub version : String
  pub services_loaded : ℕ
  pub last_reload_at : ℕ
  pub degraded : Bool
  pub last_reload_error : Option ReloadError

abbrev pub status_info : ConfigStore → StoreStatus
status_info s = elim s.last_reload [
  | none ↦ record {
    version = s.snapshot.version;
    services_loaded = length s.snapshot.data_of;
    last_reload_at = 0;
    degraded = false;
    last_reload_error = none;
  }
  | some state ↦ record {
    version = s.snapshot.version;
    services_loaded = length s.snapshot.data_of;
    last_reload_at = state.at;
    degraded = is_some state.err;
    last_reload_error = state.err;
  }
]

-- GetConfig; none is the not-found error
abbrev pub get_config : ConfigStore → ServiceKey → Option ServiceData
get_config s key = lookup (key_string key) s.snapshot.data_of

-- ResourceVersion, the pair of the token and the snapshot's version
unfoldable pub resource_version_of : ConfigStore → ServiceKey → Resource → Option (String × String)
resource_version_of s key resource = elim (get_config s key) [
  | none ↦ none
  | some sd ↦ some (resource_version sd resource s.snapshot.version, s.snapshot.version)
]

-- a loop over a map that rewrites each value in place
unfoldable pub update_each {ℓ} : {V : Type ℓ} → (String → V → V) → Map String V → Map String V
update_each f [] = []
update_each f ((k, v) ∷ m) = (k, f k v) ∷ update_each f m

-- the zero-time fallback of reloadUnlocked
abbrev pub with_reload_time : ℕ → String → ServiceData → ServiceData
with_reload_time now key sd = record sd {
  updated_at = if nat_beq sd.updated_at 0 then now else sd.updated_at;
}

-- the body of applyDefaultsInheritance for one key, from the parts of the key
unfoldable pub inherit_parts : List String → DefaultsIndex → ServiceData → ServiceData
inherit_parts (org ∷ project ∷ service ∷ []) defaults sd =
    apply_inherited_fields (record { org = org; project = project; service = service }) sd defaults
inherit_parts parts defaults sd = sd

abbrev pub inherit_at : DefaultsIndex → String → ServiceData → ServiceData
inherit_at defaults key sd = inherit_parts (split_on slash key) defaults sd
