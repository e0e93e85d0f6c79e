-- ===== src/Handler/Payload.antt =====
-- internal/handler/handler.go: configPayloadFromData and envVarsPayloadFromData with the helpers
-- on inherited sources. The head version is read from the store each time, so that the readings
-- are arguments.
pub mod Laws
use aap_config_server.Base.{
  ℕ, String, Bool, true, false, not, ◌&&◌, ◌||◌, Option, none, some, List, [], ◌∷◌, if◌then◌else◌,
}
use aap_config_server.Base.Eq.{◌==◌, text_has_eq}
use aap_config_server.Store.Value.{Fields, no_fields}
use aap_config_server.Store.Types.{
  ServiceConfig, EnvVarsConfig, EnvVars, ServiceKey, ServiceData, DefaultsSource,
}
use aap_config_server.Store.Inherit.{no_env_vars}

-- hasInheritedConfigSource, on the sources
unfoldable pub has_inherited_config_source : List DefaultsSource → Bool
has_inherited_config_source [] = false
has_inherited_config_source (source ∷ sources) =
    source.has_config || has_inherited_config_source sources

-- hasInheritedEnvVarsSource, on the sources
unfoldable pub has_inherited_env_vars_source : List DefaultsSource → Bool
has_inherited_env_vars_source [] = false
has_inherited_env_vars_source (source ∷ sources) =
    source.has_env_vars || has_inherited_env_vars_source sources

-- configMeta; the code formats the time
pub record ConfigMeta : Type 0 where
  pub org : String
  pub project : String
  pub service : String
  pub version : String
  pub updated_at : ℕ

-- cacheableReadPayload: its body is the metadata and the resource
pub record CacheableReadPayload (Body : Type 0) : Type 0 where
  pub metadata : ConfigMeta
  pub body : Body
  pub version : String
  pub updated_at : ℕ

abbrev pub meta_of : ServiceKey → String → ℕ → ConfigMeta
meta_of key version updated_at = record {
  org = key.org;
  project = key.project;
  service = key.service;
  version = version;
  updated_at = updated_at;
}

abbrev pub or_head : String → String → String
or_head version head = if version == "" then head else version

-- the two tests on the version in configPayloadFromData
unfoldable pub config_version : Bool → ServiceData → String → String → String
config_version inherit d head later =
    or_head
      (if inherit && has_inherited_config_source d.inherited_sources
        then head
        else d.config_resource_version)
      later

-- those of envVarsPayloadFromData
unfoldable pub env_vars_version : Bool → ServiceData → String → String → String
env_vars_version inherit d head later =
    or_head
      (if (not inherit || not (has_inherited_env_vars_source d.inherited_sources))
          && not (d.env_vars_resource_version == "")
        then d.env_vars_resource_version
        else head)
      later

-- the inherited view, if it is asked for and there is one
abbrev pub inherited_or : {A : Type 0} → Bool → Option A → Option A → Option A
inherited_or inherit none own = own
inherited_or inherit (some view) own = if inherit then some view else own

abbrev pub fields_or_empty : Option ServiceConfig → Fields
fields_or_empty none = no_fields
fields_or_empty (some cfg) = cfg.config

abbrev pub env_vars_or_empty : Option EnvVarsConfig → EnvVars
env_vars_or_empty none = no_env_vars
env_vars_or_empty (some env) = env.env_vars

-- configPayloadFromData
unfoldable pub config_payload_from_data :
    ServiceKey → Bool → ServiceData → String → String → CacheableReadPayload Fields
config_payload_from_data key inherit d head later =
    let version = config_version inherit d head later in
    record {
      metadata = meta_of key version d.updated_at;
      body = fields_or_empty (inherited_or inherit d.inherited_config d.config);
      version = version;
      updated_at = d.updated_at;
    }

-- envVarsPayloadFromData
unfoldable pub env_vars_payload_from_data :
    ServiceKey → Bool → ServiceData → String → String → CacheableReadPayload EnvVars
env_vars_payload_from_data key inherit d head later =
    let version = env_vars_version inherit d head later in
    record {
      metadata = meta_of key version d.updated_at;
      body = env_vars_or_empty (inherited_or inherit d.inherited_env_vars d.env_vars);
      version = version;
      updated_at = d.updated_at;
    }
