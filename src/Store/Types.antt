-- ===== src/Store/Types.antt =====
-- internal/parser/types.go and internal/store/types.go: the parsed files and what the store keeps
-- of a service. A nil pointer is none; Go's zero time is the instant 0.
use aap_config_server.Base.{ℕ, String, Bool, Option, none, List, []}
use aap_config_server.Base.Map.{Map}
use aap_config_server.Store.Value.{Fields}

pub record ServiceMetadata : Type 0 where
  pub service : String
  pub org : String
  pub project : String
  pub updated_at : String

pub record ServiceConfig : Type 0 where
  pub version : String
  pub metadata : ServiceMetadata
  pub config : Fields

pub record EnvVars : Type 0 where
  pub plain : Map String String
  pub secret_refs : Map String String

pub record EnvVarsConfig : Type 0 where
  pub version : String
  pub metadata : ServiceMetadata
  pub env_vars : EnvVars

pub record K8sSecret : Type 0 where
  pub name : String
  pub namespace : String
  pub key : String

pub record SecretEntry : Type 0 where
  pub id : String
  pub description : String
  pub k8s_secret : K8sSecret

pub record SecretsConfig : Type 0 where
  pub version : String
  pub secrets : List SecretEntry

pub record DefaultsConfig : Type 0 where
  pub config : Fields
  pub env_vars : EnvVars

pub record ServiceKey : Type 0 where
  pub org : String
  pub project : String
  pub service : String

pub data DefaultsScope : Type 0 where
  global : DefaultsScope
  org : DefaultsScope
  project : DefaultsScope

pub record DefaultsSource : Type 0 where
  pub scope : DefaultsScope
  pub org : String
  pub project : String
  pub path : String
  pub has_config : Bool
  pub has_env_vars : Bool

pub record ServiceData : Type 0 where
  pub config : Option ServiceConfig
  pub env_vars : Option EnvVarsConfig
  pub secrets : Option SecretsConfig
  pub updated_at : ℕ
  pub inherited_sources : List DefaultsSource
  pub inherited_config : Option ServiceConfig
  pub inherited_env_vars : Option EnvVarsConfig
  pub config_resource_version : String
  pub env_vars_resource_version : String
  pub config_digest : String
  pub env_vars_digest : String

-- `&ServiceData{}`
abbrev pub empty_service : ServiceData
empty_service = record {
  config = none;
  env_vars = none;
  secrets = none;
  updated_at = 0;
  inherited_sources = [];
  inherited_config = none;
  inherited_env_vars = none;
  config_resource_version = "";
  env_vars_resource_version = "";
  config_digest = "";
  env_vars_digest = "";
}
