-- ===== src/Store/Inherit/Tests.antt =====
-- The inheritance of internal/store/store.go at a service with global and project defaults.
use aap_config_server.Base.{String, ◌≡◌, refl, true, none, some, List, [], ◌∷◌, arith}
use aap_config_server.Base.Map.{lookup}
use aap_config_server.Base.Eq.{text_has_eq}
use aap_config_server.Store.Value.{text, scalar, Fields, no_fields, field, get, put}
use aap_config_server.Store.Merge.{deep_merge_map, copy_config_map, merge_fields}
use aap_config_server.Store.Merge.Laws.{IsGoMap}
use aap_config_server.Store.Types.{
  ServiceConfig, EnvVars, EnvVarsConfig, ServiceKey, DefaultsScope, empty_service,
}
use aap_config_server.Store.Inherit.{
  DefaultsEntry, DefaultsIndex, apply_inherited_fields, defaults_entries_for, inherited_metadata,
  inherited_config_for, config_over_defaults, merge_config_defaults, has_fields,
}
use aap_config_server.Store.Inherit.Env.{AreLoaded}
use aap_config_server.Store.Inherit.Config.{apply_inherited_fields_config}

abbrev chat : ServiceKey
chat = record { org = "acme"; project = "ai"; service = "chat" }

abbrev global_env : EnvVars
global_env = record { plain = ("LEVEL", "info") ∷ []; secret_refs = [] }

abbrev project_env : EnvVars
project_env = record { plain = ("LEVEL", "debug") ∷ []; secret_refs = [] }

abbrev entry : DefaultsScope → EnvVars → Fields → DefaultsEntry
entry scope env config = record {
  source = record {
    scope = scope;
    org = "";
    project = "";
    path = "";
    has_config = has_fields config;
    has_env_vars = true;
  };
  config = record { config = config; env_vars = env };
}

abbrev level : String → Fields
level s = field "level" (scalar (text s)) no_fields

abbrev defaults : DefaultsIndex
defaults = record {
  global = some (entry DefaultsScope.global global_env (level "info"));
  org = [];
  project = ("acme/ai", entry DefaultsScope.project project_env (level "debug")) ∷ [];
}

abbrev inherited_env : EnvVarsConfig
inherited_env = record {
  version = "";
  metadata = inherited_metadata chat;
  env_vars = record { plain = ("LEVEL", "debug") ∷ []; secret_refs = [] };
}

abbrev inherited_config : ServiceConfig
inherited_config = record {
  version = "";
  metadata = inherited_metadata chat;
  config = level "debug";
}

abbrev chat_defaults : List DefaultsEntry
chat_defaults =
    entry DefaultsScope.global global_env (level "info")
    ∷ entry DefaultsScope.project project_env (level "debug")
    ∷ []

chat_defaults-AreLoaded : AreLoaded none chat_defaults
chat_defaults-AreLoaded = record {
  own_maps = λ file h. ground arith;
  default_maps = (
    record { plain = (tt, tt); secret_refs = tt },
    (record { plain = (tt, tt); secret_refs = tt }, tt),
  );
}

apply_inherited_fields_config_example :
    get "level" inherited_config.config ≡ some (scalar (text "debug"))
unfolding apply_inherited_fields inherited_config_for config_over_defaults merge_config_defaults
    defaults_entries_for lookup deep_merge_map copy_config_map merge_fields get put IsGoMap
apply_inherited_fields_config_example =
    apply_inherited_fields_config "level" chat empty_service defaults inherited_config
      (λ f h. ground arith) ((refl, (tt, tt)), ((refl, (tt, tt)), tt)) refl
