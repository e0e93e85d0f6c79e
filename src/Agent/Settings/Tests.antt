-- ===== src/Agent/Settings/Tests.antt =====
-- internal/agent/config.go on a small environment.
use Prim.Native.String.{String}
use aap_config_server.Base.{◌≡◌, refl, true, false, none, some, if◌then◌else◌}
use aap_config_server.Base.Eq.{◌==◌, text_has_eq}
use aap_config_server.Base.Int.{pos}
use aap_config_server.Agent.Settings.{
  AgentConfig, Parsing, loaded, load_config, env_config, env_value, first_env, validate_agent,
  trim_strings, with_value,
}
use aap_config_server.Agent.Settings.Laws.{IsUsable, load_config-IsUsable}

abbrev plain : Parsing
plain = record {
  trim_space = λ s. s;
  parse_url = λ s. some ("http", "config");
  parse_bool = λ s. some (s == "true");
  parse_duration = λ s. none;
}

abbrev environment : String → String
environment key =
    if key == "CONFIG_SERVER_URL"
    then "http://config"
    else if key == "CONFIG_AGENT_DRY_RUN"
    then "true"
    else if key == "ORG"
    then "acme"
    else if key == "PROJECT"
    then "ai"
    else if key == "SERVICE"
    then "chat"
    else ""

abbrev settings : AgentConfig
settings = record {
  config_server_url = "http://config";
  org = "acme";
  project = "ai";
  service = "chat";
  api_key = "";
  dry_run = true;
  resolve_secrets = false;
  http_timeout = pos 5000000000;
  log_level = "info";
  target_namespace = "";
  target_config_map = "";
  target_secret = "";
  target_deployment = "";
  poll_interval = pos 30000000000;
  debounce_cooldown = pos 10000000000;
  debounce_quiet = pos 10000000000;
  debounce_max_wait = pos 120000000000;
}

settings_there : load_config plain environment (λ c. some c) ≡ loaded settings
unfolding load_config env_config env_value first_env validate_agent trim_strings with_value
settings_there = refl

load_config-IsUsable_example : IsUsable plain settings
load_config-IsUsable_example =
    load_config-IsUsable plain environment settings (λ c. some c) settings_there
