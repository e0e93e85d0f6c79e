-- ===== src/Agent/Settings.antt =====
-- internal/agent/config.go: the settings of the agent from its environment, and their checks.
-- strings.TrimSpace, url.Parse, strconv.ParseBool, time.ParseDuration and the parsing of the flags
-- are arguments.
pub mod Laws
pub mod Tests
use Prim.Native.String.{String}
use aap_config_server.Base.{
  ℕ, Bool, true, false, not, ◌&&◌, ◌||◌, Option, none, some, List, [], ◌∷◌, if◌then◌else◌, is_some,
  first_error, ◌*◌,
}
use aap_config_server.Base.Eq.{◌==◌, text_has_eq}
use aap_config_server.Base.Int.{ℤ, pos, ltb_ℤ, leb_ℤ}

pub record AgentConfig : Type 0 where
  pub config_server_url : String
  pub org : String
  pub project : String
  pub service : String
  pub api_key : String
  pub dry_run : Bool
  pub resolve_secrets : Bool
  pub http_timeout : ℤ
  pub log_level : String
  pub target_namespace : String
  pub target_config_map : String
  pub target_secret : String
  pub target_deployment : String
  pub poll_interval : ℤ
  pub debounce_cooldown : ℤ
  pub debounce_quiet : ℤ
  pub debounce_max_wait : ℤ

-- what the code uses of the standard library; a parsed URL is its scheme and host
pub record Parsing : Type 0 where
  pub trim_space : String → String
  pub parse_url : String → Option (String × String)
  pub parse_bool : String → Option Bool
  pub parse_duration : String → Option ℤ

-- the settings, or the setting that was refused
pub data Loaded : Type 0 where
  loaded : AgentConfig → Loaded
  not_loaded : String → Loaded

abbrev pub second : ℕ
second = 1000000000

unfoldable pub with_value : {A : Type 0} → String → Option A → (A → Loaded) → Loaded
with_value key none next = not_loaded key
with_value key (some value) next = next value

abbrev pub scheme_of : Option (String × String) → String
scheme_of none = ""
scheme_of (some (scheme, host)) = scheme

abbrev pub host_of : Option (String × String) → String
host_of none = ""
host_of (some (scheme, host)) = host

module _ (p : Parsing) where
  -- trimStrings
  unfoldable pub trim_strings : AgentConfig → AgentConfig
  trim_strings c = record c {
    config_server_url = p.trim_space c.config_server_url;
    org = p.trim_space c.org;
    project = p.trim_space c.project;
    service = p.trim_space c.service;
    api_key = p.trim_space c.api_key;
    log_level = p.trim_space c.log_level;
    target_namespace = p.trim_space c.target_namespace;
    target_config_map = p.trim_space c.target_config_map;
    target_secret = p.trim_space c.target_secret;
    target_deployment = p.trim_space c.target_deployment;
  }

  -- the guards of Validate, in order, with the setting that each one names
  abbrev pub agent_guards : AgentConfig → List (Bool × String)
  agent_guards c =
      (c.config_server_url == "", "CONFIG_SERVER_URL")
      ∷ (not (is_some (p.parse_url c.config_server_url)), "CONFIG_SERVER_URL")
      ∷ (
        not (scheme_of (p.parse_url c.config_server_url) == "http")
            && not (scheme_of (p.parse_url c.config_server_url) == "https"),
        "CONFIG_SERVER_URL",
      )
      ∷ (host_of (p.parse_url c.config_server_url) == "", "CONFIG_SERVER_URL")
      ∷ (c.org == "", "CONFIG_AGENT_ORG")
      ∷ (c.project == "", "CONFIG_AGENT_PROJECT")
      ∷ (c.service == "", "CONFIG_AGENT_SERVICE")
      ∷ (leb_ℤ c.http_timeout (pos 0), "CONFIG_AGENT_HTTP_TIMEOUT")
      ∷ (leb_ℤ c.poll_interval (pos 0), "CONFIG_AGENT_POLL_INTERVAL")
      ∷ (leb_ℤ c.debounce_cooldown (pos 0), "CONFIG_AGENT_DEBOUNCE_COOLDOWN")
      ∷ (leb_ℤ c.debounce_quiet (pos 0), "CONFIG_AGENT_DEBOUNCE_QUIET_PERIOD")
      ∷ (leb_ℤ c.debounce_max_wait (pos 0), "CONFIG_AGENT_DEBOUNCE_MAX_WAIT")
      ∷ (ltb_ℤ c.debounce_max_wait c.debounce_quiet, "CONFIG_AGENT_DEBOUNCE_MAX_WAIT")
      ∷ (ltb_ℤ c.debounce_max_wait c.debounce_cooldown, "CONFIG_AGENT_DEBOUNCE_MAX_WAIT")
      ∷ (c.resolve_secrets && c.api_key == "", "CONFIG_AGENT_API_KEY")
      ∷ (not c.dry_run, "--dry-run")
      ∷ []

  -- Validate: the trimmed settings, and the setting that is refused
  unfoldable pub validate_agent : AgentConfig → AgentConfig × Option String
  validate_agent c = (trim_strings c, first_error (agent_guards (trim_strings c)))

  abbrev pub filled_or : String → String → String
  filled_or value later = if value == "" then later else value

  module _ (getenv : String → String) where
    -- firstEnv
    unfoldable pub first_env : List String → String
    first_env [] = ""
    first_env (key ∷ keys) = let rest = first_env keys in filled_or (p.trim_space (getenv key)) rest

    -- firstEnvWithDefault
    abbrev pub first_env_with_default : String → List String → String
    first_env_with_default fallback keys = filled_or (first_env keys) fallback

    -- envBool and envDuration, by the parser of the value; none is the error
    unfoldable pub env_value : {A : Type 0} → (String → Option A) → String → A → Option A
    env_value parse key fallback =
        if p.trim_space (getenv key) == "" then some fallback else parse (p.trim_space (getenv key))

    -- the three durations of the debounce
    abbrev pub with_debounce : (ℤ → ℤ → ℤ → Loaded) → Loaded
    with_debounce next =
        with_value "CONFIG_AGENT_DEBOUNCE_COOLDOWN"
          (env_value p.parse_duration "CONFIG_AGENT_DEBOUNCE_COOLDOWN" (pos (10 * second)))
          (λ cooldown.
            with_value "CONFIG_AGENT_DEBOUNCE_QUIET_PERIOD"
              (env_value p.parse_duration "CONFIG_AGENT_DEBOUNCE_QUIET_PERIOD" (pos (10 * second)))
              (λ quiet.
                with_value "CONFIG_AGENT_DEBOUNCE_MAX_WAIT"
                  (env_value p.parse_duration "CONFIG_AGENT_DEBOUNCE_MAX_WAIT" (pos (120 * second)))
                  (λ max_wait. next cooldown quiet max_wait)))

    -- LoadConfig, from the environment to the flags
    unfoldable pub env_config : (AgentConfig → Loaded) → Loaded
    env_config next =
        with_value "CONFIG_AGENT_DRY_RUN" (env_value p.parse_bool "CONFIG_AGENT_DRY_RUN" false)
          (λ dry_run.
            with_value "CONFIG_AGENT_RESOLVE_SECRETS"
              (env_value p.parse_bool "CONFIG_AGENT_RESOLVE_SECRETS" false)
              (λ resolve_secrets.
                with_value "CONFIG_AGENT_HTTP_TIMEOUT"
                  (env_value p.parse_duration "CONFIG_AGENT_HTTP_TIMEOUT" (pos (5 * second)))
                  (λ http_timeout.
                    with_value "CONFIG_AGENT_POLL_INTERVAL"
                      (env_value p.parse_duration "CONFIG_AGENT_POLL_INTERVAL" (pos (30 * second)))
                      (λ poll_interval. with_debounce (λ cooldown quiet max_wait. next (record {
                        config_server_url =
                            first_env ("CONFIG_SERVER_URL" ∷ "CONFIG_AGENT_CONFIG_SERVER_URL" ∷ []);
                        org = first_env ("CONFIG_AGENT_ORG" ∷ "ORG" ∷ []);
                        project = first_env ("CONFIG_AGENT_PROJECT" ∷ "PROJECT" ∷ []);
                        service = first_env ("CONFIG_AGENT_SERVICE" ∷ "SERVICE" ∷ []);
                        api_key = first_env ("CONFIG_AGENT_API_KEY" ∷ "API_KEY" ∷ []);
                        dry_run = dry_run;
                        resolve_secrets = resolve_secrets;
                        http_timeout = http_timeout;
                        log_level =
                            first_env_with_default "info"
                              ("CONFIG_AGENT_LOG_LEVEL" ∷ "LOG_LEVEL" ∷ []);
                        target_namespace = getenv "CONFIG_AGENT_TARGET_NAMESPACE";
                        target_config_map = getenv "CONFIG_AGENT_TARGET_CONFIGMAP";
                        target_secret = getenv "CONFIG_AGENT_TARGET_SECRET";
                        target_deployment = getenv "CONFIG_AGENT_TARGET_DEPLOYMENT";
                        poll_interval = poll_interval;
                        debounce_cooldown = cooldown;
                        debounce_quiet = quiet;
                        debounce_max_wait = max_wait;
                      }))))))

    abbrev pub after_validate : AgentConfig × Option String → Loaded
    after_validate (c, none) = loaded c
    after_validate (c, some key) = not_loaded key

    -- LoadConfig; `parse_args` is the flag set over the settings, none its error
    unfoldable pub load_config : (AgentConfig → Option AgentConfig) → Loaded
    load_config parse_args =
        env_config (λ c. with_value "flags" (parse_args c) (λ d. after_validate (validate_agent d)))
