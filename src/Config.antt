-- ===== src/Config.antt =====
-- internal/config/config.go: the settings of the server, their defaults and their checks. Of a
-- float64 only its sign and kind are kept, which is all that the checks look at; url.Parse is an
-- argument.
pub mod Laws
pub mod Tests
use Prim.Native.String.{String}
use aap_config_server.Base.{
  ℕ, Bool, true, false, not, ◌&&◌, ◌||◌, Option, none, some, List, [], ◌∷◌, if◌then◌else◌, is_some,
  first_error, or_then,
}
use aap_config_server.Base.Eq.{◌==◌, text_has_eq}
use aap_config_server.Base.Int.{ℤ, pos, negsuc, ltb_ℤ, leb_ℤ}
use aap_config_server.Base.Text.{cut_prefix}

pub data Rate : Type 0 where
  not_a_number : Rate
  infinite : Rate
  below_zero : Rate
  zero_rate : Rate
  above_zero : Rate

pub record RateLimitConfig : Type 0 where
  pub requests_per_second : Rate
  pub burst : ℤ

pub record ServerConfig : Type 0 where
  pub addr : String
  pub git_url : String
  pub git_branch : String
  pub git_local_path : String
  pub git_poll_interval : ℤ
  pub git_ssh_key_path : String
  pub git_username : String
  pub git_password : String
  pub api_key : String
  pub allow_unauthenticated_dev : Bool
  pub secret_mount_path : String
  pub sealed_secret_controller_namespace : String
  pub sealed_secret_controller_name : String
  pub sealed_secret_scope : String
  pub k8s_apply_timeout : ℤ
  pub secret_audit_log_enabled : Option Bool
  pub console_api_url : String
  pub console_api_timeout : ℤ
  pub bootstrap_attempts : ℤ
  pub bootstrap_initial_backoff : ℤ
  pub bootstrap_max_backoff : ℤ
  pub rate_limit_admin : RateLimitConfig
  pub rate_limit_secret_resolve : RateLimitConfig
  pub rate_limit_watch : RateLimitConfig
  pub rate_limit_batch : RateLimitConfig
  pub rate_limit_read : RateLimitConfig
  pub log_level : String
  pub k8s_apply_timeout_explicit : Bool

abbrev pub text_or : String → String → String
text_or value default_value = if value == "" then default_value else value

abbrev pub is_zero : ℤ → Bool
is_zero n = leb_ℤ n (pos 0) && leb_ℤ (pos 0) n

abbrev pub number_or : ℤ → ℕ → ℤ
number_or value default_value = if is_zero value then pos default_value else value

abbrev pub flag_or_true : Option Bool → Option Bool
flag_or_true none = some true
flag_or_true (some on) = some on

-- applyDefaults; durations are in nanoseconds
unfoldable pub apply_defaults : ServerConfig → ServerConfig
apply_defaults c = record c {
  secret_mount_path = text_or c.secret_mount_path "/secrets";
  sealed_secret_controller_namespace = text_or c.sealed_secret_controller_namespace "kube-system";
  sealed_secret_controller_name =
      text_or c.sealed_secret_controller_name "sealed-secrets-controller";
  sealed_secret_scope = text_or c.sealed_secret_scope "strict";
  k8s_apply_timeout =
      if is_zero c.k8s_apply_timeout && not c.k8s_apply_timeout_explicit
      then pos 10000000000
      else c.k8s_apply_timeout;
  secret_audit_log_enabled = flag_or_true c.secret_audit_log_enabled;
  console_api_timeout = number_or c.console_api_timeout 5000000000;
  bootstrap_attempts = number_or c.bootstrap_attempts 5;
  bootstrap_initial_backoff = number_or c.bootstrap_initial_backoff 1000000000;
  bootstrap_max_backoff = number_or c.bootstrap_max_backoff 30000000000;
}

-- SecretAuditEnabled
abbrev pub secret_audit_enabled : ServerConfig → Bool
secret_audit_enabled c = elim c.secret_audit_log_enabled [ none ↦ true | some on ↦ on ]

abbrev pub is_finite : Rate → Bool
is_finite not_a_number = false
is_finite infinite = false
is_finite rate = true

abbrev pub is_negative : Rate → Bool
is_negative below_zero = true
is_negative rate = false

abbrev pub is_zero_rate : Rate → Bool
is_zero_rate zero_rate = true
is_zero_rate rate = false

-- validateRateLimitConfig
unfoldable pub validate_rate_limit : String → RateLimitConfig → Option String
validate_rate_limit prefix cfg =
    if not (is_finite cfg.requests_per_second)
    then some prefix
    else if is_negative cfg.requests_per_second
    then some prefix
    else if ltb_ℤ cfg.burst (pos 0)
    then some prefix
    else if is_zero_rate cfg.requests_per_second && is_zero cfg.burst
    then none
    else if (is_negative cfg.requests_per_second || is_zero_rate cfg.requests_per_second)
        || leb_ℤ cfg.burst (pos 0)
    then some prefix
    else none

-- `filepath.IsAbs`
abbrev pub is_abs : String → Bool
is_abs path = is_some (cut_prefix "/" path)

abbrev pub url_scheme : Option (String × String) → String
url_scheme none = ""
url_scheme (some (scheme, host)) = scheme

abbrev pub url_host : Option (String × String) → String
url_host none = ""
url_host (some (scheme, host)) = host

module _ (parse_url : String → Option (String × String)) where
  -- the guards of Validate before the rate limits, in order, with the setting that each one names
  abbrev pub server_guards : ServerConfig → List (Bool × String)
  server_guards c =
      (c.git_url == "", "GIT_URL")
      ∷ (leb_ℤ c.git_poll_interval (pos 0), "GIT_POLL_INTERVAL")
      ∷ (c.api_key == "" && not c.allow_unauthenticated_dev, "API_KEY")
      ∷ (
        not (c.git_ssh_key_path == "")
            && (not (c.git_username == "") || not (c.git_password == "")),
        "GIT_SSH_KEY",
      )
      ∷ (
        (not (c.git_username == "") && c.git_password == "")
            || (c.git_username == "" && not (c.git_password == "")),
        "GIT_USERNAME",
      )
      ∷ (c.secret_mount_path == "", "SECRET_MOUNT_PATH")
      ∷ (not (is_abs c.secret_mount_path), "SECRET_MOUNT_PATH")
      ∷ (c.sealed_secret_controller_namespace == "", "SEALED_SECRET_CONTROLLER_NAMESPACE")
      ∷ (c.sealed_secret_controller_name == "", "SEALED_SECRET_CONTROLLER_NAME")
      ∷ (
        not (c.sealed_secret_scope == "strict")
            && (not (c.sealed_secret_scope == "namespace-wide")
                && not (c.sealed_secret_scope == "cluster-wide")),
        "SEALED_SECRET_SCOPE",
      )
      ∷ (leb_ℤ c.k8s_apply_timeout (pos 0), "K8S_APPLY_TIMEOUT")
      ∷ (
        not (c.console_api_url == "") && not (is_some (parse_url c.console_api_url)),
        "CONSOLE_API_URL",
      )
      ∷ (
        not (c.console_api_url == "")
            && (not (url_scheme (parse_url c.console_api_url) == "http")
                && not (url_scheme (parse_url c.console_api_url) == "https")),
        "CONSOLE_API_URL",
      )
      ∷ (
        not (c.console_api_url == "") && url_host (parse_url c.console_api_url) == "",
        "CONSOLE_API_URL",
      )
      ∷ (leb_ℤ c.console_api_timeout (pos 0), "CONSOLE_API_TIMEOUT")
      ∷ (leb_ℤ c.bootstrap_attempts (pos 0), "CONSOLE_REGISTRY_BOOTSTRAP_ATTEMPTS")
      ∷ (leb_ℤ c.bootstrap_initial_backoff (pos 0), "CONSOLE_REGISTRY_BOOTSTRAP_INITIAL_BACKOFF")
      ∷ (leb_ℤ c.bootstrap_max_backoff (pos 0), "CONSOLE_REGISTRY_BOOTSTRAP_MAX_BACKOFF")
      ∷ (
        ltb_ℤ c.bootstrap_max_backoff c.bootstrap_initial_backoff,
        "CONSOLE_REGISTRY_BOOTSTRAP_MAX_BACKOFF",
      )
      ∷ []

  -- the rate limits at the end of Validate
  abbrev pub limit_errors : ServerConfig → Option String
  limit_errors c = or_then (validate_rate_limit "RATE_LIMIT_ADMIN" c.rate_limit_admin) (
      or_then (validate_rate_limit "RATE_LIMIT_SECRET_RESOLVE" c.rate_limit_secret_resolve) (
        or_then (validate_rate_limit "RATE_LIMIT_WATCH" c.rate_limit_watch) (
          or_then (validate_rate_limit "RATE_LIMIT_BATCH" c.rate_limit_batch)
            (validate_rate_limit "RATE_LIMIT_READ" c.rate_limit_read))))

  -- Validate: the settings with their defaults, and the setting that is refused
  unfoldable pub validate_server : ServerConfig → ServerConfig × Option String
  validate_server c =
      let d = apply_defaults c in (d, or_then (first_error (server_guards d)) (limit_errors d))
