-- ===== src/Config/Tests.antt =====
-- internal/config/config.go on the settings of a small server.
use aap_config_server.Base.{◌≡◌, refl, true, false, none, some}
use aap_config_server.Base.Eq.{text_has_eq}
use aap_config_server.Base.Int.{pos}
use aap_config_server.Base.Text.{cut_prefix}
use aap_config_server.Config.{
  zero_rate, above_zero, RateLimitConfig, ServerConfig, validate_server, apply_defaults,
  validate_rate_limit,
}
use aap_config_server.Config.Laws.{IsServable, validate_server-IsServable}

abbrev off : RateLimitConfig
off = record { requests_per_second = zero_rate; burst = pos 0 }

abbrev server : ServerConfig
server = record {
  addr = ":8080";
  git_url = "git@host:charts";
  git_branch = "main";
  git_local_path = "/tmp/charts";
  git_poll_interval = pos 30000000000;
  git_ssh_key_path = "/keys/git";
  git_username = "";
  git_password = "";
  api_key = "k3y";
  allow_unauthenticated_dev = false;
  secret_mount_path = "";
  sealed_secret_controller_namespace = "";
  sealed_secret_controller_name = "";
  sealed_secret_scope = "";
  k8s_apply_timeout = pos 0;
  secret_audit_log_enabled = none;
  console_api_url = "";
  console_api_timeout = pos 0;
  bootstrap_attempts = pos 0;
  bootstrap_initial_backoff = pos 0;
  bootstrap_max_backoff = pos 0;
  rate_limit_admin = record { requests_per_second = above_zero; burst = pos 5 };
  rate_limit_secret_resolve = off;
  rate_limit_watch = off;
  rate_limit_batch = off;
  rate_limit_read = off;
  log_level = "info";
  k8s_apply_timeout_explicit = false;
}

-- a timeout of zero that was asked for is refused
zero_timeout :
    (validate_server (λ url. none) (record server { k8s_apply_timeout_explicit = true })).1
    ≡ some "K8S_APPLY_TIMEOUT"
unfolding validate_server apply_defaults validate_rate_limit cut_prefix
zero_timeout = refl

server_accepted : (validate_server (λ url. none) server).1 ≡ none
unfolding validate_server apply_defaults validate_rate_limit cut_prefix
server_accepted = refl

validate_server-IsServable_example : IsServable (validate_server (λ url. none) server).0
validate_server-IsServable_example = validate_server-IsServable (λ url. none) server server_accepted
