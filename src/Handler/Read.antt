-- ===== src/Handler/Read.antt =====
-- internal/handler/handler.go: getConfig and getEnvVars with the functions behind them, for the
-- current state of a service. The reads at a version and with resolved secrets are other handlers,
-- given as arguments.
use Prim.Native.String.{String}
use aap_config_server.Base.{
  ℕ, Bool, true, false, not, ◌&&◌, ◌||◌, Option, none, some, ◌⊎◌, inl, inr, if◌then◌else◌,
}
use aap_config_server.Base.Eq.{◌==◌, text_has_eq}
use aap_config_server.Store.Value.{Fields}
use aap_config_server.Store.Types.{ServiceKey, ServiceData, EnvVars}
use aap_config_server.Store.Reload.{ConfigStore, get_config}
use aap_config_server.Handler.Payload.{
  CacheableReadPayload, config_payload_from_data, env_vars_payload_from_data,
}
use aap_config_server.Handler.Respond.{ErrorDetail, AppError, code_not_found, respond_error}

-- a refused query with its message, an error with its status, or what respondCacheableJSON is given
pub data GetAnswer (A : Type 0) : Type 0 where
  bad_query : String → GetAnswer A
  error_answer : ℕ × ErrorDetail → GetAnswer A
  payload_answer : CacheableReadPayload A → GetAnswer A

-- the store's not-found error, with its message
abbrev pub not_found_error : String → AppError
not_found_error message = record {
  is_canceled = false;
  is_deadline_exceeded = false;
  app = some (code_not_found, message);
}

-- `strconv.ParseBool`
unfoldable pub parse_bool : String → Option Bool
parse_bool s =
    if s == "1" || s == "t" || s == "T" || s == "true" || s == "TRUE" || s == "True"
    then some true
    else if s == "0" || s == "f" || s == "F" || s == "false" || s == "FALSE" || s == "False"
    then some false
    else none

-- parseBoolQuery and parseInheritQuery, on the text of the parameter
unfoldable pub parse_bool_query : String → Option Bool
parse_bool_query raw = if raw == "" then some false else parse_bool raw

unfoldable pub parse_inherit_query : String → Option Bool
parse_inherit_query raw = if raw == "" then some true else parse_bool raw

-- respondError, or respondCacheableJSON with the payload
abbrev pub respond_read : {A : Type 0} → AppError ⊎ CacheableReadPayload A → GetAnswer A
respond_read (inl e) = error_answer (respond_error e)
respond_read (inr payload) = payload_answer payload

-- the payload of what GetConfig gave, or its error
abbrev pub from_data :
    {A : Type 0}
    → AppError
    → (ServiceData → CacheableReadPayload A)
    → Option ServiceData
    → AppError ⊎ CacheableReadPayload A
from_data e payload none = inl e
from_data e payload (some d) = inr (payload d)

-- the store as GetConfig finds it, and the readings of the head behind it
module _ (not_found_message : ServiceKey → String) (s : ConfigStore) (head later : String) where
  -- currentConfigPayload
  unfoldable pub current_config_payload : ServiceKey → Bool → AppError ⊎ CacheableReadPayload Fields
  current_config_payload key inherit =
      from_data (not_found_error (not_found_message key))
        (λ d. config_payload_from_data key inherit d head later) (get_config s key)

  -- currentEnvVarsPayload
  unfoldable pub current_env_vars_payload :
      ServiceKey → Bool → AppError ⊎ CacheableReadPayload EnvVars
  current_env_vars_payload key inherit =
      from_data (not_found_error (not_found_message key))
        (λ d. env_vars_payload_from_data key inherit d head later) (get_config s key)

  -- writeConfigResponse
  abbrev pub write_config_response : ServiceKey → Bool → GetAnswer Fields
  write_config_response key inherit = respond_read (current_config_payload key inherit)

  -- writeEnvVarsResponse without resolved secrets
  abbrev pub write_env_vars_response : ServiceKey → Bool → GetAnswer EnvVars
  write_env_vars_response key inherit = respond_read (current_env_vars_payload key inherit)

  abbrev pub config_with :
      (String → Bool → GetAnswer Fields) → ServiceKey → String → Option Bool → GetAnswer Fields
  config_with at_version key version none = bad_query "inherit must be a boolean"
  config_with at_version key version (some inherit) =
      if version == "" then write_config_response key inherit else at_version version inherit

  -- getConfig, on the trimmed version and the text of `inherit`
  unfoldable pub get_config_handler :
      (String → Bool → GetAnswer Fields) → ServiceKey → String → String → GetAnswer Fields
  get_config_handler at_version key version inherit =
      config_with at_version key version (parse_inherit_query inherit)

  abbrev pub env_vars_with :
      (String → Bool → GetAnswer EnvVars)
      → (Bool → GetAnswer EnvVars)
      → ServiceKey
      → String
      → Option Bool
      → Option Bool
      → GetAnswer EnvVars
  env_vars_with at_version resolving key version none inherit =
      bad_query "resolve_secrets must be a boolean"
  env_vars_with at_version resolving key version (some resolve) none =
      bad_query "inherit must be a boolean"
  env_vars_with at_version resolving key version (some resolve) (some inherit) =
      if not (version == "") && resolve
      then bad_query "version cannot be combined with resolve_secrets"
      else if resolve
      then resolving inherit
      else if not (version == "")
      then at_version version inherit
      else write_env_vars_response key inherit

  -- getEnvVars, on the trimmed version and the texts of `resolve_secrets` and `inherit`; the
  -- branch that resolves secrets, with its authentication, is an argument
  unfoldable pub get_env_vars_handler :
      (String → Bool → GetAnswer EnvVars)
      → (Bool → GetAnswer EnvVars)
      → ServiceKey
      → String
      → String
      → String
      → GetAnswer EnvVars
  get_env_vars_handler at_version resolving key version resolve inherit =
      env_vars_with at_version resolving key version (parse_bool_query resolve)
        (parse_inherit_query inherit)
