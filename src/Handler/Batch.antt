-- ===== src/Handler/Batch.antt =====
-- internal/handler/handler.go: postConfigsBatch on a decoded body.
pub mod Laws
pub mod Tests
use Prim.Native.String.{String}
use aap_config_server.Base.{
  ℕ, suc, Bool, true, false, Option, none, some, List, [], ◌∷◌, if◌then◌else◌, ltb, length,
}
use aap_config_server.Base.Eq.{◌==◌, text_has_eq}
use aap_config_server.Store.Value.{Fields}
use aap_config_server.Store.Types.{ServiceKey, ServiceData, EnvVars}
use aap_config_server.Store.Reload.{ConfigStore, get_config}
use aap_config_server.Handler.Payload.{
  ConfigMeta, CacheableReadPayload, config_payload_from_data, env_vars_payload_from_data,
}
use aap_config_server.Handler.Respond.{ErrorDetail, error_detail_for}
use aap_config_server.Handler.Read.{not_found_error}

pub record BatchReadRequest : Type 0 where
  pub queries : List ServiceKey
  pub inherit : Option Bool

-- the body of a read: its metadata and the resource
abbrev pub Body : Type 0 → Type 0
Body A = ConfigMeta × A

abbrev pub body_of : {A : Type 0} → CacheableReadPayload A → Body A
body_of payload = (payload.metadata, payload.body)

pub data BatchReadResult : Type 0 where
  found : ServiceKey → Body Fields → Body EnvVars → BatchReadResult
  missing : ServiceKey → ErrorDetail → BatchReadResult

-- the message of a refused batch
pub data BatchAnswer : Type 0 where
  refused : String → BatchAnswer
  results : List BatchReadResult → BatchAnswer

-- the store as GetConfig finds it for one query, and the readings of the head behind it
pub record Moment : Type 0 where
  pub reading : ConfigStore
  pub config_head : String
  pub config_later : String
  pub env_head : String
  pub env_later : String

abbrev pub max_batch_read_queries : ℕ
max_batch_read_queries = 100

module _ (trim_space : String → String) where
  -- batchReadQuery.normalized
  abbrev pub normalized : ServiceKey → ServiceKey
  normalized q = record {
    org = trim_space q.org;
    project = trim_space q.project;
    service = trim_space q.service;
  }

-- batchReadQuery.validate
unfoldable pub validate_query : ServiceKey → Option String
validate_query q =
    if q.org == ""
    then some "query org is required"
    else if q.project == ""
    then some "query project is required"
    else if q.service == ""
    then some "query service is required"
    else none

module _ (not_found_message : ServiceKey → String) (inherit : Bool) where
  -- the result of one query, from what GetConfig gave
  abbrev pub result_of : ServiceKey → Moment → Option ServiceData → BatchReadResult
  result_of q m none = missing q (error_detail_for (not_found_error (not_found_message q)))
  result_of q m (some d) =
      found q (body_of (config_payload_from_data q inherit d m.config_head m.config_later))
        (body_of (env_vars_payload_from_data q inherit d m.env_head m.env_later))

  abbrev pub add_result : BatchReadResult → BatchAnswer → BatchAnswer
  add_result r (refused message) = refused message
  add_result r (results rs) = results (r ∷ rs)

  abbrev pub unless_invalid : Option String → BatchAnswer → BatchAnswer
  unless_invalid (some message) rest = refused message
  unless_invalid none rest = rest

  -- the loop over the queries, where `at` gives the readings of each by its number
  unfoldable pub answer_queries :
      (String → String) → (ℕ → Moment) → ℕ → List ServiceKey → BatchAnswer
  answer_queries trim_space at i [] = results []
  answer_queries trim_space at i (raw ∷ raws) =
      let q = normalized trim_space raw in
      unless_invalid (validate_query q) (
        add_result (result_of q (at i) (get_config (at i).reading q))
          (answer_queries trim_space at (suc i) raws))

abbrev pub or_true : Option Bool → Bool
or_true none = true
or_true (some inherit) = inherit

-- postConfigsBatch; `trim_space` is strings.TrimSpace, the message is that of the store's error
unfoldable pub post_configs_batch :
    (ServiceKey → String) → (String → String) → (ℕ → Moment) → BatchReadRequest → BatchAnswer
post_configs_batch not_found_message trim_space at body = elim body.queries [
  | [] ↦ refused "queries must not be empty"
  | q ∷ qs ↦
      if ltb max_batch_read_queries (length (q ∷ qs))
      then refused "queries must contain at most 100 items"
      else answer_queries not_found_message (or_true body.inherit) trim_space at 0 (q ∷ qs)
]
