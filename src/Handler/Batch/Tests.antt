-- ===== src/Handler/Batch/Tests.antt =====
-- Batches of internal/handler/handler.go over a store with one service.
use Prim.Native.String.{String}
use aap_config_server.Base.{Bool, List, ◌≡◌, refl, none, [], ◌∷◌, All, arith}
use aap_config_server.Base.Eq.{text_has_eq}
use aap_config_server.Store.Types.{EnvVars, ServiceKey, empty_service}
use aap_config_server.Store.Value.{Fields}
use aap_config_server.Handler.Read.{GetAnswer, bad_query}
use aap_config_server.Store.Reload.{ConfigStore}
use aap_config_server.Handler.Batch.{
  BatchReadResult, BatchReadRequest, results, validate_query, post_configs_batch,
}
use aap_config_server.Handler.Batch.Laws.{settled, IsQuery, AgreeInTurn, post_configs_batch_lem}

abbrev store : ConfigStore
store = record {
  snapshot = record { data_of = ("acme/ai/chat", empty_service) ∷ []; version = "c1" };
  last_reload = none;
  version_changed = 0;
}

abbrev query : String → ServiceKey
query service = record { org = "acme"; project = "ai"; service = service }

abbrev two_queries : BatchReadRequest
two_queries = record { queries = query "chat" ∷ query "gone" ∷ []; inherit = none }

abbrev no_config : String → Bool → GetAnswer Fields
no_config version inherit = bad_query "not asked for"

abbrev no_env_vars : String → Bool → GetAnswer EnvVars
no_env_vars version inherit = bad_query "not asked for"

abbrev message : ServiceKey → String
message q = "service not found"

abbrev kept_text : String → String
kept_text s = s

two_valid :
    All (IsQuery message kept_text no_config no_env_vars (no_env_vars "")) two_queries.queries
unfolding validate_query
two_valid = (refl, (refl, tt))

post_configs_batch_lem_example :
    (rs : List BatchReadResult) × (post_configs_batch message kept_text
        (λ i. settled store)
        two_queries
      ≡ results rs)
    × AgreeInTurn message kept_text no_config no_env_vars
        (no_env_vars "")
        store
        two_queries.inherit
        two_queries.queries
        rs
post_configs_batch_lem_example =
    post_configs_batch_lem message kept_text no_config no_env_vars (no_env_vars "") store
      (λ i. settled store) two_queries (λ i. refl) (λ e. cc e) (ground arith) two_valid
