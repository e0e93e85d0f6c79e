-- ===== src/Handler/Batch/Laws.antt =====
-- internal/handler/handler.go: a batch against the reads of its queries one by one.
use Prim.Native.String.{String}
use aap_config_server.Base.{
  ℕ, suc, ◌≡◌, refl, ◌≤◌, ◌≢◌, Bool, true, false, Option, none, some, List, [], ◌∷◌, length, ltb,
  All, arith,
}
use aap_config_server.Store.Value.{Fields}
use aap_config_server.Store.Types.{ServiceKey, ServiceData, EnvVars}
use aap_config_server.Store.Reload.{ConfigStore, get_config}
use aap_config_server.Handler.Payload.{
  CacheableReadPayload, config_payload_from_data, env_vars_payload_from_data,
}
use aap_config_server.Handler.Respond.{respond_error, app_response, app_detail}
use aap_config_server.Handler.Read.{
  GetAnswer, error_answer, payload_answer, parse_bool, parse_bool_query, parse_inherit_query,
  current_config_payload, current_env_vars_payload, write_config_response, write_env_vars_response,
  get_config_handler, get_env_vars_handler,
}
use aap_config_server.Handler.Batch.{
  BatchReadRequest, BatchReadResult, found, missing, results, Moment, max_batch_read_queries,
  normalized, validate_query, result_of, answer_queries, or_true, post_configs_batch,
}

-- every reading finds this store
abbrev pub settled : ConfigStore → Moment
settled s = record {
  reading = s;
  config_head = s.snapshot.version;
  config_later = s.snapshot.version;
  env_head = s.snapshot.version;
  env_later = s.snapshot.version;
}

-- the text of a query parameter `inherit` with the same meaning; it is left out where the body
-- leaves the field out
abbrev pub inherit_text : Option Bool → String
inherit_text none = ""
inherit_text (some true) = "true"
inherit_text (some false) = "false"

-- The result of one query against the answers of the two reads of its service: the bodies of both,
-- or the detail of their common 404.
abbrev pub Agrees : ServiceKey → BatchReadResult → GetAnswer Fields → GetAnswer EnvVars → Type 0
Agrees q (found key config env_vars) config_read env_read =
    (key ≡ q)
    × (p : CacheableReadPayload Fields) × (r : CacheableReadPayload EnvVars) × (config_read
        ≡ payload_answer p)
    × (config ≡ (p.metadata, p.body))
    × (env_read ≡ payload_answer r)
    × (env_vars ≡ (r.metadata, r.body))
Agrees q (missing key detail) config_read env_read =
    (key ≡ q) × (config_read ≡ error_answer (404, detail)) × (env_read ≡ error_answer (404, detail))

module _ (not_found_message : ServiceKey → String) (trim_space : String → String)
    (config_at : String → Bool → GetAnswer Fields) (env_at : String → Bool → GetAnswer EnvVars)
    (resolving : Bool → GetAnswer EnvVars) where
  -- the query, trimmed, names an organisation, a project and a service
  abbrev pub IsQuery : ServiceKey → Type 0
  IsQuery raw = validate_query (normalized trim_space raw) ≡ none

  -- GET of the service's config and of its environment variables, with no version and no
  -- resolve_secrets
  abbrev pub get_alone : ConfigStore → Option Bool → ServiceKey → GetAnswer Fields
  get_alone s inherit q =
      get_config_handler not_found_message s s.snapshot.version s.snapshot.version config_at q ""
        (inherit_text inherit)

  abbrev pub get_env_alone : ConfigStore → Option Bool → ServiceKey → GetAnswer EnvVars
  get_env_alone s inherit q =
      get_env_vars_handler not_found_message s s.snapshot.version s.snapshot.version env_at
        resolving q "" "" (inherit_text inherit)

  -- one result for each query, in the order of the queries
  abbrev pub AgreeInTurn :
      ConfigStore → Option Bool → List ServiceKey → List BatchReadResult → Type 0
  AgreeInTurn s inherit [] [] = Unit
  AgreeInTurn s inherit [] (r ∷ rs) = ⊥
  AgreeInTurn s inherit (raw ∷ raws) [] = ⊥
  AgreeInTurn s inherit (raw ∷ raws) (r ∷ rs) =
      Agrees (normalized trim_space raw) r (get_alone s inherit (normalized trim_space raw))
        (get_env_alone s inherit (normalized trim_space raw))
      × AgreeInTurn s inherit raws rs

  get_alone_lem :
      (s : ConfigStore) (inherit : Option Bool) (q : ServiceKey)
      → get_alone s inherit q
        ≡ write_config_response not_found_message s s.snapshot.version s.snapshot.version q
            (or_true inherit)
  unfolding get_config_handler parse_inherit_query parse_bool
  get_alone_lem s none q = refl
  get_alone_lem s (some true) q = refl
  get_alone_lem s (some false) q = refl

  get_env_alone_lem :
      (s : ConfigStore) (inherit : Option Bool) (q : ServiceKey)
      → get_env_alone s inherit q
        ≡ write_env_vars_response not_found_message s s.snapshot.version s.snapshot.version q
            (or_true inherit)
  unfolding get_env_vars_handler parse_bool_query parse_inherit_query parse_bool
  get_env_alone_lem s none q = refl
  get_env_alone_lem s (some true) q = refl
  get_env_alone_lem s (some false) q = refl

  result_of-Agrees :
      (s : ConfigStore) (inherit : Bool) (q : ServiceKey)
      → (o : Option ServiceData) → get_config s q ≡ o
      → Agrees q
          (result_of not_found_message inherit q (settled s) o)
          (write_config_response not_found_message s s.snapshot.version s.snapshot.version q
            inherit)
          (write_env_vars_response not_found_message s s.snapshot.version s.snapshot.version q
            inherit)
  unfolding current_config_payload current_env_vars_payload respond_error app_response app_detail
  result_of-Agrees s inherit q none is =
      (refl, rw (current_config_payload, is) refl, rw (current_env_vars_payload, is) refl)
  result_of-Agrees s inherit q (some d) is =
      let head = s.snapshot.version in
      (
        refl,
        config_payload_from_data q inherit d head head,
        env_vars_payload_from_data q inherit d head head,
        rw (current_config_payload, is) refl,
        refl,
        rw (current_env_vars_payload, is) refl,
        refl,
      )

  answer_queries_lem :
      (s : ConfigStore) (inherit : Option Bool) (at : ℕ → Moment)
      → ((i : ℕ) → at i ≡ settled s)
      → (i : ℕ) (raws : List ServiceKey) → All IsQuery raws
      → (rs : List BatchReadResult) × (answer_queries not_found_message
            (or_true inherit)
            trim_space
            at
            i
            raws
          ≡ results rs)
        × AgreeInTurn s inherit raws rs
  unfolding answer_queries
  answer_queries_lem s inherit at same i [] valid = ([], refl, tt)
  answer_queries_lem s inherit at same i (raw ∷ raws) (valid, more) =
      let q = normalized trim_space raw in
      let (rs, is, agree) = answer_queries_lem s inherit at same (suc i) raws more in
      (
        result_of not_found_message (or_true inherit) q (settled s) (get_config s q) ∷ rs,
        rw (valid, same i, is) refl,
        (
          rw (get_alone_lem s inherit q, get_env_alone_lem s inherit q)
              (result_of-Agrees s (or_true inherit) q (get_config s q) refl),
          agree,
        ),
      )

  accepted :
      (s : ConfigStore) (at : ℕ → Moment) (inherit : Option Bool)
      → ((i : ℕ) → at i ≡ settled s)
      → (queries : List ServiceKey) → queries ≢ []
      → length queries ≤ 100
      → All IsQuery queries
      → (rs : List BatchReadResult) × (post_configs_batch not_found_message trim_space at
            (record { queries = queries; inherit = inherit })
          ≡ results rs)
        × AgreeInTurn s inherit queries rs
  unfolding post_configs_batch
  accepted s at inherit same [] there few valid = absurd (there refl)
  accepted s at inherit same (q ∷ qs) there few valid =
      let fits : ltb max_batch_read_queries (length (q ∷ qs)) ≡ false = ground arith in
      let (rs, is, agree) = answer_queries_lem s inherit at same 0 (q ∷ qs) valid in
      (rs, rw fits is, agree)

  -- A batch of one to a hundred queries that name their service, with no reload in between, gives
  -- one result for each query, in order: the bodies that GET of the config and of the environment
  -- variables of the query's trimmed names answer with the same `inherit` (or without it, where the
  -- batch leaves it out), or, where these answer 404, their error detail, which touches no other
  -- result.
  pub post_configs_batch_lem :
      (s : ConfigStore) (at : ℕ → Moment) (body : BatchReadRequest)
      → ((i : ℕ) → at i ≡ settled s)
      → body.queries ≢ []
      → length body.queries ≤ 100
      → All IsQuery body.queries
      → (rs : List BatchReadResult) × (post_configs_batch not_found_message trim_space at body
          ≡ results rs)
        × AgreeInTurn s body.inherit body.queries rs
  post_configs_batch_lem s at body same some_query few valid =
      accepted s at body.inherit same body.queries some_query few valid
