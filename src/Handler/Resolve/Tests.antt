-- ===== src/Handler/Resolve/Tests.antt =====
-- resolveEnvSecrets of internal/handler/handler.go over the mounted-secret reader of
-- internal/secret/volume.go.
use aap_config_server.Base.{String, ◌≢◌, arith, eq_iff, ◌≡◌, refl, false, some, List, [], ◌∷◌}
use aap_config_server.Base.Eq.{text_has_eq}
use aap_config_server.Base.Map.{Map, lookup, insert}
use aap_config_server.Base.Text.{lacks, split_on}
use aap_config_server.Store.Types.{SecretsConfig, ServiceKey}
use aap_config_server.Secret.Volume.{
  Reader, FileRead, contents, unreadable, refresh, path_of, validate_reference,
  validate_path_segment, relative_path, join_path, clean_from,
}
use aap_config_server.Handler.Resolve.{
  Refresh, resolved, resolve_env_secrets, resolve_values, resolve_refs, index_by_id,
}
use aap_config_server.Handler.Resolve.Laws.{ReadInTurn, IsListed, resolve_env_secrets_lem}

abbrev mounted : List String → FileRead String
mounted [] = unreadable "no such file"
mounted (part ∷ path) = contents "s3cret"

abbrev reader : Reader String
reader = record { mount = "mnt" ∷ []; cache = [] }

abbrev volume : Refresh (Reader String) String
volume r ref = refresh r ref false false mounted

abbrev secrets : SecretsConfig
secrets = record {
  version = "1";
  secrets =
      record {
        id = "api";
        description = "";
        k8s_secret = record { name = "keys"; namespace = "chat"; key = "api" };
      }
      ∷ record {
        id = "db";
        description = "";
        k8s_secret = record { name = "db"; namespace = "chat"; key = "password" };
      }
      ∷ [];
}

abbrev chat : ServiceKey
chat = record { org = "acme"; project = "ai"; service = "chat" }

abbrev refs : Map String String
refs = ("DB_PASSWORD", "db") ∷ ("API_KEY", "api") ∷ []

abbrev final : Map String String
final = ("DB_PASSWORD", "s3cret") ∷ ("API_KEY", "s3cret") ∷ []

abbrev read_reader : Reader String
read_reader =
    (volume
      (volume reader (record { id = "db"; namespace = "chat"; name = "db"; key = "password" })).0
      (record { id = "api"; namespace = "chat"; name = "keys"; key = "api" })).0

apart : ◌≢◌ {A = String} "DB_PASSWORD" "API_KEY"
apart e = ground (arith, eq_iff "DB_PASSWORD" "API_KEY")

both_read :
    (resolve_env_secrets (λ s. s) (some volume) chat refs (some secrets) reader).0
    ≡ resolved final read_reader
unfolding resolve_env_secrets resolve_values index_by_id lookup resolve_refs insert refresh path_of
    validate_reference validate_path_segment lacks relative_path join_path clean_from split_on
both_read = refl

resolve_env_secrets_lem_example :
    ReadInTurn (λ s. s) volume (IsListed secrets) final refs reader read_reader
resolve_env_secrets_lem_example =
    resolve_env_secrets_lem (λ s. s) volume chat refs final secrets reader read_reader
      ((apart, tt), (tt, tt)) both_read
