-- ===== src/Parser/Served/Tests.antt =====
-- internal/parser on small files: the decoder of the tests reads texts from the nodes of a file.
use Prim.Native.String.{String}
use aap_config_server.Base.{ℕ, ◌≡◌, refl, none, some, Option, List, [], ◌∷◌, is_ok}
use aap_config_server.Base.Eq.{text_has_eq}
use aap_config_server.Base.Decimal.{decimal}
use aap_config_server.Base.Map.{lookup, insert}
use aap_config_server.Base.Text.{cut_prefix, split_on}
use aap_config_server.Store.Value.{no_fields}
use aap_config_server.Store.Types.{
  ServiceMetadata, ServiceConfig, EnvVarsConfig, SecretsConfig, SecretEntry, ServiceKey,
}
use aap_config_server.Store.Inherit.{no_env_vars, apply_inherited_fields}
use aap_config_server.Store.Paths.{
  key_string, classify_path, classify_parts, classify_defaults_path, classify_defaults_parts,
}
use aap_config_server.Store.Versions.{next_resource_version, with_resource_versions}
use aap_config_server.Store.Reload.{parsed, new_store, update_each, inherit_parts}
use aap_config_server.Store.Reload.Load.{
  load_file, load_files, parse_and_store, parse_and_store_defaults, parse_file, reload,
  reload_loaded, finish, swap_snapshot, newest_update,
}
use aap_config_server.Store.Reload.Load.Laws.{failures}
use aap_config_server.Store.Reload.Load.Data.{gathered}
use aap_config_server.Parser.Nodes.{
  mapping_node, scalar_node, sequence_node, Nodes, Node, node, nil, cons, content, value, child,
  child_in, is_among, is_even, require_mapping, require_scalar, optional, each, check_key,
  check_mapping_keys, validate_mapping_keys, SchemaError, duplicate_key, duplicate_id,
}
use aap_config_server.Parser.Schema.{
  Document, document, unreadable, root_mapping, validate_metadata_schema, check_config,
  validate_config_schema, validate_env_vars_schema, check_k8s_secret, check_secret,
  check_secret_items, check_secret_list, check_secrets, validate_secrets_schema,
  validate_defaults_schema,
}
use aap_config_server.Parser.Schema.Laws.{
  conforms_document, config_file_shape, env_vars_file_shape, secrets_file_shape,
  defaults_file_shape, schemas_accept,
}
use aap_config_server.Parser.Files.{
  Yaml, accepted, rejected, empty_fields, validate_metadata, validate_secret_entry, check_entries,
  parse_config, parse_secrets,
}
use aap_config_server.Parser.Files.Laws.{HasIdentity}
use aap_config_server.Parser.Served.{Any, Holds, served_config_accepted}

abbrev word : String → Node
word s = node scalar_node s nil

abbrev from_list : List Node → Nodes
from_list [] = nil
from_list (n ∷ more) = cons n (from_list more)

abbrev mapping : List Node → Node
mapping ns = node mapping_node "" (from_list ns)

abbrev text_at : String → Option Node → String
text_at key none = ""
text_at key (some n) = elim (child n key) [ none ↦ "" | some found ↦ value found ]

abbrev below : String → Option Node → Option Node
below key none = none
below key (some n) = child n key

abbrev first_node : Document → Option Node
first_node (unreadable why) = none
first_node (document []) = none
first_node (document (n ∷ more)) = some n

abbrev metadata_of : Option Node → ServiceMetadata
metadata_of n = record {
  service = text_at "service" n;
  org = text_at "org" n;
  project = text_at "project" n;
  updated_at = text_at "updated_at" n;
}

abbrev entry_of : Node → SecretEntry
entry_of n = record {
  id = text_at "id" (some n);
  description = text_at "description" (some n);
  k8s_secret = record {
    name = text_at "name" (child n "k8s_secret");
    namespace = text_at "namespace" (child n "k8s_secret");
    key = text_at "key" (child n "k8s_secret");
  };
}

abbrev entries_of : List Node → List SecretEntry
entries_of [] = []
entries_of (n ∷ ns) = entry_of n ∷ entries_of ns

abbrev items_of : Option Node → List SecretEntry
items_of none = []
items_of (some n) = entries_of (content n)

abbrev config_of : Document → ServiceConfig
config_of doc = record {
  version = text_at "version" (first_node doc);
  metadata = metadata_of (below "metadata" (first_node doc));
  config = no_fields;
}

abbrev env_vars_of : Document → EnvVarsConfig
env_vars_of doc = record {
  version = text_at "version" (first_node doc);
  metadata = metadata_of (below "metadata" (first_node doc));
  env_vars = no_env_vars;
}

abbrev secrets_of : Document → SecretsConfig
secrets_of doc = record {
  version = text_at "version" (first_node doc);
  secrets = items_of (below "secrets" (first_node doc));
}

abbrev texts : Yaml
texts = record {
  Raw = Document;
  nodes = λ doc. doc;
  decode_config = λ doc. parsed (config_of doc);
  decode_env_vars = λ doc. parsed (env_vars_of doc);
  decode_secrets = λ doc. parsed (secrets_of doc);
  decode_defaults = λ doc. parsed (record { config = no_fields; env_vars = no_env_vars });
}

abbrev chat_metadata : Node
chat_metadata =
    mapping
      (word "service" ∷ word "chat" ∷ word "org" ∷ word "acme" ∷ word "project" ∷ word "ai" ∷ [])

abbrev chat_file : Document
chat_file = document (mapping (word "metadata" ∷ chat_metadata ∷ []) ∷ [])

abbrev secret_item : Node
secret_item = mapping (
    word "id"
    ∷ word "token"
    ∷ word "k8s_secret"
    ∷ mapping
        (word "name" ∷ word "chat" ∷ word "namespace" ∷ word "ai" ∷ word "key" ∷ word "token" ∷ [])
    ∷ [])

abbrev secret_file : List Node → Document
secret_file ns =
    document (mapping (word "secrets" ∷ node sequence_node "" (from_list ns) ∷ []) ∷ [])

chat_accepted : parse_config texts chat_file ≡ accepted (config_of chat_file)
unfolding parse_config parse_secrets validate_config_schema validate_secrets_schema root_mapping
    check_config check_secrets check_secret_list check_secret_items check_secret check_k8s_secret
    validate_mapping_keys is_even check_mapping_keys check_key is_among optional child child_in
    validate_metadata_schema require_mapping each require_scalar validate_metadata empty_fields
    validate_secret_entry check_entries decimal lookup insert
chat_accepted = refl

version_twice :
    validate_config_schema
      (document (mapping (word "version" ∷ word "1" ∷ word "version" ∷ word "2" ∷ []) ∷ []))
    ≡ some (duplicate_key "config.yaml" "version" "root")
unfolding parse_config parse_secrets validate_config_schema validate_secrets_schema root_mapping
    check_config check_secrets check_secret_list check_secret_items check_secret check_k8s_secret
    validate_mapping_keys is_even check_mapping_keys check_key is_among optional child child_in
    validate_metadata_schema require_mapping each require_scalar validate_metadata empty_fields
    validate_secret_entry check_entries decimal lookup insert
version_twice = refl

token_twice :
    parse_secrets texts (secret_file (secret_item ∷ secret_item ∷ []))
    ≡ rejected (duplicate_id "token" 0 1)
unfolding parse_config parse_secrets validate_config_schema validate_secrets_schema root_mapping
    check_config check_secrets check_secret_list check_secret_items check_secret check_k8s_secret
    validate_mapping_keys is_even check_mapping_keys check_key is_among optional child child_in
    validate_metadata_schema require_mapping each require_scalar validate_metadata empty_fields
    validate_secret_entry check_entries decimal lookup insert
token_twice = refl

schemas_accept_example :
    (is_ok (validate_config_schema chat_file) ≡ conforms_document config_file_shape chat_file)
    × (is_ok (validate_env_vars_schema chat_file) ≡ conforms_document env_vars_file_shape chat_file)
    × (is_ok (validate_secrets_schema chat_file) ≡ conforms_document secrets_file_shape chat_file)
    × (is_ok (validate_defaults_schema chat_file) ≡ conforms_document defaults_file_shape chat_file)
schemas_accept_example = schemas_accept chat_file

abbrev quiet : SchemaError → String
quiet why = "refused"

abbrev no_digest : Document → String
no_digest doc = "digest"

abbrev no_time : String → Option ℕ
no_time iso = none

abbrev chat_key : ServiceKey
chat_key = record { org = "acme"; project = "ai"; service = "chat" }

abbrev commit : List (String × Document)
commit = ("configs/orgs/acme/projects/ai/services/chat/config.yaml", chat_file) ∷ []

served_config_accepted_example :
    Any (Holds texts quiet no_digest no_time (key_string chat_key) (config_of chat_file)) commit
    × HasIdentity (config_of chat_file).metadata
unfolding reload reload_loaded load_files load_file parse_and_store parse_and_store_defaults
    parse_file classify_path classify_parts classify_defaults_path classify_defaults_parts
    cut_prefix split_on finish update_each inherit_parts apply_inherited_fields
    with_resource_versions next_resource_version swap_snapshot lookup insert key_string
    newest_update failures gathered parse_config validate_config_schema root_mapping check_config
    validate_mapping_keys is_even check_mapping_keys check_key is_among optional child child_in
    validate_metadata_schema require_mapping each require_scalar validate_metadata empty_fields
served_config_accepted_example =
    served_config_accepted texts quiet no_digest no_time 5 6 "c1" commit new_store chat_key
      (config_of chat_file) refl refl
