-- ===== src/Store/Changes/Tests.antt =====
-- ApplyChanges and DeleteChanges of internal/store/store.go over a repository that is a map of
-- texts, where a commit puts the files and the text "bad" does not parse.
use Prim.Native.String.{◌++◌ as str_append}
use aap_config_server.Base.{
  String, ◌≡◌, refl, true, none, some, List, [], ◌∷◌, ◌++◌, map, if◌then◌else◌,
}
use aap_config_server.Base.Eq.{◌==◌, text_has_eq}
use aap_config_server.Base.Map.{Map, lookup, insert, has}
use aap_config_server.Base.Text.{cut_prefix, all_chars, split_on}
use aap_config_server.Store.Listing.{contains}
use aap_config_server.Store.Value.{text, scalar, no_fields, field}
use aap_config_server.Store.Types.{ServiceMetadata}
use aap_config_server.Store.Inherit.{no_env_vars}
use aap_config_server.Store.Paths.{
  is_valid_name, service_path, is_k8s_dns_label, is_k8s_dns_subdomain, all_labels, last_char,
}
use aap_config_server.Store.SecretIds.{check_writes, check_keys}
use aap_config_server.Store.Reload.{Parsed, parsed, failed, Parsers, new_store}
use aap_config_server.Store.Reload.Load.{complete}
use aap_config_server.Store.Revert.{joined}
use aap_config_server.Store.Changes.{
  ChangeRequest, SealedManifest, Result, ok, err, Backend, ReadAnswer, no_file, contents,
  check_identity, validate_change, base_files, build_files, secret_files, add_manifests, add_base,
  add_file, read_existing_secrets,
}
use aap_config_server.Store.Changes.Apply.{State, apply_changes, audit_event}
use aap_config_server.Store.Changes.Remove.{DeleteRequest, delete_changes}
use aap_config_server.Store.Changes.Laws.{
  Serves, told_change, told_delete, apply_changes-Serves, delete_changes-Serves,
}
use aap_config_server.Store.Changes.Audit.{is_clean, apply_changes_audit}
use aap_config_server.Store.Changes.Written.{build_files_listed}

abbrev no_metadata : ServiceMetadata
no_metadata = record { service = ""; org = ""; project = ""; updated_at = "" }

abbrev checked : {A : Type 0} → A → String → Parsed A
checked a raw = if raw == "bad" then failed "malformed" else parsed a

abbrev texts : Parsers
texts = record {
  Raw = String;
  parse_config = λ raw.
      checked
        (record {
          version = "1";
          metadata = no_metadata;
          config = field "level" (scalar (text raw)) no_fields;
        })
        raw;
  parse_env_vars =
      λ raw. checked (record { version = "1"; metadata = no_metadata; env_vars = no_env_vars }) raw;
  parse_secrets = λ raw. checked (record { version = "1"; secrets = [] }) raw;
  parse_defaults = λ raw. checked (record { config = no_fields; env_vars = no_env_vars }) raw;
  digest_bytes = λ raw. raw;
  parse_time = λ iso. none;
}

abbrev read_from : Map String String → String → ReadAnswer String
read_from w path = elim (lookup path w) [ none ↦ no_file | some raw ↦ contents raw ]

abbrev put_all : Map String String → Map String String → Map String String
put_all files w = files ++ w

abbrev after_build :
    Map String String
    → Result (Map String String) × List String
    → Result String × (List String × Map String String)
after_build w (err why, written) = (err why, (written, w))
after_build w (ok files, written) = (ok "c2", (written, put_all files w))

abbrev maps : Backend texts
maps = record {
  World = Map String String;
  Value = String;
  destroy = λ v. "";
  format_time = λ t. "now";
  marshal_config = λ cfg. parsed "written";
  marshal_env_vars = λ env. parsed "written";
  marshal_secrets = λ sec. parsed "ids";
  commit_and_push_func = λ msg build written w. after_build w (build (read_from w) written);
  commit_and_push = λ msg files w. (ok "c2", put_all files w);
  delete_and_push = λ msg paths w. (ok ("c3", paths), []);
  snapshot = λ w. complete "c2" w;
  sealer = some (λ req w. (
    parsed (record {
      namespace = req.namespace;
      name = req.name;
      path =
          str_append (service_path req.org req.project req.service)
            "/sealed-secrets/chat/keys.yaml";
      yaml = "sealed";
    }),
    w,
  ));
  applier = some (λ manifest w. (none, w));
  auditor = true;
}

abbrev change : ChangeRequest String
change = record {
  org = "acme";
  project = "ai";
  service = "chat";
  config = some (field "level" (scalar (text "info")) no_fields);
  env_vars = none;
  secrets = ("keys", record { namespace = "chat"; secret_data = ("api", "s3cret") ∷ [] }) ∷ [];
  message = "";
}

abbrev start : State maps
start = record { config_store = new_store; world = []; audited = [] }

apply_changes-Serves_example :
    Serves maps 2 3 told_change new_store (apply_changes maps 1 2 3 change start).0 (
      (apply_changes maps 1 2 3 change start).1.config_store,
      (apply_changes maps 1 2 3 change start).1.world,
    )
apply_changes-Serves_example = apply_changes-Serves maps 2 3 1 change start

abbrev gone : DeleteRequest
gone = record { org = "acme"; project = "ai"; service = "chat" }

delete_changes-Serves_example :
    Serves maps 2 3 told_delete new_store
      (delete_changes maps 1 2 3 gone new_store []).0
      (delete_changes maps 1 2 3 gone new_store []).1
delete_changes-Serves_example = delete_changes-Serves maps 2 3 1 gone new_store []

names_fine : check_identity "acme" "ai" "chat" ≡ none
unfolding check_identity is_valid_name all_chars
names_fine = refl

writes_fine : validate_change maps change ≡ ok true
unfolding validate_change check_writes is_k8s_dns_subdomain all_labels split_on is_k8s_dns_label
    all_chars last_char check_keys is_valid_name
writes_fine = refl

apply_changes_audit_example :
    (outcome : String) × ((apply_changes maps 1 2 3 change start).1.audited
      ≡ audit_event maps 1 2 3 change outcome ∷ [])
    × ((outcome == "success") ≡ is_clean (apply_changes maps 1 2 3 change start).0)
apply_changes_audit_example =
    apply_changes_audit maps 1 2 3 change start names_fine writes_fine refl

abbrev base : Map String String × List String
base = (
  (joined "configs/orgs/acme/projects/ai/services/chat" "config.yaml", "written") ∷ [],
  "config.yaml" ∷ [],
)

abbrev sealed : SealedManifest String
sealed = record {
  namespace = "chat";
  name = "keys";
  path = "configs/orgs/acme/projects/ai/services/chat/sealed-secrets/chat/keys.yaml";
  yaml = "sealed";
}

base_written : base_files maps 1 change ≡ ok base
unfolding base_files add_base add_file insert service_path
base_written = refl

abbrev three_files : Map String String
three_files =
    ("configs/orgs/acme/projects/ai/services/chat/config.yaml", "written")
    ∷ ("configs/orgs/acme/projects/ai/services/chat/secrets.yaml", "ids")
    ∷ ("configs/orgs/acme/projects/ai/services/chat/sealed-secrets/chat/keys.yaml", "sealed")
    ∷ []

files_built : (build_files maps change (sealed ∷ []) base (read_from []) []).0 ≡ ok three_files
unfolding build_files secret_files read_existing_secrets lookup add_manifests cut_prefix
    service_path insert add_file
files_built = refl

build_files_listed_example :
    has "configs/orgs/acme/projects/ai/services/chat/secrets.yaml" three_files
    ≡ contains "configs/orgs/acme/projects/ai/services/chat/secrets.yaml" (
        map
          (joined (service_path "acme" "ai" "chat"))
          (build_files maps change (sealed ∷ []) base (read_from []) []).1)
build_files_listed_example =
    build_files_listed maps change 1 (sealed ∷ []) base (read_from []) [] three_files base_written
      files_built "configs/orgs/acme/projects/ai/services/chat/secrets.yaml"
