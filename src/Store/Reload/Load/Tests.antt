-- ===== src/Store/Reload/Load/Tests.antt =====
-- Reloads of internal/store/store.go with parsers that read a text as the one setting of a file.
use mathlib.Core.Option.{some_inj}
use aap_config_server.Base.{
  String, ◌≡◌, refl, true, false, none, some, List, [], ◌∷◌, eq_iff, is_some, sym, ap, ◌&&◌,
  if◌then◌else◌, arith,
}
use aap_config_server.Base.Eq.{◌==◌, text_has_eq}
use aap_config_server.Base.Map.{lookup, insert}
use aap_config_server.Base.Text.{cut_prefix, split_on}
use aap_config_server.Store.Value.{text, scalar, no_fields, field}
use aap_config_server.Store.Types.{ServiceMetadata, ServiceConfig, ServiceKey, ServiceData}
use aap_config_server.Store.Inherit.{no_env_vars, apply_inherited_fields}
use aap_config_server.Store.Paths.{
  key_string, classify_path, classify_parts, classify_defaults_path, classify_defaults_parts,
}
use aap_config_server.Store.Versions.{
  Resource, next_resource_version, with_resource_versions, resource_version,
}
use aap_config_server.Store.Reload.{
  Parsed, parsed, failed, Parsers, ConfigStore, new_store, get_config, is_degraded, update_each,
  inherit_parts, parse_failures, resource_version_of,
}
use aap_config_server.Store.Reload.Load.{
  RepoSnapshot, broken, complete, pulled, load_file, load_files, parse_and_store,
  parse_and_store_defaults, parse_file, reload, reload_loaded, finish, swap_snapshot,
  reload_from_repo, newest_update, entry_at,
}
use aap_config_server.Store.Reload.Load.Laws.{failures, reload_fail_closed}
use aap_config_server.Store.Reload.Load.Data.{gathered}
use aap_config_server.Store.Reload.Load.Content.{config_in, update_config, get_config-reload}
use aap_config_server.Store.Reload.Load.Tokens.{resource_version_kept, resource_version_moved}
use aap_config_server.Store.Reload.Load.Entry.{
  reloads, reloads_wake, Attempt, reload_from_repo_recovers,
}

abbrev no_metadata : ServiceMetadata
no_metadata = record { service = ""; org = ""; project = ""; updated_at = "" }

abbrev config_of : String → ServiceConfig
config_of s = record {
  version = "1";
  metadata = no_metadata;
  config = field "level" (scalar (text s)) no_fields;
}

-- "bad" does not parse.
abbrev checked : {A : Type 0} → A → String → Parsed A
checked a raw = if raw == "bad" then failed "malformed" else parsed a

abbrev simple : Parsers
simple = record {
  Raw = String;
  parse_config = λ raw. checked (config_of raw) raw;
  parse_env_vars =
      λ raw. checked (record { version = "1"; metadata = no_metadata; env_vars = no_env_vars }) raw;
  parse_secrets = λ raw. checked (record { version = "1"; secrets = [] }) raw;
  parse_defaults = λ raw. checked (record { config = no_fields; env_vars = no_env_vars }) raw;
  digest_bytes = λ raw. raw;
  parse_time = λ iso. none;
}

abbrev chat : ServiceKey
chat = record { org = "acme"; project = "ai"; service = "chat" }

abbrev config_path : String
config_path = "configs/orgs/acme/projects/ai/services/chat/config.yaml"

abbrev env_path : String
env_path = "configs/orgs/acme/projects/ai/services/chat/env_vars.yaml"

abbrev first : RepoSnapshot String
first = complete "c1" ((config_path, "info") ∷ [])

abbrev loaded : ConfigStore
loaded = (reload simple 5 6 first new_store).0

abbrev spoilt : ConfigStore
spoilt = (reload simple 7 8 (complete "c2" ((config_path, "bad") ∷ [])) loaded).0

-- a second commit with a file which does not parse
reload_fail_closed_example :
    (spoilt.snapshot ≡ loaded.snapshot)
    × (spoilt.version_changed ≡ loaded.version_changed)
    × (spoilt.last_reload
        ≡ some (record { at = 8; err = some (parse_failures ((config_path, "malformed") ∷ [])) }))
    × (is_degraded spoilt ≡ true)
unfolding reload reload_loaded load_files load_file parse_and_store parse_and_store_defaults
    parse_file classify_path classify_parts classify_defaults_path classify_defaults_parts
    cut_prefix split_on
reload_fail_closed_example =
    reload_fail_closed simple 7 8 (complete "c2" ((config_path, "bad") ∷ [])) loaded
      (parse_failures ((config_path, "malformed") ∷ [])) refl

abbrev found : ConfigStore → ServiceData
found s = entry_at (get_config s chat)

-- the same config, and a new file of environment variables
abbrev env_added : List (String × String)
env_added = (config_path, "info") ∷ (env_path, "A=1") ∷ []

abbrev config_changed : List (String × String)
config_changed = (config_path, "debug") ∷ []

get_config-reload_example :
    config_in (get_config (reload simple 7 8 (complete "c2" config_changed) loaded).0 chat)
    ≡ gathered simple (update_config simple) "acme/ai/chat" none config_changed
unfolding reload reload_loaded load_files load_file parse_and_store parse_and_store_defaults
    parse_file classify_path classify_parts classify_defaults_path classify_defaults_parts
    cut_prefix split_on finish update_each inherit_parts apply_inherited_fields
    with_resource_versions next_resource_version swap_snapshot lookup insert key_string gathered
    newest_update failures resource_version
get_config-reload_example = get_config-reload simple 7 8 "c2" config_changed loaded chat refl

resource_version_kept_example :
    resource_version_of (reload simple 7 8 (complete "c2" env_added) loaded).0 chat Resource.config
    ≡ some ("c1", "c2")
unfolding reload reload_loaded load_files load_file parse_and_store parse_and_store_defaults
    parse_file classify_path classify_parts classify_defaults_path classify_defaults_parts
    cut_prefix split_on finish update_each inherit_parts apply_inherited_fields
    with_resource_versions next_resource_version swap_snapshot lookup insert key_string gathered
    newest_update failures resource_version
resource_version_kept_example =
    resource_version_kept simple Resource.config 7 8 "c2" env_added loaded chat (found loaded)
      (found (reload simple 7 8 (complete "c2" env_added) loaded).0) refl refl refl refl
      (λ h. ground (arith, eq_iff "info" "")) (ground (arith, eq_iff "c1" ""))

resource_version_moved_example :
    resource_version_of
      (reload simple 7 8 (complete "c2" config_changed) loaded).0
      chat
      Resource.config
    ≡ some ("c2", "c2")
unfolding reload reload_loaded load_files load_file parse_and_store parse_and_store_defaults
    parse_file classify_path classify_parts classify_defaults_path classify_defaults_parts
    cut_prefix split_on finish update_each inherit_parts apply_inherited_fields
    with_resource_versions next_resource_version swap_snapshot lookup insert key_string gathered
    newest_update failures resource_version
resource_version_moved_example =
    resource_version_moved simple Resource.config 7 8 "c2" "debug" config_changed loaded chat
      (found (reload simple 7 8 (complete "c2" config_changed) loaded).0) refl refl refl
      (λ old h. sym (ap (λ sd. is_some sd.config && "debug" == sd.config_digest) (some_inj.0 h)))

abbrev still_c1 : List (Attempt simple)
still_c1 = (7, (8, broken "gone")) ∷ (9, (10, complete "c1" config_changed)) ∷ []

reloads_wake_example : (reloads simple still_c1 loaded).snapshot.version ≡ loaded.snapshot.version
unfolding reloads reload reload_loaded load_files load_file parse_and_store parse_and_store_defaults
    parse_file classify_path classify_parts classify_defaults_path classify_defaults_parts
    cut_prefix split_on finish update_each inherit_parts apply_inherited_fields
    with_resource_versions next_resource_version swap_snapshot lookup insert key_string gathered
    newest_update failures resource_version
reloads_wake_example = reloads_wake simple still_c1 loaded refl

abbrev degraded : ConfigStore
degraded = (reload simple 7 8 (broken "gone") loaded).0

reload_from_repo_recovers_example :
    (is_degraded
        (reload_from_repo simple 9 10 (pulled "c1" false) (complete "c1" config_changed) degraded).0
      ≡ false)
    × ((reload_from_repo simple 9 10 (pulled "c1" false) (complete "c1" config_changed) degraded).1
        ≡ (true, none))
unfolding reload reload_loaded load_files load_file parse_and_store parse_and_store_defaults
    parse_file classify_path classify_parts classify_defaults_path classify_defaults_parts
    cut_prefix split_on finish update_each inherit_parts apply_inherited_fields
    with_resource_versions next_resource_version swap_snapshot lookup insert key_string gathered
    newest_update failures resource_version
reload_from_repo_recovers_example =
    reload_from_repo_recovers simple 9 10 "c1" "c1" false config_changed degraded refl refl
