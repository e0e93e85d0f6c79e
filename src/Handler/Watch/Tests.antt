-- ===== src/Handler/Watch/Tests.antt =====
-- Watches of internal/handler/handler.go over two stores with one service, whose organisation has
-- defaults.
use aap_config_server.Base.{
  String, ◌≡◌, refl, ◌≢◌, true, false, Option, none, some, [], ◌∷◌, arith, eq_iff,
}
use aap_config_server.Base.Eq.{text_has_eq}
use aap_config_server.Base.Map.{lookup}
use aap_config_server.Store.Value.{text, scalar, no_fields, field}
use aap_config_server.Store.Types.{
  ServiceKey, ServiceData, ServiceConfig, DefaultsSource, DefaultsScope, empty_service,
}
use aap_config_server.Store.Paths.{key_string}
use aap_config_server.Store.Versions.{Resource, resource_version}
use aap_config_server.Store.Reload.{ConfigStore, get_config, resource_version_of}
use aap_config_server.Handler.Payload.{
  config_version, has_inherited_config_source, config_payload_from_data,
}
use aap_config_server.Handler.Payload.Laws.{payload_version}
use aap_config_server.Handler.Watch.{
  Turn, closed, watched_version, is_inherited, watch, changed, still_waiting, read_token,
}
use aap_config_server.Handler.Watch.Laws.{watched_version-payload_version}
use aap_config_server.Handler.Watch.Wakes.{watch_wakes, Reports, ReportsOther, turns_over}
use aap_config_server.Handler.Watch.Torn.{torn_read_waits}

abbrev chat : ServiceKey
chat = record { org = "acme"; project = "ai"; service = "chat" }

abbrev defaults : DefaultsSource
defaults = record {
  scope = DefaultsScope.org;
  org = "acme";
  project = "";
  path = "configs/orgs/acme/_defaults/common.yaml";
  has_config = true;
  has_env_vars = false;
}

abbrev level : String → Option ServiceConfig
level s = some (record {
  version = "1";
  metadata = record { service = "chat"; org = "acme"; project = "ai"; updated_at = "" };
  config = field "level" (scalar (text s)) no_fields;
})

abbrev service_with : String → ServiceData
service_with s = record empty_service {
  inherited_sources = defaults ∷ [];
  inherited_config = level s;
  config_resource_version = "c0";
}

abbrev store_with : String → ServiceData → ConfigStore
store_with version d = record {
  snapshot = record { data_of = ("acme/ai/chat", d) ∷ []; version = version };
  last_reload = none;
  version_changed = 0;
}

abbrev old : ConfigStore
old = store_with "c1" (service_with "info")

abbrev new : ConfigStore
new = store_with "c2" (service_with "debug")

abbrev turn_on : ConfigStore → ConfigStore → Turn
turn_on s t = record {
  deadline_over = false;
  canceled = false;
  reading = s;
  config_reading = s;
  waiting = s;
  wakes = closed t ∷ [];
}

old_has : get_config old chat ≡ some (service_with "info")
unfolding lookup key_string
old_has = refl

new_has : get_config new chat ≡ some (service_with "debug")
unfolding lookup key_string
new_has = refl

has_source : (s : String) → has_inherited_config_source (service_with s).inherited_sources ≡ true
unfolding has_inherited_config_source
has_source s = refl

watched_version-payload_version_example :
    watched_version old old chat Resource.config true
    ≡ some (payload_version Resource.config true (service_with "info") "c1" "c1", "c1")
watched_version-payload_version_example =
    watched_version-payload_version old chat Resource.config true (service_with "info") old_has

abbrev plain_token : ConfigStore → Option (String × String)
plain_token s = read_token chat Resource.config false (turn_on s s)

reads_own :
    (v : String) (s : String)
    → read_token chat Resource.config false (turn_on (store_with v (service_with s)) new)
      ≡ some ("c0", v)
unfolding watched_version resource_version_of lookup key_string resource_version
reads_own v s = refl

reads_inherited : read_token chat Resource.config true (turn_on new new) ≡ some ("c2", "c2")
unfolding watched_version resource_version_of lookup key_string resource_version is_inherited
    has_inherited_config_source
reads_inherited = refl

reads_old : read_token chat Resource.config true (turn_on old new) ≡ some ("c1", "c1")
unfolding watched_version resource_version_of lookup key_string resource_version is_inherited
    has_inherited_config_source
reads_old = refl

-- stores in which only the head moves, and one with a new config of the service
abbrev moved_to : String → ConfigStore
moved_to version = store_with version (service_with "info")

abbrev updated : ConfigStore
updated = store_with "c3" (record (service_with "debug") { config_resource_version = "c3" })

reports : (version : String) → Reports chat Resource.config false "c0" (moved_to version)
unfolding lookup key_string config_version
reports version = (service_with "info", (refl, refl))

reports_other : ReportsOther chat Resource.config false "c0" updated
unfolding lookup key_string config_version
reports_other = (
  record (service_with "debug") { config_resource_version = "c3" },
  (refl, λ e. ground (arith, eq_iff "c3" "c0")),
)

watch_wakes_example :
    (watch chat Resource.config false "c0" (turns_over (moved_to "c1" ∷ moved_to "c2" ∷ []))
      ≡ still_waiting)
    × (watch chat Resource.config false "c0"
          (turns_over (moved_to "c1" ∷ moved_to "c2" ∷ updated ∷ []))
        ≡ changed)
watch_wakes_example =
    watch_wakes chat Resource.config false "c0" (moved_to "c1" ∷ moved_to "c2" ∷ []) updated []
      (reports "c1", (reports "c2", tt))
      (λ e. ground (arith, eq_iff "c2" "c1"), (λ e. ground (arith, eq_iff "c3" "c2"), tt))
      reports_other

torn_read_waits_example :
    ((config_payload_from_data chat true (service_with "info") "c2" "c2").body
      ≡ (config_payload_from_data chat true (service_with "info") "c1" "c1").body)
    × (watch chat Resource.config true
          (config_payload_from_data chat true (service_with "info") "c2" "c2").version
          (turn_on new new ∷ [])
        ≢ changed)
torn_read_waits_example =
    torn_read_waits chat old new (service_with "info") (service_with "debug") "c2"
      (turn_on new new ∷ []) old_has new_has (has_source "info") (has_source "debug")
      (λ e. ground (arith, eq_iff "c2" "")) ((refl, refl), tt)
