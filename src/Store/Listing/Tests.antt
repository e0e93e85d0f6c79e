-- ===== src/Store/Listing/Tests.antt =====
-- A listing of internal/store/store.go with one service.
use aap_config_server.Base.{none, [], ◌∷◌}
use aap_config_server.Store.Types.{ServiceKey, empty_service}
use aap_config_server.Store.Reload.{ConfigStore}

abbrev chat : ServiceKey
chat = record { org = "acme"; project = "ai"; service = "chat" }

abbrev one_service : ConfigStore
one_service = record {
  snapshot = record { data_of = ("acme/ai/chat", empty_service) ∷ []; version = "c1" };
  last_reload = none;
  version_changed = 0;
}
