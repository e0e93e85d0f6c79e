-- ===== src/Store/History/Tests.antt =====
-- A page of the history of internal/store/store.go, behind a cursor.
use aap_config_server.Base.{String, ◌≡◌, some, List, [], ◌∷◌}
use aap_config_server.Store.History.{
  ServiceFileKind, ServiceHistoryEntry, listed, history_entry, list_history, some_change_matches,
  history_change_matches_file,
}
use aap_config_server.Store.History.Laws.{list_history_lem, take, matching, behind}

abbrev commit : String → ServiceFileKind → ServiceHistoryEntry
commit version kind = record {
  version = version;
  message = "m";
  author = "a";
  timestamp = 1;
  files_changed = record { path = "f"; kind = kind } ∷ [];
}

abbrev commits : List ServiceHistoryEntry
commits =
    commit "c4" ServiceFileKind.config
    ∷ commit "c3" ServiceFileKind.config
    ∷ commit "c2" ServiceFileKind.env_vars
    ∷ commit "c1" ServiceFileKind.config
    ∷ []

-- behind c4, the commits to the config: c3 and c1, which fill a page of two
list_history_lem_example :
    list_history "config" "c4" 2 commits (some "lost")
    ≡ listed (
        history_entry (commit "c3" ServiceFileKind.config)
        ∷ history_entry (commit "c1" ServiceFileKind.config)
        ∷ [])
unfolding take matching behind some_change_matches history_change_matches_file
list_history_lem_example = list_history_lem "config" "c4" 1 commits (some "lost")
