-- ===== src/Store/History.antt =====
-- internal/store/store.go, History with its filters, over the commits that the repository lists for
-- a service (the types of internal/gitops/repo.go).
pub mod Laws
pub mod Tests
use aap_config_server.Base.{
  ℕ, suc, String, Bool, true, false, not, ◌&&◌, ◌||◌, Option, none, some, List, [], ◌∷◌, ◌++◌, map,
  if◌then◌else◌, is_some, length, leb,
}
use aap_config_server.Base.Int.{ℤ, pos, negsuc}
use aap_config_server.Base.Eq.{◌==◌, text_has_eq}
use aap_config_server.Store.Types.{ServiceKey}
use aap_config_server.Store.Reload.{ConfigStore, get_config}

pub data ServiceFileKind : Type 0 where
  config : ServiceFileKind
  env_vars : ServiceFileKind
  secrets : ServiceFileKind
  sealed_secret : ServiceFileKind

pub record ServiceFileChange : Type 0 where
  pub path : String
  pub kind : ServiceFileKind

pub record ServiceHistoryEntry : Type 0 where
  pub version : String
  pub message : String
  pub author : String
  pub timestamp : ℕ
  pub files_changed : List ServiceFileChange

pub record HistoryOptions : Type 0 where
  pub org : String
  pub project : String
  pub service : String
  pub file : String
  pub limit : ℤ
  pub before : String

pub record HistoryEntry : Type 0 where
  pub version : String
  pub message : String
  pub author : String
  pub timestamp : ℕ
  pub files_changed : List String

pub data HistoryError : Type 0 where
  identity_required : HistoryError
  limit_not_positive : HistoryError
  unknown_file : HistoryError
  service_not_found : HistoryError
  iteration_failed : String → HistoryError

pub data HistoryResult : Type 0 where
  listed : List HistoryEntry → HistoryResult
  refused : HistoryError → HistoryResult

abbrev pub valid_history_file : String → Bool
valid_history_file file = file == "config" || file == "env_vars" || file == "secrets"

abbrev pub is_config : ServiceFileKind → Bool
is_config ServiceFileKind.config = true
is_config kind = false

abbrev pub is_env_vars : ServiceFileKind → Bool
is_env_vars ServiceFileKind.env_vars = true
is_env_vars kind = false

abbrev pub is_secret : ServiceFileKind → Bool
is_secret ServiceFileKind.secrets = true
is_secret ServiceFileKind.sealed_secret = true
is_secret kind = false

-- historyChangeMatchesFile
unfoldable pub history_change_matches_file : ServiceFileChange → String → Bool
history_change_matches_file change file =
    if file == "config"
    then is_config change.kind
    else if file == "env_vars"
    then is_env_vars change.kind
    else if file == "secrets"
    then is_secret change.kind
    else false

-- the loop of historyEntryMatchesFile
unfoldable pub some_change_matches : List ServiceFileChange → String → Bool
some_change_matches [] file = false
some_change_matches (change ∷ changes) file =
    history_change_matches_file change file || some_change_matches changes file

abbrev pub history_entry_matches_file : ServiceHistoryEntry → String → Bool
history_entry_matches_file entry file = file == "" || some_change_matches entry.files_changed file

abbrev pub history_changed_paths : List ServiceFileChange → List String
history_changed_paths changes = map (λ change. change.path) changes

-- the entry that is appended
abbrev pub history_entry : ServiceHistoryEntry → HistoryEntry
history_entry entry = record {
  version = entry.version;
  message = entry.message;
  author = entry.author;
  timestamp = entry.timestamp;
  files_changed = history_changed_paths entry.files_changed;
}

-- what the callback keeps between calls, and whether it returned errStopHistory
pub record Progress : Type 0 where
  pub entries : List HistoryEntry
  pub before_seen : Bool
  pub stopped : Bool

-- the callback of IterateServiceHistory
unfoldable pub visit : String → String → ℕ → ServiceHistoryEntry → Progress → Progress
visit file before limit entry at =
    if not at.before_seen
    then (if entry.version == before then record at { before_seen = true } else at)
    else if not (history_entry_matches_file entry file)
    then at
    else record at {
      entries = at.entries ++ history_entry entry ∷ [];
      stopped = leb limit (length (at.entries ++ history_entry entry ∷ []));
    }

-- the iteration: it ends at the first error of the callback
unfoldable pub iterate : String → String → ℕ → List ServiceHistoryEntry → Progress → Progress
iterate file before limit [] at = at
iterate file before limit (entry ∷ commits) at =
    let next = visit file before limit entry at in
    let rest = iterate file before limit commits next in if next.stopped then next else rest

-- the end of History: `failure` is an error that the iteration itself meets after the last commit
abbrev pub finish_history : Option String → Progress → HistoryResult
finish_history failure at =
    if at.stopped
    then listed at.entries
    else elim failure [ none ↦ listed at.entries | some why ↦ refused (iteration_failed why) ]

-- History, once its options are checked
unfoldable pub list_history :
    String → String → ℕ → List ServiceHistoryEntry → Option String → HistoryResult
list_history file before limit commits failure = finish_history failure (
    iterate file before limit commits
      (record { entries = []; before_seen = before == ""; stopped = false }))

-- the checks on the limit, in ℤ as the code's int
abbrev pub with_limit : ℤ → (ℕ → HistoryResult) → HistoryResult
with_limit (pos (suc n)) continue = continue (suc n)
with_limit limit continue = refused limit_not_positive

-- History
unfoldable pub history :
    HistoryOptions → ConfigStore → List ServiceHistoryEntry → Option String → HistoryResult
history opts s commits failure =
    if opts.org == "" || opts.project == "" || opts.service == ""
    then refused identity_required
    else with_limit opts.limit (λ limit.
      if not (opts.file == "") && not (valid_history_file opts.file)
      then refused unknown_file
      else if is_some
          (get_config s (record { org = opts.org; project = opts.project; service = opts.service }))
      then list_history opts.file opts.before limit commits failure
      else refused service_not_found)
