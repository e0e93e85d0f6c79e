-- ===== src/Handler/Watch.antt =====
-- internal/handler/handler.go: waitForWatchChange with resourceVersion and parseWatchTimeout, and
-- WaitForVersionChange of internal/store/store.go. What others do meanwhile is given as the stores
-- that the code finds at each of its readings.
pub mod Laws
pub mod Torn
pub mod Wakes
pub mod Tests
use aap_config_server.Base.{
  ℕ, String, Bool, true, false, Option, none, some, List, [], ◌∷◌, if◌then◌else◌, ltb, leb,
}
use aap_config_server.Base.Eq.{◌==◌, text_has_eq}
use aap_config_server.Base.Int.{ℤ, pos, negsuc}
use aap_config_server.Store.Types.{ServiceKey, ServiceData}
use aap_config_server.Store.Versions.{Resource}
use aap_config_server.Store.Reload.{ConfigStore, get_config, resource_version_of}
use aap_config_server.Handler.Payload.{has_inherited_config_source, has_inherited_env_vars_source}

-- what ends the wait on the channel: it was closed, or the context is done; with the store that
-- the next reading finds
pub data Wake : Type 0 where
  closed : ConfigStore → Wake
  context_done : ConfigStore → Wake

pub data Waited : Type 0 where
  moved : String → Waited
  gave_up : String → Waited
  blocked : Waited

-- WaitForVersionChange, on what happens while it waits; `blocked` if nothing more does
unfoldable pub wait_for_version_change : String → ConfigStore → List Wake → Waited
wait_for_version_change version s [] =
    if s.snapshot.version == version then blocked else moved s.snapshot.version
wait_for_version_change version s (closed t ∷ wakes) =
    let rest = wait_for_version_change version t wakes in
    if s.snapshot.version == version then rest else moved s.snapshot.version
wait_for_version_change version s (context_done t ∷ wakes) =
    if s.snapshot.version == version
    then if t.snapshot.version == version
      then gave_up t.snapshot.version
      else moved t.snapshot.version
    else moved s.snapshot.version

-- the switch of resourceVersion
unfoldable pub is_inherited : Resource → ServiceData → Bool
is_inherited Resource.config d = has_inherited_config_source d.inherited_sources
is_inherited Resource.env_vars d = has_inherited_env_vars_source d.inherited_sources

abbrev pub with_inherited :
    Resource → String → String → Option ServiceData → Option (String × String)
with_inherited resource token head none = none
with_inherited resource token head (some d) =
    some (if is_inherited resource d then head else token, head)

abbrev pub unless_plain :
    ConfigStore → ServiceKey → Resource → Bool → Option (String × String) → Option (String × String)
unless_plain second key resource inherit none = none
unless_plain second key resource false (some (token, head)) = some (token, head)
unless_plain second key resource true (some (token, head)) =
    with_inherited resource token head (get_config second key)

-- resourceVersion of the handler, whose two readings may find two stores
unfoldable pub watched_version :
    ConfigStore → ConfigStore → ServiceKey → Resource → Bool → Option (String × String)
watched_version first second key resource inherit =
    unless_plain second key resource inherit (resource_version_of first key resource)

-- what one turn of the loop finds
pub record Turn : Type 0 where
  pub deadline_over : Bool
  pub canceled : Bool
  pub reading : ConfigStore
  pub config_reading : ConfigStore
  pub waiting : ConfigStore
  pub wakes : List Wake

pub data WatchAnswer : Type 0 where
  changed : WatchAnswer
  not_modified : String → WatchAnswer
  not_found : WatchAnswer
  still_waiting : WatchAnswer

-- watchOutcome
unfoldable pub watch_outcome : Bool → String
watch_outcome canceled = if canceled then "client_canceled" else "timeout"

abbrev pub after_wait : Turn → WatchAnswer → Waited → WatchAnswer
after_wait turn rest (moved current) = rest
after_wait turn rest (gave_up current) = not_modified (watch_outcome turn.canceled)
after_wait turn rest blocked = still_waiting

abbrev pub after_reading : String → Turn → WatchAnswer → Option (String × String) → WatchAnswer
after_reading version turn rest none = not_found
after_reading version turn rest (some (token, head)) =
    if token == version
    then after_wait turn rest (wait_for_version_change head turn.waiting turn.wakes)
    else changed

module _ (key : ServiceKey) (resource : Resource) (inherit : Bool) where
  abbrev pub read_token : Turn → Option (String × String)
  read_token turn = watched_version turn.reading turn.config_reading key resource inherit

  -- the loop of waitForWatchChange
  unfoldable pub watch : String → List Turn → WatchAnswer
  watch version [] = still_waiting
  watch version (turn ∷ turns) =
      let rest = watch version turns in
      if turn.deadline_over
      then not_modified (watch_outcome turn.canceled)
      else after_reading version turn rest (read_token turn)

-- in nanoseconds
abbrev pub max_watch_timeout : ℕ
max_watch_timeout = 30000000000

pub data TimeoutQuery : Type 0 where
  timeout_of : ℕ → TimeoutQuery
  not_a_duration : TimeoutQuery
  not_positive : TimeoutQuery
  too_long : TimeoutQuery

abbrev pub check_timeout : Option ℤ → TimeoutQuery
check_timeout none = not_a_duration
check_timeout (some (negsuc n)) = not_positive
check_timeout (some (pos n)) =
    if leb n 0 then not_positive else if ltb max_watch_timeout n then too_long else timeout_of n

-- parseWatchTimeout of the trimmed text, with time.ParseDuration
unfoldable pub parse_watch_timeout : (String → Option ℤ) → String → TimeoutQuery
parse_watch_timeout parse_duration raw =
    if raw == "" then timeout_of max_watch_timeout else check_timeout (parse_duration raw)

pub data WatchQuery : Type 0 where
  version_required : WatchQuery
  bad_timeout : TimeoutQuery → WatchQuery
  waited : ℕ → WatchAnswer → WatchQuery

abbrev pub after_timeout : TimeoutQuery → WatchAnswer → WatchQuery
after_timeout (timeout_of n) answer = waited n answer
after_timeout bad answer = bad_timeout bad

-- waitForWatchChange, on the trimmed query parameters
unfoldable pub wait_for_watch_change :
    (String → Option ℤ) → ServiceKey → Resource → Bool → String → String → List Turn → WatchQuery
wait_for_watch_change parse_duration key resource inherit version timeout turns =
    if version == ""
    then version_required
    else after_timeout (parse_watch_timeout parse_duration timeout)
        (watch key resource inherit version turns)
