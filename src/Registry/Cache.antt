-- ===== src/Registry/Cache.antt =====
-- internal/registry/cache.go: the last App Registry snapshot, kept current by webhook events.
-- Each method that takes the lock is one function on the record, since the lock makes it atomic.
-- Instants are compared as counts, so `UTC()` is the identity; "w is after now - retention" is
-- written as "now is before w + retention". A nil receiver and nil maps are no values here.
pub mod Watermarks
pub mod Consistent
pub mod Preserve
pub mod Replace
pub mod Events
pub mod Runs
mod Tests
use aap_config_server.Base.{
  ℕ, ◌+◌, ◌*◌, String, Bool, true, false, not, Option, none, some, List, [], ◌∷◌, map, length, ltb,
  ◌||◌, if◌then◌else◌, is_some,
}
use aap_config_server.Base.Eq.{◌==◌, text_has_eq}
use aap_config_server.Base.Map.{Map, lookup, insert, remove, retain, has}
use aap_config_server.Base.Sort.{sort_by}
use aap_config_server.Registry.App.{
  Time, App, Key, key_for, key_eq, AppError, updated_at_required, updated_at_invalid,
  current_updated_at_invalid, Result, ok, err, app_less, normalize_app,
}

pub data CacheStatus : Type 0 where
  unset not_configured loaded degraded : CacheStatus

-- 24 hours, in nanoseconds
abbrev pub watermark_retention : ℕ
watermark_retention = 24 * 3600 * 1000000000

pub record Cache : Type 0 where
  pub apps : Map Key App
  pub last_event_at : Map Key Time
  pub last_loaded : Time
  pub last_updated : Time
  pub last_load_err : Option String
  pub status : CacheStatus

pub record Status : Type 0 where
  pub apps_loaded : ℕ
  pub last_loaded_at : Time
  pub last_updated_at : Time
  pub last_load_error : String
  pub state : CacheStatus
  pub is_degraded : Bool

abbrev pub new_cache : Cache
new_cache = record {
  apps = [];
  last_event_at = [];
  last_loaded = 0;
  last_updated = 0;
  last_load_err = none;
  status = not_configured;
}

-- `rememberEventTime`
unfoldable pub remember_event_time : Key → Time → Map Key Time → Map Key Time
remember_event_time key event_at events = elim (lookup key events) [
  | none ↦ insert key event_at events
  | some current ↦ if ltb current event_at then insert key event_at events else events
]

-- the second loop of `Replace`, over the event times of the snapshot
unfoldable pub remember_all : Map Key Time → Map Key Time → Map Key Time
unfolding remember_event_time
remember_all [] events = events
remember_all ((key, event_at) ∷ more) events =
    remember_all more (remember_event_time key event_at events)

-- `markCacheUpdatedLocked`
abbrev pub marked_status : CacheStatus → CacheStatus
marked_status unset = not_configured
marked_status s = s

abbrev pub marked_err : CacheStatus → Option String → Option String
marked_err loaded e = none
marked_err s e = e

unfoldable pub mark_cache_updated : Time → Cache → Cache
mark_cache_updated updated_at c = record c {
  last_updated = updated_at;
  last_load_err = marked_err c.status c.last_load_err;
  status = marked_status c.status;
}

-- `pruneExpiredTombstonesLocked`: the watermark of a vanished key goes once it is older than
-- now - retention
unfoldable pub prune_expired_tombstones : Time → Cache → Cache
prune_expired_tombstones now c = record c {
  last_event_at =
      retain (λ key w. has key c.apps || not (ltb (w + watermark_retention) now)) c.last_event_at;
}

abbrev pub status_or_default : CacheStatus → CacheStatus
status_or_default unset = not_configured
status_or_default s = s

abbrev pub is_degraded_status : CacheStatus → Bool
is_degraded_status degraded = true
is_degraded_status _ = false

abbrev err_text : Option String → String
err_text none = ""
err_text (some e) = e

-- `Status`
unfoldable pub status_of : Cache → Status
status_of c = record {
  apps_loaded = length c.apps;
  last_loaded_at = c.last_loaded;
  last_updated_at = c.last_updated;
  last_load_error = err_text c.last_load_err;
  state = status_or_default c.status;
  is_degraded = is_degraded_status (status_or_default c.status);
}

-- `List`
unfoldable pub list_apps : Cache → List App
unfolding sort_by
list_apps c = sort_by app_less (map (λ p. p.1) c.apps)

-- `MarkLoadSkipped` and `MarkLoadFailed`
unfoldable pub mark_load_skipped : Cache → Cache
mark_load_skipped c = record c { status = not_configured; last_load_err = none }

unfoldable pub mark_load_failed : String → Cache → Cache
mark_load_failed e c = record c { status = degraded; last_load_err = some e }

-- what `Upsert` and `Delete` return: a value and whether the event was applied, or an error
pub data Outcome (A : Type 0) : Type 0 where
  returned : A → Bool → Outcome A
  failed : AppError → Outcome A

abbrev pub is_stale : Key → Time → Cache → Bool
is_stale key event_at c = elim (lookup key c.last_event_at) [
  | none ↦ false
  | some w ↦ ltb event_at w
]

abbrev pub current_or : Option App → App → App
current_or none app = app
current_or (some current) app = current

-- the writes at the end of `Upsert` and `Delete`
unfoldable pub write_app : App → Time → Time → Cache → Cache
write_app app event_at updated_at c = mark_cache_updated updated_at (record c {
  apps = insert (key_for app) app c.apps;
  last_event_at = remember_event_time (key_for app) event_at c.last_event_at;
})

unfoldable pub delete_app : Key → Time → Time → Cache → Cache
delete_app key event_at updated_at c = mark_cache_updated updated_at (record c {
  apps = remove key c.apps;
  last_event_at = remember_event_time key event_at c.last_event_at;
})

module _ (parse_time : String → Option Time) where
  -- `parseEventTime`: absent, an instant, or an error
  abbrev pub parse_event_time : String → Result (Option Time)
  parse_event_time raw =
      if raw == ""
      then ok none
      else elim (parse_time raw) [ none ↦ err updated_at_invalid | some t ↦ ok (some t) ]

  -- `requireEventTime`
  unfoldable pub require_event_time : App → Result Time
  require_event_time app =
      if app.updated_at == ""
      then err updated_at_required
      else elim (parse_time app.updated_at) [ none ↦ err updated_at_invalid | some t ↦ ok t ]

  abbrev not_before : Time → Result (Option Time) → Result Bool
  not_before incoming (err e) = err current_updated_at_invalid
  not_before incoming (ok none) = ok true
  not_before incoming (ok (some current)) = ok (not (ltb incoming current))

  abbrev decide : String → Result (Option Time) → Result Bool
  decide current (err e) = err e
  decide current (ok none) = ok true
  decide current (ok (some incoming)) = not_before incoming (parse_event_time current)

  -- `shouldApplyEvent`
  unfoldable pub should_apply_event : App → App → Result Bool
  should_apply_event current incoming =
      decide current.updated_at (parse_event_time incoming.updated_at)

  abbrev upsert_over : Option App → App → Time → Time → Cache → Cache × Outcome App
  upsert_over none app event_at updated_at c =
      (write_app app event_at updated_at c, returned app true)
  upsert_over (some current) app event_at updated_at c = elim (should_apply_event current app) [
    | err e ↦ (c, failed e)
    | ok true ↦ (write_app app event_at updated_at c, returned app true)
    | ok false ↦ (c, returned current false)
  ]

  -- `Upsert` after the checks of its argument, on the pruned cache
  unfoldable pub upsert_checked : App → Time → Time → Cache → Cache × Outcome App
  upsert_checked app event_at updated_at c =
      let current = lookup (key_for app) c.apps in
      if is_stale (key_for app) event_at c
      then (c, returned (current_or current app) false)
      else upsert_over current app event_at updated_at c

  abbrev upsert_timed : Result Time → App → Time → Cache → Cache × Outcome App
  upsert_timed (err e) app updated_at c = (c, failed e)
  upsert_timed (ok event_at) app updated_at c =
      upsert_checked app event_at updated_at (prune_expired_tombstones event_at c)

  abbrev upsert_normal : Result App → Time → Cache → Cache × Outcome App
  upsert_normal (err e) updated_at c = (c, failed e)
  upsert_normal (ok app) updated_at c = upsert_timed (require_event_time app) app updated_at c

  -- `Upsert`
  unfoldable pub upsert : App → Time → Cache → Cache × Outcome App
  upsert app updated_at c = upsert_normal (normalize_app parse_time app) updated_at c

  abbrev delete_over : Option App → App → Time → Time → Cache → Cache × Outcome Key
  delete_over none app event_at updated_at c =
      (delete_app (key_for app) event_at updated_at c, returned (key_for app) false)
  delete_over (some current) app event_at updated_at c = elim (should_apply_event current app) [
    | err e ↦ (c, failed e)
    | ok true ↦ (delete_app (key_for app) event_at updated_at c, returned (key_for app) true)
    | ok false ↦ (c, returned (key_for app) false)
  ]

  -- `Delete` after the checks of its argument, on the pruned cache
  unfoldable pub delete_checked : App → Time → Time → Cache → Cache × Outcome Key
  delete_checked app event_at updated_at c =
      if is_stale (key_for app) event_at c
      then (c, returned (key_for app) false)
      else delete_over (lookup (key_for app) c.apps) app event_at updated_at c

  abbrev delete_timed : Result Time → App → Time → Cache → Cache × Outcome Key
  delete_timed (err e) app updated_at c = (c, failed e)
  delete_timed (ok event_at) app updated_at c =
      delete_checked app event_at updated_at (prune_expired_tombstones event_at c)

  abbrev delete_normal : Result App → Time → Cache → Cache × Outcome Key
  delete_normal (err e) updated_at c = (c, failed e)
  delete_normal (ok app) updated_at c = delete_timed (require_event_time app) app updated_at c

  -- `Delete`
  unfoldable pub delete : App → Time → Cache → Cache × Outcome Key
  delete app updated_at c = delete_normal (normalize_app parse_time app) updated_at c

  abbrev with_event_time : Key → Result (Option Time) → Map Key Time → Map Key Time
  with_event_time key (ok (some t)) times = insert key t times
  with_event_time key _ times = times

  -- one round of the first loop of `Replace`: malformed entries are dropped
  unfoldable pub scan_app : App → Map Key App × Map Key Time → Map Key App × Map Key Time
  scan_app app (normalized, times) = elim (normalize_app parse_time app) [
    | err e ↦ (normalized, times)
    | ok next ↦ (
      insert (key_for next) next normalized,
      with_event_time (key_for next) (parse_event_time next.updated_at) times,
    )
  ]

  unfoldable pub scan_apps : List App → Map Key App × Map Key Time → Map Key App × Map Key Time
  unfolding scan_app
  scan_apps [] acc = acc
  scan_apps (app ∷ apps) acc = scan_apps apps (scan_app app acc)

  -- `Replace`
  unfoldable pub replace : List App → Time → Cache → Cache
  unfolding scan_apps remember_all
  replace apps loaded_at c =
      let (normalized, times) = scan_apps apps ([], []) in
      let kept =
        retain (λ key w. has key normalized || ltb loaded_at (w + watermark_retention))
          c.last_event_at in
      record {
        apps = normalized;
        last_event_at = remember_all times kept;
        last_loaded = loaded_at;
        last_updated = loaded_at;
        last_load_err = none;
        status = loaded;
      }
