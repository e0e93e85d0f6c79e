-- ===== src/Registry/Cache/Tests.antt =====
-- internal/registry/cache.go at concrete apps, with four texts that denote instants.
use aap_config_server.Base.{
  String, ◌≡◌, refl, Option, none, some, List, [], ◌∷◌, arith, if◌then◌else◌,
}
use aap_config_server.Base.Eq.{◌==◌, text_has_eq, number_has_eq}
use aap_config_server.Base.Map.{lookup, retain, insert}
use aap_config_server.Registry.App.{Time, App, Key, key_for, key_eq, ok, normalize_app}
use aap_config_server.Registry.Cache.{
  Cache, new_cache, write_app, upsert_checked, upsert, require_event_time, should_apply_event,
  remember_event_time, mark_cache_updated, prune_expired_tombstones,
}
use aap_config_server.Registry.Cache.Consistent.{IsConsistent}
use aap_config_server.Registry.Cache.Preserve.{upsert-IsConsistent}
use aap_config_server.Registry.Cache.Replace.{last_entry}
use aap_config_server.Registry.Cache.Events.{Event, upserted, deleted, time_of, app_of}
use aap_config_server.Registry.Cache.Runs.{
  run, expected, new_cache-IsConsistent, run_latest, run_swap,
}

abbrev clock : String → Option Time
clock raw =
    if raw == "t1"
    then some 1
    else if raw == "t2"
    then some 2
    else if raw == "t3"
    then some 3
    else none

abbrev app_at : String → App
app_at t = record { org = "o"; project = "p"; service = ""; name = "web"; updated_at = t }

abbrev web_at : String → App
web_at t = record { org = "o"; project = "p"; service = "web"; name = "web"; updated_at = t }

abbrev web : Key
web = key_for (web_at "t1")

named_web : normalize_app clock (app_at "t1") ≡ ok (web_at "t1")
unfolding normalize_app
named_web = refl

abbrev cached : Cache
cached = (upsert clock (app_at "t2") 9 new_cache).0

cached-IsConsistent : IsConsistent clock cached
cached-IsConsistent =
    upsert-IsConsistent clock new_cache (app_at "t2") 9 (new_cache-IsConsistent clock)

abbrev snapshot : List App
snapshot = app_at "t1" ∷ app_at "bad" ∷ app_at "t3" ∷ []

-- the malformed entry is dropped, and the last well-formed one stays
last_entry_t3 : last_entry clock web snapshot ≡ some (web_at "t3")
unfolding normalize_app
last_entry_t3 = refl

cached_watermark : lookup web cached.last_event_at ≡ some 2
unfolding upsert upsert_checked write_app normalize_app require_event_time should_apply_event lookup
    remember_event_time mark_cache_updated prune_expired_tombstones retain insert
cached_watermark = refl

abbrev late : List (Event × Time)
late = (upserted (app_at "t1"), 9) ∷ (deleted (app_at "t3"), 8) ∷ (upserted (app_at "t2"), 9) ∷ []

run_latest_example :
    (lookup web (run clock late new_cache).apps ≡ app_of (expected clock late (λ _. none) web))
    × (lookup web (run clock late new_cache).last_event_at
        ≡ time_of (expected clock late (λ _. none) web))
unfolding normalize_app require_event_time
run_latest_example =
    run_latest clock late 1 web
      ((omega arith, omega arith), ((omega arith, omega arith), ((omega arith, omega arith), tt)))

-- the delete of time 3 wins over the later call of time 2
late_deleted : expected clock late (λ _. none) web ≡ some (3, none)
unfolding normalize_app require_event_time
late_deleted = refl

run_swap_example :
    (lookup web
        (run clock ((deleted (app_at "t3"), 8) ∷ (upserted (app_at "t2"), 9) ∷ []) new_cache).apps
      ≡ lookup web
          (run clock
            ((upserted (app_at "t2"), 9) ∷ (deleted (app_at "t3"), 8) ∷ [])
            new_cache).apps)
    × (lookup web
          (run clock
            ((deleted (app_at "t3"), 8) ∷ (upserted (app_at "t2"), 9) ∷ [])
            new_cache).last_event_at
        ≡ lookup web
            (run clock
              ((upserted (app_at "t2"), 9) ∷ (deleted (app_at "t3"), 8) ∷ [])
              new_cache).last_event_at)
unfolding normalize_app require_event_time
run_swap_example =
    run_swap clock [] [] (deleted (app_at "t3"), 8) (upserted (app_at "t2"), 9) 1 web
      ((omega arith, omega arith), ((omega arith, omega arith), tt)) (λ _. omega arith)
