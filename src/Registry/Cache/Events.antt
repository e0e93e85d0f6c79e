-- ===== src/Registry/Cache/Events.antt =====
-- internal/registry/cache.go as a last-writer-wins register: sequences of webhook events.
use aap_config_server.Base.{
  ◌+◌, ◌≤◌, String, ◌≡◌, true, false, Option, none, some, arith, ltb, if◌then◌else◌, Option-cases,
  Bool-cases, inl, inr,
}
use aap_config_server.Base.Eq.{◌==◌, text_has_eq}
use aap_config_server.Base.Map.{lookup, lookup-insert, lookup-remove, HasDistinctKeys}
use aap_config_server.Registry.App.{
  Time, App, Key, key_for, key_eq, key_beq_iff, Result, ok, err, normalize_app,
}
use aap_config_server.Registry.Cache.{
  Cache, watermark_retention, mark_cache_updated, prune_expired_tombstones, is_stale, write_app,
  delete_app, require_event_time, upsert, delete,
}
use aap_config_server.Registry.Cache.Watermarks.{lookup-remember, lookup-prune}
use aap_config_server.Registry.Cache.Consistent.{
  IsConsistent, upsert_checked_lem, delete_checked_lem,
}
use aap_config_server.Registry.Cache.Preserve.{
  require_event_time-IsTimed, Result-cases, prune-IsConsistent,
}

pub data Event : Type 0 where
  upserted deleted : App → Event

-- the latest event of a key: its time, and the app that it leaves
abbrev pub Latest : Type 0
Latest = Option (Time × Option App)

abbrev pub time_of : Latest → Option Time
time_of none = none
time_of (some (t, a)) = some t

abbrev pub app_of : Latest → Option App
app_of none = none
app_of (some (t, a)) = a

-- What a cache shows of every key.
pub record Mirrors (c : Cache) (b : Key → Latest) : Type 0 where
  pub times : (k : Key) → lookup k c.last_event_at ≡ time_of (b k)
  pub apps : (k : Key) → lookup k c.apps ≡ app_of (b k)

-- a register takes an event unless it holds a later one
abbrev pub written : Time → Option App → Latest → Latest
written t a none = some (t, a)
written t a (some (w, b)) = if ltb t w then some (w, b) else some (t, a)

write_app-Mirrors :
    (c : Cache) (b : Key → Latest) (app : App) (t u : Time)
    → Mirrors c b
    → is_stale (key_for app) t c ≡ false
    → Mirrors
        (write_app app t u c)
        (λ k. if key_for app == k then written t (some app) (b k) else b k)
unfolding write_app mark_cache_updated
write_app-Mirrors c b app t u m fresh = record {
  times = λ k. ground (
    arith,
    lookup-remember (key_for app) k t c.last_event_at,
    key_beq_iff (key_for app) k,
    m.times k,
    m.times (key_for app),
  );
  apps = λ k. ground (
    arith,
    lookup-insert (key_for app) k app c.apps,
    key_beq_iff (key_for app) k,
    m.apps k,
    m.times k,
    m.times (key_for app),
  );
}

delete_app-Mirrors :
    (c : Cache) (b : Key → Latest) (key : Key) (t u : Time)
    → Mirrors c b
    → is_stale key t c ≡ false
    → Mirrors (delete_app key t u c) (λ k. if key == k then written t none (b k) else b k)
unfolding delete_app mark_cache_updated
delete_app-Mirrors c b key t u m fresh = record {
  times = λ k.
      ground
        (arith, lookup-remember key k t c.last_event_at, key_beq_iff key k, m.times k, m.times key);
  apps = λ k.
      ground
        (arith, lookup-remove key k c.apps, key_beq_iff key k, m.apps k, m.times k, m.times key);
}

-- a stale event leaves the register as it is
stale-Mirrors :
    (c : Cache) (b : Key → Latest) (key : Key) (t : Time) (a : Option App)
    → Mirrors c b
    → is_stale key t c ≡ true
    → Mirrors c (λ k. if key == k then written t a (b k) else b k)
stale-Mirrors c b key t a m stale = record {
  times = λ k. ground (arith, key_beq_iff key k, m.times k, m.times key);
  apps = λ k. ground (arith, key_beq_iff key k, m.apps k, m.times k, m.times key);
}

-- no watermark is older than `lo`
abbrev pub IsSince : Time → (Key → Latest) → Type 0
IsSince lo b = (k : Key) (w : Time) → time_of (b k) ≡ some w → lo ≤ w

-- while all events are at most the retention apart, pruning does nothing that a read shows
prune-Mirrors :
    (c : Cache) (b : Key → Latest) (lo now : Time)
    → HasDistinctKeys c.last_event_at
    → Mirrors c b
    → IsSince lo b
    → now ≤ lo + watermark_retention
    → Mirrors (prune_expired_tombstones now c) b
prune-Mirrors c b lo now d m since w = record {
  times = λ k. elim (Option-cases (time_of (b k))) [
    | inl e ↦ ground (arith, lookup-prune now c k d, m.times k, e)
    | inr (v, e) ↦ ground (arith, lookup-prune now c k d, m.times k, e, since k v e)
  ];
  apps = unfold prune_expired_tombstones in m.apps;
}

module _ (parse_time : String → Option Time) where
  abbrev timed : Option App → App → Result Time → Option (Key × Time × Option App)
  timed a next (err e) = none
  timed a next (ok t) = some (key_for next, t, a)

  -- What an event says, read without a cache: the key that it writes, its time, and the app that it
  -- leaves there; nothing, if the code refuses it.
  abbrev pub effect : Event → Option (Key × Time × Option App)
  effect (upserted app) = elim (normalize_app parse_time app) [
    | err e ↦ none
    | ok next ↦ timed (some next) next (require_event_time parse_time next)
  ]
  effect (deleted app) = elim (normalize_app parse_time app) [
    | err e ↦ none
    | ok next ↦ timed none next (require_event_time parse_time next)
  ]

  -- a register of the latest event of each key
  abbrev pub register : Option (Key × Time × Option App) → (Key → Latest) → Key → Latest
  register none b k = b k
  register (some (key, t, a)) b k = if key == k then written t a (b k) else b k

  -- the webhook handlers' calls
  abbrev pub handle : Event → Time → Cache → Cache
  handle (upserted app) u c = (upsert parse_time app u c).0
  handle (deleted app) u c = (delete parse_time app u c).0

  abbrev pub IsWithin : Time → Option (Key × Time × Option App) → Type 0
  IsWithin lo none = Unit
  IsWithin lo (some (key, t, a)) = (lo ≤ t) × (t ≤ lo + watermark_retention)

  pub upsert-Mirrors :
      (c : Cache) (b : Key → Latest) (lo u : Time) (app : App)
      → IsConsistent parse_time c
      → Mirrors c b
      → IsSince lo b
      → IsWithin lo (effect (upserted app))
      → Mirrors (upsert parse_time app u c).0 (register (effect (upserted app)) b)
  unfolding upsert
  upsert-Mirrors c b lo u app h m since within =
      elim (Result-cases parse_time (normalize_app parse_time app)) [
        | inl (e, bad) ↦ rw (bad, effect) m
        | inr (next, good) ↦ elim (Result-cases parse_time (require_event_time parse_time next)) [
          | inl (e, bad) ↦ rw (good, bad, effect) m
          | inr (t, at) ↦
              let w : (lo ≤ t) × (t ≤ lo + watermark_retention) = rw (good, at, effect) at within in
              let pruned = prune-Mirrors c b lo t h.distinct m since w.1 in
              let p = prune_expired_tombstones t c in
              rw
                (
                  good,
                  at,
                  effect,
                  upsert_checked_lem parse_time p next t u (prune-IsConsistent parse_time c t h)
                      (require_event_time-IsTimed parse_time next t at),
                )
                (elim (Bool-cases (is_stale (key_for next) t p)) [
                  | inl s ↦ rw s (stale-Mirrors p b (key_for next) t (some next) pruned s)
                  | inr f ↦ rw f (write_app-Mirrors p b next t u pruned f)
                ])
        ]
      ]

  pub delete-Mirrors :
      (c : Cache) (b : Key → Latest) (lo u : Time) (app : App)
      → IsConsistent parse_time c
      → Mirrors c b
      → IsSince lo b
      → IsWithin lo (effect (deleted app))
      → Mirrors (delete parse_time app u c).0 (register (effect (deleted app)) b)
  unfolding delete
  delete-Mirrors c b lo u app h m since within =
      elim (Result-cases parse_time (normalize_app parse_time app)) [
        | inl (e, bad) ↦ rw (bad, effect) m
        | inr (next, good) ↦ elim (Result-cases parse_time (require_event_time parse_time next)) [
          | inl (e, bad) ↦ rw (good, bad, effect) m
          | inr (t, at) ↦
              let w : (lo ≤ t) × (t ≤ lo + watermark_retention) = rw (good, at, effect) at within in
              let pruned = prune-Mirrors c b lo t h.distinct m since w.1 in
              let p = prune_expired_tombstones t c in
              rw
                (
                  good,
                  at,
                  effect,
                  delete_checked_lem parse_time p next t u (prune-IsConsistent parse_time c t h)
                      (require_event_time-IsTimed parse_time next t at),
                )
                (elim (Bool-cases (is_stale (key_for next) t p)) [
                  | inl s ↦ rw s (stale-Mirrors p b (key_for next) t none pruned s)
                  | inr f ↦ rw f (delete_app-Mirrors p b (key_for next) t u pruned f)
                ])
        ]
      ]
