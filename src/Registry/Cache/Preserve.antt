-- ===== src/Registry/Cache/Preserve.antt =====
-- The events of internal/registry/cache.go keep the cache consistent.
use mathlib.Core.Path.{subst}
use aap_config_server.Base.{
  ◌≤◌, String, ◌≡◌, ◌⊎◌, refl, Bool, true, false, Option, some, arith, if◌then◌else◌, inl, inr,
}
use aap_config_server.Base.Eq.{◌==◌, text_has_eq}
use aap_config_server.Base.Map.{
  Map, lookup, insert, remove, lookup-insert, lookup-remove, HasDistinctKeys-retain,
}
use aap_config_server.Registry.App.{
  Time, App, Key, key_for, key_eq, key_beq_iff, Result, ok, err, IsNormal, AppError, normalize_app,
  normalize_app_idempotent,
}
use aap_config_server.Registry.Cache.{
  Cache, Outcome, remember_event_time, mark_cache_updated, prune_expired_tombstones, write_app,
  delete_app, require_event_time, upsert, delete,
}
use aap_config_server.Registry.Cache.Watermarks.{
  raised, lookup-remember, HasDistinctKeys-remember, lookup-prune,
}
use aap_config_server.Registry.Cache.Consistent.{
  IsConsistent, IsTimed, upsert_checked_lem, delete_checked_lem,
}

-- the entry that a read after a write finds: the written one, or an older one
pub inserted :
    (k j : Key) (a b : App) (m : Map Key App)
    → lookup j (insert k b m) ≡ some a
    → ((k ≡ j) × (b ≡ a)) ⊎ (((k == j) ≡ false) × (lookup j m ≡ some a))
inserted k j a b m l = ground (arith, lookup-insert k j b m, key_beq_iff k j)

pub removed :
    (k j : Key) (a : App) (m : Map Key App)
    → lookup j (remove k m) ≡ some a
    → ((k == j) ≡ false) × (lookup j m ≡ some a)
removed k j a m l = ground (arith, lookup-remove k j m)

floor_kept :
    (k j : Key) (at t : Time) (m : Map Key Time)
    → (k == j) ≡ false
    → (w : Time) × (lookup j m ≡ some w) × (t ≤ w)
    → (w : Time) × (lookup j (remember_event_time k at m) ≡ some w) × (t ≤ w)
floor_kept k j at t m e (w, l, le) = (w, ground (arith, lookup-remember k j at m, l), le)

pub floor_set :
    (k : Key) (at t : Time) (m : Map Key Time)
    → t ≤ at
    → (w : Time) × (lookup k (remember_event_time k at m) ≡ some w) × (t ≤ w)
floor_set k at t m le = (
  raised at (lookup k m),
  ground (arith, lookup-remember k k at m, key_beq_iff k k),
  ground arith,
)

module _ (parse_time : String → Option Time) where
  write_app-IsConsistent :
      (c : Cache) (app : App) (at u : Time)
      → IsConsistent parse_time c
      → IsNormal parse_time app
      → IsTimed parse_time app at
      → IsConsistent parse_time (write_app app at u c)
  unfolding write_app mark_cache_updated
  write_app-IsConsistent c app at u h n timed = record {
    distinct = HasDistinctKeys-remember (key_for app) at c.last_event_at h.distinct;
    keyed = λ k a l. elim (inserted (key_for app) k a app c.apps l) [
      | inl (e, p) ↦ subst (λ x. key_for x ≡ k) p e
      | inr (e, q) ↦ h.keyed k a q
    ];
    normal = λ k a l. elim (inserted (key_for app) k a app c.apps l) [
      | inl (e, p) ↦ subst (IsNormal parse_time) p n
      | inr (e, q) ↦ h.normal k a q
    ];
    floored = λ k a t l g p. elim (inserted (key_for app) k a app c.apps l) [
      | inl (e, same) ↦
          subst
            (λ j.
              (w : Time) × (lookup j (remember_event_time (key_for app) at c.last_event_at)
                ≡ some w)
              × (t ≤ w))
            e (floor_set (key_for app) at t c.last_event_at (ground (arith, timed.parsed, p, same)))
      | inr (e, q) ↦ floor_kept (key_for app) k at t c.last_event_at e (h.floored k a t q g p)
    ];
  }

  delete_app-IsConsistent :
      (c : Cache) (key : Key) (at u : Time)
      → IsConsistent parse_time c
      → IsConsistent parse_time (delete_app key at u c)
  unfolding delete_app mark_cache_updated
  delete_app-IsConsistent c key at u h = record {
    distinct = HasDistinctKeys-remember key at c.last_event_at h.distinct;
    keyed = λ k a l. h.keyed k a (removed key k a c.apps l).1;
    normal = λ k a l. h.normal k a (removed key k a c.apps l).1;
    floored = λ k a t l g p.
        let (e, q) = removed key k a c.apps l in
        floor_kept key k at t c.last_event_at e (h.floored k a t q g p);
  }

  pub prune-IsConsistent :
      (c : Cache) (now : Time)
      → IsConsistent parse_time c
      → IsConsistent parse_time (prune_expired_tombstones now c)
  prune-IsConsistent c now h = record {
    distinct =
        unfold prune_expired_tombstones in HasDistinctKeys-retain _ c.last_event_at h.distinct;
    keyed = unfold prune_expired_tombstones in h.keyed;
    normal = unfold prune_expired_tombstones in h.normal;
    floored = λ k a t l g p.
        let l' : lookup k c.apps ≡ some a = unfold prune_expired_tombstones in l in
        let (w, lw, le) = h.floored k a t l' g p in
        (w, ground (arith, lookup-prune now c k h.distinct, lw, l'), le);
  }

  -- what the checks before an event establish
  pub require_event_time-IsTimed :
      (app : App) (at : Time)
      → require_event_time parse_time app ≡ ok at
      → IsTimed parse_time app at
  unfolding require_event_time
  require_event_time-IsTimed app at h = record { given = ground arith; parsed = ground arith }

  pub Result-cases :
      {A : Type 0} (r : Result A) → ((e : AppError) × (r ≡ err e)) ⊎ ((a : A) × (r ≡ ok a))
  Result-cases (err e) = inl (e, refl)
  Result-cases (ok a) = inr (a, refl)

  if-IsConsistent :
      {B : Type 0} (b : Bool) (c d : Cache) (x y : Outcome B)
      → IsConsistent parse_time c
      → IsConsistent parse_time d
      → IsConsistent parse_time (if◌then◌else◌ {A = Cache × Outcome B} b (c, x) (d, y)).0
  if-IsConsistent true c d x y h k = h
  if-IsConsistent false c d x y h k = k

  -- Whatever its argument, an upsert keeps a consistent cache consistent.
  pub upsert-IsConsistent :
      (c : Cache) (app : App) (u : Time)
      → IsConsistent parse_time c
      → IsConsistent parse_time (upsert parse_time app u c).0
  unfolding upsert
  upsert-IsConsistent c app u h = elim (Result-cases (normalize_app parse_time app)) [
    | inl (e, bad) ↦ rw bad h
    | inr (next, good) ↦ elim (Result-cases (require_event_time parse_time next)) [
      | inl (e, bad) ↦ rw (good, bad) h
      | inr (at, timed) ↦
          let pruned = prune-IsConsistent c at h in
          let t = require_event_time-IsTimed next at timed in
          rw (good, timed, upsert_checked_lem parse_time _ next at u pruned t)
            (if-IsConsistent _ _ _ _ _ pruned (
              write_app-IsConsistent _ next at u pruned
                (normalize_app_idempotent parse_time app next good).0 t))
    ]
  ]

  -- Whatever its argument, a delete keeps a consistent cache consistent.
  pub delete-IsConsistent :
      (c : Cache) (app : App) (u : Time)
      → IsConsistent parse_time c
      → IsConsistent parse_time (delete parse_time app u c).0
  unfolding delete
  delete-IsConsistent c app u h = elim (Result-cases (normalize_app parse_time app)) [
    | inl (e, bad) ↦ rw bad h
    | inr (next, good) ↦ elim (Result-cases (require_event_time parse_time next)) [
      | inl (e, bad) ↦ rw (good, bad) h
      | inr (at, timed) ↦
          let pruned = prune-IsConsistent c at h in
          let t = require_event_time-IsTimed next at timed in
          rw (good, timed, delete_checked_lem parse_time _ next at u pruned t)
            (if-IsConsistent _ _ _ _ _ pruned
              (delete_app-IsConsistent _ (key_for next) at u pruned))
    ]
  ]
