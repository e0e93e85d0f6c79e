-- ===== src/Registry/Cache/Consistent.antt =====
-- The invariant of internal/registry/cache.go and what it makes of the events' checks.
use aap_config_server.Base.{
  ◌≤◌, String, ◌≡◌, true, false, Option, some, arith, if◌then◌else◌, Option-cases, Bool-cases, inl,
  inr,
}
use aap_config_server.Base.Eq.{◌==◌, text_has_eq}
use aap_config_server.Base.Map.{lookup, has, HasDistinctKeys}
use aap_config_server.Registry.App.{Time, App, Key, key_for, key_eq, ok, IsNormal}
use aap_config_server.Registry.Cache.{
  Cache, returned, is_stale, write_app, delete_app, should_apply_event, current_or, upsert_checked,
  delete_checked,
}

module _ (parse_time : String → Option Time) where
  -- Every cached app is normal and stands under its key, and a watermark as late as the app's own
  -- event time is recorded for that key.
  pub record IsConsistent (c : Cache) : Type 0 where
    pub distinct : HasDistinctKeys c.last_event_at
    pub keyed : (k : Key) (a : App) → lookup k c.apps ≡ some a → key_for a ≡ k
    pub normal : (k : Key) (a : App) → lookup k c.apps ≡ some a → IsNormal parse_time a
    pub floored :
        (k : Key) (a : App) (t : Time)
        → lookup k c.apps ≡ some a
        → (a.updated_at == "") ≡ false
        → parse_time a.updated_at ≡ some t
        → (w : Time) × (lookup k c.last_event_at ≡ some w) × (t ≤ w)

  -- an app that carries the instant `t`
  pub record IsTimed (app : App) (t : Time) : Type 0 where
    pub given : (app.updated_at == "") ≡ false
    pub parsed : parse_time app.updated_at ≡ some t

  should_apply_fresh :
      (current app : App) (at : Time)
      → IsTimed app at
      → IsNormal parse_time current
      → ((t : Time)
          → (current.updated_at == "") ≡ false
          → parse_time current.updated_at ≡ some t
          → t ≤ at)
      → should_apply_event parse_time current app ≡ ok true
  unfolding should_apply_event
  should_apply_fresh current app at timed n h = elim (Bool-cases (current.updated_at == "")) [
    | inl e ↦ ground (arith, timed.given, timed.parsed)
    | inr e ↦ elim (Option-cases (parse_time current.updated_at)) [
      | inl none_parsed ↦ absurd (ground (arith, n.has_time e))
      | inr (t, p) ↦ ground (arith, timed.given, timed.parsed, h t e p)
    ]
  ]

  fresh_floor :
      (c : Cache) (k : Key) (a : App) (at t : Time)
      → IsConsistent c
      → is_stale k at c ≡ false
      → lookup k c.apps ≡ some a
      → (a.updated_at == "") ≡ false
      → parse_time a.updated_at ≡ some t
      → t ≤ at
  fresh_floor c k a at t h f l g p = let (w, lw, le) = h.floored k a t l g p in ground arith

  -- In a consistent cache the watermark alone decides an upsert: it is applied exactly if its event
  -- time is not before the watermark of its key.
  pub upsert_checked_lem :
      (c : Cache) (app : App) (at updated_at : Time)
      → IsConsistent c
      → IsTimed app at
      → upsert_checked parse_time app at updated_at c ≡ (
          if is_stale (key_for app) at c
          then (c, returned (current_or (lookup (key_for app) c.apps) app) false)
          else (write_app app at updated_at c, returned app true))
  unfolding upsert_checked
  upsert_checked_lem c app at u h timed = elim (Option-cases (lookup (key_for app) c.apps)) [
    | inl l ↦ ground (arith, l)
    | inr (cur, l) ↦ elim (Bool-cases (is_stale (key_for app) at c)) [
      | inl e ↦ ground (arith, e)
      | inr e ↦ ground (
        arith,
        l,
        e,
        should_apply_fresh cur app at timed (h.normal (key_for app) cur l)
            (λ t. fresh_floor c (key_for app) cur at t h e l),
      )
    ]
  ]

  -- The same for a delete; it reports whether the app was there.
  pub delete_checked_lem :
      (c : Cache) (app : App) (at updated_at : Time)
      → IsConsistent c
      → IsTimed app at
      → delete_checked parse_time app at updated_at c ≡ (
          if is_stale (key_for app) at c then (c, returned (key_for app) false) else (
            delete_app (key_for app) at updated_at c,
            returned (key_for app) (has (key_for app) c.apps),
          ))
  unfolding delete_checked
  delete_checked_lem c app at u h timed = elim (Option-cases (lookup (key_for app) c.apps)) [
    | inl l ↦ ground (arith, l)
    | inr (cur, l) ↦ elim (Bool-cases (is_stale (key_for app) at c)) [
      | inl e ↦ ground (arith, e)
      | inr e ↦ ground (
        arith,
        l,
        e,
        should_apply_fresh cur app at timed (h.normal (key_for app) cur l)
            (λ t. fresh_floor c (key_for app) cur at t h e l),
      )
    ]
  ]
