-- ===== src/Registry/Cache/Watermarks.antt =====
-- The watermarks of internal/registry/cache.go: what the helpers do to the event time of each key.
use aap_config_server.Base.{◌+◌, ◌≤◌, ◌≡◌, not, ◌||◌, Option, none, some, arith, ltb, if◌then◌else◌}
use aap_config_server.Base.Eq.{◌==◌}
use aap_config_server.Base.Map.{
  Map, lookup, has, lookup-insert, kept, HasDistinctKeys, lookup-retain, HasDistinctKeys-insert,
}
use aap_config_server.Registry.App.{Time, Key, key_eq, key_beq_iff}
use aap_config_server.Registry.Cache.{
  Cache, watermark_retention, remember_event_time, prune_expired_tombstones, is_stale,
}

-- the later of an event time and a recorded one
abbrev pub raised : Time → Option Time → Time
raised t none = t
raised t (some w) = if ltb w t then t else w

pub lookup-remember :
    (k j : Key) (t : Time) (m : Map Key Time)
    → lookup j (remember_event_time k t m)
      ≡ (if k == j then some (raised t (lookup k m)) else lookup j m)
unfolding remember_event_time
lookup-remember k j t m = ground (arith, lookup-insert k j t m, key_beq_iff k j)

pub HasDistinctKeys-remember :
    (k : Key) (t : Time) (m : Map Key Time)
    → HasDistinctKeys m
    → HasDistinctKeys (remember_event_time k t m)
unfolding remember_event_time
HasDistinctKeys-remember k t m h = ground (arith, HasDistinctKeys-insert k t m h)

-- a recorded watermark survives `remember_event_time`, raised or not
pub remember-ge :
    (k j : Key) (t : Time) (m : Map Key Time) (w : Time)
    → lookup j m ≡ some w
    → (w' : Time) × (lookup j (remember_event_time k t m) ≡ some w') × (w ≤ w')
remember-ge k j t m w h = (
  if k == j then raised t (some w) else w,
  ground (arith, lookup-remember k j t m, key_beq_iff k j),
  ground arith,
)

pub lookup-prune :
    (now : Time) (c : Cache) (k : Key)
    → HasDistinctKeys c.last_event_at
    → lookup k (prune_expired_tombstones now c).last_event_at
      ≡ kept
          (λ key w. has key c.apps || not (ltb (w + watermark_retention) now))
          k
          (lookup k c.last_event_at)
unfolding prune_expired_tombstones
lookup-prune now c k h = lookup-retain _ k c.last_event_at h

-- Pruning by an event's own time never changes whether that event is stale.
pub is_stale-prune :
    (now : Time) (c : Cache) (k : Key)
    → HasDistinctKeys c.last_event_at
    → is_stale k now (prune_expired_tombstones now c) ≡ is_stale k now c
is_stale-prune now c k h = ground (arith, lookup-prune now c k h)
