-- ===== src/Registry/Cache/Replace.antt =====
-- internal/registry/cache.go, `Replace`: what a new snapshot does to the apps and the watermarks.
use mathlib.Core.Path.{subst}
use aap_config_server.Base.{
  ◌+◌, ◌≤◌, ◌<◌, String, ◌≡◌, ◌⊎◌, ◌∙◌, refl, Bool, true, false, Option, none, some, List, [], ◌∷◌,
  arith, ltb, if◌then◌else◌, Option-cases, Bool-cases, inl, inr, is_some, ◌||◌,
}
use aap_config_server.Base.Eq.{◌==◌, text_has_eq}
use aap_config_server.Base.Map.{
  Map, lookup, has, lookup-insert, HasDistinctKeys, lookup-retain, HasDistinctKeys-retain,
}
use aap_config_server.Registry.App.{
  Time, App, Key, key_for, key_eq, key_beq_iff, ok, err, IsNormal, normalize_app,
  normalize_app_idempotent,
}
use aap_config_server.Registry.Cache.{
  Cache, watermark_retention, remember_event_time, remember_all, parse_event_time, with_event_time,
  scan_app, scan_apps, replace,
}
use aap_config_server.Registry.Cache.Watermarks.{HasDistinctKeys-remember, remember-ge}
use aap_config_server.Registry.Cache.Consistent.{IsConsistent}
use aap_config_server.Registry.Cache.Preserve.{inserted, floor_set, Result-cases}

AtLeast : Key → Time → Map Key Time → Type 0
AtLeast k t m = (w : Time) × (lookup k m ≡ some w) × (t ≤ w)

remember_all-ge :
    (k : Key) (t : Time) (times m : Map Key Time)
    → AtLeast k t m
    → AtLeast k t (remember_all times m)
unfolding remember_all AtLeast
remember_all-ge k t [] m h = h
remember_all-ge k t ((j, v) ∷ times) m (w, l, le) =
    let (w', l', le') = remember-ge j k v m w l in
    remember_all-ge k t times (remember_event_time j v m) (w', l', omega arith)

AtLeast-remember : (k : Key) (t : Time) (m : Map Key Time) → AtLeast k t (remember_event_time k t m)
unfolding AtLeast
AtLeast-remember k t m = floor_set k t t m (omega arith)

remember_all-AtLeast :
    (k : Key) (t : Time) (times m : Map Key Time)
    → lookup k times ≡ some t
    → AtLeast k t (remember_all times m)
unfolding remember_all lookup
remember_all-AtLeast k t [] m h = cc
remember_all-AtLeast k t ((j, v) ∷ times) m h = elim (Bool-cases (j == k)) [
  | inl y ↦ remember_all-ge k t times (remember_event_time j v m) (
      subst (λ i. AtLeast i t (remember_event_time j v m)) ((key_beq_iff j k).0 y)
        (subst (λ s. AtLeast j s (remember_event_time j v m)) (ground (arith, y))
          (AtLeast-remember j v m)))
  | inr n ↦ remember_all-AtLeast k t times (remember_event_time j v m) (ground (arith, n))
]

HasDistinctKeys-remember_all :
    (times m : Map Key Time) → HasDistinctKeys m → HasDistinctKeys (remember_all times m)
unfolding remember_all
HasDistinctKeys-remember_all [] m h = h
HasDistinctKeys-remember_all ((j, v) ∷ times) m h =
    HasDistinctKeys-remember_all times (remember_event_time j v m)
      (HasDistinctKeys-remember j v m h)

-- the watermarks that `Replace` carries over: of apps in the snapshot, and of young tombstones
abbrev keeps : Time → Map Key App → Key → Time → Bool
keeps loaded_at normalized k w = has k normalized || ltb loaded_at (w + watermark_retention)

module _ (parse_time : String → Option Time) where
  -- what the first loop has established of the maps that it builds
  record Scanned (normalized : Map Key App) (times : Map Key Time) : Type 0 where
    keyed : (k : Key) (a : App) → lookup k normalized ≡ some a → key_for a ≡ k
    normal : (k : Key) (a : App) → lookup k normalized ≡ some a → IsNormal parse_time a
    timed :
        (k : Key) (a : App) (t : Time)
        → lookup k normalized ≡ some a
        → (a.updated_at == "") ≡ false
        → parse_time a.updated_at ≡ some t
        → lookup k times ≡ some t

  with_event_time_self :
      (k : Key) (raw : String) (t : Time) (times : Map Key Time)
      → (raw == "") ≡ false
      → parse_time raw ≡ some t
      → lookup k (with_event_time parse_time k (parse_event_time parse_time raw) times) ≡ some t
  with_event_time_self k raw t times g p =
      ground (arith, lookup-insert k k t times, key_beq_iff k k)

  with_event_time_ne :
      (k j : Key) (raw : String) (times : Map Key Time)
      → (k == j) ≡ false
      → lookup j (with_event_time parse_time k (parse_event_time parse_time raw) times)
        ≡ lookup j times
  with_event_time_ne k j raw times n = elim (Option-cases (parse_time raw)) [
    | inl e ↦ ground arith
    | inr (t, e) ↦ ground (arith, lookup-insert k j t times)
  ]

  scan_app-Scanned :
      (app : App) (normalized : Map Key App) (times : Map Key Time)
      → Scanned normalized times
      → Scanned
          (scan_app parse_time app (normalized, times)).0
          (scan_app parse_time app (normalized, times)).1
  unfolding scan_app
  scan_app-Scanned app m times h = elim (Result-cases parse_time (normalize_app parse_time app)) [
    | inl (e, bad) ↦ rw (bad, scan_app) h
    | inr (next, good) ↦
        let n = (normalize_app_idempotent parse_time app next good).0 in
        rw (good, scan_app)
          (record {
            keyed = λ k a l. elim (inserted (key_for next) k a next m l) [
              | inl (e, p) ↦ subst (λ x. key_for x ≡ k) p e
              | inr (e, q) ↦ h.keyed k a q
            ];
            normal = λ k a l. elim (inserted (key_for next) k a next m l) [
              | inl (e, p) ↦ subst (IsNormal parse_time) p n
              | inr (e, q) ↦ h.normal k a q
            ];
            timed = λ k a t l g p. elim (inserted (key_for next) k a next m l) [
              | inl (e, same) ↦
                  let k' = key_for next in
                  subst
                    (λ j.
                      lookup j (
                        with_event_time parse_time k' (parse_event_time parse_time next.updated_at)
                          times)
                      ≡ some t)
                    e
                    (with_event_time_self k' next.updated_at t times (ground (arith, same, g))
                      (ground (arith, same, p)))
              | inr (e, q) ↦
                  with_event_time_ne (key_for next) k next.updated_at times e ∙ h.timed k a t q g p
            ];
          })
  ]

  scan_apps-Scanned :
      (apps : List App) (normalized : Map Key App) (times : Map Key Time)
      → Scanned normalized times
      → Scanned
          (scan_apps parse_time apps (normalized, times)).0
          (scan_apps parse_time apps (normalized, times)).1
  unfolding scan_apps
  scan_apps-Scanned [] m times h = h
  scan_apps-Scanned (app ∷ apps) m times h =
      scan_apps-Scanned apps (scan_app parse_time app (m, times)).0
        (scan_app parse_time app (m, times)).1 (scan_app-Scanned app m times h)

  Scanned-empty : Scanned [] []
  unfolding lookup
  Scanned-empty = record { keyed = λ k a l. cc; normal = λ k a l. cc; timed = λ k a t l g p. cc }

  -- A new snapshot, whatever its entries, leaves a consistent cache.
  pub replace-IsConsistent :
      (apps : List App) (loaded_at : Time) (c : Cache)
      → IsConsistent parse_time c
      → IsConsistent parse_time (replace parse_time apps loaded_at c)
  unfolding replace
  replace-IsConsistent apps loaded_at c h =
      let s = scan_apps-Scanned apps [] [] Scanned-empty in
      let (normalized, times) = scan_apps parse_time apps ([], []) in
      record {
        distinct =
            HasDistinctKeys-remember_all times _
              (HasDistinctKeys-retain (keeps loaded_at normalized) c.last_event_at h.distinct);
        keyed = s.keyed;
        normal = s.normal;
        floored =
            λ k a t l g p. unfold AtLeast in remember_all-AtLeast k t _ _ (s.timed k a t l g p);
      }

  -- the last entry for the key `k` that is well formed, in its normal form
  abbrev pub last_entry : Key → List App → Option App
  last_entry k [] = none
  last_entry k (app ∷ apps) = elim (last_entry k apps) [
    | some later ↦ some later
    | none ↦ elim (normalize_app parse_time app) [
      | err e ↦ none
      | ok next ↦ if key_for next == k then some next else none
    ]
  ]

  scan_apps-last_entry :
      (k : Key) (apps : List App) (m : Map Key App) (times : Map Key Time)
      → lookup k (scan_apps parse_time apps (m, times)).0
        ≡ elim (last_entry k apps) [ some a ↦ some a | none ↦ lookup k m ]
  unfolding scan_apps
  scan_apps-last_entry k [] m times = refl
  scan_apps-last_entry k (app ∷ apps) m times =
      let (m', times') = scan_app parse_time app (m, times) in
      elim (Result-cases parse_time (normalize_app parse_time app)) [
        | inl (e, bad) ↦
            scan_apps-last_entry k apps m' times' ∙ unfold scan_app in ground (arith, bad)
        | inr (next, good) ↦
            scan_apps-last_entry k apps m' times'
            ∙ unfold scan_app in ground (arith, good, lookup-insert (key_for next) k next m)
      ]

  -- After `Replace` the cache holds exactly the well-formed entries of the snapshot, the last one of
  -- each key, and a key that the snapshot has not is gone, whatever the cache held before.
  pub replace_apps :
      (apps : List App) (loaded_at : Time) (c : Cache) (k : Key)
      → lookup k (replace parse_time apps loaded_at c).apps ≡ last_entry k apps
  unfolding replace lookup
  replace_apps apps loaded_at c k = ground (arith, scan_apps-last_entry k apps [] [])

  -- `Replace` lowers no watermark that it keeps, and it keeps those of the apps in the snapshot and
  -- those younger than the retention: an event before such a watermark stays stale.
  pub replace_watermark :
      (apps : List App) (loaded_at : Time) (c : Cache) (k : Key) (w : Time)
      → IsConsistent parse_time c
      → lookup k c.last_event_at ≡ some w
      → (is_some (last_entry k apps) ≡ true) ⊎ (loaded_at < w + watermark_retention)
      → (w' : Time) × (lookup k (replace parse_time apps loaded_at c).last_event_at ≡ some w')
        × (w ≤ w')
  unfolding replace
  replace_watermark apps loaded_at c k w h l young =
      let (normalized, times) = scan_apps parse_time apps ([], []) in
      let still : has k normalized ≡ is_some (last_entry k apps) =
        unfold lookup in ground (arith, scan_apps-last_entry k apps [] []) in
      unfold AtLeast in
      remember_all-ge k w times _ (
        w,
        ground (
          arith,
          lookup-retain (keeps loaded_at normalized) k c.last_event_at h.distinct,
          still,
          l,
        ),
        omega arith,
      )
