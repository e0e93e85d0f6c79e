-- ===== src/Registry/Cache/Runs.antt =====
-- internal/registry/cache.go as a last-writer-wins register: runs of webhook events.
use aap_config_server.Base.{
  String, ◌≡◌, ◌≢◌, ◌∙◌, sym, refl, Option, none, some, List, [], ◌∷◌, ◌++◌, arith, All, ap,
  All-swap,
}
use aap_config_server.Base.Eq.{text_has_eq}
use aap_config_server.Base.Map.{lookup}
use aap_config_server.Registry.App.{Time, App, Key, key_eq, key_beq_iff}
use aap_config_server.Registry.Cache.{Cache, new_cache}
use aap_config_server.Registry.Cache.Consistent.{IsConsistent}
use aap_config_server.Registry.Cache.Preserve.{upsert-IsConsistent, delete-IsConsistent}
use mathlib.Core.Path.{fun_ext}
use aap_config_server.Registry.Cache.Events.{
  Event, upserted, deleted, Latest, time_of, app_of, Mirrors, IsSince, effect, register, handle,
  IsWithin, upsert-Mirrors, delete-Mirrors,
}

module _ (parse_time : String → Option Time) where
  IsSince-register :
      (lo : Time) (e : Option (Key × Time × Option App)) (b : Key → Latest)
      → IsSince lo b
      → IsWithin parse_time lo e
      → IsSince lo (register parse_time e b)
  IsSince-register lo none b h w = h
  IsSince-register lo (some (key, t, a)) b h w = λ k v p. ground (arith, h k v, key_beq_iff key k)

  -- A run of events, each with the time at which it is handled.
  unfoldable pub run : List (Event × Time) → Cache → Cache
  run [] c = c
  run ((ev, u) ∷ evs) c = run evs (handle parse_time ev u c)

  -- The same run on the registers alone: the greatest event time wins, the later call among equals.
  abbrev pub expected : List (Event × Time) → (Key → Latest) → Key → Latest
  expected [] b = b
  expected ((ev, u) ∷ evs) b = expected evs (register parse_time (effect parse_time ev) b)

  handle-Mirrors :
      (c : Cache) (b : Key → Latest) (lo u : Time) (ev : Event)
      → IsConsistent parse_time c
      → Mirrors c b
      → IsSince lo b
      → IsWithin parse_time lo (effect parse_time ev)
      → IsConsistent parse_time (handle parse_time ev u c)
        × Mirrors (handle parse_time ev u c) (register parse_time (effect parse_time ev) b)
  handle-Mirrors c b lo u (upserted app) h m s w =
      (upsert-IsConsistent parse_time c app u h, upsert-Mirrors parse_time c b lo u app h m s w)
  handle-Mirrors c b lo u (deleted app) h m s w =
      (delete-IsConsistent parse_time c app u h, delete-Mirrors parse_time c b lo u app h m s w)

  run-Mirrors :
      (evs : List (Event × Time)) (c : Cache) (b : Key → Latest) (lo : Time)
      → IsConsistent parse_time c
      → Mirrors c b
      → IsSince lo b
      → All (λ e. IsWithin parse_time lo (effect parse_time e.0)) evs
      → Mirrors (run evs c) (expected evs b)
  unfolding run
  run-Mirrors [] c b lo h m s w = m
  run-Mirrors ((ev, u) ∷ evs) c b lo h m s w =
      let (h', m') = handle-Mirrors c b lo u ev h m s w.0 in
      run-Mirrors evs (handle parse_time ev u c) (register parse_time (effect parse_time ev) b) lo
        h' m' (IsSince-register lo (effect parse_time ev) b s w.0) w.1

  pub new_cache-IsConsistent : IsConsistent parse_time new_cache
  unfolding lookup
  new_cache-IsConsistent = record {
    distinct = tt;
    keyed = λ k a l. cc;
    normal = λ k a l. cc;
    floored = λ k a t l g p. cc;
  }

  -- The cache is a last-writer-wins register. After any upserts and deletes on a new cache, whose
  -- event times lie within one retention window, the app and the watermark of every key are those
  -- of the greatest event time seen for it, the later call among equals; refused events count for
  -- nothing, and so do the times at which the events are handled.
  pub run_latest :
      (evs : List (Event × Time)) (lo : Time) (k : Key)
      → All (λ e. IsWithin parse_time lo (effect parse_time e.0)) evs
      → (lookup k (run evs new_cache).apps ≡ app_of (expected evs (λ _. none) k))
        × (lookup k (run evs new_cache).last_event_at ≡ time_of (expected evs (λ _. none) k))
  run_latest evs lo k w =
      let m : Mirrors (run evs new_cache) (expected evs (λ _. none)) =
        run-Mirrors evs new_cache (λ _. none) lo new_cache-IsConsistent
          (unfold lookup in record { times = λ k. refl; apps = λ k. refl }) (λ k v p. cc) w in
      (m.apps k, m.times k)

  -- two events that do not compete: refused ones, ones for different keys, ones of different times
  abbrev pub IsApart : Option (Key × Time × Option App) → Option (Key × Time × Option App) → Type 0
  IsApart (some (k, t, a)) (some (j, s, b)) = (k ≡ j) → t ≢ s
  IsApart _ _ = Unit

  register_comm :
      (x y : Option (Key × Time × Option App)) (b : Key → Latest) (k : Key)
      → IsApart x y
      → register parse_time x (register parse_time y b) k
        ≡ register parse_time y (register parse_time x b) k
  register_comm none y b k h = refl
  register_comm (some (i, t, a)) none b k h = refl
  register_comm (some (i, t, a)) (some (j, s, c)) b k h =
      ground (arith, key_beq_iff i k, key_beq_iff j k, key_beq_iff i j)

  expected_swap :
      (xs ys : List (Event × Time)) (x y : Event × Time) (b : Key → Latest)
      → IsApart (effect parse_time x.0) (effect parse_time y.0)
      → expected (xs ++ x ∷ y ∷ ys) b ≡ expected (xs ++ y ∷ x ∷ ys) b
  expected_swap [] ys (x, u) (y, v) b h =
      ap (expected ys)
        (fun_ext λ k. sym (register_comm (effect parse_time x) (effect parse_time y) b k h))
  expected_swap ((z, w) ∷ xs) ys x y b h =
      expected_swap xs ys x y (register parse_time (effect parse_time z) b) h

  -- On a new cache and within one retention window, the order of two neighbouring events does not
  -- matter, unless they are for one key and of one time: swapping them changes the app or the
  -- watermark of no key.
  pub run_swap :
      (xs ys : List (Event × Time)) (x y : Event × Time) (lo : Time) (k : Key)
      → All (λ e. IsWithin parse_time lo (effect parse_time e.0)) (xs ++ x ∷ y ∷ ys)
      → IsApart (effect parse_time x.0) (effect parse_time y.0)
      → (lookup k (run (xs ++ x ∷ y ∷ ys) new_cache).apps
          ≡ lookup k (run (xs ++ y ∷ x ∷ ys) new_cache).apps)
        × (lookup k (run (xs ++ x ∷ y ∷ ys) new_cache).last_event_at
            ≡ lookup k (run (xs ++ y ∷ x ∷ ys) new_cache).last_event_at)
  run_swap xs ys x y lo k w h =
      let one = run_latest (xs ++ x ∷ y ∷ ys) lo k w in
      let two = run_latest (xs ++ y ∷ x ∷ ys) lo k (All-swap _ xs ys x y w) in
      let same = expected_swap xs ys x y (λ _. none) h in
      (
        one.0 ∙ ap (λ f. app_of (f k)) same ∙ sym two.0,
        one.1 ∙ ap (λ f. time_of (f k)) same ∙ sym two.1,
      )
