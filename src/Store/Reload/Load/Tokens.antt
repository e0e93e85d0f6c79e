-- ===== src/Store/Reload/Load/Tokens.antt =====
-- The version tokens of internal/store/store.go across a reload: what a watcher of one resource of
-- one service is told.
use aap_config_server.Base.{
  ℕ, String, ◌≡◌, refl, sym, ap, ◌∙◌, Bool, true, false, ◌&&◌, Option, none, some, List, [], inl,
  inr, ◌⊎◌, Bool-cases, arith, ◌≢◌, eq_iff,
}
use mathlib.Core.Option.{some_inj}
use aap_config_server.Base.Eq.{◌==◌, text_has_eq}
use aap_config_server.Base.Map.{lookup}
use aap_config_server.Base.Text.{split_on}
use aap_config_server.Store.Types.{ServiceData, ServiceKey}
use aap_config_server.Store.Paths.{key_string, slash}
use aap_config_server.Store.Inherit.{DefaultsIndex}
use aap_config_server.Store.Versions.{
  Resource, present, digest_of, version_of, next_resource_version, with_resource_versions,
  resource_version,
}
use aap_config_server.Store.Reload.{
  Parsers, ConfigStore, DataSnapshot, get_config, resource_version_of, with_reload_time,
}
use aap_config_server.Store.Reload.Load.{
  nothing_loaded, complete, entry_at, load_files, reload, swap_snapshot,
}
use aap_config_server.Store.Reload.Load.Laws.{failures, reload_swaps}
use aap_config_server.Store.Reload.Load.Data.{
  gathered, view-load_files, finished, map_entry, lookup-finish,
}
use aap_config_server.Store.Reload.Load.Content.{
  payload, update_payload, payload_follows, inherit_parts-kept, with_reload_time-payload,
}

next_resource_version_kept :
    (r : Resource) (is_present : Bool) (digest hash : String) (old : ServiceData)
    → is_present ≡ present r old
    → digest ≡ digest_of r old
    → (present r old ≡ true → digest_of r old ≢ "")
    → version_of r old ≢ ""
    → next_resource_version is_present digest hash (some old) r ≡ version_of r old
unfolding next_resource_version
next_resource_version_kept r is_present digest hash old e d n v =
    ground
      (arith, e, d, eq_iff digest "", eq_iff digest (digest_of r old), eq_iff (version_of r old) "")

next_resource_version_moved :
    (r : Resource) (digest hash : String) (prev : Option ServiceData)
    → ((old : ServiceData) → prev ≡ some old → (present r old && digest == digest_of r old) ≡ false)
    → next_resource_version true digest hash prev r ≡ hash
unfolding next_resource_version
next_resource_version_moved r digest hash none d = refl
next_resource_version_moved r digest hash (some old) d = ground (arith, d old refl)

version_of-finished :
    (r : Resource) (prev : DataSnapshot) (now : ℕ) (hash key : String) (defaults : DefaultsIndex)
    (sd : ServiceData)
    → version_of r (finished prev now hash defaults key sd)
      ≡ next_resource_version (present r sd) (digest_of r sd) hash (lookup key prev.data_of) r
unfolding with_resource_versions
version_of-finished Resource.config prev now hash key defaults sd =
    ap (λ x. next_resource_version x.0 x.1 hash (lookup key prev.data_of) Resource.config)
      ((inherit_parts-kept (split_on slash key) defaults (with_reload_time now key sd)).1
          Resource.config
        ∙ with_reload_time-payload Resource.config now key sd)
version_of-finished Resource.env_vars prev now hash key defaults sd =
    ap (λ x. next_resource_version x.0 x.1 hash (lookup key prev.data_of) Resource.env_vars)
      ((inherit_parts-kept (split_on slash key) defaults (with_reload_time now key sd)).1
          Resource.env_vars
        ∙ with_reload_time-payload Resource.env_vars now key sd)

version_of-map_entry :
    (r : Resource) (prev : DataSnapshot) (now : ℕ) (hash key : String) (defaults : DefaultsIndex)
    (o : Option ServiceData) (new : ServiceData)
    → map_entry (finished prev now hash defaults key) o ≡ some new
    → version_of r new
      ≡ next_resource_version
          (payload r (entry_at o)).0
          (payload r (entry_at o)).1
          hash
          (lookup key prev.data_of)
          r
version_of-map_entry r prev now hash key defaults none new h = ground arith
version_of-map_entry r prev now hash key defaults (some sd) new h =
    ap (version_of r) (sym (some_inj.0 h)) ∙ version_of-finished r prev now hash key defaults sd

no_payload : (r : Resource) → payload r (entry_at none) ≡ (false, "")
no_payload Resource.config = refl
no_payload Resource.env_vars = refl

resource_version_of-found :
    (s : ConfigStore) (key : ServiceKey) (r : Resource) (new : ServiceData)
    → get_config s key ≡ some new
    → resource_version_of s key r
      ≡ some (resource_version new r s.snapshot.version, s.snapshot.version)
unfolding resource_version_of
resource_version_of-found s key r new h =
    ap
      (λ o. elim o as (λ x. Option (String × String)) [
        | none ↦ none
        | some sd ↦ some (resource_version sd r s.snapshot.version, s.snapshot.version)
      ])
      h

token_of :
    (r : Resource) (sd : ServiceData) (version token hash : String)
    → version_of r sd ≡ token
    → version ≡ hash
    → (token ≢ "") ⊎ (token ≡ hash)
    → ◌≡◌ {A = Option (String × String)}
        (some (resource_version sd r version, version))
        (some (token, hash))
unfolding resource_version
token_of r sd version token hash e w (inl n) =
    let filled : (version_of r sd == "") ≡ false = ground (arith, eq_iff (version_of r sd) "") in
    rw filled (cc (e, w))
token_of r sd version token hash e w (inr t) = elim (Bool-cases (version_of r sd == "")) [
  | inl y ↦ rw y (cc (w, t))
  | inr n ↦ rw n (cc (e, w))
]

module _ (p : Parsers) where
  -- presence and digest of the resource in the files of a snapshot
  abbrev pub payload_in : Resource → ServiceKey → List (String × p.Raw) → Bool × String
  payload_in r key files = gathered p (update_payload p r) (key_string key) (false, "") files

  reloaded_version :
      (r : Resource) (now done : ℕ) (hash : String) (files : List (String × p.Raw))
      (s : ConfigStore) (key : ServiceKey) (new : ServiceData)
      → failures p files ≡ []
      → get_config (reload p now done (complete hash files) s).0 key ≡ some new
      → (version_of r new
          ≡ next_resource_version
              (payload_in r key files).0
              (payload_in r key files).1
              hash
              (get_config s key)
              r)
        × ((reload p now done (complete hash files) s).0.snapshot.version ≡ hash)
  unfolding swap_snapshot lookup
  reloaded_version r now done hash files s key new h found =
      let l = load_files p nothing_loaded files in
      let swapped = reload_swaps p now done hash files s h in
      (
        version_of-map_entry r s.snapshot now hash (key_string key) l.defaults
              (lookup (key_string key) l.services) new
              (sym (lookup-finish p s.snapshot now hash l.services l.defaults (key_string key))
                ∙ (sym (ap (λ t. get_config t key) swapped) ∙ found))
            ∙ ap (λ x. next_resource_version x.0 x.1 hash (get_config s key) r)
                (view-load_files p (payload r) (update_payload p r) (payload_follows p r)
                    (key_string key) nothing_loaded files
                  ∙ ap (λ x. gathered p (update_payload p r) (key_string key) x files)
                      (no_payload r)),
        ap (λ t. t.snapshot.version) swapped,
      )

  -- A reload in which every file parses leaves the version token of a resource as it was if the
  -- files of the new commit hold the resource with the digest it had, or lack it as before: a commit
  -- to the other resource, or to another service, moves the store's version but not this token. The
  -- service is there before and after; the digest of a file that is there is not empty, nor is the
  -- old token.
  pub resource_version_kept :
      (r : Resource) (now done : ℕ) (hash : String) (files : List (String × p.Raw))
      (s : ConfigStore) (key : ServiceKey) (old new : ServiceData)
      → failures p files ≡ []
      → get_config s key ≡ some old
      → get_config (reload p now done (complete hash files) s).0 key ≡ some new
      → payload_in r key files ≡ payload r old
      → (present r old ≡ true → digest_of r old ≢ "")
      → version_of r old ≢ ""
      → resource_version_of (reload p now done (complete hash files) s).0 key r
        ≡ some (version_of r old, hash)
  resource_version_kept r now done hash files s key old new h was found same d v =
      let loaded = reloaded_version r now done hash files s key new h found in
      resource_version_of-found (reload p now done (complete hash files) s).0 key r new found
      ∙ token_of r new (reload p now done (complete hash files) s).0.snapshot.version
          (version_of r old) hash
          (loaded.0
            ∙ (ap
                  (λ o.
                    next_resource_version (payload_in r key files).0 (payload_in r key files).1 hash
                      o r)
                  was
                ∙ next_resource_version_kept r (payload_in r key files).0 (payload_in r key files).1
                    hash old (ap (λ x. x.0) same) (ap (λ x. x.1) same) d v))
          loaded.1 (inl v)

  -- A reload in which every file parses moves the version token of a resource to the new commit if
  -- the files of that commit hold the resource, and the store had no such service, or had it without
  -- the resource or with another digest. The service is there afterwards.
  pub resource_version_moved :
      (r : Resource) (now done : ℕ) (hash digest : String) (files : List (String × p.Raw))
      (s : ConfigStore) (key : ServiceKey) (new : ServiceData)
      → failures p files ≡ []
      → get_config (reload p now done (complete hash files) s).0 key ≡ some new
      → payload_in r key files ≡ (true, digest)
      → ((old : ServiceData)
          → get_config s key ≡ some old
          → (present r old && digest == digest_of r old) ≡ false)
      → resource_version_of (reload p now done (complete hash files) s).0 key r ≡ some (hash, hash)
  resource_version_moved r now done hash digest files s key new h found there differs =
      let loaded = reloaded_version r now done hash files s key new h found in
      resource_version_of-found (reload p now done (complete hash files) s).0 key r new found
      ∙ token_of r new (reload p now done (complete hash files) s).0.snapshot.version hash hash
          (loaded.0
            ∙ (ap (λ x. next_resource_version x.0 x.1 hash (get_config s key) r) there
                ∙ next_resource_version_moved r digest hash (get_config s key) differs))
          loaded.1 (inr refl)
