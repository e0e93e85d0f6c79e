-- ===== src/Store/Reload/Load/Entry.antt =====
-- The two ways of internal/store/store.go into a reload, the background poll and the forced reload,
-- and the watchers of the store's version.
use mathlib.Core.Path.{subst}
use aap_config_server.Base.{
  ℕ, suc, ◌≤◌, String, ◌≡◌, refl, sym, ap, ◌∙◌, Bool, true, false, none, some, List, [], ◌∷◌,
  is_some, inl, inr, ◌⊎◌, Bool-cases, Option-cases, arith, ◌≢◌, eq_iff,
}
use aap_config_server.Base.Eq.{◌==◌, text_has_eq}
use aap_config_server.Store.Reload.{Parsers, ConfigStore, DataSnapshot, ReloadError, is_degraded}
use aap_config_server.Store.Reload.Load.{
  RepoSnapshot, broken, complete, Pulled, pull_failed, pulled, reload, reload_failed, swap_snapshot,
  refresh_from_repo, reload_from_repo,
}
use aap_config_server.Store.Reload.Load.Laws.{
  failures, reload_failed_lem, reload_swaps, reload_error_of, reload-error, loaded_snapshot,
}

module _ (p : Parsers) where
  -- the version and the count of closed channels move together
  abbrev pub Moves : ConfigStore → ConfigStore → Type 0
  Moves s t =
      (t.snapshot.version ≡ s.snapshot.version) × (t.version_changed ≡ s.version_changed)
      ⊎ (t.snapshot.version ≢ s.snapshot.version) × (t.version_changed ≡ suc s.version_changed)

  swap_snapshot-Moves :
      (done : ℕ) (next : DataSnapshot) (s : ConfigStore) → Moves s (swap_snapshot p done next s)
  unfolding swap_snapshot
  swap_snapshot-Moves done next s = elim (Bool-cases (next.version == s.snapshot.version)) [
    | inl y ↦ rw y (inl ((text_has_eq.agree_iff next.version s.snapshot.version).0 y, refl))
    | inr n ↦ rw n (inr (ground (arith, eq_iff next.version s.snapshot.version), refl))
  ]

  failures_empty :
      (hash : String) (files : List (String × p.Raw))
      → reload_error_of p (complete hash files) ≡ none
      → failures p files ≡ []
  failures_empty hash files h = ground arith

  -- the two ways a reload can end
  reload-cases :
      (now done : ℕ) (repo : RepoSnapshot p.Raw) (s : ConfigStore)
      → ((why : ReloadError) × ((reload p now done repo s).1 ≡ some why)
          × ((reload p now done repo s).0 ≡ reload_failed p done why s))
        ⊎ ((next : DataSnapshot) × ((reload p now done repo s).1 ≡ none)
            × ((reload p now done repo s).0 ≡ swap_snapshot p done next s))
  reload-cases now done repo s = elim (Option-cases (reload p now done repo s).1) [
    | inr (why, h) ↦ inl (why, h, reload_failed_lem p now done repo s why h)
    | inl n ↦ inr (ended repo n)
  ]
    where
      ended :
          (repo : RepoSnapshot p.Raw)
          → (reload p now done repo s).1 ≡ none
          → (next : DataSnapshot) × ((reload p now done repo s).1 ≡ none)
            × ((reload p now done repo s).0 ≡ swap_snapshot p done next s)
      ended (broken why) n = ground (arith, reload-error p now done (broken why) s)
      ended (complete hash files) n = (
        loaded_snapshot p now hash files s.snapshot,
        n,
        reload_swaps p now done hash files s
            (failures_empty hash files (sym (reload-error p now done (complete hash files) s) ∙ n)),
      )

  -- A reload marks the store as degraded exactly when it ends with an error, and closes the
  -- watchers' channel exactly when the version of the served snapshot becomes another one.
  pub reload-Moves :
      (now done : ℕ) (repo : RepoSnapshot p.Raw) (s : ConfigStore)
      → (is_degraded (reload p now done repo s).0 ≡ is_some (reload p now done repo s).1)
        × Moves s (reload p now done repo s).0
  unfolding swap_snapshot
  reload-Moves now done repo s = elim (reload-cases now done repo s) [
    | inl (why, h, t) ↦
        (ap is_degraded t ∙ sym (ap is_some h), subst (Moves s) (sym t) (inl (refl, refl)))
    | inr (next, h, t) ↦ (
      ap is_degraded t ∙ sym (ap is_some h),
      subst (Moves s) (sym t) (swap_snapshot-Moves done next s),
    )
  ]

-- one reload: the two readings of the clock and what the repository gives
abbrev pub Attempt : Parsers → Type 0
Attempt p = ℕ × (ℕ × RepoSnapshot p.Raw)

unfoldable pub reloads : (p : Parsers) → List (Attempt p) → ConfigStore → ConfigStore
reloads p [] s = s
reloads p ((now, (done, repo)) ∷ attempts) s = reloads p attempts (reload p now done repo s).0

Moves-le : (p : Parsers) (s t : ConfigStore) → Moves p s t → s.version_changed ≤ t.version_changed
Moves-le p s t (inl h) = omega (arith, h.1)
Moves-le p s t (inr h) = omega (arith, h.1)

reloads-le :
    (p : Parsers) (attempts : List (Attempt p)) (s : ConfigStore)
    → s.version_changed ≤ (reloads p attempts s).version_changed
unfolding reloads
reloads-le p [] s = omega arith
reloads-le p ((now, (done, repo)) ∷ attempts) s =
    let next = (reload p now done repo s).0 in
    omega (arith, Moves-le p s next (reload-Moves p now done repo s).1, reloads-le p attempts next)

-- No watcher sleeps through a change: over any sequence of reloads, successful or not, a channel
-- that was still open when its version was read stays open only while that version is served.
pub reloads_wake :
    (p : Parsers) (attempts : List (Attempt p)) (s : ConfigStore)
    → (reloads p attempts s).version_changed ≡ s.version_changed
    → (reloads p attempts s).snapshot.version ≡ s.snapshot.version
unfolding reloads
reloads_wake p [] s h = refl
reloads_wake p ((now, (done, repo)) ∷ attempts) s h =
    let next = (reload p now done repo s).0 in
    elim (reload-Moves p now done repo s).1 [
      | inl k ↦ reloads_wake p attempts next (h ∙ sym k.1) ∙ k.0
      | inr k ↦ absurd (omega (arith, k.1, h, reloads-le p attempts next))
    ]

module _ (p : Parsers) where
  -- A background poll that does not report an update keeps the snapshot that is being served and
  -- wakes no watcher, whether the pull failed, nothing moved or the new commit does not parse.
  pub refresh_from_repo_unchanged :
      (now done : ℕ) (pull : Pulled) (repo : RepoSnapshot p.Raw) (s : ConfigStore)
      → (refresh_from_repo p now done pull repo s).1.0 ≡ false
      → ((refresh_from_repo p now done pull repo s).0.snapshot ≡ s.snapshot)
        × ((refresh_from_repo p now done pull repo s).0.version_changed ≡ s.version_changed)
  unfolding refresh_from_repo
  refresh_from_repo_unchanged now done (pull_failed why) repo s h = (refl, refl)
  refresh_from_repo_unchanged now done (pulled hash false) repo s h = (refl, refl)
  refresh_from_repo_unchanged now done (pulled hash true) repo s h =
      elim (reload-cases p now done repo s) [
        | inl (why, e, t) ↦ (
          ground (arith, e, ap (λ u. u.snapshot) t),
          ground (arith, e, ap (λ u. u.version_changed) t),
        )
        | inr (next, e, t) ↦ ground (arith, e)
      ]

  reload_from_repo_store :
      (now done : ℕ) (head : String) (moved : Bool) (repo : RepoSnapshot p.Raw) (s : ConfigStore)
      → (reload_from_repo p now done (pulled head moved) repo s).0 ≡ (reload p now done repo s).0
  unfolding reload_from_repo
  reload_from_repo_store now done head moved repo s = ground arith

  no_error :
      (hash : String) (files : List (String × p.Raw))
      → failures p files ≡ []
      → reload_error_of p (complete hash files) ≡ none
  no_error hash files h = ground arith

  -- A forced reload of a degraded store in which every file parses ends without an error, reports
  -- an update and leaves the store not degraded, even if the pull moved nothing.
  pub reload_from_repo_recovers :
      (now done : ℕ) (head hash : String) (moved : Bool) (files : List (String × p.Raw))
      (s : ConfigStore)
      → failures p files ≡ []
      → is_degraded s ≡ true
      → (is_degraded (reload_from_repo p now done (pulled head moved) (complete hash files) s).0
          ≡ false)
        × ((reload_from_repo p now done (pulled head moved) (complete hash files) s).1
            ≡ (true, none))
  unfolding reload_from_repo
  reload_from_repo_recovers now done head hash moved files s h d =
      let ended : (reload p now done (complete hash files) s).1 ≡ none =
        reload-error p now done (complete hash files) s ∙ no_error hash files h in
      let sound = (reload-Moves p now done (complete hash files) s).0 ∙ ap is_some ended in
      (
        ap is_degraded (reload_from_repo_store now done head moved (complete hash files) s) ∙ sound,
        ground (arith, ended, d),
      )
