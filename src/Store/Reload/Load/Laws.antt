-- ===== src/Store/Reload/Load/Laws.antt =====
-- When a reload of internal/store/store.go swaps the snapshot, and what it leaves when it does not.
use aap_config_server.Base.{
  ℕ, String, ◌≡◌, refl, sym, ap, ◌∙◌, true, Option, none, some, List, [], ◌∷◌, ◌++◌, if◌then◌else◌,
  is_some, arith,
}
use mathlib.Core.Option.{some_inj}
use mathlib.Core.List.{append-nil, append_assoc}
use aap_config_server.Base.Eq.{text_has_eq}
use aap_config_server.Base.Map.{Map, lookup}
use aap_config_server.Store.Types.{ServiceData}
use aap_config_server.Store.Paths.{FileType, classify_path, classify_defaults_path}
use aap_config_server.Store.Reload.{
  Parsed, parsed, failed, Parsers, DataSnapshot, ReloadError, repo_snapshot, parse_failures,
  ConfigStore, is_degraded,
}
use aap_config_server.Store.Reload.Load.{
  Loading, nothing_loaded, RepoSnapshot, broken, complete, parse_file, parse_and_store,
  parse_and_store_defaults, load_file, load_files, reload_failed, swap_snapshot, reload_loaded,
  reload, failure_at, entry_at, finish,
}

-- a parser's message under the file's path
abbrev pub message_at : String → Option String → List (String × String)
message_at path none = []
message_at path (some why) = (path, why) ∷ []

abbrev pub message_of : {A : Type 0} → Parsed A → Option String
message_of (parsed a) = none
message_of (failed why) = some why

module _ (p : Parsers) where
  -- what the parser of a path says of its contents, whatever was loaded before
  abbrev pub parser_message : FileType → p.Raw → Option String
  parser_message FileType.config raw = message_of (p.parse_config raw)
  parser_message FileType.env_vars raw = message_of (p.parse_env_vars raw)
  parser_message FileType.secrets raw = message_of (p.parse_secrets raw)

  -- the errors of one file: none for a path that the store does not read
  abbrev pub keyed_message : Option (String × FileType) → p.Raw → Option String
  keyed_message none raw = none
  keyed_message (some (key, kind)) raw = parser_message kind raw

  abbrev pub file_message : String → p.Raw → Option String
  file_message path raw =
      if is_some (classify_defaults_path path)
      then message_of (p.parse_defaults raw)
      else keyed_message (classify_path path) raw

  -- every file that does not parse, in the order of the snapshot
  unfoldable pub failures : List (String × p.Raw) → List (String × String)
  failures [] = []
  failures ((path, raw) ∷ files) = message_at path (file_message path raw) ++ failures files

  failure_at-parse_file :
      (path : String) (kind : FileType) (raw : p.Raw) (sd : ServiceData)
      → failure_at p path (parse_file p kind raw sd) ≡ message_at path (parser_message kind raw)
  unfolding parse_file
  failure_at-parse_file path FileType.config raw sd = ground arith
  failure_at-parse_file path FileType.env_vars raw sd = ground arith
  failure_at-parse_file path FileType.secrets raw sd = ground arith

  parse_and_store-errors :
      (at : Option (String × FileType)) (path : String) (raw : p.Raw)
      (services : Map String ServiceData)
      → (parse_and_store p at path raw services).1 ≡ message_at path (keyed_message at raw)
  unfolding parse_and_store
  parse_and_store-errors none path raw services = refl
  parse_and_store-errors (some (key, kind)) path raw services =
      failure_at-parse_file path kind raw (entry_at (lookup key services))

  load_file-errors :
      (path : String) (raw : p.Raw) (l : Loading)
      → (load_file p path raw l).errors ≡ l.errors ++ message_at path (file_message path raw)
  unfolding load_file parse_and_store_defaults
  load_file-errors path raw l =
      ground (
        arith,
        parse_and_store-errors (classify_path path) path raw l.services,
        append-nil l.errors,
      )

  load_files-errors :
      (l : Loading) (files : List (String × p.Raw))
      → (load_files p l files).errors ≡ l.errors ++ failures files
  unfolding load_files failures
  load_files-errors l [] = sym (append-nil l.errors)
  load_files-errors l ((path, raw) ∷ files) =
      load_files-errors (load_file p path raw l) files
      ∙ (ap (λ es. es ++ failures files) (load_file-errors path raw l)
          ∙ append_assoc l.errors (message_at path (file_message path raw)) (failures files))

  -- the error that a reload ends with
  abbrev pub reload_error_of : RepoSnapshot p.Raw → Option ReloadError
  reload_error_of (broken why) = some (repo_snapshot why)
  reload_error_of (complete hash files) = elim (failures files) [
    | [] ↦ none
    | e ∷ es ↦ some (parse_failures (e ∷ es))
  ]

  reload_loaded-error :
      (now done : ℕ) (hash : String) (l : Loading) (s : ConfigStore)
      → (reload_loaded p now done hash l s).1
        ≡ elim l.errors [ [] ↦ none | e ∷ es ↦ some (parse_failures (e ∷ es)) ]
  unfolding reload_loaded
  reload_loaded-error now done hash l s = ground arith

  reload_loaded_failed :
      (now done : ℕ) (hash : String) (l : Loading) (s : ConfigStore) (why : ReloadError)
      → (reload_loaded p now done hash l s).1 ≡ some why
      → (reload_loaded p now done hash l s).0 ≡ reload_failed p done why s
  unfolding reload_loaded
  reload_loaded_failed now done hash l s why h = ground arith

  reload_loaded_swaps :
      (now done : ℕ) (hash : String) (l : Loading) (s : ConfigStore)
      → l.errors ≡ []
      → (reload_loaded p now done hash l s).0
        ≡ swap_snapshot p done
            (record {
              data_of = finish p s.snapshot now hash l.services l.defaults;
              version = hash;
            })
            s
  unfolding reload_loaded
  reload_loaded_swaps now done hash l s h = ground arith

  -- A reload ends with exactly these errors: the one of the repository's snapshot, or every file
  -- that does not parse, in order; and with none where all files parse.
  pub reload-error :
      (now done : ℕ) (repo : RepoSnapshot p.Raw) (s : ConfigStore)
      → (reload p now done repo s).1 ≡ reload_error_of repo
  unfolding reload
  reload-error now done (broken why) s = refl
  reload-error now done (complete hash files) s =
      reload_loaded-error now done hash (load_files p nothing_loaded files) s
      ∙ ap
          (λ errors. elim errors as (λ x. Option ReloadError) [
            | [] ↦ none
            | e ∷ es ↦ some (parse_failures (e ∷ es))
          ])
          (load_files-errors nothing_loaded files)

  pub reload_failed_lem :
      (now done : ℕ) (repo : RepoSnapshot p.Raw) (s : ConfigStore) (why : ReloadError)
      → (reload p now done repo s).1 ≡ some why
      → (reload p now done repo s).0 ≡ reload_failed p done why s
  unfolding reload
  reload_failed_lem now done (broken reason) s why h = cc (some_inj.0 h)
  reload_failed_lem now done (complete hash files) s why h =
      reload_loaded_failed now done hash (load_files p nothing_loaded files) s why h

  -- A reload that ends with an error keeps the snapshot that is being served, wakes no watcher and
  -- records that error at its time, which marks the store as degraded.
  pub reload_fail_closed :
      (now done : ℕ) (repo : RepoSnapshot p.Raw) (s : ConfigStore) (why : ReloadError)
      → (reload p now done repo s).1 ≡ some why
      → ((reload p now done repo s).0.snapshot ≡ s.snapshot)
        × ((reload p now done repo s).0.version_changed ≡ s.version_changed)
        × ((reload p now done repo s).0.last_reload ≡ some (record { at = done; err = some why }))
        × (is_degraded (reload p now done repo s).0 ≡ true)
  reload_fail_closed now done repo s why h =
      let kept = reload_failed_lem now done repo s why h in
      (
        ap (λ t. t.snapshot) kept,
        ap (λ t. t.version_changed) kept,
        ap (λ t. t.last_reload) kept,
        ap is_degraded kept,
      )

  -- the snapshot that a reload of parsed files leads to
  abbrev pub loaded_snapshot : ℕ → String → List (String × p.Raw) → DataSnapshot → DataSnapshot
  loaded_snapshot now hash files prev =
      let l = load_files p nothing_loaded files in
      record { data_of = finish p prev now hash l.services l.defaults; version = hash }

  -- A reload in which every file parses swaps in the snapshot of these files at the new commit, and
  -- wakes the watchers if the commit is another one.
  pub reload_swaps :
      (now done : ℕ) (hash : String) (files : List (String × p.Raw)) (s : ConfigStore)
      → failures files ≡ []
      → (reload p now done (complete hash files) s).0
        ≡ swap_snapshot p done (loaded_snapshot now hash files s.snapshot) s
  unfolding reload
  reload_swaps now done hash files s h =
      reload_loaded_swaps now done hash (load_files p nothing_loaded files) s
        (load_files-errors nothing_loaded files ∙ h)
