-- ===== src/Store/Changes/Remove.antt =====
-- internal/store/store.go: DeleteChanges.
use Prim.Native.String.{String, ◌++◌ as str_append}
use aap_config_server.Base.{ℕ, Option, none, some, List, [], ◌∷◌, map}
use aap_config_server.Base.Text.{cut_prefix}
use aap_config_server.Store.Paths.{service_path}
use aap_config_server.Store.Reload.{Parsers, ConfigStore, ReloadError}
use aap_config_server.Store.Reload.Load.{reload}
use aap_config_server.Store.Revert.{joined}
use aap_config_server.Store.Changes.{ChangeError, Result, ok, err, Backend, check_identity}

pub record DeleteRequest : Type 0 where
  pub org : String
  pub project : String
  pub service : String

pub record DeleteResult : Type 0 where
  pub version : String
  pub updated_at : ℕ
  pub deleted_files : List String
  pub reload_error : Option ReloadError

-- `strings.TrimPrefix`
abbrev pub trimmed : String → Option String → String
trimmed s none = s
trimmed s (some rest) = rest

unfoldable pub trim_prefix : String → String → String
trim_prefix prefix s = trimmed s (cut_prefix prefix s)

abbrev pub deleted_paths : String → List String
deleted_paths svc =
    joined svc "config.yaml"
    ∷ joined svc "env_vars.yaml"
    ∷ joined svc "secrets.yaml"
    ∷ joined svc "sealed-secrets"
    ∷ []

module _ {p : Parsers} (b : Backend p) (now at done : ℕ) (req : DeleteRequest) where
  abbrev pub Deleting : Type 0
  Deleting = Result DeleteResult × (ConfigStore × b.World)

  abbrev pub service_root : String
  service_root = str_append (service_path req.org req.project req.service) "/"

  unfoldable pub finish_delete : String → List String → ConfigStore → b.World → Deleting
  finish_delete hash paths s w =
      let loaded = reload p at done (b.snapshot w) s in
      (
        ok (record {
          version = hash;
          updated_at = now;
          deleted_files = map (trim_prefix service_root) paths;
          reload_error = loaded.1;
        }),
        (loaded.0, w),
      )

  abbrev pub after_delete : ConfigStore → Result (String × List String) × b.World → Deleting
  after_delete s (err why, w) = (err why, (s, w))
  after_delete s (ok (hash, paths), w) = finish_delete hash paths s w

  abbrev pub identified_delete : Option ChangeError → ConfigStore → b.World → Deleting
  identified_delete (some why) s w = (err why, (s, w))
  identified_delete none s w = after_delete s (
      b.delete_and_push
        (str_append "delete config for " (
          str_append req.org
            (str_append "/" (str_append req.project (str_append "/" req.service)))))
        (deleted_paths (service_path req.org req.project req.service)) w)

  -- DeleteChanges: `now` is its reading of the clock, `at` and `done` are those of the reload
  unfoldable pub delete_changes : ConfigStore → b.World → Deleting
  delete_changes s w = identified_delete (check_identity req.org req.project req.service) s w
