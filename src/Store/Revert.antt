-- ===== src/Store/Revert.antt =====
-- internal/store/store.go, PrepareRevert with its helpers: the plan that restores a service's files
-- as they were at a commit.
pub mod Equal
pub mod Laws
pub mod Tests
use Prim.Native.String.{String, ◌++◌}
use aap_config_server.Base.{
  ℕ, Bool, true, false, not, ◌&&◌, ◌||◌, Option, none, some, List, [], ◌∷◌, map, if◌then◌else◌,
  is_some, length, nat_beq,
}
use aap_config_server.Base.Eq.{HasEq, ◌==◌, text_has_eq}
use aap_config_server.Base.Map.{Map, lookup, insert, has}
use aap_config_server.Base.Sort.{str_less, sort_by}
use aap_config_server.Base.Text.{cut_prefix}
use aap_config_server.Store.Types.{ServiceKey}
use aap_config_server.Store.Paths.{service_path, is_valid_name}
use aap_config_server.Store.Reload.{ConfigStore, get_config}
use aap_config_server.Store.History.{ServiceHistoryEntry}

pub record RevertRequest : Type 0 where
  pub org : String
  pub project : String
  pub service : String
  pub target_version : String
  pub message : String

pub record RevertPlan (Bytes : Type 0) : Type 0 where
  pub org : String
  pub project : String
  pub service : String
  pub target_version : String
  pub message : String
  pub files : Map String Bytes
  pub restored_files : List String
  pub deleted_files : List String
  pub noop : Bool

pub data RevertError : Type 0 where
  identity_required : RevertError
  target_version_required : RevertError
  invalid_name : String → RevertError
  service_not_found : RevertError
  target_not_found : RevertError
  service_not_changed : RevertError
  no_service_files : RevertError
  reading_failed : String → RevertError

-- what a read of a service's files at a commit, or the walk over its history, answers
pub data Answer (A : Type 0) : Type 0 where
  answered : A → Answer A
  no_commit : Answer A
  broken : String → Answer A

-- sortedMapKeys
abbrev pub sorted_map_keys : {V : Type 0} → Map String V → List String
sorted_map_keys m = sort_by str_less (map (λ e. e.0) m)

-- serviceFileContentsByPath
unfoldable pub contents_by_path :
    {Bytes : Type 0} → List (String × Bytes) → Map String Bytes → Map String Bytes
contents_by_path [] out = out
contents_by_path ((path, data_at) ∷ files) out = contents_by_path files (insert path data_at out)

unfoldable pub keys_missing : {Bytes : Type 0} → Map String Bytes → Map String Bytes → List String
keys_missing [] target = []
keys_missing ((path, d) ∷ current) target =
    let rest = keys_missing current target in if has path target then rest else path ∷ rest

-- serviceFilesMissingFromTarget
abbrev pub service_files_missing_from_target :
    {Bytes : Type 0} → Map String Bytes → Map String Bytes → List String
service_files_missing_from_target current target = sort_by str_less (keys_missing current target)

-- the content of one path agrees
abbrev pub agrees_with : {Bytes : Type 0} ⦃e : HasEq Bytes⦄ → Option Bytes → Bytes → Bool
agrees_with none d = false
agrees_with (some c) d = c == d

unfoldable pub all_agree :
    {Bytes : Type 0} ⦃e : HasEq Bytes⦄ → Map String Bytes → Map String Bytes → Bool
all_agree current [] = true
all_agree current ((path, d) ∷ target) =
    agrees_with (lookup path current) d && all_agree current target

-- serviceFilesEqual
abbrev pub service_files_equal :
    {Bytes : Type 0} ⦃e : HasEq Bytes⦄ → Map String Bytes → Map String Bytes → Bool
service_files_equal current target =
    nat_beq (length current) (length target) && all_agree current target

-- serviceRelativePath
abbrev pub service_relative_path : String → String → Option String
service_relative_path svc_path manifest_path = cut_prefix (svc_path ++ "/") manifest_path

-- `filepath.Join(svcPath, rel)`; the paths that the repository lists are clean
abbrev pub joined : String → String → String
joined svc_path rel = (svc_path ++ "/") ++ rel

abbrev pub put_file : {Bytes : Type 0} → String → Option Bytes → Map String Bytes → Map String Bytes
put_file path none files = files
put_file path (some d) files = insert path d files

-- the loop over the restored files, which are keys of the target
unfoldable pub put_files :
    {Bytes : Type 0} → String → Map String Bytes → List String → Map String Bytes → Map String Bytes
put_files svc_path target [] files = files
put_files svc_path target (rel ∷ rels) files =
    put_files svc_path target rels (put_file (joined svc_path rel) (lookup rel target) files)

-- the message, trimmed by `strings.TrimSpace`, which is given
abbrev pub revert_message : String → String → String
revert_message trimmed target_version =
    if trimmed == "" then "Rollback to " ++ target_version else trimmed

-- the plan at the end of PrepareRevert
unfoldable pub revert_plan :
    {Bytes : Type 0} ⦃e : HasEq Bytes⦄
    → (String → String)
    → RevertRequest
    → Map String Bytes
    → Map String Bytes
    → RevertPlan Bytes
revert_plan trim_space req target current = record {
  org = req.org;
  project = req.project;
  service = req.service;
  target_version = req.target_version;
  message = revert_message (trim_space req.message) req.target_version;
  files =
      put_files (service_path req.org req.project req.service) target (sorted_map_keys target) [];
  restored_files = sorted_map_keys target;
  deleted_files = service_files_missing_from_target current target;
  noop = service_files_equal current target;
}

-- the body of revertPlanFilesByPath for one file
abbrev pub put_relative :
    {Bytes : Type 0} → Option String → Bytes → Map String Bytes → Map String Bytes
put_relative none d out = out
put_relative (some rel) d out = insert rel d out

unfoldable pub relative_files : {Bytes : Type 0} → String → Map String Bytes → Map String Bytes
relative_files svc_path [] = []
relative_files svc_path ((path, d) ∷ files) =
    put_relative (service_relative_path svc_path path) d (relative_files svc_path files)

-- revertPlanFilesByPath
abbrev pub revert_plan_files_by_path : {Bytes : Type 0} → RevertPlan Bytes → Map String Bytes
revert_plan_files_by_path plan =
    relative_files (service_path plan.org plan.project plan.service) plan.files

-- targetVersionChangedService
unfoldable pub version_in : String → List ServiceHistoryEntry → Bool
version_in version [] = false
version_in version (entry ∷ commits) = entry.version == version || version_in version commits

pub data Prepared (Bytes : Type 0) : Type 0 where
  planned : RevertPlan Bytes → Prepared Bytes
  refused : RevertError → Prepared Bytes

module _ {Bytes : Type 0} ⦃e : HasEq Bytes⦄ (trim_space : String → String)
    (req : RevertRequest) where
  -- the read of the current files and the plan
  abbrev pub with_current : List (String × Bytes) → Answer (List (String × Bytes)) → Prepared Bytes
  with_current target (answered current) =
      planned
        (revert_plan trim_space req (contents_by_path target []) (contents_by_path current []))
  with_current target no_commit = refused (reading_failed "commit not found")
  with_current target (broken why) = refused (reading_failed why)

  -- the target must have changed the service and have files; `failure` is an error that the walk
  -- over the history meets after the commits
  abbrev pub with_history :
      List (String × Bytes)
      → List ServiceHistoryEntry
      → Option String
      → Answer (List (String × Bytes))
      → Prepared Bytes
  with_history target commits failure current =
      if version_in req.target_version commits
      then if nat_beq (length target) 0
        then refused no_service_files
        else with_current target current
      else elim failure [
        | none ↦ refused service_not_changed
        | some why ↦ refused (reading_failed why)
      ]

  abbrev pub with_target :
      Answer (List (String × Bytes))
      → List ServiceHistoryEntry
      → Option String
      → Answer (List (String × Bytes))
      → Prepared Bytes
  with_target (answered target) commits failure current =
      with_history target commits failure current
  with_target no_commit commits failure current = refused target_not_found
  with_target (broken why) commits failure current = refused (reading_failed why)

  -- PrepareRevert, from what the repository answers: the target's files, the history, and the
  -- files at the loaded version
  unfoldable pub prepare_revert :
      ConfigStore
      → Answer (List (String × Bytes))
      → List ServiceHistoryEntry
      → Option String
      → Answer (List (String × Bytes))
      → Prepared Bytes
  prepare_revert s target commits failure current =
      if req.org == "" || req.project == "" || req.service == ""
      then refused identity_required
      else if req.target_version == ""
      then refused target_version_required
      else if not (is_valid_name req.org)
      then refused (invalid_name req.org)
      else if not (is_valid_name req.project)
      then refused (invalid_name req.project)
      else if not (is_valid_name req.service)
      then refused (invalid_name req.service)
      else if is_some
          (get_config s (record { org = req.org; project = req.project; service = req.service }))
      then with_target target commits failure current
      else refused service_not_found
