-- ===== src/Gitops/Push/Restore.antt =====
-- internal/gitops/repo.go: DeleteAndPush and RestoreServiceFilesAndPush.
use Prim.Native.String.{String}
use aap_config_server.Base.{
  ℕ, Bool, true, false, Option, none, some, List, [], ◌∷◌, ◌++◌, if◌then◌else◌, is_some,
}
use aap_config_server.Base.Map.{Map, has}
use aap_config_server.Base.Eq.{text_has_eq}
use aap_config_server.Base.Sort.{sort_by, str_less}
use aap_config_server.Gitops.Paths.{
  classify_service_file_change, service_relative_repo_path, service_config_root,
  normalize_repo_files,
}
use aap_config_server.Gitops.Push.{
  Git, StatAnswer, missing, regular, directory, stat_error, WalkAnswer, walked, no_directory,
  walk_failed, Stage, go_on, stop, no_worktree, stat_failed, walk_error, remove_failed, Outcome,
  Change, push_loop, max_push_retries, write_files,
}

-- the recognised files among those of a walk
unfoldable pub recognised : String → String → String → List String → List String
recognised org project service [] = []
recognised org project service (path ∷ paths) =
    if is_some (classify_service_file_change path org project service)
    then path ∷ recognised org project service paths
    else recognised org project service paths

-- what removalTargets returns
pub data Targets : Type 0 where
  targets_found : List String → Targets
  targets_failed : String → Targets

-- `statErr == nil`
abbrev pub is_there : StatAnswer → Bool
is_there missing = false
is_there regular = true
is_there directory = true
is_there (stat_error why) = false

abbrev pub or_path : String → List String → List String
or_path path [] = path ∷ []
or_path path (target ∷ targets) = target ∷ targets

module _ (g : Git) where
  abbrev pub found_below : WalkAnswer → Targets
  found_below (walked paths) = targets_found paths
  found_below no_directory = targets_found []
  found_below (walk_failed why) = targets_failed why

  abbrev pub targets_at : g.World → g.Clone → String → StatAnswer → Targets
  targets_at w c path missing = targets_found []
  targets_at w c path regular = targets_found (path ∷ [])
  targets_at w c path directory = found_below (g.walk w c path)
  targets_at w c path (stat_error why) = targets_failed why

  -- removalTargets
  unfoldable pub removal_targets : g.World → g.Clone → String → Targets
  removal_targets w c path = targets_at w c path (g.stat w c path)

  -- the targets that are there
  unfoldable pub still_there : g.World → g.Clone → List String → List String
  still_there w c [] = []
  still_there w c (t ∷ ts) =
      if is_there (g.stat w c t) then t ∷ still_there w c ts else still_there w c ts

  unfoldable pub unstage_all : List String → g.Clone → g.Clone
  unstage_all [] c = c
  unstage_all (t ∷ ts) c = unstage_all ts (g.unstage t c)

  abbrev pub after_remove :
      String
      → Option String × g.Clone
      → (g.Clone → Stage (List String) × g.Clone)
      → Stage (List String) × g.Clone
  after_remove path (some why, c) rest = (stop (remove_failed path why), c)
  after_remove path (none, c) rest = rest c

  abbrev pub remove_targets :
      g.World
      → String
      → List String
      → List String
      → g.Clone
      → (List String → g.Clone → Stage (List String) × g.Clone)
      → Stage (List String) × g.Clone
  remove_targets w path targets deleted c rest =
      after_remove path (g.remove_all w path c)
        (λ c'. rest (deleted ++ still_there w c targets) (unstage_all targets c'))

  abbrev pub after_targets :
      g.World
      → String
      → Targets
      → List String
      → g.Clone
      → (List String → g.Clone → Stage (List String) × g.Clone)
      → Stage (List String) × g.Clone
  after_targets w path (targets_failed why) deleted c rest = (stop (stat_failed why), c)
  after_targets w path (targets_found ts) deleted c rest =
      remove_targets w path (or_path path ts) deleted c rest

  -- the loop of DeleteAndPush over the paths
  unfoldable pub delete_paths :
      g.World → List String → List String → g.Clone → Stage (List String) × g.Clone
  delete_paths w [] deleted c = (go_on deleted, c)
  delete_paths w (path ∷ paths) deleted c =
      after_targets w path (removal_targets w c path) deleted c
        (λ deleted' c'. delete_paths w paths deleted' c')

  abbrev pub with_worktree :
      Option String
      → g.Clone
      → (g.Clone → Stage (List String) × g.Clone)
      → Stage (List String) × g.Clone
  with_worktree (some why) c rest = (stop (no_worktree why), c)
  with_worktree none c rest = rest c

  abbrev pub delete_change : List String → Change g (List String)
  delete_change paths w c = with_worktree (g.worktree w) c (delete_paths w paths [])

  -- DeleteAndPush
  unfoldable pub delete_and_push :
      (ℕ → g.World) → String → List String → g.Clone → Outcome (List String) × g.Clone
  delete_and_push worlds msg paths c =
      push_loop g max_push_retries 0 worlds msg (λ deleted. []) (delete_change paths) c

  abbrev pub after_restore_remove :
      String
      → Option String × g.Clone
      → (g.Clone → Stage (List String) × g.Clone)
      → Stage (List String) × g.Clone
  after_restore_remove path (some why, c) rest = (stop (remove_failed path why), c)
  after_restore_remove path (none, c) rest = rest (g.unstage path c)

  module _ (org project service : String) (files : Map String g.Bytes) where
    -- a file that the target lacks is removed, under its path below the service
    abbrev pub remove_extra :
        g.World
        → String
        → Option String
        → List String
        → g.Clone
        → (List String → g.Clone → Stage (List String) × g.Clone)
        → Stage (List String) × g.Clone
    remove_extra w path none deleted c rest = rest deleted c
    remove_extra w path (some rel) deleted c rest =
        after_restore_remove path (g.remove_all w path c) (rest (deleted ++ rel ∷ []))

    -- none for the files that the loop skips
    abbrev pub extra_path : String → Option String
    extra_path path =
        if has path files then none else service_relative_repo_path path org project service

    -- the loop over the current files
    unfoldable pub remove_extras :
        g.World → List String → List String → g.Clone → Stage (List String) × g.Clone
    remove_extras w [] deleted c = (go_on deleted, c)
    remove_extras w (path ∷ paths) deleted c =
        remove_extra w path (extra_path path) deleted c
          (λ deleted' c'. remove_extras w paths deleted' c')

    abbrev pub wrote : List String → Stage Unit × g.Clone → Stage (List String) × g.Clone
    wrote deleted (stop why, c) = (stop why, c)
    wrote deleted (go_on u, c) = (go_on (sort_by str_less deleted), c)

    abbrev pub after_extras :
        g.World → Stage (List String) × g.Clone → Stage (List String) × g.Clone
    after_extras w (stop why, c) = (stop why, c)
    after_extras w (go_on deleted, c) = wrote deleted (write_files g w files c)

    -- serviceFilesInWorktree, and what is done with the files
    abbrev pub after_walk : g.World → WalkAnswer → g.Clone → Stage (List String) × g.Clone
    after_walk w (walk_failed why) c = (stop (walk_error why), c)
    after_walk w no_directory c = after_extras w (remove_extras w [] [] c)
    after_walk w (walked paths) c =
        after_extras w
          (remove_extras w (sort_by str_less (recognised org project service paths)) [] c)

    abbrev pub restore_change : Change g (List String)
    restore_change w c =
        with_worktree (g.worktree w) c
          (λ c'. after_walk w (g.walk w c' (service_config_root org project service)) c')

  -- RestoreServiceFilesAndPush
  unfoldable pub restore_service_files_and_push :
      (ℕ → g.World)
      → String
      → String
      → String
      → String
      → Map String g.Bytes
      → g.Clone
      → Outcome (List String) × g.Clone
  restore_service_files_and_push worlds msg org project service files c =
      push_loop g max_push_retries 0 worlds msg (λ deleted. deleted)
        (restore_change org project service (normalize_repo_files files)) c
