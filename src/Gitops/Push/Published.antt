-- ===== src/Gitops/Push/Published.antt =====
-- internal/gitops/repo.go: the operations that push leave a clone that the remote agrees with.
use Prim.Native.String.{String}
use aap_config_server.Base.{ℕ, ◌≡◌, refl, sym, ap, ◌∙◌, Option, none, some, List, [], ◌∷◌, ◌++◌}
use aap_config_server.Base.Map.{Map}
use aap_config_server.Base.Eq.{text_has_eq}
use aap_config_server.Base.Sort.{sort_by, str_less}
use aap_config_server.Gitops.Paths.{service_config_root, normalize_repo_files}
use aap_config_server.Gitops.Push.{
  Git, WalkAnswer, walked, no_directory, walk_failed, Built, built, not_built, Stage, go_on, stop,
  max_push_retries, after_write, write_files, after_build, build_and_write, commit_and_push_func,
}
use aap_config_server.Gitops.Push.Restore.{
  Targets, targets_found, targets_failed, or_path, recognised, unstage_all, removal_targets,
  still_there, after_remove, after_targets, delete_paths, with_worktree, delete_change,
  delete_and_push, after_restore_remove, remove_extra, extra_path, remove_extras, wrote,
  after_extras, after_walk, restore_change, restore_service_files_and_push,
}
use aap_config_server.Gitops.Push.Laws.{
  HeadLaws, IsPublished, ResetsWork, Sound, KeepsHead, push_loop-Sound,
}

module _ (g : Git) (laws : HeadLaws g) where
  -- what a stage of a change does to the head of `c`
  abbrev Keeps : {A : Type 0} → g.Clone → Stage A × g.Clone → Type 0
  Keeps c r = g.head_hash r.1 ≡ g.head_hash c

  write_files-Keeps :
      (w : g.World) (files : Map String g.Bytes) (c : g.Clone) → Keeps c (write_files g w files c)
  unfolding write_files
  write_files-Keeps w [] c = refl
  write_files-Keeps w ((path, content) ∷ files) c =
      written (g.write w path content c) refl (λ d. write_files-Keeps w files d)
    where
      written :
          (r : Option String × g.Clone)
          → g.write w path content c ≡ r
          → ((d : g.Clone) → Keeps d (write_files g w files d))
          → Keeps c (after_write g path r (λ d. write_files g w files d))
      written (some why, d) e rest =
          ap (λ r. g.head_hash r.1) (sym e) ∙ laws.write_head w path content c
      written (none, d) e rest =
          rest d ∙ (ap (λ r. g.head_hash r.1) (sym e) ∙ laws.write_head w path content c)

  build_and_write-KeepsHead :
      (build : (String → Option g.Bytes) → Built (Map String g.Bytes))
      → KeepsHead g laws (build_and_write g build)
  build_and_write-KeepsHead build w c = staged (build (g.read_file c)) (g.worktree w)
    where
      staged :
          (b : Built (Map String g.Bytes)) (tree : Option String)
          → Keeps c (after_build g w b tree c)
      staged (not_built why) tree = refl
      staged (built files) (some why) = refl
      staged (built files) none = write_files-Keeps w files c

  unstage_all_head :
      (ts : List String) (c : g.Clone) → g.head_hash (unstage_all g ts c) ≡ g.head_hash c
  unfolding unstage_all
  unstage_all_head [] c = refl
  unstage_all_head (t ∷ ts) c = unstage_all_head ts (g.unstage t c) ∙ laws.unstage_head t c

  delete_paths-Keeps :
      (w : g.World) (paths deleted : List String) (c : g.Clone)
      → Keeps c (delete_paths g w paths deleted c)
  unfolding delete_paths
  delete_paths-Keeps w [] deleted c = refl
  delete_paths-Keeps w (path ∷ paths) deleted c =
      targeted (removal_targets g w c path) (λ more d. delete_paths-Keeps w paths more d)
    where
      removed :
          (ts : List String) (r : Option String × g.Clone)
          → g.remove_all w path c ≡ r
          → ((more : List String) (d : g.Clone) → Keeps d (delete_paths g w paths more d))
          → Keeps c (
              after_remove g path r (λ d.
                delete_paths g w paths (deleted ++ still_there g w c ts) (unstage_all g ts d)))
      removed ts (some why, d) e rest =
          ap (λ r. g.head_hash r.1) (sym e) ∙ laws.remove_head w path c
      removed ts (none, d) e rest =
          rest (deleted ++ still_there g w c ts) (unstage_all g ts d)
          ∙ (unstage_all_head ts d
              ∙ (ap (λ r. g.head_hash r.1) (sym e) ∙ laws.remove_head w path c))

      targeted :
          (ts : Targets)
          → ((more : List String) (d : g.Clone) → Keeps d (delete_paths g w paths more d))
          → Keeps c (after_targets g w path ts deleted c (λ more d. delete_paths g w paths more d))
      targeted (targets_failed why) rest = refl
      targeted (targets_found ts) rest = removed (or_path path ts) (g.remove_all w path c) refl rest

  delete_change-KeepsHead : (paths : List String) → KeepsHead g laws (delete_change g paths)
  delete_change-KeepsHead paths w c = ready (g.worktree w)
    where
      ready : (tree : Option String) → Keeps c (with_worktree g tree c (delete_paths g w paths []))
      ready (some why) = refl
      ready none = delete_paths-Keeps w paths [] c

  module _ (org project service : String) (files : Map String g.Bytes) where
    remove_extras-Keeps :
        (w : g.World) (paths deleted : List String) (c : g.Clone)
        → Keeps c (remove_extras g org project service files w paths deleted c)
    unfolding remove_extras
    remove_extras-Keeps w [] deleted c = refl
    remove_extras-Keeps w (path ∷ paths) deleted c =
        related (extra_path g org project service files path)
          (λ more d. remove_extras-Keeps w paths more d)
      where
        removed :
            (r : Option String × g.Clone) (more : List String)
            → g.remove_all w path c ≡ r
            → ((more : List String) (d : g.Clone)
                → Keeps d (remove_extras g org project service files w paths more d))
            → Keeps c (
                after_restore_remove g path r
                  (λ d. remove_extras g org project service files w paths more d))
        removed (some why, d) more e rest =
            ap (λ r. g.head_hash r.1) (sym e) ∙ laws.remove_head w path c
        removed (none, d) more e rest =
            rest more (g.unstage path d)
            ∙ (laws.unstage_head path d
                ∙ (ap (λ r. g.head_hash r.1) (sym e) ∙ laws.remove_head w path c))

        related :
            (rel : Option String)
            → ((more : List String) (d : g.Clone)
                → Keeps d (remove_extras g org project service files w paths more d))
            → Keeps c (
                remove_extra g org project service files w path rel deleted c
                  (λ more d. remove_extras g org project service files w paths more d))
        related none rest = rest deleted c
        related (some rel) rest = removed (g.remove_all w path c) (deleted ++ rel ∷ []) refl rest

    after_extras-Keeps :
        (w : g.World) (c : g.Clone) (r : Stage (List String) × g.Clone)
        → Keeps c r
        → Keeps c (after_extras g org project service files w r)
    after_extras-Keeps w c (stop why, d) k = k
    after_extras-Keeps w c (go_on deleted, d) k =
        finished_writing (write_files g w files d) (write_files-Keeps w files d ∙ k)
      where
        finished_writing :
            (r : Stage Unit × g.Clone)
            → Keeps c r
            → Keeps c (wrote g org project service files deleted r)
        finished_writing (stop why, e) h = h
        finished_writing (go_on u, e) h = h

    after_walk-Keeps :
        (w : g.World) (answer : WalkAnswer) (c : g.Clone)
        → Keeps c (after_walk g org project service files w answer c)
    after_walk-Keeps w (walk_failed why) c = refl
    after_walk-Keeps w no_directory c =
        after_extras-Keeps w c (remove_extras g org project service files w [] [] c)
          (remove_extras-Keeps w [] [] c)
    after_walk-Keeps w (walked paths) c =
        let now = sort_by str_less (recognised org project service paths) in
        after_extras-Keeps w c (remove_extras g org project service files w now [] c)
          (remove_extras-Keeps w now [] c)

    restore_change-KeepsHead : KeepsHead g laws (restore_change g org project service files)
    restore_change-KeepsHead w c = ready (g.worktree w)
      where
        ready :
            (tree : Option String)
            → Keeps c (
                with_worktree g tree c (λ d.
                  after_walk g org project service files w
                    (g.walk w d (service_config_root org project service))
                    d))
        ready (some why) = refl
        ready none = after_walk-Keeps w (g.walk w c (service_config_root org project service)) c

  -- If no reset fails, then on a clone whose head the remote has taken, each of CommitAndPushFunc,
  -- DeleteAndPush and RestoreServiceFilesAndPush leaves such a clone, whether it succeeds or fails,
  -- and however often the remote refuses the push. When it reports a pushed commit, that commit is
  -- the head and the remote has taken it; when it reports that nothing changed, it reports the head.
  pub pushes_published :
      (worlds : ℕ → g.World) (msg : String)
      (build : (String → Option g.Bytes) → Built (Map String g.Bytes)) (paths : List String)
      (org project service : String) (files : Map String g.Bytes) (c : g.Clone)
      → ResetsWork g laws
      → IsPublished g laws c
      → (Sound g laws
          (commit_and_push_func g worlds msg build c).0
          (commit_and_push_func g worlds msg build c).1)
        × (Sound g laws
            (delete_and_push g worlds msg paths c).0
            (delete_and_push g worlds msg paths c).1)
        × (Sound g laws
            (restore_service_files_and_push g worlds msg org project service files c).0
            (restore_service_files_and_push g worlds msg org project service files c).1)
  unfolding commit_and_push_func delete_and_push restore_service_files_and_push
  pushes_published worlds msg build paths org project service files c works p = (
    push_loop-Sound g laws max_push_retries 0 worlds msg (λ a. a) (build_and_write g build) c works
        (build_and_write-KeepsHead build) p,
    push_loop-Sound g laws max_push_retries 0 worlds msg (λ deleted. []) (delete_change g paths) c
        works (delete_change-KeepsHead paths) p,
    push_loop-Sound g laws max_push_retries 0 worlds msg (λ deleted. deleted)
        (restore_change g org project service (normalize_repo_files files)) c works
        (restore_change-KeepsHead org project service (normalize_repo_files files)) p,
  )
