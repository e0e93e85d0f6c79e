-- ===== src/Store/Changes/Laws.antt =====
-- internal/store/store.go: what is served behind ApplyChanges and DeleteChanges.
use aap_config_server.Base.{ℕ, String, ◌≡◌, refl, Option, none, some, List, [], Bool, true, false}
use aap_config_server.Store.Reload.{Parsers, ConfigStore, ReloadError}
use aap_config_server.Store.Reload.Load.{reload}
use aap_config_server.Store.Changes.{
  ChangeRequest, ChangeResult, ChangeError, Result, ok, err, Backend, check_identity,
  validate_change, base_files, build_files, Files,
}
use aap_config_server.Store.Changes.Sealing.{
  Manifest, Seal, Applying, apply_sealed_manifests, build_sealed_manifests,
}
use aap_config_server.Store.Changes.Apply.{
  State, Ended, finish_change, after_plain_commit, after_secret_commit, after_apply, after_seal,
  write_plain, write_secrets, with_applier, with_sealer, end_audited, checked_change,
  identified_change, apply_changes, commit_message,
}
use aap_config_server.Store.Changes.Remove.{
  DeleteRequest, DeleteResult, Deleting, finish_delete, after_delete, identified_delete,
  delete_changes,
}

abbrev pub told_change : ChangeResult → Option ReloadError
told_change r = r.reload_error

abbrev pub told_delete : DeleteResult → Option ReloadError
told_delete r = r.reload_error

module _ {p : Parsers} (b : Backend p) (at done : ℕ) where
  -- on an error the store is the one from before; otherwise it is that store after a reload of
  -- what the repository then has, and the reload's error is the one `told`
  abbrev pub Serves :
      {A : Type 0}
      → (A → Option ReloadError)
      → ConfigStore
      → Result A
      → ConfigStore × b.World
      → Type 0
  Serves told before (err why) (after, w) = after ≡ before
  Serves told before (ok a) (after, w) = (after, told a) ≡ reload p at done (b.snapshot w) before

  module _ (now : ℕ) (req : ChangeRequest b.Value) (s : ConfigStore) where
    abbrev EndServes : Ended b → Type 0
    EndServes e = Serves told_change s e.answer (e.ended_store, e.ended_world)

    after_plain_commit_serves :
        (written : List String) (r : Result String × b.World)
        → EndServes (after_plain_commit b now at done req written s r)
    unfolding finish_change
    after_plain_commit_serves written (err why, w) = refl
    after_plain_commit_serves written (ok hash, w) = refl

    after_apply_serves :
        (hash : String) (written : List String) (r : Option (List String) × b.World)
        → EndServes (after_apply b now at done req hash written s r)
    unfolding finish_change
    after_apply_serves hash written (apply_error, w) = refl

    after_secret_commit_serves :
        (applying : Applying b)
        → (manifests : List (Manifest b)) (r : Result String × (List String × b.World))
        → EndServes (after_secret_commit b now at done req applying manifests s r)
    after_secret_commit_serves applying manifests (err why, (written, w)) = refl
    after_secret_commit_serves applying manifests (ok hash, (written, w)) =
        after_apply_serves hash written (apply_sealed_manifests b applying manifests w)

    after_seal_serves :
        (applying : Applying b)
        → (base : Files b) (r : Result (List (Manifest b)) × b.World)
        → EndServes (after_seal b now at done req applying base s r)
    after_seal_serves applying base (err why, w) = refl
    after_seal_serves applying base (ok manifests, w) =
        after_secret_commit_serves applying manifests (
          b.commit_and_push_func (commit_message b now at done req)
            (build_files b req manifests base) [] w)

    write_plain_serves :
        (w : b.World) (base : Result (Files b)) → EndServes (write_plain b now at done req s w base)
    write_plain_serves w (err why) = refl
    write_plain_serves w (ok base) =
        after_plain_commit_serves base.1
          (b.commit_and_push (commit_message b now at done req) base.0 w)

    write_secrets_serves :
        (seal : Seal b) (applying : Applying b) (w : b.World) (base : Result (Files b))
        → EndServes (write_secrets b now at done req seal applying s w base)
    write_secrets_serves seal applying w (err why) = refl
    write_secrets_serves seal applying w (ok base) =
        after_seal_serves applying base (build_sealed_manifests b seal req w)

    with_applier_serves :
        (seal : Seal b) (applying : Option (Applying b)) (w : b.World)
        → EndServes (with_applier b now at done req seal applying s w)
    with_applier_serves seal none w = refl
    with_applier_serves seal (some applying) w =
        write_secrets_serves seal applying w (base_files b now req)

    with_sealer_serves :
        (seal : Option (Seal b)) (w : b.World) → EndServes (with_sealer b now at done req seal s w)
    with_sealer_serves none w = refl
    with_sealer_serves (some seal) w = with_applier_serves seal b.applier w

  abbrev StateServes : State b → Result ChangeResult × State b → Type 0
  StateServes st r = Serves told_change st.config_store r.0 (r.1.config_store, r.1.world)

  module _ (now : ℕ) (req : ChangeRequest b.Value) (st : State b) where
    checked_change_serves :
        (check : Result Bool) → StateServes st (checked_change b now at done req check st)
    unfolding end_audited
    checked_change_serves (err why) = refl
    checked_change_serves (ok false) =
        write_plain_serves now req st.config_store st.world (base_files b now req)
    checked_change_serves (ok true) = with_sealer_serves now req st.config_store b.sealer st.world

    identified_change_serves :
        (check : Option ChangeError) → StateServes st (identified_change b now at done req check st)
    identified_change_serves (some why) = refl
    identified_change_serves none = checked_change_serves (validate_change b req)

  -- An error of ApplyChanges, from whichever of its stages, leaves the store as it was. A success
  -- leaves the store that a reload of the repository as it then is makes of the one before, and
  -- reports the error of that reload.
  pub apply_changes-Serves :
      (now : ℕ) (req : ChangeRequest b.Value) (st : State b)
      → Serves told_change st.config_store (apply_changes b now at done req st).0 (
        (apply_changes b now at done req st).1.config_store,
        (apply_changes b now at done req st).1.world,
      )
  unfolding apply_changes
  apply_changes-Serves now req st =
      identified_change_serves now req st (check_identity req.org req.project req.service)

  module _ (now : ℕ) (req : DeleteRequest) (s : ConfigStore) where
    abbrev DeleteServes : Deleting b now at done req → Type 0
    DeleteServes r = Serves told_delete s r.0 r.1

    after_delete_serves :
        (r : Result (String × List String) × b.World)
        → DeleteServes (after_delete b now at done req s r)
    unfolding finish_delete
    after_delete_serves (err why, w) = refl
    after_delete_serves (ok (hash, paths), w) = refl

    identified_delete_serves :
        (check : Option ChangeError) (w : b.World)
        → DeleteServes (identified_delete b now at done req check s w)
    identified_delete_serves (some why) w = refl
    identified_delete_serves none w = after_delete_serves _

  -- The same of DeleteChanges: an error leaves the store as it was, and a success leaves it as a
  -- reload of the repository as it then is makes it, with the error of that reload reported.
  pub delete_changes-Serves :
      (now : ℕ) (req : DeleteRequest) (s : ConfigStore) (w : b.World)
      → Serves told_delete s
          (delete_changes b now at done req s w).0
          (delete_changes b now at done req s w).1
  unfolding delete_changes
  delete_changes-Serves now req s w =
      identified_delete_serves now req s (check_identity req.org req.project req.service) w
