-- ===== src/Store/Changes/Apply.antt =====
-- internal/store/store.go: ApplyChanges with secretWriteAuditResult and recordSecretAudit.
use Prim.Native.String.{String, ◌++◌ as str_append}
use aap_config_server.Base.{
  ℕ, Bool, true, false, ◌&&◌, Option, none, some, List, [], ◌∷◌, ◌++◌, if◌then◌else◌, is_some,
}
use aap_config_server.Base.Eq.{◌==◌, text_has_eq}
use aap_config_server.Base.Map.{Map}
use aap_config_server.Store.SecretIds.{SecretWrite, secret_write_audit_ids}
use aap_config_server.Store.Reload.{Parsers, ConfigStore}
use aap_config_server.Store.Reload.Load.{reload}
use aap_config_server.Store.Changes.{
  ChangeRequest, ChangeResult, ChangeError, AuditEvent, Result, ok, err, Backend, no_sealer,
  no_applier, check_identity, validate_change, base_files, build_files, Files,
  destroy_secret_writes,
}
use aap_config_server.Store.Changes.Sealing.{
  Manifest, Seal, Applying, build_sealed_manifests, apply_sealed_manifests,
}

-- secretWriteAuditResult
unfoldable pub secret_write_audit_result : ChangeResult → String
secret_write_audit_result r =
    if is_some r.apply_error && is_some r.reload_error
    then "apply_and_reload_failed"
    else if is_some r.apply_error
    then "apply_failed"
    else if is_some r.reload_error
    then "reload_failed"
    else "success"

abbrev pub message_or : String → String → String
message_or message default_message = if message == "" then default_message else message

module _ {p : Parsers} (b : Backend p) where
  -- the store, what the collaborators keep, and the events given to the auditor
  pub record State : Type 0 where
    pub config_store : ConfigStore
    pub world : b.World
    pub audited : List AuditEvent

  -- what ApplyChanges leaves behind its lock: the answer, the variable auditResult, and the rest
  pub record Ended : Type 0 where
    pub answer : Result ChangeResult
    pub audit_result : String
    pub ended_store : ConfigStore
    pub ended_world : b.World

  module _ (now at done : ℕ) (req : ChangeRequest b.Value) where
    -- the reload behind the commit and the applies
    unfoldable pub finish_change :
        String → List String → Option (List String) → ConfigStore → b.World → Ended
    finish_change hash written apply_error s w =
        let loaded = reload p at done (b.snapshot w) s in
        let result : ChangeResult = record {
          version = hash;
          updated_at = now;
          files = written;
          apply_error = apply_error;
          reload_error = loaded.1;
        } in
        record {
          answer = ok result;
          audit_result = secret_write_audit_result result;
          ended_store = loaded.0;
          ended_world = w;
        }

    -- the error or the rest of the operation behind the commit of files without secrets
    abbrev pub after_plain_commit : List String → ConfigStore → Result String × b.World → Ended
    after_plain_commit written s (err why, w) = record {
      answer = err why;
      audit_result = "";
      ended_store = s;
      ended_world = w;
    }
    after_plain_commit written s (ok hash, w) = finish_change hash written none s w

    -- the applies, behind a commit with secrets
    abbrev pub after_apply :
        String → List String → ConfigStore → Option (List String) × b.World → Ended
    after_apply hash written s (apply_error, w) = finish_change hash written apply_error s w

    abbrev pub after_secret_commit :
        Applying b
        → List (Manifest b)
        → ConfigStore
        → Result String × (List String × b.World)
        → Ended
    after_secret_commit applying manifests s (err why, (written, w)) = record {
      answer = err why;
      audit_result = "commit_failed";
      ended_store = s;
      ended_world = w;
    }
    after_secret_commit applying manifests s (ok hash, (written, w)) =
        after_apply hash written s (apply_sealed_manifests b applying manifests w)

    abbrev pub commit_message : String
    commit_message = message_or req.message (
        str_append "update config for " (
          str_append req.org
            (str_append "/" (str_append req.project (str_append "/" req.service)))))

    abbrev pub after_seal :
        Applying b → Files b → ConfigStore → Result (List (Manifest b)) × b.World → Ended
    after_seal applying base s (err why, w) = record {
      answer = err why;
      audit_result = "seal_failed";
      ended_store = s;
      ended_world = w;
    }
    after_seal applying base s (ok manifests, w) =
        after_secret_commit applying manifests s
          (b.commit_and_push_func commit_message (build_files b req manifests base) [] w)

    -- a change without secrets, under the lock
    abbrev pub write_plain : ConfigStore → b.World → Result (Files b) → Ended
    write_plain s w (err why) = record {
      answer = err why;
      audit_result = "";
      ended_store = s;
      ended_world = w;
    }
    write_plain s w (ok base) =
        after_plain_commit base.1 s (b.commit_and_push commit_message base.0 w)

    -- a change with secrets, under the lock
    abbrev pub write_secrets :
        Seal b → Applying b → ConfigStore → b.World → Result (Files b) → Ended
    write_secrets seal applying s w (err why) = record {
      answer = err why;
      audit_result = "failure";
      ended_store = s;
      ended_world = w;
    }
    write_secrets seal applying s w (ok base) =
        after_seal applying base s (build_sealed_manifests b seal req w)

    abbrev pub not_configured : ChangeError → ConfigStore → b.World → Ended
    not_configured why s w = record {
      answer = err why;
      audit_result = "configuration_error";
      ended_store = s;
      ended_world = w;
    }

    abbrev pub with_applier : Seal b → Option (Applying b) → ConfigStore → b.World → Ended
    with_applier seal none s w = not_configured no_applier s w
    with_applier seal (some applying) s w = write_secrets seal applying s w (base_files b now req)

    abbrev pub with_sealer : Option (Seal b) → ConfigStore → b.World → Ended
    with_sealer none s w = not_configured no_sealer s w
    with_sealer (some seal) s w = with_applier seal b.applier s w

    abbrev pub audit_event : String → AuditEvent
    audit_event outcome = record {
      action = "secret_admin_write";
      outcome = outcome;
      org = req.org;
      project = req.project;
      service = req.service;
      secret_ids = secret_write_audit_ids req.secrets;
    }

    -- recordSecretAudit; an error of the auditor is logged only, and the time is not kept here
    unfoldable pub record_secret_audit : AuditEvent → List AuditEvent → List AuditEvent
    record_secret_audit event audited = if b.auditor then audited ++ event ∷ [] else audited

    -- the deferred audit
    unfoldable pub end_audited : List AuditEvent → Ended → Result ChangeResult × State
    end_audited audited e = (
      e.answer,
      record {
        config_store = e.ended_store;
        world = e.ended_world;
        audited = record_secret_audit (audit_event e.audit_result) audited;
      },
    )

    abbrev pub end_plain : List AuditEvent → Ended → Result ChangeResult × State
    end_plain audited e = (
      e.answer,
      record { config_store = e.ended_store; world = e.ended_world; audited = audited },
    )

    abbrev pub checked_change : Result Bool → State → Result ChangeResult × State
    checked_change (err why) st = (err why, st)
    checked_change (ok false) st =
        end_plain st.audited (write_plain st.config_store st.world (base_files b now req))
    checked_change (ok true) st =
        end_audited st.audited (with_sealer b.sealer st.config_store st.world)

    abbrev pub identified_change : Option ChangeError → State → Result ChangeResult × State
    identified_change (some why) st = (err why, st)
    identified_change none st = checked_change (validate_change b req) st

    -- ApplyChanges: `now` is its reading of the clock, `at` and `done` are those of the reload
    unfoldable pub apply_changes : State → Result ChangeResult × State
    apply_changes st = identified_change (check_identity req.org req.project req.service) st

    -- what the request's secrets are afterwards: destroyed, once the names were accepted
    unfoldable pub secrets_left : Map String (SecretWrite b.Value)
    secrets_left = elim (check_identity req.org req.project req.service) [
      | some why ↦ req.secrets
      | none ↦ destroy_secret_writes b req.secrets
    ]
