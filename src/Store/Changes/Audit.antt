-- ===== src/Store/Changes/Audit.antt =====
-- internal/store/store.go: the audit of ApplyChanges.
use Prim.Native.String.{String}
use aap_config_server.Base.{
  ℕ, ◌≡◌, refl, ap, Option, none, some, List, [], ◌∷◌, ◌++◌, Bool, true, false, ◌&&◌, if◌then◌else◌,
  is_ok, Option-cases, inl, inr,
}
use aap_config_server.Base.Eq.{◌==◌, text_has_eq}
use aap_config_server.Store.Reload.{Parsers, ConfigStore}
use aap_config_server.Store.Changes.{
  ChangeRequest, ChangeResult, Result, AuditEvent, ok, err, Backend, check_identity,
  validate_change, base_files, build_files, Files,
}
use aap_config_server.Store.Changes.Sealing.{
  Manifest, Seal, Applying, apply_sealed_manifests, build_sealed_manifests,
}
use aap_config_server.Store.Changes.Apply.{
  State, Ended, finish_change, after_secret_commit, after_apply, after_seal, write_secrets,
  with_applier, with_sealer, end_audited, secret_write_audit_result, commit_message, audit_event,
  apply_changes, record_secret_audit,
}

-- committed, applied and reloaded
abbrev pub is_clean : Result ChangeResult → Bool
is_clean (err why) = false
is_clean (ok r) = is_ok r.apply_error && is_ok r.reload_error

secret_write_audit_result_lem :
    (r : ChangeResult) → (secret_write_audit_result r == "success") ≡ is_clean (ok r)
unfolding secret_write_audit_result
secret_write_audit_result_lem r = elim (Option-cases r.apply_error) [
  | inl a ↦ elim (Option-cases r.reload_error) [
    | inl l ↦ rw (a, l) refl
    | inr (e, l) ↦ rw (a, l) refl
  ]
  | inr (f, a) ↦ elim (Option-cases r.reload_error) [
    | inl l ↦ rw (a, l) refl
    | inr (e, l) ↦ rw (a, l) refl
  ]
]

module _ {p : Parsers} (b : Backend p) (now at done : ℕ) (req : ChangeRequest b.Value) where
  abbrev IsTrue : Ended b → Type 0
  IsTrue e = (e.audit_result == "success") ≡ is_clean e.answer

  module _ (s : ConfigStore) where
    after_apply-IsTrue :
        (hash : String) (written : List String) (r : Option (List String) × b.World)
        → IsTrue (after_apply b now at done req hash written s r)
    unfolding finish_change
    after_apply-IsTrue hash written (apply_error, w) = secret_write_audit_result_lem _

    after_secret_commit-IsTrue :
        (applying : Applying b)
        → (manifests : List (Manifest b)) (r : Result String × (List String × b.World))
        → IsTrue (after_secret_commit b now at done req applying manifests s r)
    after_secret_commit-IsTrue applying manifests (err why, (written, w)) = refl
    after_secret_commit-IsTrue applying manifests (ok hash, (written, w)) =
        after_apply-IsTrue hash written (apply_sealed_manifests b applying manifests w)

    after_seal-IsTrue :
        (applying : Applying b)
        → (base : Files b) (r : Result (List (Manifest b)) × b.World)
        → IsTrue (after_seal b now at done req applying base s r)
    after_seal-IsTrue applying base (err why, w) = refl
    after_seal-IsTrue applying base (ok manifests, w) =
        after_secret_commit-IsTrue applying manifests (
          b.commit_and_push_func (commit_message b now at done req)
            (build_files b req manifests base) [] w)

    write_secrets-IsTrue :
        (seal : Seal b) (applying : Applying b) (w : b.World) (base : Result (Files b))
        → IsTrue (write_secrets b now at done req seal applying s w base)
    write_secrets-IsTrue seal applying w (err why) = refl
    write_secrets-IsTrue seal applying w (ok base) =
        after_seal-IsTrue applying base (build_sealed_manifests b seal req w)

    with_applier-IsTrue :
        (seal : Seal b) (applying : Option (Applying b)) (w : b.World)
        → IsTrue (with_applier b now at done req seal applying s w)
    with_applier-IsTrue seal none w = refl
    with_applier-IsTrue seal (some applying) w =
        write_secrets-IsTrue seal applying w (base_files b now req)

    with_sealer-IsTrue :
        (seal : Option (Seal b)) (w : b.World) → IsTrue (with_sealer b now at done req seal s w)
    with_sealer-IsTrue none w = refl
    with_sealer-IsTrue (some seal) w = with_applier-IsTrue seal b.applier w

  recorded :
      (audited : List AuditEvent) (event : AuditEvent)
      → b.auditor ≡ true
      → record_secret_audit b now at done req event audited ≡ audited ++ event ∷ []
  unfolding record_secret_audit
  recorded audited event there =
      ap (λ (on : Bool). if on then audited ++ event ∷ [] else audited) there

  -- With an auditor, a request of valid names whose secret writes pass the checks is audited
  -- once, with the request's identity and secret ids, whatever stage it ends in; and the event
  -- says "success" exactly if the change was committed, applied and reloaded.
  pub apply_changes_audit :
      (st : State b)
      → check_identity req.org req.project req.service ≡ none
      → validate_change b req ≡ ok true
      → b.auditor ≡ true
      → (outcome : String) × ((apply_changes b now at done req st).1.audited
          ≡ st.audited ++ audit_event b now at done req outcome ∷ [])
        × ((outcome == "success") ≡ is_clean (apply_changes b now at done req st).0)
  unfolding apply_changes end_audited
  apply_changes_audit st names checked there =
      let e = with_sealer b now at done req b.sealer st.config_store st.world in
      rw (names, checked)
        (
          e.audit_result,
          recorded st.audited (audit_event b now at done req e.audit_result) there,
          with_sealer-IsTrue st.config_store b.sealer st.world,
        )
