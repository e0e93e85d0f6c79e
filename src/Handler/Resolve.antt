-- ===== src/Handler/Resolve.antt =====
-- internal/handler/handler.go: resolveEnvSecrets with secretRefAuditIDs and recordSecretAudit.
pub mod Laws
pub mod Tests
use aap_config_server.Base.{
  String, Bool, true, false, Option, none, some, List, [], ◌∷◌, ◌++◌, if◌then◌else◌, is_some,
}
use aap_config_server.Base.Eq.{◌==◌, text_has_eq}
use aap_config_server.Base.Map.{Map, lookup, insert, has}
use aap_config_server.Base.Sort.{str_less, sort_by}
use aap_config_server.Store.Types.{SecretEntry, SecretsConfig, ServiceKey}
use aap_config_server.Store.Listing.{add_seen}
use aap_config_server.Store.Changes.{AuditEvent}
use aap_config_server.Secret.Volume.{Reference, VolumeError, Outcome, done, failed}

pub data ResolveError : Type 0 where
  no_volume_reader : ResolveError
  metadata_missing : ResolveError
  duplicate_secret_id : ResolveError
  unknown_secret_id : String → ResolveError
  mount_failed : VolumeError → ResolveError

pub data Resolution (World : Type 0) : Type 0 where
  resolved : Map String String → World → Resolution World
  unresolved : ResolveError → World → Resolution World

-- the loop of secretRefAuditIDs
unfoldable pub seen_refs : Map String String → List String → List String
seen_refs [] seen = seen
seen_refs ((env, id) ∷ refs) seen = seen_refs refs (if id == "" then seen else add_seen id seen)

-- secretRefAuditIDs
unfoldable pub secret_ref_audit_ids : Map String String → List String
secret_ref_audit_ids refs = sort_by str_less (seen_refs refs [])

abbrev pub or_duplicate : Bool → Option (Map String SecretEntry) → Option (Map String SecretEntry)
or_duplicate true rest = none
or_duplicate false rest = rest

-- the loop over the entries of secrets.yaml; none if an id comes twice
unfoldable pub index_by_id :
    List SecretEntry → Map String SecretEntry → Option (Map String SecretEntry)
index_by_id [] by_id = some by_id
index_by_id (entry ∷ entries) by_id =
    or_duplicate (has entry.id by_id) (index_by_id entries (insert entry.id entry by_id))

abbrev pub reference_of : SecretEntry → Reference
reference_of entry = record {
  id = entry.id;
  namespace = entry.k8s_secret.namespace;
  name = entry.k8s_secret.name;
  key = entry.k8s_secret.key;
}

-- the audit's result for each end
unfoldable pub resolve_audit_result : {World : Type 0} → Resolution World → String
resolve_audit_result (resolved values w) = "success"
resolve_audit_result (unresolved no_volume_reader w) = "configuration_error"
resolve_audit_result (unresolved metadata_missing w) = "metadata_missing"
resolve_audit_result (unresolved duplicate_secret_id w) = "duplicate_secret_id"
resolve_audit_result (unresolved (unknown_secret_id id) w) = "unknown_secret_id"
resolve_audit_result (unresolved (mount_failed why) w) = "read_failed"

-- `Refresh` of a secret.VolumeReader, with the state that it reads and keeps
abbrev pub Refresh : Type 0 → Type 0 → Type 0
Refresh World Bytes = World → Reference → World × Outcome Bytes

-- `text_of` is `string(bytes)`
module _ {World Bytes : Type 0} (text_of : Bytes → String) where
  abbrev pub after_refresh :
      (String → World → Resolution World) → World × Outcome Bytes → Resolution World
  after_refresh next (w, failed why) = unresolved (mount_failed why) w
  after_refresh next (w, done bytes) = next (text_of bytes) w

  abbrev pub after_entry :
      Refresh World Bytes
      → String
      → (String → World → Resolution World)
      → World
      → Option SecretEntry
      → Resolution World
  after_entry volume id next w none = unresolved (unknown_secret_id id) w
  after_entry volume id next w (some entry) = after_refresh next (volume w (reference_of entry))

  -- the loop over the references, in the order of the map
  unfoldable pub resolve_refs :
      Refresh World Bytes
      → Map String SecretEntry
      → Map String String
      → Map String String
      → World
      → Resolution World
  resolve_refs volume by_id [] values w = resolved values w
  resolve_refs volume by_id ((env, id) ∷ refs) values w =
      after_entry volume id (λ value v. resolve_refs volume by_id refs (insert env value values) v)
        w (lookup id by_id)

  abbrev pub with_index :
      Refresh World Bytes
      → Map String String
      → World
      → Option (Map String SecretEntry)
      → Resolution World
  with_index volume refs w none = unresolved duplicate_secret_id w
  with_index volume refs w (some by_id) = resolve_refs volume by_id refs [] w

  abbrev pub with_secrets_file :
      Refresh World Bytes → Map String String → World → Option SecretsConfig → Resolution World
  with_secrets_file volume refs w none = unresolved metadata_missing w
  with_secrets_file volume refs w (some secrets) =
      with_index volume refs w (index_by_id secrets.secrets [])

  abbrev pub with_volume :
      Map String String
      → Option SecretsConfig
      → World
      → Option (Refresh World Bytes)
      → Resolution World
  with_volume refs secrets w none = unresolved no_volume_reader w
  with_volume refs secrets w (some volume) = with_secrets_file volume refs w secrets

  -- the answer of resolveEnvSecrets for the references of a service's env_vars.yaml
  unfoldable pub resolve_values :
      Option (Refresh World Bytes)
      → Map String String
      → Option SecretsConfig
      → World
      → Resolution World
  resolve_values volume [] secrets w = resolved [] w
  resolve_values volume (ref ∷ refs) secrets w = with_volume (ref ∷ refs) secrets w volume

  -- resolveEnvSecrets: the answer and the event of its deferred audit
  unfoldable pub resolve_env_secrets :
      Option (Refresh World Bytes)
      → ServiceKey
      → Map String String
      → Option SecretsConfig
      → World
      → Resolution World × AuditEvent
  resolve_env_secrets volume key refs secrets w =
      let answer = resolve_values volume refs secrets w in
      (
        answer,
        record {
          action = "secret_env_resolve";
          outcome = resolve_audit_result answer;
          org = key.org;
          project = key.project;
          service = key.service;
          secret_ids = secret_ref_audit_ids refs;
        },
      )
