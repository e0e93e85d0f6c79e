-- ===== src/Store/Changes/Sealing.antt =====
-- internal/store/store.go: buildSealedManifests and applySealedManifests.
use Prim.Native.String.{String, ◌++◌ as str_append}
use aap_config_server.Base.{Option, none, some, List, [], ◌∷◌}
use aap_config_server.Base.Eq.{text_has_eq}
use aap_config_server.Base.Map.{Map, lookup, insert}
use aap_config_server.Store.SecretIds.{SecretWrite}
use aap_config_server.Store.Reload.{Parsed, parsed, failed, Parsers}
use aap_config_server.Store.Revert.{sorted_map_keys}
use aap_config_server.Store.Changes.{
  ChangeRequest, ChangeError, SealRequest, SealedManifest, Result, ok, err, Backend,
}

-- the error of a list of messages, which the code joins
abbrev pub joined_errors : List String → Option (List String)
joined_errors [] = none
joined_errors (e ∷ es) = some (e ∷ es)

module _ {p : Parsers} (b : Backend p) where
  abbrev pub Manifest : Type 0
  Manifest = SealedManifest p.Raw

  abbrev pub Seal : Type 0
  Seal = SealRequest b.Value → b.World → Parsed Manifest × b.World

  abbrev pub Applying : Type 0
  Applying = Manifest → b.World → Option String × b.World

  -- the copy of a write's data, a missing key read as a zero value does not occur
  unfoldable pub copy_data : Map String b.Value → List String → Map String b.Value
  copy_data values [] = []
  copy_data values (key ∷ keys) = elim (lookup key values) [
    | none ↦ copy_data values keys
    | some value ↦ insert key value (copy_data values keys)
  ]

  abbrev pub seal_request :
      ChangeRequest b.Value → String → SecretWrite b.Value → SealRequest b.Value
  seal_request req name write = record {
    org = req.org;
    project = req.project;
    service = req.service;
    namespace = write.namespace;
    name = name;
    secret_data = copy_data write.secret_data (sorted_map_keys write.secret_data);
  }

  abbrev pub after_seal_one :
      String
      → String
      → (b.World → Result (List Manifest) × b.World)
      → Parsed Manifest × b.World
      → Result (List Manifest) × b.World
  after_seal_one namespace name rest (failed why, w) =
      (err (ChangeError.seal_failed namespace name why), w)
  after_seal_one namespace name rest (parsed manifest, w) =
      let later = rest w in
      elim later.0 [
        | err why ↦ (err why, later.1)
        | ok manifests ↦ (ok (manifest ∷ manifests), later.1)
      ]

  -- the loop of buildSealedManifests over the sorted names, which are keys of the writes
  unfoldable pub seal_each :
      Seal → ChangeRequest b.Value → List String → b.World → Result (List Manifest) × b.World
  seal_each seal req [] w = (ok [], w)
  seal_each seal req (name ∷ names) w = elim (lookup name req.secrets) [
    | none ↦ seal_each seal req names w
    | some write ↦
        after_seal_one write.namespace name (λ v. seal_each seal req names v)
          (seal (seal_request req name write) w)
  ]

  -- buildSealedManifests
  unfoldable pub build_sealed_manifests :
      Seal → ChangeRequest b.Value → b.World → Result (List Manifest) × b.World
  build_sealed_manifests seal req w = seal_each seal req (sorted_map_keys req.secrets) w

  abbrev pub with_error : Manifest → Option String → List String → List String
  with_error manifest none errs = errs
  with_error manifest (some why) errs =
      str_append "apply sealed secret " (
        str_append manifest.namespace
          (str_append "/" (str_append manifest.name (str_append ": " why))))
      ∷ errs

  -- the loop of applySealedManifests, which goes on behind an error
  unfoldable pub apply_each : Applying → List Manifest → b.World → List String × b.World
  apply_each applying [] w = ([], w)
  apply_each applying (manifest ∷ manifests) w =
      let one = applying manifest w in
      let rest = apply_each applying manifests one.1 in (with_error manifest one.0 rest.0, rest.1)

  -- applySealedManifests
  unfoldable pub apply_sealed_manifests :
      Applying → List Manifest → b.World → Option (List String) × b.World
  apply_sealed_manifests applying manifests w =
      let result = apply_each applying manifests w in (joined_errors result.0, result.1)
