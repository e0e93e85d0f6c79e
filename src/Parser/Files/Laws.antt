-- ===== src/Parser/Files/Laws.antt =====
-- internal/parser: exactly which files the parsers of the service's files accept, and as what.
use Prim.Native.String.{String}
use aap_config_server.Base.{
  ℕ, suc, ◌≡◌, ◌≢◌, ◌↔◌, inl, inr, refl, sym, ap, ◌∙◌, true, Option, none, some, List, [], ◌∷◌, map,
  arith, eq_iff, or_then, or_then-none, is_ok, All, Distinct, Option-cases,
}
use aap_config_server.Base.Eq.{text_has_eq}
use aap_config_server.Base.Map.{Map, lookup, insert, lookup-insert}
use aap_config_server.Store.Types.{
  ServiceMetadata, ServiceConfig, EnvVarsConfig, SecretEntry, SecretsConfig,
}
use aap_config_server.Store.Reload.{Parsed, parsed, failed}
use aap_config_server.Parser.Nodes.{SchemaError, missing_fields, missing_entry_fields}
use aap_config_server.Parser.Schema.{
  validate_config_schema, validate_env_vars_schema, validate_secrets_schema,
}
use aap_config_server.Parser.Schema.Laws.{
  conforms_document, config_file_shape, env_vars_file_shape, secrets_file_shape, schemas_accept,
}
use aap_config_server.Parser.Files.{
  Yaml, accepted, rejected, empty_fields, unless_empty, validate_metadata, validate_secret_entry,
  unless_seen, check_entries, accept_if, decoded_with, after_schema, parse_config, parse_env_vars,
  parse_secrets,
}

-- the three parts of a service's key are there
pub record HasIdentity (m : ServiceMetadata) : Type 0 where
  pub service : m.service ≢ ""
  pub org : m.org ≢ ""
  pub project : m.project ≢ ""

-- an entry that names a key of a Kubernetes Secret
pub record IsComplete (entry : SecretEntry) : Type 0 where
  pub id : entry.id ≢ ""
  pub name : entry.k8s_secret.name ≢ ""
  pub namespace : entry.k8s_secret.namespace ≢ ""
  pub key : entry.k8s_secret.key ≢ ""

filled-empty_fields :
    (fields : List (String × String)) → (empty_fields fields ≡ []) ↔ All (λ f. f.1 ≢ "") fields
unfolding empty_fields
filled-empty_fields [] = (λ h. tt, λ h. refl)
filled-empty_fields ((name, content) ∷ fields) = (
  λ h. (ground (arith, eq_iff content ""), (filled-empty_fields fields).0 (ground arith)),
  λ h. ground (arith, eq_iff content "", h.0, (filled-empty_fields fields).1 h.1),
)

unless_empty-none :
    (error : List String → SchemaError) (fields : List String)
    → (unless_empty error fields ≡ none) ↔ (fields ≡ [])
unless_empty-none error [] = (λ h. refl, λ h. refl)
unless_empty-none error (name ∷ more) = (λ h. absurd (cc h), λ h. absurd (cc h))

pub validate_metadata-HasIdentity :
    (file : String) (m : ServiceMetadata) → (validate_metadata file m ≡ none) ↔ HasIdentity m
unfolding validate_metadata
validate_metadata-HasIdentity file m =
    let fields =
      ("metadata.service", m.service)
      ∷ ("metadata.org", m.org)
      ∷ ("metadata.project", m.project)
      ∷ [] in
    (
      λ h.
          let f =
            (filled-empty_fields fields).0 ((unless_empty-none (missing_fields file) _).0 h) in
          record { service = f.0; org = f.1.0; project = f.1.1.0 },
      λ h.
          (unless_empty-none (missing_fields file) _).1
            ((filled-empty_fields fields).1 (h.service, (h.org, (h.project, tt)))),
    )

pub validate_secret_entry-IsComplete :
    (i : ℕ) (entry : SecretEntry) → (validate_secret_entry i entry ≡ none) ↔ IsComplete entry
unfolding validate_secret_entry
validate_secret_entry-IsComplete i entry =
    let fields =
      ("id", entry.id)
      ∷ ("k8s_secret.name", entry.k8s_secret.name)
      ∷ ("k8s_secret.namespace", entry.k8s_secret.namespace)
      ∷ ("k8s_secret.key", entry.k8s_secret.key)
      ∷ [] in
    (
      λ h.
          let f =
            (filled-empty_fields fields).0 ((unless_empty-none (missing_entry_fields i) _).0 h) in
          record { id = f.0; name = f.1.0; namespace = f.1.1.0; key = f.1.1.1.0 },
      λ h.
          (unless_empty-none (missing_entry_fields i) _).1
            ((filled-empty_fields fields).1 (h.id, (h.name, (h.namespace, (h.key, tt))))),
    )

-- the ids of the entries
abbrev pub ids : List SecretEntry → List String
ids entries = map (λ e. e.id) entries

abbrev Unseen : Map String ℕ → List SecretEntry → Type 0
Unseen seen entries = All (λ e. lookup e.id seen ≡ none) entries

unless_seen-none : (id : String) (i : ℕ) (o : Option ℕ) → (unless_seen id i o ≡ none) ↔ (o ≡ none)
unless_seen-none id i none = (λ h. refl, λ h. refl)
unless_seen-none id i (some prev) = (λ h. absurd (cc h), λ h. absurd (cc h))

or_then-nones :
    (early later : Option SchemaError) → early ≡ none → later ≡ none → or_then early later ≡ none
or_then-nones early later p q = ap (λ e. or_then e later) p ∙ q

nothing_seen : (entries : List SecretEntry) → Unseen [] entries
unfolding lookup
nothing_seen [] = tt
nothing_seen (e ∷ entries) = (refl, nothing_seen entries)

Unseen-insert :
    (id : String) (i : ℕ) (seen : Map String ℕ) (entries : List SecretEntry)
    → (Unseen (insert id i seen) entries) ↔ (All (λ k. id ≢ k) (ids entries) × Unseen seen entries)
Unseen-insert id i seen [] = (λ h. (tt, tt), λ h. tt)
Unseen-insert id i seen (e ∷ entries) = (
  λ h.
      let rest = (Unseen-insert id i seen entries).0 h.1 in
      (
        (ground (arith, lookup-insert id e.id i seen, eq_iff id e.id, h.0), rest.0),
        (ground (arith, lookup-insert id e.id i seen, eq_iff id e.id, h.0), rest.1),
      ),
  λ h. (
    ground (arith, lookup-insert id e.id i seen, eq_iff id e.id, h.0.0, h.1.0),
    (Unseen-insert id i seen entries).1 (h.0.1, h.1.1),
  ),
)

check_entries_lem :
    (entries : List SecretEntry) (i : ℕ) (seen : Map String ℕ)
    → (check_entries i seen entries ≡ none)
      ↔ (All IsComplete entries × Distinct (ids entries) × Unseen seen entries)
unfolding check_entries
check_entries_lem [] i seen = (λ h. (tt, tt, tt), λ h. refl)
check_entries_lem (e ∷ entries) i seen = (
  λ h.
      let parts = or_then-none _ _ h in
      let first = or_then-none _ _ parts.0 in
      let later = (check_entries_lem entries (suc i) (insert e.id i seen)).0 parts.1 in
      let split = (Unseen-insert e.id i seen entries).0 later.2 in
      (
        ((validate_secret_entry-IsComplete i e).0 first.0, later.0),
        (split.0, later.1),
        ((unless_seen-none e.id i (lookup e.id seen)).0 first.1, split.1),
      ),
  λ h.
      or_then-nones _ _
        (or_then-nones _ _ ((validate_secret_entry-IsComplete i e).1 h.0.0)
          ((unless_seen-none e.id i (lookup e.id seen)).1 h.2.0))
        ((check_entries_lem entries (suc i) (insert e.id i seen)).1
          (h.0.1, h.1.1, (Unseen-insert e.id i seen entries).1 (h.1.0, h.2.1))),
)

-- the schema passes, the file decodes, and the record passes its own check
accepted_iff :
    {A : Type 0} (file : String) (schema : Option SchemaError) (check : A → Option SchemaError)
    (decoding : Parsed A) (cfg : A)
    → (after_schema schema (decoded_with file check decoding) ≡ accepted cfg)
      ↔ ((is_ok schema ≡ true) × (decoding ≡ parsed cfg) × (check cfg ≡ none))
accepted_iff file (some why) check decoding cfg = (λ h. absurd (cc h), λ h. absurd (cc h.0))
accepted_iff file none check (failed why) cfg = (λ h. absurd (cc h), λ h. absurd (cc h.1))
accepted_iff file none check (parsed found) cfg = elim (Option-cases (check found)) [
  | inl ok ↦ (
    λ h.
        let kept : accepted found ≡ accepted cfg = ap (accept_if found) (sym ok) ∙ h in
        let same : found ≡ cfg = cc kept in (refl, ap parsed same, ap check (sym same) ∙ ok),
    λ h. let same : found ≡ cfg = cc h.1 in ap (accept_if found) ok ∙ ap accepted same,
  )
  | inr (why, bad) ↦ (
    λ h.
        let kept : rejected why ≡ accepted cfg = ap (accept_if found) (sym bad) ∙ h in
        absurd (cc kept),
    λ h. let same : found ≡ cfg = cc h.1 in absurd (cc (bad, h.2, ap check same)),
  )
]

module _ (y : Yaml) where
  -- ParseConfig accepts a file as a config exactly if the file has the shape of config.yaml, YAML
  -- decodes it as that config, and the config's metadata names its service, org and project.
  pub parse_config_lem :
      (raw : y.Raw) (cfg : ServiceConfig)
      → (parse_config y raw ≡ accepted cfg) ↔ (
          (conforms_document config_file_shape (y.nodes raw) ≡ true)
          × (y.decode_config raw ≡ parsed cfg)
          × HasIdentity cfg.metadata)
  unfolding parse_config
  parse_config_lem raw cfg =
      let split =
        accepted_iff "config.yaml" (validate_config_schema (y.nodes raw))
          (λ c. validate_metadata "config.yaml" c.metadata) (y.decode_config raw) cfg in
      let shape = (schemas_accept (y.nodes raw)).0 in
      let named = validate_metadata-HasIdentity "config.yaml" cfg.metadata in
      (
        λ h. let s = split.0 h in (sym shape ∙ s.0, s.1, named.0 s.2),
        λ h. split.1 (shape ∙ h.0, h.1, named.1 h.2),
      )

  -- The same for an env_vars file.
  pub parse_env_vars_lem :
      (raw : y.Raw) (cfg : EnvVarsConfig)
      → (parse_env_vars y raw ≡ accepted cfg) ↔ (
          (conforms_document env_vars_file_shape (y.nodes raw) ≡ true)
          × (y.decode_env_vars raw ≡ parsed cfg)
          × HasIdentity cfg.metadata)
  unfolding parse_env_vars
  parse_env_vars_lem raw cfg =
      let split =
        accepted_iff "env_vars.yaml" (validate_env_vars_schema (y.nodes raw))
          (λ c. validate_metadata "env_vars.yaml" c.metadata) (y.decode_env_vars raw) cfg in
      let shape = (schemas_accept (y.nodes raw)).1 in
      let named = validate_metadata-HasIdentity "env_vars.yaml" cfg.metadata in
      (
        λ h. let s = split.0 h in (sym shape ∙ s.0, s.1, named.0 s.2),
        λ h. split.1 (shape ∙ h.0, h.1, named.1 h.2),
      )

  -- ParseSecrets accepts a file as a list of secrets exactly if the file has the shape of
  -- secrets.yaml, YAML decodes it as that list, every entry has its id and names a key of a
  -- Kubernetes Secret in full, and no two entries share an id.
  pub parse_secrets_lem :
      (raw : y.Raw) (cfg : SecretsConfig)
      → (parse_secrets y raw ≡ accepted cfg) ↔ (
          (conforms_document secrets_file_shape (y.nodes raw) ≡ true)
          × (y.decode_secrets raw ≡ parsed cfg)
          × All IsComplete cfg.secrets
          × Distinct (ids cfg.secrets))
  unfolding parse_secrets
  parse_secrets_lem raw cfg =
      let split =
        accepted_iff "secrets.yaml" (validate_secrets_schema (y.nodes raw))
          (λ c. check_entries 0 [] c.secrets) (y.decode_secrets raw) cfg in
      let shape = (schemas_accept (y.nodes raw)).2 in
      let entries = check_entries_lem cfg.secrets 0 [] in
      (
        λ h. let s = split.0 h in let e = entries.0 s.2 in (sym shape ∙ s.0, s.1, e.0, e.1),
        λ h. split.1 (shape ∙ h.0, h.1, entries.1 (h.2, h.3, nothing_seen cfg.secrets)),
      )
