-- ===== src/Store/Paths/Laws.antt =====
-- Paths of internal/store/store.go: what is written for a service is found again under its key, and
-- nothing else is.
use Prim.Native.String.{String, ◌++◌}
use text.Mathlib.TextLemmas.{append_assoc}
use aap_config_server.Base.{
  ◌≡◌, refl, sym, ap, ◌∙◌, true, Option, none, some, List, [], ◌∷◌, arith, eq_iff, inl, inr,
  Option-cases,
}
use aap_config_server.Base.Eq.{text_has_eq}
use aap_config_server.Base.Text.{
  split_on, lacks, cut_prefix, join, cut_prefix-append, cut_prefix_sound, split_on-join, AllLack,
  join-split_on, split_on-AllLack,
}
use aap_config_server.Store.Types.{ServiceKey}
use aap_config_server.Store.Paths.{
  slash, key_string, service_path, FileType, file_name, file_type, classify_file, classify_parts,
  classify_path, classify_rest, keyed,
}

-- A service key of the repository has no slash in its parts.
pub record IsSlashFree (key : ServiceKey) : Type 0 where
  pub org : lacks slash key.org ≡ true
  pub project : lacks slash key.project ≡ true
  pub service : lacks slash key.service ≡ true

projects_joined : (t : String) → "/projects/" ++ t ≡ "/" ++ ("projects" ++ ("/" ++ t))
projects_joined t = append_assoc "/projects" "/" t ∙ append_assoc "/" "projects" ("/" ++ t)

services_joined : (t : String) → "/services/" ++ t ≡ "/" ++ ("services" ++ ("/" ++ t))
services_joined t = append_assoc "/services" "/" t ∙ append_assoc "/" "services" ("/" ++ t)

-- the path of a file in a service's directory
abbrev pub file_path : ServiceKey → String → String
file_path key file = service_path key.org key.project key.service ++ ("/" ++ file)

file_path_joined :
    (o p s f : String)
    → service_path o p s ++ ("/" ++ f)
      ≡ "configs/orgs/" ++ join "/" (o ∷ "projects" ∷ p ∷ "services" ∷ s ∷ f ∷ [])
unfolding service_path join
file_path_joined o p s f = simp (append_assoc, projects_joined, services_joined)

abbrev pub file_parts : ServiceKey → String → List String
file_parts key file = key.org ∷ "projects" ∷ key.project ∷ "services" ∷ key.service ∷ file ∷ []

projects_lacks : lacks slash "projects" ≡ true
unfolding lacks
projects_lacks = refl

services_lacks : lacks slash "services" ≡ true
unfolding lacks
services_lacks = refl

lacks-file_name : (kind : FileType) → lacks slash (file_name kind) ≡ true
unfolding lacks
lacks-file_name FileType.config = refl
lacks-file_name FileType.env_vars = refl
lacks-file_name FileType.secrets = refl

classify_parts_kind :
    (key : ServiceKey) (kind : FileType)
    → classify_parts (file_parts key (file_name kind)) ≡ some (key_string key, kind)
unfolding classify_parts cut_prefix
classify_parts_kind key FileType.config = refl
classify_parts_kind key FileType.env_vars = refl
classify_parts_kind key FileType.secrets = refl

-- A file that an admin write puts into a service's directory is classified as that service's file
-- of that kind, for names without a slash.
pub classify-service_path :
    (key : ServiceKey) (kind : FileType)
    → IsSlashFree key
    → classify_path (service_path key.org key.project key.service ++ ("/" ++ file_name kind))
      ≡ some (key_string key, kind)
unfolding classify_path
classify-service_path key kind h =
    ap (λ path. classify_rest (cut_prefix "configs/orgs/" path))
      (file_path_joined key.org key.project key.service (file_name kind))
    ∙ (ap classify_rest
          (cut_prefix-append "configs/orgs/" (join "/" (file_parts key (file_name kind))))
        ∙ (ap classify_parts (
              split_on-join slash "/" key.org
                ("projects" ∷ key.project ∷ "services" ∷ key.service ∷ file_name kind ∷ []) refl
                (
                  h.org,
                  (
                    projects_lacks,
                    (h.project, (services_lacks, (h.service, (lacks-file_name kind, tt)))),
                  ),
                ))
            ∙ classify_parts_kind key kind))

-- Keys of slash-free names split back into those names: `applyDefaultsInheritance` finds the service
-- of a key that `classifyPath` made.
pub split_on-key_string :
    (key : ServiceKey)
    → IsSlashFree key
    → split_on slash (key_string key) ≡ key.org ∷ key.project ∷ key.service ∷ []
unfolding key_string join
split_on-key_string key h =
    split_on-join slash "/" key.org (key.project ∷ key.service ∷ []) refl
      (h.org, (h.project, (h.service, tt)))

file_type_sound :
    (file : String) (kind : FileType) → file_type file ≡ some kind → file ≡ file_name kind
file_type_sound file FileType.config h =
    ground
      (arith, eq_iff file "config.yaml", eq_iff file "env_vars.yaml", eq_iff file "secrets.yaml")
file_type_sound file FileType.env_vars h =
    ground
      (arith, eq_iff file "config.yaml", eq_iff file "env_vars.yaml", eq_iff file "secrets.yaml")
file_type_sound file FileType.secrets h =
    ground
      (arith, eq_iff file "config.yaml", eq_iff file "env_vars.yaml", eq_iff file "secrets.yaml")

keyed_sound :
    (key name : String) (o : Option FileType) (kind : FileType)
    → keyed key o ≡ some (name, kind)
    → (o ≡ some kind) × (name ≡ key)
keyed_sound key name none kind h = ground arith
keyed_sound key name (some other) kind h = ground arith

classify_file_sound :
    (key : ServiceKey) (file name : String) (kind : FileType)
    → classify_file key file ≡ some (name, kind)
    → (file ≡ file_name kind) × (name ≡ key_string key)
classify_file_sound key file name kind h =
    let found = keyed_sound (key_string key) name (file_type file) kind (ground arith) in
    (file_type_sound file kind found.0, found.1)

-- what a path must look like to be the file of a service
pub record IsServiceFile (path name : String) (kind : FileType) : Type 0 where
  pub key : ServiceKey
  pub below : List String
  pub slash_free : IsSlashFree key
  pub named : name ≡ key_string key
  pub parts :
      path
      ≡ "configs/orgs/"
        ++ join "/"
            (key.org ∷ "projects" ∷ key.project ∷ "services" ∷ key.service ∷ file_name kind ∷ below)

classify_parts_sound :
    (parts : List String) (path name : String) (kind : FileType)
    → AllLack slash parts
    → path ≡ "configs/orgs/" ++ join "/" parts
    → classify_parts parts ≡ some (name, kind)
    → IsServiceFile path name kind
unfolding classify_parts
classify_parts_sound [] path name kind l p h = ground arith
classify_parts_sound (a ∷ []) path name kind l p h = ground arith
classify_parts_sound (a ∷ b ∷ []) path name kind l p h = ground arith
classify_parts_sound (a ∷ b ∷ c ∷ []) path name kind l p h = ground arith
classify_parts_sound (a ∷ b ∷ c ∷ d ∷ []) path name kind l p h = ground arith
classify_parts_sound (a ∷ b ∷ c ∷ d ∷ e ∷ []) path name kind l p h = ground arith
classify_parts_sound (o ∷ projects ∷ p ∷ services ∷ s ∷ file ∷ more) path name kind l at h =
    let key : ServiceKey = record { org = o; project = p; service = s } in
    let found = classify_file_sound key file name kind (ground arith) in
    let is_projects : projects ≡ "projects" = ground (arith, eq_iff projects "projects") in
    let is_services : services ≡ "services" = ground (arith, eq_iff services "services") in
    record {
      key = key;
      below = more;
      slash_free = record { org = l.0; project = l.1.1.0; service = l.1.1.1.1.0 };
      named = found.1;
      parts = at ∙ cc (is_projects, is_services, found.0);
    }

-- Only the files below a service's directory are classified: the path has the organisation, the
-- project and the service of the key in their places, then the kind's file name; the code lets
-- further parts follow that name.
pub classify_path_sound :
    (path name : String) (kind : FileType)
    → classify_path path ≡ some (name, kind)
    → IsServiceFile path name kind
unfolding classify_path
classify_path_sound path name kind h = elim (Option-cases (cut_prefix "configs/orgs/" path)) [
  | inl n ↦ ground (arith, ap classify_rest n)
  | inr (rest, s) ↦
      classify_parts_sound (split_on slash rest) path name kind (split_on-AllLack slash rest)
        (cut_prefix_sound "configs/orgs/" path rest s
          ∙ ap (λ t. "configs/orgs/" ++ t) (sym (join-split_on slash "/" rest refl)))
        (sym (ap classify_rest s) ∙ h)
]

-- A file below a directory that is named config.yaml, of whatever name itself, is taken for the
-- service's config.
pub classify_path_below :
    (key : ServiceKey) (below : String)
    → IsSlashFree key
    → lacks slash below ≡ true
    → classify_path (
        "configs/orgs/"
        ++ join "/" (
            key.org ∷ "projects" ∷ key.project ∷ "services" ∷ key.service ∷ "config.yaml" ∷ below
            ∷ []))
      ≡ some (key_string key, FileType.config)
unfolding classify_path classify_parts
classify_path_below key below h b =
    ap classify_rest (
      cut_prefix-append "configs/orgs/" (
        join "/" (
          key.org ∷ "projects" ∷ key.project ∷ "services" ∷ key.service ∷ "config.yaml" ∷ below
          ∷ [])))
    ∙ (ap classify_parts (
          split_on-join slash "/" key.org
            ("projects" ∷ key.project ∷ "services" ∷ key.service ∷ "config.yaml" ∷ below ∷ []) refl
            (
              h.org,
              (
                projects_lacks,
                (
                  h.project,
                  (services_lacks, (h.service, (lacks-file_name FileType.config, (b, tt)))),
                ),
              ),
            ))
        ∙ classify_parts_kind key FileType.config)
