-- ===== src/Parser/Schema/Laws.antt =====
-- internal/parser/validate.go: each schema check accepts the documents of one shape, no others.
use Prim.Native.String.{String, ◌++◌}
use aap_config_server.Base.{
  ℕ, suc, ◌≡◌, refl, ◌∙◌, Bool, true, false, ◌&&◌, Option, List, [], ◌∷◌, arith, or_then, is_ok,
  is_ok-or_then, Bool-cases,
}
use aap_config_server.Base.Decimal.{decimal}
use aap_config_server.Parser.Nodes.{
  Node, kind, content, is_mapping, is_scalar, is_sequence, SchemaError, require_mapping,
  require_scalar, child, optional, each, validate_string_map,
}
use aap_config_server.Parser.Nodes.Laws.{
  every, has_keys, is_string_map, given, is_ok-optional, is_ok-require_mapping,
  is_ok-require_scalar, is_ok-validate_mapping_keys, is_ok-validate_string_map,
}
use aap_config_server.Parser.Schema.{
  Document, unreadable, document, root_mapping, with_root, scalar_at, validate_metadata_schema,
  validate_env_vars_block, check_config, validate_config_schema, check_env_vars,
  validate_env_vars_schema, check_k8s_secret, check_secret, check_secret_items, check_secret_list,
  check_secrets, validate_secrets_schema, check_defaults, validate_defaults_schema,
}

-- What a node may look like: an object has the named members, each of which may be missing.
mutual
  pub data Shape : Type 0 where
    scalar : Shape
    free_map : Shape
    string_map : Shape
    object : Members → Shape
    items : Shape → Shape

  pub data Members : Type 0 where
    end : Members
    member : String → Shape → Members → Members

abbrev pub names : Members → List String
names end = []
names (member name shape rest) = name ∷ names rest

unfoldable mutual
  pub conforms : Shape → Node → Bool
  conforms scalar n = is_scalar (kind n)
  conforms free_map n = is_mapping (kind n)
  conforms string_map n = is_string_map n
  conforms (object members) n =
      is_mapping (kind n) && (has_keys (names members) n && has_members members n)
  conforms (items shape) n = is_sequence (kind n) && every (conforms shape) (content n)

  pub has_members : Members → Node → Bool
  has_members end n = true
  has_members (member name shape rest) n =
      given (conforms shape) (child n name) && has_members rest n

-- the first node of a file that parses
abbrev pub conforms_document : Shape → Document → Bool
conforms_document shape (unreadable why) = false
conforms_document shape (document []) = false
conforms_document shape (document (n ∷ more)) = conforms shape n

abbrev pub metadata_shape : Shape
metadata_shape = object (
    member "service" scalar
      (member "org" scalar (member "project" scalar (member "updated_at" scalar end))))

abbrev pub env_vars_shape : Shape
env_vars_shape = object (member "plain" string_map (member "secret_refs" string_map end))

abbrev pub config_file_members : Members
config_file_members =
    (member "version" scalar (member "metadata" metadata_shape (member "config" free_map end)))

abbrev pub config_file_shape : Shape
config_file_shape = object config_file_members

abbrev pub env_vars_file_members : Members
env_vars_file_members =
    (member "version" scalar
      (member "metadata" metadata_shape (member "env_vars" env_vars_shape end)))

abbrev pub env_vars_file_shape : Shape
env_vars_file_shape = object env_vars_file_members

abbrev pub k8s_secret_shape : Shape
k8s_secret_shape =
    object (member "name" scalar (member "namespace" scalar (member "key" scalar end)))

abbrev pub secret_shape : Shape
secret_shape =
    object
      (member "id" scalar (member "description" scalar (member "k8s_secret" k8s_secret_shape end)))

abbrev pub secrets_file_members : Members
secrets_file_members = (member "version" scalar (member "secrets" (items secret_shape) end))

abbrev pub secrets_file_shape : Shape
secrets_file_shape = object secrets_file_members

abbrev pub defaults_file_members : Members
defaults_file_members = (member "config" free_map (member "env_vars" env_vars_shape end))

abbrev pub defaults_file_shape : Shape
defaults_file_shape = object defaults_file_members

-- one check after another
both :
    (a b : Option SchemaError) (x y : Bool)
    → is_ok a ≡ x
    → is_ok b ≡ y
    → is_ok (or_then a b) ≡ x && y
both a b x y p q = is_ok-or_then a b ∙ rw (p, q) refl

scalar_at-conforms :
    (file : String) (n : Node) (prefix key : String)
    → is_ok (scalar_at file n prefix key) ≡ given (conforms scalar) (child n key)
unfolding conforms
scalar_at-conforms file n prefix key =
    is_ok-optional (require_scalar file (prefix ++ key)) (conforms scalar)
      (is_ok-require_scalar file (prefix ++ key)) (child n key)

each_member :
    (check : String → Option SchemaError) (ok : String → Bool)
    → ((key : String) → is_ok (check key) ≡ ok key)
    → (keys : List String) → is_ok (each check keys) ≡ every ok keys
unfolding each every
each_member check ok h [] = refl
each_member check ok h (key ∷ keys) =
    both (check key) (each check keys) (ok key) (every ok keys) (h key)
      (each_member check ok h keys)

validate_metadata_schema-conforms :
    (file : String) (n : Node) → is_ok (validate_metadata_schema file n) ≡ conforms metadata_shape n
unfolding validate_metadata_schema conforms every
validate_metadata_schema-conforms file n = both _ _ _ _ (is_ok-require_mapping file "metadata" n) (
    both _ _ _ _ (is_ok-validate_mapping_keys file n "metadata" _) (
      each_member (scalar_at file n "metadata.") (λ key. given (conforms scalar) (child n key))
        (scalar_at-conforms file n "metadata.") _))

validate_env_vars_block-conforms :
    (file path : String) (n : Node)
    → is_ok (validate_env_vars_block file path n) ≡ conforms env_vars_shape n
unfolding validate_env_vars_block conforms every
validate_env_vars_block-conforms file path n = both _ _ _ _ (is_ok-require_mapping file path n) (
    both _ _ _ _ (is_ok-validate_mapping_keys file n path _) (
      each_member (λ key. optional (validate_string_map file (path ++ ("." ++ key))) (child n key))
        (λ key. given (conforms string_map) (child n key))
        (λ key.
          is_ok-optional (validate_string_map file (path ++ ("." ++ key))) (conforms string_map)
            (is_ok-validate_string_map file (path ++ ("." ++ key))) (child n key))
        _))

rooted :
    (file : String) (check : Node → Option SchemaError) (members : Members)
    → ((n : Node) → is_ok (check n) ≡ has_keys (names members) n && has_members members n)
    → (doc : Document)
    → is_ok (with_root check (root_mapping file doc)) ≡ conforms_document (object members) doc
unfolding root_mapping conforms
rooted file check members h (unreadable why) = refl
rooted file check members h (document []) = refl
rooted file check members h (document (n ∷ more)) =
    ground (arith, h n, Bool-cases (is_mapping (kind n)))

-- metadata is checked before the version
first_swapped : (k m v c : Bool) → k && (m && (v && c)) ≡ k && (v && (m && (c && true)))
first_swapped k m v c = ground arith

last_true : (k a b : Bool) → k && (a && b) ≡ k && (a && (b && true))
last_true k a b = ground arith

version_given :
    (file : String) (r : Node)
    → is_ok (optional (require_scalar file "version") (child r "version"))
      ≡ given (conforms scalar) (child r "version")
unfolding conforms
version_given file r =
    is_ok-optional (require_scalar file "version") (conforms scalar)
      (is_ok-require_scalar file "version") (child r "version")

config_given :
    (file : String) (r : Node)
    → is_ok (optional (require_mapping file "config") (child r "config"))
      ≡ given (conforms free_map) (child r "config")
unfolding conforms
config_given file r =
    is_ok-optional (require_mapping file "config") (conforms free_map)
      (is_ok-require_mapping file "config") (child r "config")

metadata_given :
    (file : String) (r : Node)
    → is_ok (optional (validate_metadata_schema file) (child r "metadata"))
      ≡ given (conforms metadata_shape) (child r "metadata")
metadata_given file r =
    is_ok-optional (validate_metadata_schema file) (conforms metadata_shape)
      (validate_metadata_schema-conforms file) (child r "metadata")

env_vars_given :
    (file : String) (r : Node)
    → is_ok (optional (validate_env_vars_block file "env_vars") (child r "env_vars"))
      ≡ given (conforms env_vars_shape) (child r "env_vars")
env_vars_given file r =
    is_ok-optional (validate_env_vars_block file "env_vars") (conforms env_vars_shape)
      (validate_env_vars_block-conforms file "env_vars") (child r "env_vars")

pub validate_config_schema-conforms :
    (doc : Document) → is_ok (validate_config_schema doc) ≡ conforms_document config_file_shape doc
unfolding validate_config_schema check_config has_members
validate_config_schema-conforms doc =
    rooted "config.yaml" check_config config_file_members
      (λ r.
        both _ _ _ _ (is_ok-validate_mapping_keys "config.yaml" r "root" _) (
          both _ _ _ _ (metadata_given "config.yaml" r)
            (both _ _ _ _ (version_given "config.yaml" r) (config_given "config.yaml" r)))
        ∙ first_swapped (has_keys (names config_file_members) r)
            (given (conforms metadata_shape) (child r "metadata"))
            (given (conforms scalar) (child r "version"))
            (given (conforms free_map) (child r "config")))
      doc

pub validate_env_vars_schema-conforms :
    (doc : Document)
    → is_ok (validate_env_vars_schema doc) ≡ conforms_document env_vars_file_shape doc
unfolding validate_env_vars_schema check_env_vars has_members
validate_env_vars_schema-conforms doc =
    rooted "env_vars.yaml" check_env_vars env_vars_file_members
      (λ r.
        both _ _ _ _ (is_ok-validate_mapping_keys "env_vars.yaml" r "root" _) (
          both _ _ _ _ (metadata_given "env_vars.yaml" r)
            (both _ _ _ _ (version_given "env_vars.yaml" r) (env_vars_given "env_vars.yaml" r)))
        ∙ first_swapped (has_keys (names env_vars_file_members) r)
            (given (conforms metadata_shape) (child r "metadata"))
            (given (conforms scalar) (child r "version"))
            (given (conforms env_vars_shape) (child r "env_vars")))
      doc

pub validate_defaults_schema-conforms :
    (doc : Document)
    → is_ok (validate_defaults_schema doc) ≡ conforms_document defaults_file_shape doc
unfolding validate_defaults_schema check_defaults has_members
validate_defaults_schema-conforms doc =
    rooted "_defaults/common.yaml" check_defaults defaults_file_members
      (λ r.
        both _ _ _ _ (is_ok-validate_mapping_keys "_defaults/common.yaml" r "root" _) (
          both _ _ _ _ (config_given "_defaults/common.yaml" r)
            (env_vars_given "_defaults/common.yaml" r))
        ∙ last_true (has_keys (names defaults_file_members) r)
            (given (conforms free_map) (child r "config"))
            (given (conforms env_vars_shape) (child r "env_vars")))
      doc

check_k8s_secret-conforms :
    (path : String) (n : Node) → is_ok (check_k8s_secret path n) ≡ conforms k8s_secret_shape n
unfolding check_k8s_secret conforms every
check_k8s_secret-conforms path n = both _ _ _ _ (is_ok-require_mapping "secrets.yaml" path n) (
    both _ _ _ _ (is_ok-validate_mapping_keys "secrets.yaml" n path _) (
      each_member (scalar_at "secrets.yaml" n (path ++ "."))
        (λ key. given (conforms scalar) (child n key))
        (scalar_at-conforms "secrets.yaml" n (path ++ ".")) _))

-- the two texts are checked in one loop
regrouped :
    (m k a b c : Bool)
    → m && (k && ((a && (b && true)) && c)) ≡ m && (k && (a && (b && (c && true))))
regrouped m k a b c = ground arith

check_secret-conforms :
    (path : String) (n : Node) → is_ok (check_secret path n) ≡ conforms secret_shape n
unfolding check_secret conforms every
check_secret-conforms path n =
    both _ _ _ _ (is_ok-require_mapping "secrets.yaml" path n) (
      both _ _ _ _ (is_ok-validate_mapping_keys "secrets.yaml" n path _) (
        both _ _ _ _
          (each_member (scalar_at "secrets.yaml" n (path ++ "."))
            (λ key. given (conforms scalar) (child n key))
            (scalar_at-conforms "secrets.yaml" n (path ++ ".")) _)
          (is_ok-optional (check_k8s_secret (path ++ ".k8s_secret")) (conforms k8s_secret_shape)
            (check_k8s_secret-conforms (path ++ ".k8s_secret")) (child n "k8s_secret"))))
    ∙ regrouped (is_mapping (kind n)) (has_keys ("id" ∷ "description" ∷ "k8s_secret" ∷ []) n)
        (given (conforms scalar) (child n "id")) (given (conforms scalar) (child n "description"))
        (given (conforms k8s_secret_shape) (child n "k8s_secret"))

check_secret_items-conforms :
    (i : ℕ) (ns : List Node) → is_ok (check_secret_items i ns) ≡ every (conforms secret_shape) ns
unfolding check_secret_items every
check_secret_items-conforms i [] = refl
check_secret_items-conforms i (n ∷ ns) =
    both _ _ _ _ (check_secret-conforms ("secrets[" ++ (decimal i ++ "]")) n)
      (check_secret_items-conforms (suc i) ns)

check_secret_list-conforms :
    (n : Node) → is_ok (check_secret_list n) ≡ conforms (items secret_shape) n
unfolding check_secret_list conforms
check_secret_list-conforms n =
    ground (arith, check_secret_items-conforms 0 (content n), Bool-cases (is_sequence (kind n)))

pub validate_secrets_schema-conforms :
    (doc : Document)
    → is_ok (validate_secrets_schema doc) ≡ conforms_document secrets_file_shape doc
unfolding validate_secrets_schema check_secrets has_members
validate_secrets_schema-conforms doc =
    rooted "secrets.yaml" check_secrets secrets_file_members
      (λ r.
        both _ _ _ _ (is_ok-validate_mapping_keys "secrets.yaml" r "root" _) (
          both _ _ _ _ (version_given "secrets.yaml" r) (
            is_ok-optional check_secret_list (conforms (items secret_shape))
              check_secret_list-conforms (child r "secrets")))
        ∙ last_true (has_keys (names secrets_file_members) r)
            (given (conforms scalar) (child r "version"))
            (given (conforms (items secret_shape)) (child r "secrets")))
      doc

-- Each of the four schema checks accepts a file exactly if it parses as YAML and its first node has
-- the file's shape: a mapping with the listed fields at most, no key twice, and each field that is
-- there of its own shape, at every depth.
pub schemas_accept :
    (doc : Document)
    → (is_ok (validate_config_schema doc) ≡ conforms_document config_file_shape doc)
      × (is_ok (validate_env_vars_schema doc) ≡ conforms_document env_vars_file_shape doc)
      × (is_ok (validate_secrets_schema doc) ≡ conforms_document secrets_file_shape doc)
      × (is_ok (validate_defaults_schema doc) ≡ conforms_document defaults_file_shape doc)
schemas_accept doc = (
  validate_config_schema-conforms doc,
  validate_env_vars_schema-conforms doc,
  validate_secrets_schema-conforms doc,
  validate_defaults_schema-conforms doc,
)
