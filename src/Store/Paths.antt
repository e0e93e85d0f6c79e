-- ===== src/Store/Paths.antt =====
-- internal/store/store.go and types.go: where a service's files live in the repository, and which
-- service and kind of file a path of the repository stands for.
pub mod Laws
pub mod Names
use Prim.Native.Char.{code}
use Prim.Native.String.{String, ◌++◌, len}
use aap_config_server.Base.{
  ℕ, Bool, true, false, not, ◌&&◌, ◌||◌, Option, none, some, List, [], ◌∷◌, if◌then◌else◌, is_some,
  nat_beq, leb,
}
use aap_config_server.Base.Eq.{◌==◌, text_has_eq}
use aap_config_server.Base.Text.{split_on, lacks, cut_prefix, all_chars}
use aap_config_server.Store.Types.{ServiceKey, DefaultsScope, DefaultsSource}

abbrev pub slash : ℕ
slash = b'/'

-- ServiceKey.String
unfoldable pub key_string : ServiceKey → String
key_string key = key.org ++ ("/" ++ (key.project ++ ("/" ++ key.service)))

-- ServicePath
unfoldable pub service_path : String → String → String → String
service_path org project service =
    "configs/orgs/" ++ (org ++ ("/projects/" ++ (project ++ ("/services/" ++ service))))

pub data FileType : Type 0 where
  config : FileType
  env_vars : FileType
  secrets : FileType

-- the switch over the file's name
abbrev pub file_type : String → Option FileType
file_type file =
    if file == "config.yaml"
    then some FileType.config
    else if file == "env_vars.yaml"
    then some FileType.env_vars
    else if file == "secrets.yaml"
    then some FileType.secrets
    else none

abbrev pub file_name : FileType → String
file_name FileType.config = "config.yaml"
file_name FileType.env_vars = "env_vars.yaml"
file_name FileType.secrets = "secrets.yaml"

abbrev pub keyed : String → Option FileType → Option (String × FileType)
keyed key none = none
keyed key (some kind) = some (key, kind)

-- the file's part: skipped names first, then the switch
abbrev pub classify_file : ServiceKey → String → Option (String × FileType)
classify_file key file =
    if file == "sealed-secrets" || is_some (cut_prefix "_" file)
    then none
    else keyed (key_string key) (file_type file)

-- the checks on the parts behind the prefix
unfoldable pub classify_parts : List String → Option (String × FileType)
classify_parts (org ∷ projects ∷ proj ∷ services ∷ svc ∷ file ∷ more) =
    if not (projects == "projects") || not (services == "services")
    then none
    else classify_file (record { org = org; project = proj; service = svc }) file
classify_parts parts = none

abbrev pub classify_rest : Option String → Option (String × FileType)
classify_rest none = none
classify_rest (some rest) = classify_parts (split_on slash rest)

-- classifyPath
unfoldable pub classify_path : String → Option (String × FileType)
classify_path path = classify_rest (cut_prefix "configs/orgs/" path)

-- the three shapes of classifyDefaultsPath, by the number of parts
unfoldable pub classify_defaults_parts : String → List String → Option DefaultsSource
classify_defaults_parts path (a ∷ b ∷ c ∷ []) =
    if a == "configs" && b == "_defaults" && c == "common.yaml"
    then some (record {
      scope = DefaultsScope.global;
      org = "";
      project = "";
      path = path;
      has_config = false;
      has_env_vars = false;
    })
    else none
classify_defaults_parts path (a ∷ b ∷ c ∷ d ∷ e ∷ []) =
    if a == "configs" && b == "orgs" && d == "_defaults" && e == "common.yaml" && not (c == "")
    then some (record {
      scope = DefaultsScope.org;
      org = c;
      project = "";
      path = path;
      has_config = false;
      has_env_vars = false;
    })
    else none
classify_defaults_parts path (a ∷ b ∷ c ∷ d ∷ e ∷ f ∷ g ∷ []) =
    if a == "configs"
      && b == "orgs"
      && d == "projects"
      && f == "_defaults"
      && g == "common.yaml"
      && not (c == "")
      && not (e == "")
    then some (record {
      scope = DefaultsScope.project;
      org = c;
      project = e;
      path = path;
      has_config = false;
      has_env_vars = false;
    })
    else none
classify_defaults_parts path parts = none

-- classifyDefaultsPath
unfoldable pub classify_defaults_path : String → Option DefaultsSource
classify_defaults_path path = classify_defaults_parts path (split_on slash path)

abbrev pub is_between : ℕ → ℕ → ℕ → Bool
is_between lo hi c = leb lo c && leb c hi

abbrev pub is_digit : ℕ → Bool
is_digit c = is_between b'0' b'9' c

abbrev pub is_lower : ℕ → Bool
is_lower c = is_between b'a' b'z' c

abbrev pub is_alnum : ℕ → Bool
is_alnum c = is_lower c || is_between b'A' b'Z' c || is_digit c

-- validNameRe: ^[a-zA-Z0-9][a-zA-Z0-9._-]*$
abbrev pub is_name_char : ℕ → Bool
is_name_char c = is_alnum c || nat_beq c b'.' || nat_beq c b'_' || nat_beq c b'-'

unfoldable pub is_valid_name : String → Bool
is_valid_name String.[] = false
is_valid_name (String.◌∷◌ c s) = is_alnum (code c) && all_chars is_name_char s

-- validK8sDNSLabelRe: ^[a-z0-9]([-a-z0-9]*[a-z0-9])?$
abbrev is_label_end : ℕ → Bool
is_label_end c = is_lower c || is_digit c

abbrev pub is_label_char : ℕ → Bool
is_label_char c = is_label_end c || nat_beq c b'-'

-- the last character, if there is one, passes
unfoldable pub last_char : (ℕ → Bool) → String → Bool
last_char ok String.[] = true
last_char ok (String.◌∷◌ c String.[]) = ok (code c)
last_char ok (String.◌∷◌ c s) = last_char ok s

-- validateK8sDNSLabel; a label that passes the pattern is ASCII, so its bytes are its characters
unfoldable pub is_k8s_dns_label : String → Bool
is_k8s_dns_label String.[] = false
is_k8s_dns_label (String.◌∷◌ c s) =
    leb (len (String.◌∷◌ c s)) 63
    && is_label_end (code c)
    && all_chars is_label_char s
    && last_char is_label_end s

unfoldable pub all_labels : List String → Bool
all_labels [] = true
all_labels (part ∷ parts) = is_k8s_dns_label part && all_labels parts

-- validateK8sDNSSubdomain
unfoldable pub is_k8s_dns_subdomain : String → Bool
is_k8s_dns_subdomain value =
    not (value == "") && leb (len value) 253 && all_labels (split_on b'.' value)
