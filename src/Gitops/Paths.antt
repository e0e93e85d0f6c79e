-- ===== src/Gitops/Paths.antt =====
-- internal/gitops/repo.go: ClassifyServiceFileChange, normalizeRepoFiles and the paths they clean.
use Prim.Native.Char.{code}
use Prim.Native.String.{String, ◌++◌ as str_append}
use mathlib.Core.List.{reverse}
use aap_config_server.Base.{
  ◌||◌, Bool, false, Option, none, some, List, [], ◌∷◌, if◌then◌else◌, is_some, nat_beq,
}
use aap_config_server.Base.Eq.{◌==◌, text_has_eq}
use aap_config_server.Base.Map.{Map, insert}
use aap_config_server.Base.Text.{split_on, cut_prefix, join}
use aap_config_server.Store.History.{ServiceFileKind, ServiceFileChange}

-- one part in `filepath.Clean`, on the parts so far with the last one first
unfoldable pub clean_part : Bool → String → List String → List String
clean_part rooted part [] =
    if part == "" || part == "."
    then []
    else if part == ".."
    then (if rooted then [] else part ∷ [])
    else part ∷ []
clean_part rooted part (last ∷ parts) =
    if part == "" || part == "."
    then last ∷ parts
    else if part == ".."
    then (if last == ".." then part ∷ last ∷ parts else parts)
    else part ∷ last ∷ parts

unfoldable pub clean_parts : Bool → List String → List String → List String
clean_parts rooted done [] = done
clean_parts rooted done (part ∷ parts) = clean_parts rooted (clean_part rooted part done) parts

abbrev pub is_rooted : String → Bool
is_rooted String.[] = false
is_rooted (String.◌∷◌ c s) = nat_beq (code c) b'/'

abbrev pub or_dot : Bool → List String → String
or_dot rooted [] = if rooted then "" else "."
or_dot rooted (part ∷ parts) = join "/" (part ∷ parts)

-- `strings.Trim(filepath.ToSlash(filepath.Clean(path)), "/")`
unfoldable pub clean_repo_path : String → String
clean_repo_path path =
    or_dot (is_rooted path) (reverse (clean_parts (is_rooted path) [] (split_on b'/' path)))

-- serviceConfigRoot
unfoldable pub service_config_root : String → String → String → String
service_config_root org project service =
    join "/" ("configs" ∷ "orgs" ∷ org ∷ "projects" ∷ project ∷ "services" ∷ service ∷ [])

abbrev pub changed : String → ServiceFileKind → Option ServiceFileChange
changed rel kind = some (record { path = rel; kind = kind })

-- the switch over the path below the service
abbrev pub classify_rel : String → Option ServiceFileChange
classify_rel rel =
    if rel == ""
    then none
    else if rel == "config.yaml"
    then changed rel ServiceFileKind.config
    else if rel == "env_vars.yaml"
    then changed rel ServiceFileKind.env_vars
    else if rel == "secrets.yaml"
    then changed rel ServiceFileKind.secrets
    else if is_some (cut_prefix "sealed-secrets/" rel)
    then changed rel ServiceFileKind.sealed_secret
    else none

abbrev pub classify_below : Option String → Option ServiceFileChange
classify_below none = none
classify_below (some rel) = classify_rel rel

-- the path below the service's directory
abbrev pub below_root : String → String → String → String → Option String
below_root path org project service =
    cut_prefix (str_append (service_config_root org project service) "/") (clean_repo_path path)

-- ClassifyServiceFileChange
unfoldable pub classify_service_file_change :
    String → String → String → String → Option ServiceFileChange
classify_service_file_change path org project service =
    classify_below (below_root path org project service)

abbrev pub unless_root : Option String → Option String
unless_root none = none
unless_root (some rel) = if rel == "" then none else some rel

-- serviceRelativeRepoPath
unfoldable pub service_relative_repo_path : String → String → String → String → Option String
service_relative_repo_path path org project service =
    unless_root (below_root path org project service)

-- normalizeRepoFiles
unfoldable pub normalize_repo_files : {Bytes : Type 0} → Map String Bytes → Map String Bytes
normalize_repo_files [] = []
normalize_repo_files ((path, content) ∷ files) =
    insert (clean_repo_path path) content (normalize_repo_files files)
