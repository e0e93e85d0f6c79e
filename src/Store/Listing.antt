-- ===== src/Store/Listing.antt =====
-- internal/store/store.go, the listings: ListOrgs, ListProjects and ListServices.
pub mod Laws
pub mod Tests
use Prim.Native.String.{◌++◌ as str_append}
use mathlib.Core.List.{Mem, mem-cons_self, mem-cons_of_mem}
use mathlib.Core.List.Perm
use aap_config_server.Base.{
  ℕ, String, ◌≡◌, refl, sym, ap, ◌∙◌, Bool, true, false, ◌||◌, not, Option, none, some, List, [],
  ◌∷◌, map, if◌then◌else◌, is_some, Bool-cases, inl, inr, arith,
}
use aap_config_server.Base.Eq.{◌==◌, text_has_eq}
use aap_config_server.Base.Map.{Map, lookup}
use aap_config_server.Base.Sort.{str_less, sort_by, sort_by-Perm}
use aap_config_server.Base.Text.{split_on, cut_prefix, cut_prefix-append}
use aap_config_server.Store.Types.{ServiceData, ServiceKey}
use aap_config_server.Store.Paths.{slash, key_string}
use aap_config_server.Store.Reload.{ConfigStore, get_config}

pub record ServiceInfo : Type 0 where
  pub name : String
  pub has_config : Bool
  pub has_env_vars : Bool
  pub has_secrets : Bool
  pub updated_at : ℕ

-- `strings.SplitN(s, "/", n)[0]`, the part before the first slash
abbrev pub first_part : List String → String
first_part [] = ""
first_part (part ∷ parts) = part

unfoldable pub contains : String → List String → Bool
contains x [] = false
contains x (y ∷ ys) = y == x || contains x ys

-- `seen[x] = struct{}{}`
abbrev pub add_seen : String → List String → List String
add_seen x seen = if contains x seen then seen else x ∷ seen

-- keys: the names of a set, sorted
abbrev pub keys : List String → List String
keys seen = sort_by str_less seen

unfoldable pub seen_orgs : Map String ServiceData → List String → List String
seen_orgs [] seen = seen
seen_orgs ((key, sd) ∷ m) seen = seen_orgs m (add_seen (first_part (split_on slash key)) seen)

-- ListOrgs
unfoldable pub list_orgs : ConfigStore → List String
list_orgs s = keys (seen_orgs s.snapshot.data_of [])

abbrev pub add_project : Option String → List String → List String
add_project none seen = seen
add_project (some rest) seen = add_seen (first_part (split_on slash rest)) seen

unfoldable pub seen_projects : String → Map String ServiceData → List String → List String
seen_projects prefix [] seen = seen
seen_projects prefix ((key, sd) ∷ m) seen =
    seen_projects prefix m (add_project (cut_prefix prefix key) seen)

-- ListProjects
unfoldable pub list_projects : ConfigStore → String → List String
list_projects s org = keys (seen_projects (str_append org "/") s.snapshot.data_of [])

abbrev pub service_info : String → ServiceData → ServiceInfo
service_info name sd = record {
  name = name;
  has_config = is_some sd.config;
  has_env_vars = is_some sd.env_vars;
  has_secrets = is_some sd.secrets;
  updated_at = sd.updated_at;
}

abbrev pub add_service : Option String → ServiceData → List ServiceInfo → List ServiceInfo
add_service none sd infos = infos
add_service (some name) sd infos = service_info name sd ∷ infos

unfoldable pub services_below : String → Map String ServiceData → List ServiceInfo
services_below prefix [] = []
services_below prefix ((key, sd) ∷ m) =
    add_service (cut_prefix prefix key) sd (services_below prefix m)

-- ListServices
unfoldable pub list_services : ConfigStore → String → String → List ServiceInfo
list_services s org project =
    sort_by (λ a b. str_less a.name b.name)
      (services_below (str_append org (str_append "/" (str_append project "/"))) s.snapshot.data_of)
