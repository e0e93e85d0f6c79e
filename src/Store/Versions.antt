-- ===== src/Store/Versions.antt =====
-- internal/store/store.go: the version token of each resource of a service, nextResourceVersion and
-- resourceVersion.
use aap_config_server.Base.{String, Bool, not, ◌&&◌, Option, none, some, if◌then◌else◌, is_some}
use aap_config_server.Base.Eq.{◌==◌, text_has_eq}
use aap_config_server.Store.Types.{ServiceData}

-- The two resources that a client can watch.
pub data Resource : Type 0 where
  config : Resource
  env_vars : Resource

-- what the code passes as function arguments: presence, digest and version of a resource
abbrev pub present : Resource → ServiceData → Bool
present Resource.config sd = is_some sd.config
present Resource.env_vars sd = is_some sd.env_vars

abbrev pub digest_of : Resource → ServiceData → String
digest_of Resource.config sd = sd.config_digest
digest_of Resource.env_vars sd = sd.env_vars_digest

abbrev pub version_of : Resource → ServiceData → String
version_of Resource.config sd = sd.config_resource_version
version_of Resource.env_vars sd = sd.env_vars_resource_version

unfoldable pub next_resource_version :
    Bool → String → String → Option ServiceData → Resource → String
next_resource_version is_present digest version none resource = version
next_resource_version is_present digest version (some prev) resource =
    if is_present
    then if present resource prev
        && not (digest == "")
        && digest == digest_of resource prev
        && not (version_of resource prev == "")
      then version_of resource prev
      else version
    else if not (present resource prev) && not (version_of resource prev == "")
    then version_of resource prev
    else version

-- resourceVersion, with the fallback that its caller passes
unfoldable pub resource_version : ServiceData → Resource → String → String
resource_version sd resource fallback =
    if version_of resource sd == "" then fallback else version_of resource sd

-- the body of applyResourceVersions for one service
unfoldable pub with_resource_versions : String → Option ServiceData → ServiceData → ServiceData
with_resource_versions version prev sd = record sd {
  config_resource_version =
      next_resource_version (is_some sd.config) sd.config_digest version prev Resource.config;
  env_vars_resource_version =
      next_resource_version (is_some sd.env_vars) sd.env_vars_digest version prev Resource.env_vars;
}
