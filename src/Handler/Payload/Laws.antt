-- ===== src/Handler/Payload/Laws.antt =====
-- internal/handler/handler.go: the versions that reads report and that watches compare.
use aap_config_server.Base.{String, Bool}
use aap_config_server.Base.Eq.{text_has_eq}
use aap_config_server.Store.Types.{ServiceData}
use aap_config_server.Store.Versions.{Resource}
use aap_config_server.Handler.Payload.{config_version, env_vars_version}

-- the version in the payload of a resource
abbrev pub payload_version : Resource → Bool → ServiceData → String → String → String
payload_version Resource.config inherit d head later = config_version inherit d head later
payload_version Resource.env_vars inherit d head later = env_vars_version inherit d head later
