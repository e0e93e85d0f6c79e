-- ===== src/Store/Reload/Load/Content.antt =====
-- What clients read after a reload of internal/store/store.go: the parsed files, and version tokens
-- that change with the contents of one resource only.
use aap_config_server.Base.{
  ℕ, String, ◌≡◌, refl, ap, ◌∙◌, Bool, true, Option, none, some, List, [], ◌∷◌, arith,
}
use aap_config_server.Base.Eq.{text_has_eq}
use aap_config_server.Base.Map.{lookup}
use aap_config_server.Store.Types.{ServiceData, ServiceConfig, ServiceKey}
use aap_config_server.Base.Text.{split_on}
use aap_config_server.Store.Paths.{FileType, key_string, slash}
use aap_config_server.Store.Inherit.{DefaultsIndex, apply_inherited_fields}
use aap_config_server.Store.Versions.{Resource, present, digest_of, with_resource_versions}
use aap_config_server.Store.Reload.{
  parsed, failed, Parsers, ConfigStore, get_config, inherit_parts, with_reload_time,
}
use aap_config_server.Store.Reload.Load.{
  nothing_loaded, complete, parse_file, kept_or, entry_at, load_files, reload, swap_snapshot,
}
use aap_config_server.Store.Reload.Load.Laws.{failures, reload_swaps}
use aap_config_server.Store.Reload.Load.Data.{
  gathered, view-load_files, finished, map_entry, lookup-finish,
}

-- the config that a lookup finds
abbrev pub config_in : Option ServiceData → Option ServiceConfig
config_in none = none
config_in (some sd) = sd.config

-- presence and digest of a resource, which decide its version
abbrev pub payload : Resource → ServiceData → Bool × String
payload r sd = (present r sd, digest_of r sd)

pub inherit_parts-kept :
    (parts : List String) (defaults : DefaultsIndex) (sd : ServiceData)
    → ((inherit_parts parts defaults sd).config ≡ sd.config)
      × ((r : Resource) → payload r (inherit_parts parts defaults sd) ≡ payload r sd)
unfolding inherit_parts apply_inherited_fields
inherit_parts-kept [] defaults sd = (refl, λ r. refl)
inherit_parts-kept (a ∷ []) defaults sd = (refl, λ r. refl)
inherit_parts-kept (a ∷ b ∷ []) defaults sd = (refl, λ r. refl)
inherit_parts-kept (a ∷ b ∷ c ∷ d ∷ parts) defaults sd = (refl, λ r. refl)
inherit_parts-kept (a ∷ b ∷ c ∷ []) defaults sd = (refl, kept)
  where
    kept : (r : Resource) → payload r (inherit_parts (a ∷ b ∷ c ∷ []) defaults sd) ≡ payload r sd
    kept Resource.config = refl
    kept Resource.env_vars = refl

pub with_reload_time-payload :
    (r : Resource) (now : ℕ) (key : String) (sd : ServiceData)
    → payload r (with_reload_time now key sd) ≡ payload r sd
with_reload_time-payload Resource.config now key sd = refl
with_reload_time-payload Resource.env_vars now key sd = refl

module _ (p : Parsers) where
  -- what a file that was parsed does to the config of its service
  abbrev pub update_config : FileType → p.Raw → Option ServiceConfig → Option ServiceConfig
  update_config FileType.config raw old = elim (p.parse_config raw) [
    | parsed cfg ↦ some cfg
    | failed why ↦ old
  ]
  update_config kind raw old = old

  -- and to the payload of a resource
  abbrev pub update_payload : Resource → FileType → p.Raw → Bool × String → Bool × String
  update_payload Resource.config FileType.config raw old = elim (p.parse_config raw) [
    | parsed cfg ↦ (true, p.digest_bytes raw)
    | failed why ↦ old
  ]
  update_payload Resource.env_vars FileType.env_vars raw old = elim (p.parse_env_vars raw) [
    | parsed env ↦ (true, p.digest_bytes raw)
    | failed why ↦ old
  ]
  update_payload r kind raw old = old

  config_follows :
      (kind : FileType) (raw : p.Raw) (sd : ServiceData)
      → (kept_or p sd (parse_file p kind raw sd)).config ≡ update_config kind raw sd.config
  unfolding parse_file
  config_follows FileType.config raw sd = ground arith
  config_follows FileType.env_vars raw sd = ground arith
  config_follows FileType.secrets raw sd = ground arith

  pub payload_follows :
      (r : Resource) (kind : FileType) (raw : p.Raw) (sd : ServiceData)
      → payload r (kept_or p sd (parse_file p kind raw sd))
        ≡ update_payload r kind raw (payload r sd)
  unfolding parse_file
  payload_follows Resource.config FileType.config raw sd = ground arith
  payload_follows Resource.config FileType.env_vars raw sd = ground arith
  payload_follows Resource.config FileType.secrets raw sd = ground arith
  payload_follows Resource.env_vars FileType.config raw sd = ground arith
  payload_follows Resource.env_vars FileType.env_vars raw sd = ground arith
  payload_follows Resource.env_vars FileType.secrets raw sd = ground arith

  config_in-finished :
      (s : ConfigStore) (now : ℕ) (hash key : String) (defaults : DefaultsIndex)
      (o : Option ServiceData)
      → config_in (map_entry (finished s.snapshot now hash defaults key) o) ≡ (entry_at o).config
  unfolding with_resource_versions
  config_in-finished s now hash key defaults none = refl
  config_in-finished s now hash key defaults (some sd) =
      (inherit_parts-kept (split_on slash key) defaults (with_reload_time now key sd)).0

  -- After a reload in which every file parses, the config that GetConfig finds for a service is the
  -- one parsed from its own config file in the snapshot, the last one if several paths stand for it,
  -- and there is none if no path does: no other file has a part in it.
  pub get_config-reload :
      (now done : ℕ) (hash : String) (files : List (String × p.Raw)) (s : ConfigStore)
      (key : ServiceKey)
      → failures p files ≡ []
      → config_in (get_config (reload p now done (complete hash files) s).0 key)
        ≡ gathered p update_config (key_string key) none files
  unfolding swap_snapshot lookup
  get_config-reload now done hash files s key h =
      let l = load_files p nothing_loaded files in
      ap (λ t. config_in (get_config t key)) (reload_swaps p now done hash files s h)
      ∙ (ap config_in (lookup-finish p s.snapshot now hash l.services l.defaults (key_string key))
          ∙ (config_in-finished s now hash (key_string key) l.defaults
                (lookup (key_string key) l.services)
              ∙ view-load_files p (λ sd. sd.config) update_config config_follows (key_string key)
                  nothing_loaded files))
