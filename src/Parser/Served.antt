-- ===== src/Parser/Served.antt =====
-- internal/parser with internal/store/store.go: the store of a server that uses these parsers.
pub mod Tests
use aap_config_server.Base.{
  ℕ, String, ◌≡◌, refl, sym, ap, ◌∙◌, ◌⊎◌, inl, inr, Bool, true, false, Option, none, some, List,
  [], ◌∷◌, arith, Bool-cases, Option-cases, if◌then◌else◌, is_some,
}
use aap_config_server.Base.Eq.{◌==◌, text_has_eq, agree_refl, HasEq}
use aap_config_server.Store.Types.{ServiceConfig, ServiceKey}
use aap_config_server.Store.Paths.{FileType, key_string, classify_path, classify_defaults_path}
use aap_config_server.Store.Reload.{Parsed, parsed, failed, Parsers, ConfigStore, get_config}
use aap_config_server.Store.Reload.Load.{reload, complete}
use aap_config_server.Store.Reload.Load.Laws.{failures}
use aap_config_server.Store.Reload.Load.Data.{gather_keyed, gather, gathered}
use aap_config_server.Store.Reload.Load.Content.{config_in, update_config, get_config-reload}
use aap_config_server.Parser.Nodes.{SchemaError}
use aap_config_server.Parser.Files.{
  Yaml, Checked, accepted, rejected, parse_config, parse_env_vars, parse_secrets, parse_defaults,
}
use aap_config_server.Parser.Files.Laws.{HasIdentity, parse_config_lem}

abbrev pub to_parsed : {A : Type 0} → (SchemaError → String) → Checked A → Parsed A
to_parsed message (accepted cfg) = parsed cfg
to_parsed message (rejected why) = failed (message why)

to_parsed-parsed :
    {A : Type 0} (message : SchemaError → String) (r : Checked A) (cfg : A)
    → to_parsed message r ≡ parsed cfg
    → r ≡ accepted cfg
to_parsed-parsed message (accepted found) cfg h = ap accepted (cc h)
to_parsed-parsed message (rejected why) cfg h = absurd (cc h)

-- one of the elements has the property
abbrev pub Any : {A : Type 0} → (A → Type 0) → List A → Type 0
Any P [] = ⊥
Any P (x ∷ xs) = P x ⊎ Any P xs

module _ (y : Yaml) (message : SchemaError → String) (digest : y.Raw → String)
    (time : String → Option ℕ) where
  -- the store's parsers are those of internal/parser
  abbrev pub store_parsers : Parsers
  store_parsers = record {
    Raw = y.Raw;
    parse_config = λ raw. to_parsed message (parse_config y raw);
    parse_env_vars = λ raw. to_parsed message (parse_env_vars y raw);
    parse_secrets = λ raw. to_parsed message (parse_secrets y raw);
    parse_defaults = λ raw. to_parsed message (parse_defaults y raw);
    digest_bytes = digest;
    parse_time = time;
  }

  -- the file is the service's config.yaml, and ParseConfig reads it as `cfg`
  abbrev pub Holds : String → ServiceConfig → String × y.Raw → Type 0
  Holds key cfg file =
      (classify_path file.0 ≡ some (key, FileType.config)) × (parse_config y file.1 ≡ accepted cfg)

  update_from :
      (key path : String) (raw : y.Raw) (kind : FileType) (acc : Option ServiceConfig)
      (cfg : ServiceConfig)
      → classify_path path ≡ some (key, kind)
      → update_config store_parsers kind raw acc ≡ some cfg
      → Holds key cfg (path, raw) ⊎ (acc ≡ some cfg)
  update_from key path raw FileType.env_vars acc cfg c h = inr h
  update_from key path raw FileType.secrets acc cfg c h = inr h
  update_from key path raw FileType.config acc cfg c h = decided (parse_config y raw) refl h
    where
      decided :
          (r : Checked ServiceConfig)
          → parse_config y raw ≡ r
          → (elim (to_parsed message r) [ parsed new ↦ some new | failed why ↦ acc ]) ≡ some cfg
          → Holds key cfg (path, raw) ⊎ (acc ≡ some cfg)
      decided (accepted new) e g = inl (c, e ∙ ap accepted (cc g))
      decided (rejected why) e g = inr g

  gather_keyed_from :
      (key path : String) (raw : y.Raw) (o : Option (String × FileType))
      (acc : Option ServiceConfig) (cfg : ServiceConfig)
      → classify_path path ≡ o
      → gather_keyed store_parsers (update_config store_parsers) key o raw acc ≡ some cfg
      → Holds key cfg (path, raw) ⊎ (acc ≡ some cfg)
  gather_keyed_from key path raw none acc cfg c h = inr h
  gather_keyed_from key path raw (some (name, kind)) acc cfg c h = elim (Bool-cases (name == key)) [
    | inl same ↦
        update_from key path raw kind acc cfg
          (c ∙ ap (λ k. some (k, kind)) ((text_has_eq.agree_iff name key).0 same))
          (ground (arith, h, same))
    | inr other ↦ inr (ground (arith, h, other))
  ]

  gather_from :
      (key path : String) (raw : y.Raw) (acc : Option ServiceConfig) (cfg : ServiceConfig)
      → gather store_parsers (update_config store_parsers) key path raw acc ≡ some cfg
      → Holds key cfg (path, raw) ⊎ (acc ≡ some cfg)
  gather_from key path raw acc cfg h = elim (Bool-cases (is_some (classify_defaults_path path))) [
    | inl defaults ↦ inr (ground (arith, h, defaults))
    | inr service ↦
        gather_keyed_from key path raw (classify_path path) acc cfg refl
          (ground (arith, h, service))
  ]

  gathered_from :
      (key : String) (files : List (String × y.Raw)) (acc : Option ServiceConfig)
      (cfg : ServiceConfig)
      → gathered store_parsers (update_config store_parsers) key acc files ≡ some cfg
      → Any (Holds key cfg) files ⊎ (acc ≡ some cfg)
  unfolding gathered
  gathered_from key [] acc cfg h = inr h
  gathered_from key ((path, raw) ∷ files) acc cfg h =
      elim (gathered_from key files
        (gather store_parsers (update_config store_parsers) key path raw acc) cfg h) [
          | inl later ↦ inl (inr later)
          | inr now ↦ elim (gather_from key path raw acc cfg now) [
            | inl here ↦ inl (inl here)
            | inr old ↦ inr old
          ]
        ]

  identity_of :
      (key : String) (cfg : ServiceConfig) (files : List (String × y.Raw))
      → Any (Holds key cfg) files
      → HasIdentity cfg.metadata
  identity_of key cfg [] h = absurd h
  identity_of key cfg ((path, raw) ∷ files) (inl here) = ((parse_config_lem y raw cfg).0 here.1).2
  identity_of key cfg ((path, raw) ∷ files) (inr later) = identity_of key cfg files later

  -- After a reload in which every file parses, a config that GetConfig serves for a service was
  -- accepted by ParseConfig from a file of the new commit that the store takes for the service's
  -- config.yaml, and its metadata names a service, an org and a project.
  pub served_config_accepted :
      (now finished : ℕ) (hash : String) (files : List (String × y.Raw)) (s : ConfigStore)
      (key : ServiceKey) (cfg : ServiceConfig)
      → failures store_parsers files ≡ []
      → config_in (get_config (reload store_parsers now finished (complete hash files) s).0 key)
        ≡ some cfg
      → Any (Holds (key_string key) cfg) files × HasIdentity cfg.metadata
  served_config_accepted now finished hash files s key cfg h served =
      elim (gathered_from (key_string key) files none cfg
        (sym (get_config-reload store_parsers now finished hash files s key h) ∙ served)) [
          | inl found ↦ (found, identity_of (key_string key) cfg files found)
          | inr nothing ↦ absurd (cc nothing)
        ]
