-- ===== src/Store/Inherit/Config.antt =====
-- What inheritedConfigFor of internal/store/store.go makes of the layers, and when a service
-- inherits a file at all.
use mathlib.Core.Option.{some_inj}
use aap_config_server.Base.{
  String, ◌≡◌, refl, sym, ap, ◌∙◌, Bool, true, false, Option, none, some, List, [], ◌∷◌, ◌++◌,
  arith, Bool-cases, inl, inr, All, is_some, ◌||◌,
}
use aap_config_server.Base.Eq.{text_has_eq}
use aap_config_server.Store.Value.{Fields, Value, no_fields, field, get}
use aap_config_server.Store.Merge.{deep_merge_map}
use aap_config_server.Store.Merge.Laws.{IsGoMap, layered, get-deep_merge_map}
use aap_config_server.Store.Types.{ServiceConfig, EnvVars, EnvVarsConfig, ServiceKey, ServiceData}
use aap_config_server.Store.Inherit.{
  DefaultsEntry, DefaultsIndex, append_entry, no_env_vars, env_vars_over_defaults,
  config_over_defaults, merge_env_vars, merge_env_defaults, inherited_env_vars_for,
  merge_config_defaults, inherited_config_for, defaults_entries_for, apply_inherited_fields,
  has_env_vars_config, has_fields,
}
use aap_config_server.Store.Inherit.Layers.{org_defaults, project_defaults}

-- what the layers hold at a key, each laid over those before it
abbrev pub stacked : String → Option Value → List DefaultsEntry → Option Value
stacked k far [] = far
stacked k far (entry ∷ entries) = stacked k (layered far (get k entry.config.config)) entries

get-unfilled : (k : String) (fs : Fields) → has_fields fs ≡ false → get k fs ≡ none
unfolding get
get-unfilled k no_fields h = refl
get-unfilled k (field i v fs) h = ground arith

get-merge_config_defaults :
    (k : String) (has : Bool) (merged : Fields) (entries : List DefaultsEntry)
    → All (λ entry. IsGoMap entry.config.config) entries
    → get k (merge_config_defaults has merged entries).1 ≡ stacked k (get k merged) entries
unfolding merge_config_defaults
get-merge_config_defaults k has merged [] h = refl
get-merge_config_defaults k has merged (entry ∷ entries) h =
    elim (Bool-cases (has_fields entry.config.config)) [
      | inl y ↦ rw y (
          get-merge_config_defaults k true (deep_merge_map merged entry.config.config) entries h.1
          ∙ ap (λ far. stacked k far entries) (get-deep_merge_map k merged entry.config.config h.0))
      | inr n ↦ rw n (
          get-merge_config_defaults k has merged entries h.1
          ∙ ap (λ near. stacked k (layered (get k merged) near) entries)
              (sym (get-unfilled k entry.config.config n)))
    ]

stacked-append :
    (k : String) (far : Option Value) (xs ys : List DefaultsEntry)
    → stacked k far (xs ++ ys) ≡ stacked k (stacked k far xs) ys
stacked-append k far [] ys = refl
stacked-append k far (x ∷ xs) ys = stacked-append k (layered far (get k x.config.config)) xs ys

-- what one defaults file, if it is there, holds at a key
abbrev pub default_config : String → Option DefaultsEntry → Option Value
default_config k none = none
default_config k (some entry) = get k entry.config.config

-- what the service's own file holds at a key
abbrev pub own_config : String → Option ServiceConfig → Option Value
own_config k none = none
own_config k (some file) = get k file.config

stacked-append_entry :
    (k : String) (far : Option Value) (o : Option DefaultsEntry)
    → stacked k far (append_entry o) ≡ layered far (default_config k o)
stacked-append_entry k far none = refl
stacked-append_entry k far (some entry) = refl

stacked-defaults_entries_for :
    (k : String) (key : ServiceKey) (defaults : DefaultsIndex)
    → stacked k none (defaults_entries_for key defaults)
      ≡ layered
          (layered
            (layered none (default_config k defaults.global))
            (default_config k (org_defaults key defaults)))
          (default_config k (project_defaults key defaults))
unfolding defaults_entries_for
stacked-defaults_entries_for k key defaults =
    let globals = append_entry defaults.global in
    let orgs = append_entry (org_defaults key defaults) in
    stacked-append k none (globals ++ orgs) (append_entry (project_defaults key defaults))
    ∙ (stacked-append_entry k (stacked k none (globals ++ orgs)) (project_defaults key defaults)
        ∙ ap (λ far. layered far (default_config k (project_defaults key defaults)))
            (stacked-append k none globals orgs
              ∙ (stacked-append_entry k (stacked k none globals) (org_defaults key defaults)
                  ∙ ap (λ far. layered far (default_config k (org_defaults key defaults)))
                      (stacked-append_entry k none defaults.global))))

get-config_over_defaults :
    (k : String) (key : ServiceKey) (own : Option ServiceConfig) (looped : Bool × Fields)
    (file : ServiceConfig)
    → ((f : ServiceConfig) → own ≡ some f → IsGoMap f.config)
    → config_over_defaults key own looped ≡ some file
    → get k file.config ≡ layered (get k looped.1) (own_config k own)
unfolding config_over_defaults
get-config_over_defaults k key (some f) (has, merged) file o e =
    sym (ap (λ x. get k x.config) (some_inj.0 e)) ∙ get-deep_merge_map k merged f.config (o f refl)
get-config_over_defaults k key none (true, merged) file o e =
    sym (ap (λ x. get k x.config) (some_inj.0 e))
get-config_over_defaults k key none (false, merged) file o e = ground arith

-- At every key, an inherited config is the service's own file laid over the defaults of the
-- project, these over the organisation's, and these over the global ones, each by the rule of one
-- key of a merge: a missing key keeps what is below, null deletes it, two mappings whose keys are
-- all texts are merged, and everything else replaces, a mapping with another key included. All maps
-- have one entry for a key.
pub apply_inherited_fields_config :
    (k : String) (key : ServiceKey) (sd : ServiceData) (defaults : DefaultsIndex)
    (file : ServiceConfig)
    → ((f : ServiceConfig) → sd.config ≡ some f → IsGoMap f.config)
    → All (λ entry. IsGoMap entry.config.config) (defaults_entries_for key defaults)
    → (apply_inherited_fields key sd defaults).inherited_config ≡ some file
    → get k file.config
      ≡ layered
          (layered
            (layered
              (layered none (default_config k defaults.global))
              (default_config k (org_defaults key defaults)))
            (default_config k (project_defaults key defaults)))
          (own_config k sd.config)
unfolding apply_inherited_fields inherited_config_for get
apply_inherited_fields_config k key sd defaults file o d e =
    get-config_over_defaults k key sd.config
      (merge_config_defaults (is_some sd.config) no_fields (defaults_entries_for key defaults)) file
      o e
    ∙ ap (λ far. layered far (own_config k sd.config))
        (get-merge_config_defaults k (is_some sd.config) no_fields
            (defaults_entries_for key defaults) d
          ∙ stacked-defaults_entries_for k key defaults)

-- some entry carries a config, or environment variables
abbrev pub some_config : List DefaultsEntry → Bool
some_config [] = false
some_config (entry ∷ entries) = has_fields entry.config.config || some_config entries

abbrev pub some_env_vars : List DefaultsEntry → Bool
some_env_vars [] = false
some_env_vars (entry ∷ entries) = has_env_vars_config entry.config.env_vars || some_env_vars entries

has-merge_config_defaults :
    (has : Bool) (merged : Fields) (entries : List DefaultsEntry)
    → (merge_config_defaults has merged entries).0 ≡ has || some_config entries
unfolding merge_config_defaults
has-merge_config_defaults has merged [] = ground arith
has-merge_config_defaults has merged (entry ∷ entries) = ground (
  arith,
  has-merge_config_defaults has merged entries,
  has-merge_config_defaults true (deep_merge_map merged entry.config.config) entries,
)

has-merge_env_defaults :
    (has : Bool) (merged : EnvVars) (entries : List DefaultsEntry)
    → (merge_env_defaults has merged entries).0 ≡ has || some_env_vars entries
unfolding merge_env_defaults
has-merge_env_defaults has merged [] = ground arith
has-merge_env_defaults has merged (entry ∷ entries) = ground (
  arith,
  has-merge_env_defaults has merged entries,
  has-merge_env_defaults true (merge_env_vars merged entry.config.env_vars) entries,
)

is_some-config_over_defaults :
    (key : ServiceKey) (own : Option ServiceConfig) (looped : Bool × Fields)
    → is_some (config_over_defaults key own looped) ≡ is_some own || looped.0
unfolding config_over_defaults
is_some-config_over_defaults key (some f) (has, merged) = refl
is_some-config_over_defaults key none (true, merged) = refl
is_some-config_over_defaults key none (false, merged) = refl

is_some-env_vars_over_defaults :
    (key : ServiceKey) (own : Option EnvVarsConfig) (looped : Bool × EnvVars)
    → is_some (env_vars_over_defaults key own looped) ≡ is_some own || looped.0
unfolding env_vars_over_defaults
is_some-env_vars_over_defaults key (some f) (has, merged) = refl
is_some-env_vars_over_defaults key none (true, merged) = refl
is_some-env_vars_over_defaults key none (false, merged) = refl

or_again : (a b c : Bool) → c ≡ (a || b) → (a || c) ≡ (a || b)
or_again a b c h = ground arith

-- A service inherits a config exactly when it has a config of its own or one of its defaults files
-- has config entries, and environment variables exactly when it has a file of its own or one of
-- its defaults files has any.
pub apply_inherited_fields_present :
    (key : ServiceKey) (sd : ServiceData) (defaults : DefaultsIndex)
    → (is_some (apply_inherited_fields key sd defaults).inherited_config
        ≡ is_some sd.config || some_config (defaults_entries_for key defaults))
      × (is_some (apply_inherited_fields key sd defaults).inherited_env_vars
          ≡ is_some sd.env_vars || some_env_vars (defaults_entries_for key defaults))
unfolding apply_inherited_fields inherited_config_for inherited_env_vars_for
apply_inherited_fields_present key sd defaults =
    let entries = defaults_entries_for key defaults in
    (
      is_some-config_over_defaults key sd.config
            (merge_config_defaults (is_some sd.config) no_fields entries)
          ∙ or_again (is_some sd.config) (some_config entries)
              (merge_config_defaults (is_some sd.config) no_fields entries).0
              (has-merge_config_defaults (is_some sd.config) no_fields entries),
      is_some-env_vars_over_defaults key sd.env_vars
            (merge_env_defaults (is_some sd.env_vars) no_env_vars entries)
          ∙ or_again (is_some sd.env_vars) (some_env_vars entries)
              (merge_env_defaults (is_some sd.env_vars) no_env_vars entries).0
              (has-merge_env_defaults (is_some sd.env_vars) no_env_vars entries),
    )
