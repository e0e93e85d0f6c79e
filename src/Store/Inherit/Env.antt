-- ===== src/Store/Inherit/Env.antt =====
-- What inheritedEnvVarsFor of internal/store/store.go makes of the layers: the loop over the
-- defaults, then the service's own file.
use mathlib.Core.Option.{some_inj}
use aap_config_server.Base.{
  String, ◌≡◌, refl, sym, ap, ◌∙◌, Bool, true, false, Option, none, some, List, [], ◌∷◌, ◌++◌,
  arith, Bool-cases, inl, inr, All, is_some,
}
use aap_config_server.Base.Eq.{text_has_eq}
use aap_config_server.Base.Map.{Map, lookup}
use aap_config_server.Store.Types.{EnvVars, EnvVarsConfig, ServiceKey, ServiceData}
use aap_config_server.Store.Inherit.{
  DefaultsEntry, DefaultsIndex, append_entry, no_env_vars, env_vars_over_defaults, merge_env_vars,
  merge_env_defaults, inherited_env_vars_for, defaults_entries_for, apply_inherited_fields,
  is_filled, has_env_vars_config,
}
use aap_config_server.Store.Inherit.Layers.{
  or_else, or_else-none, AreGoMaps, AreGoMaps-merge_env_vars, EnvKind, env_map, lookup-merged,
  org_defaults, project_defaults,
}

-- what the layers hold under a name, the last of the list being the nearest
abbrev pub nearest : EnvKind → String → Option String → List DefaultsEntry → Option String
nearest kind k far [] = far
nearest kind k far (entry ∷ entries) =
    nearest kind k (or_else (lookup k (env_map kind entry.config.env_vars)) far) entries

lookup_unfilled : (k : String) (m : Map String String) → is_filled m ≡ false → lookup k m ≡ none
unfolding lookup
lookup_unfilled k [] h = refl
lookup_unfilled k (e ∷ m) h = ground arith

lookup-env_map :
    (kind : EnvKind) (k : String) (env : EnvVars)
    → has_env_vars_config env ≡ false
    → lookup k (env_map kind env) ≡ none
lookup-env_map EnvKind.plain k env h = lookup_unfilled k env.plain (ground arith)
lookup-env_map EnvKind.secret_refs k env h = lookup_unfilled k env.secret_refs (ground arith)

lookup-merge_env_defaults :
    (kind : EnvKind) (k : String) (has : Bool) (merged : EnvVars) (entries : List DefaultsEntry)
    → AreGoMaps merged
    → All (λ entry. AreGoMaps entry.config.env_vars) entries
    → lookup k (env_map kind (merge_env_defaults has merged entries).1)
      ≡ nearest kind k (lookup k (env_map kind merged)) entries
unfolding merge_env_defaults
lookup-merge_env_defaults kind k has merged [] m h = refl
lookup-merge_env_defaults kind k has merged (entry ∷ entries) m h =
    elim (Bool-cases (has_env_vars_config entry.config.env_vars)) [
      | inl y ↦ rw y (
          lookup-merge_env_defaults kind k true (merge_env_vars merged entry.config.env_vars)
            entries (AreGoMaps-merge_env_vars merged entry.config.env_vars) h.1
          ∙ ap (λ far. nearest kind k far entries)
              (lookup-merged kind k merged entry.config.env_vars m h.0))
      | inr n ↦ rw n (
          lookup-merge_env_defaults kind k has merged entries m h.1
          ∙ ap (λ near. nearest kind k (or_else near (lookup k (env_map kind merged))) entries)
              (sym (lookup-env_map kind k entry.config.env_vars n)))
    ]

nearest-append :
    (kind : EnvKind) (k : String) (far : Option String) (xs ys : List DefaultsEntry)
    → nearest kind k far (xs ++ ys) ≡ nearest kind k (nearest kind k far xs) ys
nearest-append kind k far [] ys = refl
nearest-append kind k far (x ∷ xs) ys =
    nearest-append kind k (or_else (lookup k (env_map kind x.config.env_vars)) far) xs ys

-- what one defaults file, if it is there, holds under a name
abbrev pub default_env : EnvKind → String → Option DefaultsEntry → Option String
default_env kind k none = none
default_env kind k (some entry) = lookup k (env_map kind entry.config.env_vars)

-- what the service's own file holds under a name
abbrev pub own_env : EnvKind → String → Option EnvVarsConfig → Option String
own_env kind k none = none
own_env kind k (some file) = lookup k (env_map kind file.env_vars)

nearest-append_entry :
    (kind : EnvKind) (k : String) (far : Option String) (o : Option DefaultsEntry)
    → nearest kind k far (append_entry o) ≡ or_else (default_env kind k o) far
nearest-append_entry kind k far none = refl
nearest-append_entry kind k far (some entry) = refl

nearest-defaults_entries_for :
    (kind : EnvKind) (k : String) (key : ServiceKey) (defaults : DefaultsIndex)
    → nearest kind k none (defaults_entries_for key defaults)
      ≡ or_else (default_env kind k (project_defaults key defaults)) (
          or_else
            (default_env kind k (org_defaults key defaults))
            (default_env kind k defaults.global))
unfolding defaults_entries_for
nearest-defaults_entries_for kind k key defaults =
    let globals = append_entry defaults.global in
    let orgs = append_entry (org_defaults key defaults) in
    nearest-append kind k none (globals ++ orgs) (append_entry (project_defaults key defaults))
    ∙ (nearest-append_entry kind k (nearest kind k none (globals ++ orgs))
          (project_defaults key defaults)
        ∙ ap (or_else (default_env kind k (project_defaults key defaults))) (
            nearest-append kind k none globals orgs
            ∙ (nearest-append_entry kind k (nearest kind k none globals) (org_defaults key defaults)
                ∙ ap (or_else (default_env kind k (org_defaults key defaults))) (
                    nearest-append_entry kind k none defaults.global
                    ∙ or_else-none (default_env kind k defaults.global)))))

-- Every file that the inheritance reads came from Go maps.
pub record AreLoaded (own : Option EnvVarsConfig) (entries : List DefaultsEntry) : Type 0 where
  pub own_maps : (file : EnvVarsConfig) → own ≡ some file → AreGoMaps file.env_vars
  pub default_maps : All (λ entry. AreGoMaps entry.config.env_vars) entries

AreGoMaps-merge_env_defaults :
    (has : Bool) (merged : EnvVars) (entries : List DefaultsEntry)
    → AreGoMaps merged
    → AreGoMaps (merge_env_defaults has merged entries).1
unfolding merge_env_defaults
AreGoMaps-merge_env_defaults has merged [] m = m
AreGoMaps-merge_env_defaults has merged (entry ∷ entries) m =
    elim (Bool-cases (has_env_vars_config entry.config.env_vars)) [
      | inl y ↦ rw y (
          AreGoMaps-merge_env_defaults true (merge_env_vars merged entry.config.env_vars) entries
            (AreGoMaps-merge_env_vars merged entry.config.env_vars))
      | inr n ↦ rw n (AreGoMaps-merge_env_defaults has merged entries m)
    ]

lookup-env_vars_over_defaults :
    (kind : EnvKind) (k : String) (key : ServiceKey) (own : Option EnvVarsConfig)
    (looped : Bool × EnvVars) (file : EnvVarsConfig)
    → ((f : EnvVarsConfig) → own ≡ some f → AreGoMaps f.env_vars)
    → AreGoMaps looped.1
    → env_vars_over_defaults key own looped ≡ some file
    → lookup k (env_map kind file.env_vars)
      ≡ or_else (own_env kind k own) (lookup k (env_map kind looped.1))
unfolding env_vars_over_defaults
lookup-env_vars_over_defaults kind k key (some f) (has, merged) file o m e =
    sym (ap (λ x. lookup k (env_map kind x.env_vars)) (some_inj.0 e))
    ∙ lookup-merged kind k merged f.env_vars m (o f refl)
lookup-env_vars_over_defaults kind k key none (true, merged) file o m e =
    sym (ap (λ x. lookup k (env_map kind x.env_vars)) (some_inj.0 e))
lookup-env_vars_over_defaults kind k key none (false, merged) file o m e = ground arith

lookup-no_env_vars : (kind : EnvKind) (k : String) → lookup k (env_map kind no_env_vars) ≡ none
unfolding lookup
lookup-no_env_vars EnvKind.plain k = refl
lookup-no_env_vars EnvKind.secret_refs k = refl

-- An inherited environment variable is the one of the nearest layer that has it: the service's own
-- file, then the defaults of the project, of the organisation, and the global ones. The same holds
-- of the secret references. All files came from Go maps, which have one entry for a key.
pub apply_inherited_fields_env :
    (kind : EnvKind) (k : String) (key : ServiceKey) (sd : ServiceData) (defaults : DefaultsIndex)
    (file : EnvVarsConfig)
    → AreLoaded sd.env_vars (defaults_entries_for key defaults)
    → (apply_inherited_fields key sd defaults).inherited_env_vars ≡ some file
    → lookup k (env_map kind file.env_vars)
      ≡ or_else (own_env kind k sd.env_vars) (
          or_else (default_env kind k (project_defaults key defaults)) (
            or_else
              (default_env kind k (org_defaults key defaults))
              (default_env kind k defaults.global)))
unfolding apply_inherited_fields inherited_env_vars_for
apply_inherited_fields_env kind k key sd defaults file l e =
    lookup-env_vars_over_defaults kind k key sd.env_vars
      (merge_env_defaults (is_some sd.env_vars) no_env_vars (defaults_entries_for key defaults))
      file l.own_maps
      (AreGoMaps-merge_env_defaults (is_some sd.env_vars) no_env_vars
        (defaults_entries_for key defaults) (record { plain = tt; secret_refs = tt }))
      e
    ∙ ap (or_else (own_env kind k sd.env_vars)) (
        lookup-merge_env_defaults kind k (is_some sd.env_vars) no_env_vars
          (defaults_entries_for key defaults) (record { plain = tt; secret_refs = tt })
          l.default_maps
        ∙ (ap (λ far. nearest kind k far (defaults_entries_for key defaults))
              (lookup-no_env_vars kind k)
            ∙ nearest-defaults_entries_for kind k key defaults))
