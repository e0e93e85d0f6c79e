-- ===== src/Store/Inherit/Layers.antt =====
-- The layers of internal/store/store.go's inheritance: the service's own file, then the defaults
-- of its project, of its organisation, and the global ones.
use Prim.Native.String.{◌++◌ as str_append}
use aap_config_server.Base.{
  String, ◌≡◌, refl, ap, ◌∙◌, Option, none, some, [], ◌∷◌, Bool-cases, inl, inr,
}
use aap_config_server.Base.Eq.{◌==◌, text_has_eq}
use aap_config_server.Base.Map.{
  Map, lookup, insert, lookup-insert, lookup_absent, HasDistinctKeys-insert, HasDistinctKeys,
}
use aap_config_server.Store.Types.{EnvVars, ServiceKey}
use aap_config_server.Store.Inherit.{
  DefaultsEntry, DefaultsIndex, copy_entries, copy_env_vars, merge_env_vars,
}

-- the nearer layer's value if it has one
abbrev pub or_else {ℓ} : {A : Type ℓ} → Option A → Option A → Option A
or_else none far = far
or_else (some v) far = some v

pub lookup-copy_entries :
    (k : String) (into from : Map String String)
    → HasDistinctKeys from
    → lookup k (copy_entries into from) ≡ or_else (lookup k from) (lookup k into)
unfolding copy_entries lookup
lookup-copy_entries k into [] h = refl
lookup-copy_entries k into ((i, v) ∷ from) h = elim (Bool-cases (i == k)) [
  | inl y ↦
      lookup-copy_entries k (insert i v into) from h.1
      ∙ rw
          (
            lookup_absent i k from ((text_has_eq.agree_iff i k).0 y) h.0,
            lookup-insert i k v into,
            y,
          )
          refl
  | inr n ↦ lookup-copy_entries k (insert i v into) from h.1 ∙ rw (lookup-insert i k v into, n) refl
]

-- A Go map has one entry for a key.
pub record AreGoMaps (env : EnvVars) : Type 0 where
  pub plain : HasDistinctKeys env.plain
  pub secret_refs : HasDistinctKeys env.secret_refs

pub or_else-none {ℓ} : {A : Type ℓ} (o : Option A) → or_else o none ≡ o
or_else-none none = refl
or_else-none (some v) = refl

-- A merge of environment variables reads, in both of its maps, as the override where that has the
-- name, and as the base elsewhere.
pub lookup-merge_env_vars :
    (k : String) (base override : EnvVars)
    → AreGoMaps base
    → AreGoMaps override
    → (lookup k (merge_env_vars base override).plain
        ≡ or_else (lookup k override.plain) (lookup k base.plain))
      × (lookup k (merge_env_vars base override).secret_refs
          ≡ or_else (lookup k override.secret_refs) (lookup k base.secret_refs))
unfolding merge_env_vars copy_env_vars lookup
lookup-merge_env_vars k base override b o = (
  lookup-copy_entries k (copy_entries [] base.plain) override.plain o.plain
      ∙ ap (or_else (lookup k override.plain))
          (lookup-copy_entries k [] base.plain b.plain ∙ or_else-none (lookup k base.plain)),
  lookup-copy_entries k (copy_entries [] base.secret_refs) override.secret_refs o.secret_refs
      ∙ ap (or_else (lookup k override.secret_refs)) (
          lookup-copy_entries k [] base.secret_refs b.secret_refs
          ∙ or_else-none (lookup k base.secret_refs)),
)

pub HasDistinctKeys-copy_entries :
    (into from : Map String String)
    → HasDistinctKeys into
    → HasDistinctKeys (copy_entries into from)
unfolding copy_entries
HasDistinctKeys-copy_entries into [] h = h
HasDistinctKeys-copy_entries into ((k, v) ∷ from) h =
    HasDistinctKeys-copy_entries (insert k v into) from (HasDistinctKeys-insert k v into h)

pub AreGoMaps-merge_env_vars : (base override : EnvVars) → AreGoMaps (merge_env_vars base override)
unfolding merge_env_vars copy_env_vars
AreGoMaps-merge_env_vars base override = record {
  plain =
      HasDistinctKeys-copy_entries (copy_entries [] base.plain) override.plain
        (HasDistinctKeys-copy_entries [] base.plain tt);
  secret_refs =
      HasDistinctKeys-copy_entries (copy_entries [] base.secret_refs) override.secret_refs
        (HasDistinctKeys-copy_entries [] base.secret_refs tt);
}

abbrev pub org_defaults : ServiceKey → DefaultsIndex → Option DefaultsEntry
org_defaults key defaults = lookup key.org defaults.org

abbrev pub project_defaults : ServiceKey → DefaultsIndex → Option DefaultsEntry
project_defaults key defaults =
    lookup (str_append key.org (str_append "/" key.project)) defaults.project

-- One of the two maps of environment variables.
pub data EnvKind : Type 0 where
  plain : EnvKind
  secret_refs : EnvKind

abbrev pub env_map : EnvKind → EnvVars → Map String String
env_map EnvKind.plain env = env.plain
env_map EnvKind.secret_refs env = env.secret_refs

pub lookup-merged :
    (kind : EnvKind) (k : String) (base override : EnvVars)
    → AreGoMaps base
    → AreGoMaps override
    → lookup k (env_map kind (merge_env_vars base override))
      ≡ or_else (lookup k (env_map kind override)) (lookup k (env_map kind base))
lookup-merged EnvKind.plain k base override b o = (lookup-merge_env_vars k base override b o).0
lookup-merged EnvKind.secret_refs k base override b o =
    (lookup-merge_env_vars k base override b o).1
