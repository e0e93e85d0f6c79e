-- ===== src/Store/Reload/Load/Data.antt =====
-- What a reload of internal/store/store.go leaves for a service: each part of its entry is gathered
-- from the files of that service alone, and the later passes over the map keep it.
use aap_config_server.Base.{
  ℕ, String, ◌≡◌, refl, ap, ◌∙◌, Option, none, some, List, [], ◌∷◌, if◌then◌else◌, is_some,
  Bool-cases, inl, inr, arith,
}
use aap_config_server.Base.Eq.{◌==◌, text_has_eq}
use aap_config_server.Base.Map.{Map, lookup, lookup-insert}
use aap_config_server.Store.Types.{ServiceData}
use aap_config_server.Store.Paths.{FileType, classify_path, classify_defaults_path}
use aap_config_server.Store.Inherit.{DefaultsIndex}
use aap_config_server.Store.Versions.{with_resource_versions}
use aap_config_server.Store.Reload.{
  Parsers, DataSnapshot, update_each, with_reload_time, inherit_at,
}
use aap_config_server.Store.Reload.Load.{
  Loading, parse_file, parse_and_store, parse_and_store_defaults, load_file, load_files, kept_or,
  entry_at, finish,
}

module _ (p : Parsers) {A : Type 0} (update : FileType → p.Raw → A → A) where
  -- what a file adds for the service under `key`
  abbrev pub gather_keyed : String → Option (String × FileType) → p.Raw → A → A
  gather_keyed key none raw acc = acc
  gather_keyed key (some (name, kind)) raw acc = if name == key then update kind raw acc else acc

  abbrev pub gather : String → String → p.Raw → A → A
  gather key path raw acc =
      if is_some (classify_defaults_path path)
      then acc
      else gather_keyed key (classify_path path) raw acc

  unfoldable pub gathered : String → A → List (String × p.Raw) → A
  gathered key acc [] = acc
  gathered key acc ((path, raw) ∷ files) = gathered key (gather key path raw acc) files

load_file-services :
    (p : Parsers) (path : String) (raw : p.Raw) (l : Loading)
    → (load_file p path raw l).services ≡ (
        if is_some (classify_defaults_path path)
        then l.services
        else (parse_and_store p (classify_path path) path raw l.services).0)
unfolding load_file parse_and_store_defaults
load_file-services p path raw l = ground arith

-- `view` reads a part of an entry, and `update` is what a parsed file does to that part.
module _ (p : Parsers) {A : Type 0} (view : ServiceData → A) (update : FileType → p.Raw → A → A)
    (follows : (kind : FileType) (raw : p.Raw) (sd : ServiceData)
      → view (kept_or p sd (parse_file p kind raw sd)) ≡ update kind raw (view sd)) where
  view_keyed :
      (key : String) (at : Option (String × FileType)) (path : String) (raw : p.Raw)
      (services : Map String ServiceData)
      → view (entry_at (lookup key (parse_and_store p at path raw services).0))
        ≡ gather_keyed p update key at raw (view (entry_at (lookup key services)))
  unfolding parse_and_store
  view_keyed key none path raw services = refl
  view_keyed key (some (name, kind)) path raw services =
      let sd = entry_at (lookup name services) in
      ap (λ o. view (entry_at o))
        (lookup-insert name key (kept_or p sd (parse_file p kind raw sd)) services)
      ∙ elim (Bool-cases (name == key)) [
        | inl y ↦ rw y (
            follows kind raw sd
            ∙ ap (λ n. update kind raw (view (entry_at (lookup n services))))
                ((text_has_eq.agree_iff name key).0 y))
        | inr n ↦ rw n refl
      ]

  view_file :
      (key path : String) (raw : p.Raw) (l : Loading)
      → view (entry_at (lookup key (load_file p path raw l).services))
        ≡ gather p update key path raw (view (entry_at (lookup key l.services)))
  view_file key path raw l =
      ap (λ m. view (entry_at (lookup key m))) (load_file-services p path raw l)
      ∙ elim (Bool-cases (is_some (classify_defaults_path path))) [
        | inl y ↦ rw y refl
        | inr n ↦ rw n (view_keyed key (classify_path path) path raw l.services)
      ]

  -- The part is gathered from the files of the service, in the order of the snapshot.
  pub view-load_files :
      (key : String) (l : Loading) (files : List (String × p.Raw))
      → view (entry_at (lookup key (load_files p l files).services))
        ≡ gathered p update key (view (entry_at (lookup key l.services))) files
  unfolding load_files gathered
  view-load_files key l [] = refl
  view-load_files key l ((path, raw) ∷ files) =
      view-load_files key (load_file p path raw l) files
      ∙ ap (λ acc. gathered p update key acc files) (view_file key path raw l)

pub lookup-update_each {ℓ} :
    {V : Type ℓ} (k : String) (f : String → V → V) (m : Map String V)
    → lookup k (update_each f m) ≡ elim (lookup k m) [ none ↦ none | some v ↦ some (f k v) ]
unfolding lookup update_each
lookup-update_each k f [] = refl
lookup-update_each k f ((i, v) ∷ m) = elim (Bool-cases (i == k)) [
  | inl y ↦ rw y (ap (λ j. some (f j v)) ((text_has_eq.agree_iff i k).0 y))
  | inr n ↦ rw n (lookup-update_each k f m)
]

-- what the passes over the map make of one entry
abbrev pub finished : DataSnapshot → ℕ → String → DefaultsIndex → String → ServiceData → ServiceData
finished prev now hash defaults key sd =
    with_resource_versions hash (lookup key prev.data_of)
      (inherit_at defaults key (with_reload_time now key sd))

abbrev pub map_entry : (ServiceData → ServiceData) → Option ServiceData → Option ServiceData
map_entry f none = none
map_entry f (some sd) = some (f sd)

pub lookup-finish :
    (p : Parsers) (prev : DataSnapshot) (now : ℕ) (hash : String)
    (services : Map String ServiceData) (defaults : DefaultsIndex) (key : String)
    → lookup key (finish p prev now hash services defaults)
      ≡ map_entry (finished prev now hash defaults key) (lookup key services)
unfolding finish
lookup-finish p prev now hash services defaults key =
    let timed = update_each (with_reload_time now) services in
    lookup-update_each key (λ k. with_resource_versions hash (lookup k prev.data_of))
      (update_each (inherit_at defaults) timed)
    ∙ (ap (map_entry (with_resource_versions hash (lookup key prev.data_of))) (
          lookup-update_each key (inherit_at defaults) timed
          ∙ ap (map_entry (inherit_at defaults key))
              (lookup-update_each key (with_reload_time now) services))
        ∙ map_entry_twice (lookup key services))
  where
    map_entry_twice :
        (o : Option ServiceData)
        → map_entry
            (with_resource_versions hash (lookup key prev.data_of))
            (map_entry (inherit_at defaults key) (map_entry (with_reload_time now key) o))
          ≡ map_entry (finished prev now hash defaults key) o
    map_entry_twice none = refl
    map_entry_twice (some sd) = refl
