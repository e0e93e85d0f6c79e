-- ===== src/Store/Changes/Written.antt =====
-- internal/store/store.go: the files that ApplyChanges hands to the repository.
use Prim.Native.String.{String, ◌++◌ as str_append}
use mathlib.Core.Path.{subst}
use aap_config_server.Base.{
  ℕ, ◌≡◌, refl, sym, ap, ◌∙◌, Option, none, some, List, [], ◌∷◌, ◌++◌, map, ◌||◌, Bool-cases, inl,
  inr, arith,
}
use aap_config_server.Base.Eq.{◌==◌, text_has_eq}
use aap_config_server.Base.Map.{Map, lookup, insert, has, lookup-insert}
use aap_config_server.Base.Text.{cut_prefix_sound}
use aap_config_server.Store.Listing.{contains}
use aap_config_server.Store.Types.{SecretsConfig}
use aap_config_server.Store.Reload.{Parsed, parsed, failed, Parsers}
use aap_config_server.Store.Revert.{joined, service_relative_path}
use aap_config_server.Store.Changes.{
  ChangeRequest, Result, ok, err, Backend, Files, SealedManifest, ReadAnswer, add_file, add_base,
  base_files, config_file, env_vars_file, or_outside, add_manifests, add_secrets_file,
  over_existing, secret_files, svc_path, assign_written, build_files, read_existing_secrets,
}

contains-snoc :
    (x y : String) (ys : List String) → contains x (ys ++ y ∷ []) ≡ (y == x) || contains x ys
unfolding contains
contains-snoc x y [] = refl
contains-snoc x y (z ∷ ys) = ground (arith, contains-snoc x y ys)

map-snoc :
    (f : String → String) (ys : List String) (y : String)
    → map f (ys ++ y ∷ []) ≡ map f ys ++ f y ∷ []
map-snoc f [] y = refl
map-snoc f (z ∷ ys) y = ap (λ zs. f z ∷ zs) (map-snoc f ys y)

module _ {p : Parsers} (b : Backend p) (svc : String) where
  -- the paths of the files are the names of the list below the service
  abbrev pub AreListed : Files b → Type 0
  AreListed files = (path : String) → has path files.0 ≡ contains path (map (joined svc) files.1)

  abbrev AllListed : Result (Files b) → Type 0
  AllListed (err why) = Unit
  AllListed (ok files) = AreListed files

  has-insert :
      (put get : String) (raw : p.Raw) (files : Map String p.Raw)
      → has get (insert put raw files) ≡ (put == get) || has get files
  has-insert put get raw files =
      rw (lookup-insert put get raw files)
        (elim (Bool-cases (put == get)) [ inl y ↦ rw y refl | inr n ↦ rw n refl ])

  insert-AreListed :
      (rel : String) (raw : p.Raw) (files : Files b)
      → AreListed files
      → AreListed (insert (joined svc rel) raw files.0, files.1 ++ rel ∷ [])
  insert-AreListed rel raw files h path =
      has-insert (joined svc rel) path raw files.0
      ∙ (ap (λ there. (joined svc rel == path) || there) (h path)
          ∙ sym (contains-snoc path (joined svc rel) (map (joined svc) files.1))
          ∙ ap (contains path) (sym (map-snoc (joined svc) files.1 rel)))

  add_base-AllListed :
      (rel : String) (file : Option (Parsed p.Raw)) (r : Result (Files b))
      → AllListed r
      → AllListed (add_base b svc rel file r)
  unfolding add_base add_file
  add_base-AllListed rel file (err why) h = tt
  add_base-AllListed rel none (ok files) h = h
  add_base-AllListed rel (some (parsed raw)) (ok files) h = insert-AreListed rel raw files h
  add_base-AllListed rel (some (failed why)) (ok files) h = tt

  or_outside-AllListed :
      (manifest : SealedManifest p.Raw) (rel : Option String) (files : Files b)
      → service_relative_path svc manifest.path ≡ rel
      → AreListed files
      → AllListed (or_outside b svc manifest rel files)
  or_outside-AllListed manifest none files own h = tt
  or_outside-AllListed manifest (some rel) files own h = λ path.
      ap (λ at. has path (insert at manifest.yaml files.0))
        (cut_prefix_sound (str_append svc "/") manifest.path rel own)
      ∙ insert-AreListed rel manifest.yaml files h path

  add_manifests-AllListed :
      (manifests : List (SealedManifest p.Raw)) (r : Result (Files b))
      → AllListed r
      → AllListed (add_manifests b svc manifests r)
  unfolding add_manifests
  add_manifests-AllListed manifests (err why) h = tt
  add_manifests-AllListed [] (ok files) h = h
  add_manifests-AllListed (manifest ∷ manifests) (ok files) h =
      add_manifests-AllListed manifests
        (or_outside b svc manifest (service_relative_path svc manifest.path) files)
        (or_outside-AllListed manifest (service_relative_path svc manifest.path) files refl h)

  add_secrets_file-AllListed :
      (raw : Parsed p.Raw) (files : Files b)
      → AreListed files
      → AllListed (add_secrets_file b svc raw files)
  unfolding add_file
  add_secrets_file-AllListed (failed why) files h = tt
  add_secrets_file-AllListed (parsed raw) files h = insert-AreListed "secrets.yaml" raw files h

module _ {p : Parsers} (b : Backend p) (req : ChangeRequest b.Value) where
  base_files-AllListed : (now : ℕ) → AllListed b (svc_path b req) (base_files b now req)
  unfolding base_files contains lookup
  base_files-AllListed now =
      add_base-AllListed b (svc_path b req) "env_vars.yaml" (env_vars_file b now req)
        (add_base b (svc_path b req) "config.yaml" (config_file b now req) (ok ([], [])))
        (add_base-AllListed b (svc_path b req) "config.yaml" (config_file b now req) (ok ([], []))
          (λ path. refl))

  over_existing-AllListed :
      (manifests : List (SealedManifest p.Raw)) (base : Files b) (r : Result (Option SecretsConfig))
      → AreListed b (svc_path b req) base
      → AllListed b (svc_path b req) (over_existing b req manifests base r)
  over_existing-AllListed manifests base (err why) h = tt
  over_existing-AllListed manifests base (ok existing) h =
      add_manifests-AllListed b (svc_path b req) manifests _
        (add_secrets_file-AllListed b (svc_path b req) _ base h)

  secret_files-AllListed :
      (manifests : List (SealedManifest p.Raw))
      → (base : Files b) (reader : String → ReadAnswer p.Raw) → AreListed b (svc_path b req) base
      → AllListed b (svc_path b req) (secret_files b req manifests base reader)
  unfolding secret_files
  secret_files-AllListed manifests base reader h =
      over_existing-AllListed manifests base
        (read_existing_secrets b (reader (joined (svc_path b req) "secrets.yaml"))) h

  pub AreListed-ok :
      (r : Result (Files b)) (files : Files b)
      → r ≡ ok files
      → AllListed b (svc_path b req) r
      → AreListed b (svc_path b req) files
  AreListed-ok r files is h = subst (λ x. AllListed b (svc_path b req) x) is h

  assigned :
      (r : Result (Files b)) (old : List String) (files : Map String p.Raw)
      → AllListed b (svc_path b req) r
      → (assign_written b r old).0 ≡ ok files
      → AreListed b (svc_path b req) (files, (assign_written b r old).1)
  assigned (err why) old files h is = absurd (cc is)
  assigned (ok fs) old files h is = λ path.
      subst
        (λ (r : Result (Map String p.Raw)). elim r [
          | err why ↦ Unit
          | ok x ↦ has path x ≡ contains path (map (joined (svc_path b req)) fs.1)
        ])
        is (h path)

  -- The function that ApplyChanges gives to CommitAndPushFunc, on the base files of the request:
  -- if it answers with files, whatever it reads in the clone, then their paths are exactly the
  -- names it leaves in `writtenFiles`, below the service's own directory.
  pub build_files_listed :
      (now : ℕ) (manifests : List (SealedManifest p.Raw)) (base : Files b)
      → (reader : String → ReadAnswer p.Raw) (old : List String) (files : Map String p.Raw)
      → base_files b now req ≡ ok base
      → (build_files b req manifests base reader old).0 ≡ ok files
      → (path : String)
      → has path files
        ≡ contains path
            (map (joined (svc_path b req)) (build_files b req manifests base reader old).1)
  unfolding build_files
  build_files_listed now manifests base reader old files started is path =
      assigned (secret_files b req manifests base reader) old files
        (secret_files-AllListed manifests base reader
          (AreListed-ok (base_files b now req) base started (base_files-AllListed now)))
        is path
