-- ===== src/Handler/Resolve/Laws.antt =====
-- internal/handler/handler.go: what resolveEnvSecrets gives for each variable.
use mathlib.Core.Option.{some_inj}
use mathlib.Core.Path.{subst}
use aap_config_server.Base.{
  String, ◌≡◌, refl, sym, ap, ◌∙◌, ◌≢◌, ◌⊎◌, Bool, true, false, Option, none, some, List, [], ◌∷◌,
  map, if◌then◌else◌, inl, inr, eq_iff, eq_refl, All, arith,
}
use aap_config_server.Base.Eq.{◌==◌, text_has_eq}
use aap_config_server.Base.Map.{Map, lookup, insert, has, HasDistinctKeys, lookup-insert}
use aap_config_server.Store.Types.{SecretEntry, SecretsConfig, ServiceKey}
use aap_config_server.Secret.Volume.{Outcome, done, failed}
use aap_config_server.Handler.Watch.Laws.{Somewhere}
use aap_config_server.Handler.Resolve.{
  Resolution, resolved, unresolved, index_by_id, or_duplicate, reference_of, Refresh, after_refresh,
  after_entry, resolve_refs, with_index, resolve_values, resolve_env_secrets,
}

unlike : (a b : String) → b ≢ a → (a == b) ≡ false
unlike a b apart = ground (arith, eq_iff a b)

lookup_same :
    {World : Type 0} (k : String) (final values : Map String String) (v w : World)
    → resolved final v ≡ resolved values w
    → lookup k final ≡ lookup k values
lookup_same k final values v w h =
    ap (λ r. elim r [ resolved found u ↦ lookup k found | unresolved why u ↦ none ]) h

world_same :
    {World : Type 0} (final values : Map String String) (v w : World)
    → resolved final v ≡ resolved values w
    → v ≡ w
world_same final values v w h = ap (λ r. elim r [ resolved found u ↦ u | unresolved why u ↦ u ]) h

-- the entry of an id in the list
abbrev pub IsEntry : String → SecretEntry → List SecretEntry → Type 0
IsEntry id entry entries = Somewhere (λ e. (e ≡ entry) × (e.id ≡ id)) entries

-- an entry of this secrets.yaml has the id
abbrev pub IsListed : SecretsConfig → String → SecretEntry → Type 0
IsListed secrets id entry = IsEntry id entry secrets.secrets

fresh_index :
    (twice : Bool) (rest : Option (Map String SecretEntry)) (by_id : Map String SecretEntry)
    → or_duplicate twice rest ≡ some by_id
    → rest ≡ some by_id
fresh_index true rest by_id h = absurd (cc h)
fresh_index false rest by_id h = h

inserted :
    (e entry : SecretEntry) (id : String) (entries : List SecretEntry)
    → (before : Option SecretEntry) (same : Bool) → (e.id == id) ≡ same
    → (if same then some e else before) ≡ some entry
    → (before ≡ some entry) ⊎ IsEntry id entry (e ∷ entries)
inserted e entry id entries before true is h = inr (inl (some_inj.0 h, (eq_iff e.id id).0 is))
inserted e entry id entries before false is h = inl h

index_by_id_lem :
    (entries : List SecretEntry) (before by_id : Map String SecretEntry)
    → index_by_id entries before ≡ some by_id
    → (id : String) (entry : SecretEntry) → lookup id by_id ≡ some entry
    → (lookup id before ≡ some entry) ⊎ IsEntry id entry entries
unfolding index_by_id
index_by_id_lem [] before by_id h id entry found =
    inl (ap (λ m. lookup id m) (some_inj.0 h) ∙ found)
index_by_id_lem (e ∷ entries) before by_id h id entry found =
    elim (index_by_id_lem entries (insert e.id e before) by_id
      (fresh_index (has e.id before) (index_by_id entries (insert e.id e before)) by_id h) id entry
      found) [
        | inl there ↦
            inserted e entry id entries (lookup id before) (e.id == id) refl
              (sym (lookup-insert e.id id e before) ∙ there)
        | inr later ↦ inr (inr later)
      ]

not_empty : {B : Type 0} {entry : SecretEntry} → (none ≡ some entry) ⊎ B → B
not_empty (inl h) = absurd (cc h)
not_empty (inr b) = b

module _ {World Bytes : Type 0} (text_of : Bytes → String) (volume : Refresh World Bytes) where
  -- The variables are read one after another from the state `w` on, which leaves `v`: for each, the
  -- reader is called with the id and the Secret's namespace, name and key of an entry found for the
  -- reference, and the variable is bound to the text of the bytes that this call gives.
  unfoldable pub ReadInTurn :
      (String → SecretEntry → Type 0)
      → Map String String
      → Map String String
      → World
      → World
      → Type 0
  ReadInTurn Found final [] w v = w ≡ v
  ReadInTurn Found final ((env, id) ∷ refs) w v =
      (entry : SecretEntry) × (bytes : Bytes) × (Found id entry
        × (((volume w (record {
          id = entry.id;
          namespace = entry.k8s_secret.namespace;
          name = entry.k8s_secret.name;
          key = entry.k8s_secret.key;
        })).1
              ≡ done bytes)
            × ((lookup env final ≡ some (text_of bytes))
                × ReadInTurn Found final refs
                    (volume w (record {
                      id = entry.id;
                      namespace = entry.k8s_secret.namespace;
                      name = entry.k8s_secret.name;
                      key = entry.k8s_secret.key;
                    })).0
                    v)))

  ReadInTurn-map :
      (Found Found' : String → SecretEntry → Type 0) (final refs : Map String String) (w v : World)
      → ((id : String) (entry : SecretEntry) → Found id entry → Found' id entry)
      → ReadInTurn Found final refs w v
      → ReadInTurn Found' final refs w v
  unfolding ReadInTurn
  ReadInTurn-map Found Found' final [] w v f h = h
  ReadInTurn-map Found Found' final ((env, id) ∷ refs) w v f
        (entry, bytes, (found, (read, (bound, rest)))) =
      (
        entry,
        bytes,
        (f id entry found, (read, (bound, ReadInTurn-map Found Found' final refs _ v f rest))),
      )

  module _ (by_id : Map String SecretEntry) where
    abbrev IsIndexed : String → SecretEntry → Type 0
    IsIndexed id entry = lookup id by_id ≡ some entry

    -- the goal of the induction over the references
    abbrev Ends : Map String String → Map String String → Map String String → World → World → Type 0
    Ends refs values final w v =
        ((k : String) → All (λ j. k ≢ j) (map (λ r. r.0) refs) → lookup k final ≡ lookup k values)
        × (HasDistinctKeys refs → ReadInTurn IsIndexed final refs w v)

    after_refresh-Ends :
        (env id : String)
        → (refs values final : Map String String)
        → (next : String → World → Resolution World) (v w : World) → (entry : SecretEntry)
        → lookup id by_id ≡ some entry
        → ((value : String) (u : World)
            → next value u ≡ resolved final v
            → Ends refs (insert env value values) final u v)
        → (r : World × Outcome Bytes) → volume w (reference_of entry) ≡ r
        → after_refresh text_of next r ≡ resolved final v
        → Ends ((env, id) ∷ refs) values final w v
    unfolding ReadInTurn
    after_refresh-Ends env id refs values final next v w entry found go (u, failed why) is h =
        absurd (cc h)
    after_refresh-Ends env id refs values final next v w entry found go (u, done bytes) is h =
        let (kept, rest) = go (text_of bytes) u h in
        (
          λ k apart.
              let other : (env == k) ≡ false = unlike env k apart.0 in
              kept k apart.1 ∙ (lookup-insert env k (text_of bytes) values ∙ rw other refl),
          λ distinct. (
            entry,
            bytes,
            (
              found,
              (
                ap (λ r. r.1) is,
                (
                  kept env distinct.0
                      ∙ (lookup-insert env env (text_of bytes) values ∙ rw (eq_refl env) refl),
                  subst (λ x. ReadInTurn IsIndexed final refs x v) (sym (ap (λ r. r.0) is))
                      (rest distinct.1),
                ),
              ),
            ),
          ),
        )

    after_entry-Ends :
        (env id : String)
        → (refs values final : Map String String)
        → (next : String → World → Resolution World) (w v : World)
        → ((value : String) (u : World)
            → next value u ≡ resolved final v
            → Ends refs (insert env value values) final u v)
        → (found : Option SecretEntry) → lookup id by_id ≡ found
        → after_entry text_of volume id next w found ≡ resolved final v
        → Ends ((env, id) ∷ refs) values final w v
    after_entry-Ends env id refs values final next w v go none is h = absurd (cc h)
    after_entry-Ends env id refs values final next w v go (some entry) is h =
        after_refresh-Ends env id refs values final next v w entry is go
          (volume w (reference_of entry)) refl h

    resolve_refs-Ends :
        (refs values final : Map String String) (w v : World)
        → resolve_refs text_of volume by_id refs values w ≡ resolved final v
        → Ends refs values final w v
    unfolding resolve_refs ReadInTurn
    resolve_refs-Ends [] values final w v h = (
      λ k apart. lookup_same k final values v w (sym h),
      λ distinct. world_same values final w v h,
    )
    resolve_refs-Ends ((env, id) ∷ refs) values final w v h =
        after_entry-Ends env id refs values final
          (λ value u. resolve_refs text_of volume by_id refs (insert env value values) u) w v
          (λ value u ends. resolve_refs-Ends refs (insert env value values) final u v ends)
          (lookup id by_id) refl h

  with_index-ReadInTurn :
      (secrets : SecretsConfig) (refs final : Map String String) (w v : World)
      → (index : Option (Map String SecretEntry)) → index_by_id secrets.secrets [] ≡ index
      → HasDistinctKeys refs
      → with_index text_of volume refs w index ≡ resolved final v
      → ReadInTurn (IsListed secrets) final refs w v
  unfolding lookup
  with_index-ReadInTurn secrets refs final w v none is distinct h = absurd (cc h)
  with_index-ReadInTurn secrets refs final w v (some by_id) is distinct h =
      ReadInTurn-map (IsIndexed by_id) (IsListed secrets) final refs w v
        (λ id entry found. not_empty (index_by_id_lem secrets.secrets [] by_id is id entry found))
        ((resolve_refs-Ends by_id refs [] final w v h).1 distinct)

  -- If resolveEnvSecrets succeeds, it has called the volume reader once for each variable of
  -- secret_refs, in the order in which it goes through the map, from the state in which it was called to the one that it
  -- leaves: with the id and the Secret's namespace, name and key of an entry of secrets.yaml that
  -- has the id of the reference; and the variable is bound to the text of the bytes that this call
  -- gave. The variables of secret_refs are distinct.
  pub resolve_env_secrets_lem :
      (key : ServiceKey) (refs final : Map String String) (secrets : SecretsConfig) (w v : World)
      → HasDistinctKeys refs
      → (resolve_env_secrets text_of (some volume) key refs (some secrets) w).0 ≡ resolved final v
      → ReadInTurn (IsListed secrets) final refs w v
  unfolding resolve_env_secrets resolve_values ReadInTurn
  resolve_env_secrets_lem key [] final secrets w v distinct h = world_same [] final w v h
  resolve_env_secrets_lem key (ref ∷ refs) final secrets w v distinct h =
      with_index-ReadInTurn secrets (ref ∷ refs) final w v (index_by_id secrets.secrets []) refl
        distinct h
