-- ===== src/Store/SecretIds/Tests.antt =====
-- Ids of secrets in internal/store/store.go: two Secrets with a key of the same name.
use aap_config_server.Base.{ℕ, String, ◌≡◌, ◌≢◌, refl, ap, some, [], ◌∷◌, arith, eq_iff}
use aap_config_server.Base.Eq.{text_has_eq}
use aap_config_server.Base.Decimal.{decimal}
use aap_config_server.Base.Map.{Map, lookup, insert}
use aap_config_server.Base.Sort.{sort_by, insert_by}
use aap_config_server.Store.Types.{SecretsConfig}
use aap_config_server.Store.SecretIds.{
  SecretPointer, SecretWrite, pointer_has_eq, unique_secret_id, first_free, find_free,
  index_existing, add_pointer, add_keys, add_writes, merged_secrets, new_entry,
}
use aap_config_server.Store.SecretIds.Fresh.{IsFirstFree, unique_secret_id_free}
use aap_config_server.Store.SecretIds.Existing.{merged_secrets_unique}

abbrev db : SecretPointer
db = record { namespace = "prod"; name = "db"; key = "password" }

abbrev cache : SecretPointer
cache = record { namespace = "prod"; name = "cache"; key = "password" }

abbrev file : SecretsConfig
file = record { version = "1"; secrets = new_entry db "password" ∷ [] }

abbrev writes : Map String (SecretWrite ℕ)
writes = ("cache", record { namespace = "prod"; secret_data = ("password", 7) ∷ [] }) ∷ []

-- the key, its longer forms and the first numbered one are taken
abbrev taken : Map String SecretPointer
taken =
    ("password", db)
    ∷ ("cache-password", db)
    ∷ ("prod-cache-password", db)
    ∷ ("prod-cache-password-2", db)
    ∷ []

unique_secret_id_free_example :
    (id : String) × (unique_secret_id "prod" "cache" "password" taken ≡ some id)
    × IsFirstFree "prod" "cache" "password" taken id
unique_secret_id_free_example = unique_secret_id_free "prod" "cache" "password" taken

numbered_id : unique_secret_id "prod" "cache" "password" taken ≡ some "prod-cache-password-3"
unfolding unique_secret_id first_free find_free lookup decimal
numbered_id = refl

-- the new key gets the longer id
cache_entry :
    lookup cache (merged_secrets (some file) writes).by_pointer
    ≡ some (new_entry cache "cache-password")
unfolding merged_secrets index_existing add_writes add_keys add_pointer unique_secret_id first_free
    find_free lookup insert sort_by insert_by
cache_entry = refl

db_entry : lookup db (merged_secrets (some file) writes).by_pointer ≡ some (new_entry db "password")
unfolding merged_secrets index_existing add_writes add_keys add_pointer unique_secret_id first_free
    find_free lookup insert sort_by insert_by
db_entry = refl

cache_not_db : cache ≢ db
cache_not_db p =
    let names : ◌≡◌ {A = String} "cache" "db" = ap (λ ptr. ptr.name) p in
    ground (arith, names, eq_iff "cache" "db")

merged_secrets_unique_example : ◌≢◌ {A = String} "cache-password" "password"
unfolding lookup
merged_secrets_unique_example =
    merged_secrets_unique (some file) writes cache db (new_entry cache "cache-password")
      (new_entry db "password") (refl, tt) cache_entry db_entry cache_not_db
      (ground (arith, eq_iff "cache-password" ""))
