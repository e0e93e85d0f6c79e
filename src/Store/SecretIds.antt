-- ===== src/Store/SecretIds.antt =====
-- internal/store/store.go, the metadata of secret writes: their checks, and the entries of
-- secrets.yaml with an id for each key of a Kubernetes Secret.
pub mod Fresh
pub mod Owned
pub mod Existing
pub mod Tests
use Prim.Native.String.{◌++◌}
use aap_config_server.Base.{
  ℕ, zero, suc, ◌+◌, ◌≡◌, ◌↔◌, String, Bool, true, false, not, ◌&&◌, ◌||◌, Option, none, some, List,
  [], ◌∷◌, map, if◌then◌else◌, is_some, length, eq_iff, arith,
}
use aap_config_server.Base.Eq.{HasEq, ◌==◌, text_has_eq}
use aap_config_server.Base.Map.{Map, lookup, insert, has}
use aap_config_server.Base.Sort.{str_less, sort_by}
use aap_config_server.Base.Text.{split_on}
use aap_config_server.Base.Decimal.{decimal}
use aap_config_server.Store.Types.{SecretEntry, SecretsConfig, K8sSecret}
use aap_config_server.Store.Paths.{is_valid_name, is_k8s_dns_label, is_k8s_dns_subdomain}

pub record SecretPointer : Type 0 where
  pub namespace : String
  pub name : String
  pub key : String

abbrev pub pointer_agrees : SecretPointer → SecretPointer → Bool
pointer_agrees a b = a.namespace == b.namespace && (a.name == b.name && a.key == b.key)

pub pointer_agrees_iff : (a b : SecretPointer) → (pointer_agrees a b ≡ true) ↔ (a ≡ b)
pointer_agrees_iff a b = (
  λ h. ground (arith, eq_iff a.namespace b.namespace, eq_iff a.name b.name, eq_iff a.key b.key),
  λ h. ground (arith, eq_iff a.namespace b.namespace, eq_iff a.name b.name, eq_iff a.key b.key),
)

instance abbrev pub pointer_has_eq : HasEq SecretPointer
pointer_has_eq = record { agree = pointer_agrees; agree_iff = pointer_agrees_iff }

-- the numbered ids of the last loop of uniqueSecretID
abbrev pub numbered : String → ℕ → String
numbered base i = base ++ ("-" ++ decimal i)

-- that loop; none only if `fuel` turns do not reach a free id
unfoldable pub find_free : ℕ → String → ℕ → Map String SecretPointer → Option String
find_free zero base i in_use = none
find_free (suc fuel) base i in_use =
    let rest = find_free fuel base (suc i) in_use in
    if has (numbered base i) in_use then rest else some (numbered base i)

-- the loop over the candidates
unfoldable pub first_free : List String → Map String SecretPointer → Option String
first_free [] in_use = none
first_free (id ∷ ids) in_use =
    let rest = first_free ids in_use in if has id in_use then rest else some id

abbrev pub candidates : String → String → String → List String
candidates namespace name key =
    key ∷ (name ++ ("-" ++ key)) ∷ (namespace ++ ("-" ++ (name ++ ("-" ++ key)))) ∷ []

abbrev pub or_search : Option String → Option String → Option String
or_search (some id) later = some id
or_search none later = later

-- uniqueSecretID, with one turn more of the last loop than there are ids in use
unfoldable pub unique_secret_id :
    String → String → String → Map String SecretPointer → Option String
unique_secret_id namespace name key in_use =
    or_search (first_free (candidates namespace name key) in_use)
      (find_free (suc (length in_use)) (namespace ++ ("-" ++ (name ++ ("-" ++ key)))) 2 in_use)

-- the values are not looked at here
pub record SecretWrite (Value : Type 0) : Type 0 where
  pub namespace : String
  pub secret_data : Map String Value

-- what mergeSecretEntries keeps while it goes over the writes
pub record Merging : Type 0 where
  pub by_pointer : Map SecretPointer SecretEntry
  pub id_in_use : Map String SecretPointer

abbrev pub pointer_of : SecretEntry → SecretPointer
pointer_of entry = record {
  namespace = entry.k8s_secret.namespace;
  name = entry.k8s_secret.name;
  key = entry.k8s_secret.key;
}

-- the body of the loop over the existing entries
abbrev pub index_entry : SecretEntry → Merging → Merging
index_entry entry m = record {
  by_pointer = insert (pointer_of entry) entry m.by_pointer;
  id_in_use =
      if entry.id == "" then m.id_in_use else insert entry.id (pointer_of entry) m.id_in_use;
}

unfoldable pub index_existing : List SecretEntry → Merging → Merging
index_existing [] m = m
index_existing (entry ∷ entries) m = index_existing entries (index_entry entry m)

abbrev pub new_entry : SecretPointer → String → SecretEntry
new_entry ptr id = record {
  id = id;
  description = "";
  k8s_secret = record { name = ptr.name; namespace = ptr.namespace; key = ptr.key };
}

-- an id for the pointer is entered; none, that no id was found, does not occur
abbrev pub with_id : SecretPointer → Option String → Merging → Merging
with_id ptr none m = m
with_id ptr (some id) m = record {
  by_pointer = insert ptr (new_entry ptr id) m.by_pointer;
  id_in_use = insert id ptr m.id_in_use;
}

-- the body of the inner loop
unfoldable pub add_pointer : SecretPointer → Merging → Merging
add_pointer ptr m =
    if has ptr m.by_pointer
    then m
    else with_id ptr (unique_secret_id ptr.namespace ptr.name ptr.key m.id_in_use) m

unfoldable pub add_keys : String → String → List String → Merging → Merging
add_keys namespace name [] m = m
add_keys namespace name (key ∷ keys) m =
    add_keys namespace name keys
      (add_pointer (record { namespace = namespace; name = name; key = key }) m)

-- the writes of one Secret; a missing name reads as the zero write, as the code's map does
abbrev pub add_write : {Value : Type 0} → String → Option (SecretWrite Value) → Merging → Merging
add_write name none m = m
add_write name (some write) m =
    add_keys write.namespace name (sort_by str_less (map (λ e. e.0) write.secret_data)) m

unfoldable pub add_writes :
    {Value : Type 0} → Map String (SecretWrite Value) → List String → Merging → Merging
add_writes writes [] m = m
add_writes writes (name ∷ names) m = add_writes writes names (add_write name (lookup name writes) m)

abbrev pub entry_less : SecretEntry → SecretEntry → Bool
entry_less a b =
    if not (a.id == b.id)
    then str_less a.id b.id
    else if not (a.k8s_secret.namespace == b.k8s_secret.namespace)
    then str_less a.k8s_secret.namespace b.k8s_secret.namespace
    else if not (a.k8s_secret.name == b.k8s_secret.name)
    then str_less a.k8s_secret.name b.k8s_secret.name
    else str_less a.k8s_secret.key b.k8s_secret.key

abbrev pub existing_entries : Option SecretsConfig → List SecretEntry
existing_entries none = []
existing_entries (some cfg) = cfg.secrets

abbrev pub nothing_merged : Merging
nothing_merged = record { by_pointer = []; id_in_use = [] }

-- the two loops of mergeSecretEntries
unfoldable pub merged_secrets :
    {Value : Type 0} → Option SecretsConfig → Map String (SecretWrite Value) → Merging
merged_secrets existing writes =
    add_writes writes (sort_by str_less (map (λ e. e.0) writes))
      (index_existing (existing_entries existing) nothing_merged)

-- mergeSecretEntries, the entries sorted at the end
unfoldable pub merge_secret_entries :
    {Value : Type 0} → Option SecretsConfig → Map String (SecretWrite Value) → List SecretEntry
merge_secret_entries existing writes =
    sort_by entry_less (map (λ e. e.1) (merged_secrets existing writes).by_pointer)

-- what the checks of the writes end with
pub data WritesCheck : Type 0 where
  no_writes : WritesCheck
  has_writes : WritesCheck
  bad_secret_name : String → WritesCheck
  bad_namespace : String → WritesCheck
  data_required : String → WritesCheck
  bad_secret_key : String → WritesCheck

unfoldable pub check_keys : List String → WritesCheck → WritesCheck
check_keys [] rest = rest
check_keys (key ∷ keys) rest =
    let later = check_keys keys rest in if is_valid_name key then later else bad_secret_key key

abbrev pub check_data : {Value : Type 0} → String → Map String Value → WritesCheck → WritesCheck
check_data name [] rest = data_required name
check_data name (e ∷ es) rest = check_keys (map (λ x. x.0) (e ∷ es)) rest

-- the loop of validateSecretWrites, in the order of the map
unfoldable pub check_writes : {Value : Type 0} → Map String (SecretWrite Value) → WritesCheck
check_writes [] = has_writes
check_writes ((name, write) ∷ writes) =
    let rest = check_writes writes in
    if not (is_k8s_dns_subdomain name)
    then bad_secret_name name
    else if not (is_k8s_dns_label write.namespace)
    then bad_namespace write.namespace
    else check_data name write.secret_data rest

-- validateSecretWrites
abbrev pub validate_secret_writes : {Value : Type 0} → Map String (SecretWrite Value) → WritesCheck
validate_secret_writes [] = no_writes
validate_secret_writes (w ∷ ws) = check_writes (w ∷ ws)

-- secretWriteAuditIDs
unfoldable pub audit_ids :
    {Value : Type 0} → Map String (SecretWrite Value) → List String → List String
audit_ids writes [] = []
audit_ids writes (name ∷ names) =
    let rest = audit_ids writes names in
    elim (lookup name writes) [
      | none ↦ ("/" ++ name) ∷ rest
      | some write ↦ (write.namespace ++ ("/" ++ name)) ∷ rest
    ]

unfoldable pub secret_write_audit_ids :
    {Value : Type 0} → Map String (SecretWrite Value) → List String
secret_write_audit_ids writes = audit_ids writes (sort_by str_less (map (λ w. w.0) writes))
