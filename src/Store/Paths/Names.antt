-- ===== src/Store/Paths/Names.antt =====
-- Names that the admin operations of internal/store/store.go accept, and the paths they lead to.
use Prim.Native.String.{String, ◌++◌}
use aap_config_server.Base.{◌≡◌, refl, true, some, arith}
use aap_config_server.Base.Text.{lacks, all_chars, lacks-all_chars}
use aap_config_server.Store.Types.{ServiceKey}
use aap_config_server.Store.Paths.{
  slash, key_string, service_path, FileType, file_name, classify_path, is_valid_name,
  is_k8s_dns_label, is_name_char, is_label_char,
}
use aap_config_server.Store.Paths.Laws.{classify-service_path}

-- A name that `validateName` accepts has no slash, so it is one part of a path.
pub is_valid_name-lacks : (s : String) → is_valid_name s ≡ true → lacks slash s ≡ true
unfolding is_valid_name lacks
is_valid_name-lacks String.[] h = refl
is_valid_name-lacks (String.◌∷◌ c s) h =
    ground (arith, lacks-all_chars slash is_name_char s refl (ground arith))

-- A file that is written for validated names is classified as the file of that kind of the service
-- with those names.
pub classify-valid_names :
    (key : ServiceKey) (kind : FileType)
    → is_valid_name key.org ≡ true
    → is_valid_name key.project ≡ true
    → is_valid_name key.service ≡ true
    → classify_path (service_path key.org key.project key.service ++ ("/" ++ file_name kind))
      ≡ some (key_string key, kind)
classify-valid_names key kind o p s = classify-service_path key kind (record {
  org = is_valid_name-lacks key.org o;
  project = is_valid_name-lacks key.project p;
  service = is_valid_name-lacks key.service s;
})

label_chars-name_chars :
    (s : String) → all_chars is_label_char s ≡ true → all_chars is_name_char s ≡ true
unfolding all_chars
label_chars-name_chars String.[] h = refl
label_chars-name_chars (String.◌∷◌ c s) h = ground (arith, label_chars-name_chars s (ground arith))

-- A Kubernetes DNS label is also a valid name of the store.
pub is_k8s_dns_label-is_valid_name :
    (s : String) → is_k8s_dns_label s ≡ true → is_valid_name s ≡ true
unfolding is_k8s_dns_label is_valid_name
is_k8s_dns_label-is_valid_name String.[] h = ground arith
is_k8s_dns_label-is_valid_name (String.◌∷◌ c s) h =
    ground (arith, label_chars-name_chars s (ground arith))
