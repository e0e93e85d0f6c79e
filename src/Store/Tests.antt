-- ===== src/Store/Tests.antt =====
-- The merge, the inheritance and the paths of internal/store/store.go at concrete inputs.
use Prim.Native.String.{◌++◌}
use aap_config_server.Base.{String, ◌≡◌, refl, some, none, [], ◌∷◌}
use aap_config_server.Base.Text.{lacks, all_chars, join}
use aap_config_server.Base.Eq.{text_has_eq}
use aap_config_server.Store.Value.{
  text, integer, entry, no_entries, mixed_mapping, put, Value, null, scalar, mapping, Fields,
  no_fields, field, get,
}
use aap_config_server.Base.Int.{pos}
use aap_config_server.Store.Merge.{deep_merge_map, copy_config_map, merge_fields}
use aap_config_server.Store.Merge.Laws.{IsGoMap, layered, get-deep_merge_map}
use aap_config_server.Store.Merge.Paths.{at, deep_merge_map_override, deep_merge_map_keeps_null}
use aap_config_server.Store.Types.{ServiceKey}
use aap_config_server.Store.Paths.{FileType, key_string, service_path, classify_path, is_valid_name}
use aap_config_server.Store.Paths.Laws.{IsSlashFree, classify_path_below}
use aap_config_server.Store.Paths.Names.{classify-valid_names}

abbrev word : String → Value
word s = scalar (text s)

-- verbose: on, log: { level: info, file: out }
abbrev base : Fields
base = field "verbose" (word "on") (
    field "log" (mapping (field "level" (word "info") (field "file" (word "out") no_fields)))
      no_fields)

-- log: { level: debug, file: null }, cache: { size: null }
abbrev override : Fields
override =
    field "log" (mapping (field "level" (word "debug") (field "file" null no_fields)))
      (field "cache" (mapping (field "size" null no_fields)) no_fields)

override-IsGoMap : IsGoMap override
unfolding IsGoMap get
override-IsGoMap = (refl, ((refl, (tt, (refl, (tt, tt)))), (refl, ((refl, (tt, tt)), tt))))

get-deep_merge_map_example :
    get "verbose" (deep_merge_map base override)
    ≡ layered (get "verbose" base) (get "verbose" override)
get-deep_merge_map_example = get-deep_merge_map "verbose" base override override-IsGoMap

deep_merge_map_override_example :
    at ("log" ∷ "level" ∷ []) (some (mapping (deep_merge_map base override))) ≡ some (word "debug")
unfolding at get
deep_merge_map_override_example =
    deep_merge_map_override "log" ("level" ∷ []) base override (word "debug") override-IsGoMap refl
      refl

deep_merge_map_keeps_null_example :
    at ("cache" ∷ "size" ∷ []) (some (mapping (deep_merge_map base override))) ≡ some null
unfolding get at
deep_merge_map_keeps_null_example =
    deep_merge_map_keeps_null "cache" [] ("size" ∷ []) base override (field "size" null no_fields)
      override-IsGoMap refl refl refl

-- a mapping with a number for a key is replaced by the override's mapping, not merged with it
mixed_replaced :
    at ("log" ∷ "file" ∷ []) (
      some (
        mapping (
          deep_merge_map
            (field "log"
              (mixed_mapping (
                entry
                  (some (integer (pos 1)))
                  (word "x")
                  (entry (some (text "file")) (word "out") no_entries)))
              no_fields)
            (field "log" (mapping (field "level" (word "debug") no_fields)) no_fields))))
    ≡ none
unfolding at deep_merge_map copy_config_map merge_fields get put
mixed_replaced = refl

abbrev chat : ServiceKey
chat = record { org = "acme"; project = "ai"; service = "chat" }

classify-valid_names_example :
    classify_path (service_path "acme" "ai" "chat" ++ ("/" ++ "config.yaml"))
    ≡ some (key_string chat, FileType.config)
unfolding is_valid_name all_chars
classify-valid_names_example = classify-valid_names chat FileType.config refl refl refl

chat-IsSlashFree : IsSlashFree chat
unfolding lacks
chat-IsSlashFree = record { org = refl; project = refl; service = refl }

classify_path_below_example :
    classify_path (
      "configs/orgs/"
      ++ join "/"
          ("acme" ∷ "projects" ∷ "ai" ∷ "services" ∷ "chat" ∷ "config.yaml" ∷ "readme.md" ∷ []))
    ≡ some (key_string chat, FileType.config)
unfolding lacks
classify_path_below_example = classify_path_below chat "readme.md" chat-IsSlashFree refl
