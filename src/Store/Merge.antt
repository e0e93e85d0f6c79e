-- ===== src/Store/Merge.antt =====
-- internal/store/store.go, deepMergeMap with its copies: an override is laid over a base map.
pub mod Laws
pub mod Paths
use aap_config_server.Base.{
  String, ◌≡◌, refl, ap, Bool, true, false, Option, none, some, if◌then◌else◌, arith,
}
use aap_config_server.Base.Eq.{◌==◌, text_has_eq}
use aap_config_server.Store.Value.{
  Value, null, scalar, sequence, mapping, mixed_mapping, Items, no_items, item, Fields, no_fields,
  field, get, put, drop, get-put, get-drop,
}

unfoldable mutual
  -- copyConfigMap
  pub copy_config_map : Fields → Fields
  copy_config_map no_fields = no_fields
  copy_config_map (field k v fs) = field k (deep_copy_config_value v) (copy_config_map fs)

  -- deepCopyConfigValue; a map[any]any is returned as it is
  pub deep_copy_config_value : Value → Value
  deep_copy_config_value null = null
  deep_copy_config_value (scalar s) = scalar s
  deep_copy_config_value (sequence vs) = sequence (copy_items vs)
  deep_copy_config_value (mapping fs) = mapping (copy_config_map fs)
  deep_copy_config_value (mixed_mapping es) = mixed_mapping es

  -- the loop over a []any
  pub copy_items : Items → Items
  copy_items no_items = no_items
  copy_items (item v vs) = item (deep_copy_config_value v) (copy_items vs)

-- `delete(result, key)` for none, `result[key] = value` for some
abbrev pub write : String → Option Value → Fields → Fields
write k none result = drop k result
write k (some v) result = put k v result

unfoldable mutual
  -- the loop of deepMergeMap over the override's entries
  pub merge_fields : Fields → Fields → Fields
  merge_fields result no_fields = result
  merge_fields result (field k v fs) =
      merge_fields (write k (merge_value (get k result) v) result) fs

  -- what its body leaves at the key, from what `result[key]` holds; none is a delete
  pub merge_value : Option Value → Value → Option Value
  merge_value existing null = none
  merge_value (some (mapping base)) (mapping fs) =
      some (mapping (merge_fields (copy_config_map base) fs))
  merge_value existing v = some (deep_copy_config_value v)

unfoldable pub deep_merge_map : Fields → Fields → Fields
deep_merge_map base override = merge_fields (copy_config_map base) override
