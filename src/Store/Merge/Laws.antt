-- ===== src/Store/Merge/Laws.antt =====
-- What a merge of internal/store/store.go leaves at a key: copies are equal to their originals, so
-- that the law of one loop turn carries over to the whole loop.
use aap_config_server.Base.{
  String, ◌≡◌, refl, sym, ap, Option, none, some, if◌then◌else◌, Bool-cases, inl, inr, ◌∙◌,
}
use aap_config_server.Base.Eq.{◌==◌, text_has_eq}
use aap_config_server.Store.Value.{
  Value, null, scalar, sequence, mapping, mixed_mapping, Items, no_items, item, Fields, no_fields,
  field, get, get-put, get-drop,
}
use aap_config_server.Store.Merge.{
  copy_config_map, deep_copy_config_value, copy_items, merge_fields, merge_value, write,
  deep_merge_map,
}

mutual
  unfolding copy_config_map

  pub copy_config_map_lem : (fs : Fields) → copy_config_map fs ≡ fs
  copy_config_map_lem no_fields = refl
  copy_config_map_lem (field k v fs) = cc (deep_copy_config_value_lem v, copy_config_map_lem fs)

  pub deep_copy_config_value_lem : (v : Value) → deep_copy_config_value v ≡ v
  deep_copy_config_value_lem null = refl
  deep_copy_config_value_lem (scalar s) = refl
  deep_copy_config_value_lem (sequence vs) = ap sequence (copy_items_lem vs)
  deep_copy_config_value_lem (mapping fs) = ap mapping (copy_config_map_lem fs)
  deep_copy_config_value_lem (mixed_mapping es) = refl

  copy_items_lem : (vs : Items) → copy_items vs ≡ vs
  copy_items_lem no_items = refl
  copy_items_lem (item v vs) = cc (deep_copy_config_value_lem v, copy_items_lem vs)

-- A Go map has one entry for a key, at every depth that a merge reaches: it takes a map[any]any
-- as a whole.
unfoldable mutual
  pub IsGoMap : Fields → Type 0
  IsGoMap no_fields = Unit
  IsGoMap (field k v fs) = (get k fs ≡ none) × (IsGoValue v × IsGoMap fs)

  pub IsGoValue : Value → Type 0
  IsGoValue null = Unit
  IsGoValue (scalar s) = Unit
  IsGoValue (sequence vs) = HoldGoValues vs
  IsGoValue (mapping fs) = IsGoMap fs
  IsGoValue (mixed_mapping es) = Unit

  HoldGoValues : Items → Type 0
  HoldGoValues no_items = Unit
  HoldGoValues (item v vs) = IsGoValue v × HoldGoValues vs

-- One key: a mapping with keys that are texts is merged into another such one, null deletes, and
-- everything else replaces, a mapping with another key included.
abbrev pub layered : Option Value → Option Value → Option Value
layered base none = base
layered base (some null) = none
layered (some (mapping fs)) (some (mapping gs)) = some (mapping (deep_merge_map fs gs))
layered base (some v) = some v

merge_value_lem : (base : Option Value) (v : Value) → merge_value base v ≡ layered base (some v)
unfolding copy_config_map merge_fields deep_merge_map
merge_value_lem base null = refl
merge_value_lem none (scalar s) = refl
merge_value_lem (some w) (scalar s) = refl
merge_value_lem none (mixed_mapping es) = refl
merge_value_lem (some w) (mixed_mapping es) = refl
merge_value_lem none (sequence vs) = ap (λ w. some w) (deep_copy_config_value_lem (sequence vs))
merge_value_lem (some w) (sequence vs) = ap (λ w. some w) (deep_copy_config_value_lem (sequence vs))
merge_value_lem none (mapping fs) = ap (λ w. some w) (deep_copy_config_value_lem (mapping fs))
merge_value_lem (some null) (mapping fs) =
    ap (λ w. some w) (deep_copy_config_value_lem (mapping fs))
merge_value_lem (some (scalar s)) (mapping fs) =
    ap (λ w. some w) (deep_copy_config_value_lem (mapping fs))
merge_value_lem (some (sequence vs)) (mapping fs) =
    ap (λ w. some w) (deep_copy_config_value_lem (mapping fs))
merge_value_lem (some (mapping gs)) (mapping fs) = refl
merge_value_lem (some (mixed_mapping es)) (mapping fs) =
    ap (λ w. some w) (deep_copy_config_value_lem (mapping fs))

get-write :
    (k j : String) (w : Option Value) (fs : Fields)
    → get j (write k w fs) ≡ (if k == j then w else get j fs)
get-write k j none fs = get-drop k j fs
get-write k j (some v) fs = get-put k j v fs

get-merge_fields :
    (k : String) (result override : Fields)
    → IsGoMap override
    → get k (merge_fields result override) ≡ layered (get k result) (get k override)
unfolding merge_fields get IsGoMap
get-merge_fields k result no_fields h = refl
get-merge_fields k result (field i v fs) h = elim (Bool-cases (i == k)) [
  | inl y ↦
      get-merge_fields k (write i (merge_value (get i result) v) result) fs h.1.1
      ∙ rw (get-write i k (merge_value (get i result) v) result, y)
          (rw (ap (λ j. get j fs) (sym ((text_has_eq.agree_iff i k).0 y)) ∙ h.0) (
            merge_value_lem (get i result) v
            ∙ ap (λ j. layered (get j result) (some v)) ((text_has_eq.agree_iff i k).0 y)))
  | inr n ↦
      get-merge_fields k (write i (merge_value (get i result) v) result) fs h.1.1
      ∙ rw (get-write i k (merge_value (get i result) v) result, n) refl
]

-- What a merge holds at a key depends on what the two maps hold at it, and on nothing else: the
-- base's value where the override has none, nothing where the override has null, the merge of the
-- two where both are mappings whose keys are all texts, and the override's value otherwise. A
-- mapping with another key, in the base or in the override, is replaced and not merged. The
-- override has one entry for a key.
pub get-deep_merge_map :
    (k : String) (base override : Fields)
    → IsGoMap override
    → get k (deep_merge_map base override) ≡ layered (get k base) (get k override)
unfolding deep_merge_map
get-deep_merge_map k base override h =
    get-merge_fields k (copy_config_map base) override h
    ∙ ap (λ fs. layered (get k fs) (get k override)) (copy_config_map_lem base)

-- What a Go map holds at a key is a Go value.
abbrev pub IsGoEntry : Option Value → Type 0
IsGoEntry none = Unit
IsGoEntry (some v) = IsGoValue v

pub get-IsGoEntry : (k : String) (fs : Fields) → IsGoMap fs → IsGoEntry (get k fs)
unfolding get IsGoMap
get-IsGoEntry k no_fields h = tt
get-IsGoEntry k (field i v fs) h = elim (Bool-cases (i == k)) [
  | inl y ↦ rw y h.1.0
  | inr n ↦ rw n (get-IsGoEntry k fs h.1.1)
]
