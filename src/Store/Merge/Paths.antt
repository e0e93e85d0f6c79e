-- ===== src/Store/Merge/Paths.antt =====
-- Merges of internal/store/store.go read along a path of keys, as a client reads its settings.
use aap_config_server.Base.{
  String, ◌≡◌, refl, ap, Bool, true, false, Option, none, some, List, [], ◌∷◌, ◌++◌, ◌∙◌, sym,
  arith,
}
use aap_config_server.Store.Value.{
  Value, null, scalar, sequence, mapping, mixed_mapping, Fields, get,
}
use aap_config_server.Store.Merge.{deep_merge_map}
use aap_config_server.Store.Merge.Laws.{
  IsGoMap, IsGoValue, IsGoEntry, layered, get-deep_merge_map, get-IsGoEntry,
}

-- the value at a path of keys; nothing once a key is missing or its value is no mapping
unfoldable pub at : List String → Option Value → Option Value
at [] entry = entry
at (k ∷ ks) (some (mapping fs)) = at ks (get k fs)
at (k ∷ ks) entry = none

-- a value that replaces and deletes nothing else
abbrev pub is_leaf : Value → Bool
is_leaf (scalar s) = true
is_leaf (sequence vs) = true
is_leaf v = false

-- whether the map holds something at the path, or ends it with something other than a mapping
unfoldable pub touches : List String → Option Value → Bool
touches ks none = false
touches [] (some v) = true
touches (k ∷ ks) (some (mapping fs)) = touches ks (get k fs)
touches (k ∷ ks) (some v) = true

layered_leaf :
    (ks : List String) (base override : Option Value) (v : Value)
    → IsGoEntry override
    → is_leaf v ≡ true
    → at ks override ≡ some v
    → at ks (layered base override) ≡ some v
unfolding at IsGoMap IsGoValue
layered_leaf [] base none v h l e = ground arith
layered_leaf (k ∷ ks) base none v h l e = ground arith
layered_leaf [] base (some null) v h l e = ground arith
layered_leaf (k ∷ ks) base (some null) v h l e = ground arith
layered_leaf [] base (some (scalar s)) v h l e = e
layered_leaf (k ∷ ks) base (some (scalar s)) v h l e = ground arith
layered_leaf [] base (some (sequence s)) v h l e = e
layered_leaf [] base (some (mixed_mapping s)) v h l e = ground arith
layered_leaf (k ∷ ks) base (some (sequence s)) v h l e = ground arith
layered_leaf (k ∷ ks) base (some (mixed_mapping s)) v h l e = ground arith
layered_leaf [] base (some (mapping fs)) v h l e = ground arith
layered_leaf (k ∷ ks) (some (mapping fs)) (some (mapping gs)) v h l e =
    ap (at ks) (get-deep_merge_map k fs gs h)
    ∙ layered_leaf ks (get k fs) (get k gs) v (get-IsGoEntry k gs h) l e
layered_leaf (k ∷ ks) none (some (mapping gs)) v h l e = e
layered_leaf (k ∷ ks) (some null) (some (mapping gs)) v h l e = e
layered_leaf (k ∷ ks) (some (scalar _)) (some (mapping gs)) v h l e = e
layered_leaf (k ∷ ks) (some (sequence _)) (some (mapping gs)) v h l e = e
layered_leaf (k ∷ ks) (some (mixed_mapping _)) (some (mapping gs)) v h l e = e

-- Where the override holds nothing, no value is at the path in it either.
untouched :
    (ks : List String) (override : Option Value)
    → touches ks override ≡ false
    → at ks override ≡ none
unfolding at touches
untouched [] none u = refl
untouched (k ∷ ks) none u = refl
untouched [] (some v) u = ground arith
untouched (k ∷ ks) (some null) u = refl
untouched (k ∷ ks) (some (scalar s)) u = refl
untouched (k ∷ ks) (some (sequence s)) u = refl
untouched (k ∷ ks) (some (mixed_mapping s)) u = refl
untouched (k ∷ ks) (some (mapping fs)) u = untouched ks (get k fs) u

layered_untouched :
    (ks : List String) (base override : Option Value)
    → IsGoEntry override
    → touches ks override ≡ false
    → at ks (layered base override) ≡ at ks base
unfolding at touches IsGoMap IsGoValue
layered_untouched ks base none h u = refl
layered_untouched [] base (some v) h u = ground arith
layered_untouched (k ∷ ks) base (some null) h u = ground arith
layered_untouched (k ∷ ks) base (some (scalar s)) h u = ground arith
layered_untouched (k ∷ ks) base (some (sequence s)) h u = ground arith
layered_untouched (k ∷ ks) base (some (mixed_mapping s)) h u = ground arith
layered_untouched (k ∷ ks) (some (mapping fs)) (some (mapping gs)) h u =
    ap (at ks) (get-deep_merge_map k fs gs h)
    ∙ layered_untouched ks (get k fs) (get k gs) (get-IsGoEntry k gs h) u
layered_untouched (k ∷ ks) none (some (mapping gs)) h u = untouched ks (get k gs) u
layered_untouched (k ∷ ks) (some null) (some (mapping gs)) h u = untouched ks (get k gs) u
layered_untouched (k ∷ ks) (some (scalar _)) (some (mapping gs)) h u = untouched ks (get k gs) u
layered_untouched (k ∷ ks) (some (sequence _)) (some (mapping gs)) h u = untouched ks (get k gs) u
layered_untouched (k ∷ ks) (some (mixed_mapping _)) (some (mapping gs)) h u =
    untouched ks (get k gs) u

layered_null :
    (ks : List String) (base override : Option Value) (w : Value)
    → IsGoEntry override
    → at ks base ≡ some w
    → at ks override ≡ some null
    → at ks (layered base override) ≡ none
unfolding at IsGoMap IsGoValue
layered_null [] base none w h b e = ground arith
layered_null (k ∷ ks) base none w h b e = ground arith
layered_null [] base (some null) w h b e = refl
layered_null (k ∷ ks) base (some null) w h b e = ground arith
layered_null [] base (some (scalar s)) w h b e = ground arith
layered_null (k ∷ ks) base (some (scalar s)) w h b e = ground arith
layered_null [] base (some (sequence s)) w h b e = ground arith
layered_null [] base (some (mixed_mapping s)) w h b e = ground arith
layered_null (k ∷ ks) base (some (sequence s)) w h b e = ground arith
layered_null (k ∷ ks) base (some (mixed_mapping s)) w h b e = ground arith
layered_null [] base (some (mapping gs)) w h b e = ground arith
layered_null (k ∷ ks) (some (mapping fs)) (some (mapping gs)) w h b e =
    ap (at ks) (get-deep_merge_map k fs gs h)
    ∙ layered_null ks (get k fs) (get k gs) w (get-IsGoEntry k gs h) b e
layered_null (k ∷ ks) none (some (mapping gs)) w h b e = ground arith
layered_null (k ∷ ks) (some null) (some (mapping gs)) w h b e = ground arith
layered_null (k ∷ ks) (some (scalar _)) (some (mapping gs)) w h b e = ground arith
layered_null (k ∷ ks) (some (sequence _)) (some (mapping gs)) w h b e = ground arith
layered_null (k ∷ ks) (some (mixed_mapping _)) (some (mapping gs)) w h b e = ground arith

-- A scalar or a list that the override holds at a path is what the merge holds there, whatever
-- the base has along it.
pub deep_merge_map_override :
    (k : String) (ks : List String) (base override : Fields) (v : Value)
    → IsGoMap override
    → is_leaf v ≡ true
    → at (k ∷ ks) (some (mapping override)) ≡ some v
    → at (k ∷ ks) (some (mapping (deep_merge_map base override))) ≡ some v
unfolding IsGoMap
deep_merge_map_override k ks base override v h l e =
    layered_leaf (k ∷ ks) (some (mapping base)) (some (mapping override)) v h l e

-- At a path that leaves the override's mappings at a missing key, the merge holds what the base
-- holds.
pub deep_merge_map_base :
    (k : String) (ks : List String) (base override : Fields)
    → IsGoMap override
    → touches (k ∷ ks) (some (mapping override)) ≡ false
    → at (k ∷ ks) (some (mapping (deep_merge_map base override)))
      ≡ at (k ∷ ks) (some (mapping base))
unfolding IsGoMap
deep_merge_map_base k ks base override h u =
    layered_untouched (k ∷ ks) (some (mapping base)) (some (mapping override)) h u

-- A null that the override holds at a path where the base has a value deletes that value: the
-- merge holds nothing there.
pub deep_merge_map_null :
    (k : String) (ks : List String) (base override : Fields) (w : Value)
    → IsGoMap override
    → at (k ∷ ks) (some (mapping base)) ≡ some w
    → at (k ∷ ks) (some (mapping override)) ≡ some null
    → at (k ∷ ks) (some (mapping (deep_merge_map base override))) ≡ none
unfolding IsGoMap
deep_merge_map_null k ks base override w h b e =
    layered_null (k ∷ ks) (some (mapping base)) (some (mapping override)) w h b e

-- whether there is a mapping with keys that are texts
abbrev pub is_mapping : Option Value → Bool
is_mapping (some (mapping fs)) = true
is_mapping entry = false

layered_taken :
    (ks : List String) (base override : Option Value) (inner : Fields)
    → IsGoEntry override
    → is_mapping (at ks base) ≡ false
    → at ks override ≡ some (mapping inner)
    → at ks (layered base override) ≡ some (mapping inner)
unfolding at IsGoMap IsGoValue
layered_taken [] base none inner h b e = ground arith
layered_taken (k ∷ ks) base none inner h b e = ground arith
layered_taken [] base (some null) inner h b e = ground arith
layered_taken (k ∷ ks) base (some null) inner h b e = ground arith
layered_taken [] base (some (scalar s)) inner h b e = e
layered_taken (k ∷ ks) base (some (scalar s)) inner h b e = ground arith
layered_taken [] base (some (sequence s)) inner h b e = e
layered_taken (k ∷ ks) base (some (sequence s)) inner h b e = ground arith
layered_taken [] base (some (mixed_mapping s)) inner h b e = e
layered_taken (k ∷ ks) base (some (mixed_mapping s)) inner h b e = ground arith
layered_taken [] (some (mapping fs)) (some (mapping gs)) inner h b e = ground arith
layered_taken (k ∷ ks) (some (mapping fs)) (some (mapping gs)) inner h b e =
    ap (at ks) (get-deep_merge_map k fs gs h)
    ∙ layered_taken ks (get k fs) (get k gs) inner (get-IsGoEntry k gs h) b e
layered_taken ks none (some (mapping gs)) inner h b e = e
layered_taken ks (some null) (some (mapping gs)) inner h b e = e
layered_taken ks (some (scalar _)) (some (mapping gs)) inner h b e = e
layered_taken ks (some (sequence _)) (some (mapping gs)) inner h b e = e
layered_taken ks (some (mixed_mapping _)) (some (mapping gs)) inner h b e = e

at_missing : (js : List String) → at js none ≡ none
unfolding at
at_missing [] = refl
at_missing (j ∷ js) = refl

at-append : (ks js : List String) (entry : Option Value) → at (ks ++ js) entry ≡ at js (at ks entry)
unfolding at
at-append [] js entry = refl
at-append (k ∷ ks) js (some (mapping fs)) = at-append ks js (get k fs)
at-append (k ∷ ks) js none = sym (at_missing js)
at-append (k ∷ ks) js (some null) = sym (at_missing js)
at-append (k ∷ ks) js (some (scalar _)) = sym (at_missing js)
at-append (k ∷ ks) js (some (sequence _)) = sym (at_missing js)
at-append (k ∷ ks) js (some (mixed_mapping _)) = sym (at_missing js)

-- Where the override has a mapping at a path and the base has none there (nothing, a null, a
-- scalar, a list, or a mapping with a key that is no text), a null further down in the override's
-- mapping stays in the merge as a null, although null is documented to remove its key. The override
-- has one entry for a key.
pub deep_merge_map_keeps_null :
    (k : String) (ks js : List String) (base override inner : Fields)
    → IsGoMap override
    → is_mapping (at (k ∷ ks) (some (mapping base))) ≡ false
    → at (k ∷ ks) (some (mapping override)) ≡ some (mapping inner)
    → at js (some (mapping inner)) ≡ some null
    → at ((k ∷ ks) ++ js) (some (mapping (deep_merge_map base override))) ≡ some null
unfolding IsGoMap
deep_merge_map_keeps_null k ks js base override inner h b o n =
    at-append (k ∷ ks) js (some (mapping (deep_merge_map base override)))
    ∙ (ap (at js)
          (layered_taken (k ∷ ks) (some (mapping base)) (some (mapping override)) inner h b o)
        ∙ n)
