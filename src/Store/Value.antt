-- ===== src/Store/Value.antt =====
-- The free-form configuration values, Go's `any` as the YAML decoder fills it: nil, the scalars,
-- []any, map[string]any for a mapping whose keys are all texts, and map[any]any for a mapping with
-- another key.
use aap_config_server.Base.{ℕ, String, ◌≡◌, refl, Bool, Option, none, some, if◌then◌else◌, arith}
use aap_config_server.Base.Int.{ℤ}
use aap_config_server.Base.Eq.{◌==◌, text_has_eq}

-- A float is its bits; a time is its seconds and nanoseconds.
pub data Scalar : Type 0 where
  boolean : Bool → Scalar
  integer : ℤ → Scalar
  float : ℕ → Scalar
  text : String → Scalar
  timestamp : ℤ → ℕ → Scalar

mutual
  pub data Value : Type 0 where
    null : Value
    scalar : Scalar → Value
    sequence : Items → Value
    mapping : Fields → Value
    mixed_mapping : Entries → Value

  pub data Items : Type 0 where
    no_items : Items
    item : Value → Items → Items

  -- a map[string]any, one field per key
  pub data Fields : Type 0 where
    no_fields : Fields
    field : String → Value → Fields → Fields

  -- a map[any]any, whose keys are scalars or nil
  pub data Entries : Type 0 where
    no_entries : Entries
    entry : Option Scalar → Value → Entries → Entries

-- `m[key]`
unfoldable pub get : String → Fields → Option Value
get k no_fields = none
get k (field i v fs) = if i == k then some v else get k fs

-- `m[key] = value`
unfoldable pub put : String → Value → Fields → Fields
put k new no_fields = field k new no_fields
put k new (field i old fs) = if i == k then field k new fs else field i old (put k new fs)

-- `delete(m, key)`
unfoldable pub drop : String → Fields → Fields
drop k no_fields = no_fields
drop k (field i v fs) = let rest = drop k fs in if i == k then rest else field i v rest

pub get-put :
    (k j : String) (v : Value) (fs : Fields)
    → get j (put k v fs) ≡ (if k == j then some v else get j fs)
unfolding get put
get-put k j v no_fields = refl
get-put k j v (field i w fs) = ground (
  arith,
  get-put k j v fs,
  text_has_eq.agree_iff i k,
  text_has_eq.agree_iff i j,
  text_has_eq.agree_iff k j,
)

pub get-drop :
    (k j : String) (fs : Fields) → get j (drop k fs) ≡ (if k == j then none else get j fs)
unfolding get drop
get-drop k j no_fields = ground arith
get-drop k j (field i w fs) = ground (
  arith,
  get-drop k j fs,
  text_has_eq.agree_iff i k,
  text_has_eq.agree_iff i j,
  text_has_eq.agree_iff k j,
)
