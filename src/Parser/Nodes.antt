-- ===== src/Parser/Nodes.antt =====
-- internal/parser/validate.go: the nodes that yaml.v3 hands over, and the checks on one node.
pub mod Laws
use Prim.Native.Char.{Char, code}
use Prim.Native.String.{String, ◌++◌ as str_append}
use aap_config_server.Base.{
  ℕ, suc, Bool, true, false, not, ◌&&◌, ◌||◌, Option, none, some, List, [], ◌∷◌, if◌then◌else◌, leb,
  nat_beq, or_then,
}
use aap_config_server.Base.Eq.{◌==◌, text_has_eq}
use aap_config_server.Base.Sort.{sort_by, str_less}
use aap_config_server.Base.Text.{all_chars}

pub data Kind : Type 0 where
  document_node : Kind
  sequence_node : Kind
  mapping_node : Kind
  scalar_node : Kind
  alias_node : Kind

abbrev pub is_mapping : Kind → Bool
is_mapping mapping_node = true
is_mapping _ = false

abbrev pub is_scalar : Kind → Bool
is_scalar scalar_node = true
is_scalar _ = false

abbrev pub is_sequence : Kind → Bool
is_sequence sequence_node = true
is_sequence _ = false

-- yaml.Node, as far as the checks read it
mutual
  pub data Node : Type 0 where
    node : Kind → String → Nodes → Node

  pub data Nodes : Type 0 where
    nil : Nodes
    cons : Node → Nodes → Nodes

abbrev pub kind : Node → Kind
kind (node k text below) = k

abbrev pub value : Node → String
value (node k text below) = text

abbrev pub to_list : Nodes → List Node
to_list nil = []
to_list (cons n below) = n ∷ to_list below

abbrev pub content : Node → List Node
content (node k text below) = to_list below

-- the errors, each with the parts of its message
pub data SchemaError : Type 0 where
  not_yaml : String → String → SchemaError
  not_a_document : String → SchemaError
  unbalanced : String → String → SchemaError
  key_not_scalar : String → String → SchemaError
  duplicate_key : String → String → String → SchemaError
  unknown_field : String → String → String → List String → SchemaError
  must_be_mapping : String → String → SchemaError
  must_be_scalar : String → String → SchemaError
  must_be_sequence : String → String → SchemaError
  invalid_env_name : String → String → String → SchemaError
  value_not_scalar : String → String → String → SchemaError
  missing_fields : String → List String → SchemaError
  missing_entry_fields : ℕ → List String → SchemaError
  duplicate_id : String → ℕ → ℕ → SchemaError
  undecodable : String → String → SchemaError

-- whether a set of names has one
unfoldable pub is_among : String → List String → Bool
is_among name [] = false
is_among name (k ∷ ks) = name == k || is_among name ks

-- `len(content) % 2 == 0`
unfoldable pub is_even : List Node → Bool
is_even [] = true
is_even (a ∷ []) = false
is_even (a ∷ b ∷ rest) = is_even rest

-- requireMapping
unfoldable pub require_mapping : String → String → Node → Option SchemaError
require_mapping file path n = if is_mapping (kind n) then none else some (must_be_mapping file path)

-- requireScalar
unfoldable pub require_scalar : String → String → Node → Option SchemaError
require_scalar file path n = if is_scalar (kind n) then none else some (must_be_scalar file path)

-- the loop of child
unfoldable pub child_in : List Node → String → Option Node
child_in [] key = none
child_in (k ∷ []) key = none
child_in (k ∷ v ∷ rest) key = if value k == key then some v else child_in rest key

-- child
unfoldable pub child : Node → String → Option Node
child n key = child_in (content n) key

-- `if node := child(…); node != nil { check }`
unfoldable pub optional : (Node → Option SchemaError) → Option Node → Option SchemaError
optional check none = none
optional check (some n) = check n

-- `for _, key := range keys { check }`
unfoldable pub each : (String → Option SchemaError) → List String → Option SchemaError
each check [] = none
each check (key ∷ keys) = or_then (check key) (each check keys)

-- sortedKeys
unfoldable pub sorted_keys : List String → List String
sorted_keys keys = sort_by str_less keys

-- one round of the loop of validateMappingKeys
unfoldable pub check_key : String → String → List String → List String → Node → Option SchemaError
check_key file path allowed seen k =
    if not (is_scalar (kind k))
    then some (key_not_scalar file path)
    else if is_among (value k) seen
    then some (duplicate_key file (value k) path)
    else if not (is_among (value k) allowed)
    then some (unknown_field file (value k) path (sorted_keys allowed))
    else none

-- the loop of validateMappingKeys, with the keys seen so far
unfoldable pub check_mapping_keys :
    String → String → List String → List String → List Node → Option SchemaError
check_mapping_keys file path allowed seen [] = none
check_mapping_keys file path allowed seen (k ∷ []) = none
check_mapping_keys file path allowed seen (k ∷ v ∷ rest) =
    or_then (check_key file path allowed seen k)
      (check_mapping_keys file path allowed (value k ∷ seen) rest)

-- validateMappingKeys
unfoldable pub validate_mapping_keys : String → Node → String → List String → Option SchemaError
validate_mapping_keys file n path allowed =
    if is_even (content n)
    then check_mapping_keys file path allowed [] (content n)
    else some (unbalanced file path)

-- the classes of validEnvNameRe, `^[A-Za-z_][A-Za-z0-9_]*$`
abbrev pub is_name_start : ℕ → Bool
is_name_start c = leb b'A' c && leb c b'Z' || (leb b'a' c && leb c b'z' || nat_beq c b'_')

abbrev pub is_name_part : ℕ → Bool
is_name_part c = is_name_start c || leb b'0' c && leb c b'9'

unfoldable pub matches_env_name : String → Bool
matches_env_name String.[] = false
matches_env_name (String.◌∷◌ c s) = is_name_start (code c) && all_chars is_name_part s

-- one round of the loop of validateStringMap
unfoldable pub check_pair : String → String → List String → Node → Node → Option SchemaError
check_pair file path seen k v =
    if not (is_scalar (kind k))
    then some (key_not_scalar file path)
    else if is_among (value k) seen
    then some (duplicate_key file (value k) path)
    else if not (matches_env_name (value k))
    then some (invalid_env_name file path (value k))
    else if not (is_scalar (kind v))
    then some (value_not_scalar file path (value k))
    else none

-- the loop of validateStringMap
unfoldable pub check_string_map : String → String → List String → List Node → Option SchemaError
check_string_map file path seen [] = none
check_string_map file path seen (k ∷ []) = none
check_string_map file path seen (k ∷ v ∷ rest) =
    or_then (check_pair file path seen k v) (check_string_map file path (value k ∷ seen) rest)

-- validateStringMap, on a node that is there
unfoldable pub validate_string_map : String → String → Node → Option SchemaError
validate_string_map file path n = or_then (require_mapping file path n) (
    if is_even (content n)
    then check_string_map file path [] (content n)
    else some (unbalanced file path))
