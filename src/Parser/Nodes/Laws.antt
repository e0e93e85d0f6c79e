-- ===== src/Parser/Nodes/Laws.antt =====
-- internal/parser/validate.go: what the loops over keys accept, without their sets of seen keys.
use Prim.Native.String.{String}
use aap_config_server.Base.{
  ◌≡◌, refl, ◌∙◌, Bool, true, not, ◌&&◌, Option, none, some, List, [], ◌∷◌, arith, if◌then◌else◌,
  is_ok, is_ok-or_then,
}
use aap_config_server.Base.Eq.{◌==◌, text_has_eq}
use aap_config_server.Parser.Nodes.{
  check_key, check_pair, unbalanced, Node, kind, value, content, is_mapping, is_scalar, SchemaError,
  is_among, is_even, require_mapping, require_scalar, optional, check_mapping_keys,
  validate_mapping_keys, matches_env_name, check_string_map, validate_string_map,
}

unfoldable pub every {ℓ} : {A : Type ℓ} → (A → Bool) → List A → Bool
every ok [] = true
every ok (x ∷ xs) = ok x && every ok xs

-- the nodes at even and at odd places
unfoldable pub key_nodes : List Node → List Node
key_nodes [] = []
key_nodes (k ∷ []) = []
key_nodes (k ∷ v ∷ rest) = k ∷ key_nodes rest

unfoldable pub value_nodes : List Node → List Node
value_nodes [] = []
value_nodes (k ∷ []) = []
value_nodes (k ∷ v ∷ rest) = v ∷ value_nodes rest

-- no key has the text of a later one
unfoldable pub no_repeat : List Node → Bool
no_repeat [] = true
no_repeat (k ∷ ks) = every (λ n. not (value n == value k)) ks && no_repeat ks

abbrev pub scalar_key : Node → Bool
scalar_key n = is_scalar (kind n)

abbrev pub allowed_key : List String → Node → Bool
allowed_key allowed n = is_among (value n) allowed

abbrev pub env_key : Node → Bool
env_key n = matches_env_name (value n)

-- A mapping of scalar keys, all different and all allowed.
unfoldable pub has_keys : List String → Node → Bool
has_keys allowed n =
    is_even (content n)
    && (every scalar_key (key_nodes (content n))
        && (no_repeat (key_nodes (content n))
            && every (allowed_key allowed) (key_nodes (content n))))

-- A mapping of different names of variables to scalars.
unfoldable pub is_string_map : Node → Bool
is_string_map n =
    is_mapping (kind n)
    && (is_even (content n)
        && (every scalar_key (key_nodes (content n))
            && (no_repeat (key_nodes (content n))
                && (every env_key (key_nodes (content n))
                    && every scalar_key (value_nodes (content n))))))

abbrev fresh : List String → Node → Bool
fresh seen n = not (is_among (value n) seen)

every-fresh :
    (name : String) (seen : List String) (ns : List Node)
    → every (fresh (name ∷ seen)) ns
      ≡ every (λ n. not (value n == name)) ns && every (fresh seen) ns
unfolding every is_among
every-fresh name seen [] = refl
every-fresh name seen (n ∷ ns) = ground (arith, every-fresh name seen ns)

no_names_fresh : (ns : List Node) → every (fresh []) ns ≡ true
unfolding every is_among
no_names_fresh [] = refl
no_names_fresh (n ∷ ns) = no_names_fresh ns

is_ok-check_key :
    (file path : String) (allowed seen : List String) (k : Node)
    → is_ok (check_key file path allowed seen k)
      ≡ scalar_key k && (fresh seen k && allowed_key allowed k)
unfolding check_key
is_ok-check_key file path allowed seen k = ground arith

is_ok-check_pair :
    (file path : String) (seen : List String) (k v : Node)
    → is_ok (check_pair file path seen k v)
      ≡ scalar_key k && (fresh seen k && (env_key k && scalar_key v))
unfolding check_pair
is_ok-check_pair file path seen k v = ground arith

regroup_key :
    (a b c s n d f w : Bool)
    → (a && (b && c)) && (s && (n && ((d && f) && w)))
      ≡ (a && s) && ((d && n) && ((b && f) && (c && w)))
regroup_key true true true s true d f w = ground arith
regroup_key _ _ _ _ _ _ _ _ = ground arith

regroup_pair :
    (a b c v s n d f w u : Bool)
    → (a && (b && (c && v))) && (s && (n && ((d && f) && (w && u))))
      ≡ (a && s) && ((d && n) && ((b && f) && ((c && w) && (v && u))))
regroup_pair true true true true s n d f w u = ground arith
regroup_pair a b c v s n d f w u = ground arith

is_ok-check_mapping_keys :
    (file path : String) (allowed seen : List String) (ns : List Node)
    → is_ok (check_mapping_keys file path allowed seen ns)
      ≡ every scalar_key (key_nodes ns)
        && (no_repeat (key_nodes ns)
            && (every (fresh seen) (key_nodes ns) && every (allowed_key allowed) (key_nodes ns)))
unfolding check_mapping_keys every key_nodes no_repeat
is_ok-check_mapping_keys file path allowed seen [] = refl
is_ok-check_mapping_keys file path allowed seen (k ∷ []) = refl
is_ok-check_mapping_keys file path allowed seen (k ∷ v ∷ rest) =
    is_ok-or_then (check_key file path allowed seen k)
      (check_mapping_keys file path allowed (value k ∷ seen) rest)
    ∙ rw
        (
          is_ok-check_key file path allowed seen k,
          is_ok-check_mapping_keys file path allowed (value k ∷ seen) rest,
          every-fresh (value k) seen (key_nodes rest),
        )
        (regroup_key (scalar_key k) (fresh seen k) (allowed_key allowed k)
          (every scalar_key (key_nodes rest)) (no_repeat (key_nodes rest))
          (every (λ n. not (value n == value k)) (key_nodes rest))
          (every (fresh seen) (key_nodes rest)) (every (allowed_key allowed) (key_nodes rest)))

is_ok-check_string_map :
    (file path : String) (seen : List String) (ns : List Node)
    → is_ok (check_string_map file path seen ns)
      ≡ every scalar_key (key_nodes ns)
        && (no_repeat (key_nodes ns)
            && (every (fresh seen) (key_nodes ns)
                && (every env_key (key_nodes ns) && every scalar_key (value_nodes ns))))
unfolding check_string_map every key_nodes value_nodes no_repeat
is_ok-check_string_map file path seen [] = refl
is_ok-check_string_map file path seen (k ∷ []) = refl
is_ok-check_string_map file path seen (k ∷ v ∷ rest) =
    is_ok-or_then (check_pair file path seen k v) (check_string_map file path (value k ∷ seen) rest)
    ∙ rw
        (
          is_ok-check_pair file path seen k v,
          is_ok-check_string_map file path (value k ∷ seen) rest,
          every-fresh (value k) seen (key_nodes rest),
        )
        (regroup_pair (scalar_key k) (fresh seen k) (env_key k) (scalar_key v)
          (every scalar_key (key_nodes rest)) (no_repeat (key_nodes rest))
          (every (λ n. not (value n == value k)) (key_nodes rest))
          (every (fresh seen) (key_nodes rest)) (every env_key (key_nodes rest))
          (every scalar_key (value_nodes rest)))

pub is_ok-validate_mapping_keys :
    (file : String) (n : Node) (path : String) (allowed : List String)
    → is_ok (validate_mapping_keys file n path allowed) ≡ has_keys allowed n
unfolding validate_mapping_keys has_keys
is_ok-validate_mapping_keys file n path allowed = ground (
  arith,
  is_ok-check_mapping_keys file path allowed [] (content n),
  no_names_fresh (key_nodes (content n)),
)

pub is_ok-require_mapping :
    (file path : String) (n : Node) → is_ok (require_mapping file path n) ≡ is_mapping (kind n)
unfolding require_mapping
is_ok-require_mapping file path n = ground arith

pub is_ok-require_scalar :
    (file path : String) (n : Node) → is_ok (require_scalar file path n) ≡ is_scalar (kind n)
unfolding require_scalar
is_ok-require_scalar file path n = ground arith

pub is_ok-validate_string_map :
    (file path : String) (n : Node) → is_ok (validate_string_map file path n) ≡ is_string_map n
unfolding validate_string_map is_string_map
is_ok-validate_string_map file path n = ground (
  arith,
  is_ok-or_then (require_mapping file path n) (
      if is_even (content n)
      then check_string_map file path [] (content n)
      else some (unbalanced file path)),
  is_ok-require_mapping file path n,
  is_ok-check_string_map file path [] (content n),
  no_names_fresh (key_nodes (content n)),
)

-- what a member that may be missing has to meet
unfoldable pub given : (Node → Bool) → Option Node → Bool
given ok none = true
given ok (some n) = ok n

pub is_ok-optional :
    (check : Node → Option SchemaError) (ok : Node → Bool)
    → ((n : Node) → is_ok (check n) ≡ ok n)
    → (o : Option Node) → is_ok (optional check o) ≡ given ok o
unfolding optional given
is_ok-optional check ok h none = refl
is_ok-optional check ok h (some n) = h n
