-- ===== src/Secret/Volume.antt =====
-- internal/secret/volume.go: the reader of mounted secrets with its cache, and the path of a
-- reference below the mount. A path is the list of its parts, from the root.
pub mod Laws
pub mod Tests
use Prim.Native.Char.{Char, code}
use Prim.Native.String.{String}
use aap_config_server.Base.{
  or_then, ℕ, ◌≡◌, ◌↔◌, Bool, true, false, not, ◌&&◌, ◌||◌, Option, none, some, List, [], ◌∷◌, ◌++◌,
  if◌then◌else◌, is_some, nat_beq, arith, eq_iff,
}
use aap_config_server.Base.Eq.{HasEq, ◌==◌, text_has_eq}
use aap_config_server.Base.Map.{Map, lookup, insert, remove}
use aap_config_server.Base.Text.{split_on, lacks}

pub record Reference : Type 0 where
  pub id : String
  pub namespace : String
  pub name : String
  pub key : String

abbrev pub reference_agrees : Reference → Reference → Bool
reference_agrees a b =
    a.id == b.id && (a.namespace == b.namespace && (a.name == b.name && a.key == b.key))

pub reference_agrees_iff : (a b : Reference) → (reference_agrees a b ≡ true) ↔ (a ≡ b)
reference_agrees_iff a b = (
  λ h. ground (
    arith,
    eq_iff a.id b.id,
    eq_iff a.namespace b.namespace,
    eq_iff a.name b.name,
    eq_iff a.key b.key,
  ),
  λ h. ground (
    arith,
    eq_iff a.id b.id,
    eq_iff a.namespace b.namespace,
    eq_iff a.name b.name,
    eq_iff a.key b.key,
  ),
)

instance abbrev pub reference_has_eq : HasEq Reference
reference_has_eq = record { agree = reference_agrees; agree_iff = reference_agrees_iff }

pub data VolumeError : Type 0 where
  id_required : VolumeError
  part_required : VolumeError
  invalid_part : VolumeError
  escapes_mount : VolumeError
  context_done : VolumeError
  read_failed : String → VolumeError

-- validatePathSegment: none, or its error
unfoldable pub validate_path_segment : String → Option VolumeError
validate_path_segment value =
    if value == ""
    then some part_required
    else if value == "." || value == ".." || not (lacks b'/' value) || not (lacks b'\\' value)
    then some invalid_part
    else none

-- validateReference
unfoldable pub validate_reference : Reference → Option VolumeError
validate_reference ref =
    if ref.id == ""
    then some id_required
    else or_then (validate_path_segment ref.namespace)
        (or_then (validate_path_segment ref.name) (validate_path_segment ref.key))

-- all but the last part; the root stays the root
abbrev pub parent : List String → List String
parent [] = []
parent (a ∷ []) = []
parent (a ∷ b ∷ parts) = a ∷ parent (b ∷ parts)

-- `filepath.Clean` going on from a clean path with further parts
unfoldable pub clean_from : List String → List String → List String
clean_from path [] = path
clean_from path (part ∷ parts) =
    clean_from
      (if part == "" || part == "."
        then path
        else if part == ".."
        then parent path
        else path ++ part ∷ [])
      parts

-- `filepath.Join` of a clean absolute path with three elements
unfoldable pub join_path : List String → String → String → String → List String
join_path mount namespace name key =
    clean_from mount (split_on b'/' namespace ++ (split_on b'/' name ++ split_on b'/' key))

-- one step up for each part
unfoldable pub up_from : List String → List String
up_from [] = []
up_from (part ∷ parts) = ".." ∷ up_from parts

-- `filepath.Rel` of two clean absolute paths; the empty path is "."
unfoldable pub relative_path : List String → List String → List String
relative_path [] target = target
relative_path (b ∷ base) [] = up_from (b ∷ base)
relative_path (b ∷ base) (t ∷ target) =
    let rest = relative_path base target in
    if b == t then rest else up_from (b ∷ base) ++ t ∷ target

-- rel is ".", ".." or begins with "../"
abbrev pub is_outside : List String → Bool
is_outside [] = true
is_outside (part ∷ parts) = part == ".."

pub data Outcome (A : Type 0) : Type 0 where
  done : A → Outcome A
  failed : VolumeError → Outcome A

abbrev pub checked_path : List String → List String → Outcome (List String)
checked_path mount path =
    if is_outside (relative_path mount path) then failed escapes_mount else done path

abbrev pub path_after : List String → Reference → Option VolumeError → Outcome (List String)
path_after mount ref (some why) = failed why
path_after mount ref none = checked_path mount (join_path mount ref.namespace ref.name ref.key)

-- Path
unfoldable pub path_of : List String → Reference → Outcome (List String)
path_of mount ref = path_after mount ref (validate_reference ref)

pub record Reader (Bytes : Type 0) : Type 0 where
  pub mount : List String
  pub cache : Map Reference Bytes

-- what reading a file gives
pub data FileRead (Bytes : Type 0) : Type 0 where
  contents : Bytes → FileRead Bytes
  unreadable : String → FileRead Bytes

abbrev pub store_value :
    {Bytes : Type 0}
    → Reader Bytes
    → Reference
    → Bool
    → FileRead Bytes
    → Reader Bytes × Outcome Bytes
store_value reader ref done_after (unreadable why) = (reader, failed (read_failed why))
store_value reader ref true (contents raw) = (reader, failed context_done)
store_value reader ref false (contents raw) =
    (record { mount = reader.mount; cache = insert ref raw reader.cache }, done raw)

abbrev pub refresh_at :
    {Bytes : Type 0}
    → Reader Bytes
    → Reference
    → Bool
    → (List String → FileRead Bytes)
    → Outcome (List String)
    → Reader Bytes × Outcome Bytes
refresh_at reader ref done_after files (failed why) = (reader, failed why)
refresh_at reader ref done_after files (done path) = store_value reader ref done_after (files path)

-- Refresh: whether the context is done at its two tests, and the file system
unfoldable pub refresh :
    {Bytes : Type 0}
    → Reader Bytes
    → Reference
    → Bool
    → Bool
    → (List String → FileRead Bytes)
    → Reader Bytes × Outcome Bytes
refresh reader ref true done_after files = (reader, failed context_done)
refresh reader ref false done_after files =
    refresh_at reader ref done_after files (path_of reader.mount ref)

abbrev pub read_cached :
    {Bytes : Type 0}
    → Reader Bytes
    → Reader Bytes × Outcome Bytes
    → Option Bytes
    → Reader Bytes × Outcome Bytes
read_cached reader refreshed none = refreshed
read_cached reader refreshed (some value) = (reader, done value)

abbrev pub read_valid :
    {Bytes : Type 0}
    → Reader Bytes
    → Reader Bytes × Outcome Bytes
    → Reference
    → Option VolumeError
    → Reader Bytes × Outcome Bytes
read_valid reader refreshed ref (some why) = (reader, failed why)
read_valid reader refreshed ref none = read_cached reader refreshed (lookup ref reader.cache)

-- Read: whether the context is done at its own test and at the two of Refresh
unfoldable pub read :
    {Bytes : Type 0}
    → Reader Bytes
    → Reference
    → Bool
    → Bool
    → Bool
    → (List String → FileRead Bytes)
    → Reader Bytes × Outcome Bytes
read reader ref true done_before done_after files = (reader, failed context_done)
read reader ref false done_before done_after files =
    read_valid reader (refresh reader ref done_before done_after files) ref (validate_reference ref)

-- Forget
unfoldable pub forget : {Bytes : Type 0} → Reader Bytes → Reference → Reader Bytes
forget reader ref = record { mount = reader.mount; cache = remove ref reader.cache }
